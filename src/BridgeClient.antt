-- ===== src/BridgeClient.antt =====
-- pkg/bridge/client.go: the dialer that a client configuration gives, and its dial. gorilla's dial is an
-- argument, as are the types of its proxy selector, its TLS settings and its errors; it answers with the
-- frames that the socket will give.
use go_grpcbridge.Base.{Bool, true, false, Option, none, List, [], ◌⊎◌, inl, inr, pos, Text, Dict}
use go_grpcbridge.Clock.{Duration}
use go_grpcbridge.Conn.{Incoming, Conn, new_web_socket_conn}
use go_grpcbridge.Buffers.{Pools, start_build}

module _ (Proxy Tls Err : Type 0) where
  -- ClientConfig.
  pub record BridgeClientConfig : Type 0 where
    pub headers : Option (Dict (List Text))
    pub subprotocols : List Text
    pub proxy : Option Proxy
    pub handshake_timeout : Duration
    pub tls_config : Option Tls
    pub should_enable_compression : Bool

  -- The fields of websocket.Dialer that are set, but for the pool of write buffers.
  pub record WebSocketDialer : Type 0 where
    pub tls_client_config : Option Tls
    pub subprotocols : List Text
    pub proxy : Option Proxy
    pub handshake_timeout : Duration
    pub enable_compression : Bool

  -- What DialOptionWithConfig captures: the dialer and a copy of the headers.
  pub build_web_socket_dialer : BridgeClientConfig → WebSocketDialer × Option (Dict (List Text))
  build_web_socket_dialer cfg = (
    record {
      tls_client_config = cfg.tls_config;
      subprotocols = cfg.subprotocols;
      proxy = cfg.proxy;
      handshake_timeout = cfg.handshake_timeout;
      enable_compression = cfg.should_enable_compression;
    },
    cfg.headers,
  )

  -- What the dial of DialOptionWithConfig gives gRPC: the error, or the socket as a net.Conn.
  pub wrap_dialed : Err ⊎ List Incoming → Err ⊎ Conn
  unfolding new_web_socket_conn
  wrap_dialed (inl err) = inl err
  wrap_dialed (inr incoming) = inr (new_web_socket_conn true incoming)

  -- DialOptionWithConfig: the function that gRPC dials with, which ignores gRPC's own target; the pool
  -- of write buffers is asked for when the option is made.
  pub dial_option_with_config :
      (WebSocketDialer → Text → Option (Dict (List Text)) → Err ⊎ List Incoming)
      → Text
      → BridgeClientConfig
      → Pools
      → (Text → Err ⊎ Conn) × Pools
  unfolding build_web_socket_dialer wrap_dialed
  dial_option_with_config dial url cfg pools =
      let (dialer, headers) = build_web_socket_dialer cfg in
      ((λ target. wrap_dialed (dial dialer url headers)), start_build (pos 4096) pools)

  abbrev no_config : BridgeClientConfig
  no_config = record {
    headers = none;
    subprotocols = [];
    proxy = none;
    handshake_timeout = pos 0;
    tls_config = none;
    should_enable_compression = false;
  }

  -- DialOption.
  pub dial_option :
      (WebSocketDialer → Text → Option (Dict (List Text)) → Err ⊎ List Incoming)
      → Text
      → Pools
      → (Text → Err ⊎ Conn) × Pools
  unfolding dial_option_with_config
  dial_option dial url pools = dial_option_with_config dial url no_config pools
