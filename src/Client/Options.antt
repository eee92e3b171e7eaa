-- ===== src/Client/Options.antt =====
-- pkg/grpctunnel/client.go: the options of a client and DialContext. An option is a constructor in place
-- of the closure it returns.
use go_grpcbridge.Base.{
  ℕ, ◌++◌, Bool, true, false, Option, none, some, List, [], ◌∷◌, ◌⊎◌, inl, pos, Text, Dict, lookup,
  insert,
}
use go_grpcbridge.Clock.{Duration}
use go_grpcbridge.Target.{UrlParser}
use go_grpcbridge.Policy.{ReconnectConfig, KeepaliveConfig, Backoff, DialOption}
use go_grpcbridge.Client.{
  TunnelConfig, TunnelError, unsupported_option, DialCall, build_tunnel_conn,
}

-- clientOptions: those of client.go, and the flags that client_wasm.go adds.
pub record ClientOptions : Type 0 where
  pub tls_config : Option ℕ
  pub has_tls : Bool
  pub headers : Option (Dict (List Text))
  pub has_headers : Bool
  pub subprotocols : List Text
  pub proxy : Option ℕ
  pub has_proxy : Bool
  pub handshake_timeout : Duration
  pub has_timeout : Bool
  pub should_enable_compression : Bool
  pub reconnect : Option ReconnectConfig
  pub keepalive : Option KeepaliveConfig

pub no_client_options : ClientOptions
no_client_options = record {
  tls_config = none;
  has_tls = false;
  headers = none;
  has_headers = false;
  subprotocols = [];
  proxy = none;
  has_proxy = false;
  handshake_timeout = pos 0;
  has_timeout = false;
  should_enable_compression = false;
  reconnect = none;
  keepalive = none;
}

-- The With… functions; the key of a header is canonical.
pub data ClientOption : Type 0 where
  with_tls : Option ℕ → ClientOption
  with_headers : Option (Dict (List Text)) → ClientOption
  with_header : Text → Text → ClientOption
  with_subprotocols : List Text → ClientOption
  with_proxy : Option ℕ → ClientOption
  with_handshake_timeout : Duration → ClientOption
  with_dial_compression : ClientOption
  with_reconnect_policy : ReconnectConfig → ClientOption
  with_tunnel_keepalive : Duration → Duration → ClientOption

abbrev pub or_empty : Option (Dict (List Text)) → Dict (List Text)
or_empty none = []
or_empty (some header) = header

abbrev pub values_of : Option (List Text) → List Text
values_of none = []
values_of (some values) = values

-- http.Header.Add.
pub add_header : Text → Text → Dict (List Text) → Dict (List Text)
add_header key value header = insert key (values_of (lookup key header) ++ value ∷ []) header

unfoldable pub apply_client_option : ClientOption → ClientOptions → ClientOptions
unfolding add_header
apply_client_option (with_tls cfg) o = record o { has_tls = true; tls_config = cfg }
apply_client_option (with_headers header) o = record o { has_headers = true; headers = header }
apply_client_option (with_header key value) o = record o {
  has_headers = true;
  headers = some (add_header key value (or_empty o.headers));
}
apply_client_option (with_subprotocols names) o = record o { subprotocols = names }
apply_client_option (with_proxy proxy) o = record o { has_proxy = true; proxy = proxy }
apply_client_option (with_handshake_timeout timeout) o = record o {
  has_timeout = true;
  handshake_timeout = timeout;
}
apply_client_option with_dial_compression o = record o { should_enable_compression = true }
apply_client_option (with_reconnect_policy cfg) o = record o { reconnect = some cfg }
apply_client_option (with_tunnel_keepalive interval timeout) o = record o {
  keepalive = some (record { interval = interval; timeout = timeout });
}

unfoldable pub apply_client_options : ClientOptions → List ClientOption → ClientOptions
apply_client_options o [] = o
apply_client_options o (opt ∷ opts) = apply_client_options (apply_client_option opt o) opts

-- An argument of Dial: anything but the two kinds of option is refused.
pub data DialArgument : Type 0 where
  tunnel_option : ClientOption → DialArgument
  grpc_option : DialOption → DialArgument
  other_value : DialArgument

-- splitDialOptions.
unfoldable pub split_dial_options : List DialArgument → Option (List ClientOption × List DialOption)
split_dial_options [] = some ([], [])
split_dial_options (tunnel_option opt ∷ rest) = elim (split_dial_options rest) [
  | none ↦ none
  | some (tunnel, grpc) ↦ some (opt ∷ tunnel, grpc)
]
split_dial_options (grpc_option opt ∷ rest) = elim (split_dial_options rest) [
  | none ↦ none
  | some (tunnel, grpc) ↦ some (tunnel, opt ∷ grpc)
]
split_dial_options (other_value ∷ rest) = none

-- The configuration that DialContext builds.
unfoldable pub dial_config : Text → ClientOptions → List DialOption → TunnelConfig
dial_config target o grpc = record {
  target = target;
  tls_config = o.tls_config;
  should_use_tls = o.has_tls;
  headers = o.headers;
  subprotocols = o.subprotocols;
  proxy = o.proxy;
  handshake_timeout = o.handshake_timeout;
  should_enable_compression = o.should_enable_compression;
  reconnect_config = o.reconnect;
  keepalive_config = o.keepalive;
  grpc_options = grpc;
}

-- DialContext of client.go, which Dial calls.
unfoldable pub dial_context :
    UrlParser → Backoff → Text → List DialArgument → TunnelError ⊎ DialCall
unfolding dial_config no_client_options
dial_context parse defaults target arguments = elim (split_dial_options arguments) [
  | none ↦ inl unsupported_option
  | some (tunnel, grpc) ↦
      build_tunnel_conn parse defaults
        (dial_config target (apply_client_options no_client_options tunnel) grpc)
]
