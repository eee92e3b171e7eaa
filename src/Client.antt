-- ===== src/Client.antt =====
-- pkg/grpctunnel/client.go and client_wasm.go: the validation of TunnelConfig, and BuildTunnelConn, natively
-- and (the child Browser) in a browser; the child Options has the options of a client and DialContext. A result is what is
-- handed to grpc.DialContext; url.Parse and gRPC's default backoff are arguments. A pointer or a
-- function of the caller is known by a number.
pub mod Options
pub mod Browser
pub mod Laws
pub mod Dial
pub mod Tests
use go_grpcbridge.Base.{
  ℕ, ◌++◌, Bool, true, false, not, ◌||◌, Option, none, some, List, [], ◌∷◌, ◌⊎◌, inl, inr,
  if◌then◌else◌, ℤ, pos, is_negative, Text, Dict, lookup, insert,
}
use go_grpcbridge.Clock.{Duration}
use go_grpcbridge.Config.{reject, ◌>>◌}
use go_grpcbridge.Target.{
  TargetUrl, UrlParser, DialTargetError, parse_tunnel_target_url, build_tunnel_grpc_dial_target,
}
use go_grpcbridge.Policy.{
  ReconnectConfig, KeepaliveConfig, PolicyError, get_reconnect_config_error,
  get_keepalive_config_error, Backoff, Dialer, DialOption, context_dialer, policy_options,
  optional_error,
}

-- TunnelConfig.
pub record TunnelConfig : Type 0 where
  pub target : Text
  pub tls_config : Option ℕ
  pub should_use_tls : Bool
  pub headers : Option (Dict (List Text))
  pub subprotocols : List Text
  pub proxy : Option ℕ
  pub handshake_timeout : Duration
  pub should_enable_compression : Bool
  pub reconnect_config : Option ReconnectConfig
  pub keepalive_config : Option KeepaliveConfig
  pub grpc_options : List DialOption

pub data TunnelError : Type 0 where
  handshake_timeout_negative : TunnelError
  tls_unsupported headers_unsupported proxy_unsupported : TunnelError
  handshake_timeout_unsupported compression_unsupported : TunnelError
  policy_error : PolicyError → TunnelError
  target_error : DialTargetError → TunnelError
  unsupported_option : TunnelError

-- What grpc.DialContext is called with.
pub record DialCall : Type 0 where
  pub dial_target : Text
  pub options : List DialOption

abbrev pub is_some {ℓ} : {A : Type ℓ} → Option A → Bool
is_some none = false
is_some (some a) = true

abbrev pub policy_check {ℓ} :
    {A : Type ℓ} → (A → Option PolicyError) → Option A → Option TunnelError
policy_check validate cfg = elim (optional_error validate cfg) [
  | none ↦ none
  | some e ↦ some (policy_error e)
]

-- getTunnelConfigErrorWithoutTarget of client.go.
pub get_tunnel_config_error_without_target : TunnelConfig → Option TunnelError
get_tunnel_config_error_without_target cfg = do
  reject (is_negative cfg.handshake_timeout) handshake_timeout_negative
  policy_check get_reconnect_config_error cfg.reconnect_config
  policy_check get_keepalive_config_error cfg.keepalive_config

-- buildTunnelTargetURL of client.go.
pub build_tunnel_target_url : UrlParser → TunnelConfig → DialTargetError ⊎ Text
build_tunnel_target_url parse cfg =
    parse_tunnel_target_url parse cfg.target (cfg.should_use_tls || is_some cfg.tls_config)

abbrev pub target_check : DialTargetError ⊎ Text → Option TunnelError
target_check (inl e) = some (target_error e)
target_check (inr url) = none

-- GetTunnelConfigError of client.go.
pub get_tunnel_config_error : UrlParser → TunnelConfig → Option TunnelError
unfolding get_tunnel_config_error_without_target build_tunnel_target_url
get_tunnel_config_error parse cfg = do
  get_tunnel_config_error_without_target cfg
  target_check (build_tunnel_target_url parse cfg)

-- buildTunnelDialer for a URL: none is the dialer that only returns the error of url.Parse.
pub build_tunnel_dialer : UrlParser → TunnelConfig → Text → Option Dialer
build_tunnel_dialer parse cfg url = elim (parse url) [
  | none ↦ none
  | some u ↦ some (record {
    url = u.text;
    tls_config = cfg.tls_config;
    headers = cfg.headers;
    subprotocols = cfg.subprotocols;
    proxy = cfg.proxy;
    handshake_timeout = cfg.handshake_timeout;
    should_enable_compression = cfg.should_enable_compression;
  })
]

-- The call of grpc.DialContext for a tunnel URL: the policies' options, the caller's, and a dialer.
pub dial_call :
    UrlParser
    → TunnelConfig
    → Text
    → DialOption
    → PolicyError ⊎ List DialOption
    → TunnelError ⊎ DialCall
dial_call parse cfg url dialer (inl e) = inl (policy_error e)
dial_call parse cfg url dialer (inr policies) = inr (record {
  dial_target = build_tunnel_grpc_dial_target parse cfg.target url;
  options = policies ++ (cfg.grpc_options ++ dialer ∷ []);
})

-- BuildTunnelConn of client.go.
pub build_tunnel_conn : UrlParser → Backoff → TunnelConfig → TunnelError ⊎ DialCall
unfolding dial_call build_tunnel_dialer
build_tunnel_conn parse defaults cfg = elim (get_tunnel_config_error_without_target cfg) [
  | some e ↦ inl e
  | none ↦ elim (build_tunnel_target_url parse cfg) [
    | inl e ↦ inl (target_error e)
    | inr url ↦
        dial_call parse cfg url (context_dialer (build_tunnel_dialer parse cfg url))
          (policy_options defaults cfg.reconnect_config cfg.keepalive_config)
  ]
]
