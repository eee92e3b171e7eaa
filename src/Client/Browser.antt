-- ===== src/Client/Browser.antt =====
-- pkg/grpctunnel/client_wasm.go: the validation of TunnelConfig in a browser, which manages TLS, headers,
-- the proxy and the compression itself, BuildTunnelConn and DialContext.
use go_grpcbridge.Base.{
  Bool, true, false, ◌||◌, Option, none, some, List, ◌⊎◌, inl, inr, pos, zero, suc, negsuc, Text,
}
use go_grpcbridge.Clock.{Duration}
use go_grpcbridge.Config.{reject, ◌>>◌}
use go_grpcbridge.Target.{UrlParser, Location, DialTargetError, parse_browser_tunnel_target_url}
use go_grpcbridge.Policy.{
  get_reconnect_config_error, get_keepalive_config_error, Backoff, browser_dialer, policy_options,
  DialOption,
}
use go_grpcbridge.Client.{
  TunnelConfig, TunnelError, tls_unsupported, headers_unsupported, proxy_unsupported,
  handshake_timeout_unsupported, compression_unsupported, unsupported_option, target_error,
  DialCall, is_some, policy_check, target_check, dial_call,
}
use go_grpcbridge.Client.Options.{
  ClientOptions, no_client_options, DialArgument, apply_client_options, split_dial_options,
  dial_config,
}

abbrev pub not_zero : Duration → Bool
not_zero (pos zero) = false
not_zero (pos (suc n)) = true
not_zero (negsuc n) = true

-- getTunnelConfigErrorWithoutTarget of client_wasm.go.
unfoldable pub get_browser_config_error_without_target : TunnelConfig → Option TunnelError
get_browser_config_error_without_target cfg = do
  reject (cfg.should_use_tls || is_some cfg.tls_config) tls_unsupported
  reject (is_some cfg.headers) headers_unsupported
  reject (is_some cfg.proxy) proxy_unsupported
  reject (not_zero cfg.handshake_timeout) handshake_timeout_unsupported
  reject cfg.should_enable_compression compression_unsupported
  policy_check get_reconnect_config_error cfg.reconnect_config
  policy_check get_keepalive_config_error cfg.keepalive_config

-- buildTunnelTargetURL of client_wasm.go.
pub build_browser_target_url : Option Location → TunnelConfig → DialTargetError ⊎ Text
build_browser_target_url page cfg = parse_browser_tunnel_target_url page cfg.target false

-- GetTunnelConfigError of client_wasm.go.
unfoldable pub get_browser_config_error : Option Location → TunnelConfig → Option TunnelError
unfolding get_browser_config_error_without_target build_browser_target_url
get_browser_config_error page cfg = do
  get_browser_config_error_without_target cfg
  target_check (build_browser_target_url page cfg)

-- BuildTunnelConn of client_wasm.go.
unfoldable pub build_browser_conn :
    UrlParser → Option Location → Backoff → TunnelConfig → TunnelError ⊎ DialCall
unfolding dial_call
build_browser_conn parse page defaults cfg = elim (get_browser_config_error_without_target cfg) [
  | some e ↦ inl e
  | none ↦ elim (build_browser_target_url page cfg) [
    | inl e ↦ inl (target_error e)
    | inr url ↦
        dial_call parse cfg url (browser_dialer url cfg.subprotocols)
          (policy_options defaults cfg.reconnect_config cfg.keepalive_config)
  ]
]

-- The settings that DialContext refuses before it builds a configuration.
unfoldable pub refused_settings : ClientOptions → Option TunnelError
refused_settings o = do
  reject o.has_headers headers_unsupported
  reject o.has_proxy proxy_unsupported
  reject o.has_timeout handshake_timeout_unsupported

unfoldable pub dial_browser_options :
    UrlParser
    → Option Location
    → Backoff
    → Text
    → ClientOptions
    → List DialOption
    → TunnelError ⊎ DialCall
unfolding refused_settings
dial_browser_options parse page defaults target o grpc = elim (refused_settings o) [
  | some e ↦ inl e
  | none ↦ build_browser_conn parse page defaults (dial_config target o grpc)
]

-- DialContext of client_wasm.go, which Dial calls.
unfoldable pub dial_browser_context :
    UrlParser → Option Location → Backoff → Text → List DialArgument → TunnelError ⊎ DialCall
unfolding dial_browser_options
dial_browser_context parse page defaults target arguments = elim (split_dial_options arguments) [
  | none ↦ inl unsupported_option
  | some (tunnel, grpc) ↦
      dial_browser_options parse page defaults target
        (apply_client_options no_client_options tunnel) grpc
]
