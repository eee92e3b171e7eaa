-- ===== src/Client/Tests.antt =====
-- Clients at concrete targets and options.
use go_grpcbridge.Base.{
  ◌≡◌, refl, false, none, some, List, [], ◌∷◌, ◌⊎◌, inl, inr, arith, Text, codes, pos, negsuc,
  Option,
}
use go_grpcbridge.Policy.{Dialer, Backoff, DialOption, ReconnectConfig, finite}
use go_grpcbridge.Policy.Laws.{IsSound}
use go_grpcbridge.Client.{
  TunnelConfig, TunnelError, get_tunnel_config_error, build_tunnel_conn, context_dialer,
}
use go_grpcbridge.Target.{build_tunnel_grpc_dial_target}
use go_grpcbridge.Client.Options.{ClientOption, DialArgument}
use go_grpcbridge.Client.Laws.{IsTunnelUrl, Dials, dial_options, build_tunnel_conn-cases}
use go_grpcbridge.Target.Tests.{parser}

-- gRPC's own defaults.
abbrev defaults : Backoff
defaults = record {
  base_delay = pos 1_000_000_000;
  multiplier = finite (pos 16) (negsuc 0);
  jitter = finite (pos 2) (negsuc 0);
  max_delay = pos 120_000_000_000;
}

abbrev policy : ReconnectConfig
policy = record {
  initial_delay = pos 500_000_000;
  max_delay = pos 0;
  multiplier = finite (pos 2) (pos 0);
  jitter = finite (pos 0) (pos 0);
  min_connect_timeout = pos 0;
}

defaults-IsSound : IsSound defaults
defaults-IsSound = record {
  base_delay = omega arith;
  max_delay = omega arith;
  multiplier = (pos 16, (negsuc 0, (refl, omega arith)));
  jitter = (pos 2, (negsuc 0, (refl, omega arith)));
}

abbrev plain_config : TunnelConfig
plain_config = record {
  target = codes ":8080";
  tls_config = none;
  should_use_tls = false;
  headers = none;
  subprotocols = [];
  proxy = none;
  handshake_timeout = pos 0;
  should_enable_compression = false;
  reconnect_config = some policy;
  keepalive_config = none;
  grpc_options = DialOption.caller_option 1 ∷ [];
}

build_tunnel_conn-cases_example :
    ((e : TunnelError) × ((get_tunnel_config_error parser plain_config ≡ some e)
        × (build_tunnel_conn parser defaults plain_config ≡ inl e)))
    ⊎ ((url : Text) × ((dialer : Option Dialer) × ((get_tunnel_config_error parser plain_config
              ≡ none)
            × IsTunnelUrl parser plain_config url
            × Dials parser plain_config url dialer
            × (build_tunnel_conn parser defaults plain_config
                ≡ inr (record {
                  dial_target = build_tunnel_grpc_dial_target parser plain_config.target url;
                  options = dial_options defaults plain_config (context_dialer dialer);
                })))))
build_tunnel_conn-cases_example = build_tunnel_conn-cases parser defaults plain_config

abbrev managed_arguments : List DialArgument
managed_arguments =
    DialArgument.grpc_option (DialOption.caller_option 1)
    ∷ DialArgument.tunnel_option (ClientOption.with_handshake_timeout (pos 0))
    ∷ []
