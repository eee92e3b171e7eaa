-- ===== src/Config/Tests.antt =====
-- The configuration at concrete inputs.
use go_grpcbridge.Base.{◌≡◌, refl, false, none, pos}
use go_grpcbridge.Config.{BridgeConfig, get_bridge_config_error, apply_bridge_keepalive_defaults}
use go_grpcbridge.Config.Laws.{IsResolved, apply_bridge_keepalive_defaults-IsResolved}

-- The zero BridgeConfig.
abbrev pub zero_config : BridgeConfig
zero_config = record {
  check_origin = none;
  authorize = none;
  read_buffer_size = pos 0;
  write_buffer_size = pos 0;
  read_limit_bytes = pos 0;
  should_disable_read_limit = false;
  ping_interval = pos 0;
  idle_timeout = pos 0;
  should_disable_keepalive = false;
  session_max_lifetime = pos 0;
  should_use_native_grpc_transport = false;
  should_enable_compression = false;
  max_active_connections = pos 0;
  max_connections_per_client = pos 0;
  max_upgrades_per_client_per_minute = pos 0;
  on_connect = false;
  on_disconnect = false;
}

-- Every limit of the abuse guard is set.
abbrev pub limited_config : BridgeConfig
limited_config = record zero_config {
  max_active_connections = pos 2;
  max_connections_per_client = pos 1;
  max_upgrades_per_client_per_minute = pos 3;
}

accepts_zero : get_bridge_config_error zero_config ≡ none
unfolding get_bridge_config_error
accepts_zero = refl

apply_bridge_keepalive_defaults-IsResolved_example :
    (get_bridge_config_error (apply_bridge_keepalive_defaults zero_config) ≡ none)
    × IsResolved (apply_bridge_keepalive_defaults zero_config)
apply_bridge_keepalive_defaults-IsResolved_example =
    apply_bridge_keepalive_defaults-IsResolved zero_config accepts_zero
