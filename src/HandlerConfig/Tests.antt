-- ===== src/HandlerConfig/Tests.antt =====
-- The configuration of pkg/bridge at concrete inputs.
use go_grpcbridge.Base.{◌*◌, ◌≡◌, refl, false, none, pos, codes}
use go_grpcbridge.Clock.{second}
use go_grpcbridge.HandlerConfig.{HandlerConfig, apply_handler_defaults, get_handler_config_error}

abbrev pub handler_config : HandlerConfig
handler_config = record {
  target_address = codes "localhost:50051";
  check_origin = none;
  read_buffer_size = pos 0;
  write_buffer_size = pos 1024;
  read_limit_bytes = pos 0;
  should_disable_read_limit = false;
  ping_interval = pos second;
  idle_timeout = pos (2 * second);
  backend_dial_timeout = pos 0;
  should_require_loopback_backend = false;
  max_active_connections = pos 2;
  max_connections_per_client = pos 1;
  max_upgrades_per_client_per_minute = pos 3;
  should_enable_compression = false;
  on_connect = false;
  on_disconnect = false;
}

accepts_handler_config : get_handler_config_error (apply_handler_defaults handler_config) ≡ none
unfolding get_handler_config_error apply_handler_defaults
accepts_handler_config = refl
