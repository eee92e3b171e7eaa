-- ===== src/HandlerConfig.antt =====
-- The configuration of pkg/bridge/bridge.go: Config, the defaults of NewHandler, getHandlerConfigError,
-- the read limit and the ping write timeout.
pub mod Laws
pub mod Tests
use go_grpcbridge.Base.{
  ℕ, ◌*◌, ◌≡◌, Bool, true, false, not, ◌&&◌, ◌||◌, Option, none, some, if◌then◌else◌, ◌==◌, ℤ, pos,
  is_negative, is_positive, leℤ, ltℤ, Text,
}
use go_grpcbridge.Clock.{Duration, second}
use go_grpcbridge.Net.{Request}
use go_grpcbridge.Config.{
  ConfigError, reject, ◌>>◌, default_web_socket_buffer_size, default_read_limit_bytes,
}

-- Config. A nil Logger is replaced by one that prints, and logging is left out.
pub record HandlerConfig : Type 0 where
  pub target_address : Text
  pub check_origin : Option (Option Request → Bool)
  pub read_buffer_size : ℤ
  pub write_buffer_size : ℤ
  pub read_limit_bytes : ℤ
  pub should_disable_read_limit : Bool
  pub ping_interval : Duration
  pub idle_timeout : Duration
  pub backend_dial_timeout : Duration
  pub should_require_loopback_backend : Bool
  pub max_active_connections : ℤ
  pub max_connections_per_client : ℤ
  pub max_upgrades_per_client_per_minute : ℤ
  pub should_enable_compression : Bool
  pub on_connect : Bool
  pub on_disconnect : Bool

is_unset : ℤ → Bool
is_unset (pos n) = n == 0
is_unset (ℤ.negsuc n) = false

-- The defaults that NewHandler fills in.
unfoldable pub apply_handler_defaults : HandlerConfig → HandlerConfig
unfolding is_unset
apply_handler_defaults cfg = record cfg {
  read_buffer_size =
      if is_unset cfg.read_buffer_size
      then default_web_socket_buffer_size
      else cfg.read_buffer_size;
  write_buffer_size =
      if is_unset cfg.write_buffer_size
      then default_web_socket_buffer_size
      else cfg.write_buffer_size;
  backend_dial_timeout =
      if is_unset cfg.backend_dial_timeout then pos (10 * second) else cfg.backend_dial_timeout;
}

-- getHandlerConfigError.
unfoldable pub get_handler_config_error : HandlerConfig → Option ConfigError
get_handler_config_error cfg = do
  reject (is_negative cfg.read_buffer_size) ConfigError.read_buffer_negative
  reject (is_negative cfg.write_buffer_size) ConfigError.write_buffer_negative
  reject (is_negative cfg.read_limit_bytes) ConfigError.read_limit_negative
  reject (cfg.should_disable_read_limit && is_positive cfg.read_limit_bytes)
      ConfigError.read_limit_set_while_disabled
  reject (is_negative cfg.ping_interval) ConfigError.ping_interval_negative
  reject (is_negative cfg.idle_timeout) ConfigError.idle_timeout_negative
  reject (is_negative cfg.backend_dial_timeout) ConfigError.backend_dial_timeout_negative
  reject (is_positive cfg.idle_timeout && leℤ cfg.ping_interval (pos 0))
      ConfigError.ping_interval_required
  reject (is_positive cfg.idle_timeout && leℤ cfg.idle_timeout cfg.ping_interval)
      ConfigError.ping_interval_not_less
  reject (is_negative cfg.max_active_connections) ConfigError.max_active_negative
  reject (is_negative cfg.max_connections_per_client) ConfigError.max_per_client_negative
  reject (is_negative cfg.max_upgrades_per_client_per_minute) ConfigError.max_upgrades_negative

-- getHandlerReadLimitBytes.
pub get_handler_read_limit_bytes : HandlerConfig → ℤ
get_handler_read_limit_bytes cfg =
    if cfg.should_disable_read_limit
    then pos 0
    else if is_positive cfg.read_limit_bytes
    then cfg.read_limit_bytes
    else default_read_limit_bytes

-- buildHandlerPingWriteTimeout.
pub build_handler_ping_write_timeout : HandlerConfig → Duration
build_handler_ping_write_timeout cfg =
    let capped : Duration =
      if is_positive cfg.idle_timeout
        && (leℤ cfg.ping_interval (pos 0) || ltℤ cfg.idle_timeout cfg.ping_interval)
      then cfg.idle_timeout
      else cfg.ping_interval in
    if leℤ capped (pos 0) then pos second else capped
