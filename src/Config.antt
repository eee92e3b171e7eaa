-- ===== src/Config.antt =====
-- pkg/grpctunnel/api.go (BridgeConfig) and the configuration half of pkg/grpctunnel/server.go:
-- GetBridgeConfigError, the keepalive defaults, the read limit and the ping write timeout.
-- An error of fmt.Errorf is a constructor; a hook is present or nil.
pub mod Laws
pub mod Tests
use go_grpcbridge.Base.{
  ℕ, ◌*◌, ◌≡◌, Bool, true, false, not, ◌&&◌, ◌||◌, Option, none, some, if◌then◌else◌, ltb, ℤ, pos,
  is_negative, is_positive, leℤ, ltℤ,
}
use go_grpcbridge.Clock.{Duration, second}
use go_grpcbridge.Net.{Request}

pub record BridgeConfig : Type 0 where
  pub check_origin : Option (Option Request → Bool)
  -- The hook's answer: true stands for a nil error.
  pub authorize : Option (Request → Bool)
  pub read_buffer_size : ℤ
  pub write_buffer_size : ℤ
  pub read_limit_bytes : ℤ
  pub should_disable_read_limit : Bool
  pub ping_interval : Duration
  pub idle_timeout : Duration
  pub should_disable_keepalive : Bool
  pub session_max_lifetime : Duration
  pub should_use_native_grpc_transport : Bool
  pub should_enable_compression : Bool
  pub max_active_connections : ℤ
  pub max_connections_per_client : ℤ
  pub max_upgrades_per_client_per_minute : ℤ
  pub on_connect : Bool
  pub on_disconnect : Bool

pub data ConfigError : Type 0 where
  read_buffer_negative write_buffer_negative read_limit_negative : ConfigError
  read_limit_set_while_disabled ping_interval_negative idle_timeout_negative : ConfigError
  ping_interval_required ping_interval_not_less keepalive_set_while_disabled : ConfigError
  session_lifetime_negative max_active_negative max_per_client_negative : ConfigError
  max_upgrades_negative backend_dial_timeout_negative : ConfigError

-- `if bad { return err }`, and go on otherwise.
abbrev pub reject {ℓ} : {E : Type ℓ} → Bool → E → Option E
reject true e = some e
reject false e = none

infixl 5 ◌>>◌
abbrev pub ◌>>◌ {ℓ} : {E : Type ℓ} → Option E → Option E → Option E
none >> k = k
some e >> k = some e

-- GetBridgeConfigError.
pub get_bridge_config_error : BridgeConfig → Option ConfigError
get_bridge_config_error cfg = do
  reject (is_negative cfg.read_buffer_size) ConfigError.read_buffer_negative
  reject (is_negative cfg.write_buffer_size) ConfigError.write_buffer_negative
  reject (is_negative cfg.read_limit_bytes) ConfigError.read_limit_negative
  reject (cfg.should_disable_read_limit && is_positive cfg.read_limit_bytes)
      ConfigError.read_limit_set_while_disabled
  reject (is_negative cfg.ping_interval) ConfigError.ping_interval_negative
  reject (is_negative cfg.idle_timeout) ConfigError.idle_timeout_negative
  reject (is_positive cfg.idle_timeout && leℤ cfg.ping_interval (pos 0))
      ConfigError.ping_interval_required
  reject (is_positive cfg.idle_timeout && leℤ cfg.idle_timeout cfg.ping_interval)
      ConfigError.ping_interval_not_less
  reject
      (cfg.should_disable_keepalive
        && (is_positive cfg.ping_interval || is_positive cfg.idle_timeout))
      ConfigError.keepalive_set_while_disabled
  reject (is_negative cfg.session_max_lifetime) ConfigError.session_lifetime_negative
  reject (is_negative cfg.max_active_connections) ConfigError.max_active_negative
  reject (is_negative cfg.max_connections_per_client) ConfigError.max_per_client_negative
  reject (is_negative cfg.max_upgrades_per_client_per_minute) ConfigError.max_upgrades_negative

abbrev pub default_bridge_ping_interval : Duration
default_bridge_ping_interval = pos (30 * second)

abbrev pub default_bridge_idle_timeout : Duration
default_bridge_idle_timeout = pos (120 * second)

-- applyBridgeKeepaliveDefaults.
pub apply_bridge_keepalive_defaults : BridgeConfig → BridgeConfig
apply_bridge_keepalive_defaults cfg =
    if cfg.should_disable_keepalive || is_positive cfg.ping_interval || is_positive cfg.idle_timeout
    then cfg
    else record cfg {
      ping_interval = default_bridge_ping_interval;
      idle_timeout = default_bridge_idle_timeout;
    }

abbrev pub default_web_socket_buffer_size : ℤ
default_web_socket_buffer_size = pos 4096

abbrev pub default_read_limit_bytes : ℤ
default_read_limit_bytes = pos 16777216

-- getBridgeReadLimitBytes.
unfoldable pub get_bridge_read_limit_bytes : BridgeConfig → ℤ
get_bridge_read_limit_bytes cfg =
    if cfg.should_disable_read_limit
    then pos 0
    else if is_positive cfg.read_limit_bytes
    then cfg.read_limit_bytes
    else default_read_limit_bytes

-- buildBridgePingWriteTimeout.
pub build_bridge_ping_write_timeout : BridgeConfig → Duration
build_bridge_ping_write_timeout cfg =
    let capped : Duration =
      if is_positive cfg.idle_timeout
        && (leℤ cfg.ping_interval (pos 0) || ltℤ cfg.idle_timeout cfg.ping_interval)
      then cfg.idle_timeout
      else cfg.ping_interval in
    if leℤ capped (pos 0) then pos second else capped
