-- ===== src/Config/Laws.antt =====
-- What the validation of BridgeConfig accepts, and what the accepted configurations resolve to.
use go_grpcbridge.Base.{◌≡◌, ◌⊎◌, ◌↔◌, true, false, none, arith, pos, ◌≤ℤ◌, ◌<ℤ◌}
use go_grpcbridge.Config.{
  BridgeConfig, get_bridge_config_error, apply_bridge_keepalive_defaults,
  get_bridge_read_limit_bytes, build_bridge_ping_write_timeout,
}

-- The documented rules: nothing is negative, a disabled feature has no value, and an idle timeout
-- comes with a shorter ping interval.
pub record IsValid (cfg : BridgeConfig) : Type 0 where
  pub read_buffer : pos 0 ≤ℤ cfg.read_buffer_size
  pub write_buffer : pos 0 ≤ℤ cfg.write_buffer_size
  pub read_limit : pos 0 ≤ℤ cfg.read_limit_bytes
  pub limit_off : cfg.should_disable_read_limit ≡ true → cfg.read_limit_bytes ≤ℤ pos 0
  pub ping : pos 0 ≤ℤ cfg.ping_interval
  pub idle : pos 0 ≤ℤ cfg.idle_timeout
  pub ping_before_idle :
      pos 0 <ℤ cfg.idle_timeout
      → (pos 0 <ℤ cfg.ping_interval) × (cfg.ping_interval <ℤ cfg.idle_timeout)
  pub keepalive_off :
      cfg.should_disable_keepalive ≡ true
      → (cfg.ping_interval ≤ℤ pos 0) × (cfg.idle_timeout ≤ℤ pos 0)
  pub lifetime : pos 0 ≤ℤ cfg.session_max_lifetime
  pub active : pos 0 ≤ℤ cfg.max_active_connections
  pub per_client : pos 0 ≤ℤ cfg.max_connections_per_client
  pub upgrades : pos 0 ≤ℤ cfg.max_upgrades_per_client_per_minute

get_bridge_config_error_sound :
    (cfg : BridgeConfig) → get_bridge_config_error cfg ≡ none → IsValid cfg
unfolding get_bridge_config_error
get_bridge_config_error_sound cfg h = ground arith

get_bridge_config_error_complete :
    (cfg : BridgeConfig) → IsValid cfg → get_bridge_config_error cfg ≡ none
unfolding get_bridge_config_error
get_bridge_config_error_complete cfg v = ground arith

-- GetBridgeConfigError accepts exactly the configurations that the documented rules allow.
pub get_bridge_config_error-eq-none_iff :
    (cfg : BridgeConfig) → (get_bridge_config_error cfg ≡ none) ↔ IsValid cfg
get_bridge_config_error-eq-none_iff cfg =
    (get_bridge_config_error_sound cfg, get_bridge_config_error_complete cfg)

-- What a handler resolves from its configuration.
pub record IsResolved (cfg : BridgeConfig) : Type 0 where
  pub keeps_alive :
      cfg.should_disable_keepalive ≡ false
      → (pos 0 <ℤ cfg.ping_interval) ⊎ (pos 0 <ℤ cfg.idle_timeout)
  pub reads_bounded :
      cfg.should_disable_read_limit ≡ false → pos 0 <ℤ get_bridge_read_limit_bytes cfg
  pub ping_write : pos 0 <ℤ build_bridge_ping_write_timeout cfg
  pub ping_write_in_idle :
      pos 0 <ℤ cfg.idle_timeout → build_bridge_ping_write_timeout cfg <ℤ cfg.idle_timeout

-- The keepalive defaults turn an accepted configuration into an accepted one that has a keepalive
-- unless it is disabled, a positive read limit unless it is disabled, and a positive ping write
-- timeout that ends before the idle timeout does, where there is one.
pub apply_bridge_keepalive_defaults-IsResolved :
    (cfg : BridgeConfig)
    → get_bridge_config_error cfg ≡ none
    → (get_bridge_config_error (apply_bridge_keepalive_defaults cfg) ≡ none)
      × IsResolved (apply_bridge_keepalive_defaults cfg)
unfolding get_bridge_config_error apply_bridge_keepalive_defaults get_bridge_read_limit_bytes
    build_bridge_ping_write_timeout
apply_bridge_keepalive_defaults-IsResolved cfg h = ground arith
