-- ===== src/HandlerConfig/Laws.antt =====
-- What the validation of pkg/bridge accepts, and how it compares with that of pkg/grpctunnel.
use go_grpcbridge.Base.{◌≡◌, true, false, none, arith, pos, ◌<ℤ◌}
use go_grpcbridge.HandlerConfig.{
  HandlerConfig, apply_handler_defaults, get_handler_config_error, get_handler_read_limit_bytes,
  build_handler_ping_write_timeout,
}

-- The documented rules, after the defaults of NewHandler.
pub record IsUsable (cfg : HandlerConfig) : Type 0 where
  pub read_buffer : pos 0 <ℤ cfg.read_buffer_size
  pub write_buffer : pos 0 <ℤ cfg.write_buffer_size
  pub dial_timeout : pos 0 <ℤ cfg.backend_dial_timeout
  pub limit_off : cfg.should_disable_read_limit ≡ true → cfg.read_limit_bytes ≡ pos 0
  pub limit_on : cfg.should_disable_read_limit ≡ false → pos 0 <ℤ get_handler_read_limit_bytes cfg
  pub ping_before_idle :
      pos 0 <ℤ cfg.idle_timeout
      → (pos 0 <ℤ cfg.ping_interval) × (cfg.ping_interval <ℤ cfg.idle_timeout)
  pub ping_write : pos 0 <ℤ build_handler_ping_write_timeout cfg
  pub ping_write_in_idle :
      pos 0 <ℤ cfg.idle_timeout → build_handler_ping_write_timeout cfg <ℤ cfg.idle_timeout

-- A configuration that NewHandler accepts once its defaults are filled in has positive buffer
-- sizes and dial timeout, a read limit unless it is disabled, and a ping that is sent, and given
-- up, before the idle timeout ends.
pub accepted-IsUsable :
    (cfg : HandlerConfig)
    → get_handler_config_error (apply_handler_defaults cfg) ≡ none
    → IsUsable (apply_handler_defaults cfg)
unfolding get_handler_config_error apply_handler_defaults get_handler_read_limit_bytes
    build_handler_ping_write_timeout
accepted-IsUsable cfg h = ground arith
