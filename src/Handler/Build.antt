-- ===== src/Handler/Build.antt =====
-- What BuildBridgeHandler builds, and what it refuses to build.
use go_grpcbridge.Base.{
  ◌↔◌, ◌⊎◌, Option-cases, ◌≡◌, refl, ap, ◌≢◌, inl, inr, Bool, true, false, none, some, arith, pos,
  ◌<ℤ◌, ℤ, negsuc, [], ◌∷◌, Text, is_negative,
}
use go_grpcbridge.Config.{
  BridgeConfig, ConfigError, get_bridge_config_error, apply_bridge_keepalive_defaults,
}
use go_grpcbridge.Config.Laws.{
  IsValid, IsResolved, get_bridge_config_error-eq-none_iff,
  apply_bridge_keepalive_defaults-IsResolved,
}
use go_grpcbridge.Abuse.{build_bridge_abuse_guard}
use go_grpcbridge.Handler.{
  server_required, config_error, Built, or_default_size, built_or_error, build_bridge_handler,
  handle_bridge_mux,
}

-- A handler that can serve: a resolved configuration, positive buffers, and a guard with its limits.
pub record IsReady (built : Built) : Type 0 where
  pub accepted : get_bridge_config_error built.config ≡ none
  pub resolved : IsResolved built.config
  pub reads : pos 0 <ℤ built.read_buffer
  pub writes : pos 0 <ℤ built.write_buffer
  pub guarded : built.guard ≡ build_bridge_abuse_guard built.config

or_default_size_positive : (n : ℤ) → is_negative n ≡ false → pos 0 <ℤ or_default_size n
unfolding or_default_size
or_default_size_positive (pos n) h = ground arith
or_default_size_positive (negsuc n) h = absurd (ground arith)

valid_buffers :
    (cfg : BridgeConfig)
    → IsValid cfg
    → (is_negative cfg.read_buffer_size ≡ false) × (is_negative cfg.write_buffer_size ≡ false)
valid_buffers cfg v = ground (arith, v.read_buffer, v.write_buffer)

-- BuildBridgeHandler reports a missing server first, and then what the validation reports; every
-- other call gives a handler that is ready to serve.
pub build_bridge_handler-cases :
    (has_server : Bool) (cfg : BridgeConfig)
    → ((has_server ≡ false) × (build_bridge_handler has_server cfg ≡ inl server_required))
      ⊎ ((e : ConfigError) × (has_server ≡ true)
          × (get_bridge_config_error cfg ≡ some e)
          × (build_bridge_handler has_server cfg ≡ inl (config_error e)))
      ⊎ ((built : Built) × (has_server ≡ true)
          × (get_bridge_config_error cfg ≡ none)
          × (build_bridge_handler has_server cfg ≡ inr built)
          × IsReady built)
unfolding build_bridge_handler built_or_error
build_bridge_handler-cases false cfg = inl (refl, refl)
build_bridge_handler-cases true cfg = elim (Option-cases (get_bridge_config_error cfg)) [
  | inr (e, found) ↦ inr (inl (e, refl, found, ap (built_or_error cfg) found))
  | inl accepted ↦
      let filled = apply_bridge_keepalive_defaults cfg in
      let (still, resolved) = apply_bridge_keepalive_defaults-IsResolved cfg accepted in
      let (read, write) =
        valid_buffers filled ((get_bridge_config_error-eq-none_iff filled).0 still) in
      inr (
        inr (
          _,
          refl,
          accepted,
          ap (built_or_error cfg) accepted,
          record {
            accepted = still;
            resolved = resolved;
            reads = or_default_size_positive filled.read_buffer_size read;
            writes = or_default_size_positive filled.write_buffer_size write;
            guarded = refl;
          },
        ))
]

-- HandleBridgeMux registers a handler exactly when there are a mux and a path, and the handler is
-- the one that BuildBridgeHandler gives.
pub handle_bridge_mux_iff :
    (has_mux has_server : Bool) (path : Text) (cfg : BridgeConfig) (built : Built)
    → (handle_bridge_mux has_mux path has_server cfg ≡ inr (path, built))
      ↔ ((has_mux ≡ true) × (path ≢ []) × (build_bridge_handler has_server cfg ≡ inr built))
unfolding handle_bridge_mux
handle_bridge_mux_iff has_mux has_server [] cfg built = ground arith
handle_bridge_mux_iff has_mux has_server (c ∷ path) cfg built = ground arith
