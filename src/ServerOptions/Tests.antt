-- ===== src/ServerOptions/Tests.antt =====
-- Options at concrete lists.
use go_grpcbridge.Base.{arith, ◌≡◌, refl, ◌++◌, true, [], ◌∷◌, pos}
use go_grpcbridge.ServerOptions.{
  ServerOption, with_keepalive, with_read_limit_bytes, wrap, build_bridge_config,
  build_server_options,
}
use go_grpcbridge.ServerOptions.Laws.{setting, Holds, wrap-last_option}

abbrev limit : ServerOption
limit = with_read_limit_bytes (pos 10)

abbrev higher_limit : ServerOption
higher_limit = with_read_limit_bytes (pos 20)

wrap-last_option_example :
    let opts =
      (with_keepalive (pos 1) (pos 2) ∷ [])
      ++ (higher_limit ∷ with_keepalive (pos 3) (pos 4) ∷ []) in
    (wrap true (
        (with_keepalive (pos 1) (pos 2) ∷ [])
        ++ limit ∷ (higher_limit ∷ with_keepalive (pos 3) (pos 4) ∷ []))
      ≡ wrap true opts)
    × Holds higher_limit (build_bridge_config (build_server_options opts))
unfolding setting
wrap-last_option_example =
    wrap-last_option true (with_keepalive (pos 1) (pos 2) ∷ []) []
      (with_keepalive (pos 3) (pos 4) ∷ []) limit higher_limit refl (λ e. ground arith, tt)
