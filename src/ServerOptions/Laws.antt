-- ===== src/ServerOptions/Laws.antt =====
-- The last option of each kind decides, and options of different kinds can be given in any order.
use go_grpcbridge.Base.{
  ℕ, ◌≡◌, ◌≢◌, ◌++◌, refl, sym, ap, ◌∙◌, Bool, List, [], ◌∷◌, ◌==◌, Bool-cases, arith, inl, inr,
  All, some, true,
}
use mathlib.Core.Path.{subst}
use go_grpcbridge.Config.{BridgeConfig}
use go_grpcbridge.Origin.{build_origin_allowlist_check}
use go_grpcbridge.Handler.{build_bridge_handler}
use go_grpcbridge.ServerOptions.{
  ServerOptions, ServerOption, with_origin_check, with_allowed_origins, with_authorize,
  with_buffer_sizes, with_read_limit_bytes, with_read_limit_disabled, with_keepalive,
  with_keepalive_disabled, with_session_max_lifetime, with_native_grpc_transport,
  with_bridge_web_socket_compression, with_max_active_connections, with_max_connections_per_client,
  with_max_upgrades_per_client_per_minute, with_connect_hook, with_disconnect_hook, apply_option,
  apply_options, default_options, build_server_options, build_bridge_config, serves,
  answers_internal_error, wrap,
}

-- Which settings an option is about: the two origin options are about one.
unfoldable pub setting : ServerOption → ℕ
setting (with_origin_check check) = 0
setting (with_allowed_origins to_lower origins) = 0
setting (with_authorize hook) = 1
setting (with_buffer_sizes read write) = 2
setting (with_read_limit_bytes limit) = 3
setting with_read_limit_disabled = 4
setting (with_keepalive ping idle) = 5
setting with_keepalive_disabled = 6
setting (with_session_max_lifetime lifetime) = 7
setting with_native_grpc_transport = 8
setting with_bridge_web_socket_compression = 9
setting (with_max_active_connections n) = 10
setting (with_max_connections_per_client n) = 11
setting (with_max_upgrades_per_client_per_minute n) = 12
setting (with_connect_hook hook) = 13
setting (with_disconnect_hook hook) = 14

-- A later option of the same setting hides an earlier one.
overwrite :
    (a b : ServerOption) (o : ServerOptions)
    → setting a ≡ setting b
    → apply_option b (apply_option a o) ≡ apply_option b o
unfolding apply_option setting
overwrite (with_origin_check c) b o e = ground arith
overwrite (with_allowed_origins l os) b o e = ground arith
overwrite (with_authorize h) b o e = ground arith
overwrite (with_buffer_sizes r w) b o e = ground arith
overwrite (with_read_limit_bytes n) b o e = ground arith
overwrite with_read_limit_disabled b o e = ground arith
overwrite (with_keepalive p i) b o e = ground arith
overwrite with_keepalive_disabled b o e = ground arith
overwrite (with_session_max_lifetime d) b o e = ground arith
overwrite with_native_grpc_transport b o e = ground arith
overwrite with_bridge_web_socket_compression b o e = ground arith
overwrite (with_max_active_connections n) b o e = ground arith
overwrite (with_max_connections_per_client n) b o e = ground arith
overwrite (with_max_upgrades_per_client_per_minute n) b o e = ground arith
overwrite (with_connect_hook k) b o e = ground arith
overwrite (with_disconnect_hook k) b o e = ground arith

-- Options of different settings do not meet.
commute :
    (a b : ServerOption) (o : ServerOptions)
    → setting a ≢ setting b
    → apply_option b (apply_option a o) ≡ apply_option a (apply_option b o)
unfolding apply_option setting
commute (with_origin_check c) b o e = ground arith
commute (with_allowed_origins l os) b o e = ground arith
commute (with_authorize h) b o e = ground arith
commute (with_buffer_sizes r w) b o e = ground arith
commute (with_read_limit_bytes n) b o e = ground arith
commute with_read_limit_disabled b o e = ground arith
commute (with_keepalive p i) b o e = ground arith
commute with_keepalive_disabled b o e = ground arith
commute (with_session_max_lifetime d) b o e = ground arith
commute with_native_grpc_transport b o e = ground arith
commute with_bridge_web_socket_compression b o e = ground arith
commute (with_max_active_connections n) b o e = ground arith
commute (with_max_connections_per_client n) b o e = ground arith
commute (with_max_upgrades_per_client_per_minute n) b o e = ground arith
commute (with_connect_hook k) b o e = ground arith
commute (with_disconnect_hook k) b o e = ground arith

apply_options-append :
    (o : ServerOptions) (xs ys : List ServerOption)
    → apply_options o (xs ++ ys) ≡ apply_options (apply_options o xs) ys
unfolding apply_options
apply_options-append o [] ys = refl
apply_options-append o (x ∷ xs) ys = apply_options-append (apply_option x o) xs ys

hidden_option :
    (a b : ServerOption) (o : ServerOptions) (between rest : List ServerOption)
    → setting a ≡ setting b
    → apply_options (apply_option a o) (between ++ b ∷ rest) ≡ apply_options o (between ++ b ∷ rest)
unfolding apply_options
hidden_option a b o [] rest e = ap (λ q. apply_options q rest) (overwrite a b o e)
hidden_option a b o (y ∷ ys) rest e = elim (Bool-cases (setting a == setting y)) [
  | inl same ↦ ap (λ q. apply_options q (ys ++ b ∷ rest)) (overwrite a y o (ground arith))
  | inr other ↦
      ap (λ q. apply_options q (ys ++ b ∷ rest)) (commute a y o (ground arith))
      ∙ hidden_option a b (apply_option y o) ys rest e
]

wrap_same :
    (has_server : Bool) (xs ys : List ServerOption)
    → build_server_options xs ≡ build_server_options ys
    → wrap has_server xs ≡ wrap has_server ys
unfolding wrap
wrap_same has_server xs ys e =
    ap
      (λ o. elim (build_bridge_handler has_server (build_bridge_config o)) [
        | inl e ↦ answers_internal_error e
        | inr built ↦ serves built
      ])
      e

-- Of two options of one setting only the later counts for the handler that Wrap gives, whatever
-- stands between them.
pub wrap-overridden :
    (has_server : Bool) (front between rest : List ServerOption) (a b : ServerOption)
    → setting a ≡ setting b
    → wrap has_server (front ++ a ∷ (between ++ b ∷ rest))
      ≡ wrap has_server (front ++ (between ++ b ∷ rest))
unfolding build_server_options apply_options
wrap-overridden has_server front between rest a b e = wrap_same has_server _ _ (
    apply_options-append default_options front (a ∷ (between ++ b ∷ rest))
    ∙ hidden_option a b (apply_options default_options front) between rest e
    ∙ sym (apply_options-append default_options front (between ++ b ∷ rest)))

-- Two neighbouring options of different settings can change places.
pub wrap-swapped :
    (has_server : Bool) (front rest : List ServerOption) (a b : ServerOption)
    → setting a ≢ setting b
    → wrap has_server (front ++ a ∷ b ∷ rest) ≡ wrap has_server (front ++ b ∷ a ∷ rest)
unfolding build_server_options apply_options
wrap-swapped has_server front rest a b e = wrap_same has_server _ _ (
    apply_options-append default_options front (a ∷ b ∷ rest)
    ∙ ap (λ q. apply_options q rest) (commute a b (apply_options default_options front) e)
    ∙ sym (apply_options-append default_options front (b ∷ a ∷ rest)))

-- What an option says of the configuration.
unfoldable pub Holds : ServerOption → BridgeConfig → Type 0
Holds (with_origin_check check) cfg = cfg.check_origin ≡ check
Holds (with_allowed_origins to_lower origins) cfg =
    cfg.check_origin ≡ some (build_origin_allowlist_check to_lower origins)
Holds (with_authorize hook) cfg = cfg.authorize ≡ hook
Holds (with_buffer_sizes read write) cfg =
    (cfg.read_buffer_size ≡ read) × (cfg.write_buffer_size ≡ write)
Holds (with_read_limit_bytes limit) cfg = cfg.read_limit_bytes ≡ limit
Holds with_read_limit_disabled cfg = cfg.should_disable_read_limit ≡ true
Holds (with_keepalive ping idle) cfg = (cfg.ping_interval ≡ ping) × (cfg.idle_timeout ≡ idle)
Holds with_keepalive_disabled cfg = cfg.should_disable_keepalive ≡ true
Holds (with_session_max_lifetime lifetime) cfg = cfg.session_max_lifetime ≡ lifetime
Holds with_native_grpc_transport cfg = cfg.should_use_native_grpc_transport ≡ true
Holds with_bridge_web_socket_compression cfg = cfg.should_enable_compression ≡ true
Holds (with_max_active_connections n) cfg = cfg.max_active_connections ≡ n
Holds (with_max_connections_per_client n) cfg = cfg.max_connections_per_client ≡ n
Holds (with_max_upgrades_per_client_per_minute n) cfg = cfg.max_upgrades_per_client_per_minute ≡ n
Holds (with_connect_hook hook) cfg = cfg.on_connect ≡ hook
Holds (with_disconnect_hook hook) cfg = cfg.on_disconnect ≡ hook

applied-Holds :
    (b : ServerOption) (o : ServerOptions) → Holds b (build_bridge_config (apply_option b o))
unfolding Holds build_bridge_config apply_option
applied-Holds (with_origin_check c) o = refl
applied-Holds (with_allowed_origins l os) o = refl
applied-Holds (with_authorize h) o = refl
applied-Holds (with_buffer_sizes r w) o = (refl, refl)
applied-Holds (with_read_limit_bytes n) o = refl
applied-Holds with_read_limit_disabled o = refl
applied-Holds (with_keepalive p i) o = (refl, refl)
applied-Holds with_keepalive_disabled o = refl
applied-Holds (with_session_max_lifetime d) o = refl
applied-Holds with_native_grpc_transport o = refl
applied-Holds with_bridge_web_socket_compression o = refl
applied-Holds (with_max_active_connections n) o = refl
applied-Holds (with_max_connections_per_client n) o = refl
applied-Holds (with_max_upgrades_per_client_per_minute n) o = refl
applied-Holds (with_connect_hook k) o = refl
applied-Holds (with_disconnect_hook k) o = refl

kept-Holds :
    (b c : ServerOption) (o : ServerOptions)
    → setting c ≢ setting b
    → Holds b (build_bridge_config o)
    → Holds b (build_bridge_config (apply_option c o))
unfolding Holds build_bridge_config apply_option setting
kept-Holds (with_origin_check x) c o e h = ground (arith, h)
kept-Holds (with_allowed_origins l os) c o e h = ground (arith, h)
kept-Holds (with_authorize x) c o e h = ground (arith, h)
kept-Holds (with_buffer_sizes r w) c o e h = ground (arith, h)
kept-Holds (with_read_limit_bytes n) c o e h = ground (arith, h)
kept-Holds with_read_limit_disabled c o e h = ground (arith, h)
kept-Holds (with_keepalive p i) c o e h = ground (arith, h)
kept-Holds with_keepalive_disabled c o e h = ground (arith, h)
kept-Holds (with_session_max_lifetime d) c o e h = ground (arith, h)
kept-Holds with_native_grpc_transport c o e h = ground (arith, h)
kept-Holds with_bridge_web_socket_compression c o e h = ground (arith, h)
kept-Holds (with_max_active_connections n) c o e h = ground (arith, h)
kept-Holds (with_max_connections_per_client n) c o e h = ground (arith, h)
kept-Holds (with_max_upgrades_per_client_per_minute n) c o e h = ground (arith, h)
kept-Holds (with_connect_hook k) c o e h = ground (arith, h)
kept-Holds (with_disconnect_hook k) c o e h = ground (arith, h)

rest-Holds :
    (b : ServerOption) (rest : List ServerOption) (o : ServerOptions)
    → All (λ c. setting c ≢ setting b) rest
    → Holds b (build_bridge_config o)
    → Holds b (build_bridge_config (apply_options o rest))
unfolding apply_options
rest-Holds b [] o others h = h
rest-Holds b (c ∷ rest) o (other, others) h =
    rest-Holds b rest (apply_option c o) others (kept-Holds b c o other h)

last-Holds :
    (b : ServerOption) (front rest : List ServerOption) (o : ServerOptions)
    → All (λ c. setting c ≢ setting b) rest
    → Holds b (build_bridge_config (apply_options o (front ++ b ∷ rest)))
unfolding apply_options
last-Holds b [] rest o others = rest-Holds b rest (apply_option b o) others (applied-Holds b o)
last-Holds b (c ∷ front) rest o others = last-Holds b front rest (apply_option c o) others

-- Of two options of one setting the earlier can be left out of Wrap, whatever stands between them,
-- and where no option of that setting follows, the configuration has what the later one says.
pub wrap-last_option :
    (has_server : Bool) (front between rest : List ServerOption) (a b : ServerOption)
    → setting a ≡ setting b
    → All (λ c. setting c ≢ setting b) rest
    → let opts = front ++ (between ++ b ∷ rest) in
      (wrap has_server (front ++ a ∷ (between ++ b ∷ rest)) ≡ wrap has_server opts)
      × Holds b (build_bridge_config (build_server_options opts))
unfolding build_server_options
wrap-last_option has_server front between rest a b e others = (
  wrap-overridden has_server front between rest a b e,
  subst (λ o. Holds b (build_bridge_config o))
      (sym (apply_options-append default_options front (between ++ b ∷ rest)))
      (last-Holds b between rest (apply_options default_options front) others),
)
