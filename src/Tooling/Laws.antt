-- ===== src/Tooling/Laws.antt =====
-- What the tooling server exposes, and where.
use go_grpcbridge.Base.{
  ap, sym, ◌∙◌, is_empty_iff, ◌++◌, ◌≡◌, refl, Bool, true, false, none, some, List, [], ◌∷◌, ◌⊎◌,
  inl, inr, Text, codes, has_prefix, has_suffix, is_empty, arith, Bool-cases,
}
use go_grpcbridge.Proxy.{Parsers}
use go_grpcbridge.ApiGuard.{has_symbol}
use go_grpcbridge.ApiGuard.Laws.{first_has, later_has}
use go_grpcbridge.Tooling.{
  ToolingConfig, get_tooling_config_error, should_warn_tooling_wildcard_bind, has_introspection,
  get_tooling_listen_address_error, health_service, ensure_tooling_services, grpc_h2c,
  ToolingHandler, tooling_handler, has_conflict, gives, registered, build_tooling_handler,
  ToolingServer, listen_and_serve_tooling,
}

-- What a served configuration and its handler satisfy.
pub record IsExposed (addr : Text) (cfg : ToolingConfig) (services : List Text) (s : ToolingServer)
    : Type 0 where
  pub no_wildcard : has_introspection cfg ≡ true → should_warn_tooling_wildcard_bind addr ≡ false
  pub prefix_shape :
      (cfg.debug_path_prefix ≡ [])
      ⊎ ((has_prefix cfg.debug_path_prefix (codes "/") ≡ true)
          × (has_suffix cfg.debug_path_prefix (codes "/") ≡ true))
  pub plain_routes : cfg.should_enable_pprof ≡ false → s.handler.routes ≡ (codes "/", grpc_h2c) ∷ []
  pub health :
      cfg.should_enable_health_service ≡ true → has_symbol health_service s.handler.services ≡ true
  pub health_once : s.handler.new_health_server ≡ true → has_symbol health_service services ≡ false
  pub unreflected :
      cfg.should_enable_reflection ≡ false
      → (s.handler.services ≡ services) ⊎ (s.handler.services ≡ health_service ∷ services)

has_symbol-append :
    (s : Text) (xs ys : List Text) → has_symbol s ys ≡ true → has_symbol s (xs ++ ys) ≡ true
has_symbol-append s [] ys h = h
has_symbol-append s (x ∷ xs) ys h = later_has s x (xs ++ ys) (has_symbol-append s xs ys h)

-- A call that serves has passed both checks.
listen-gives :
    (conflicts : Text → Text → Bool) (reflection : List Text) (p : Parsers) (addr : Text)
    (services : List Text) (cfg : ToolingConfig) (s : ToolingServer)
    → listen_and_serve_tooling conflicts reflection p addr (some services) cfg ≡ gives s
    → (get_tooling_listen_address_error addr cfg ≡ none)
      × (get_tooling_config_error cfg ≡ none)
      × (has_conflict conflicts (tooling_handler reflection cfg services).routes ≡ false)
      × (s.handler ≡ tooling_handler reflection cfg services)
unfolding listen_and_serve_tooling build_tooling_handler registered
listen-gives conflicts reflection p addr services cfg s h = ground arith

accepted-address :
    (addr : Text) (cfg : ToolingConfig)
    → get_tooling_listen_address_error addr cfg ≡ none
    → has_introspection cfg ≡ true
    → should_warn_tooling_wildcard_bind addr ≡ false
unfolding get_tooling_listen_address_error
accepted-address addr cfg h on = ground arith

accepted-prefix :
    (cfg : ToolingConfig)
    → get_tooling_config_error cfg ≡ none
    → (cfg.debug_path_prefix ≡ [])
      ⊎ ((has_prefix cfg.debug_path_prefix (codes "/") ≡ true)
          × (has_suffix cfg.debug_path_prefix (codes "/") ≡ true))
unfolding get_tooling_config_error
accepted-prefix cfg h = elim (Bool-cases (is_empty cfg.debug_path_prefix)) [
  | inl empty ↦ inl ((is_empty_iff cfg.debug_path_prefix).0 empty)
  | inr some_prefix ↦ inr (ground arith)
]

ensured-health :
    (reflection services : List Text) (cfg : ToolingConfig)
    → cfg.should_enable_health_service ≡ true
    → has_symbol health_service (ensure_tooling_services reflection cfg services).0 ≡ true
unfolding ensure_tooling_services
ensured-health reflection services cfg on = ground (
  arith,
  first_has health_service services,
  first_has health_service (reflection ++ services),
  has_symbol-append health_service reflection services,
)

ensured-fresh :
    (reflection services : List Text) (cfg : ToolingConfig)
    → (ensure_tooling_services reflection cfg services).1 ≡ true
    → has_symbol health_service services ≡ false
unfolding ensure_tooling_services
ensured-fresh reflection services cfg h = ground arith

ensured-unreflected :
    (reflection services : List Text) (cfg : ToolingConfig)
    → cfg.should_enable_reflection ≡ false
    → ((ensure_tooling_services reflection cfg services).0 ≡ services)
      ⊎ ((ensure_tooling_services reflection cfg services).0 ≡ health_service ∷ services)
unfolding ensure_tooling_services
ensured-unreflected reflection services cfg off = ground arith

-- A tooling server that serves has an accepted prefix, is not bound to an address that is known as
-- the wildcard while reflection or pprof is on, serves gRPC alone while pprof is off, exposes the
-- health service where it is asked for, registers a new one only where the server had none, and
-- adds nothing else while reflection is off.
pub listen_and_serve_tooling-IsExposed :
    (conflicts : Text → Text → Bool) (reflection : List Text) (p : Parsers) (addr : Text)
    (services : List Text) (cfg : ToolingConfig) (s : ToolingServer)
    → listen_and_serve_tooling conflicts reflection p addr (some services) cfg ≡ gives s
    → IsExposed addr cfg services s
unfolding tooling_handler
listen_and_serve_tooling-IsExposed conflicts reflection p addr services cfg s h =
    let (address, valid, _, built) = listen-gives conflicts reflection p addr services cfg s h in
    record {
      no_wildcard = accepted-address addr cfg address;
      prefix_shape = accepted-prefix cfg valid;
      plain_routes = λ off. ap ToolingHandler.routes built ∙ rw off refl;
      health = λ on. rw built (ensured-health reflection services cfg on);
      health_once = λ made.
          ensured-fresh reflection services cfg
            (sym (ap ToolingHandler.new_health_server built) ∙ made);
      unreflected = λ off. rw built (ensured-unreflected reflection services cfg off);
    }
