-- ===== src/Tooling.antt =====
-- pkg/grpctunnel/tooling.go: the validation of ToolingConfig, the policy for the address of the tooling
-- server, and BuildToolingHandler with the services and the routes that it registers. The parsers of
-- package net are arguments; log output is a flag.
pub mod Laws
pub mod Tests
use go_grpcbridge.Base.{
  ℕ, ◌++◌, ◌≡◌, Bool, true, false, not, ◌&&◌, ◌||◌, Option, none, some, List, [], ◌∷◌, ◌⊎◌, inl,
  inr, if◌then◌else◌, Text, codes, eq_text, trim_space, trim_suffix, has_prefix, has_suffix,
  is_empty, ◌==◌,
}
use mathlib.Core.List.{reverse}
use go_grpcbridge.Config.{reject, ◌>>◌}
use go_grpcbridge.Net.{split_host_port}
use go_grpcbridge.Proxy.{Parsers}
use go_grpcbridge.ApiGuard.{has_symbol}

-- ToolingConfig.
pub record ToolingConfig : Type 0 where
  pub should_enable_reflection : Bool
  pub should_enable_health_service : Bool
  pub should_enable_pprof : Bool
  pub debug_path_prefix : Text

pub data ToolingError : Type 0 where
  prefix_start prefix_end server_required wildcard_refused : ToolingError

-- GetToolingConfigError.
pub get_tooling_config_error : ToolingConfig → Option ToolingError
get_tooling_config_error cfg =
    if is_empty cfg.debug_path_prefix
    then none
    else if not (has_prefix cfg.debug_path_prefix (codes "/"))
    then some prefix_start
    else reject (not (has_suffix cfg.debug_path_prefix (codes "/"))) prefix_end

-- Whether the listen address has a host of this kind, once trimmed.
pub is_wildcard_host : Text → Bool
is_wildcard_host host =
    is_empty host
    || eq_text host (codes "0.0.0.0")
    || eq_text host (codes "::")
    || eq_text host (codes "[::]")

-- shouldWarnToolingWildcardBind.
pub should_warn_tooling_wildcard_bind : Text → Bool
unfolding is_wildcard_host
should_warn_tooling_wildcard_bind addr =
    let trimmed = trim_space addr in
    if is_empty trimmed || has_prefix trimmed (codes ":")
    then true
    else elim (split_host_port trimmed) [
      | none ↦ false
      | some (host, port) ↦ is_wildcard_host (trim_space host)
    ]

pub has_introspection : ToolingConfig → Bool
has_introspection cfg = cfg.should_enable_reflection || cfg.should_enable_pprof

-- getToolingListenAddressError.
pub get_tooling_listen_address_error : Text → ToolingConfig → Option ToolingError
unfolding has_introspection
get_tooling_listen_address_error addr cfg =
    reject (has_introspection cfg && should_warn_tooling_wildcard_bind addr) wildcard_refused

pub is_bracket : ℕ → Bool
is_bracket c = c == b'[' || c == b']'

pub trim_left_brackets : Text → Text
unfolding is_bracket
trim_left_brackets [] = []
trim_left_brackets (c ∷ s) = let rest = trim_left_brackets s in if is_bracket c then rest else c ∷ s

-- strings.Trim(host, "[]").
pub trim_brackets : Text → Text
unfolding trim_left_brackets
trim_brackets s = reverse (trim_left_brackets (reverse (trim_left_brackets s)))

-- The warning for a host that is not the wildcard.
pub warns_host : Parsers → Text → Bool
warns_host p host =
    if p.is_localhost host
    then false
    else elim (p.parse_ip host) [ none ↦ not (is_empty host) | some loopback ↦ not loopback ]

-- shouldWarnToolingNonLoopbackBind.
pub should_warn_tooling_non_loopback_bind : Parsers → Text → ToolingConfig → Bool
unfolding has_introspection warns_host trim_brackets
should_warn_tooling_non_loopback_bind p addr cfg =
    if not (has_introspection cfg) || should_warn_tooling_wildcard_bind addr
    then false
    else elim (split_host_port (trim_space addr)) [
      | none ↦ false
      | some (host, port) ↦ warns_host p (trim_brackets host)
    ]

abbrev pub reflection_service : Text
reflection_service = codes "grpc.reflection.v1alpha.ServerReflection"

abbrev pub health_service : Text
health_service = codes "grpc.health.v1.Health"

-- The names of the services that reflection.Register registers: those of the library, an argument.
-- ensureToolingServices: the services of the server, and whether it returns a new health server.
pub ensure_tooling_services : List Text → ToolingConfig → List Text → List Text × Bool
ensure_tooling_services reflection cfg services =
    let reflected =
      if cfg.should_enable_reflection && not (has_symbol reflection_service services)
      then reflection ++ services
      else services in
    if cfg.should_enable_health_service && not (has_symbol health_service services)
    then (health_service ∷ reflected, true)
    else (reflected, false)

pub data Route : Type 0 where
  pprof_index pprof_cmdline pprof_profile pprof_symbol pprof_trace grpc_h2c : Route

-- registerToolingPprofHandlers.
pub register_tooling_pprof_handlers : ToolingConfig → List (Text × Route)
register_tooling_pprof_handlers cfg =
    let prefix =
      if is_empty cfg.debug_path_prefix then codes "/debug/pprof/" else cfg.debug_path_prefix in
    let base = trim_suffix prefix (codes "/") in
    (prefix, pprof_index)
    ∷ (base ++ codes "/cmdline", pprof_cmdline)
    ∷ (base ++ codes "/profile", pprof_profile)
    ∷ (base ++ codes "/symbol", pprof_symbol)
    ∷ (base ++ codes "/trace", pprof_trace)
    ∷ []

-- BuildToolingHandler: its routes, the services of the server, and whether it made a health server.
pub record ToolingHandler : Type 0 where
  pub routes : List (Text × Route)
  pub services : List Text
  pub new_health_server : Bool

pub tooling_handler : List Text → ToolingConfig → List Text → ToolingHandler
unfolding ensure_tooling_services register_tooling_pprof_handlers
tooling_handler reflection cfg services =
    let ensured = ensure_tooling_services reflection cfg services in
    record {
      routes =
          (if cfg.should_enable_pprof then register_tooling_pprof_handlers cfg else [])
          ++ (codes "/", grpc_h2c) ∷ [];
      services = ensured.0;
      new_health_server = ensured.1;
    }

-- Whether a pattern conflicts with a registered one; ServeMux.Handle then panics.
pub conflicts_any : (Text → Text → Bool) → Text → List (Text × Route) → Bool
conflicts_any conflicts pattern [] = false
conflicts_any conflicts pattern ((q, r) ∷ registered) =
    let later = conflicts_any conflicts pattern registered in
    if conflicts pattern q then true else later

pub has_conflict : (Text → Text → Bool) → List (Text × Route) → Bool
unfolding conflicts_any
has_conflict conflicts [] = false
has_conflict conflicts ((p, r) ∷ routes) =
    let later = has_conflict conflicts routes in
    if conflicts_any conflicts p routes then true else later

-- What a call ends with: an error, a panic of ServeMux, or a value.
pub data Result (A : Type 0) : Type 0 where
  fails : ToolingError → Result A
  panics : Result A
  gives : A → Result A

pub registered : (Text → Text → Bool) → ToolingHandler → Result ToolingHandler
unfolding has_conflict
registered conflicts h = if has_conflict conflicts h.routes then panics else gives h

-- A server is none where it is nil.
pub build_tooling_handler :
    (Text → Text → Bool) → List Text → Option (List Text) → ToolingConfig → Result ToolingHandler
unfolding tooling_handler get_tooling_config_error registered
build_tooling_handler conflicts reflection none cfg = fails server_required
build_tooling_handler conflicts reflection (some services) cfg =
    elim (get_tooling_config_error cfg) [
      | some e ↦ fails e
      | none ↦ registered conflicts (tooling_handler reflection cfg services)
    ]

-- What ListenAndServeTooling serves on its address, and whether it warns.
pub record ToolingServer : Type 0 where
  pub warned : Bool
  pub handler : ToolingHandler

-- ListenAndServeTooling.
pub listen_and_serve_tooling :
    (Text → Text → Bool)
    → List Text
    → Parsers
    → Text
    → Option (List Text)
    → ToolingConfig
    → Result ToolingServer
unfolding get_tooling_listen_address_error should_warn_tooling_non_loopback_bind
listen_and_serve_tooling conflicts reflection p addr server cfg =
    elim (get_tooling_listen_address_error addr cfg) [
      | some e ↦ fails e
      | none ↦ elim (build_tooling_handler conflicts reflection server cfg) [
        | fails e ↦ fails e
        | panics ↦ panics
        | gives h ↦
            gives
              (record { warned = should_warn_tooling_non_loopback_bind p addr cfg; handler = h })
      ]
    ]
