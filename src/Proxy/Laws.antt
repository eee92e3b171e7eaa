-- ===== src/Proxy/Laws.antt =====
-- What a proxy handler accepts as its backend, and how it serves a request.
use go_grpcbridge.Base.{
  ⊎-cases, Bool-cases, contains, Option, none, ◌≡◌, ◌≢◌, ◌++◌, Bool, true, false, ◌&&◌, Option,
  none, some, [], ◌∷◌, ◌⊎◌, inl, inr, if◌then◌else◌, Text, codes, eq_text_iff, is_empty,
  is_empty_iff, trim_space, contains, arith, Bool-cases, Option-cases,
}
use mathlib.Core.Path.{subst}
use go_grpcbridge.Net.{Request}
use go_grpcbridge.Clock.{Time}
use go_grpcbridge.Config.{ConfigError}
use go_grpcbridge.HandlerConfig.{HandlerConfig, apply_handler_defaults, get_handler_config_error}
use go_grpcbridge.HandlerAbuse.{HandlerGuard, reserve_handler_connection}
use go_grpcbridge.Handler.{
  Resource, slot, socket, keepalive, conn, Outcomes, request_span, gauge, session_span,
  lifetime_timer,
}
use go_grpcbridge.HandlerAbuse.Retry.{set_retry_after_header-eq-set_retry_after}
use go_grpcbridge.Handler.Laws.{
  unused, settled, after_action, after_trace, response, acquires, refusal_response, is_none,
}
use go_grpcbridge.Proxy.{
  Url, Parsers, TargetError, has_path, target_of_authority, authority_of_url, target_of_trimmed,
  parse_bridge_target_url, should_warn_bridge_plaintext_backend, violates_transport_policy,
  ProxyHandler, checked_target, new_handler, status_internal_error, serve_proxy_tunnel,
  proxy_header, serve_proxy_reserved, serve_http,
}

-- The authority of a trimmed address: that of an http URL without a path, or the address itself.
pub data Names (p : Parsers) (address : Text) : Text → Type 0 where
  plain : contains address (codes "://") ≡ false → Names p address address
  of_url :
      (u : Url)
      → contains address (codes "://") ≡ true
      → p.parse_url address ≡ some u
      → u.scheme ≡ codes "http"
      → Names p address u.host

-- A URL that names the backend of an address and nothing else.
pub record IsBare (p : Parsers) (address : Text) (u : Url) : Type 0 where
  pub has_host : u.host ≢ []
  pub bare_path : (u.path ≡ []) ⊎ (u.path ≡ codes "/")
  pub no_query : u.raw_query ≡ []
  pub no_fragment : u.fragment ≡ []
  pub from_authority :
      (authority : Text) × Names p address authority
      × (p.parse_url (codes "http://" ++ authority) ≡ some u)

has_path-false :
    (u : Url)
    → has_path u ≡ false
    → ((u.path ≡ []) ⊎ (u.path ≡ codes "/")) × (u.raw_query ≡ []) × (u.fragment ≡ [])
unfolding has_path
has_path-false u h = ground (
  arith,
  is_empty_iff u.path,
  is_empty_iff u.raw_query,
  is_empty_iff u.fragment,
  eq_text_iff u.path (codes "/"),
)

parsed_authority :
    (p : Parsers) (authority : Text) (u : Url)
    → target_of_authority p authority ≡ inr u
    → (p.parse_url (codes "http://" ++ authority) ≡ some u)
      × (is_empty u.host ≡ false)
      × (has_path u ≡ false)
unfolding target_of_authority
parsed_authority p authority u h = ground arith

authority-IsBare :
    (p : Parsers) (address authority : Text) (u : Url)
    → Names p address authority
    → target_of_authority p authority ≡ inr u
    → IsBare p address u
authority-IsBare p address authority u named h =
    let (parsed, host, bare) = parsed_authority p authority u h in
    let (path, query, fragment) = has_path-false u bare in
    record {
      has_host = (is_empty_iff u.host).1 host;
      bare_path = path;
      no_query = query;
      no_fragment = fragment;
      from_authority = (authority, named, parsed);
    }

url-Names :
    (p : Parsers) (address authority : Text)
    → contains address (codes "://") ≡ true
    → authority_of_url (p.parse_url address) ≡ inr authority
    → Names p address authority
unfolding authority_of_url
url-Names p address authority marked h = elim (Option-cases (p.parse_url address)) [
  | inl invalid ↦ absurd (ground (arith, invalid))
  | inr (u, parsed) ↦
      let found : (u.scheme ≡ codes "http") × (u.host ≡ authority) =
        ground (arith, parsed, eq_text_iff u.scheme (codes "http")) in
      subst (Names p address) found.1 (of_url u marked parsed found.0)
]

trimmed-IsBare :
    (p : Parsers) (address : Text) (u : Url)
    → target_of_trimmed p address ≡ inr u
    → IsBare p address u
unfolding target_of_trimmed
trimmed-IsBare p [] u h = absurd (ground arith)
trimmed-IsBare p (c ∷ s) u h = elim (Bool-cases (contains (c ∷ s) (codes "://"))) [
  | inr unmarked ↦ authority-IsBare p (c ∷ s) (c ∷ s) u (plain unmarked) (ground (arith, unmarked))
  | inl marked ↦ elim (⊎-cases (authority_of_url (p.parse_url (c ∷ s)))) [
    | inl (e, refused) ↦ absurd (ground (arith, marked, refused))
    | inr (authority, found) ↦
        authority-IsBare p (c ∷ s) authority u (url-Names p (c ∷ s) authority marked found)
          (ground (arith, marked, found))
  ]
]

-- A host that is spelled localhost, or as a loopback address.
abbrev pub IsLoopback : Parsers → Text → Type 0
IsLoopback p host =
    (trim_space host ≢ [])
    × ((p.is_localhost (trim_space host) ≡ true) ⊎ (p.parse_ip (trim_space host) ≡ some true))

quiet-IsLoopback :
    (p : Parsers) (host : Text)
    → should_warn_bridge_plaintext_backend p host ≡ false
    → IsLoopback p host
unfolding should_warn_bridge_plaintext_backend
quiet-IsLoopback p host h = ground (arith, is_empty_iff (trim_space host))

checked_target-inr :
    (p : Parsers) (cfg : HandlerConfig) (error : Option ConfigError) (parsed : TargetError ⊎ Url)
    (u : Url)
    → checked_target p cfg error parsed ≡ inr u
    → (error ≡ none) × (parsed ≡ inr u) × (violates_transport_policy p cfg u ≡ false)
unfolding checked_target
checked_target-inr p cfg (some e) parsed u h = absurd (ground arith)
checked_target-inr p cfg none (inl e) u h = absurd (ground arith)
checked_target-inr p cfg none (inr v) u h = ground arith

-- The backend that a handler proxies to is what url.Parse reads of "http://" and the authority of
-- the target address, has a host and no path, query or fragment, and is, where the policy asks for
-- it, spelled localhost or as a loopback address; the configuration is one that the validation
-- accepts.
pub new_handler-backend :
    (p : Parsers) (raw : HandlerConfig) (u : Url)
    → (new_handler p raw).target ≡ inr u
    → (get_handler_config_error (new_handler p raw).config ≡ none)
      × IsBare p (trim_space raw.target_address) u
      × ((raw.should_require_loopback_backend ≡ false) ⊎ IsLoopback p u.hostname)
unfolding new_handler checked_target violates_transport_policy parse_bridge_target_url
    apply_handler_defaults
new_handler-backend p raw u h =
    let (valid, parsed, policy) = checked_target-inr p (apply_handler_defaults raw) _ _ u h in
    (
      valid,
      trimmed-IsBare p (trim_space raw.target_address) u parsed,
      elim (Bool-cases raw.should_require_loopback_backend) [
        | inr free ↦ inl free
        | inl strict ↦ inr (quiet-IsLoopback p u.hostname (ground (arith, policy, strict)))
      ],
    )

abbrev pub target_ok : ProxyHandler → Bool
target_ok h = elim h.target [ inl e ↦ false | inr u ↦ true ]

-- A handler that was not configured answers 500 to every request and leaves the guard alone;
-- otherwise a request that the guard refuses is answered 429, with the Retry-After header of the
-- refusal where it has one, and every other one takes a slot, gets no response of the handler's
-- own, and gets a socket exactly when the upgrade succeeds.
pub serve_http-response :
    (h : ProxyHandler) (o : Outcomes) (r : Request) (now : Time) (g : HandlerGuard)
    → let answer = reserve_handler_connection (some r) now g in
      let ok = target_ok h in
      let (after, trace) = serve_http h o r now g in
      (after ≡ (if ok then answer.0 else g))
      × (response none trace
          ≡ (if ok then refusal_response answer.1 else some (status_internal_error, none)))
      × (acquires slot trace ≡ (ok && is_none answer.1))
      × (acquires socket trace ≡ (ok && is_none answer.1 && o.upgrades))
unfolding serve_http serve_proxy_reserved serve_proxy_tunnel proxy_header response acquires
serve_http-response h o r now g =
    elim (Option-cases (reserve_handler_connection (some r) now g).1) [
      | inl admitted ↦ ground (arith, admitted)
      | inr (refusal, refused) ↦
          ground (arith, refused, set_retry_after_header-eq-set_retry_after refusal)
    ]

-- The resources of a request of this handler.
abbrev pub is_proxy_resource : Resource → Bool
is_proxy_resource slot = true
is_proxy_resource socket = true
is_proxy_resource keepalive = true
is_proxy_resource conn = true
is_proxy_resource _ = false

-- Whatever the guard and the libraries answer, the slot, the socket, the keepalive and the
-- connection are each acquired at most once, and then released once before ServeHTTP returns; they
-- are held while the session is served, and the first three while the hooks run.
pub serve_http-after_trace :
    (k : Resource) (h : ProxyHandler) (o : Outcomes) (r : Request) (now : Time) (g : HandlerGuard)
    → is_proxy_resource k ≡ true
    → let trace = (serve_http h o r now g).1 in
      after_trace k (some unused) trace ≡ some (settled k trace)
unfolding serve_http serve_proxy_reserved serve_proxy_tunnel proxy_header after_trace after_action
    acquires
serve_http-after_trace slot h o r now g e = ground arith
serve_http-after_trace socket h o r now g e = ground arith
serve_http-after_trace keepalive h o r now g e = ground arith
serve_http-after_trace conn h o r now g e = ground arith
serve_http-after_trace request_span h o r now g e = absurd (ground arith)
serve_http-after_trace gauge h o r now g e = absurd (ground arith)
serve_http-after_trace session_span h o r now g e = absurd (ground arith)
serve_http-after_trace lifetime_timer h o r now g e = absurd (ground arith)
