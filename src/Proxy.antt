-- ===== src/Proxy.antt =====
-- pkg/bridge/bridge.go: NewHandler with the checks of its backend address, and ServeHTTP as a trace of
-- actions. The parsers of net/url and package net are arguments, as is what gorilla answers; log output
-- is left out.
pub mod Laws
pub mod Tests
use go_grpcbridge.Base.{
  ℕ, ◌≡◌, ◌++◌, Bool, true, false, not, ◌&&◌, ◌||◌, Option, none, some, List, [], ◌∷◌, ◌⊎◌, inl,
  inr, if◌then◌else◌, Text, codes, eq_text, trim_space, contains, is_empty,
}
use go_grpcbridge.Net.{Request}
use go_grpcbridge.Clock.{Time}
use go_grpcbridge.Config.{ConfigError}
use go_grpcbridge.HandlerConfig.{HandlerConfig, apply_handler_defaults, get_handler_config_error}
use go_grpcbridge.Abuse.{Refusal}
use go_grpcbridge.HandlerAbuse.{
  HandlerGuard, build_handler_abuse_guard, reserve_handler_connection, set_retry_after_header,
}
use go_grpcbridge.Handler.{
  Action, acquire, release, connect_hook, disconnect_hook, retry_after_header, respond, serve_http2,
  slot, socket, keepalive, conn, Outcomes, when, status_too_many_requests,
}

-- What the program reads of a url.URL.
pub record Url : Type 0 where
  pub scheme : Text
  pub host : Text
  pub hostname : Text
  pub path : Text
  pub raw_query : Text
  pub fragment : Text

-- url.Parse, strings.EqualFold with "localhost", and net.ParseIP: whether the address is a loopback one.
pub record Parsers : Type 0 where
  pub parse_url : Text → Option Url
  pub is_localhost : Text → Bool
  pub parse_ip : Text → Option Bool

pub data TargetError : Type 0 where
  target_required target_invalid scheme_unsupported host_missing target_has_path : TargetError

pub data InitError : Type 0 where
  config_error : ConfigError → InitError
  target_error : TargetError → InitError
  loopback_required : InitError

pub has_path : Url → Bool
has_path u =
    (not (is_empty u.path) && not (eq_text u.path (codes "/")))
    || not (is_empty u.raw_query)
    || not (is_empty u.fragment)

-- The second half of parseBridgeTargetURL.
pub target_of_authority : Parsers → Text → TargetError ⊎ Url
target_of_authority p authority = elim (p.parse_url (codes "http://" ++ authority)) [
  | none ↦ inl target_invalid
  | some u ↦
      if is_empty u.host
      then inl host_missing
      else if has_path u
      then inl target_has_path
      else inr u
]

-- The half for an address with a scheme: its host.
pub authority_of_url : Option Url → TargetError ⊎ Text
authority_of_url none = inl target_invalid
authority_of_url (some u) =
    if not (eq_text u.scheme (codes "http"))
    then inl scheme_unsupported
    else if is_empty u.host
    then inl host_missing
    else if has_path u
    then inl target_has_path
    else inr u.host

pub target_of_trimmed : Parsers → Text → TargetError ⊎ Url
unfolding authority_of_url target_of_authority
target_of_trimmed p [] = inl target_required
target_of_trimmed p (c ∷ s) =
    if contains (c ∷ s) (codes "://")
    then elim (authority_of_url (p.parse_url (c ∷ s))) [
      | inl e ↦ inl e
      | inr authority ↦ target_of_authority p authority
    ]
    else target_of_authority p (c ∷ s)

-- parseBridgeTargetURL.
pub parse_bridge_target_url : Parsers → Text → TargetError ⊎ Url
unfolding target_of_trimmed
parse_bridge_target_url p address = target_of_trimmed p (trim_space address)

-- shouldWarnBridgePlaintextBackend.
pub should_warn_bridge_plaintext_backend : Parsers → Text → Bool
should_warn_bridge_plaintext_backend p host =
    let trimmed = trim_space host in
    if is_empty trimmed
    then true
    else if p.is_localhost trimmed
    then false
    else elim (p.parse_ip trimmed) [ none ↦ true | some loopback ↦ not loopback ]

-- getBridgeBackendTransportPolicyError: whether the policy is violated.
pub violates_transport_policy : Parsers → HandlerConfig → Url → Bool
violates_transport_policy p cfg u =
    cfg.should_require_loopback_backend && should_warn_bridge_plaintext_backend p u.hostname

-- Handler: its configuration, its guard, and its error or the URL it proxies to.
pub record ProxyHandler : Type 0 where
  pub config : HandlerConfig
  pub guard : HandlerGuard
  pub target : InitError ⊎ Url

pub checked_target :
    Parsers → HandlerConfig → Option ConfigError → TargetError ⊎ Url → InitError ⊎ Url
checked_target p cfg (some e) parsed = inl (config_error e)
checked_target p cfg none (inl e) = inl (target_error e)
checked_target p cfg none (inr u) =
    if violates_transport_policy p cfg u then inl loopback_required else inr u

-- NewHandler.
pub new_handler : Parsers → HandlerConfig → ProxyHandler
unfolding checked_target
new_handler p raw =
    let cfg = apply_handler_defaults raw in
    record {
      config = cfg;
      guard = build_handler_abuse_guard cfg;
      target =
          checked_target p cfg (get_handler_config_error cfg)
            (parse_bridge_target_url p cfg.target_address);
    }

abbrev pub status_internal_error : ℕ
status_internal_error = 500

-- From the connection settings on.
pub serve_proxy_tunnel : HandlerConfig → Outcomes → List Action
serve_proxy_tunnel cfg o =
    if o.settles
    then acquire keepalive ∷ when cfg.on_connect (connect_hook ∷ [])
      ++ acquire conn ∷ serve_http2 ∷ release conn ∷ when cfg.on_disconnect (disconnect_hook ∷ [])
      ++ release keepalive ∷ []
    else []

pub proxy_header : Option ℕ → List Action
proxy_header none = []
proxy_header (some seconds) = retry_after_header seconds ∷ []

-- What follows the answer of the guard.
pub serve_proxy_reserved : HandlerConfig → Outcomes → Option Refusal → List Action
unfolding serve_proxy_tunnel proxy_header
serve_proxy_reserved cfg o (some refusal) =
    proxy_header (set_retry_after_header refusal) ++ respond status_too_many_requests ∷ []
serve_proxy_reserved cfg o none =
    acquire slot
      ∷ (if o.upgrades
          then acquire socket ∷ serve_proxy_tunnel cfg o ++ release socket ∷ []
          else [])
    ++ release slot ∷ []

-- ServeHTTP: the guard after the reservation, and the whole trace of the request.
pub serve_http :
    ProxyHandler → Outcomes → Request → Time → HandlerGuard → HandlerGuard × List Action
unfolding serve_proxy_reserved
serve_http h o r now g =
    let answer = reserve_handler_connection (some r) now g in
    elim h.target [
      | inl e ↦ (g, respond status_internal_error ∷ [])
      | inr u ↦ (answer.0, serve_proxy_reserved h.config o answer.1)
    ]

-- What the Director of the reverse proxy writes of a request that goes to the backend.
pub record Outgoing : Type 0 where
  pub scheme : Text
  pub url_host : Text
  pub host : Text

pub direct : Url → Outgoing → Outgoing
direct target outgoing = record {
  scheme = target.scheme;
  url_host = target.host;
  host = target.host;
}

-- The ErrorHandler of the reverse proxy answers 502.
pub handle_backend_error : List Action
handle_backend_error = respond 502 ∷ []
