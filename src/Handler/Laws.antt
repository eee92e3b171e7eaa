-- ===== src/Handler/Laws.antt =====
-- What the handler acquires, serves and answers.
use go_grpcbridge.Base.{
  ℕ, ◌≡◌, refl, Bool, true, false, ◌&&◌, ◌||◌, Option, none, some, List, [], ◌∷◌, if◌then◌else◌,
  arith,
}
use go_grpcbridge.Net.{Request}
use go_grpcbridge.Clock.{Time}
use go_grpcbridge.Config.{BridgeConfig}
use go_grpcbridge.Abuse.{AbuseGuard, Refusal, reserve_bridge_connection, set_retry_after}
use go_grpcbridge.Handler.{
  Resource, Action, acquire, release, connect_hook, disconnect_hook, retry_after_header, respond,
  serve_native, serve_http2, request_span, slot, socket, gauge, session_span, keepalive, conn,
  lifetime_timer, Outcomes, serve_session, serve_conn, serve_tunnel, serve_upgrade, header_actions,
  serve_reserved, is_authorized, serve_request, status_forbidden, status_too_many_requests,
}

abbrev same : Resource → Resource → Bool
same request_span request_span = true
same slot slot = true
same socket socket = true
same gauge gauge = true
same session_span session_span = true
same keepalive keepalive = true
same conn conn = true
same lifetime_timer lifetime_timer = true
same _ _ = false

-- What must be held while the session is served, and while a hook runs.
abbrev needed_to_serve : Resource → Bool
needed_to_serve lifetime_timer = false
needed_to_serve _ = true

abbrev needed_by_hooks : Resource → Bool
needed_by_hooks lifetime_timer = false
needed_by_hooks conn = false
needed_by_hooks _ = true

-- How far a request is with a resource.
pub data Phase : Type 0 where
  unused held done : Phase

abbrev require : Bool → Phase → Option Phase
require true held = some held
require true phase = none
require false phase = some phase

-- Where an action leaves a resource. `none`: it was acquired a second time, released without being
-- held, or missing when it was needed.
unfoldable pub after_action : Resource → Phase → Action → Option Phase
after_action k phase (acquire j) =
    if same k j then elim phase [ unused ↦ some held | held ↦ none | done ↦ none ] else some phase
after_action k phase (release j) =
    if same k j then elim phase [ unused ↦ none | held ↦ some done | done ↦ none ] else some phase
after_action k phase connect_hook = require (needed_by_hooks k) phase
after_action k phase disconnect_hook = require (needed_by_hooks k) phase
after_action k phase serve_native = require (needed_to_serve k) phase
after_action k phase serve_http2 = require (needed_to_serve k) phase
after_action k phase _ = some phase

unfoldable pub after_trace : Resource → Option Phase → List Action → Option Phase
after_trace k phase [] = phase
after_trace k none (a ∷ rest) = none
after_trace k (some phase) (a ∷ rest) = after_trace k (after_action k phase a) rest

-- Whether a trace acquires a resource.
unfoldable pub acquires : Resource → List Action → Bool
acquires k [] = false
acquires k (acquire j ∷ rest) = same k j || acquires k rest
acquires k (a ∷ rest) = acquires k rest

-- Where a trace is to leave a resource.
abbrev pub settled : Resource → List Action → Phase
settled k trace = if acquires k trace then done else unused

-- Whatever the hooks, the guard and the libraries answer, each resource that a request acquires is
-- acquired once, and released once before the handler returns; the slot, the socket, the gauge and
-- the spans are held while the hooks run, and the connection, too, while the session is served.
pub serve_request-after_trace :
    (k : Resource) (cfg : BridgeConfig) (o : Outcomes) (r : Request) (now : Time) (g : AbuseGuard)
    → let trace = (serve_request cfg o r now g).1 in
      after_trace k (some unused) trace ≡ some (settled k trace)
unfolding serve_request serve_reserved serve_upgrade serve_tunnel serve_conn serve_session
    header_actions after_trace after_action acquires
serve_request-after_trace request_span cfg o r now g = ground arith
serve_request-after_trace slot cfg o r now g = ground arith
serve_request-after_trace socket cfg o r now g = ground arith
serve_request-after_trace gauge cfg o r now g = ground arith
serve_request-after_trace session_span cfg o r now g = ground arith
serve_request-after_trace keepalive cfg o r now g = ground arith
serve_request-after_trace conn cfg o r now g = ground arith
serve_request-after_trace lifetime_timer cfg o r now g = ground arith

-- The response that the handler writes itself: its status, with the Retry-After header as it stands
-- when the status is written.
unfoldable pub response : Option ℕ → List Action → Option (ℕ × Option ℕ)
response header [] = none
response header (respond status ∷ rest) = some (status, header)
response header (retry_after_header seconds ∷ rest) = response (some seconds) rest
response header (a ∷ rest) = response header rest

abbrev pub refusal_response : Option Refusal → Option (ℕ × Option ℕ)
refusal_response none = none
refusal_response (some refusal) = some (status_too_many_requests, set_retry_after refusal)

abbrev pub is_none : Option Refusal → Bool
is_none none = true
is_none (some refusal) = false

-- What the hook of the configuration answers: a request is allowed where there is none.
pub data Judges : Option (Request → Bool) → Request → Bool → Type 0 where
  no_hook : {r : Request} → Judges none r true
  asked : (hook : Request → Bool) (r : Request) → Judges (some hook) r (hook r)

judged :
    (hook : Option (Request → Bool)) (r : Request) (allowed : Bool)
    → Judges hook r allowed
    → is_authorized hook r ≡ allowed
judged _ r _ no_hook = refl
judged _ _ _ (asked hook r) = refl

-- A request that the configured hook denies is answered 403 without a change of the guard, and
-- where there is no hook all are allowed; one that the guard refuses is answered 429, with the
-- Retry-After header of the refusal where it has one; every other one takes a slot, gets no
-- response of the handler's own, and gets a socket exactly when the upgrade succeeds.
pub serve_request-response :
    (cfg : BridgeConfig) (o : Outcomes) (r : Request) (now : Time) (g : AbuseGuard) (allowed : Bool)
    → Judges cfg.authorize r allowed
    → let answer = reserve_bridge_connection (some r) now g in
      let (after, trace) = serve_request cfg o r now g in
      (after ≡ (if allowed then answer.0 else g))
      × (response none trace
          ≡ (if allowed then refusal_response answer.1 else some (status_forbidden, none)))
      × (acquires slot trace ≡ (allowed && is_none answer.1))
      × (acquires socket trace ≡ (allowed && is_none answer.1 && o.upgrades))
unfolding serve_request serve_reserved serve_upgrade serve_tunnel serve_conn serve_session
    header_actions response acquires
serve_request-response cfg o r now g allowed j = ground (arith, judged cfg.authorize r allowed j)
