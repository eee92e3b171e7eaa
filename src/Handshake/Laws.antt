-- ===== src/Handshake/Laws.antt =====
-- A dial either hands over an open socket or closes it, and leaves no callback behind.
use mathlib.Core.Path.{subst}
use go_grpcbridge.Base.{
  sym, ◌∙◌, ◌≡◌, ◌++◌, refl, Bool, true, false, Option, none, some, List, [], ◌∷◌, ◌⊎◌, inl, inr,
  if◌then◌else◌, Text, arith, Any, Bool-cases, Option-cases,
}
use go_grpcbridge.Handshake.{
  Environment, build_dialer_environment_state, Channels, no_events, Event, opens, errs, cancels,
  on_event, on_events, Action, create, set_binary_type, set_on_open, set_on_error, clear_on_open,
  clear_on_error, release_on_open, release_on_error, close_socket, new_web_socket_conn, DialResult,
  connected, setup_failed, context_error, unavailable, set_up, deferred, detach, Choice, take_open,
  take_error, take_done, dial_case, dial, send_error,
}

-- A socket and the two callbacks of the dial. A callback is attached, and its function lives until it
-- is released; the adapter owns the socket once it has wrapped it.
pub record Socket : Type 0 where
  pub created : Bool
  pub closed : Bool
  pub wrapped : Bool
  pub open_attached : Bool
  pub error_attached : Bool
  pub open_released : Bool
  pub error_released : Bool

abbrev pub no_socket : Socket
no_socket = record {
  created = false;
  closed = false;
  wrapped = false;
  open_attached = false;
  error_attached = false;
  open_released = false;
  error_released = false;
}

abbrev pub allowed : Bool → Socket → Option Socket
allowed true s = some s
allowed false s = none

-- What an action does; none where it uses a socket that is not there or already closed, releases a
-- callback that is attached, or attaches one that was released.
abbrev pub after_action : Action → Socket → Option Socket
after_action (create url subprotocols) s =
    if s.created then none else some (record s { created = true })
after_action set_binary_type s = allowed s.created s
after_action set_on_open s =
    if s.open_released then none else allowed s.created (record s { open_attached = true })
after_action set_on_error s =
    if s.error_released then none else allowed s.created (record s { error_attached = true })
after_action clear_on_open s = allowed s.created (record s { open_attached = false })
after_action clear_on_error s = allowed s.created (record s { error_attached = false })
after_action release_on_open s =
    if s.open_attached then none else some (record s { open_released = true })
after_action release_on_error s =
    if s.error_attached then none else some (record s { error_released = true })
after_action close_socket s =
    if s.closed then none else allowed s.created (record s { closed = true })
after_action new_web_socket_conn s =
    if s.open_attached
    then none
    else if s.error_attached
    then none
    else if s.closed
    then none
    else allowed s.created (record s { wrapped = true })

abbrev pub after_trace : List Action → Socket → Option Socket
after_trace [] s = some s
after_trace (a ∷ trace) s = elim (after_action a s) [ none ↦ none | some s' ↦ after_trace trace s' ]

-- The socket when the dial returns: wrapped and open, or closed, and the callbacks are gone.
abbrev pub settled : Bool → Socket
settled is_connected = record {
  created = true;
  closed = if is_connected then false else true;
  wrapped = is_connected;
  open_attached = false;
  error_attached = false;
  open_released = true;
  error_released = true;
}

-- The events that explain a result.
abbrev pub Explained : List Event → DialResult → Type 0
Explained events connected = Any (λ e. e ≡ opens) events
Explained events (setup_failed state) =
    Any (λ e. (env : Environment) × ((e ≡ errs env) × (state ≡ build_dialer_environment_state env)))
      events
Explained events context_error = Any (λ e. e ≡ cancels) events
Explained events unavailable = ⊥

abbrev pub is_connected : DialResult → Bool
is_connected connected = true
is_connected _ = false

-- What the channels hold comes from the events.
opened-explained :
    (events : List Event) (c : Channels)
    → (on_events events c).open_channel ≡ true
    → Any (λ e. e ≡ opens) events ⊎ (c.open_channel ≡ true)
unfolding on_events
opened-explained [] c h = inr h
opened-explained (opens ∷ es) c h = inl (inl refl)
opened-explained (errs env ∷ es) c h = elim (opened-explained es (on_event (errs env) c) h) [
  | inl later ↦ inl (inr later)
  | inr before ↦ inr before
]
opened-explained (cancels ∷ es) c h = elim (opened-explained es (on_event cancels c) h) [
  | inl later ↦ inl (inr later)
  | inr before ↦ inr before
]

cancelled-explained :
    (events : List Event) (c : Channels)
    → (on_events events c).is_done ≡ true
    → Any (λ e. e ≡ cancels) events ⊎ (c.is_done ≡ true)
unfolding on_events
cancelled-explained [] c h = inr h
cancelled-explained (cancels ∷ es) c h = inl (inl refl)
cancelled-explained (errs env ∷ es) c h = elim (cancelled-explained es (on_event (errs env) c) h) [
  | inl later ↦ inl (inr later)
  | inr before ↦ inr before
]
cancelled-explained (opens ∷ es) c h = elim (cancelled-explained es (on_event opens c) h) [
  | inl later ↦ inl (inr later)
  | inr before ↦ inr before
]

-- An error that one of the events reported.
abbrev Reported : Text → Event → Type 0
Reported state e =
    (env : Environment) × ((e ≡ errs env) × (state ≡ build_dialer_environment_state env))

failed-explained :
    (events : List Event) (c : Channels) (state : Text)
    → (on_events events c).error_channel ≡ some state
    → Any (Reported state) events ⊎ (c.error_channel ≡ some state)
unfolding on_events
failed-explained [] c state h = inr h
failed-explained (opens ∷ es) c state h = elim (failed-explained es (on_event opens c) state h) [
  | inl later ↦ inl (inr later)
  | inr before ↦ inr before
]
failed-explained (cancels ∷ es) c state h =
    elim (failed-explained es (on_event cancels c) state h) [
      | inl later ↦ inl (inr later)
      | inr before ↦ inr before
    ]
failed-explained (errs env ∷ es) c state h =
    elim (failed-explained es (on_event (errs env) c) state h) [
      | inl later ↦ inl (inr later)
      | inr before ↦ first_error c.error_channel refl before
    ]
  where
    first_error :
        (held : Option Text)
        → c.error_channel ≡ held
        → send_error (build_dialer_environment_state env) c.error_channel ≡ some state
        → (Reported state (errs env) ⊎ Any (Reported state) es) ⊎ (c.error_channel ≡ some state)
    first_error none e sent = inl (inl (env, (refl, ground (arith, e))))
    first_error (some earlier) e sent = inr (ground (arith, e))

-- What a dial that returned is to satisfy.
abbrev Settles : List Event → DialResult × List Action → Type 0
Settles events (result, trace) =
    (after_trace trace no_socket ≡ some (settled (is_connected result))) × Explained events result

same_answer :
    (events : List Event) {o : Option (DialResult × List Action)} {a b : DialResult × List Action}
    → o ≡ some a
    → o ≡ some b
    → Settles events a
    → Settles events b
same_answer events p q s = subst (Settles events) (some-injective (sym p ∙ q)) s
  where
    some-injective :
        {a b : DialResult × List Action}
        → ◌≡◌ {A = Option (DialResult × List Action)} (some a) (some b)
        → a ≡ b
    some-injective e = cc

abbrev connected_trace : Text → List Text → List Action
connected_trace url subprotocols =
    set_up url subprotocols ++ (detach ++ (new_web_socket_conn ∷ deferred))

abbrev failed_trace : Text → List Text → List Action
failed_trace url subprotocols = set_up url subprotocols ++ (detach ++ (close_socket ∷ deferred))

-- A dial that returns has created one socket and either wrapped it, and left it open, or closed
-- it; it has detached both callbacks before it released them; its result is one that an event
-- explains.
pub dial-settles :
    (url : Text) (subprotocols : List Text) (events : List Event) (choice : Choice)
    (result : DialResult) (trace : List Action)
    → dial true url subprotocols events choice ≡ some (result, trace)
    → (after_trace trace no_socket ≡ some (settled (is_connected result))) × Explained events result
unfolding dial dial_case no_events set_up deferred detach
dial-settles url subprotocols events take_open result trace h =
    elim (Bool-cases (on_events events no_events).open_channel) [
      | inr waits ↦ absurd (ground (arith, waits))
      | inl ready ↦ elim (opened-explained events no_events ready) [
        | inl explained ↦
            same_answer events {a = (connected, connected_trace url subprotocols)}
              (ground (arith, ready)) h (refl, explained)
        | inr before ↦ ground (arith, before)
      ]
    ]
dial-settles url subprotocols events take_error result trace h =
    elim (Option-cases (on_events events no_events).error_channel) [
      | inl waits ↦ absurd (ground (arith, waits))
      | inr (state, ready) ↦ elim (failed-explained events no_events state ready) [
        | inl explained ↦
            same_answer events {a = (setup_failed state, failed_trace url subprotocols)}
              (ground (arith, ready)) h (refl, explained)
        | inr before ↦ ground (arith, before)
      ]
    ]
dial-settles url subprotocols events take_done result trace h =
    elim (Bool-cases (on_events events no_events).is_done) [
      | inr waits ↦ absurd (ground (arith, waits))
      | inl ready ↦ elim (cancelled-explained events no_events ready) [
        | inl explained ↦
            same_answer events {a = (context_error, failed_trace url subprotocols)}
              (ground (arith, ready)) h (refl, explained)
        | inr before ↦ ground (arith, before)
      ]
    ]
