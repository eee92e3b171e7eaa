-- ===== src/Handshake.antt =====
-- pkg/wasm/dialer/dialer.go: how a browser's socket is dialed. The events are the callbacks of the socket
-- and the end of the context; they fill the channels that the dialer's select reads. A dial is the
-- trace of what it does to the socket.
pub mod Laws
pub mod Tests
use go_grpcbridge.Base.{
  ◌≡◌, ◌++◌, Bool, true, false, Option, none, some, List, [], ◌∷◌, if◌then◌else◌, Text, codes,
  is_empty,
}

-- navigator.onLine and document.visibilityState: none where the object is not there, and an inner
-- none where the property has another type.
pub record Environment : Type 0 where
  pub on_line : Option (Option Bool)
  pub visibility_state : Option (Option Text)

-- isDialerBrowserOnline.
pub is_dialer_browser_online : Environment → Bool
is_dialer_browser_online env = elim env.on_line [
  | none ↦ true
  | some property ↦ elim property [ none ↦ true | some online ↦ online ]
]

-- getDialerVisibilityState.
pub get_dialer_visibility_state : Environment → Text
get_dialer_visibility_state env = elim env.visibility_state [
  | none ↦ codes "visible"
  | some property ↦ elim property [ none ↦ codes "visible" | some state ↦ state ]
]

-- buildDialerEnvironmentState.
pub build_dialer_environment_state : Environment → Text
unfolding is_dialer_browser_online get_dialer_visibility_state
build_dialer_environment_state env =
    (if is_dialer_browser_online env then codes "online" else codes "offline")
    ++ (codes ",visibility=" ++ get_dialer_visibility_state env)

-- The two channels, which hold one entry each, and whether the context is done.
pub record Channels : Type 0 where
  pub open_channel : Bool
  pub error_channel : Option Text
  pub is_done : Bool

pub no_events : Channels
no_events = record { open_channel = false; error_channel = none; is_done = false }

pub data Event : Type 0 where
  opens : Event
  errs : Environment → Event
  cancels : Event

-- A callback leaves a full channel as it is.
abbrev pub send_error : Text → Option Text → Option Text
send_error state none = some state
send_error state (some earlier) = some earlier

pub on_event : Event → Channels → Channels
unfolding build_dialer_environment_state
on_event opens c = record c { open_channel = true }
on_event (errs env) c = record c {
  error_channel = send_error (build_dialer_environment_state env) c.error_channel;
}
on_event cancels c = record c { is_done = true }

pub on_events : List Event → Channels → Channels
unfolding on_event
on_events [] c = c
on_events (e ∷ es) c = on_events es (on_event e c)

-- What the dialer does to the socket and to its callbacks.
pub data Action : Type 0 where
  create : Text → List Text → Action
  set_binary_type : Action
  set_on_open set_on_error clear_on_open clear_on_error : Action
  release_on_open release_on_error : Action
  close_socket new_web_socket_conn : Action

pub data DialResult : Type 0 where
  connected : DialResult
  setup_failed : Text → DialResult
  context_error : DialResult
  unavailable : DialResult

-- Up to the select; buildBrowserWebSocket passes the protocols on where there are any.
pub set_up : Text → List Text → List Action
set_up url subprotocols =
    create url subprotocols ∷ set_binary_type ∷ set_on_open ∷ set_on_error ∷ []

-- The deferred calls, last one first.
pub deferred : List Action
deferred = release_on_error ∷ release_on_open ∷ []

pub detach : List Action
detach = clear_on_open ∷ clear_on_error ∷ []

-- The case that the select takes.
pub data Choice : Type 0 where
  take_open take_error take_done : Choice

-- Whether a case is ready, and the result and the trace of the dial that takes it.
pub dial_case : Text → List Text → Choice → Channels → Option (DialResult × List Action)
unfolding set_up deferred detach
dial_case url subprotocols take_open c =
    if c.open_channel
    then some (connected, set_up url subprotocols ++ (detach ++ (new_web_socket_conn ∷ deferred)))
    else none
dial_case url subprotocols take_error c = elim c.error_channel [
  | none ↦ none
  | some state ↦
      some (setup_failed state, set_up url subprotocols ++ (detach ++ (close_socket ∷ deferred)))
]
dial_case url subprotocols take_done c =
    if c.is_done
    then some (context_error, set_up url subprotocols ++ (detach ++ (close_socket ∷ deferred)))
    else none

-- newBrowserWebSocketDialerWithConfig: the dial over the events before its select; none while it waits.
pub dial : Bool → Text → List Text → List Event → Choice → Option (DialResult × List Action)
unfolding dial_case no_events
dial has_web_socket url subprotocols events choice =
    let waited = dial_case url subprotocols choice (on_events events no_events) in
    if has_web_socket then waited else some (unavailable, [])
