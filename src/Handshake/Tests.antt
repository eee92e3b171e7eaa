-- ===== src/Handshake/Tests.antt =====
-- A dial that fails after an error of an offline browser.
use go_grpcbridge.Base.{◌≡◌, ◌++◌, refl, true, false, none, some, List, [], ◌∷◌, Text, codes}
use go_grpcbridge.Handshake.{
  Environment, Event, opens, errs, Action, close_socket, setup_failed, set_up, deferred, detach,
  take_error, dial,
}
use go_grpcbridge.Handshake.Laws.{no_socket, after_trace, settled, Explained, dial-settles}

abbrev offline : Environment
offline = record { on_line = some (some false); visibility_state = none }

abbrev url : Text
url = codes "wss://localhost"

abbrev events : List Event
events = errs offline ∷ []

abbrev trace : List Action
trace = set_up url [] ++ (detach ++ (close_socket ∷ deferred))

dialed :
    dial true url [] events take_error
    ≡ some (setup_failed (codes "offline,visibility=visible"), trace)
unfolding dial go_grpcbridge.Handshake.on_events
dialed = refl

dial-settles_example :
    (after_trace trace no_socket ≡ some (settled false))
    × Explained events (setup_failed (codes "offline,visibility=visible"))
dial-settles_example =
    dial-settles url [] events take_error (setup_failed (codes "offline,visibility=visible")) trace
      dialed
