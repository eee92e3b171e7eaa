-- ===== src/Keepalive/Tests.antt =====
-- A connection that falls silent, with a timeout of 120 ns and pings every 60 ns.
use go_grpcbridge.Base.{◌+◌, ◌≡◌, refl, true, false, some, [], ◌∷◌, ◌⊎◌, arith, pos, ◌≤◌, List}
use go_grpcbridge.Config.{BridgeConfig}
use go_grpcbridge.Config.Tests.{zero_config}
use go_grpcbridge.Keepalive.{
  pong, Loop, apply_bridge_connection_settings, Event, elapse, ping_tick, idle_fires, handle_event,
  Reach, here,
}
use go_grpcbridge.Keepalive.Laws.{last_heard, end_of, run, run-closes, handle_event-closes, Occurs}

abbrev watched : BridgeConfig
watched = record zero_config { ping_interval = pos 60; idle_timeout = pos 120 }

abbrev first : Loop
first = record {
  now = 0;
  last_pong = 0;
  read_limit = some (pos 16777216);
  read_deadline = some 120;
  ping_due = some 60;
  idle_due = some 120;
  is_open = true;
  running = true;
}

started : apply_bridge_connection_settings watched true 0 ≡ some first
unfolding apply_bridge_connection_settings go_grpcbridge.Config.get_bridge_read_limit_bytes
started = refl

abbrev silence : List Event
silence = elapse 60 ∷ ping_tick true ∷ elapse 60 ∷ ping_tick true ∷ idle_fires ∷ elapse 1 ∷ []

silence-Occurs : Occurs 0 (pos 60) (pos 120) silence first
unfolding handle_event go_grpcbridge.Keepalive.handle_idle go_grpcbridge.Clock.sub
silence-Occurs = (
  λ _. (omega arith, omega arith),
  (
    (refl, omega arith),
    (
      λ _. (omega arith, omega arith),
      ((refl, omega arith), ((refl, omega arith), (λ ended. ground arith, tt))),
    ),
  ),
)

run-closes_example : (run (pos 60) (pos 120) silence first).is_open ≡ false
unfolding handle_event go_grpcbridge.Keepalive.handle_idle go_grpcbridge.Clock.sub
run-closes_example =
    run-closes {slack = 0} watched 0 silence refl (omega arith) (omega arith) started here refl
      silence-Occurs (refl, (refl, (refl, (refl, (refl, (refl, tt)))))) (omega arith)

-- A pong after 60 ns, and the timer of the first timeout, which is early.
abbrev heard_once : List Event
heard_once = elapse 60 ∷ pong ∷ elapse 60 ∷ []

heard_once-Occurs : Occurs 60 (pos 60) (pos 120) heard_once first
unfolding handle_event go_grpcbridge.Keepalive.handle_pong
heard_once-Occurs = (λ _. (omega arith, omega arith), (refl, (λ _. (omega arith, omega arith), tt)))

handle_event-closes_example :
    let l = run (pos 60) (pos 120) heard_once first in
    ((handle_event (pos 60) (pos 120) idle_fires l).is_open ≡ l.is_open)
    ⊎ ((idle_fires ≡ ping_tick false)
        ⊎ ((idle_fires ≡ idle_fires) × (last_heard 0 0 heard_once + 120 ≤ end_of 0 heard_once)))
handle_event-closes_example =
    handle_event-closes 60 watched 0 heard_once idle_fires refl (omega arith) (omega arith) started
      heard_once-Occurs
