-- ===== src/Keepalive.antt =====
-- pkg/grpctunnel/server.go (applyBridgeConnectionSettings) and pkg/bridge/bridge.go
-- (applyHandlerConnectionSettings): the keepalive loop of a connection as events on its state. The
-- clock, the timers and the answers of the socket are the events; the wall clock of the code is taken
-- to run evenly.
pub mod Laws
pub mod Tests
use go_grpcbridge.Base.{
  ℕ, ◌+◌, ◌≤◌, ◌≡◌, Bool, true, false, ◌&&◌, Option, none, some, List, [], ◌∷◌, if◌then◌else◌, pos,
  pos_part, neg_part, sub_ℕ, is_positive, leℤ, ℤ,
}
use go_grpcbridge.Clock.{Time, Duration, sub}
use go_grpcbridge.Config.{get_bridge_read_limit_bytes, BridgeConfig}
use go_grpcbridge.HandlerConfig.{get_handler_read_limit_bytes, HandlerConfig}

-- A connection, its timers and its loop. A due time is the next instant at which a timer fires.
pub record Loop : Type 0 where
  pub now : Time
  pub last_pong : Time
  pub read_limit : Option ℤ
  pub read_deadline : Option Time
  pub ping_due : Option Time
  pub idle_due : Option Time
  pub is_open : Bool
  pub running : Bool

-- The instant at which a timer of this duration fires first, where it is positive.
abbrev pub timer_after : Time → Duration → Option Time
timer_after now d = if is_positive d then some (now + pos_part d) else none

-- The read limit, which is set where it is positive.
abbrev pub limit_of : ℤ → Option ℤ
limit_of limit = if is_positive limit then some limit else none

-- applyBridgeConnectionSettings; none where SetReadDeadline fails.
pub apply_bridge_connection_settings : BridgeConfig → Bool → Time → Option Loop
apply_bridge_connection_settings cfg sets_deadline now =
    if is_positive cfg.idle_timeout && (if sets_deadline then false else true)
    then none
    else some (record {
      now = now;
      last_pong = now;
      read_limit = limit_of (get_bridge_read_limit_bytes cfg);
      read_deadline = timer_after now cfg.idle_timeout;
      ping_due = timer_after now cfg.ping_interval;
      idle_due = timer_after now cfg.idle_timeout;
      is_open = true;
      running = if is_positive cfg.ping_interval then true else is_positive cfg.idle_timeout;
    })

-- applyHandlerConnectionSettings, whose loop has no timer for idle connections.
pub apply_handler_connection_settings : HandlerConfig → Bool → Time → Option Loop
apply_handler_connection_settings cfg sets_deadline now =
    if is_positive cfg.idle_timeout && (if sets_deadline then false else true)
    then none
    else some (record {
      now = now;
      last_pong = now;
      read_limit = limit_of (get_handler_read_limit_bytes cfg);
      read_deadline = timer_after now cfg.idle_timeout;
      ping_due = timer_after now cfg.ping_interval;
      idle_due = none;
      is_open = true;
      running = is_positive cfg.ping_interval;
    })

-- The pong handler, which is installed where there is an idle timeout. In pkg/bridge nothing reads the
-- instant of the pong.
pub handle_pong : Duration → Loop → Loop
handle_pong idle l =
    if is_positive idle
    then record l { last_pong = l.now; read_deadline = some (l.now + pos_part idle) }
    else l

-- The loop closes the socket and returns.
abbrev pub close_and_return : Loop → Loop
close_and_return l = record l { is_open = false; running = false }

-- A tick: a ping is written, or the write fails.
pub handle_tick : Duration → Bool → Time → Loop → Loop
handle_tick ping written due l =
    if written then record l { ping_due = some (due + pos_part ping) } else close_and_return l

-- cfg.IdleTimeout - time.Since(lastPong).
pub remaining_idle : Duration → Loop → Duration
remaining_idle idle l =
    let since = sub l.now l.last_pong in
    sub_ℕ (pos_part idle + neg_part since) (pos_part since + neg_part idle)

-- The idle timer fired.
pub handle_idle : Duration → Loop → Loop
unfolding remaining_idle
handle_idle idle l =
    let remaining = remaining_idle idle l in
    if leℤ remaining (pos 0)
    then close_and_return l
    else record l { idle_due = some (l.now + pos_part remaining) }

-- The returned function: the loop reads the closed channel and returns.
pub handle_stop : Loop → Loop
handle_stop l = record l { running = false }

-- `deadline_set` is the SetReadDeadline of the adapter, which HTTP/2 calls on the same socket.
pub data Event : Type 0 where
  elapse : ℕ → Event
  pong : Event
  ping_tick : Bool → Event
  idle_fires : Event
  deadline_set : Option Time → Event
  stop : Event

abbrev pub with_due : Option Time → (Time → Loop → Loop) → Loop → Loop
with_due none f l = l
with_due (some due) f l = f due l

-- What an event does to a connection with these durations.
pub handle_event : Duration → Duration → Event → Loop → Loop
unfolding handle_pong handle_tick handle_idle handle_stop
handle_event ping idle (elapse d) l = record l { now = l.now + d }
handle_event ping idle pong l = handle_pong idle l
handle_event ping idle (ping_tick written) l = with_due l.ping_due (handle_tick ping written) l
handle_event ping idle idle_fires l = with_due l.idle_due (λ due. handle_idle idle) l
handle_event ping idle (deadline_set t) l = record l { read_deadline = t }
handle_event ping idle stop l = handle_stop l

-- A timer is served at most `slack` after it is due.
abbrev pub IsServed : ℕ → Time → Option Time → Type 0
IsServed slack now none = Unit
IsServed slack now (some due) = now ≤ due + slack

abbrev pub IsDue : Time → Option Time → Type 0
IsDue now none = ⊥
IsDue now (some due) = due ≤ now

-- When an event can occur: a loop that runs is not left waiting, and timers do not fire early.
abbrev pub Enabled : ℕ → Event → Loop → Type 0
Enabled slack (elapse d) l =
    l.running ≡ true → IsServed slack (l.now + d) l.ping_due × IsServed slack (l.now + d) l.idle_due
Enabled slack pong l = l.is_open ≡ true
Enabled slack (ping_tick written) l = (l.running ≡ true) × IsDue l.now l.ping_due
Enabled slack idle_fires l = (l.running ≡ true) × IsDue l.now l.idle_due
Enabled slack (deadline_set t) l = Unit
Enabled slack stop l = l.running ≡ true

-- The states that a connection reaches from its settings.
pub data Reach (slack : ℕ) (ping idle : Duration) (first : Loop) : Loop → Type 0 where
  here : Reach slack ping idle first first
  step :
      {l : Loop}
      → Reach slack ping idle first l
      → (e : Event) → Enabled slack e l
      → Reach slack ping idle first (handle_event ping idle e l)
