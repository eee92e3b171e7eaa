-- ===== src/Keepalive/Laws.antt =====
-- When the keepalive loop closes a connection.
use go_grpcbridge.Base.{
  ℕ, ◌+◌, ◌≤◌, ◌<◌, ◌≡◌, refl, ap, ◌∙◌, true, false, Option, none, some, ◌⊎◌, inl, inr, arith, pos,
  pos_part, leℤ, sub_ℕ, neg_part, Bool, List, ◌∷◌, All,
}
use go_grpcbridge.Clock.{Time, Duration, sub, max_duration}
use go_grpcbridge.Config.{BridgeConfig}
use mathlib.Core.List.{[]}
use mathlib.Core.Path.{subst}
use go_grpcbridge.Keepalive.{
  Reach, here, step, Loop, apply_bridge_connection_settings, handle_pong, handle_tick,
  remaining_idle, handle_idle, handle_stop, Event, elapse, pong, ping_tick, idle_fires, stop,
  handle_event, Enabled, close_and_return, deadline_set,
}

-- A timer is armed, for an instant no later than this.
abbrev ArmedBy : Time → Option Time → Type 0
ArmedBy bound none = ⊥
ArmedBy bound (some due) = due ≤ bound

-- What holds of a loop with an idle timeout between two events.
record Inv (slack timeout : ℕ) (l : Loop) : Type 0 where
  past : l.last_pong ≤ l.now
  timer : ArmedBy (l.last_pong + timeout) l.idle_due
  fresh : l.running ≡ true → l.now ≤ l.last_pong + timeout + slack

-- What is left of the timeout, as remaining_idle computes it.
left_of : ℕ → Time → Time → Duration
left_of timeout now last = sub_ℕ (timeout + neg_part (sub now last)) (pos_part (sub now last) + 0)

left_of-cases :
    (timeout now last : ℕ)
    → timeout ≤ max_duration
    → last ≤ now
    → ((last + timeout ≤ now) × (leℤ (left_of timeout now last) (pos 0) ≡ true))
      ⊎ ((now < last + timeout)
          × (leℤ (left_of timeout now last) (pos 0) ≡ false)
          × (now + pos_part (left_of timeout now last) ≡ last + timeout))
unfolding left_of sub
left_of-cases timeout now last h p = ground arith

handle_idle-cases :
    (timeout : ℕ) (l : Loop)
    → timeout ≤ max_duration
    → l.last_pong ≤ l.now
    → ((l.last_pong + timeout ≤ l.now) × (handle_idle (pos timeout) l ≡ close_and_return l))
      ⊎ ((l.now < l.last_pong + timeout)
          × (handle_idle (pos timeout) l ≡ record l { idle_due = some (l.last_pong + timeout) }))
unfolding handle_idle remaining_idle left_of
handle_idle-cases timeout l h p = elim (left_of-cases timeout l.now l.last_pong h p) [
  | inl (old, close) ↦ inl (old, rw close refl)
  | inr (young, keep, due) ↦ inr (young, rw (keep, due) refl)
]

start-Inv :
    (cfg : BridgeConfig) (slack timeout now : ℕ) (l : Loop)
    → cfg.idle_timeout ≡ pos timeout
    → 0 < timeout
    → apply_bridge_connection_settings cfg true now ≡ some l
    → Inv slack timeout l
unfolding apply_bridge_connection_settings
start-Inv cfg slack timeout now l e h s = ground arith

handle_event-Inv :
    (slack timeout : ℕ) (ping : Duration) (e : Event) (l : Loop)
    → 0 < timeout
    → timeout ≤ max_duration
    → Enabled slack e l
    → Inv slack timeout l
    → Inv slack timeout (handle_event ping (pos timeout) e l)
unfolding handle_event handle_pong handle_tick handle_stop
handle_event-Inv slack timeout ping (elapse d) l h b en i = ground (arith, i.past, i.timer)
handle_event-Inv slack timeout ping pong l h b en i = ground (arith, i.past, i.timer, i.fresh)
handle_event-Inv slack timeout ping (ping_tick written) l h b en i =
    ground (arith, i.past, i.timer, i.fresh)
handle_event-Inv slack timeout ping idle_fires l h b en i =
    elim (handle_idle-cases timeout l b i.past) [
      | inl (old, closed) ↦ ground (arith, i.past, i.timer, i.fresh, closed)
      | inr (young, kept) ↦ ground (arith, i.past, i.timer, i.fresh, kept)
    ]
handle_event-Inv slack timeout ping (deadline_set t) l h b en i =
    ground (arith, i.past, i.timer, i.fresh)
handle_event-Inv slack timeout ping stop l h b en i = ground (arith, i.past, i.timer, i.fresh)

Reach-Inv :
    {slack timeout : ℕ} {ping : Duration} {first l : Loop}
    → 0 < timeout
    → timeout ≤ max_duration
    → Inv slack timeout first
    → Reach slack ping (pos timeout) first l
    → Inv slack timeout l
Reach-Inv h b i here = i
Reach-Inv {slack} {timeout} {ping} h b i (step {l} r e en) =
    handle_event-Inv slack timeout ping e l h b en (Reach-Inv h b i r)

-- The events of a run, one after the other, and that each of them can occur when its turn comes.
abbrev pub run : Duration → Duration → List Event → Loop → Loop
run ping idle [] l = l
run ping idle (e ∷ es) l = run ping idle es (handle_event ping idle e l)

abbrev pub Occurs : ℕ → Duration → Duration → List Event → Loop → Type 0
Occurs slack ping idle [] l = Unit
Occurs slack ping idle (e ∷ es) l =
    Enabled slack e l × Occurs slack ping idle es (handle_event ping idle e l)

-- Neither a pong nor a stop.
abbrev pub is_silent : Event → Bool
is_silent pong = false
is_silent stop = false
is_silent _ = true

run-Inv :
    (slack timeout : ℕ) (ping : Duration) (es : List Event) (l : Loop)
    → 0 < timeout
    → timeout ≤ max_duration
    → Occurs slack ping (pos timeout) es l
    → Inv slack timeout l
    → Inv slack timeout (run ping (pos timeout) es l)
run-Inv slack timeout ping [] l h b en i = i
run-Inv slack timeout ping (e ∷ es) l h b (en, ens) i =
    run-Inv slack timeout ping es (handle_event ping (pos timeout) e l) h b ens
      (handle_event-Inv slack timeout ping e l h b en i)

-- Without a pong the last one stays; without a stop a loop that has ended has closed the socket.
record Quiet (last : Time) (l : Loop) : Type 0 where
  same_pong : l.last_pong ≡ last
  ended_closed : (l.running ≡ true) ⊎ (l.is_open ≡ false)

handle_event-Quiet :
    (last : Time) (ping idle : Duration) (e : Event) (l : Loop)
    → is_silent e ≡ true
    → Quiet last l
    → Quiet last (handle_event ping idle e l)
unfolding handle_event handle_tick handle_idle
handle_event-Quiet last ping idle e l s q = ground (arith, q.same_pong, q.ended_closed)

run-Quiet :
    (last : Time) (ping idle : Duration) (es : List Event) (l : Loop)
    → All (λ e. is_silent e ≡ true) es
    → Quiet last l
    → Quiet last (run ping idle es l)
run-Quiet last ping idle [] l s q = q
run-Quiet last ping idle (e ∷ es) l (s, ss) q =
    run-Quiet last ping idle es (handle_event ping idle e l) ss
      (handle_event-Quiet last ping idle e l s q)

-- A connection with an idle timeout whose loop runs is closed by the loop in every run without a
-- pong and without the stop function that goes on for longer than the timeout, and the lateness of
-- the timers, after the last pong.
pub run-closes :
    {slack timeout : ℕ} {first l : Loop} (cfg : BridgeConfig) (now : Time) (es : List Event)
    → cfg.idle_timeout ≡ pos timeout
    → 0 < timeout
    → timeout ≤ max_duration
    → apply_bridge_connection_settings cfg true now ≡ some first
    → Reach slack cfg.ping_interval (pos timeout) first l
    → l.running ≡ true
    → Occurs slack cfg.ping_interval (pos timeout) es l
    → All (λ e. is_silent e ≡ true) es
    → l.last_pong + timeout + slack < (run cfg.ping_interval (pos timeout) es l).now
    → (run cfg.ping_interval (pos timeout) es l).is_open ≡ false
run-closes {slack} {timeout} {first} {l} cfg now es e h b s r running ens silent late =
    let i =
      run-Inv slack timeout cfg.ping_interval es l h b ens
        (Reach-Inv h b (start-Inv cfg slack timeout now first e h s) r) in
    let q =
      run-Quiet l.last_pong cfg.ping_interval (pos timeout) es l silent
        (record { same_pong = refl; ended_closed = inl running }) in
    ground (arith, i.fresh, q.same_pong, q.ended_closed)

-- The instant of the last pong among the events, and that of their end: the first argument is the
-- instant that they start at, the second that of the last pong before them.
abbrev pub last_heard : Time → Time → List Event → Time
last_heard now heard [] = heard
last_heard now heard (elapse d ∷ es) = last_heard (now + d) heard es
last_heard now heard (pong ∷ es) = last_heard now now es
last_heard now heard (_ ∷ es) = last_heard now heard es

abbrev pub end_of : Time → List Event → Time
end_of now [] = now
end_of now (elapse d ∷ es) = end_of (now + d) es
end_of now (_ ∷ es) = end_of now es

-- Only a pong moves the instant of the last one, and only time moves the clock.
handle_event-keeps :
    (timeout : ℕ) (ping : Duration) (e : Event) (es : List Event) (l : Loop)
    → 0 < timeout
    → let next = handle_event ping (pos timeout) e l in
      (last_heard next.now next.last_pong es ≡ last_heard l.now l.last_pong (e ∷ es))
      × (end_of next.now es ≡ end_of l.now (e ∷ es))
unfolding handle_event handle_pong handle_tick handle_idle handle_stop
handle_event-keeps timeout ping (elapse d) es l h = (refl, refl)
handle_event-keeps timeout ping pong es l h = ground arith
handle_event-keeps timeout ping (ping_tick written) es l h = ground arith
handle_event-keeps timeout ping idle_fires es l h = ground arith
handle_event-keeps timeout ping (deadline_set t) es l h = (refl, refl)
handle_event-keeps timeout ping stop es l h = (refl, refl)

run-heard :
    (timeout : ℕ) (ping : Duration) (es : List Event) (l : Loop)
    → 0 < timeout
    → let end = run ping (pos timeout) es l in
      (end.last_pong ≡ last_heard l.now l.last_pong es) × (end.now ≡ end_of l.now es)
run-heard timeout ping [] l h = (refl, refl)
run-heard timeout ping (e ∷ es) l h =
    let (heard, now) = run-heard timeout ping es (handle_event ping (pos timeout) e l) h in
    let (same_heard, same_now) = handle_event-keeps timeout ping e es l h in
    (heard ∙ same_heard, now ∙ same_now)

closing-event :
    (timeout : ℕ) (ping : Duration) (e : Event) (l : Loop)
    → timeout ≤ max_duration
    → l.last_pong ≤ l.now
    → ((handle_event ping (pos timeout) e l).is_open ≡ l.is_open)
      ⊎ ((e ≡ ping_tick false) ⊎ ((e ≡ idle_fires) × (l.last_pong + timeout ≤ l.now)))
unfolding handle_event handle_pong handle_tick handle_stop
closing-event timeout ping e l b past = elim (handle_idle-cases timeout l b past) [
  | inl (old, closed) ↦ ground (arith, old, closed)
  | inr (young, kept) ↦ ground (arith, kept)
]

start-instants :
    (cfg : BridgeConfig) (now : ℕ) (l : Loop)
    → apply_bridge_connection_settings cfg true now ≡ some l
    → (l.now ≡ now) × (l.last_pong ≡ now)
unfolding apply_bridge_connection_settings
start-instants cfg now l s = ground arith

-- The loop closes a connection with an idle timeout only when a ping could not be written, or when
-- the idle timer fires a whole timeout or more after the last of the pongs that came in, or after
-- the settings where none came, whatever happened before, other deadlines that are set on the
-- socket included.
pub handle_event-closes :
    {timeout : ℕ} {first : Loop} (slack : ℕ) (cfg : BridgeConfig) (now : Time) (es : List Event)
    (e : Event)
    → cfg.idle_timeout ≡ pos timeout
    → 0 < timeout
    → timeout ≤ max_duration
    → apply_bridge_connection_settings cfg true now ≡ some first
    → Occurs slack cfg.ping_interval (pos timeout) es first
    → let l = run cfg.ping_interval (pos timeout) es first in
      ((handle_event cfg.ping_interval (pos timeout) e l).is_open ≡ l.is_open)
      ⊎ ((e ≡ ping_tick false)
          ⊎ ((e ≡ idle_fires) × (last_heard now now es + timeout ≤ end_of now es)))
handle_event-closes {timeout} {first} slack cfg now es e spelled h b s ens =
    let i =
      run-Inv slack timeout cfg.ping_interval es first h b ens
        (start-Inv cfg slack timeout now first spelled h s) in
    let (heard, ended) = run-heard timeout cfg.ping_interval es first h in
    let (at_now, pong_now) = start-instants cfg now first s in
    let same_heard =
      heard
      ∙ ap (λ t. last_heard t first.last_pong es) at_now
      ∙ ap (λ t. last_heard now t es) pong_now in
    let same_end = ended ∙ ap (λ t. end_of t es) at_now in
    elim (closing-event timeout cfg.ping_interval e (run cfg.ping_interval (pos timeout) es first) b
      i.past) [
        | inl same ↦ inl same
        | inr (inl lost) ↦ inr (inl lost)
        | inr (inr (fires, late)) ↦ inr (
            inr (
              fires,
              subst (λ t. last_heard now now es + timeout ≤ t) same_end
                  (subst (λ t. t + timeout ≤ (run cfg.ping_interval (pos timeout) es first).now)
                    same_heard late),
            ))
      ]
