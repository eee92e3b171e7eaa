-- ===== src/Abuse/Retry.antt =====
-- pkg/grpctunnel/retry_after.go: the seconds that a refused client is told, and what it meets when it
-- comes back after them.
use go_grpcbridge.Base.{
  ℕ, ◌+◌, ◌-◌, ◌*◌, ◌≤◌, ◌<◌, ◌≡◌, refl, inl, inr, false, Option, none, some, arith, ℤ, pos,
  pos_part, is_positive, Text, lookup, IsMap, Bool-cases, Option-cases,
}
use go_grpcbridge.Net.{Request}
use go_grpcbridge.Clock.{minute, sub, elapsed_iff, max_duration}
use go_grpcbridge.Abuse.{
  AbuseGuard, RateWindow, Refusal, guard_key, is_expired, current_window,
  sweep_expired_upgrade_windows, charge_upgrade, take_slot, then_take_slot,
  reserve_bridge_connection,
}
use go_grpcbridge.Clock.{second, sub-pos}
use go_grpcbridge.Abuse.{set_retry_after, ceil_seconds}
use go_grpcbridge.Abuse.Rate.{windows, lookup-sweep, sweep-config}
use go_grpcbridge.Abuse.Rate.Charge.{charge-IsMap}
use go_grpcbridge.Abuse.Rate.Bound.{is_rate_refusal, then_take_slot-windows}
use go_grpcbridge.Abuse.Sessions.Slots.{charge-connections}

-- The header's seconds cover the wait, by less than one second, and are at least one.
pub header_covers :
    (key : Text) (n seconds : ℕ)
    → set_retry_after (Refusal.rate_exceeded key (pos n)) ≡ some seconds
    → (1 ≤ seconds) × (n ≤ seconds * second) × (seconds * second < n + second)
unfolding set_retry_after
header_covers key n seconds h = ground arith

pub header_total :
    (key : Text) (n : ℕ)
    → 0 < n
    → (seconds : ℕ) × (set_retry_after (Refusal.rate_exceeded key (pos n)) ≡ some seconds)
unfolding set_retry_after
header_total key n h = (ceil_seconds n, ground arith)

-- A window is reset once it is expired, and then holds no attempt.
current_window-count :
    (now : ℕ) (found : Option RateWindow)
    → ((w : RateWindow) → found ≡ some w → w.started_at + minute ≤ now)
    → (current_window now found).count ≡ 0
unfolding current_window is_expired
current_window-count now none h = ground arith
current_window-count now (some w) h =
    ground (arith, h w refl, (elapsed_iff now w.started_at minute (omega arith)).1)

-- Once the client's window has expired the next attempt is not refused for its rate.
charge_reopened :
    (key : Text) (later : ℕ) (g : AbuseGuard)
    → IsMap (windows g)
    → 0 < pos_part g.config.max_upgrades_per_client_per_minute
    → ((w : RateWindow) → lookup key (windows g) ≡ some w → w.started_at + minute ≤ later)
    → (charge_upgrade key later g).1 ≡ none
unfolding charge_upgrade
charge_reopened key later g m limited over =
    let swept = sweep_expired_upgrade_windows later g in
    ground (
      arith,
      sweep-config later g,
      current_window-count later (lookup key (windows swept)) over_swept,
    )
  where
    over_swept :
        (w : RateWindow)
        → lookup key (windows (sweep_expired_upgrade_windows later g)) ≡ some w
        → w.started_at + minute ≤ later
    over_swept w found = ground (arith, lookup-sweep key later g m, over w)

-- A refusal names the window that refuses, which runs and stays.
charge_refused :
    (key : Text) (now : ℕ) (g : AbuseGuard) (refusal : Refusal)
    → IsMap (windows g)
    → 0 < pos_part g.config.max_upgrades_per_client_per_minute
    → (charge_upgrade key now g).1 ≡ some refusal
    → (w : RateWindow) × (lookup key (windows g) ≡ some w)
      × (lookup key (windows (charge_upgrade key now g).0) ≡ some w)
      × (now < w.started_at + minute)
      × (refusal ≡ Refusal.rate_exceeded key (sub (w.started_at + minute) now))
unfolding charge_upgrade current_window
charge_refused key now g refusal m limited e =
    elim (Option-cases (lookup key (windows (sweep_expired_upgrade_windows now g)))) [
      | inl missing ↦ absurd (ground (arith, missing, sweep-config now g))
      | inr (w, found) ↦ (
        w,
        ground (arith, found, lookup-sweep key now g m),
        ground (arith, found, sweep-config now g),
        ground (
          arith,
          found,
          sweep-config now g,
          (elapsed_iff now w.started_at minute (omega arith)).1,
        ),
        ground (arith, found, sweep-config now g),
      )
    ]

take_slot-rate :
    (key : Text) (answer : AbuseGuard × Option Refusal) (k : Text) (wait : ℤ)
    → (then_take_slot key answer).1 ≡ some (Refusal.rate_exceeded k wait)
    → (answer.1 ≡ some (Refusal.rate_exceeded k wait)) × ((then_take_slot key answer).0 ≡ answer.0)
unfolding take_slot
take_slot-rate key (g, some refusal) k wait h = (h, refl)
take_slot-rate key (g, none) k wait h = absurd (ground arith)

reserve-rate :
    (r : Option Request) (now : ℕ) (g : AbuseGuard) (k : Text) (wait : ℤ)
    → (reserve_bridge_connection r now g).1 ≡ some (Refusal.rate_exceeded k wait)
    → (0 < pos_part g.config.max_upgrades_per_client_per_minute)
      × ((charge_upgrade (guard_key r) now g).1 ≡ some (Refusal.rate_exceeded k wait))
      × ((reserve_bridge_connection r now g).0 ≡ (charge_upgrade (guard_key r) now g).0)
unfolding reserve_bridge_connection take_slot
reserve-rate r now g k wait h =
    elim (Bool-cases (is_positive g.config.max_upgrades_per_client_per_minute)) [
      | inl limited ↦
          let (refused, same) =
            take_slot-rate (guard_key r) (charge_upgrade (guard_key r) now g) k wait
              (ground (arith, limited)) in
          (ground (arith, limited), refused, ground (arith, limited, same))
      | inr free ↦ absurd (ground (arith, free))
    ]

reserve_reopened :
    (r : Option Request) (later : ℕ) (g : AbuseGuard)
    → 0 < pos_part g.config.max_upgrades_per_client_per_minute
    → (charge_upgrade (guard_key r) later g).1 ≡ none
    → is_rate_refusal (reserve_bridge_connection r later g).1 ≡ false
unfolding reserve_bridge_connection is_rate_refusal
reserve_reopened r later g limited open_again =
    ground (
      arith,
      open_again,
      then_take_slot-windows (guard_key r) (charge_upgrade (guard_key r) later g),
    )

-- A client that is refused for its rate, and that comes back after the seconds it was told, is not
-- refused for its rate again, provided that the guard was not called in between, that no client
-- has two windows, and that its window was not opened later than the range of a Duration.
pub retry_is_honoured :
    (r : Option Request) (now later seconds : ℕ) (g : AbuseGuard) (key : Text) (wait : ℤ)
    → IsMap (windows g)
    → ((w : RateWindow)
        → lookup (guard_key r) (windows g) ≡ some w
        → w.started_at + minute ≤ now + max_duration)
    → (reserve_bridge_connection r now g).1 ≡ some (Refusal.rate_exceeded key wait)
    → set_retry_after (Refusal.rate_exceeded key wait) ≡ some seconds
    → now + seconds * second ≤ later
    → is_rate_refusal (reserve_bridge_connection r later (reserve_bridge_connection r now g).0).1
      ≡ false
retry_is_honoured r now later seconds g key wait m in_range refused told back =
    let (limited, charge, same) = reserve-rate r now g key wait refused in
    let (w, before, after, running, named) =
      charge_refused (guard_key r) now g _ m limited charge in
    let h = (charge_upgrade (guard_key r) now g).0 in
    let waits : wait ≡ pos (w.started_at + minute - now) =
      ground (arith, named, sub-pos (w.started_at + minute) now running (in_range w before)) in
    let covers = header_covers key (w.started_at + minute - now) seconds (rw (← waits) told) in
    rw same (
      reserve_reopened r later h (ground (arith, limited, charge-connections (guard_key r) now g)) (
        charge_reopened (guard_key r) later h (charge-IsMap (guard_key r) now g m)
          (ground (arith, limited, charge-connections (guard_key r) now g))
          (λ v found. ground (arith, after, found, covers, back))))

-- A refusal for the rate always carries the header: its seconds reach the instant at which the
-- window that refused opens again, and miss it by less than one second, where no client has two
-- windows and the window was not opened later than the range of a Duration.
pub rate_refusal_is_told :
    (r : Option Request) (now : ℕ) (g : AbuseGuard) (key : Text) (wait : ℤ)
    → IsMap (windows g)
    → ((w : RateWindow)
        → lookup (guard_key r) (windows g) ≡ some w
        → w.started_at + minute ≤ now + max_duration)
    → (reserve_bridge_connection r now g).1 ≡ some (Refusal.rate_exceeded key wait)
    → (w : RateWindow) × (seconds : ℕ) × (lookup (guard_key r) (windows g) ≡ some w)
      × (set_retry_after (Refusal.rate_exceeded key wait) ≡ some seconds)
      × (1 ≤ seconds)
      × (w.started_at + minute ≤ now + seconds * second)
      × (now + seconds * second < w.started_at + minute + second)
rate_refusal_is_told r now g key wait m in_range refused =
    let (limited, charge, same) = reserve-rate r now g key wait refused in
    let (w, before, after, running, named) =
      charge_refused (guard_key r) now g _ m limited charge in
    let waits : wait ≡ pos (w.started_at + minute - now) =
      ground (arith, named, sub-pos (w.started_at + minute) now running (in_range w before)) in
    let (seconds, told) = header_total key (w.started_at + minute - now) (omega arith) in
    let covers = header_covers key (w.started_at + minute - now) seconds told in
    (w, seconds, before, rw waits told, covers.0, omega (arith, covers), omega (arith, covers))
