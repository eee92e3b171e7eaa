-- ===== src/Abuse/Memory.antt =====
-- How long pkg/grpctunnel/abuse_control.go keeps a rate window: the map holds no window of a client
-- that has been away for two minutes.
use go_grpcbridge.Base.{
  ℕ, ◌+◌, ◌*◌, ◌<◌, ◌≡◌, refl, ◌⊎◌, inl, inr, not, Option, none, some, arith, pos, leℤ, Text,
  lookup, IsMap, lookup-insert, lookup-retain, insert-IsMap, Bool-cases,
}
use go_grpcbridge.Clock.{minute, elapsed_iff}
use go_grpcbridge.Abuse.{
  AbuseGuard, RateWindow, is_expired, current_window, sweep_expired_upgrade_windows, count_attempt,
  charge_upgrade,
}
use go_grpcbridge.Abuse.Rate.{windows, sweep-IsMap}

-- Every window that is kept still ran at the last sweep.
pub record IsSwept (g : AbuseGuard) : Type 0 where
  pub distinct : IsMap (windows g)
  pub ran :
      (key : Text) (w : RateWindow)
      → lookup key (windows g) ≡ some w
      → g.last_window_sweep_at < w.started_at + minute

sweep-IsSwept :
    (now : ℕ) (g : AbuseGuard) → IsSwept g → IsSwept (sweep_expired_upgrade_windows now g)
sweep-IsSwept now g v = record {
  distinct = sweep-IsMap now g v.distinct;
  ran = λ key w found. ran_swept key w found;
}
  where
    ran_swept :
        (key : Text) (w : RateWindow)
        → lookup key (windows (sweep_expired_upgrade_windows now g)) ≡ some w
        → (sweep_expired_upgrade_windows now g).last_window_sweep_at < w.started_at + minute
    ran_swept key w found =
        unfold sweep_expired_upgrade_windows is_expired in
        ground (
          arith,
          v.ran key w,
          lookup-retain (λ u. not (is_expired now u)) key (windows g) v.distinct,
          elapsed_iff now w.started_at minute (omega arith),
        )

-- The sweep is never more than a minute behind.
sweep_recent :
    (now : ℕ) (g : AbuseGuard)
    → now < (sweep_expired_upgrade_windows now g).last_window_sweep_at + minute
unfolding sweep_expired_upgrade_windows
sweep_recent now g = ground (arith, elapsed_iff now g.last_window_sweep_at minute (omega arith))

sweep_not_later :
    (now : ℕ) (g : AbuseGuard)
    → g.last_window_sweep_at < now + minute
    → (sweep_expired_upgrade_windows now g).last_window_sweep_at < now + minute
unfolding sweep_expired_upgrade_windows
sweep_not_later now g h = ground arith

-- The window that an attempt is counted in is a running one, or a new one.
current_window-cases :
    (now : ℕ) (found : Option RateWindow)
    → (found ≡ some (current_window now found)) ⊎ ((current_window now found).started_at ≡ now)
unfolding current_window
current_window-cases now none = ground arith
current_window-cases now (some w) = ground arith

count_attempt-IsSwept :
    (key : Text) (now : ℕ) (w : RateWindow) (g : AbuseGuard)
    → IsSwept g
    → g.last_window_sweep_at < w.started_at + minute
    → IsSwept (count_attempt key now w g).0
      × ((count_attempt key now w g).0.last_window_sweep_at ≡ g.last_window_sweep_at)
unfolding count_attempt
count_attempt-IsSwept key now w g v h =
    elim (Bool-cases (leℤ g.config.max_upgrades_per_client_per_minute (pos w.count))) [
      | inl full ↦ rw full (v, refl)
      | inr below ↦ rw below (
        record {
          distinct = insert-IsMap key (record w { count = w.count + 1 }) (windows g) v.distinct;
          ran = λ k u found. ground (
            arith,
            v.ran k u,
            lookup-insert key k (record w { count = w.count + 1 }) (windows g),
          );
        },
        refl,
      )
    ]

-- On a guard where no client has two windows and each one ran at the last sweep: after an attempt
-- every window that the guard keeps was opened less than two minutes ago, and the next attempt
-- finds the guard in such a state again, unless the clock was set back by a minute or more.
pub charge-IsSwept :
    (key : Text) (now : ℕ) (g : AbuseGuard)
    → IsSwept g
    → g.last_window_sweep_at < now + minute
    → IsSwept (charge_upgrade key now g).0
      × ((k : Text) (w : RateWindow)
          → lookup k (windows (charge_upgrade key now g).0) ≡ some w
          → now < w.started_at + 2 * minute)
unfolding charge_upgrade
charge-IsSwept key now g v h =
    let swept = sweep_expired_upgrade_windows now g in
    let window = current_window now (lookup key (windows swept)) in
    let u = sweep-IsSwept now g v in
    let runs : swept.last_window_sweep_at < window.started_at + minute =
      elim (current_window-cases now (lookup key (windows swept))) [
        | inl found ↦ u.ran key window found
        | inr new ↦ omega (arith, new, sweep_not_later now g h)
      ] in
    let (kept, same) = count_attempt-IsSwept key now window swept u runs in
    (kept, λ k w found. omega (arith, kept.ran k w found, same, sweep_recent now g))
