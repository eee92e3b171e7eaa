-- ===== src/HandlerAbuse/Retry.antt =====
-- pkg/bridge/retry_after.go beside pkg/grpctunnel/retry_after.go: a refusal is told the same.
use go_grpcbridge.Base.{
  ℕ, ◌+◌, ◌-◌, ◌*◌, ◌≤◌, ◌<◌, ◌≡◌, ◌∙◌, refl, inl, inr, false, Option, none, some, arith, ℤ, pos,
  pos_part, lookup, Text, Option-cases, sym,
}
use go_grpcbridge.Net.{Request}
use go_grpcbridge.Clock.{minute, second, sub, elapsed_iff, sub-pos, max_duration}
use go_grpcbridge.Abuse.{RateWindow, Refusal, set_retry_after}
use go_grpcbridge.Abuse.Rate.Bound.{is_rate_refusal}
use go_grpcbridge.Abuse.Retry.{header_covers, header_total}
use go_grpcbridge.HandlerAbuse.{
  HandlerGuard, handler_key, handler_window, count_handler_attempt, charge_handler_upgrade,
  take_handler_slot, reserve_handler_connection, set_retry_after_header,
}

-- Both packages set the same header for a refusal, or none.
pub set_retry_after_header-eq-set_retry_after :
    (refusal : Refusal) → set_retry_after_header refusal ≡ set_retry_after refusal
unfolding set_retry_after_header set_retry_after
set_retry_after_header-eq-set_retry_after (Refusal.rate_exceeded key (pos n)) = refl
set_retry_after_header-eq-set_retry_after (Refusal.rate_exceeded key (ℤ.negsuc n)) = refl
set_retry_after_header-eq-set_retry_after Refusal.active_cap_exceeded = refl
set_retry_after_header-eq-set_retry_after (Refusal.client_cap_exceeded key) = refl

handler_window-count :
    (now : ℕ) (found : Option RateWindow)
    → ((w : RateWindow) → found ≡ some w → w.started_at + minute ≤ now)
    → (handler_window now found).count ≡ 0
unfolding handler_window
handler_window-count now none h = ground arith
handler_window-count now (some w) h =
    ground (arith, h w refl, (elapsed_iff now w.started_at minute (omega arith)).1)

-- Once the client's window has expired the next attempt is not refused for its rate.
charge_handler_reopened :
    (key : Text) (later : ℕ) (g : HandlerGuard)
    → 0 < pos_part g.config.max_upgrades_per_client_per_minute
    → ((w : RateWindow)
        → lookup key g.client_upgrade_attempts ≡ some w
        → w.started_at + minute ≤ later)
    → (charge_handler_upgrade key later g).1 ≡ none
unfolding charge_handler_upgrade count_handler_attempt
charge_handler_reopened key later g limited over =
    ground (arith, handler_window-count later (lookup key g.client_upgrade_attempts) over)

-- A refusal names the window that refuses, which runs, and leaves the guard alone.
charge_handler_refused :
    (key : Text) (now : ℕ) (g : HandlerGuard) (refusal : Refusal)
    → 0 < pos_part g.config.max_upgrades_per_client_per_minute
    → (charge_handler_upgrade key now g).1 ≡ some refusal
    → (w : RateWindow) × (lookup key g.client_upgrade_attempts ≡ some w)
      × (now < w.started_at + minute)
      × ((charge_handler_upgrade key now g).0 ≡ g)
      × (refusal ≡ Refusal.rate_exceeded key (sub (w.started_at + minute) now))
unfolding charge_handler_upgrade count_handler_attempt handler_window
charge_handler_refused key now g refusal limited e =
    elim (Option-cases (lookup key g.client_upgrade_attempts)) [
      | inl missing ↦ absurd (ground (arith, missing))
      | inr (w, found) ↦
          let over = (elapsed_iff now w.started_at minute (omega arith)).1 in
          (
            w,
            found,
            ground (arith, found, over),
            ground (arith, found),
            ground (arith, found, over),
          )
    ]

reserve_handler-rate :
    (r : Option Request) (now : ℕ) (g : HandlerGuard) (k : Text) (wait : ℤ)
    → (reserve_handler_connection r now g).1 ≡ some (Refusal.rate_exceeded k wait)
    → (0 < pos_part g.config.max_upgrades_per_client_per_minute)
      × ((charge_handler_upgrade (handler_key r) now g).1 ≡ some (Refusal.rate_exceeded k wait))
      × ((reserve_handler_connection r now g).0 ≡ (charge_handler_upgrade (handler_key r) now g).0)
unfolding reserve_handler_connection take_handler_slot
reserve_handler-rate r now g k wait h = ground arith

reserve_handler_reopened :
    (r : Option Request) (later : ℕ) (g : HandlerGuard)
    → 0 < pos_part g.config.max_upgrades_per_client_per_minute
    → (charge_handler_upgrade (handler_key r) later g).1 ≡ none
    → is_rate_refusal (reserve_handler_connection r later g).1 ≡ false
unfolding reserve_handler_connection take_handler_slot is_rate_refusal
reserve_handler_reopened r later g limited open_again = ground arith

-- What a refusal for the rate says of the guard of pkg/bridge.
refused_window :
    (r : Option Request) (now : ℕ) (g : HandlerGuard) (key : Text) (wait : ℤ)
    → ((w : RateWindow)
        → lookup (handler_key r) g.client_upgrade_attempts ≡ some w
        → w.started_at + minute ≤ now + max_duration)
    → (reserve_handler_connection r now g).1 ≡ some (Refusal.rate_exceeded key wait)
    → (w : RateWindow) × (lookup (handler_key r) g.client_upgrade_attempts ≡ some w)
      × (now < w.started_at + minute)
      × (wait ≡ pos (w.started_at + minute - now))
      × ((reserve_handler_connection r now g).0 ≡ g)
      × (0 < pos_part g.config.max_upgrades_per_client_per_minute)
refused_window r now g key wait in_range refused =
    let (limited, charge, same) = reserve_handler-rate r now g key wait refused in
    let (w, found, running, kept, named) =
      charge_handler_refused (handler_key r) now g _ limited charge in
    (
      w,
      found,
      running,
      ground (arith, named, sub-pos (w.started_at + minute) now running (in_range w found)),
      same ∙ kept,
      limited,
    )

-- In pkg/bridge a refusal for the rate always carries the header, whose seconds reach the end of
-- the window that refused and miss it by less than one second.
pub handler_refusal_is_told :
    (r : Option Request) (now : ℕ) (g : HandlerGuard) (key : Text) (wait : ℤ)
    → ((w : RateWindow)
        → lookup (handler_key r) g.client_upgrade_attempts ≡ some w
        → w.started_at + minute ≤ now + max_duration)
    → (reserve_handler_connection r now g).1 ≡ some (Refusal.rate_exceeded key wait)
    → (w : RateWindow) × (seconds : ℕ) × (lookup (handler_key r) g.client_upgrade_attempts ≡ some w)
      × (set_retry_after_header (Refusal.rate_exceeded key wait) ≡ some seconds)
      × (w.started_at + minute ≤ now + seconds * second)
      × (now + seconds * second < w.started_at + minute + second)
handler_refusal_is_told r now g key wait in_range refused =
    let (w, found, running, waits, kept, limited) =
      refused_window r now g key wait in_range refused in
    let (seconds, told) = header_total key (w.started_at + minute - now) (omega arith) in
    let covers = header_covers key (w.started_at + minute - now) seconds told in
    let sets : set_retry_after_header (Refusal.rate_exceeded key wait) ≡ some seconds =
      set_retry_after_header-eq-set_retry_after (Refusal.rate_exceeded key wait) ∙ rw waits told in
    (w, seconds, found, sets, omega (arith, covers), omega (arith, covers))

-- In pkg/bridge, a client that is refused for its rate, and that comes back after the seconds it
-- was told, is not refused for its rate again, provided that the guard was not called in between,
-- and that its window was not opened later than the range of a Duration.
pub handler_retry_is_honoured :
    (r : Option Request) (now later seconds : ℕ) (g : HandlerGuard) (key : Text) (wait : ℤ)
    → ((w : RateWindow)
        → lookup (handler_key r) g.client_upgrade_attempts ≡ some w
        → w.started_at + minute ≤ now + max_duration)
    → (reserve_handler_connection r now g).1 ≡ some (Refusal.rate_exceeded key wait)
    → set_retry_after_header (Refusal.rate_exceeded key wait) ≡ some seconds
    → now + seconds * second ≤ later
    → is_rate_refusal (reserve_handler_connection r later (reserve_handler_connection r now g).0).1
      ≡ false
handler_retry_is_honoured r now later seconds g key wait in_range refused sets back =
    let (w, found, running, waits, kept, limited) =
      refused_window r now g key wait in_range refused in
    let told : set_retry_after (Refusal.rate_exceeded key wait) ≡ some seconds =
      sym (set_retry_after_header-eq-set_retry_after (Refusal.rate_exceeded key wait)) ∙ sets in
    let covers = header_covers key (w.started_at + minute - now) seconds (rw (← waits) told) in
    rw kept (
      reserve_handler_reopened r later g limited (
        charge_handler_reopened (handler_key r) later g limited
          (λ v again. ground (arith, found, again, covers, back))))
