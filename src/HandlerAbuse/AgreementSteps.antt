-- ===== src/HandlerAbuse/AgreementSteps.antt =====
-- Each call of the two guards keeps them in agreement.
use go_grpcbridge.Base.{
  ℕ, ◌+◌, ◌-◌, ◌≤◌, ◌≡◌, refl, ◌∙◌, ap, ap₂, inl, inr, ◌&&◌, Option, none, some, arith,
  if◌then◌else◌, ltb, leb, pos, is_positive, leℤ, Text, eq_text, lookup, insert, delete, or_zero,
  lookup-insert, insert-IsMap, Bool-cases,
}
use go_grpcbridge.Net.{Request}
use go_grpcbridge.Abuse.{
  AbuseGuard, RateWindow, Refusal, guard_key, current_window, sweep_expired_upgrade_windows,
  charge_upgrade, count_attempt, reserve_slot, take_slot, then_take_slot, reserve_bridge_connection,
  clear_bridge_connection,
}
use go_grpcbridge.Abuse.Rate.{windows}
use go_grpcbridge.HandlerAbuse.{
  HandlerGuard, charge_handler_upgrade, count_handler_attempt, take_handler_slot,
  then_take_handler_slot, reserve_handler_connection, clear_handler_connection,
}
use go_grpcbridge.HandlerAbuse.Agreement.{
  Agree, sweep-Agree, handler_window-eq-current_window, handler_key-eq-guard_key,
}

-- The same window gives the same answer, and is stored in both guards.
count_attempt-Agree :
    (key : Text) (t : ℕ) (w : RateWindow) (g : AbuseGuard) (h : HandlerGuard)
    → Agree t g h
    → Agree t (count_attempt key t w g).0 (count_handler_attempt key t w h).0
      × ((count_attempt key t w g).1 ≡ (count_handler_attempt key t w h).1)
unfolding count_attempt count_handler_attempt
count_attempt-Agree key t w g h v =
    elim (Bool-cases (leℤ h.config.max_upgrades_per_client_per_minute (pos w.count))) [
      | inl full ↦ rw (same_test ∙ full, full) (v, refl)
      | inr below ↦ rw (same_test ∙ below, below) (stored, refl)
    ]
  where
    same_test :
        leℤ g.config.max_upgrades_per_client_per_minute (pos w.count)
        ≡ leℤ h.config.max_upgrades_per_client_per_minute (pos w.count)
    same_test = ap (λ m. leℤ m (pos w.count)) v.limits.upgrades

    counted : RateWindow
    counted = record w { count = w.count + 1 }

    stored :
        Agree t
          (record g { client_upgrade_attempts = insert key counted g.client_upgrade_attempts })
          (record h { client_upgrade_attempts = insert key counted h.client_upgrade_attempts })
    stored = record {
      limits = v.limits;
      active = v.active;
      connections = v.connections;
      distinct = insert-IsMap key counted (windows g) v.distinct;
      met = λ k u later.
          rw
            (
              lookup-insert key k counted (windows g),
              lookup-insert key k counted h.client_upgrade_attempts,
            )
            (elim (Bool-cases (eq_text key k)) [
              | inl same ↦ rw same refl
              | inr other ↦ rw other (v.met k u later)
            ]);
    }

charge-Agree :
    (key : Text) (now t : ℕ) (g : AbuseGuard) (h : HandlerGuard)
    → now ≤ t
    → Agree now g h
    → Agree t (charge_upgrade key t g).0 (charge_handler_upgrade key t h).0
      × ((charge_upgrade key t g).1 ≡ (charge_handler_upgrade key t h).1)
unfolding charge_upgrade charge_handler_upgrade
charge-Agree key now t g h le v =
    let swept = sweep_expired_upgrade_windows t g in
    let u = sweep-Agree now t g h le v in
    rw
      (
        handler_window-eq-current_window t (lookup key h.client_upgrade_attempts),
        ← u.met key t (omega arith),
      )
      (count_attempt-Agree key t (current_window t (lookup key (windows swept))) swept h u)

take_slot-Agree :
    (key : Text) (t : ℕ) (g : AbuseGuard) (h : HandlerGuard)
    → Agree t g h
    → Agree t (take_slot key g).0 (take_handler_slot key h).0
      × ((take_slot key g).1 ≡ (take_handler_slot key h).1)
unfolding take_slot take_handler_slot reserve_slot
take_slot-Agree key t g h v =
    elim (Bool-cases (
      is_positive h.config.max_active_connections
      && leℤ h.config.max_active_connections (pos h.active_connections))) [
        | inl full ↦ rw (same_cap ∙ full, full) (v, refl)
        | inr free ↦
            elim (Bool-cases (
              is_positive h.config.max_connections_per_client
              && leℤ h.config.max_connections_per_client
                  (pos (or_zero (lookup key h.client_connections))))) [
                    | inl full ↦ rw (same_cap ∙ free, free, same_client_cap ∙ full, full) (v, refl)
                    | inr room ↦
                        rw (same_cap ∙ free, free, same_client_cap ∙ room, room) (reserved, refl)
                  ]
      ]
  where
    same_cap :
        (is_positive g.config.max_active_connections
          && leℤ g.config.max_active_connections (pos g.active_connections))
        ≡ (is_positive h.config.max_active_connections
            && leℤ h.config.max_active_connections (pos h.active_connections))
    same_cap = ap₂ (λ m n. is_positive m && leℤ m (pos n)) v.limits.active v.active

    same_client_cap :
        (is_positive g.config.max_connections_per_client
          && leℤ g.config.max_connections_per_client
              (pos (or_zero (lookup key g.client_connections))))
        ≡ (is_positive h.config.max_connections_per_client
            && leℤ h.config.max_connections_per_client
                (pos (or_zero (lookup key h.client_connections))))
    same_client_cap =
        ap₂ (λ m d. is_positive m && leℤ m (pos (or_zero (lookup key d)))) v.limits.per_client
          v.connections

    reserved : Agree t (reserve_slot key g) (record h {
      active_connections = h.active_connections + 1;
      client_connections =
          insert key (or_zero (lookup key h.client_connections) + 1) h.client_connections;
    })
    reserved = record {
      limits = v.limits;
      active = ap (λ n. n + 1) v.active;
      connections = ap (λ d. insert key (or_zero (lookup key d) + 1) d) v.connections;
      distinct = v.distinct;
      met = v.met;
    }

pub clear-Agree :
    (r : Option Request) (now : ℕ) (g : AbuseGuard) (h : HandlerGuard)
    → Agree now g h
    → Agree now (clear_bridge_connection r g) (clear_handler_connection r h)
unfolding clear_bridge_connection clear_handler_connection
clear-Agree r now g h v = rw (handler_key-eq-guard_key r) (record {
  limits = v.limits;
  active = ap (λ n. if ltb 0 n then n - 1 else n) v.active;
  connections =
      ap
        (λ d.
          if leb (or_zero (lookup (guard_key r) d)) 1
          then delete (guard_key r) d
          else insert (guard_key r) (or_zero (lookup (guard_key r) d) - 1) d)
        v.connections;
  distinct = v.distinct;
  met = v.met;
})

-- Charged answers that agree are followed by slots that agree.
then_take_slot-Agree :
    (key : Text) (t : ℕ) (x : AbuseGuard × Option Refusal) (y : HandlerGuard × Option Refusal)
    → Agree t x.0 y.0
    → x.1 ≡ y.1
    → Agree t (then_take_slot key x).0 (then_take_handler_slot key y).0
      × ((then_take_slot key x).1 ≡ (then_take_handler_slot key y).1)
then_take_slot-Agree key t (g, none) (h, none) v e = take_slot-Agree key t g h v
then_take_slot-Agree key t (g, none) (h, some b) v e = absurd (cc)
then_take_slot-Agree key t (g, some a) (h, none) v e = absurd (cc)
then_take_slot-Agree key t (g, some a) (h, some b) v e = (v, e)

pub reserve-Agree :
    (r : Option Request) (now t : ℕ) (g : AbuseGuard) (h : HandlerGuard)
    → now ≤ t
    → Agree now g h
    → Agree t (reserve_bridge_connection r t g).0 (reserve_handler_connection r t h).0
      × ((reserve_bridge_connection r t g).1 ≡ (reserve_handler_connection r t h).1)
unfolding reserve_bridge_connection reserve_handler_connection
reserve-Agree r now t g h le v =
    elim (Bool-cases (is_positive h.config.max_upgrades_per_client_per_minute)) [
      | inl limited ↦
          rw (same_test ∙ limited, limited, handler_key-eq-guard_key r)
            (let (u, e) = charge-Agree (guard_key r) now t g h le v in
              then_take_slot-Agree (guard_key r) t _ _ u e)
      | inr free ↦
          rw (same_test ∙ free, free, handler_key-eq-guard_key r)
            (take_slot-Agree (guard_key r) t g h (later-Agree v))
    ]
  where
    same_test :
        is_positive g.config.max_upgrades_per_client_per_minute
        ≡ is_positive h.config.max_upgrades_per_client_per_minute
    same_test = ap is_positive v.limits.upgrades

    later-Agree : Agree now g h → Agree t g h
    later-Agree u = record {
      limits = u.limits;
      active = u.active;
      connections = u.connections;
      distinct = u.distinct;
      met = λ k s later. u.met k s (omega (arith, le, later));
    }
