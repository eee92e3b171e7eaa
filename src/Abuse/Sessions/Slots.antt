-- ===== src/Abuse/Sessions/Slots.antt =====
-- One reservation and one release, as the counters and the list of sessions show them.
use go_grpcbridge.Base.{
  ℕ, ◌+◌, ◌-◌, ◌<◌, ◌≡◌, ◌⊎◌, inl, inr, ◌&&◌, Option, none, some, List, [], ◌∷◌, arith,
  if◌then◌else◌, leb, pos, pos_part, is_positive, leℤ, Text, eq_text, eq_text_iff, lookup, or_zero,
  lookup-insert, lookup-delete, length, Bool-cases,
}
use go_grpcbridge.Net.{Request}
use go_grpcbridge.Abuse.{
  AbuseGuard, Refusal, guard_key, sweep_expired_upgrade_windows, charge_upgrade, reserve_slot,
  take_slot, clear_bridge_connection,
}
use go_grpcbridge.Abuse.Sessions.{count, remove}

pub count-remove :
    (k j : Text) (xs : List Text)
    → 0 < count k xs
    → count j (remove k xs) + (if eq_text k j then 1 else 0) ≡ count j xs
unfolding count remove
count-remove k j [] h = absurd (omega arith)
count-remove k j (i ∷ xs) h =
    ground (arith, eq_text_iff k j, eq_text_iff i k, eq_text_iff i j, count-remove k j xs)

pub length-remove :
    (k : Text) (xs : List Text) → 0 < count k xs → length (remove k xs) + 1 ≡ length xs
unfolding count remove
length-remove k [] h = absurd (omega arith)
length-remove k (i ∷ xs) h = ground (arith, length-remove k xs)

pub charge-connections :
    (key : Text) (now : ℕ) (g : AbuseGuard)
    → ((charge_upgrade key now g).0.client_connections ≡ g.client_connections)
      × ((charge_upgrade key now g).0.active_connections ≡ g.active_connections)
      × ((charge_upgrade key now g).0.config ≡ g.config)
unfolding charge_upgrade sweep_expired_upgrade_windows
charge-connections key now g = ground arith

pub take_slot-cases :
    (key : Text) (g : AbuseGuard)
    → ((refusal : Refusal) × (take_slot key g ≡ (g, some refusal)))
      ⊎ ((take_slot key g ≡ (reserve_slot key g, none))
          × (0 < pos_part g.config.max_active_connections
              → g.active_connections < pos_part g.config.max_active_connections)
          × (0 < pos_part g.config.max_connections_per_client
              → or_zero (lookup key g.client_connections)
                < pos_part g.config.max_connections_per_client))
unfolding take_slot
take_slot-cases key g =
    elim (Bool-cases (
      is_positive g.config.max_active_connections
      && leℤ g.config.max_active_connections (pos g.active_connections))) [
        | inl full ↦ inl (Refusal.active_cap_exceeded, rw full)
        | inr free ↦
            elim (Bool-cases (
              is_positive g.config.max_connections_per_client
              && leℤ g.config.max_connections_per_client
                  (pos (or_zero (lookup key g.client_connections))))) [
                    | inl full ↦ inl (Refusal.client_cap_exceeded key, rw (free, full))
                    | inr room ↦ inr (rw (free, room), ground arith, ground arith)
                  ]
      ]

-- Reading the counters after the reservation.
pub reserve_slot-lookup :
    (key k : Text) (g : AbuseGuard)
    → lookup k (reserve_slot key g).client_connections ≡ (
        if eq_text key k
        then some (or_zero (lookup key g.client_connections) + 1)
        else lookup k g.client_connections)
unfolding reserve_slot
reserve_slot-lookup key k g = lookup-insert key k _ g.client_connections

-- Reading the counters after a release.
pub clear-lookup :
    (r : Option Request) (k : Text) (g : AbuseGuard)
    → let held = or_zero (lookup (guard_key r) g.client_connections) in
      lookup k (clear_bridge_connection r g).client_connections ≡ (
        if eq_text (guard_key r) k
        then (if leb held 1 then none else some (held - 1))
        else lookup k g.client_connections)
unfolding clear_bridge_connection
clear-lookup r k g = ground (
  arith,
  lookup-delete (guard_key r) k g.client_connections,
  lookup-insert (guard_key r) k (or_zero (lookup (guard_key r) g.client_connections) - 1)
      g.client_connections,
)
