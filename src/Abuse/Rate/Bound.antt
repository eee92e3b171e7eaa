-- ===== src/Abuse/Rate/Bound.antt =====
-- At most the configured number of attempts of one client passes in one window.
use go_grpcbridge.Base.{
  ℕ, ◌+◌, ◌≤◌, ◌<◌, ◌≡◌, refl, ◌≢◌, inl, inr, Bool, true, false, not, ◌&&◌, Option, none, some,
  List, [], ◌∷◌, arith, if◌then◌else◌, pos_part, Text, eq_text, eq_text_iff, lookup, IsMap, All,
  Bool-cases,
}
use native.Mathlib.Nat.{zero-add}
use go_grpcbridge.Net.{Request}
use go_grpcbridge.Clock.{minute}
use go_grpcbridge.Abuse.{
  AbuseGuard, RateWindow, Refusal, guard_key, charge_upgrade, take_slot, then_take_slot,
  reserve_bridge_connection,
}
use go_grpcbridge.Abuse.Rate.{windows}
use go_grpcbridge.Abuse.Rate.Charge.{charge_below, charge_full, charge_other, charge-IsMap}
use go_grpcbridge.Abuse.{clear_bridge_connection, reserve_slot}
use go_grpcbridge.Abuse.Sessions.{Server, Event, arrive, leave, settle, step, run}
use go_grpcbridge.Abuse.Sessions.Slots.{charge-connections}

unfoldable pub is_rate_refusal : Option Refusal → Bool
is_rate_refusal none = false
is_rate_refusal (some (Refusal.rate_exceeded key wait)) = true
is_rate_refusal (some Refusal.active_cap_exceeded) = false
is_rate_refusal (some (Refusal.client_cap_exceeded key)) = false

-- Whether an event is an attempt of the client that the rate window lets through.
pub is_pass : Text → Server → Event → Bool
unfolding is_rate_refusal
is_pass key s (leave r) = false
is_pass key s (arrive r now) =
    eq_text (guard_key r) key && not (is_rate_refusal (reserve_bridge_connection r now s.guard).1)

pub passes : Text → Server → List Event → ℕ
passes key s [] = 0
passes key s (e ∷ es) = (if is_pass key s e then 1 else 0) + passes key (step s e) es

abbrev pub Before : ℕ → Event → Type 0
Before limit (arrive r now) = now < limit
Before limit (leave r) = Unit

-- The client's window has run since `opened` and holds `used` attempts.
pub record Runs (key : Text) (opened limit used : ℕ) (s : Server) : Type 0 where
  pub limited : pos_part s.guard.config.max_upgrades_per_client_per_minute ≡ limit
  pub distinct : IsMap (windows s.guard)
  pub found : lookup key (windows s.guard) ≡ some (record { started_at = opened; count = used })
  pub within : used ≤ limit

pub then_take_slot-windows :
    (key : Text) (answer : AbuseGuard × Option Refusal)
    → (windows (then_take_slot key answer).0 ≡ windows answer.0)
      × ((then_take_slot key answer).0.config ≡ answer.0.config)
      × (is_rate_refusal (then_take_slot key answer).1 ≡ is_rate_refusal answer.1)
unfolding take_slot reserve_slot is_rate_refusal
then_take_slot-windows key (g, some refusal) = (refl, refl, refl)
then_take_slot-windows key (g, none) = ground arith

settle-guard :
    (key : Text) (open_keys : List Text) (answer : AbuseGuard × Option Refusal)
    → (settle key open_keys answer).guard ≡ answer.0
unfolding settle
settle-guard key open_keys (g, none) = refl
settle-guard key open_keys (g, some refusal) = refl

-- What an arrival does to the windows is what the charge does.
arrive-windows :
    (r : Option Request) (now : ℕ) (s : Server)
    → 0 < pos_part s.guard.config.max_upgrades_per_client_per_minute
    → (windows (step s (arrive r now)).guard ≡ windows (charge_upgrade (guard_key r) now s.guard).0)
      × ((step s (arrive r now)).guard.config ≡ s.guard.config)
      × (is_rate_refusal (reserve_bridge_connection r now s.guard).1
          ≡ is_rate_refusal (charge_upgrade (guard_key r) now s.guard).1)
unfolding step reserve_bridge_connection
arrive-windows r now s h = ground (
  arith,
  settle-guard (guard_key r) s.sessions
      (then_take_slot (guard_key r) (charge_upgrade (guard_key r) now s.guard)),
  then_take_slot-windows (guard_key r) (charge_upgrade (guard_key r) now s.guard),
  charge-connections (guard_key r) now s.guard,
)

leave-windows :
    (r : Option Request) (s : Server)
    → (windows (step s (leave r)).guard ≡ windows s.guard)
      × ((step s (leave r)).guard.config ≡ s.guard.config)
unfolding step clear_bridge_connection
leave-windows r s = ground arith

add_move : (a b c : ℕ) → (a + b) + c ≡ b + (a + c)
add_move a b c = omega arith

module _ (key : Text) (opened limit : ℕ) (started : 0 < opened) (bounded : 0 < limit) where
  -- An arrival of another client leaves the window alone.
  other_attempt :
      (r : Option Request) (now : ℕ) (s : Server) (used : ℕ)
      → now < opened + minute
      → Runs key opened limit used s
      → guard_key r ≢ key
      → Runs key opened limit used (step s (arrive r now))
  other_attempt r now s used b v other =
      let same = arrive-windows r now s (omega (arith, v.limited)) in
      record {
        limited = ground (arith, same.1, v.limited);
        distinct = rw same.0 (charge-IsMap (guard_key r) now s.guard v.distinct);
        found =
            rw same.0
              (charge_other key now s.guard _ v.distinct v.found started b (guard_key r) other);
        within = v.within;
      }

  own_attempt :
      (r : Option Request) (now : ℕ) (s : Server) (used : ℕ)
      → now < opened + minute
      → Runs key opened limit used s
      → guard_key r ≡ key
      → Runs key opened limit
          ((if not (is_rate_refusal (reserve_bridge_connection r now s.guard).1) then 1 else 0)
            + used)
          (step s (arrive r now))
  unfolding is_rate_refusal
  own_attempt r now s used b v own =
      let same = arrive-windows r now s (omega (arith, v.limited)) in
      let w : RateWindow = record { started_at = opened; count = used } in
      let below = charge_below key now s.guard w v.distinct v.found started b in
      let full = charge_full key now s.guard w v.distinct v.found started b in
      record {
        limited = ground (arith, same.1, v.limited);
        distinct = rw same.0 (charge-IsMap (guard_key r) now s.guard v.distinct);
        found = ground (arith, same, own, below, full, v.limited, v.within);
        within = ground (arith, same, own, below, full, v.limited, v.within);
      }

  step-Runs :
      (e : Event) (s : Server) (used : ℕ)
      → Before (opened + minute) e
      → Runs key opened limit used s
      → Runs key opened limit ((if is_pass key s e then 1 else 0) + used) (step s e)
  unfolding is_pass
  step-Runs (leave r) s used b v =
      let same = leave-windows r s in
      rw zero-add (record {
        limited = ground (arith, same, v.limited);
        distinct = rw same.0 v.distinct;
        found = rw same.0 v.found;
        within = v.within;
      })
  step-Runs (arrive r now) s used b v = elim (Bool-cases (eq_text (guard_key r) key)) [
    | inl same ↦ rw same (own_attempt r now s used b v ((eq_text_iff _ _).0 same))
    | inr other ↦
        rw (other, zero-add) (other_attempt r now s used b v (λ e. cc ((eq_text_iff _ _).1 e)))
  ]

  passes-Runs :
      (es : List Event) (s : Server) (used : ℕ)
      → All (Before (opened + minute)) es
      → Runs key opened limit used s
      → Runs key opened limit (passes key s es + used) (run s es)
  unfolding passes run
  passes-Runs [] s used b v = ground (arith, v)
  passes-Runs (e ∷ es) s used b v =
      rw (add_move (if is_pass key s e then 1 else 0) (passes key (step s e) es) used)
        (passes-Runs es (step s e) _ b.1 (step-Runs e s used b.0 v))

-- With a positive limit, and while a client's window, opened after the zero time, runs, the
-- attempts that it lets through and those that it held already do not exceed the configured
-- number, whatever the other clients do and whichever sessions end.
pub passes-le-limit :
    (key : Text) (opened limit used : ℕ) (es : List Event) (s : Server)
    → 0 < opened
    → 0 < limit
    → Runs key opened limit used s
    → All (Before (opened + minute)) es
    → passes key s es + used ≤ limit
passes-le-limit key opened limit used es s started bounded v b =
    (passes-Runs key opened limit started bounded es s used b v).within
