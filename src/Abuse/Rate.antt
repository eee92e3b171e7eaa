-- ===== src/Abuse/Rate.antt =====
-- The upgrade-rate window of pkg/grpctunnel/abuse_control.go: how many attempts it lets through, how
-- long it is kept, and that the sweep is not visible to a client.
pub mod Charge
pub mod Bound
use go_grpcbridge.Base.{
  ℕ, zero, suc, ◌+◌, ◌-◌, ◌*◌, ◌≤◌, ◌<◌, ◌≡◌, refl, ◌≢◌, ◌⊎◌, inl, inr, Bool, true, false, not,
  ◌&&◌, Option, none, some, List, [], ◌∷◌, arith, if◌then◌else◌, ltb, leb, ℤ, pos, pos_part,
  is_positive, leℤ, leℤ_iff, Text, eq_text, eq_text_iff, Dict, lookup, insert, retain, IsMap,
  keep_if, lookup-insert, lookup-retain, insert-IsMap, retain-IsMap, length, Bool-cases,
  Option-cases,
}
use go_grpcbridge.Net.{Request}
use go_grpcbridge.Clock.{Time, minute, sub, elapsed_iff, max_duration}
use go_grpcbridge.Config.{BridgeConfig}
use go_grpcbridge.Abuse.{
  AbuseGuard, RateWindow, Refusal, guard_key, is_expired, current_window,
  sweep_expired_upgrade_windows, charge_upgrade, take_slot, then_take_slot,
  reserve_bridge_connection,
}

abbrev pub windows : AbuseGuard → Dict RateWindow
windows g = g.client_upgrade_attempts

pub is_expired_iff :
    (now : ℕ) (w : RateWindow) → (is_expired now w ≡ true) → w.started_at + minute ≤ now
unfolding is_expired
is_expired_iff now w h = (elapsed_iff now w.started_at minute (omega arith)).0 h

pub not-is_expired :
    (now : ℕ) (w : RateWindow) → now < w.started_at + minute → is_expired now w ≡ false
unfolding is_expired
not-is_expired now w h = ground (arith, (elapsed_iff now w.started_at minute (omega arith)).0)

-- The sweep removes expired windows only.
pub lookup-sweep :
    (key : Text) (now : ℕ) (g : AbuseGuard)
    → IsMap (windows g)
    → (lookup key (windows (sweep_expired_upgrade_windows now g)) ≡ lookup key (windows g))
      ⊎ (lookup key (windows (sweep_expired_upgrade_windows now g))
          ≡ keep_if (λ w. not (is_expired now w)) (lookup key (windows g)))
unfolding sweep_expired_upgrade_windows
lookup-sweep key now g m =
    ground (arith, lookup-retain (λ w. not (is_expired now w)) key (windows g) m)

pub sweep-IsMap :
    (now : ℕ) (g : AbuseGuard)
    → IsMap (windows g)
    → IsMap (windows (sweep_expired_upgrade_windows now g))
unfolding sweep_expired_upgrade_windows
sweep-IsMap now g m = ground (arith, retain-IsMap (λ w. not (is_expired now w)) (windows g) m)

-- A window that still runs is what the guard reads, swept or not.
pub current_window-sweep :
    (key : Text) (now : ℕ) (g : AbuseGuard) (w : RateWindow)
    → IsMap (windows g)
    → lookup key (windows g) ≡ some w
    → 0 < w.started_at
    → now < w.started_at + minute
    → (lookup key (windows (sweep_expired_upgrade_windows now g)) ≡ some w)
      × (current_window now (some w) ≡ w)
unfolding current_window
current_window-sweep key now g w m found started running =
    ground (arith, lookup-sweep key now g m, not-is_expired now w)

pub sweep-config :
    (now : ℕ) (g : AbuseGuard) → (sweep_expired_upgrade_windows now g).config ≡ g.config
unfolding sweep_expired_upgrade_windows
sweep-config now g = ground arith
