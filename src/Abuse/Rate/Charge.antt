-- ===== src/Abuse/Rate/Charge.antt =====
-- One charge of an upgrade attempt to a client's window.
use go_grpcbridge.Base.{
  ℕ, ◌+◌, ◌≤◌, ◌<◌, ◌≡◌, ◌≢◌, none, some, arith, pos_part, Text, eq_text_iff, lookup, IsMap,
  lookup-insert, insert-IsMap,
}
use go_grpcbridge.Clock.{minute, sub}
use go_grpcbridge.Abuse.{
  AbuseGuard, RateWindow, Refusal, current_window, sweep_expired_upgrade_windows, charge_upgrade,
}
use go_grpcbridge.Abuse.Rate.{windows, sweep-IsMap, current_window-sweep, sweep-config}

module _ (key : Text) (now : ℕ) (g : AbuseGuard) (w : RateWindow) (m : IsMap (windows g))
    (found : lookup key (windows g) ≡ some w) (started : 0 < w.started_at)
    (running : now < w.started_at + minute) where
  -- An attempt below the limit is counted in the window that runs.
  pub charge_below :
      w.count < pos_part g.config.max_upgrades_per_client_per_minute
      → ((charge_upgrade key now g).1 ≡ none)
        × (lookup key (windows (charge_upgrade key now g).0)
            ≡ some (record w { count = w.count + 1 }))
  unfolding charge_upgrade
  charge_below h =
      let (kept, same) = current_window-sweep key now g w m found started running in
      rw (kept, same)
        (ground (
          arith,
          sweep-config now g,
          eq_text_iff key key,
          lookup-insert key key (record w { count = w.count + 1 })
              (windows (sweep_expired_upgrade_windows now g)),
        ))

  -- An attempt at the limit is refused, and the window stays.
  pub charge_full :
      pos_part g.config.max_upgrades_per_client_per_minute ≤ w.count
      → ((charge_upgrade key now g).1
          ≡ some (Refusal.rate_exceeded key (sub (w.started_at + minute) now)))
        × (lookup key (windows (charge_upgrade key now g).0) ≡ some w)
  unfolding charge_upgrade
  charge_full h =
      let (kept, same) = current_window-sweep key now g w m found started running in
      rw (kept, same) (ground (arith, kept, sweep-config now g))

  -- An attempt of another client leaves the window alone.
  pub charge_other :
      (other : Text) → other ≢ key → lookup key (windows (charge_upgrade other now g).0) ≡ some w
  unfolding charge_upgrade
  charge_other other h =
      let swept = sweep_expired_upgrade_windows now g in
      let window = current_window now (lookup other (windows swept)) in
      ground (
        arith,
        eq_text_iff other key,
        (current_window-sweep key now g w m found started running).0,
        lookup-insert other key (record window { count = window.count + 1 }) (windows swept),
      )

pub charge-IsMap :
    (key : Text) (now : ℕ) (g : AbuseGuard)
    → IsMap (windows g)
    → IsMap (windows (charge_upgrade key now g).0)
unfolding charge_upgrade
charge-IsMap key now g m =
    let swept = sweep_expired_upgrade_windows now g in
    let window = current_window now (lookup key (windows swept)) in
    ground (
      arith,
      sweep-IsMap now g m,
      insert-IsMap key (record window { count = window.count + 1 }) (windows swept),
    )
