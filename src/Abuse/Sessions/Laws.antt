-- ===== src/Abuse/Sessions/Laws.antt =====
-- The counters of the guard hold the open sessions after any history.
use go_grpcbridge.Base.{
  ℕ, ◌<◌, ◌≡◌, refl, ◌∙◌, ◌↔◌, inl, inr, false, Option, none, some, List, [], ◌∷◌, arith, ltb,
  pos_part, is_positive, Text, eq_text_iff, lookup, or_zero, length, Bool-cases, ltb→lt,
}
use go_grpcbridge.Net.{Request}
use go_grpcbridge.Clock.{Time}
use go_grpcbridge.Config.{BridgeConfig}
use go_grpcbridge.Abuse.{
  AbuseGuard, Refusal, build_bridge_abuse_guard, guard_key, charge_upgrade, reserve_slot, take_slot,
  then_take_slot, reserve_bridge_connection, clear_bridge_connection,
}
use go_grpcbridge.Abuse.Sessions.{
  count, remove, Server, Event, arrive, leave, settle, step, run, start, Represents,
}
use go_grpcbridge.Abuse.Sessions.Slots.{
  count-remove, length-remove, charge-connections, take_slot-cases, reserve_slot-lookup,
  clear-lookup,
}

module _ (cfg : BridgeConfig) where
  reserve_slot-Represents :
      (key : Text) (g : AbuseGuard) (open_keys : List Text)
      → Represents cfg (record { guard = g; sessions = open_keys })
      → (0 < pos_part g.config.max_active_connections
          → g.active_connections < pos_part g.config.max_active_connections)
      → (0 < pos_part g.config.max_connections_per_client
          → or_zero (lookup key g.client_connections)
            < pos_part g.config.max_connections_per_client)
      → Represents cfg (record { guard = reserve_slot key g; sessions = key ∷ open_keys })
  unfolding reserve_slot count
  reserve_slot-Represents key g open_keys v free room = record {
    same_config = v.same_config;
    active = omega (arith, v.active);
    per_client = λ k.
        rw (reserve_slot-lookup key k g)
          (ground (arith, eq_text_iff key k, v.per_client key, v.per_client k));
    no_zero = λ k. rw (reserve_slot-lookup key k g) (ground (arith, v.no_zero k));
    active_cap = ground (arith, v.active, v.same_config);
    client_cap =
        λ k h. ground (arith, eq_text_iff key k, v.per_client key, v.client_cap k h, v.same_config);
  }

  settle_slot-Represents :
      (key : Text) (g : AbuseGuard) (open_keys : List Text)
      → Represents cfg (record { guard = g; sessions = open_keys })
      → Represents cfg (settle key open_keys (take_slot key g))
  unfolding settle
  settle_slot-Represents key g open_keys v = elim (take_slot-cases key g) [
    | inl (refusal, e) ↦ rw e v
    | inr (e, free, room) ↦ rw e (reserve_slot-Represents key g open_keys v free room)
  ]

  -- A change of the rate windows alone is invisible here.
  same_connections :
      (g h : AbuseGuard) (open_keys : List Text)
      → (h.client_connections ≡ g.client_connections)
        × (h.active_connections ≡ g.active_connections)
        × (h.config ≡ g.config)
      → Represents cfg (record { guard = g; sessions = open_keys })
      → Represents cfg (record { guard = h; sessions = open_keys })
  same_connections g h open_keys (c, a, e) v = record {
    same_config = e ∙ v.same_config;
    active = a ∙ v.active;
    per_client = λ k. rw c (v.per_client k);
    no_zero = λ k. rw c (v.no_zero k);
    active_cap = v.active_cap;
    client_cap = v.client_cap;
  }

  settle_charged-Represents :
      (key : Text) (answer : AbuseGuard × Option Refusal) (open_keys : List Text)
      → Represents cfg (record { guard = answer.0; sessions = open_keys })
      → Represents cfg (settle key open_keys (then_take_slot key answer))
  unfolding settle
  settle_charged-Represents key (g, some refusal) open_keys v = v
  settle_charged-Represents key (g, none) open_keys v = settle_slot-Represents key g open_keys v

  arrive-Represents :
      (r : Option Request) (now : ℕ) (s : Server)
      → Represents cfg s
      → Represents cfg (step s (arrive r now))
  unfolding step reserve_bridge_connection
  arrive-Represents r now s v =
      elim (Bool-cases (is_positive s.guard.config.max_upgrades_per_client_per_minute)) [
        | inl limited ↦ rw limited (
            settle_charged-Represents (guard_key r) (charge_upgrade (guard_key r) now s.guard)
              s.sessions
              (same_connections s.guard _ s.sessions (charge-connections (guard_key r) now s.guard)
                v))
        | inr free ↦ rw free (settle_slot-Represents (guard_key r) s.guard s.sessions v)
      ]

  leave-Represents :
      (r : Option Request) (s : Server)
      → Represents cfg s
      → 0 < count (guard_key r) s.sessions
      → Represents cfg (record {
        guard = clear_bridge_connection r s.guard;
        sessions = remove (guard_key r) s.sessions;
      })
  unfolding clear_bridge_connection
  leave-Represents r s v h = record {
    same_config = v.same_config;
    active = ground (arith, v.active, length-remove (guard_key r) s.sessions);
    per_client = λ k. rw (clear-lookup r k s.guard) (
        ground (
          arith,
          eq_text_iff (guard_key r) k,
          v.per_client (guard_key r),
          v.per_client k,
          count-remove (guard_key r) k s.sessions,
        ));
    no_zero = λ k.
        rw (clear-lookup r k s.guard) (ground (arith, v.no_zero k, v.per_client (guard_key r)));
    active_cap = ground (arith, v.active_cap, length-remove (guard_key r) s.sessions);
    client_cap = λ k c. ground (arith, v.client_cap k c, count-remove (guard_key r) k s.sessions);
  }

  step-Represents : (e : Event) (s : Server) → Represents cfg s → Represents cfg (step s e)
  unfolding step
  step-Represents (arrive r now) s v = arrive-Represents r now s v
  step-Represents (leave r) s v = elim (Bool-cases (ltb 0 (count (guard_key r) s.sessions))) [
    | inl held ↦ rw held (leave-Represents r s v (ltb→lt 0 _ held))
    | inr absent ↦ rw absent v
  ]

  run-Represents : (es : List Event) (s : Server) → Represents cfg s → Represents cfg (run s es)
  unfolding run
  run-Represents [] s v = v
  run-Represents (e ∷ es) s v = run-Represents es (step s e) (step-Represents e s v)

  start-Represents : Represents cfg (start cfg)
  unfolding start build_bridge_abuse_guard count lookup
  start-Represents = record {
    same_config = refl;
    active = refl;
    per_client = λ k. refl;
    no_zero = λ k. cc;
    active_cap = omega arith;
    client_cap = λ k c. omega arith;
  }

-- After any history of arrivals and departures, the guard's counters are the number of open
-- sessions and the number of each client's, no counter that is stored is zero, and neither a
-- positive global cap nor a positive cap per client is exceeded.
pub run-start-Represents :
    (cfg : BridgeConfig) (es : List Event) → Represents cfg (run (start cfg) es)
run-start-Represents cfg es = run-Represents cfg es (start cfg) (start-Represents cfg)

-- The sessions that the two caps leave room for.
abbrev pub HasRoom : BridgeConfig → Text → List Text → Type 0
HasRoom cfg key open_keys =
    (0 < pos_part cfg.max_active_connections
      → length open_keys < pos_part cfg.max_active_connections)
    × (0 < pos_part cfg.max_connections_per_client
        → count key open_keys < pos_part cfg.max_connections_per_client)

-- With the rate limit off, after any history, an arrival is admitted exactly when both caps have
-- room for it.
pub reserve-eq-none_iff :
    (cfg : BridgeConfig) (es : List Event) (r : Option Request) (now : Time)
    → is_positive cfg.max_upgrades_per_client_per_minute ≡ false
    → ((reserve_bridge_connection r now (run (start cfg) es).guard).1 ≡ none)
      ↔ HasRoom cfg (guard_key r) (run (start cfg) es).sessions
unfolding reserve_bridge_connection take_slot
reserve-eq-none_iff cfg es r now off =
    let v = run-start-Represents cfg es in
    ground (arith, v.same_config, v.active, v.per_client (guard_key r))

active-clear-reserve_slot :
    (r : Option Request) (g : AbuseGuard)
    → (clear_bridge_connection r (reserve_slot (guard_key r) g)).active_connections
      ≡ g.active_connections
unfolding clear_bridge_connection reserve_slot
active-clear-reserve_slot r g = ground arith

-- After any history, a session that opens and closes again, with nothing in between, leaves every
-- counter as it was.
pub clear-reserve_slot :
    (cfg : BridgeConfig) (es : List Event) (r : Option Request) (k : Text)
    → let g = (run (start cfg) es).guard in
      let h = clear_bridge_connection r (reserve_slot (guard_key r) g) in
      (h.active_connections ≡ g.active_connections)
      × (lookup k h.client_connections ≡ lookup k g.client_connections)
clear-reserve_slot cfg es r k =
    let v = run-start-Represents cfg es in
    let g = (run (start cfg) es).guard in
    (
      active-clear-reserve_slot r g,
      rw
          (
            clear-lookup r k (reserve_slot (guard_key r) g),
            reserve_slot-lookup (guard_key r) (guard_key r) g,
            reserve_slot-lookup (guard_key r) k g,
          )
          (ground (
            arith,
            eq_text_iff (guard_key r) k,
            eq_text_iff (guard_key r) (guard_key r),
            v.no_zero k,
          )),
    )
