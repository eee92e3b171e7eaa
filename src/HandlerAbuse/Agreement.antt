-- ===== src/HandlerAbuse/Agreement.antt =====
-- When a guard of pkg/grpctunnel and one of pkg/bridge meet the same windows.
use go_grpcbridge.Base.{
  ℕ, ◌+◌, ◌≤◌, ◌≡◌, refl, ◌∙◌, sym, ap, inl, inr, not, Option, none, some, [], ◌∷◌, arith, Text,
  lookup, IsMap, keep_if, Bool-cases, Option-cases,
}
use go_grpcbridge.Net.{Request}
use go_grpcbridge.Clock.{minute, elapsed_iff}
use go_grpcbridge.Config.{BridgeConfig}
use go_grpcbridge.HandlerConfig.{HandlerConfig}
use go_grpcbridge.Abuse.{
  AbuseGuard, RateWindow, guard_key, is_expired, current_window, sweep_expired_upgrade_windows,
  build_bridge_client_key, host_or_address, client_key_of_address, or_unknown,
}
use go_grpcbridge.Abuse.Rate.{windows, is_expired_iff, lookup-sweep, sweep-IsMap}
use go_grpcbridge.HandlerAbuse.{
  HandlerGuard, build_handler_client_key, handler_key, handler_window, handler_key_of_address,
  handler_host_or_address, known_key,
}

-- The two configurations set the same limits.
pub record SameLimits (cfg : BridgeConfig) (hcfg : HandlerConfig) : Type 0 where
  pub active : cfg.max_active_connections ≡ hcfg.max_active_connections
  pub per_client : cfg.max_connections_per_client ≡ hcfg.max_connections_per_client
  pub upgrades : cfg.max_upgrades_per_client_per_minute ≡ hcfg.max_upgrades_per_client_per_minute

-- From `now` on, each client meets the same window in both guards, and the counters are equal.
pub record Agree (now : ℕ) (g : AbuseGuard) (h : HandlerGuard) : Type 0 where
  pub limits : SameLimits g.config h.config
  pub active : g.active_connections ≡ h.active_connections
  pub connections : g.client_connections ≡ h.client_connections
  pub distinct : IsMap (windows g)
  pub met :
      (key : Text) (t : ℕ)
      → now ≤ t
      → current_window t (lookup key (windows g))
        ≡ current_window t (lookup key h.client_upgrade_attempts)

pub handler_window-eq-current_window :
    (now : ℕ) (found : Option RateWindow) → handler_window now found ≡ current_window now found
unfolding handler_window current_window is_expired
handler_window-eq-current_window now found = refl

use_same_host :
    (address : Text) (found : Option (Text × Text))
    → handler_host_or_address address found ≡ host_or_address address found
unfolding handler_host_or_address host_or_address
use_same_host address none = refl
use_same_host address (some (host, port)) = refl

same_address_key : (address : Text) → handler_key_of_address address ≡ client_key_of_address address
unfolding handler_key_of_address client_key_of_address
same_address_key [] = refl
same_address_key (c ∷ s) = use_same_host (c ∷ s) _

same_known_key : (key : Text) → known_key key ≡ or_unknown key
unfolding known_key or_unknown
same_known_key [] = refl
same_known_key (c ∷ s) = refl

same_client_key : (r : Option Request) → build_handler_client_key r ≡ build_bridge_client_key r
unfolding build_handler_client_key build_bridge_client_key
same_client_key none = refl
same_client_key (some r) = same_address_key _

pub handler_key-eq-guard_key : (r : Option Request) → handler_key r ≡ guard_key r
unfolding handler_key guard_key
handler_key-eq-guard_key r = same_known_key _ ∙ ap or_unknown (same_client_key r)

-- An expired window reads as a missing one.
expired_as_missing :
    (t : ℕ) (w : RateWindow)
    → w.started_at + minute ≤ t
    → current_window t (some w) ≡ current_window t none
unfolding current_window is_expired
expired_as_missing t w h = ground (arith, (elapsed_iff t w.started_at minute (omega arith)).1 h)

sweep_unseen :
    (key : Text) (now t : ℕ) (g : AbuseGuard)
    → IsMap (windows g)
    → now ≤ t
    → current_window t (lookup key (windows (sweep_expired_upgrade_windows now g)))
      ≡ current_window t (lookup key (windows g))
sweep_unseen key now t g m h = elim (lookup-sweep key now g m) [
  | inl same ↦ ap (current_window t) same
  | inr kept ↦ elim (Option-cases (lookup key (windows g))) [
    | inl missing ↦ rw (kept, missing) refl
    | inr (w, found) ↦ rw (kept, found) (kept_or_expired w)
  ]
]
  where
    kept_or_expired :
        (w : RateWindow)
        → current_window t (keep_if (λ v. not (is_expired now v)) (some w))
          ≡ current_window t (some w)
    kept_or_expired w = elim (Bool-cases (is_expired now w)) [
      | inl over ↦ rw over (sym (expired_as_missing t w (omega (arith, is_expired_iff now w over))))
      | inr runs ↦ rw runs refl
    ]

sweep_same :
    (now : ℕ) (g : AbuseGuard)
    → ((sweep_expired_upgrade_windows now g).config ≡ g.config)
      × ((sweep_expired_upgrade_windows now g).active_connections ≡ g.active_connections)
      × ((sweep_expired_upgrade_windows now g).client_connections ≡ g.client_connections)
unfolding sweep_expired_upgrade_windows
sweep_same now g = ground arith

pub sweep-Agree :
    (now t : ℕ) (g : AbuseGuard) (h : HandlerGuard)
    → now ≤ t
    → Agree now g h
    → Agree t (sweep_expired_upgrade_windows t g) h
sweep-Agree now t g h le v =
    let (config, active, connections) = sweep_same t g in
    record {
      limits = rw config v.limits;
      active = active ∙ v.active;
      connections = connections ∙ v.connections;
      distinct = sweep-IsMap t g v.distinct;
      met = λ key u later.
          sweep_unseen key t u g v.distinct later ∙ v.met key u (omega (arith, le, later));
    }
