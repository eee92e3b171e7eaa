-- ===== src/Abuse/Sessions.antt =====
-- The guard against the sessions that the handler keeps open: a request that reserveBridgeConnection
-- admits opens one, and its deferred clearBridgeConnection closes it.
pub mod Slots
pub mod Laws
use go_grpcbridge.Base.{
  ℕ, zero, suc, ◌+◌, ◌-◌, ◌≤◌, ◌<◌, ◌≡◌, refl, ◌∙◌, ◌≢◌, ◌↔◌, ◌⊎◌, inl, inr, Bool, true, false,
  ◌&&◌, Option, none, some, List, [], ◌∷◌, arith, if◌then◌else◌, ltb, leb, ℤ, pos, pos_part,
  is_positive, leℤ, Text, eq_text, eq_text_iff, Dict, lookup, insert, delete, or_zero,
  lookup-insert, lookup-delete, length, Bool-cases, ltb→lt,
}
use go_grpcbridge.Net.{Request}
use go_grpcbridge.Clock.{Time}
use go_grpcbridge.Config.{BridgeConfig}
use go_grpcbridge.Abuse.{
  AbuseGuard, Refusal, build_bridge_abuse_guard, guard_key, sweep_expired_upgrade_windows,
  charge_upgrade, reserve_slot, take_slot, then_take_slot, reserve_bridge_connection,
  clear_bridge_connection,
}

-- How often a key stands in a list, and the list less one of its entries.
unfoldable pub count : Text → List Text → ℕ
count k [] = 0
count k (j ∷ xs) = if eq_text j k then suc (count k xs) else count k xs

unfoldable pub remove : Text → List Text → List Text
remove k [] = []
remove k (j ∷ xs) = if eq_text j k then xs else j ∷ remove k xs

-- The handler's view: the guard, and the keys of the sessions that are open.
pub record Server : Type 0 where
  pub guard : AbuseGuard
  pub sessions : List Text

pub data Event : Type 0 where
  arrive : Option Request → Time → Event
  leave : Option Request → Event

unfoldable pub settle : Text → List Text → AbuseGuard × Option Refusal → Server
settle key open_keys (g, none) = record { guard = g; sessions = key ∷ open_keys }
settle key open_keys (g, some refusal) = record { guard = g; sessions = open_keys }

-- Only a session that is open can end.
unfoldable pub step : Server → Event → Server
unfolding settle
step s (arrive r now) = settle (guard_key r) s.sessions (reserve_bridge_connection r now s.guard)
step s (leave r) =
    if ltb 0 (count (guard_key r) s.sessions)
    then record {
      guard = clear_bridge_connection r s.guard;
      sessions = remove (guard_key r) s.sessions;
    }
    else s

unfoldable pub run : Server → List Event → Server
run s [] = s
run s (e ∷ es) = run (step s e) es

unfoldable pub start : BridgeConfig → Server
start cfg = record { guard = build_bridge_abuse_guard cfg; sessions = [] }

-- The counters hold the multiset of the open sessions, within the two caps.
pub record Represents (cfg : BridgeConfig) (s : Server) : Type 0 where
  pub same_config : s.guard.config ≡ cfg
  pub active : s.guard.active_connections ≡ length s.sessions
  pub per_client : (k : Text) → or_zero (lookup k s.guard.client_connections) ≡ count k s.sessions
  pub no_zero : (k : Text) → lookup k s.guard.client_connections ≢ some 0
  pub active_cap :
      0 < pos_part cfg.max_active_connections
      → length s.sessions ≤ pos_part cfg.max_active_connections
  pub client_cap :
      (k : Text)
      → 0 < pos_part cfg.max_connections_per_client
      → count k s.sessions ≤ pos_part cfg.max_connections_per_client
