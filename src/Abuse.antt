-- ===== src/Abuse.antt =====
-- pkg/grpctunnel/abuse_control.go: the connection and upgrade-rate guard, and
-- pkg/grpctunnel/retry_after.go: the wait that a refused client is told. A method runs under
-- setGuardLock, so a call is one step. Counters are unbounded numbers; the receiver is not nil.
pub mod Sessions
pub mod Rate
pub mod Retry
pub mod Memory
pub mod Tests
use go_grpcbridge.Base.{
  ℕ, zero, suc, ◌+◌, ◌-◌, ◌*◌, ◌/◌, ◌≡◌, Bool, true, false, not, ◌&&◌, ◌||◌, Option, none, some,
  List, [], ◌∷◌, if◌then◌else◌, ltb, leb, ◌==◌, ℤ, pos, is_positive, leℤ, ltℤ, Text, codes,
  trim_space, Dict, lookup, insert, delete, retain, or_zero,
}
use go_grpcbridge.Net.{Request, split_host_port}
use go_grpcbridge.Clock.{Time, Duration, minute, second, is_zero, sub}
use go_grpcbridge.Config.{BridgeConfig}

abbrev pub bridge_abuse_window_duration : ℕ
bridge_abuse_window_duration = minute

-- storeBridgeAbuseRateWindow.
pub record RateWindow : Type 0 where
  pub started_at : Time
  pub count : ℕ

-- bridgeAbuseGuard.
pub record AbuseGuard : Type 0 where
  pub config : BridgeConfig
  pub active_connections : ℕ
  pub client_connections : Dict ℕ
  pub client_upgrade_attempts : Dict RateWindow
  pub last_window_sweep_at : Time

-- The errors of reserveBridgeConnection: an abuseRefusal with its wait, and the two caps.
pub data Refusal : Type 0 where
  rate_exceeded : Text → Duration → Refusal
  active_cap_exceeded : Refusal
  client_cap_exceeded : Text → Refusal

-- buildBridgeAbuseGuard.
unfoldable pub build_bridge_abuse_guard : BridgeConfig → AbuseGuard
build_bridge_abuse_guard cfg = record {
  config = cfg;
  active_connections = 0;
  client_connections = [];
  client_upgrade_attempts = [];
  last_window_sweep_at = 0;
}

unfoldable pub host_or_address : Text → Option (Text × Text) → Text
host_or_address address none = address
host_or_address address (some (host, port)) = trim_space host

unfoldable pub client_key_of_address : Text → Text
unfolding host_or_address
client_key_of_address [] = []
client_key_of_address (c ∷ s) = host_or_address (c ∷ s) (split_host_port (c ∷ s))

-- buildBridgeClientKey.
unfoldable pub build_bridge_client_key : Option Request → Text
unfolding client_key_of_address
build_bridge_client_key none = []
build_bridge_client_key (some r) = client_key_of_address (trim_space r.remote_addr)

unfoldable pub or_unknown : Text → Text
or_unknown [] = codes "unknown"
or_unknown (c ∷ s) = c ∷ s

-- The key that both methods of the guard use.
unfoldable pub guard_key : Option Request → Text
unfolding or_unknown
guard_key r = or_unknown (build_bridge_client_key r)

unfoldable pub is_expired : Time → RateWindow → Bool
is_expired now window = leℤ (pos bridge_abuse_window_duration) (sub now window.started_at)

-- sweepExpiredUpgradeWindows.
unfoldable pub sweep_expired_upgrade_windows : Time → AbuseGuard → AbuseGuard
sweep_expired_upgrade_windows now g =
    if ltℤ (sub now g.last_window_sweep_at) (pos bridge_abuse_window_duration)
    then g
    else record g {
      client_upgrade_attempts = retain (λ w. not (is_expired now w)) g.client_upgrade_attempts;
      last_window_sweep_at = now;
    }

-- A missing entry is the zero window.
abbrev pub or_empty_window : Option RateWindow → RateWindow
or_empty_window none = record { started_at = 0; count = 0 }
or_empty_window (some w) = w

unfoldable pub current_window : Time → Option RateWindow → RateWindow
unfolding is_expired
current_window now found =
    let window = or_empty_window found in
    if is_zero window.started_at || is_expired now window
    then record { started_at = now; count = 0 }
    else window

-- An attempt in its window: refused at the limit, and counted below it.
unfoldable pub count_attempt : Text → Time → RateWindow → AbuseGuard → AbuseGuard × Option Refusal
count_attempt key now window g =
    if leℤ g.config.max_upgrades_per_client_per_minute (pos window.count)
    then (
      g,
      some (Refusal.rate_exceeded key (sub (window.started_at + bridge_abuse_window_duration) now)),
    )
    else (
      record g {
        client_upgrade_attempts =
            insert key (record window { count = window.count + 1 }) g.client_upgrade_attempts;
      },
      none,
    )

-- The upgrade-rate half of reserveBridgeConnection.
unfoldable pub charge_upgrade : Text → Time → AbuseGuard → AbuseGuard × Option Refusal
unfolding current_window count_attempt
charge_upgrade key now g =
    let swept = sweep_expired_upgrade_windows now g in
    count_attempt key now (current_window now (lookup key swept.client_upgrade_attempts)) swept

-- The reservation itself.
unfoldable pub reserve_slot : Text → AbuseGuard → AbuseGuard
reserve_slot key g = record g {
  active_connections = g.active_connections + 1;
  client_connections =
      insert key (or_zero (lookup key g.client_connections) + 1) g.client_connections;
}

-- The connection caps and the reservation.
unfoldable pub take_slot : Text → AbuseGuard → AbuseGuard × Option Refusal
take_slot key g =
    let held = or_zero (lookup key g.client_connections) in
    if is_positive g.config.max_active_connections
      && leℤ g.config.max_active_connections (pos g.active_connections)
    then (g, some Refusal.active_cap_exceeded)
    else if is_positive g.config.max_connections_per_client
        && leℤ g.config.max_connections_per_client (pos held)
    then (g, some (Refusal.client_cap_exceeded key))
    else (reserve_slot key g, none)

abbrev pub then_take_slot : Text → AbuseGuard × Option Refusal → AbuseGuard × Option Refusal
then_take_slot key (g, some refusal) = (g, some refusal)
then_take_slot key (g, none) = take_slot key g

-- reserveBridgeConnection: the guard afterwards, and the error or nil.
unfoldable pub reserve_bridge_connection :
    Option Request → Time → AbuseGuard → AbuseGuard × Option Refusal
reserve_bridge_connection r now g =
    if is_positive g.config.max_upgrades_per_client_per_minute
    then then_take_slot (guard_key r) (charge_upgrade (guard_key r) now g)
    else take_slot (guard_key r) g

-- clearBridgeConnection.
unfoldable pub clear_bridge_connection : Option Request → AbuseGuard → AbuseGuard
clear_bridge_connection r g =
    let key = guard_key r in
    let held = or_zero (lookup key g.client_connections) in
    record g {
      active_connections =
          if ltb 0 g.active_connections then g.active_connections - 1 else g.active_connections;
      client_connections =
          if leb held 1
          then delete key g.client_connections
          else insert key (held - 1) g.client_connections;
    }

-- RetryAfter of the errors that implement RetryAfterError.
abbrev retry_after : Refusal → Option Duration
retry_after (Refusal.rate_exceeded key wait) = some wait
retry_after Refusal.active_cap_exceeded = none
retry_after (Refusal.client_cap_exceeded key) = none

-- math.Ceil(wait.Seconds()) of a positive wait: exact in a float64 while the wait is below 2^22
-- seconds, and a wait is at most a minute longer than the clock was set back.
abbrev ceil_seconds : ℕ → ℕ
ceil_seconds n = (n + (second - 1)) / second

header_of_wait : Duration → Option ℕ
header_of_wait (ℤ.negsuc n) = none
header_of_wait (pos n) =
    if n == 0 then none else if ltb (ceil_seconds n) 1 then some 1 else some (ceil_seconds n)

-- setRetryAfter: the seconds of the Retry-After header, if it is set.
unfoldable pub set_retry_after : Refusal → Option ℕ
unfolding header_of_wait
set_retry_after refusal = elim (retry_after refusal) [
  | none ↦ none
  | some wait ↦ header_of_wait wait
]
