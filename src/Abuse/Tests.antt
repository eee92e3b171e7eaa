-- ===== src/Abuse/Tests.antt =====
-- The guard at concrete inputs.
use go_grpcbridge.Base.{
  ℕ, ◌+◌, ◌-◌, ◌*◌, ◌≤◌, ◌<◌, ◌≡◌, refl, ◌↔◌, arith, Bool, true, false, Option, none, some, List,
  [], ◌∷◌, ℤ, pos, Text, codes, lookup, eq_text, eq_text_iff, is_positive, All, IsMap,
}
use go_grpcbridge.Net.{Request}
use go_grpcbridge.Clock.{Time, minute, second, max_duration}
use go_grpcbridge.Config.{BridgeConfig}
use go_grpcbridge.Config.Tests.{zero_config, limited_config}
use go_grpcbridge.Abuse.{
  AbuseGuard, RateWindow, Refusal, guard_key, charge_upgrade, reserve_slot,
  reserve_bridge_connection, clear_bridge_connection, set_retry_after,
}
use go_grpcbridge.Abuse.Sessions.{Event, arrive, leave, run, start, Represents}
use go_grpcbridge.Abuse.Sessions.Laws.{run-start-Represents, HasRoom, reserve-eq-none_iff}
use go_grpcbridge.Abuse.Rate.{windows}
use go_grpcbridge.Abuse.Rate.Bound.{is_rate_refusal, passes, Runs, passes-le-limit}
use go_grpcbridge.Abuse.Retry.{retry_is_honoured}
use go_grpcbridge.Abuse.Memory.{IsSwept, charge-IsSwept}

abbrev request : Option Request
request =
    some
      (record { remote_addr = codes "10.0.0.1:80"; method = codes "GET"; header = []; path = none })

abbrev other_request : Option Request
other_request =
    some (record { remote_addr = codes "[::1]:90"; method = codes "GET"; header = []; path = none })

abbrev client : Text
client = codes "10.0.0.1"

abbrev history : List Event
history = arrive request 7 ∷ arrive request 8 ∷ arrive other_request 9 ∷ leave request ∷ []

-- A client's second session is refused, and another client is admitted.
history_runs : (run (start limited_config) history).sessions ≡ codes "::1" ∷ []
unfolding run start go_grpcbridge.Abuse.Sessions.step go_grpcbridge.Abuse.Sessions.count
    go_grpcbridge.Abuse.Sessions.remove go_grpcbridge.Abuse.build_bridge_abuse_guard
    reserve_bridge_connection clear_bridge_connection reserve_slot go_grpcbridge.Abuse.take_slot
    charge_upgrade go_grpcbridge.Abuse.sweep_expired_upgrade_windows go_grpcbridge.Clock.sub lookup
    go_grpcbridge.Base.insert go_grpcbridge.Base.delete eq_text guard_key
    go_grpcbridge.Abuse.build_bridge_client_key go_grpcbridge.Base.trim_space
    go_grpcbridge.Net.split_host_port
history_runs = refl

run-start-Represents_example : Represents limited_config (run (start limited_config) history)
run-start-Represents_example = run-start-Represents limited_config history

abbrev capped_config : BridgeConfig
capped_config = record zero_config { max_connections_per_client = pos 1 }

reserve-eq-none_iff_example :
    ((reserve_bridge_connection request 10 (run (start capped_config) history).guard).1 ≡ none)
    ↔ HasRoom capped_config (guard_key request) (run (start capped_config) history).sessions
reserve-eq-none_iff_example = reserve-eq-none_iff capped_config history request 10 refl

-- A window of the client that was opened at 1000 and holds two attempts, of three.
abbrev busy_guard : AbuseGuard
busy_guard = record {
  config = limited_config;
  active_connections = 0;
  client_connections = [];
  client_upgrade_attempts = (client, record { started_at = 1000; count = 2 }) ∷ [];
  last_window_sweep_at = 1000;
}

busy-Runs : Runs client 1000 3 2 (record { guard = busy_guard; sessions = [] })
unfolding lookup eq_text
busy-Runs = record { limited = refl; distinct = (refl, tt); found = refl; within = omega arith }

passes-le-limit_example :
    passes client
        (record { guard = busy_guard; sessions = [] })
        (arrive request 2000 ∷ leave request ∷ arrive request 3000 ∷ [])
      + 2
    ≤ 3
passes-le-limit_example =
    passes-le-limit client 1000 3 2 (arrive request 2000 ∷ leave request ∷ arrive request 3000 ∷ [])
      (record { guard = busy_guard; sessions = [] }) (omega arith) (omega arith) busy-Runs
      (omega arith, (tt, (omega arith, tt)))

-- The same window, full.
abbrev full_guard : AbuseGuard
full_guard = record busy_guard {
  client_upgrade_attempts = (client, record { started_at = 1000; count = 3 }) ∷ [];
}

abbrev wait : ℤ
wait = pos (minute - second)

full_guard_refuses :
    (reserve_bridge_connection request (1000 + second) full_guard).1
    ≡ some (Refusal.rate_exceeded client wait)
unfolding reserve_bridge_connection charge_upgrade go_grpcbridge.Abuse.sweep_expired_upgrade_windows
    go_grpcbridge.Clock.sub lookup eq_text guard_key go_grpcbridge.Abuse.build_bridge_client_key
    go_grpcbridge.Base.trim_space go_grpcbridge.Net.split_host_port
full_guard_refuses = refl

full-IsMap : IsMap (windows full_guard)
unfolding lookup
full-IsMap = (refl, tt)

in_range :
    (w : RateWindow)
    → lookup (guard_key request) (windows full_guard) ≡ some w
    → w.started_at + minute ≤ 1000 + second + max_duration
unfolding lookup guard_key
in_range w found = ground arith

told : set_retry_after (Refusal.rate_exceeded client wait) ≡ some 59
unfolding set_retry_after
told = refl

retry_is_honoured_example :
    is_rate_refusal
      (reserve_bridge_connection request
        (1000 + 60 * second)
        (reserve_bridge_connection request (1000 + second) full_guard).0).1
    ≡ false
retry_is_honoured_example =
    retry_is_honoured request (1000 + second) (1000 + 60 * second) 59 full_guard client wait
      full-IsMap in_range full_guard_refuses told (omega arith)

full-IsSwept : IsSwept full_guard
unfolding lookup
full-IsSwept = record { distinct = (refl, tt); ran = λ key w found. ground arith }

charge-IsSwept_example :
    IsSwept (charge_upgrade client 2000 full_guard).0
    × ((k : Text) (w : RateWindow)
        → lookup k (windows (charge_upgrade client 2000 full_guard).0) ≡ some w
        → 2000 < w.started_at + 2 * minute)
charge-IsSwept_example = charge-IsSwept client 2000 full_guard full-IsSwept (omega arith)
