-- ===== src/HandlerAbuse/Tests.antt =====
-- The two guards at a concrete history.
use go_grpcbridge.Base.{
  ◌+◌, ◌*◌, ◌≡◌, refl, arith, none, some, List, [], ◌∷◌, codes, ℤ, lookup, pos, ◌≤◌, false,
}
use go_grpcbridge.Net.{Request}
use go_grpcbridge.Clock.{minute, second, max_duration}
use go_grpcbridge.Config.Tests.{limited_config}
use go_grpcbridge.HandlerConfig.Tests.{handler_config}
use go_grpcbridge.Abuse.{build_bridge_abuse_guard, Refusal, RateWindow}
use go_grpcbridge.HandlerAbuse.{
  build_handler_abuse_guard, HandlerGuard, reserve_handler_connection, set_retry_after_header,
  handler_key, charge_handler_upgrade, handler_window, count_handler_attempt,
}
use go_grpcbridge.HandlerAbuse.Agreement.{SameLimits}
use go_grpcbridge.HandlerAbuse.Equivalence.{
  Call, reserves, clears, bridge_answers, handler_answers, bridge_answers-eq-handler_answers,
}

abbrev request : Request
request = record {
  remote_addr = codes "10.0.0.1:80";
  method = codes "GET";
  header = [];
  path = none;
}

abbrev calls : List Call
calls =
    reserves (some request) 7
    ∷ reserves (some request) 8
    ∷ clears (some request)
    ∷ reserves (some request) (9 + 2 * minute)
    ∷ []

same_limits : SameLimits limited_config handler_config
same_limits = record { active = refl; per_client = refl; upgrades = refl }

bridge_answers-eq-handler_answers_example :
    bridge_answers (build_bridge_abuse_guard limited_config) calls
    ≡ handler_answers (build_handler_abuse_guard handler_config) calls
bridge_answers-eq-handler_answers_example =
    bridge_answers-eq-handler_answers limited_config handler_config calls same_limits
      (omega arith, (omega arith, (omega arith, tt)))

-- A guard whose client has made its three attempts.
abbrev spent_guard : HandlerGuard
spent_guard = record {
  config = handler_config;
  active_connections = 0;
  client_connections = [];
  client_upgrade_attempts = (codes "10.0.0.1", record { started_at = 1000; count = 3 }) ∷ [];
}

abbrev rest_of_minute : ℤ
rest_of_minute = pos (59 * second)

spent_guard_refuses :
    (reserve_handler_connection (some request) (1000 + second) spent_guard).1
    ≡ some (Refusal.rate_exceeded (codes "10.0.0.1") rest_of_minute)
unfolding reserve_handler_connection charge_handler_upgrade handler_window count_handler_attempt
    handler_key go_grpcbridge.HandlerAbuse.build_handler_client_key
    go_grpcbridge.HandlerAbuse.known_key lookup go_grpcbridge.Base.eq_text
    go_grpcbridge.Base.trim_space go_grpcbridge.Net.split_host_port go_grpcbridge.Clock.sub
spent_guard_refuses = refl

spent_in_range :
    (w : RateWindow)
    → lookup (handler_key (some request)) spent_guard.client_upgrade_attempts ≡ some w
    → w.started_at + minute ≤ 1000 + second + max_duration
unfolding lookup handler_key
spent_in_range w found = ground arith

sets_header :
    set_retry_after_header (Refusal.rate_exceeded (codes "10.0.0.1") rest_of_minute) ≡ some 59
unfolding set_retry_after_header
sets_header = refl
