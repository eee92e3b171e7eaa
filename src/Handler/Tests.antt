-- ===== src/Handler/Tests.antt =====
-- The handler at concrete inputs.
use go_grpcbridge.Base.{◌≡◌, ◌&&◌, true, false, none, some, [], pos, codes, if◌then◌else◌}
use go_grpcbridge.Net.{Request}
use go_grpcbridge.Config.{BridgeConfig}
use go_grpcbridge.Config.Tests.{limited_config}
use go_grpcbridge.Abuse.{build_bridge_abuse_guard, reserve_bridge_connection}
use go_grpcbridge.Handler.{slot, socket, Outcomes, status_forbidden, serve_request, Built}
use go_grpcbridge.Handler.Laws.{
  unused, settled, asked, after_trace, serve_request-after_trace, response, acquires,
  refusal_response, is_none, serve_request-response,
}

abbrev request : Request
request = record {
  remote_addr = codes "10.0.0.1:80";
  method = codes "GET";
  header = [];
  path = none;
}

abbrev all_well : Outcomes
all_well = record { upgrades = true; settles = true; delivers = true }

-- Hooks, a lifetime, and the native transport.
abbrev busy_config : BridgeConfig
busy_config = record limited_config {
  session_max_lifetime = pos 5;
  on_connect = true;
  on_disconnect = true;
  should_use_native_grpc_transport = true;
}

serve_request-after_trace_example :
    let trace =
      (serve_request busy_config all_well request 9 (build_bridge_abuse_guard busy_config)).1 in
    after_trace slot (some unused) trace ≡ some (settled slot trace)
serve_request-after_trace_example =
    serve_request-after_trace slot busy_config all_well request 9
      (build_bridge_abuse_guard busy_config)

-- The hook denies the request.
abbrev guarded_config : BridgeConfig
guarded_config = record busy_config { authorize = some (λ r. false) }

serve_request-response_example :
    let g = build_bridge_abuse_guard busy_config in
    let answer = reserve_bridge_connection (some request) 9 g in
    let allowed = false in
    let (after, trace) = serve_request guarded_config all_well request 9 g in
    (after ≡ (if allowed then answer.0 else g))
    × (response none trace
        ≡ (if allowed then refusal_response answer.1 else some (status_forbidden, none)))
    × (acquires slot trace ≡ (allowed && is_none answer.1))
    × (acquires socket trace ≡ (allowed && is_none answer.1 && all_well.upgrades))
serve_request-response_example =
    serve_request-response guarded_config all_well request 9 (build_bridge_abuse_guard busy_config)
      false (asked (λ r. false) request)

abbrev busy_built : Built
busy_built = record {
  config = busy_config;
  read_buffer = pos 4096;
  write_buffer = pos 4096;
  guard = build_bridge_abuse_guard busy_config;
}
