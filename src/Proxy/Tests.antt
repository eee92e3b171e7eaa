-- ===== src/Proxy/Tests.antt =====
-- The proxy handler at concrete inputs.
use go_grpcbridge.Base.{
  ◌≡◌, ◌⊎◌, refl, ◌&&◌, inr, Bool, true, false, Option, none, some, List, [], ◌∷◌, codes,
  if◌then◌else◌, Text, trim_space,
}
use go_grpcbridge.Net.{Request}
use go_grpcbridge.HandlerConfig.{HandlerConfig, get_handler_config_error}
use go_grpcbridge.HandlerConfig.Tests.{handler_config}
use go_grpcbridge.HandlerAbuse.{HandlerGuard, build_handler_abuse_guard, reserve_handler_connection}
use go_grpcbridge.Handler.{slot, socket, Outcomes}
use go_grpcbridge.Handler.Laws.{
  unused, settled, after_trace, response, acquires, refusal_response, is_none,
}
use go_grpcbridge.Proxy.{
  Url, Parsers, should_warn_bridge_plaintext_backend, ProxyHandler, new_handler,
  status_internal_error, serve_http,
}
use go_grpcbridge.Proxy.Laws.{
  IsBare, IsLoopback, new_handler-backend, target_ok, serve_http-response, serve_http-after_trace,
}

abbrev backend : Url
backend = record {
  scheme = codes "http";
  host = codes "localhost:50051";
  hostname = codes "localhost";
  path = [];
  raw_query = [];
  fragment = [];
}

-- Parsers that know one backend.
abbrev parsers : Parsers
parsers = record { parse_url = λ s. some backend; is_localhost = λ s. true; parse_ip = λ s. none }

abbrev strict_config : HandlerConfig
strict_config = record handler_config { should_require_loopback_backend = true }

abbrev handler : ProxyHandler
handler = new_handler parsers strict_config

backend_accepted : handler.target ≡ inr backend
unfolding new_handler get_handler_config_error go_grpcbridge.HandlerConfig.apply_handler_defaults
    go_grpcbridge.Proxy.parse_bridge_target_url
    go_grpcbridge.Proxy.should_warn_bridge_plaintext_backend go_grpcbridge.Base.contains
    go_grpcbridge.Base.trim_space go_grpcbridge.Base.eq_text go_grpcbridge.Proxy.has_path
    go_grpcbridge.Proxy.violates_transport_policy
backend_accepted = refl

new_handler-backend_example :
    (get_handler_config_error handler.config ≡ none)
    × IsBare parsers (trim_space strict_config.target_address) backend
    × ((strict_config.should_require_loopback_backend ≡ false)
        ⊎ IsLoopback parsers backend.hostname)
new_handler-backend_example = new_handler-backend parsers strict_config backend backend_accepted

abbrev request : Request
request = record {
  remote_addr = codes "10.0.0.1:80";
  method = codes "GET";
  header = [];
  path = none;
}

abbrev failing_upgrade : Outcomes
failing_upgrade = record { upgrades = false; settles = true; delivers = true }

abbrev guard : HandlerGuard
guard = build_handler_abuse_guard strict_config

serve_http-response_example :
    let answer = reserve_handler_connection (some request) 9 guard in
    let ok = target_ok handler in
    let (after, trace) = serve_http handler failing_upgrade request 9 guard in
    (after ≡ (if ok then answer.0 else guard))
    × (response none trace
        ≡ (if ok then refusal_response answer.1 else some (status_internal_error, none)))
    × (acquires slot trace ≡ (ok && is_none answer.1))
    × (acquires socket trace ≡ (ok && is_none answer.1 && failing_upgrade.upgrades))
serve_http-response_example = serve_http-response handler failing_upgrade request 9 guard

serve_http-after_trace_example :
    let trace = (serve_http handler failing_upgrade request 9 guard).1 in
    after_trace slot (some unused) trace ≡ some (settled slot trace)
serve_http-after_trace_example =
    serve_http-after_trace slot handler failing_upgrade request 9 guard refl
