-- ===== src/Handler.antt =====
-- pkg/grpctunnel/server.go: BuildBridgeHandler, the handler that it returns, and HandleBridgeMux. The
-- handler is one trace of actions, deferred calls included; log output is left out. What gorilla, the
-- gRPC server and HTTP/2 answer is an argument.
pub mod Laws
pub mod Build
pub mod Tests
use go_grpcbridge.Base.{
  ℕ, ◌≡◌, ◌++◌, Bool, true, false, not, ◌&&◌, Option, none, some, List, [], ◌∷◌, if◌then◌else◌,
  ◌==◌, ℤ, pos, negsuc, is_positive, Text, ◌⊎◌, inl, inr,
}
use go_grpcbridge.Net.{Request}
use go_grpcbridge.Clock.{Time}
use go_grpcbridge.Config.{
  BridgeConfig, ConfigError, get_bridge_config_error, apply_bridge_keepalive_defaults,
  default_web_socket_buffer_size,
}
use go_grpcbridge.Abuse.{
  AbuseGuard, Refusal, build_bridge_abuse_guard, reserve_bridge_connection, set_retry_after,
}

-- What a request holds on to until it ends.
pub data Resource : Type 0 where
  request_span slot socket gauge session_span keepalive conn lifetime_timer : Resource

pub data Action : Type 0 where
  acquire release : Resource → Action
  upgrade_failure upgrade_success connect_hook disconnect_hook : Action
  retry_after_header respond : ℕ → Action
  serve_native serve_http2 : Action

-- What the libraries answer: the upgrade, the read deadline of the keepalive, the native listener.
pub record Outcomes : Type 0 where
  pub upgrades : Bool
  pub settles : Bool
  pub delivers : Bool

abbrev pub when : Bool → List Action → List Action
when true actions = actions
when false actions = []

abbrev pub status_forbidden : ℕ
status_forbidden = 403

abbrev pub status_too_many_requests : ℕ
status_too_many_requests = 429

-- The transport that the session is served over.
serve_session : BridgeConfig → Outcomes → List Action
serve_session cfg o =
    if cfg.should_use_native_grpc_transport
    then when o.delivers (serve_native ∷ [])
    else serve_http2 ∷ []

-- From newWebSocketConn on.
serve_conn : BridgeConfig → Outcomes → List Action
unfolding serve_session
serve_conn cfg o =
    acquire conn ∷ when (is_positive cfg.session_max_lifetime) (acquire lifetime_timer ∷ [])
    ++ serve_session cfg o
    ++ when (is_positive cfg.session_max_lifetime) (release lifetime_timer ∷ [])
    ++ release conn ∷ []

-- From the connection settings on: a keepalive that cannot start ends the session.
serve_tunnel : BridgeConfig → Outcomes → List Action
unfolding serve_conn
serve_tunnel cfg o =
    if o.settles
    then acquire keepalive ∷ when cfg.on_connect (connect_hook ∷ [])
      ++ serve_conn cfg o
      ++ when cfg.on_disconnect (disconnect_hook ∷ [])
      ++ release keepalive ∷ []
    else []

-- From the upgrade on.
serve_upgrade : BridgeConfig → Outcomes → List Action
unfolding serve_tunnel
serve_upgrade cfg o =
    if o.upgrades
    then acquire socket
        ∷ upgrade_success
        ∷ acquire gauge
        ∷ acquire session_span
        ∷ serve_tunnel cfg o
      ++ release socket ∷ release session_span ∷ release gauge ∷ []
    else upgrade_failure ∷ []

header_actions : Option ℕ → List Action
header_actions none = []
header_actions (some seconds) = retry_after_header seconds ∷ []

-- What follows the answer of the guard.
serve_reserved : BridgeConfig → Outcomes → Option Refusal → List Action
unfolding serve_upgrade header_actions
serve_reserved cfg o none = acquire slot ∷ serve_upgrade cfg o ++ release slot ∷ []
serve_reserved cfg o (some refusal) =
    upgrade_failure ∷ header_actions (set_retry_after refusal)
    ++ respond status_too_many_requests ∷ []

abbrev pub is_authorized : Option (Request → Bool) → Request → Bool
is_authorized none r = true
is_authorized (some hook) r = hook r

-- The handler: the guard after the reservation, and the whole trace of the request.
pub serve_request : BridgeConfig → Outcomes → Request → Time → AbuseGuard → AbuseGuard × List Action
unfolding serve_reserved
serve_request cfg o r now g =
    let answer = reserve_bridge_connection (some r) now g in
    if is_authorized cfg.authorize r
    then (
      answer.0,
      acquire request_span ∷ serve_reserved cfg o answer.1 ++ release request_span ∷ [],
    )
    else (
      g,
      acquire request_span ∷ upgrade_failure ∷ respond status_forbidden ∷ release request_span ∷ [],
    )

pub data HandlerError : Type 0 where
  server_required mux_required path_required : HandlerError
  config_error : ConfigError → HandlerError

-- What the handler is built from: the configuration in force, the upgrader's buffers, and the guard.
pub record Built : Type 0 where
  pub config : BridgeConfig
  pub read_buffer : ℤ
  pub write_buffer : ℤ
  pub guard : AbuseGuard

pub or_default_size : ℤ → ℤ
or_default_size (pos n) = if n == 0 then default_web_socket_buffer_size else pos n
or_default_size (negsuc n) = negsuc n

pub built_or_error : BridgeConfig → Option ConfigError → HandlerError ⊎ Built
unfolding or_default_size
built_or_error cfg (some e) = inl (config_error e)
built_or_error cfg none =
    let filled = apply_bridge_keepalive_defaults cfg in
    inr (record {
      config = filled;
      read_buffer = or_default_size filled.read_buffer_size;
      write_buffer = or_default_size filled.write_buffer_size;
      guard = build_bridge_abuse_guard filled;
    })

-- BuildBridgeHandler; the flag says that the gRPC server is not nil.
pub build_bridge_handler : Bool → BridgeConfig → HandlerError ⊎ Built
unfolding built_or_error
build_bridge_handler has_server cfg =
    if has_server then built_or_error cfg (get_bridge_config_error cfg) else inl server_required

-- HandleBridgeMux: the path and the handler that are registered.
pub handle_bridge_mux : Bool → Text → Bool → BridgeConfig → HandlerError ⊎ (Text × Built)
handle_bridge_mux has_mux [] has_server cfg =
    if has_mux then inl path_required else inl mux_required
handle_bridge_mux has_mux (c ∷ path) has_server cfg =
    if has_mux
    then elim (build_bridge_handler has_server cfg) [
      | inl e ↦ inl e
      | inr built ↦ inr (c ∷ path, built)
    ]
    else inl mux_required
