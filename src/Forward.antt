-- ===== src/Forward.antt =====
-- pkg/grpctunnel/server.go: buildBridgeForwardHeaders and wrapBridgeForwardMetadataHandler, with
-- getGrpctunnelRequestID of pkg/grpctunnel/logging.go. The keys are in canonical form. The span of the
-- context is an argument: what OpenTelemetry prints of it.
pub mod Laws
pub mod Tests
use go_grpcbridge.Base.{
  ◌≡◌, ◌++◌, Bool, true, false, not, ◌||◌, Option, none, some, List, [], ◌∷◌, if◌then◌else◌, Text,
  codes, trim_space, Dict, lookup, insert,
}
use go_grpcbridge.Net.{Request, header_get}

abbrev pub Header : Type 0
Header = Dict (List Text)

-- A valid trace.SpanContext: its identifiers, its flags in two digits, and its state.
pub record SpanContext : Type 0 where
  pub trace_id : Text
  pub span_id : Text
  pub flags : Text
  pub trace_state : Text

abbrev pub request_id_key : Text
request_id_key = codes "X-Request-Id"

abbrev pub correlation_id_key : Text
correlation_id_key = codes "X-Correlation-Id"

abbrev pub trace_parent_key : Text
trace_parent_key = codes "Traceparent"

abbrev pub trace_state_key : Text
trace_state_key = codes "Tracestate"

-- resolveBridgeHeaderValue and the loop of getGrpctunnelRequestID: the first value that is not blank.
pub resolve_header_value : Header → List Text → Text
resolve_header_value header [] = []
resolve_header_value header (name ∷ names) =
    let rest = resolve_header_value header names in
    elim (trim_space (header_get header name)) [ [] ↦ rest | c ∷ s ↦ c ∷ s ]

-- getGrpctunnelRequestID.
pub get_grpctunnel_request_id : Header → Text
get_grpctunnel_request_id header =
    resolve_header_value header
      (request_id_key ∷ request_id_key ∷ correlation_id_key ∷ correlation_id_key ∷ [])

-- `if v != "" { h.Set(key, v) }`
pub set_value : Text → Text → Header → Header
set_value key [] h = h
set_value key (c ∷ s) h = insert key ((c ∷ s) ∷ []) h

abbrev pub or_else : Text → Text → Text
or_else [] t = t
or_else (c ∷ s) t = c ∷ s

-- buildBridgeTraceParentFromContext.
pub build_trace_parent : Option SpanContext → Text
build_trace_parent none = []
build_trace_parent (some span) =
    codes "00-" ++ (span.trace_id ++ (codes "-" ++ (span.span_id ++ (codes "-" ++ span.flags))))

-- buildBridgeTraceStateFromContext.
pub build_trace_state : Option SpanContext → Text
build_trace_state none = []
build_trace_state (some span) = trim_space span.trace_state

is_blank : Text → Bool
is_blank [] = true
is_blank (c ∷ s) = false

-- Whether `strings.TrimSpace(h.Get(key)) == ""`.
pub is_missing : Text → Header → Bool
unfolding is_blank
is_missing key h = is_blank (trim_space (header_get h key))

-- The half that reads the request.
from_request : Option Request → Header
from_request none = []
from_request (some r) =
    let request_id = trim_space (get_grpctunnel_request_id r.header) in
    let correlation_id =
      or_else (resolve_header_value r.header (correlation_id_key ∷ correlation_id_key ∷ []))
        request_id in
    set_value trace_state_key (resolve_header_value r.header (trace_state_key ∷ [])) (
      set_value trace_parent_key (resolve_header_value r.header (trace_parent_key ∷ []))
        (set_value correlation_id_key correlation_id (set_value request_id_key request_id [])))

set_if_missing : Text → Text → Header → Header
set_if_missing key value h = if is_missing key h then set_value key value h else h

-- buildBridgeForwardHeaders.
pub build_bridge_forward_headers : Option Request → Option SpanContext → Header
unfolding from_request set_if_missing
build_bridge_forward_headers r span =
    set_if_missing trace_state_key (build_trace_state span)
      (set_if_missing trace_parent_key (build_trace_parent span) (from_request r))

-- The entries that wrapBridgeForwardMetadataHandler snapshots: those with values.
pub forward_entries : Header → Header
forward_entries [] = []
forward_entries ((key, []) ∷ rest) = forward_entries rest
forward_entries ((key, v ∷ vs) ∷ rest) = (key, v ∷ vs) ∷ forward_entries rest

pub needs_injection : Header → Header → Bool
needs_injection [] h = false
needs_injection ((key, values) ∷ rest) h = is_missing key h || needs_injection rest h

-- The loop over the entries on the cloned request.
pub inject : Header → Header → Header
inject [] h = h
inject ((key, values) ∷ rest) h =
    let injected = insert key values h in
    if is_missing key h then inject rest injected else inject rest h

-- wrapBridgeForwardMetadataHandler: the header that the gRPC server's handler meets.
pub forward_metadata : Header → Header → Header
forward_metadata forward_headers h =
    let entries = forward_entries forward_headers in
    if needs_injection entries h then inject entries h else h
