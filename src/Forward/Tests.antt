-- ===== src/Forward/Tests.antt =====
-- Forwarded headers at concrete inputs.
use go_grpcbridge.Base.{
  ◌≡◌, refl, none, some, List, [], ◌∷◌, codes, Text, lookup, IsMap, trim_space,
}
use go_grpcbridge.Net.{header_get}
use go_grpcbridge.Forward.{
  Header, request_id_key, correlation_id_key, trace_parent_key, forward_metadata,
}
use go_grpcbridge.Forward.Laws.{carried, lookup-forward_metadata}

abbrev session_header : Header
session_header =
    (request_id_key, codes "r1" ∷ [])
    ∷ (trace_parent_key, [])
    ∷ (correlation_id_key, codes "c1" ∷ [])
    ∷ []

-- The request has a correlation identifier of its own, and a blank request identifier.
abbrev request_header : Header
request_header = (request_id_key, codes " " ∷ []) ∷ (correlation_id_key, codes "own" ∷ []) ∷ []

session-IsMap : IsMap session_header
unfolding lookup go_grpcbridge.Base.eq_text
session-IsMap = (refl, (refl, (refl, tt)))

lookup-forward_metadata_example :
    lookup request_id_key (forward_metadata session_header request_header)
    ≡ carried
        (lookup request_id_key session_header)
        (trim_space (header_get request_header request_id_key))
        (lookup request_id_key request_header)
lookup-forward_metadata_example =
    lookup-forward_metadata session_header request_header request_id_key session-IsMap
