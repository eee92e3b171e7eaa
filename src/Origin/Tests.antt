-- ===== src/Origin/Tests.antt =====
-- The allowlist at concrete inputs.
use go_grpcbridge.Base.{◌≡◌, ◌↔◌, ◌⊎◌, true, some, none, List, [], ◌∷◌, codes, Text, Any}
use go_grpcbridge.Net.{Request, header_get}
use go_grpcbridge.Origin.{normalize_origin, build_origin_allowlist_check}
use go_grpcbridge.Origin.Laws.{AllowsEntry, build_origin_allowlist_check_iff}

abbrev request : Request
request = record {
  remote_addr = [];
  method = codes "GET";
  header = (codes "Origin", codes "https://app.example.com/" ∷ []) ∷ [];
  path = none;
}

abbrev allowlist : List Text
allowlist = codes " https://*.example.com" ∷ [] ∷ []

-- The identity stands for the mapping on texts that are lower case already.
build_origin_allowlist_check_iff_example :
    let origin = normalize_origin (λ c. c) (header_get request.header (codes "Origin")) in
    (build_origin_allowlist_check (λ c. c) allowlist (some request) ≡ true)
    ↔ ((origin ≡ []) ⊎ Any (AllowsEntry (λ c. c) origin) allowlist)
build_origin_allowlist_check_iff_example =
    build_origin_allowlist_check_iff (λ c. c) allowlist request
