-- ===== src/Origin.antt =====
-- pkg/grpctunnel/api.go: BuildOriginAllowlistCheck and splitOriginWildcard. `to_lower` is
-- unicode.ToLower, which strings.ToLower applies to each character.
pub mod Laws
pub mod Tests
use go_grpcbridge.Base.{
  ℕ, ◌≡◌, ◌++◌, Bool, true, false, ◌&&◌, ◌||◌, Option, none, some, List, [], ◌∷◌, if◌then◌else◌,
  map, Text, codes, eq_text, trim_space, trim_suffix, has_prefix, has_suffix, cut, drop, Dict,
  lookup,
}
use go_grpcbridge.Net.{Request, header_get}

module _ (to_lower : ℕ → ℕ) where
  -- The normalization of an origin, on both sides.
  unfoldable pub normalize_origin : Text → Text
  normalize_origin origin = map to_lower (trim_space (trim_suffix origin (codes "/")))

  -- The allowlist: the empty entries are left out.
  unfoldable pub normalize_origins : List Text → List Text
  normalize_origins [] = []
  normalize_origins (origin ∷ rest) = elim (normalize_origin origin) [
    | [] ↦ normalize_origins rest
    | c ∷ s ↦ (c ∷ s) ∷ normalize_origins rest
  ]

pub split_host : Option (Text × Text) → Option (Text × Text)
split_host none = none
split_host (some (scheme, host)) =
    if has_prefix host (codes "*.") then some (scheme, drop 1 host) else none

-- splitOriginWildcard.
pub split_origin_wildcard : Text → Option (Text × Text)
unfolding split_host
split_origin_wildcard allowed = split_host (cut allowed (codes "://"))

pub matches_wildcard : Text → Option (Text × Text) → Bool
matches_wildcard origin none = false
matches_wildcard origin (some (scheme, host_suffix)) =
    has_prefix origin (scheme ++ codes "://") && has_suffix origin host_suffix

-- One entry of the allowlist against the request's origin.
pub allows_origin : Text → Text → Bool
unfolding matches_wildcard
allows_origin origin allowed =
    eq_text allowed (codes "*")
    || eq_text allowed origin
    || matches_wildcard origin (split_origin_wildcard allowed)

pub any_allows : Text → List Text → Bool
any_allows origin [] = false
any_allows origin (allowed ∷ rest) = allows_origin origin allowed || any_allows origin rest

pub check_origin : List Text → Text → Bool
unfolding any_allows
check_origin allowed [] = true
check_origin allowed (c ∷ s) = any_allows (c ∷ s) allowed

-- BuildOriginAllowlistCheck: the check that it returns.
pub build_origin_allowlist_check : (ℕ → ℕ) → List Text → Option Request → Bool
unfolding check_origin
build_origin_allowlist_check to_lower allowed none = false
build_origin_allowlist_check to_lower allowed (some r) =
    check_origin (normalize_origins to_lower allowed)
      (normalize_origin to_lower (header_get r.header (codes "Origin")))
