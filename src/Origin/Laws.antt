-- ===== src/Origin/Laws.antt =====
-- The allowlist against its rules.
use go_grpcbridge.Base.{
  ℕ, ◌≡◌, ◌≢◌, ◌++◌, refl, sym, ap, ◌∙◌, ◌↔◌, ◌⊎◌, inl, inr, Bool, true, ◌&&◌, Option, none, some,
  List, [], ◌∷◌, Text, codes, eq_text, eq_text_iff, has_prefix_iff, has_suffix, arith, Bool-cases,
  Option-cases, cut, drop, has_prefix, reverse-append, reverse-reverse, Any,
}
use mathlib.Core.List.{reverse}
use go_grpcbridge.Net.{Request, header_get}
use go_grpcbridge.Origin.{
  normalize_origin, normalize_origins, split_origin_wildcard, matches_wildcard, allows_origin,
  any_allows, check_origin, build_origin_allowlist_check, split_host,
}

-- How one entry allows an origin. An entry with a wildcard reads, at its first "://", a scheme and a
-- host that begins with "*.": then the origin has that scheme and ends with the dot and the domain.
pub data Allows (origin : Text) (allowed : Text) : Type 0 where
  every : allowed ≡ codes "*" → Allows origin allowed
  same : allowed ≡ origin → Allows origin allowed
  subdomain :
      (scheme domain rest before : Text)
      → cut allowed (codes "://") ≡ some (scheme, codes "*." ++ domain)
      → origin ≡ (scheme ++ codes "://") ++ rest
      → origin ≡ before ++ (codes "." ++ domain)
      → Allows origin allowed

-- What the split of an entry gives.
split_wildcard_iff :
    (allowed scheme host_suffix : Text)
    → (split_origin_wildcard allowed ≡ some (scheme, host_suffix)) ↔ (
        (domain : Text) × (cut allowed (codes "://") ≡ some (scheme, codes "*." ++ domain))
        × (host_suffix ≡ codes "." ++ domain))
unfolding split_origin_wildcard split_host
split_wildcard_iff allowed scheme host_suffix = (
  λ h. elim (Option-cases (cut allowed (codes "://"))) [
    | inl whole ↦ absurd (ground (arith, whole))
    | inr ((before, host), found) ↦ elim (Bool-cases (has_prefix host (codes "*."))) [
      | inr bare ↦ absurd (ground (arith, found, bare))
      | inl starred ↦
          let (domain, spelled) = (has_prefix_iff host (codes "*.")).0 starred in
          let parts : (before ≡ scheme) × (drop 1 host ≡ host_suffix) =
            ground (arith, found, starred) in
          (
            domain,
            found
                ∙ ap (λ p. some p) (ap (λ s. (s, host)) parts.0)
                ∙ ap (λ x. some (scheme, x)) spelled,
            sym parts.1 ∙ ap (drop 1) spelled,
          )
    ]
  ],
  λ (domain, found, suffix).
      let starred = (has_prefix_iff (codes "*." ++ domain) (codes "*.")).1 (domain, refl) in
      rw found (rw starred (ap (λ x. some (scheme, x)) (sym suffix))),
)

and-true : {a b : Bool} → (a && b) ≡ true → (a ≡ true) × (b ≡ true)
and-true h = ground arith

has_suffix_iff : (s t : Text) → (has_suffix s t ≡ true) ↔ ((b : Text) × (s ≡ b ++ t))
unfolding has_suffix
has_suffix_iff s t = (
  λ h.
      let (r, e) = (has_prefix_iff (reverse s) (reverse t)).0 h in
      (
        reverse r,
        sym (reverse-reverse s)
            ∙ ap reverse e
            ∙ reverse-append (reverse t) r
            ∙ ap (λ l. reverse r ++ l) (reverse-reverse t),
      ),
  λ (b, e).
      (has_prefix_iff (reverse s) (reverse t)).1 (reverse b, ap reverse e ∙ reverse-append b t),
)

matched-Allows :
    (origin allowed : Text) (split : Option (Text × Text))
    → split_origin_wildcard allowed ≡ split
    → matches_wildcard origin split ≡ true
    → Allows origin allowed
unfolding matches_wildcard
matched-Allows origin allowed none e h = absurd (ground arith)
matched-Allows origin allowed (some (scheme, host_suffix)) e h =
    let (first, last) = and-true h in
    let (rest, front) = (has_prefix_iff _ _).0 first in
    let (before, back) = (has_suffix_iff _ _).0 last in
    let (domain, found, suffix) = (split_wildcard_iff allowed scheme host_suffix).0 e in
    subdomain scheme domain rest before found front (back ∙ ap (λ x. before ++ x) suffix)

allows-Allows :
    (origin allowed : Text) → Allows origin allowed → allows_origin origin allowed ≡ true
unfolding allows_origin matches_wildcard
allows-Allows origin allowed (every e) = ground (arith, (eq_text_iff allowed (codes "*")).1 e)
allows-Allows origin allowed (same e) = ground (arith, (eq_text_iff allowed origin).1 e)
allows-Allows origin allowed (subdomain scheme domain rest before found front back) =
    let host_suffix = codes "." ++ domain in
    rw ((split_wildcard_iff allowed scheme host_suffix).1 (domain, found, refl), allows_origin)
      (ground (
        arith,
        (has_prefix_iff origin (scheme ++ codes "://")).1 (rest, front),
        (has_suffix_iff origin host_suffix).1 (before, back),
      ))

allows_origin_iff :
    (origin allowed : Text) → (allows_origin origin allowed ≡ true) ↔ Allows origin allowed
unfolding allows_origin
allows_origin_iff origin allowed = (
  λ h. elim (Bool-cases (eq_text allowed (codes "*"))) [
    | inl star ↦ every ((eq_text_iff _ _).0 star)
    | inr no_star ↦ elim (Bool-cases (eq_text allowed origin)) [
      | inl equal ↦ same ((eq_text_iff _ _).0 equal)
      | inr other ↦
          matched-Allows origin allowed (split_origin_wildcard allowed) refl (ground arith)
    ]
  ],
  allows-Allows origin allowed,
)

-- An entry of the allowlist that is not empty, and that allows the origin.
abbrev pub AllowsEntry : (ℕ → ℕ) → Text → Text → Type 0
AllowsEntry to_lower origin entry =
    (normalize_origin to_lower entry ≢ []) × Allows origin (normalize_origin to_lower entry)

normalize_origins_empty :
    (to_lower : ℕ → ℕ) (entry : Text) (rest : List Text)
    → normalize_origin to_lower entry ≡ []
    → normalize_origins to_lower (entry ∷ rest) ≡ normalize_origins to_lower rest
unfolding normalize_origins
normalize_origins_empty to_lower entry rest e = rw (e, normalize_origins) refl

normalize_origins_kept :
    (to_lower : ℕ → ℕ) (entry : Text) (rest : List Text) (c : ℕ) (s : Text)
    → normalize_origin to_lower entry ≡ c ∷ s
    → normalize_origins to_lower (entry ∷ rest) ≡ (c ∷ s) ∷ normalize_origins to_lower rest
unfolding normalize_origins
normalize_origins_kept to_lower entry rest c s e = rw (e, normalize_origins) refl

any_allows-cons :
    (origin entry : Text) (rest : List Text)
    → (any_allows origin (entry ∷ rest) ≡ true)
      ↔ ((allows_origin origin entry ≡ true) ⊎ (any_allows origin rest ≡ true))
unfolding any_allows
any_allows-cons origin entry rest = ground arith

any_allows_iff :
    (to_lower : ℕ → ℕ) (origin : Text) (allowed : List Text)
    → (any_allows origin (normalize_origins to_lower allowed) ≡ true)
      ↔ Any (AllowsEntry to_lower origin) allowed
unfolding any_allows normalize_origins
any_allows_iff to_lower origin [] = ground arith
any_allows_iff to_lower origin (entry ∷ rest) =
    entry_iff (any_allows_iff to_lower origin rest) (normalize_origin to_lower entry) refl
  where
    entry_iff :
        (any_allows origin (normalize_origins to_lower rest) ≡ true)
          ↔ Any (AllowsEntry to_lower origin) rest
        → (n : Text) → normalize_origin to_lower entry ≡ n
        → (any_allows origin (normalize_origins to_lower (entry ∷ rest)) ≡ true)
          ↔ Any (AllowsEntry to_lower origin) (entry ∷ rest)
    entry_iff ih [] e = rw (normalize_origins_empty to_lower entry rest e) (ground (arith, e, ih))
    entry_iff ih (c ∷ s) e =
        let at_head = any_allows-cons origin (c ∷ s) (normalize_origins to_lower rest) in
        let this = allows_origin_iff origin (c ∷ s) in
        rw (normalize_origins_kept to_lower entry rest c s e, e)
          (
            λ h. elim (at_head.0 h) [
              | inl here ↦ inl (λ empty. ground arith, this.0 here)
              | inr later ↦ inr (ih.0 later)
            ],
            λ h. elim h [
              | inl (kept, here) ↦ at_head.1 (inl (this.1 here))
              | inr later ↦ at_head.1 (inr (ih.1 later))
            ],
          )

-- The check allows a request exactly when its normalized Origin is empty or missing, or some entry
-- of the list that is not empty allows it: "*", the same origin, or an entry with "*." after its
-- first "://", where the origin begins with the same scheme and ends with the dot and the domain
-- that follow.
pub build_origin_allowlist_check_iff :
    (to_lower : ℕ → ℕ) (allowed : List Text) (r : Request)
    → let origin = normalize_origin to_lower (header_get r.header (codes "Origin")) in
      (build_origin_allowlist_check to_lower allowed (some r) ≡ true)
      ↔ ((origin ≡ []) ⊎ Any (AllowsEntry to_lower origin) allowed)
unfolding build_origin_allowlist_check
build_origin_allowlist_check_iff to_lower allowed r =
    check_origin_iff (normalize_origin to_lower (header_get r.header (codes "Origin")))
  where
    check_origin_iff :
        (origin : Text)
        → (check_origin (normalize_origins to_lower allowed) origin ≡ true)
          ↔ ((origin ≡ []) ⊎ Any (AllowsEntry to_lower origin) allowed)
    check_origin_iff [] = unfold check_origin in (λ _. inl refl, λ _. refl)
    check_origin_iff (c ∷ s) =
        unfold check_origin in
        let (there, back) = any_allows_iff to_lower (c ∷ s) allowed in
        (λ h. inr (there h), λ h. elim h [ inl e ↦ absurd (ground arith) | inr found ↦ back found ])
