-- ===== src/Forward/Laws.antt =====
-- What the tunneled requests carry.
use go_grpcbridge.Base.{
  ◌≡◌, ◌≢◌, refl, ap, ◌∙◌, inl, inr, Bool, false, Option, none, some, List, [], ◌∷◌, if◌then◌else◌,
  Text, trim_space, lookup, insert, eq_text_iff, lookup-insert, IsMap, arith, Bool-cases,
}
use go_grpcbridge.Net.{first_value, header_get}
use go_grpcbridge.Forward.{
  Header, is_blank, is_missing, forward_entries, needs_injection, inject, forward_metadata,
}

-- Whether a key is missing depends on its own entry only.
is_missing-insert :
    (key other : Text) (values : List Text) (h : Header)
    → key ≢ other
    → is_missing other (insert key values h) ≡ is_missing other h
unfolding is_missing
is_missing-insert key other values h apart =
    let kept : lookup other (insert key values h) ≡ lookup other h =
      lookup-insert key other values h ∙ ground (arith, eq_text_iff key other) in
    ap (λ found. is_blank (trim_space (first_value found))) kept

-- The forwarded values where the key is missing, and the request's own entry otherwise.
abbrev pub forwarded : Option (List Text) → Bool → Option (List Text) → Option (List Text)
forwarded none missing own = own
forwarded (some values) missing own = if missing then some values else own

lookup-inject :
    (entries : Header) (k : Text) (h : Header)
    → IsMap entries
    → lookup k (inject entries h) ≡ forwarded (lookup k entries) (is_missing k h) (lookup k h)
unfolding inject lookup
lookup-inject [] k h m = refl
lookup-inject ((key, values) ∷ rest) k h (fresh, m) = ground (
  arith,
  eq_text_iff key k,
  lookup-insert key k values h,
  λ (apart : key ≢ k). is_missing-insert key k values h apart,
  lookup-inject rest k (insert key values h) m,
  lookup-inject rest k h m,
)

not_needed :
    (entries : Header) (k : Text) (h : Header)
    → needs_injection entries h ≡ false
    → lookup k h ≡ forwarded (lookup k entries) (is_missing k h) (lookup k h)
unfolding needs_injection lookup
not_needed [] k h n = refl
not_needed ((key, values) ∷ rest) k h n = ground (arith, eq_text_iff key k, not_needed rest k h)

-- The values that a session forwards for a key: an entry without values forwards nothing.
abbrev pub values_of : Option (List Text) → Option (List Text)
values_of none = none
values_of (some []) = none
values_of (some (v ∷ vs)) = some (v ∷ vs)

lookup-forward_entries :
    (k : Text) (h : Header) → IsMap h → lookup k (forward_entries h) ≡ values_of (lookup k h)
unfolding forward_entries lookup
lookup-forward_entries k [] m = refl
lookup-forward_entries k ((key, []) ∷ rest) (fresh, m) =
    ground (arith, fresh, eq_text_iff key k, lookup-forward_entries k rest m)
lookup-forward_entries k ((key, v ∷ vs) ∷ rest) (fresh, m) =
    ground (arith, lookup-forward_entries k rest m)

forward_entries-IsMap : (h : Header) → IsMap h → IsMap (forward_entries h)
unfolding forward_entries
forward_entries-IsMap [] m = tt
forward_entries-IsMap ((key, []) ∷ rest) (fresh, m) = forward_entries-IsMap rest m
forward_entries-IsMap ((key, v ∷ vs) ∷ rest) (fresh, m) =
    (lookup-forward_entries key rest m ∙ ap values_of fresh, forward_entries-IsMap rest m)

-- What is carried for a key: the values of the session where the request's own first value, which
-- is given trimmed, is empty.
abbrev pub carried : Option (List Text) → Text → Option (List Text) → Option (List Text)
carried (some (v ∷ vs)) [] own = some (v ∷ vs)
carried _ first own = own

carried-forwarded :
    (session : Option (List Text)) (first : Text) (own : Option (List Text))
    → forwarded (values_of session) (is_blank first) own ≡ carried session first own
unfolding is_blank
carried-forwarded none first own = refl
carried-forwarded (some []) first own = refl
carried-forwarded (some (v ∷ vs)) [] own = refl
carried-forwarded (some (v ∷ vs)) (c ∷ s) own = refl

forward_entries_carried :
    (forward_headers h : Header) (k : Text)
    → IsMap (forward_entries forward_headers)
    → lookup k (forward_metadata forward_headers h)
      ≡ forwarded (lookup k (forward_entries forward_headers)) (is_missing k h) (lookup k h)
unfolding forward_metadata
forward_entries_carried forward_headers h k m =
    elim (Bool-cases (needs_injection (forward_entries forward_headers) h)) [
      | inl needed ↦
          rw (needed, forward_metadata) (lookup-inject (forward_entries forward_headers) k h m)
      | inr not_one ↦
          rw (not_one, forward_metadata) (not_needed (forward_entries forward_headers) k h not_one)
    ]

-- The tunneled request carries, for each key, its own entry, unless the first value of the entry
-- is blank or missing and the session has values for the key: then it carries those values; the
-- header of the session has distinct keys.
pub lookup-forward_metadata :
    (forward_headers h : Header) (k : Text)
    → IsMap forward_headers
    → lookup k (forward_metadata forward_headers h)
      ≡ carried (lookup k forward_headers) (trim_space (header_get h k)) (lookup k h)
unfolding is_missing
lookup-forward_metadata forward_headers h k m =
    forward_entries_carried forward_headers h k (forward_entries-IsMap forward_headers m)
    ∙ ap (λ session. forwarded session (is_missing k h) (lookup k h))
        (lookup-forward_entries k forward_headers m)
    ∙ carried-forwarded (lookup k forward_headers) (trim_space (header_get h k)) (lookup k h)
