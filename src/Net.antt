-- ===== src/Net.antt =====
-- What pkg/grpctunnel and pkg/bridge read of a request (net/http), and the calls they make of
-- package net.
use Prim.Native.Nat.{ℕ, suc}
use go_grpcbridge.Base.{
  lookup, ◌≡◌, refl, Bool, true, false, Option, none, some, List, [], ◌∷◌, ◌==◌, if◌then◌else◌,
  Text, Dict, take, drop, length, codes,
}

-- The fields of *http.Request that the program reads; the header's keys are canonical.
pub record Request : Type 0 where
  pub remote_addr : Text
  pub method : Text
  pub header : Dict (List Text)
  pub path : Option Text

-- http.Header.Get with a canonical key.
abbrev pub first_value : Option (List Text) → Text
first_value none = []
first_value (some []) = []
first_value (some (v ∷ vs)) = v

abbrev pub header_get : Dict (List Text) → Text → Text
header_get header key = first_value (lookup key header)

-- bytealg.IndexByteString: the position of the first occurrence.
unfoldable pub index_byte : Text → ℕ → Option ℕ
index_byte [] b = none
index_byte (c ∷ s) b =
    let later = index_byte s b in
    if c == b then some 0 else elim later [ none ↦ none | some i ↦ some (suc i) ]

-- bytealg.LastIndexByteString: the position of the last occurrence.
unfoldable pub last_index_byte : Text → ℕ → Option ℕ
last_index_byte [] b = none
last_index_byte (c ∷ s) b = elim (last_index_byte s b) [
  | some i ↦ some (suc i)
  | none ↦ if c == b then some 0 else none
]

abbrev pub has_byte : Text → ℕ → Bool
has_byte s b = elim (index_byte s b) [ none ↦ false | some _ ↦ true ]

-- The last tests of net.SplitHostPort: no bracket may stand behind the positions j and k.
split_at : Text → Text → ℕ → ℕ → ℕ → Option (Text × Text)
unfolding index_byte
split_at hostport host i j k =
    if has_byte (drop j hostport) b'['
    then none
    else if has_byte (drop k hostport) b']'
    then none
    else some (host, drop (suc i) hostport)

split_bracketed : Text → ℕ → Option ℕ → Option (Text × Text)
unfolding split_at
split_bracketed hostport i none = none
split_bracketed hostport i (some end) =
    if suc end == length hostport
    then none
    else if suc end == i
    then split_at hostport (drop 1 (take end hostport)) i 1 (suc end)
    else none

split_plain : Text → ℕ → Option (Text × Text)
unfolding split_at
split_plain hostport i =
    if has_byte (take i hostport) b':' then none else split_at hostport (take i hostport) i 0 0

split_last : Text → Option ℕ → Option (Text × Text)
unfolding split_bracketed split_plain
split_last hostport none = none
split_last [] (some i) = none
split_last (c ∷ s) (some i) =
    if c == b'[' then split_bracketed (c ∷ s) i (index_byte (c ∷ s) b']') else split_plain (c ∷ s) i

-- net.SplitHostPort: host and port, or none where it returns an error.
unfoldable pub split_host_port : Text → Option (Text × Text)
unfolding split_last last_index_byte
split_host_port hostport = split_last hostport (last_index_byte hostport b':')

split_host_port_tests :
    (split_host_port (codes "10.0.0.1:80") ≡ some (codes "10.0.0.1", codes "80"))
    × (split_host_port (codes "[::1]:80") ≡ some (codes "::1", codes "80"))
    × (split_host_port (codes "::1") ≡ none)
    × (split_host_port (codes "[::1]") ≡ none)
    × (split_host_port (codes "host") ≡ none)
    × (split_host_port (codes ":80") ≡ some ([], codes "80"))
unfolding split_host_port
split_host_port_tests = (refl, refl, refl, refl, refl, refl)
