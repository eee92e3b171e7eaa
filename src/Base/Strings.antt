-- ===== src/Base/Strings.antt =====
-- Go strings as the list of their code points, and what the program uses of package strings.
use Prim.Native.Nat.{ℕ}
use Prim.Native.Char.{code}
use Prim.Native.String.{String}
use mathlib.Core.Path.{◌≡◌, refl, sym, ap, ◌∙◌}
use mathlib.Core.Logic.{◌≢◌, ◌↔◌, inl, inr}
use mathlib.Core.Bool.{Bool, true, false, ◌&&◌, ◌||◌}
use mathlib.Core.Option.{Option, none, some}
use mathlib.Core.List.{List, [], ◌∷◌, ◌++◌, reverse}
use native.Mathlib.Omega.{arith}
use go_grpcbridge.Base.Lists.{reverse-append, reverse-reverse}
use go_grpcbridge.Base.Tests.{leb, ◌==◌, if◌then◌else◌, Option-cases}

abbrev pub Text : Type 0
Text = List ℕ

-- The code points of a literal.
abbrev pub codes : String → Text
codes String.[] = []
codes (String.◌∷◌ c s) = code c ∷ codes s

-- Equality of two texts.
unfoldable pub eq_text : Text → Text → Bool
eq_text [] [] = true
eq_text (a ∷ s) (b ∷ t) = (a == b) && eq_text s t
eq_text _ _ = false

pub eq_text_iff : (s t : Text) → (eq_text s t ≡ true) ↔ (s ≡ t)
unfolding eq_text
eq_text_iff [] [] = ground arith
eq_text_iff [] (b ∷ t) = ground arith
eq_text_iff (a ∷ s) [] = ground arith
eq_text_iff (a ∷ s) (b ∷ t) = ground (arith, eq_text_iff s t)

-- unicode.IsSpace.
unfoldable pub is_space : ℕ → Bool
is_space c =
    (leb 9 c && leb c 13)
    || c == 0x20
    || c == 0x85
    || c == 0xa0
    || c == 0x1680
    || (leb 0x2000 c && leb c 0x200a)
    || c == 0x2028
    || c == 0x2029
    || c == 0x202f
    || c == 0x205f
    || c == 0x3000

unfoldable pub trim_left : Text → Text
unfolding is_space
trim_left [] = []
trim_left (c ∷ s) = if is_space c then trim_left s else c ∷ s

-- strings.TrimSpace.
unfoldable pub trim_space : Text → Text
unfolding trim_left
trim_space s = reverse (trim_left (reverse (trim_left s)))

-- strings.CutPrefix: what follows the prefix.
unfoldable pub cut_prefix : Text → Text → Option Text
cut_prefix s [] = some s
cut_prefix [] (b ∷ t) = none
cut_prefix (a ∷ s) (b ∷ t) = if a == b then cut_prefix s t else none

-- strings.HasPrefix.
unfoldable pub has_prefix : Text → Text → Bool
unfolding cut_prefix
has_prefix s t = elim (cut_prefix s t) [ none ↦ false | some _ ↦ true ]

-- strings.HasSuffix.
unfoldable pub has_suffix : Text → Text → Bool
unfolding has_prefix
has_suffix s t = has_prefix (reverse s) (reverse t)

-- strings.TrimSuffix.
unfoldable pub trim_suffix : Text → Text → Text
unfolding cut_prefix
trim_suffix s t = elim (cut_prefix (reverse s) (reverse t)) [ none ↦ s | some r ↦ reverse r ]

-- strings.Cut: what stands before and after the first occurrence of the separator.
unfoldable pub cut : Text → Text → Option (Text × Text)
unfolding cut_prefix
cut [] sep = elim (cut_prefix [] sep) [ none ↦ none | some r ↦ some ([], r) ]
cut (c ∷ s) sep =
    let later = cut s sep in
    elim (cut_prefix (c ∷ s) sep) [
      | some r ↦ some ([], r)
      | none ↦ elim later [ none ↦ none | some (b, r) ↦ some (c ∷ b, r) ]
    ]

-- strings.Contains.
unfoldable pub contains : Text → Text → Bool
unfolding cut
contains s sep = elim (cut s sep) [ none ↦ false | some _ ↦ true ]

pub cut_prefix-eq-some : (s t : Text) (r : Text) → cut_prefix s t ≡ some r → s ≡ t ++ r
unfolding cut_prefix
cut_prefix-eq-some s [] r h = ground arith
cut_prefix-eq-some [] (b ∷ t) r h = ground arith
cut_prefix-eq-some (a ∷ s) (b ∷ t) r h = ground (arith, cut_prefix-eq-some s t r)

pub cut_prefix-append : (t r : Text) → cut_prefix (t ++ r) t ≡ some r
unfolding cut_prefix
cut_prefix-append [] r = refl
cut_prefix-append (b ∷ t) r = ground (arith, cut_prefix-append t r)

abbrev pub is_empty : Text → Bool
is_empty [] = true
is_empty (c ∷ s) = false

pub is_empty_iff : (s : Text) → (is_empty s ≡ true → s ≡ []) × (is_empty s ≡ false → s ≢ [])
is_empty_iff [] = ground arith
is_empty_iff (c ∷ s) = ground arith

pub has_prefix_iff : (s t : Text) → (has_prefix s t ≡ true) ↔ ((r : Text) × (s ≡ t ++ r))
unfolding has_prefix
has_prefix_iff s t = (
  λ h. elim (Option-cases (cut_prefix s t)) [
    | inl missing ↦ absurd (ground (arith, missing))
    | inr (r, found) ↦ (r, cut_prefix-eq-some s t r found)
  ],
  λ (r, e). rw e (rw (cut_prefix-append t r, has_prefix) refl),
)

trim_left-kept : (s : Text) (c : ℕ) → is_space c ≡ false → trim_left (s ++ c ∷ []) ≢ []
unfolding trim_left
trim_left-kept [] c h = λ e. ground arith
trim_left-kept (a ∷ s) c h = ground (arith, trim_left-kept s c h)

-- A text that begins with something else than white space is not trimmed to nothing.
pub trim_space_nonblank : (c : ℕ) (s : Text) → is_space c ≡ false → trim_space (c ∷ s) ≢ []
unfolding trim_space trim_left
trim_space_nonblank c s h e =
    let kept : trim_left (c ∷ s) ≡ c ∷ s = rw h refl in
    let trimmed = ap (λ t. reverse (trim_left (reverse t))) (sym kept) ∙ e in
    trim_left-kept (reverse s) c h (
      ap trim_left (sym (reverse-append (c ∷ []) s))
      ∙ sym (reverse-reverse (trim_left (reverse (c ∷ s))))
      ∙ ap reverse trimmed)
