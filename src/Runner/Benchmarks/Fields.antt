-- ===== src/Runner/Benchmarks/Fields.antt =====
-- strings.Fields, strings.TrimSpace and strings.Split on a text that was laid out from its parts.
use mathlib.Core.List.{reverse}
use go_grpcbridge.Base.{
  ℕ, true, false, List, [], ◌∷◌, ◌++◌, ◌≡◌, ◌≢◌, refl, sym, ap, ◌∙◌, arith, Text, is_space,
  trim_space, trim_left, reverse-append, reverse-reverse, ◌==◌,
}
use go_grpcbridge.Runner.Benchmarks.{flush, split_words, fields, split_lines}

abbrev pub IsBlank : Text → Type 0
IsBlank [] = Unit
IsBlank (c ∷ s) = (is_space c ≡ true) × IsBlank s

abbrev pub NoBlank : Text → Type 0
NoBlank [] = Unit
NoBlank (c ∷ s) = (is_space c ≡ false) × NoBlank s

-- A word, and white space between two words.
pub record IsWord (w : Text) : Type 0 where
  pub nonempty : w ≢ []
  pub no_blank : NoBlank w

pub record IsGap (s : Text) : Type 0 where
  pub nonempty : s ≢ []
  pub blank : IsBlank s

-- A line: its first word, and the others, each after its gap.
unfoldable pub layout : Text → List (Text × Text) → Text
layout w [] = w
layout w ((gap, v) ∷ rest) = w ++ (gap ++ layout v rest)

abbrev pub AreLaidOut : List (Text × Text) → Type 0
AreLaidOut [] = Unit
AreLaidOut ((gap, v) ∷ rest) = IsGap gap × IsWord v × AreLaidOut rest

abbrev pub words_of : List (Text × Text) → List Text
words_of [] = []
words_of ((gap, v) ∷ rest) = v ∷ words_of rest

split_words-word :
    (w s : Text) → NoBlank w → split_words (w ++ s) ≡ (w ++ (split_words s).0, (split_words s).1)
unfolding split_words
split_words-word [] s h = refl
split_words-word (c ∷ w) s h = ground (arith, split_words-word w s h.1)

flush-word : (w : Text) (ws : List Text) → w ≢ [] → flush w ws ≡ w ∷ ws
flush-word [] ws h = absurd (h refl)
flush-word (c ∷ w) ws h = refl

split_words-blank :
    (c : ℕ) (b s : Text) → is_space c ≡ true → IsBlank b → split_words (c ∷ b ++ s) ≡ ([], fields s)
unfolding split_words fields
split_words-blank c [] s h k = ground arith
split_words-blank c (d ∷ b) s h k = ground (arith, split_words-blank d b s k.0 k.1)

split_words-gap : (b s : Text) → IsGap b → split_words (b ++ s) ≡ ([], fields s)
split_words-gap [] s g = absurd (g.nonempty refl)
split_words-gap (c ∷ b) s g = split_words-blank c b s g.blank.0 g.blank.1

append_nil : (w : Text) → w ++ [] ≡ w
append_nil [] = refl
append_nil (c ∷ w) = ap (◌∷◌ c) (append_nil w)

-- A word in front of a text that begins with no word of its own is the first field.
fields-word :
    (w s : Text) (ws : List Text) → IsWord w → split_words s ≡ ([], ws) → fields (w ++ s) ≡ w ∷ ws
unfolding fields
fields-word w s ws h e =
    ground (arith, split_words-word w s h.no_blank, e, append_nil w, flush-word w ws h.nonempty)

no_words : split_words [] ≡ ([], [])
unfolding split_words
no_words = refl

-- The fields of a line are its words.
pub fields-layout :
    (w : Text) (rest : List (Text × Text))
    → IsWord w
    → AreLaidOut rest
    → fields (layout w rest) ≡ w ∷ words_of rest
unfolding layout
fields-layout w [] h k = ap fields (sym (append_nil w)) ∙ fields-word w [] [] h no_words
fields-layout w ((gap, v) ∷ rest) h k =
    fields-word w _ _ h
      (split_words-gap gap _ k.0 ∙ ap (λ l. ([], l)) (fields-layout v rest k.1 k.2))

-- A text whose last character is no white space.
Kept : Text → Type 0
Kept s = (c : ℕ) × (pre : Text) × (reverse s ≡ c ∷ pre) × (is_space c ≡ false)

append-Kept : (x s : Text) → Kept s → Kept (x ++ s)
unfolding Kept
append-Kept x s (c, pre, e, h) =
    (c, pre ++ reverse x, reverse-append x s ∙ ap (λ l. l ++ reverse x) e, h)

word-Kept : (c : ℕ) (w : Text) → NoBlank (c ∷ w) → Kept (c ∷ w)
unfolding Kept
word-Kept c [] h = (c, [], refl, h.0)
word-Kept c (d ∷ w) h = append-Kept (c ∷ []) (d ∷ w) (word-Kept d w h.1)

IsWord-Kept : (w : Text) → IsWord w → Kept w
IsWord-Kept [] h = absurd (h.nonempty refl)
IsWord-Kept (c ∷ w) h = word-Kept c w h.no_blank

layout-Kept :
    (w : Text) (rest : List (Text × Text)) → IsWord w → AreLaidOut rest → Kept (layout w rest)
unfolding layout
layout-Kept w [] h k = IsWord-Kept w h
layout-Kept w ((gap, v) ∷ rest) h k =
    append-Kept w _ (append-Kept gap _ (layout-Kept v rest k.1 k.2))

trim_left-word : (w s : Text) → IsWord w → trim_left (w ++ s) ≡ w ++ s
unfolding trim_left
trim_left-word [] s h = absurd (h.nonempty refl)
trim_left-word (c ∷ w) s h = ground (arith, h.no_blank)

pub layout_tail : (w : Text) (rest : List (Text × Text)) → (s : Text) × (layout w rest ≡ w ++ s)
unfolding layout
layout_tail w [] = ([], sym (append_nil w))
layout_tail w ((gap, v) ∷ rest) = (gap ++ layout v rest, refl)

trim_left-head : (s pre : Text) (c : ℕ) → s ≡ c ∷ pre → is_space c ≡ false → trim_left s ≡ s
unfolding trim_left
trim_left-head s pre c e h = ground (arith)

-- A line that was laid out has no white space at its ends.
pub trim_space-layout :
    (w : Text) (rest : List (Text × Text))
    → IsWord w
    → AreLaidOut rest
    → trim_space (layout w rest) ≡ layout w rest
unfolding trim_space Kept
trim_space-layout w rest h k =
    let (s, e) = layout_tail w rest in
    let (c, pre, last, solid) = layout-Kept w rest h k in
    let front : trim_left (layout w rest) ≡ layout w rest = rw e (trim_left-word w s h) in
    ap (λ l. reverse (trim_left (reverse l))) front
    ∙ ap reverse (trim_left-head (reverse (layout w rest)) pre c last solid)
    ∙ reverse-reverse (layout w rest)

abbrev pub OneLine : Text → Type 0
OneLine [] = Unit
OneLine (c ∷ s) = ((c == 10) ≡ false) × OneLine s

pub append-OneLine : (s t : Text) → OneLine s → OneLine t → OneLine (s ++ t)
append-OneLine [] t h k = k
append-OneLine (c ∷ s) t h k = (h.0, append-OneLine s t h.1 k)

NoBlank-OneLine : (w : Text) → NoBlank w → OneLine w
unfolding is_space
NoBlank-OneLine [] h = tt
NoBlank-OneLine (c ∷ w) h = (ground arith, NoBlank-OneLine w h.1)

abbrev pub GapsOneLine : List (Text × Text) → Type 0
GapsOneLine [] = Unit
GapsOneLine ((gap, v) ∷ rest) = OneLine gap × GapsOneLine rest

pub layout-OneLine :
    (w : Text) (rest : List (Text × Text))
    → IsWord w
    → AreLaidOut rest
    → GapsOneLine rest
    → OneLine (layout w rest)
unfolding layout
layout-OneLine w [] h k g = NoBlank-OneLine w h.no_blank
layout-OneLine w ((gap, v) ∷ rest) h k g =
    append-OneLine w _ (NoBlank-OneLine w h.no_blank)
      (append-OneLine gap _ g.0 (layout-OneLine v rest k.1 k.2 g.1))

-- A line that ends with a line break is the first line of a text.
pub split_lines-line :
    (l s : Text)
    → OneLine l
    → split_lines (l ++ 10 ∷ s) ≡ (l, (split_lines s).0 ∷ (split_lines s).1)
unfolding split_lines
split_lines-line [] s h = refl
split_lines-line (c ∷ l) s h = ground (arith, split_lines-line l s h.1)
