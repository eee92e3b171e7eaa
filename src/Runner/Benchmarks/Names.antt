-- ===== src/Runner/Benchmarks/Names.antt =====
-- The name of a benchmark and the number of processors behind it, in tools/runner.go.
use mathlib.Core.List.{reverse, append_assoc}
use go_grpcbridge.Base.{
  true, false, some, [], ◌∷◌, ◌++◌, ◌≡◌, ◌≢◌, refl, sym, ap, ◌∙◌, ◌&&◌, arith, Text, leb,
  has_prefix, has_prefix_iff, reverse-append, reverse-reverse,
}
use go_grpcbridge.Runner.Benchmarks.{before_number, parse_runner_benchmark_name}

abbrev pub AllDigits : Text → Type 0
AllDigits [] = Unit
AllDigits (c ∷ s) = ((leb 48 c && leb c 57) ≡ true) × AllDigits s

AllDigits-append : (s t : Text) → AllDigits s → AllDigits t → AllDigits (s ++ t)
AllDigits-append [] t h k = k
AllDigits-append (c ∷ s) t h k = (h.0, AllDigits-append s t h.1 k)

AllDigits-reverse : (s : Text) → AllDigits s → AllDigits (reverse s)
AllDigits-reverse [] h = tt
AllDigits-reverse (c ∷ s) h =
    rw (reverse-append (c ∷ []) s)
      (AllDigits-append (reverse s) (c ∷ []) (AllDigits-reverse s h.1) (h.0, tt))

before_number-true :
    (digits s : Text) → AllDigits digits → before_number true (digits ++ 45 ∷ s) ≡ some s
unfolding before_number
before_number-true [] s h = refl
before_number-true (c ∷ digits) s h = ground (arith, before_number-true digits s h.1)

before_number-digits :
    (digits s : Text)
    → digits ≢ []
    → AllDigits digits
    → before_number false (digits ++ 45 ∷ s) ≡ some s
unfolding before_number
before_number-digits [] s n h = absurd (n refl)
before_number-digits (c ∷ digits) s n h = ground (arith, before_number-true digits s h.1)

-- The number of processors behind a name is cut off.
pub parse_name-printed :
    (name cpus : Text)
    → cpus ≢ []
    → AllDigits cpus
    → parse_runner_benchmark_name (name ++ 45 ∷ cpus) ≡ name
unfolding parse_runner_benchmark_name
parse_name-printed name cpus n h =
    let turned : reverse (name ++ 45 ∷ cpus) ≡ reverse cpus ++ 45 ∷ reverse name =
      reverse-append name (45 ∷ cpus)
      ∙ ap (λ l. l ++ reverse name) (reverse-append (45 ∷ []) cpus)
      ∙ append_assoc (reverse cpus) (45 ∷ []) (reverse name) in
    let found =
      before_number-digits (reverse cpus) (reverse name)
        (λ e. n (sym (reverse-reverse cpus) ∙ ap reverse e)) (AllDigits-reverse cpus h) in
    rw (ap (before_number false) turned ∙ found, parse_runner_benchmark_name) (reverse-reverse name)

pub has_prefix-append : (s t p : Text) → has_prefix s p ≡ true → has_prefix (s ++ t) p ≡ true
has_prefix-append s t p h =
    let (rest, e) = (has_prefix_iff s p).0 h in
    (has_prefix_iff (s ++ t) p).1 (rest ++ t, ap (λ l. l ++ t) e ∙ append_assoc p rest t)
