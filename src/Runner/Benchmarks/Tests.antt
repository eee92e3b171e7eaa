-- ===== src/Runner/Benchmarks/Tests.antt =====
-- The parser of benchmark output at a concrete output, with numbers for floats.
use go_grpcbridge.Base.{
  ℕ, zero, suc, ◌-◌, ◌*◌, ◌/◌, ◌≡◌, ◌≢◌, refl, arith, Option, none, some, List, [], ◌∷◌, Text,
  codes, leb, ltb, ◌==◌, is_space, has_prefix, trim_space,
}
use go_grpcbridge.Runner.Benchmarks.{Floats, parse_runner_benchmark_records}
use go_grpcbridge.Runner.Benchmarks.Fields.{NoBlank}
use go_grpcbridge.Runner.Benchmarks.Roundtrip.{
  Result, Line, noise, result, AllPrintable, nil, noise_line, result_line, print_lines, expected,
  Reads, found_in, lookup-parse_records,
}

-- As many ones as the number, and one more.
abbrev pub print : ℕ → Text
print zero = 49 ∷ []
print (suc n) = 49 ∷ print n

abbrev pub parse : Text → Option ℕ
parse [] = none
parse (c ∷ []) = some 0
parse (c ∷ d ∷ s) = elim (parse (d ∷ s)) [ none ↦ none | some n ↦ some (suc n) ]

abbrev pub numbers : Floats
numbers = record {
  Number = ℕ;
  of_ℕ = λ n. n;
  parse = parse;
  sub = λ a b. a - b;
  mul = λ a b. a * b;
  div = λ a b. a / b;
  lt = ltb;
  le = leb;
  eq = λ a b. a == b;
}

parse-print : (n : ℕ) → parse (print n) ≡ some n
parse-print zero = refl
parse-print (suc zero) = refl
parse-print (suc (suc n)) = ground (arith, parse-print (suc n))

print-NoBlank : (n : ℕ) → NoBlank (print n)
unfolding is_space
print-NoBlank zero = (refl, tt)
print-NoBlank (suc n) = (refl, print-NoBlank n)

print-nonempty : (n : ℕ) → print n ≢ []
print-nonempty zero = λ e. ground arith
print-nonempty (suc n) = λ e. ground arith

pub reads : Reads numbers print
reads = record {
  parse-print = parse-print;
  print-IsWord = λ n. record { nonempty = print-nonempty n; no_blank = print-NoBlank n };
}

abbrev measured : Result numbers print
measured = record {
  name = codes "BenchmarkA-1";
  cpus = codes "8";
  iterations = codes "100";
  ns = 2;
  kilobytes = some 1;
  bytes = 3;
  allocs = 0;
  gap = λ i. 9 ∷ 32 ∷ [];
}

abbrev output : List (Line numbers print)
output = noise (codes "goos: linux") ∷ result measured ∷ noise (codes "PASS") ∷ []

output-AllPrintable : AllPrintable numbers print output
unfolding is_space has_prefix trim_space
output-AllPrintable = noise_line (ground arith) refl (
    result_line
      (record {
        benchmark = refl;
        first_word = record { nonempty = λ e. ground arith; no_blank = ground arith };
        has_cpus = λ e. ground arith;
        digits = ground arith;
        counted = record { nonempty = λ e. ground arith; no_blank = ground arith };
        gaps = λ i. record { nonempty = λ e. ground arith; blank = ground arith };
        one_line = λ i. ground arith;
      })
      (noise_line (ground arith) refl nil))

lookup-parse_records_example :
    found_in numbers print
      (codes "BenchmarkA-1")
      (parse_runner_benchmark_records numbers (print_lines numbers print output))
    ≡ expected numbers print (codes "BenchmarkA-1") output none
lookup-parse_records_example =
    lookup-parse_records numbers print reads (codes "BenchmarkA-1") output output-AllPrintable
