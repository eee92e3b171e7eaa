-- ===== src/Runner/Benchmarks.antt =====
-- tools/runner.go: the parser of benchmark output, and the gate on what it gives. A float64 and its
-- operations are an argument.
pub mod Fields
pub mod Names
pub mod Roundtrip
pub mod Samples
pub mod Tests
use mathlib.Core.List.{reverse}
use go_grpcbridge.Base.{
  ℕ, Bool, true, false, not, ◌&&◌, ◌||◌, Option, none, some, List, [], ◌∷◌, ◌++◌, ◌⊎◌, inl, inr,
  if◌then◌else◌, leb, ltb, ◌==◌, Text, codes, eq_text, is_space, trim_space, has_prefix, drop,
  length, Dict, lookup, insert,
}
use go_grpcbridge.Runner.{
  RunnerError, no_benchmarks, benchmarks_missing, payload_metric_missing, denominator_invalid,
  savings_too_small,
}

-- float64, and strconv.ParseFloat.
pub record Floats : Type 1 where
  pub Number : Type 0
  pub of_ℕ : ℕ → Number
  pub parse : Text → Option Number
  pub sub : Number → Number → Number
  pub mul : Number → Number → Number
  pub div : Number → Number → Number
  pub lt : Number → Number → Bool
  pub le : Number → Number → Bool
  pub eq : Number → Number → Bool

abbrev flush : Text → List Text → List Text
flush [] ws = ws
flush (c ∷ w) ws = (c ∷ w) ∷ ws

-- The word that a text begins with, if any, and those that follow it.
pub split_words : Text → Text × List Text
split_words [] = ([], [])
split_words (c ∷ s) =
    let (w, ws) = split_words s in if is_space c then ([], flush w ws) else (c ∷ w, ws)

-- strings.Fields.
pub fields : Text → List Text
unfolding split_words
fields s = let (w, ws) = split_words s in flush w ws

-- strings.Split at line breaks: the first line, and those that follow it.
pub split_lines : Text → Text × List Text
split_lines [] = ([], [])
split_lines (c ∷ s) =
    let (line, lines) = split_lines s in if c == 10 then ([], line ∷ lines) else (c ∷ line, lines)

-- What precedes `-` and a number, in a text read from its end.
pub before_number : Bool → Text → Option Text
before_number seen [] = none
before_number seen (c ∷ s) =
    let rest = before_number true s in
    if leb 48 c && leb c 57 then rest else if seen && c == 45 then some s else none

-- parseRunnerBenchmarkName.
pub parse_runner_benchmark_name : Text → Text
unfolding before_number
parse_runner_benchmark_name name = elim (before_number false (reverse name)) [
  | none ↦ name
  | some s ↦ reverse s
]

module _ (F : Floats) where
  -- storeRunnerBenchmarkRecord.
  pub record BenchmarkRecord : Type 0 where
    pub name : Text
    pub ns_per_op : F.Number
    pub bytes_per_op : F.Number
    pub allocs_per_op : F.Number
    pub kilobytes_per_op : F.Number
    pub has_kilobytes_metric : Bool

  -- The switch on the unit of a metric.
  pub store_metric : Text → F.Number → BenchmarkRecord → BenchmarkRecord
  store_metric unit x r =
      if eq_text unit (codes "ns/op")
      then record r { ns_per_op = x }
      else if eq_text unit (codes "B/op")
      then record r { bytes_per_op = x }
      else if eq_text unit (codes "allocs/op")
      then record r { allocs_per_op = x }
      else if eq_text unit (codes "KB/op")
      then record r { kilobytes_per_op = x; has_kilobytes_metric = true }
      else r

  -- The loop over the metrics of a line: a value, then its unit.
  pub parse_metrics : List Text → BenchmarkRecord → BenchmarkRecord
  unfolding store_metric
  parse_metrics (value ∷ unit ∷ words) r = elim (F.parse value) [
    | none ↦ parse_metrics words r
    | some x ↦ parse_metrics words (store_metric unit x r)
  ]
  parse_metrics _ r = r

  abbrev pub new_record : Text → BenchmarkRecord
  new_record name = record {
    name = name;
    ns_per_op = F.of_ℕ 0;
    bytes_per_op = F.of_ℕ 0;
    allocs_per_op = F.of_ℕ 0;
    kilobytes_per_op = F.of_ℕ 0;
    has_kilobytes_metric = false;
  }

  pub parse_words : List Text → Dict BenchmarkRecord → Dict BenchmarkRecord
  unfolding parse_metrics parse_runner_benchmark_name
  parse_words [] m = m
  parse_words (word ∷ words) m =
      let name = parse_runner_benchmark_name word in
      if ltb (length (word ∷ words)) 8
      then m
      else insert name (parse_metrics (drop 1 words) (new_record name)) m

  -- The body of the loop over the lines.
  pub parse_line : Text → Dict BenchmarkRecord → Dict BenchmarkRecord
  unfolding parse_words fields
  parse_line line m =
      if has_prefix (trim_space line) (codes "Benchmark")
      then parse_words (fields (trim_space line)) m
      else m

  pub parse_lines : List Text → Dict BenchmarkRecord → Dict BenchmarkRecord
  unfolding parse_line
  parse_lines [] m = m
  parse_lines (line ∷ lines) m = parse_lines lines (parse_line line m)

  abbrev records_or_error : Dict BenchmarkRecord → RunnerError ⊎ Dict BenchmarkRecord
  records_or_error [] = inl no_benchmarks
  records_or_error (r ∷ m) = inr (r ∷ m)

  -- parseRunnerBenchmarkRecords.
  pub parse_runner_benchmark_records : Text → RunnerError ⊎ Dict BenchmarkRecord
  unfolding parse_lines split_lines
  parse_runner_benchmark_records output =
      let (line, lines) = split_lines output in records_or_error (parse_lines (line ∷ lines) [])
