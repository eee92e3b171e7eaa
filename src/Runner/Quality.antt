-- ===== src/Runner/Quality.antt =====
-- tools/runner.go: the quality gates on coverage and benchmarks. encoding/json, sort.Strings and the
-- clock are arguments.
pub mod Laws
pub mod Tests
use mathlib.Core.Option.{bind}
use go_grpcbridge.Base.{
  ℕ, zero, suc, Bool, true, false, not, ◌&&◌, ◌||◌, Option, none, some, List, [], ◌∷◌, ◌++◌, ◌⊎◌,
  inl, inr, if◌then◌else◌, leb, ◌==◌, Text, codes, eq_text, cut_prefix, Dict, lookup, map,
}
use go_grpcbridge.Runner.{
  Effect, execute, capture, make_directory, write_file, wait, Reply, gives, fails, absent, History,
  Machine, RunnerError, failed, coverage_missing, coverage_invalid, coverage_too_low,
  benchmarks_missing, payload_metric_missing, denominator_invalid, savings_too_small, cancelled,
  Done, Run, return, raise, ◌>>=◌, ◌>>◌, join, process, perform, obtain, handle_process,
}
use go_grpcbridge.Runner.Commands.{handle_runner_lint}
use go_grpcbridge.Runner.Benchmarks.{Floats, BenchmarkRecord, parse_runner_benchmark_records}

-- `\s` of package regexp.
abbrev pub is_pattern_space : ℕ → Bool
is_pattern_space c = c == 9 || c == 10 || c == 12 || c == 13 || c == 32

skip_spaces : Text → Text
skip_spaces [] = []
skip_spaces (c ∷ s) = if is_pattern_space c then skip_spaces s else c ∷ s

-- `\s+`: what follows.
unfoldable pub some_spaces : Text → Option Text
unfolding skip_spaces
some_spaces [] = none
some_spaces (c ∷ s) = if is_pattern_space c then some (skip_spaces s) else none

-- `[0-9.]*`, and what follows.
number_and_rest : Text → Text × Text
number_and_rest [] = ([], [])
number_and_rest (c ∷ s) =
    let (number, rest) = number_and_rest s in
    if (leb 48 c && leb c 57) || c == 46 then (c ∷ number, rest) else ([], c ∷ s)

abbrev before_percent : Text × Text → Option Text
before_percent (c ∷ number, d ∷ rest) = if d == 37 then some (c ∷ number) else none
before_percent _ = none

-- `total:\s+\(statements\)\s+([0-9.]+)%` at the head of a text.
pub match_coverage : Text → Option Text
unfolding some_spaces number_and_rest
match_coverage s = bind (cut_prefix s (codes "total:")) λ a. bind (some_spaces a) λ b.
    bind (cut_prefix b (codes "(statements)"))
      λ c. bind (some_spaces c) λ d. before_percent (number_and_rest d)

-- Its first match.
pub find_coverage : Text → Option Text
unfolding match_coverage
find_coverage [] = match_coverage []
find_coverage (c ∷ s) =
    let later = find_coverage s in
    elim (match_coverage (c ∷ s)) [ some number ↦ some number | none ↦ later ]

abbrev pub lift : {A : Type 0} → RunnerError ⊎ A → Run A
lift r t = (r, t)

abbrev pub or_raise : {A : Type 0} → Option A → RunnerError → Run A
or_raise none e = raise e
or_raise (some a) e = return a

abbrev pub raise_if : Bool → RunnerError → Run Done
raise_if true e = raise e
raise_if false e = return tt

abbrev pub go_output : Machine → List Text → Effect
go_output m args = capture (process m m.root [] (codes "go") args)

abbrev pub cover_effect : Machine → Effect
cover_effect m = go_output m (map codes ("tool" ∷ "cover" ∷ "-func=coverage.txt" ∷ []))

abbrev pub benchmark_effect : Machine → Effect
benchmark_effect m = go_output m (
    map codes (
      "test" ∷ "./benchmarks" ∷ "-bench"
      ∷ "Benchmark(GRPC_(PayloadSize_1000Items|StreamLargeDataset_1000Items|BidirectionalStream_100Messages)|REST_(PayloadSize_1000Items|LargeDataset_1000Items|Bidirectional_100Messages))$"
      ∷ "-run" ∷ "^$" ∷ "-benchmem" ∷ "-benchtime=300ms" ∷ "-count=1" ∷ []))

module _ (F : Floats) where
  -- buildRunnerCoveragePercent.
  pub build_runner_coverage_percent : Machine → Run F.Number
  unfolding find_coverage
  build_runner_coverage_percent m = do
    output ← obtain m (cover_effect m)
    number ← or_raise (find_coverage output) coverage_missing
    or_raise (F.parse number) coverage_invalid

  -- storeRunnerBenchmarkGateResult.
  pub record GateResult : Type 0 where
    pub payload : F.Number
    pub bidi_memory : F.Number
    pub bidi_allocs : F.Number
    pub large_memory : F.Number

  -- The records that the gate reads.
  pub record GateInput : Type 0 where
    pub grpc_payload : BenchmarkRecord F
    pub rest_payload : BenchmarkRecord F
    pub grpc_bidi : BenchmarkRecord F
    pub rest_bidi : BenchmarkRecord F
    pub grpc_large : BenchmarkRecord F
    pub rest_large : BenchmarkRecord F

  pub gate_input : Dict (BenchmarkRecord F) → Option GateInput
  gate_input m = bind (lookup (codes "BenchmarkGRPC_PayloadSize_1000Items") m) λ a.
      bind (lookup (codes "BenchmarkREST_PayloadSize_1000Items") m) λ b.
        bind (lookup (codes "BenchmarkGRPC_BidirectionalStream_100Messages") m) λ c.
          bind (lookup (codes "BenchmarkREST_Bidirectional_100Messages") m) λ d.
            bind (lookup (codes "BenchmarkGRPC_StreamLargeDataset_1000Items") m) λ e.
              bind (lookup (codes "BenchmarkREST_LargeDataset_1000Items") m) λ f. some (record {
                grpc_payload = a;
                rest_payload = b;
                grpc_bidi = c;
                rest_bidi = d;
                grpc_large = e;
                rest_large = f;
              })

  -- (1.0 - a / b) * 100.
  abbrev pub savings : F.Number → F.Number → F.Number
  savings a b = F.mul (F.sub (F.of_ℕ 1) (F.div a b)) (F.of_ℕ 100)

  abbrev pub gate_result : GateInput → GateResult
  gate_result i = record {
    payload = savings i.grpc_payload.kilobytes_per_op i.rest_payload.kilobytes_per_op;
    bidi_memory = savings i.grpc_bidi.bytes_per_op i.rest_bidi.bytes_per_op;
    bidi_allocs = savings i.grpc_bidi.allocs_per_op i.rest_bidi.allocs_per_op;
    large_memory = savings i.grpc_large.bytes_per_op i.rest_large.bytes_per_op;
  }

  abbrev is_not_positive : F.Number → Bool
  is_not_positive x = F.le x (F.of_ℕ 0)

  -- The thresholds, in the order of the code.
  pub check_savings : GateResult → RunnerError ⊎ GateResult
  check_savings g =
      if F.lt g.payload (F.of_ℕ 15)
        || F.lt g.bidi_memory (F.of_ℕ 40)
        || F.lt g.bidi_allocs (F.of_ℕ 30)
      then inl savings_too_small
      else inr g

  pub check_gate : GateInput → RunnerError ⊎ GateResult
  unfolding check_savings
  check_gate i =
      if not i.grpc_payload.has_kilobytes_metric || not i.rest_payload.has_kilobytes_metric
      then inl payload_metric_missing
      else if is_not_positive i.rest_payload.kilobytes_per_op
          || is_not_positive i.rest_bidi.bytes_per_op
          || is_not_positive i.rest_bidi.allocs_per_op
          || is_not_positive i.rest_large.bytes_per_op
      then inl denominator_invalid
      else check_savings (gate_result i)

  -- buildRunnerBenchmarkGateResult.
  pub build_runner_benchmark_gate_result : Dict (BenchmarkRecord F) → RunnerError ⊎ GateResult
  unfolding gate_input check_gate
  build_runner_benchmark_gate_result m = elim (gate_input m) [
    | none ↦ inl benchmarks_missing
    | some i ↦ check_gate i
  ]
