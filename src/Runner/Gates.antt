-- ===== src/Runner/Gates.antt =====
-- tools/runner.go: the commands quality, quality-baseline and quality-trend, on the gates of
-- Runner.Quality.
pub mod Retry
pub mod Trend
pub mod Tests
use go_grpcbridge.Base.{
  ℕ, zero, suc, Bool, ◌||◌, Option, none, some, List, [], ◌∷◌, ◌⊎◌, inl, inr, if◌then◌else◌, Text,
  codes, eq_text, trim_space, contains, Dict, lookup, insert, map,
}
use go_grpcbridge.Runner.{
  Effect, capture, make_directory, read_file, write_file, wait, Reply, gives, fails, absent,
  Machine, RunnerError, failed, coverage_too_low, cancelled, race_failed, json_failed,
  benchmark_missing, Done, Run, return, raise, ◌>>=◌, ◌>>◌, join, process, perform, obtain,
  handle_process,
}
use go_grpcbridge.Runner.Commands.{handle_runner_lint}
use go_grpcbridge.Runner.Benchmarks.{
  Floats, BenchmarkRecord, new_record, parse_runner_benchmark_records,
}
use go_grpcbridge.Runner.Quality.{
  lift, or_raise, raise_if, go_output, benchmark_effect, build_runner_coverage_percent, GateResult,
  build_runner_benchmark_gate_result,
}

-- The coverage run without the race detector.
abbrev pub plain_coverage : List Text
plain_coverage =
    map codes ("test" ∷ "./pkg/..." ∷ "-coverprofile=coverage.txt" ∷ "-covermode=atomic" ∷ [])

-- isRunnerRaceToolchainIssue; strings.ToLower is an argument.
pub is_race_toolchain_issue : (Text → Text) → Text → Bool
is_race_toolchain_issue to_lower output =
    let lower = to_lower output in
    contains lower (codes "requires cgo")
    || contains lower (codes "c compiler")
    || contains lower (codes "gcc")
    || contains lower (codes "clang")

-- The race run that handleRunnerQualityTest starts.
abbrev race_effect : Machine → Effect
race_effect m = capture (
    process m m.root ((codes "CGO_ENABLED", codes "1") ∷ []) (codes "go") (
      map codes
        ("test" ∷ "./pkg/..." ∷ "-race" ∷ "-coverprofile=coverage.txt" ∷ "-covermode=atomic" ∷ [])))

-- What follows a race run that failed with this output.
pub after_race : (Text → Text) → Machine → Text → Run Done
unfolding is_race_toolchain_issue
after_race to_lower m output =
    if is_race_toolchain_issue to_lower output
    then (if eq_text (m.getenv (codes "RUNNER_STRICT_RACE")) (codes "1")
        then raise race_failed
        else handle_process m (codes "go") plain_coverage)
    else raise (failed (race_effect m))

-- handleRunnerQualityTest.
pub handle_runner_quality_test : (Text → Text) → Machine → Run Done
unfolding after_race
handle_runner_quality_test to_lower m t =
    if eq_text (m.getenv (codes "RUNNER_QUALITY_SKIP_RACE")) (codes "1")
    then handle_process m (codes "go") plain_coverage t
    else elim (m.reply t (race_effect m)) [
      | gives output ↦ (inr tt, race_effect m ∷ t)
      | fails output ↦ after_race to_lower m output (race_effect m ∷ t)
      | absent ↦ after_race to_lower m [] (race_effect m ∷ t)
    ]

module _ (F : Floats) where
  -- One round of the loop of buildRunnerBenchmarkGateResultWithRetry.
  pub attempt : Machine → Run (GateResult F)
  attempt m = do
    output ← obtain m (benchmark_effect m)
    records ← lift (parse_runner_benchmark_records F output)
    lift (build_runner_benchmark_gate_result F records)

  -- The loop, with the retries that are left; a wait that fails is a context that is done.
  pub attempts : ℕ → Machine → Run (GateResult F)
  unfolding attempt
  attempts zero m t = attempt m t
  attempts (suc n) m t =
      let (r, t') = attempt m t in
      elim r [
        | inr g ↦ (inr g, t')
        | inl e ↦ elim (m.reply t' wait) [
          | gives _ ↦ attempts n m (wait ∷ t')
          | fails _ ↦ (inl cancelled, wait ∷ t')
          | absent ↦ (inl cancelled, wait ∷ t')
        ]
      ]

  -- buildRunnerBenchmarkGateResultWithRetry: getRunnerBenchmarkGateAttempts is 2.
  pub gate_result_with_retry : Machine → Run (GateResult F)
  unfolding attempts
  gate_result_with_retry m = attempts 1 m

  -- storeRunnerBenchmarkSnapshot, less the instant and the platform that are only written down.
  pub record Snapshot : Type 0 where
    pub generated_at : Text
    pub go_version : Text
    pub benchmarks : Dict (BenchmarkRecord F)

  -- storeRunnerBenchmarkTrendRecord.
  pub record TrendRecord : Type 0 where
    pub name : Text
    pub ns_delta : F.Number
    pub bytes_delta : F.Number
    pub allocs_delta : F.Number
    pub kilobytes_delta : F.Number

  -- encoding/json, with the instant of the call; sort.Strings on the keys of a map.
  pub record Json : Type 0 where
    pub print_summary : F.Number → GateResult F → Option Text
    pub print_snapshot : Text → Dict (BenchmarkRecord F) → Option Text
    pub parse_snapshot : Text → Option Snapshot
    pub print_trend : Snapshot → Text → Dict TrendRecord → Option Text
    pub sorted_names : Dict (BenchmarkRecord F) → List Text

  abbrev store : Machine → Text → Text → Option Text → Run Done
  store m directory name contents = do
    text ← or_raise contents json_failed
    perform m (make_directory (join m.root directory))
    perform m (write_file (join m.root (name)) text)

  -- storeRunnerQualitySummary.
  pub store_runner_quality_summary : Json → Machine → F.Number → GateResult F → Run Done
  store_runner_quality_summary j m percent g =
      store m (codes "bin/quality") (codes "bin/quality/summary.json") (j.print_summary percent g)

  -- handleRunnerQuality.
  pub handle_runner_quality : (Text → Text) → Json → Machine → Run Done
  unfolding handle_runner_quality_test gate_result_with_retry store_runner_quality_summary
  handle_runner_quality to_lower j m = do
    handle_runner_lint m
    handle_runner_quality_test to_lower m
    percent ← build_runner_coverage_percent F m
    raise_if (F.lt percent (F.of_ℕ 90)) coverage_too_low
    handle_process m (codes "go") (map codes ("test" ∷ "./..." ∷ "-run" ∷ "^$" ∷ []))
    g ← gate_result_with_retry m
    store_runner_quality_summary j m percent g

  -- buildRunnerBenchmarkOutput, and its records.
  abbrev benchmark_records : Machine → Run (Dict (BenchmarkRecord F))
  benchmark_records m = do
    output ← obtain m (benchmark_effect m)
    lift (parse_runner_benchmark_records F output)

  -- getRunnerGoVersion.
  pub get_runner_go_version : Machine → Run Text
  get_runner_go_version m = do
    output ← obtain m (go_output m (codes "version" ∷ []))
    return (trim_space output)

  abbrev baseline_path : Machine → Text
  baseline_path m = join m.root (codes "benchmarks/quality_baseline.json")

  -- storeRunnerQualityBaseline.
  pub store_runner_quality_baseline : Json → Machine → Run Done
  unfolding get_runner_go_version
  store_runner_quality_baseline j m = do
    records ← benchmark_records m
    version ← get_runner_go_version m
    text ← or_raise (j.print_snapshot version records) json_failed
    perform m (write_file (baseline_path m) text)

  -- buildRunnerPercentDelta.
  pub build_runner_percent_delta : F.Number → F.Number → F.Number
  build_runner_percent_delta baseline current =
      if F.eq baseline (F.of_ℕ 0)
      then (if F.eq current (F.of_ℕ 0) then F.of_ℕ 0 else F.of_ℕ 100)
      else F.mul (F.div (F.sub current baseline) baseline) (F.of_ℕ 100)

  pub trend_record : Text → BenchmarkRecord F → BenchmarkRecord F → TrendRecord
  unfolding build_runner_percent_delta
  trend_record name old new = record {
    name = name;
    ns_delta = build_runner_percent_delta old.ns_per_op new.ns_per_op;
    bytes_delta = build_runner_percent_delta old.bytes_per_op new.bytes_per_op;
    allocs_delta = build_runner_percent_delta old.allocs_per_op new.allocs_per_op;
    kilobytes_delta = build_runner_percent_delta old.kilobytes_per_op new.kilobytes_per_op;
  }

  -- A missing key reads as the zero record.
  abbrev pub baseline_or_zero : Option (BenchmarkRecord F) → BenchmarkRecord F
  baseline_or_zero none = new_record F []
  baseline_or_zero (some r) = r

  -- The loop of handleRunnerQualityTrend over the names of the baseline, and the map that it fills.
  pub trend_records :
      List Text
      → Dict (BenchmarkRecord F)
      → Dict (BenchmarkRecord F)
      → Dict TrendRecord
      → RunnerError ⊎ Dict TrendRecord
  unfolding trend_record
  trend_records [] old new trends = inr trends
  trend_records (name ∷ names) old new trends = elim (lookup name new) [
    | none ↦ inl (benchmark_missing name)
    | some current ↦
        trend_records names old new
          (insert name (trend_record name (baseline_or_zero (lookup name old)) current) trends)
  ]

  -- handleRunnerQualityTrend, with storeRunnerBenchmarkTrendReport.
  pub handle_runner_quality_trend : Json → Machine → Run Done
  unfolding get_runner_go_version trend_records
  handle_runner_quality_trend j m = do
    contents ← obtain m (read_file (baseline_path m))
    baseline ← or_raise (j.parse_snapshot contents) json_failed
    current ← benchmark_records m
    version ← get_runner_go_version m
    trends ←
        lift (trend_records (j.sorted_names baseline.benchmarks) baseline.benchmarks current [])
    store m (codes "bin/quality") (codes "bin/quality/trend.json")
        (j.print_trend baseline version trends)
