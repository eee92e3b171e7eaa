-- ===== src/Runner/Quality/Laws.antt =====
-- When the benchmark gate of tools/runner.go passes.
use mathlib.Core.Option.{bind}
use go_grpcbridge.Base.{
  true, false, some, inl, inr, ◌≡◌, ◌↔◌, arith, codes, Dict, lookup, Option-cases,
}
use go_grpcbridge.Runner.Benchmarks.{Floats, BenchmarkRecord}
use go_grpcbridge.Runner.Quality.{
  GateInput, gate_input, GateResult, check_gate, check_savings, build_runner_benchmark_gate_result,
}

module _ (F : Floats) where
  -- The six records of the gate are among the records.
  pub record Finds (records : Dict (BenchmarkRecord F)) (i : GateInput F) : Type 0 where
    pub grpc_payload :
        lookup (codes "BenchmarkGRPC_PayloadSize_1000Items") records ≡ some i.grpc_payload
    pub rest_payload :
        lookup (codes "BenchmarkREST_PayloadSize_1000Items") records ≡ some i.rest_payload
    pub grpc_bidi :
        lookup (codes "BenchmarkGRPC_BidirectionalStream_100Messages") records ≡ some i.grpc_bidi
    pub rest_bidi :
        lookup (codes "BenchmarkREST_Bidirectional_100Messages") records ≡ some i.rest_bidi
    pub grpc_large :
        lookup (codes "BenchmarkGRPC_StreamLargeDataset_1000Items") records ≡ some i.grpc_large
    pub rest_large :
        lookup (codes "BenchmarkREST_LargeDataset_1000Items") records ≡ some i.rest_large

  -- What of the second number the first one saves, in percent.
  pub IsSaved : F.Number → F.Number → F.Number → Type 0
  IsSaved used of x = x ≡ F.mul (F.sub (F.of_ℕ 1) (F.div used of)) (F.of_ℕ 100)

  abbrev pub IsPositive : F.Number → Type 0
  IsPositive x = F.le x (F.of_ℕ 0) ≡ false

  abbrev pub IsAtLeast : F.Number → F.Number → Type 0
  IsAtLeast x limit = F.lt x limit ≡ false

  -- The savings that the records show, none of them below its threshold.
  pub record ShowsSavings (i : GateInput F) (g : GateResult F) : Type 0 where
    pub grpc_metric : i.grpc_payload.has_kilobytes_metric ≡ true
    pub rest_metric : i.rest_payload.has_kilobytes_metric ≡ true
    pub payload_divides : IsPositive i.rest_payload.kilobytes_per_op
    pub memory_divides : IsPositive i.rest_bidi.bytes_per_op
    pub allocs_divides : IsPositive i.rest_bidi.allocs_per_op
    pub large_divides : IsPositive i.rest_large.bytes_per_op
    pub payload : IsSaved i.grpc_payload.kilobytes_per_op i.rest_payload.kilobytes_per_op g.payload
    pub bidi_memory : IsSaved i.grpc_bidi.bytes_per_op i.rest_bidi.bytes_per_op g.bidi_memory
    pub bidi_allocs : IsSaved i.grpc_bidi.allocs_per_op i.rest_bidi.allocs_per_op g.bidi_allocs
    pub large_memory : IsSaved i.grpc_large.bytes_per_op i.rest_large.bytes_per_op g.large_memory
    pub payload_enough : IsAtLeast g.payload (F.of_ℕ 15)
    pub memory_enough : IsAtLeast g.bidi_memory (F.of_ℕ 40)
    pub allocs_enough : IsAtLeast g.bidi_allocs (F.of_ℕ 30)

  gate_input_iff :
      (records : Dict (BenchmarkRecord F)) (i : GateInput F)
      → (gate_input F records ≡ some i) ↔ Finds records i
  unfolding gate_input bind
  gate_input_iff records i = (
    λ h. ground arith,
    λ f. ground (
      arith, f.grpc_payload, f.rest_payload, f.grpc_bidi, f.rest_bidi, f.grpc_large, f.rest_large,
    ),
  )

  check_gate_iff :
      (i : GateInput F) (g : GateResult F) → (check_gate F i ≡ inr g) ↔ ShowsSavings i g
  unfolding check_gate check_savings IsSaved
  check_gate_iff i g = (λ h. ground arith, λ s. ground arith)

  -- The benchmark gate passes with a result exactly when the six benchmarks that it compares have
  -- records, both payload records have the metric, none of the four numbers it divides by is zero
  -- or less, the result is the savings in percent of each pair, and the payload saves at least 15,
  -- the memory 40 and the allocations 30.
  pub build_runner_benchmark_gate_result_iff :
      (records : Dict (BenchmarkRecord F)) (g : GateResult F)
      → (build_runner_benchmark_gate_result F records ≡ inr g)
        ↔ ((i : GateInput F) × Finds records i × ShowsSavings i g)
  unfolding build_runner_benchmark_gate_result
  build_runner_benchmark_gate_result_iff records g = (
    λ h. elim (Option-cases (gate_input F records)) [
      | inl missing ↦ absurd (ground (arith, missing))
      | inr (i, found) ↦
          (i, (gate_input_iff records i).0 found, (check_gate_iff i g).0 (ground (arith, found)))
    ],
    λ (i, finds, shows).
        ground (arith, (gate_input_iff records i).1 finds, (check_gate_iff i g).1 shows),
  )
