-- ===== src/Runner/Quality/Tests.antt =====
-- The gates at the sample output.
use go_grpcbridge.Base.{
  ◌++◌, [], ◌∷◌, if◌then◌else◌, eq_text, cut_prefix, ◌≡◌, ◌↔◌, refl, some, inr, Dict, Text, codes,
}
use go_grpcbridge.Runner.{Effect, capture, Process, Reply, gives, History, Machine}
use go_grpcbridge.Runner.Benchmarks.{BenchmarkRecord}
use go_grpcbridge.Runner.Benchmarks.Roundtrip.{record_of}
use go_grpcbridge.Runner.Benchmarks.Samples.{
  sample, sample_output, grpc_payload, rest_payload, grpc_bidi, rest_bidi, grpc_large, rest_large,
}
use go_grpcbridge.Runner.Benchmarks.Tests.{numbers, print}
use go_grpcbridge.Runner.Quality.Laws.{Finds, ShowsSavings, build_runner_benchmark_gate_result_iff}
use go_grpcbridge.Runner.Quality.{
  GateInput, GateResult, check_gate, find_coverage, build_runner_benchmark_gate_result,
}

abbrev sample_input : GateInput numbers
sample_input = record {
  grpc_payload = record_of numbers print (sample grpc_payload 0);
  rest_payload = record_of numbers print (sample rest_payload 1);
  grpc_bidi = record_of numbers print (sample grpc_bidi 0);
  rest_bidi = record_of numbers print (sample rest_bidi 1);
  grpc_large = record_of numbers print (sample grpc_large 0);
  rest_large = record_of numbers print (sample rest_large 1);
}

abbrev pub sample_gate : GateResult numbers
sample_gate = record { payload = 100; bidi_memory = 100; bidi_allocs = 100; large_memory = 100 }

-- The records of the six benchmarks.
abbrev sample_records : Dict (BenchmarkRecord numbers)
sample_records =
    (codes "BenchmarkGRPC_PayloadSize_1000Items", sample_input.grpc_payload)
    ∷ (codes "BenchmarkREST_PayloadSize_1000Items", sample_input.rest_payload)
    ∷ (codes "BenchmarkGRPC_BidirectionalStream_100Messages", sample_input.grpc_bidi)
    ∷ (codes "BenchmarkREST_Bidirectional_100Messages", sample_input.rest_bidi)
    ∷ (codes "BenchmarkGRPC_StreamLargeDataset_1000Items", sample_input.grpc_large)
    ∷ (codes "BenchmarkREST_LargeDataset_1000Items", sample_input.rest_large)
    ∷ []

build_runner_benchmark_gate_result_iff_example :
    (build_runner_benchmark_gate_result numbers sample_records ≡ inr sample_gate) ↔ (
      (i : GateInput numbers) × Finds numbers sample_records i × ShowsSavings numbers i sample_gate)
build_runner_benchmark_gate_result_iff_example =
    build_runner_benchmark_gate_result_iff numbers sample_records sample_gate

passes_check : check_gate numbers sample_input ≡ inr sample_gate
unfolding check_gate
passes_check = refl

-- Ninety, as the numbers of the samples are written.
abbrev ninety : Text
ninety =
    codes
      "1111111111111111111111111111111111111111111111111111111111111111111111111111111111111111111"

abbrev pub coverage_output : Text
coverage_output = codes "total: (statements) " ++ ninety ++ codes "%"

finds_coverage : find_coverage coverage_output ≡ some ninety
unfolding find_coverage cut_prefix mathlib.Core.Option.bind
finds_coverage = refl

parses_ninety : numbers.parse ninety ≡ some 90
parses_ninety = refl

-- A machine that reports the coverage and the benchmarks of the samples.
abbrev output_of : Process → Text
output_of p = elim p.args [
  | [] ↦ []
  | (arg ∷ args) ↦ if eq_text arg (codes "tool") then coverage_output else sample_output
]

abbrev answers : History → Effect → Reply
answers t (capture p) = gives (output_of p)
answers t _ = gives []

abbrev pub sample_machine : Machine
sample_machine = record { reply = answers; getenv = λ name. []; environ = []; root = codes "/repo" }
