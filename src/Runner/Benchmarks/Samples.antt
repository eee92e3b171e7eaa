-- ===== src/Runner/Benchmarks/Samples.antt =====
-- The output of a benchmark run that passes the gate, with what is parsed of it.
use go_grpcbridge.Base.{
  ℕ, ◌≡◌, refl, arith, true, Option, some, none, List, [], ◌∷◌, ◌++◌, inl, inr, ◌⊎◌, Text, codes,
  Dict, lookup, has_prefix, is_space,
}
use go_grpcbridge.Runner.{RunnerError}
use go_grpcbridge.Runner.Laws.{Sum-cases}
use go_grpcbridge.Runner.Benchmarks.{BenchmarkRecord, parse_runner_benchmark_records}
use go_grpcbridge.Runner.Benchmarks.Fields.{IsWord}
use go_grpcbridge.Runner.Benchmarks.Roundtrip.{
  Result, IsPrintable, Line, result, AllPrintable, nil, result_line, print_lines, record_of,
  expected, found_in, lookup-parse_records,
}
use go_grpcbridge.Runner.Benchmarks.Tests.{numbers, print, reads}

abbrev pub sample : Text → ℕ → Result numbers print
sample name cost = record {
  name = name;
  cpus = codes "8";
  iterations = codes "1";
  ns = 0;
  kilobytes = some cost;
  bytes = cost;
  allocs = cost;
  gap = λ i. 32 ∷ [];
}

sample-IsPrintable :
    (name : Text) (cost : ℕ)
    → has_prefix name (codes "Benchmark") ≡ true
    → IsWord (name ++ 45 ∷ 56 ∷ [])
    → IsPrintable numbers print (sample name cost)
unfolding is_space
sample-IsPrintable name cost starts word = record {
  benchmark = starts;
  first_word = word;
  has_cpus = λ e. ground arith;
  digits = ground arith;
  counted = record { nonempty = λ e. ground arith; no_blank = ground arith };
  gaps = λ i. record { nonempty = λ e. ground arith; blank = ground arith };
  one_line = λ i. ground arith;
}

abbrev pub grpc_payload : Text
grpc_payload = codes "BenchmarkGRPC_PayloadSize_1000Items"

abbrev pub rest_payload : Text
rest_payload = codes "BenchmarkREST_PayloadSize_1000Items"

abbrev pub grpc_bidi : Text
grpc_bidi = codes "BenchmarkGRPC_BidirectionalStream_100Messages"

abbrev pub rest_bidi : Text
rest_bidi = codes "BenchmarkREST_Bidirectional_100Messages"

abbrev pub grpc_large : Text
grpc_large = codes "BenchmarkGRPC_StreamLargeDataset_1000Items"

abbrev pub rest_large : Text
rest_large = codes "BenchmarkREST_LargeDataset_1000Items"

abbrev pub sample_lines : List (Line numbers print)
sample_lines =
    result (sample grpc_payload 0)
    ∷ result (sample rest_payload 1)
    ∷ result (sample grpc_bidi 0)
    ∷ result (sample rest_bidi 1)
    ∷ result (sample grpc_large 0)
    ∷ result (sample rest_large 1)
    ∷ []

abbrev pub sample_output : Text
sample_output = print_lines numbers print sample_lines

grpc_payload-IsPrintable : IsPrintable numbers print (sample grpc_payload 0)
unfolding is_space has_prefix
grpc_payload-IsPrintable =
    sample-IsPrintable grpc_payload 0 refl
      (record { nonempty = λ e. ground arith; no_blank = ground arith })

rest_payload-IsPrintable : IsPrintable numbers print (sample rest_payload 1)
unfolding is_space has_prefix
rest_payload-IsPrintable =
    sample-IsPrintable rest_payload 1 refl
      (record { nonempty = λ e. ground arith; no_blank = ground arith })

grpc_bidi-IsPrintable : IsPrintable numbers print (sample grpc_bidi 0)
unfolding is_space has_prefix
grpc_bidi-IsPrintable =
    sample-IsPrintable grpc_bidi 0 refl
      (record { nonempty = λ e. ground arith; no_blank = ground arith })

rest_bidi-IsPrintable : IsPrintable numbers print (sample rest_bidi 1)
unfolding is_space has_prefix
rest_bidi-IsPrintable =
    sample-IsPrintable rest_bidi 1 refl
      (record { nonempty = λ e. ground arith; no_blank = ground arith })

grpc_large-IsPrintable : IsPrintable numbers print (sample grpc_large 0)
unfolding is_space has_prefix
grpc_large-IsPrintable =
    sample-IsPrintable grpc_large 0 refl
      (record { nonempty = λ e. ground arith; no_blank = ground arith })

rest_large-IsPrintable : IsPrintable numbers print (sample rest_large 1)
unfolding is_space has_prefix
rest_large-IsPrintable =
    sample-IsPrintable rest_large 1 refl
      (record { nonempty = λ e. ground arith; no_blank = ground arith })

sample_lines-AllPrintable : AllPrintable numbers print sample_lines
sample_lines-AllPrintable = result_line grpc_payload-IsPrintable (
    result_line rest_payload-IsPrintable (
      result_line grpc_bidi-IsPrintable (
        result_line rest_bidi-IsPrintable
          (result_line grpc_large-IsPrintable (result_line rest_large-IsPrintable nil)))))

found :
    (key : Text)
    → found_in numbers print key (parse_runner_benchmark_records numbers sample_output)
      ≡ expected numbers print key sample_lines none
found key = lookup-parse_records numbers print reads key sample_lines sample_lines-AllPrintable

-- The records that the gate reads, by their names.
pub record AreSampled (m : Dict (BenchmarkRecord numbers)) : Type 0 where
  pub grpc_payload_found :
      lookup grpc_payload m ≡ some (record_of numbers print (sample grpc_payload 0))
  pub rest_payload_found :
      lookup rest_payload m ≡ some (record_of numbers print (sample rest_payload 1))
  pub grpc_bidi_found : lookup grpc_bidi m ≡ some (record_of numbers print (sample grpc_bidi 0))
  pub rest_bidi_found : lookup rest_bidi m ≡ some (record_of numbers print (sample rest_bidi 1))
  pub grpc_large_found : lookup grpc_large m ≡ some (record_of numbers print (sample grpc_large 0))
  pub rest_large_found : lookup rest_large m ≡ some (record_of numbers print (sample rest_large 1))

in_records :
    (key : Text) (r : RunnerError ⊎ Dict (BenchmarkRecord numbers))
    (m : Dict (BenchmarkRecord numbers)) (x : Option (BenchmarkRecord numbers))
    → r ≡ inr m
    → found_in numbers print key r ≡ x
    → lookup key m ≡ x
in_records key r m x e h = ground (arith, e, h)

no_error :
    (r : RunnerError ⊎ Dict (BenchmarkRecord numbers)) (e : RunnerError) (key : Text)
    (x : BenchmarkRecord numbers)
    → r ≡ inl e
    → found_in numbers print key r ≡ some x
    → ⊥
no_error r e key x h k = ground (arith, h, k)

pub sampled :
    (m : Dict (BenchmarkRecord numbers)) × (parse_runner_benchmark_records numbers sample_output
      ≡ inr m)
    × AreSampled m
unfolding expected
sampled = elim (Sum-cases (parse_runner_benchmark_records numbers sample_output)) [
  | inl (e, stopped) ↦ absurd (no_error _ e grpc_payload _ stopped (found grpc_payload))
  | inr (m, parsed) ↦ (
    m,
    parsed,
    record {
      grpc_payload_found = in_records grpc_payload _ m _ parsed (found grpc_payload);
      rest_payload_found = in_records rest_payload _ m _ parsed (found rest_payload);
      grpc_bidi_found = in_records grpc_bidi _ m _ parsed (found grpc_bidi);
      rest_bidi_found = in_records rest_bidi _ m _ parsed (found rest_bidi);
      grpc_large_found = in_records grpc_large _ m _ parsed (found grpc_large);
      rest_large_found = in_records rest_large _ m _ parsed (found rest_large);
    },
  )
]
