-- ===== src/Runner/Gates/Tests.antt =====
-- The loop of the benchmark gate on a machine that answers, and a comparison with a baseline.
use go_grpcbridge.Base.{◌≡◌, arith, some, none, [], ◌∷◌, ◌⊎◌, inl, inr, Text, codes, lookup, Dict}
use go_grpcbridge.Runner.{benchmark_missing}
use go_grpcbridge.Runner.Benchmarks.{new_record, BenchmarkRecord}
use go_grpcbridge.Runner.Benchmarks.Tests.{numbers}
use go_grpcbridge.Runner.Gates.{TrendRecord, trend_records}
use go_grpcbridge.Runner.Gates.Trend.{has_name, NamesOf, Reports, trend_records-cases}

abbrev one_record : Dict (BenchmarkRecord numbers)
one_record = (codes "A", new_record numbers (codes "A")) ∷ []

named : NamesOf numbers (codes "A" ∷ []) one_record
unfolding has_name lookup
named key = ground arith

trend_records-cases_example :
    ((name : Text) × ((baseline : BenchmarkRecord numbers) × (lookup name one_record
          ≡ some baseline))
      × (lookup name one_record ≡ none)
      × (trend_records numbers (codes "A" ∷ []) one_record one_record []
          ≡ inl (benchmark_missing name)))
    ⊎ ((trends : Dict (TrendRecord numbers)) × (trend_records numbers
            (codes "A" ∷ [])
            one_record
            one_record
            []
          ≡ inr trends)
        × Reports numbers
            (codes "A")
            (lookup (codes "A") one_record)
            (lookup (codes "A") one_record)
            (lookup (codes "A") trends))
trend_records-cases_example =
    trend_records-cases numbers (codes "A") (codes "A" ∷ []) one_record one_record named
