-- ===== src/Runner/Gates/Trend.antt =====
-- The comparison with the baseline in tools/runner.go, name by name.
use mathlib.Core.Path.{subst}
use go_grpcbridge.Base.{
  Bool, true, false, ◌||◌, Option, none, some, List, [], ◌∷◌, ◌⊎◌, inl, inr, ◌≡◌, refl, arith, Text,
  eq_text, eq_text_iff, Dict, lookup, insert, lookup-insert, if◌then◌else◌, Option-cases,
  Bool-cases, ap, sym, ◌∙◌,
}
use go_grpcbridge.Runner.{RunnerError, benchmark_missing}
use go_grpcbridge.Runner.Benchmarks.{Floats, BenchmarkRecord}
use go_grpcbridge.Runner.Gates.{
  build_runner_percent_delta, TrendRecord, trend_record, trend_records, baseline_or_zero,
}

unfoldable pub has_name : Text → List Text → Bool
has_name key [] = false
has_name key (name ∷ names) = eq_text name key || has_name key names

module _ (F : Floats) where
  -- The trend of a benchmark that was run now.
  abbrev pub trend_of :
      Text → Option (BenchmarkRecord F) → Option (BenchmarkRecord F) → Option (TrendRecord F)
  trend_of name old none = none
  trend_of name old (some new) = some (trend_record F name (baseline_or_zero F old) new)

  -- A name is missing, or the trends are those of the names.
  HasTrends :
      Text
      → List Text
      → Dict (BenchmarkRecord F)
      → Dict (BenchmarkRecord F)
      → Option (TrendRecord F)
      → RunnerError ⊎ Dict (TrendRecord F)
      → Type 0
  HasTrends key names old new before result =
      ((name : Text) × (has_name name names ≡ true)
        × (lookup name new ≡ none)
        × (result ≡ inl (benchmark_missing name)))
      ⊎ ((trends : Dict (TrendRecord F)) × (result ≡ inr trends)
          × (lookup key trends ≡ (
              if has_name key names
              then trend_of key (lookup key old) (lookup key new)
              else before)))

  HasTrends-cons :
      (key name : Text) (names : List Text) (old new : Dict (BenchmarkRecord F))
      (current : BenchmarkRecord F) (before : Option (TrendRecord F))
      (result : RunnerError ⊎ Dict (TrendRecord F))
      → lookup name new ≡ some current
      → HasTrends key names old new
          (if eq_text name key
            then some (trend_record F name (baseline_or_zero F (lookup name old)) current)
            else before)
          result
      → HasTrends key (name ∷ names) old new before result
  unfolding HasTrends has_name
  HasTrends-cons key name names old new current before result here
        (inl (missing, listed, none_now, e)) =
      inl (missing, ground (arith, listed), none_now, e)
  HasTrends-cons key name names old new current before result here (inr (trends, e, found)) =
      inr (trends, e, ground (arith, found, here, eq_text_iff name key))

  trend_records-HasTrends :
      (key : Text) (names : List Text) (old new : Dict (BenchmarkRecord F))
      (trends : Dict (TrendRecord F))
      → HasTrends key names old new (lookup key trends) (trend_records F names old new trends)
  unfolding HasTrends has_name trend_records
  trend_records-HasTrends key [] old new trends = inr (trends, refl, refl)
  trend_records-HasTrends key (name ∷ names) old new trends =
      elim (Option-cases (lookup name new)) [
        | inl missing ↦
            rw (missing, trend_records)
              (inl (name, ground (arith, eq_text_iff name name), missing, refl))
        | inr (current, here) ↦
            let trend = trend_record F name (baseline_or_zero F (lookup name old)) current in
            let filled = insert name trend trends in
            let rest = trend_records-HasTrends key names old new filled in
            rw (here, trend_records)
              (HasTrends-cons key name names old new current (lookup key trends) _ here (
                subst (λ b. HasTrends key names old new b (trend_records F names old new filled))
                  (lookup-insert name key trend trends) rest))
      ]

  -- A change in percent of the old value: of zero, nothing or a hundred.
  pub data IsDelta (old new : F.Number) : F.Number → Type 0 where
    both_zero : F.eq old (F.of_ℕ 0) ≡ true → F.eq new (F.of_ℕ 0) ≡ true → IsDelta old new (F.of_ℕ 0)
    from_zero :
        F.eq old (F.of_ℕ 0) ≡ true → F.eq new (F.of_ℕ 0) ≡ false → IsDelta old new (F.of_ℕ 100)
    relative :
        F.eq old (F.of_ℕ 0) ≡ false
        → IsDelta old new (F.mul (F.div (F.sub new old) old) (F.of_ℕ 100))

  -- A trend between the record of the baseline and that of now.
  pub record IsTrend (name : Text) (old new : BenchmarkRecord F) (trend : TrendRecord F)
      : Type 0 where
    pub named : trend.name ≡ name
    pub ns : IsDelta old.ns_per_op new.ns_per_op trend.ns_delta
    pub bytes : IsDelta old.bytes_per_op new.bytes_per_op trend.bytes_delta
    pub allocs : IsDelta old.allocs_per_op new.allocs_per_op trend.allocs_delta
    pub kilobytes : IsDelta old.kilobytes_per_op new.kilobytes_per_op trend.kilobytes_delta

  -- What the report has for a name, given what the baseline and the run of now have for it.
  pub data Reports (name : Text)
      : Option (BenchmarkRecord F)
        → Option (BenchmarkRecord F)
        → Option (TrendRecord F)
        → Type 0 where
    unlisted : (new : Option (BenchmarkRecord F)) → Reports name none new none
    compared :
        (old new : BenchmarkRecord F) (trend : TrendRecord F)
        → IsTrend name old new trend
        → Reports name (some old) (some new) (some trend)

  build_runner_percent_delta-IsDelta :
      (old new : F.Number) → IsDelta old new (build_runner_percent_delta F old new)
  unfolding build_runner_percent_delta
  build_runner_percent_delta-IsDelta old new = elim (Bool-cases (F.eq old (F.of_ℕ 0))) [
    | inr other ↦ rw other (relative other)
    | inl zero_old ↦ elim (Bool-cases (F.eq new (F.of_ℕ 0))) [
      | inl zero_new ↦ rw (zero_old, zero_new) (both_zero zero_old zero_new)
      | inr other ↦ rw (zero_old, other) (from_zero zero_old other)
    ]
  ]

  trend_record-IsTrend :
      (name : Text) (old new : BenchmarkRecord F)
      → IsTrend name old new (trend_record F name old new)
  unfolding trend_record
  trend_record-IsTrend name old new = record {
    named = refl;
    ns = build_runner_percent_delta-IsDelta old.ns_per_op new.ns_per_op;
    bytes = build_runner_percent_delta-IsDelta old.bytes_per_op new.bytes_per_op;
    allocs = build_runner_percent_delta-IsDelta old.allocs_per_op new.allocs_per_op;
    kilobytes = build_runner_percent_delta-IsDelta old.kilobytes_per_op new.kilobytes_per_op;
  }

  -- A comparison that succeeds found each of its names among the records of now.
  found_now :
      (key : Text) (names : List Text) (old new : Dict (BenchmarkRecord F))
      (before trends : Dict (TrendRecord F))
      → trend_records F names old new before ≡ inr trends
      → has_name key names ≡ true
      → (current : BenchmarkRecord F) × (lookup key new ≡ some current)
  unfolding trend_records has_name
  found_now key [] old new before trends h listed = absurd (ground arith)
  found_now key (name ∷ names) old new before trends h listed =
      elim (Option-cases (lookup name new)) [
        | inl missing ↦ absurd (ground (arith, missing))
        | inr (current, here) ↦ elim (Bool-cases (eq_text name key)) [
          | inl equal ↦
              (current, ap (λ k. lookup k new) (sym ((eq_text_iff name key).0 equal)) ∙ here)
          | inr other ↦
              found_now key names old new
                (insert name (trend_record F name (baseline_or_zero F (lookup name old)) current)
                  before)
                trends (ground (arith, here)) (ground (arith, other))
        ]
      ]

  abbrev pub is_listed : Option (BenchmarkRecord F) → Bool
  is_listed none = false
  is_listed (some r) = true

  -- The names are the keys of the baseline, as sort.Strings gives them.
  abbrev pub NamesOf : List Text → Dict (BenchmarkRecord F) → Type 0
  NamesOf names old = (key : Text) → has_name key names ≡ is_listed (lookup key old)

  reported :
      (key : Text) (names : List Text) (old new : Dict (BenchmarkRecord F))
      (trends : Dict (TrendRecord F))
      → NamesOf names old
      → trend_records F names old new [] ≡ inr trends
      → lookup key trends
        ≡ (if has_name key names then trend_of key (lookup key old) (lookup key new) else none)
      → Reports key (lookup key old) (lookup key new) (lookup key trends)
  reported key names old new trends whole done found = elim (Option-cases (lookup key old)) [
    | inl absent_then ↦
        let unnamed : has_name key names ≡ false = whole key ∙ ap is_listed absent_then in
        let nothing : lookup key trends ≡ none = ground (arith, found, unnamed) in
        rw (absent_then, nothing) (unlisted (lookup key new))
    | inr (baseline, earlier) ↦
        let named : has_name key names ≡ true = whole key ∙ ap is_listed earlier in
        let (current, now) = found_now key names old new [] trends done named in
        let trend : lookup key trends ≡ some (trend_record F key baseline current) =
          ground (arith, found, named, earlier, now) in
        rw (earlier, now, trend)
          (compared baseline current _ (trend_record-IsTrend key baseline current))
  ]

  listed_then :
      (found : Option (BenchmarkRecord F))
      → is_listed found ≡ true
      → (r : BenchmarkRecord F) × (found ≡ some r)
  listed_then none h = absurd (ground arith)
  listed_then (some r) h = (r, refl)

  -- With the names of the baseline, the comparison fails at one of them that was not run now, or
  -- it gives trends that hold, for each name of the baseline and for no other, the changes in
  -- percent from its record in the baseline to the record of now, metric by metric; a change from
  -- zero is 0 or 100.
  pub trend_records-cases :
      (key : Text) (names : List Text) (old new : Dict (BenchmarkRecord F))
      → NamesOf names old
      → ((name : Text) × ((baseline : BenchmarkRecord F) × (lookup name old ≡ some baseline))
          × (lookup name new ≡ none)
          × (trend_records F names old new [] ≡ inl (benchmark_missing name)))
        ⊎ ((trends : Dict (TrendRecord F)) × (trend_records F names old new [] ≡ inr trends)
            × Reports key (lookup key old) (lookup key new) (lookup key trends))
  unfolding HasTrends lookup
  trend_records-cases key names old new whole =
      elim (trend_records-HasTrends key names old new []) [
        | inl (name, listed, missing, e) ↦
            inl (name, listed_then (lookup name old) (sym (whole name) ∙ listed), missing, e)
        | inr (trends, e, found) ↦ inr (trends, e, reported key names old new trends whole e found)
      ]
