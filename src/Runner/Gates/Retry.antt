-- ===== src/Runner/Gates/Retry.antt =====
-- buildRunnerBenchmarkGateResultWithRetry of tools/runner.go: how many rounds its loop makes.
use go_grpcbridge.Base.{Bool, true, false, ℕ, zero, suc, ◌∷◌, ◌⊎◌, inl, inr, ◌≡◌, ◌≤◌}
use go_grpcbridge.Runner.{
  Reply, gives, fails, absent, wait, History, Machine, RunnerError, cancelled,
}
use go_grpcbridge.Runner.Benchmarks.{Floats}
use go_grpcbridge.Runner.Quality.{benchmark_effect, GateResult}
use go_grpcbridge.Runner.Gates.{attempt}

-- Whether the wait went by; it fails where the context is done.
abbrev pub is_given : Reply → Bool
is_given (gives s) = true
is_given (fails s) = false
is_given absent = false

module _ (F : Floats) (m : Machine) where
  -- What has been done once k rounds, and the wait that follows each of them, are over.
  pub before_round : ℕ → History → History
  before_round zero t = t
  before_round (suc k) t = before_round k (wait ∷ benchmark_effect m ∷ t)

  -- The same, with one more round.
  pub rounds : ℕ → History → History
  unfolding before_round
  rounds k t = benchmark_effect m ∷ before_round k t

  -- How a loop with n retries may end: with the savings of a round, with a wait that fails because its
  -- context is done, or with the error of its last round.
  pub data Ending (n : ℕ) (t : History) (out : RunnerError ⊎ GateResult F) (done : History)
      : Type 0 where
    passed :
        (k : ℕ) (g : GateResult F)
        → k ≤ n
        → (attempt F m (before_round k t)).0 ≡ inr g
        → out ≡ inr g
        → done ≡ rounds k t
        → Ending n t out done
    stopped :
        (k : ℕ)
        → suc k ≤ n
        → is_given (m.reply (rounds k t) wait) ≡ false
        → out ≡ inl cancelled
        → done ≡ wait ∷ rounds k t
        → Ending n t out done
    exhausted :
        (e : RunnerError)
        → (attempt F m (before_round n t)).0 ≡ inl e
        → out ≡ inl e
        → done ≡ rounds n t
        → Ending n t out done
