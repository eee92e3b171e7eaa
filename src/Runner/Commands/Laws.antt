-- ===== src/Runner/Commands/Laws.antt =====
-- What a run of a command of tools/runner.go has done when it returns.
use go_grpcbridge.Base.{Bool, true, false, List, [], ◌∷◌, ◌++◌, ◌⊎◌, inl, inr, ◌≡◌, refl, ap, arith}
use go_grpcbridge.Runner.{
  execute, capture, look_path, stat, read_file, remove, make_directory, make_executable, remove_all,
  make_temp, wait, write_file, Reply, gives, fails, absent, Effect, History, Machine, RunnerError,
  failed, Done, answer,
}
use go_grpcbridge.Runner.Commands.Plans.{Command, handle_command, plan, steps, command-Follows}

-- Whether an effect that is answered like this has succeeded: a file to remove may be missing.
unfoldable pub is_success : Effect → Reply → Bool
is_success e (gives text) = true
is_success e (fails text) = false
is_success (remove path) absent = true
is_success e absent = false

abbrev pub succeeds : Machine → History → Effect → Bool
succeeds m t e = is_success e (m.reply t e)

answer-cases :
    (e : Effect) (r : Reply)
    → ((is_success e r ≡ true) × (answer e r ≡ inr tt))
      ⊎ ((is_success e r ≡ false) × (answer e r ≡ inl (failed e)))
unfolding is_success
answer-cases e (gives text) = inl (refl, refl)
answer-cases e (fails text) = inr (refl, refl)
answer-cases (remove path) absent = inl (refl, refl)
answer-cases (execute p) absent = inr (refl, refl)
answer-cases (capture p) absent = inr (refl, refl)
answer-cases (look_path path) absent = inr (refl, refl)
answer-cases (stat path) absent = inr (refl, refl)
answer-cases (read_file path) absent = inr (refl, refl)
answer-cases (make_directory path) absent = inr (refl, refl)
answer-cases (make_executable path) absent = inr (refl, refl)
answer-cases (remove_all path) absent = inr (refl, refl)
answer-cases make_temp absent = inr (refl, refl)
answer-cases wait absent = inr (refl, refl)
answer-cases (write_file path text) absent = inr (refl, refl)

-- The history once the effects are done.
abbrev pub after : History → List Effect → History
after t [] = t
after t (e ∷ es) = after (e ∷ t) es

-- Each effect succeeds at its turn.
abbrev pub Succeeds : Machine → History → List Effect → Type 0
Succeeds m t [] = Done
Succeeds m t (e ∷ es) = (succeeds m t e ≡ true) × Succeeds m (e ∷ t) es

-- A run of a plan: all effects are done and succeed, or the run stops with the error of the first
-- that fails, and none that follows it is started.
pub data Ends (m : Machine) (t : History) (es : List Effect)
    : (RunnerError ⊎ Done) × History → Type 0 where
  passes : Succeeds m t es → Ends m t es (inr tt, after t es)
  stops :
      (done rest : List Effect) (e : Effect)
      → es ≡ done ++ e ∷ rest
      → Succeeds m t done
      → succeeds m (after t done) e ≡ false
      → Ends m t es (inl (failed e), e ∷ after t done)

-- A run of a plan that is not empty goes on after its first effect, or stops there.
steps-cons :
    (m : Machine) (t : History) (e : Effect) (es : List Effect)
    → ((succeeds m t e ≡ true) × (steps m (e ∷ es) t ≡ steps m es (e ∷ t)))
      ⊎ ((succeeds m t e ≡ false) × (steps m (e ∷ es) t ≡ (inl (failed e), e ∷ t)))
unfolding steps
steps-cons m t e es = elim (answer-cases e (m.reply t e)) [
  | inl (ok, done) ↦ inl (ok, ground (arith, done))
  | inr (bad, done) ↦ inr (bad, ground (arith, done))
]

Ends-cons :
    (m : Machine) (t : History) (e : Effect) (es : List Effect)
    (end : (RunnerError ⊎ Done) × History)
    → succeeds m t e ≡ true
    → Ends m (e ∷ t) es end
    → Ends m t (e ∷ es) end
Ends-cons m t e es _ ok (passes all) = passes (ok, all)
Ends-cons m t e es _ ok (stops done rest x split all bad) =
    stops (e ∷ done) rest x (ap (◌∷◌ e) split) (ok, all) bad

start : (m : Machine) (t : History) → Ends m t [] (steps m [] t)
unfolding steps
start m t = passes tt

steps-Ends : (m : Machine) (es : List Effect) (t : History) → Ends m t es (steps m es t)
steps-Ends m [] t = start m t
steps-Ends m (e ∷ es) t = elim (steps-cons m t e es) [
  | inl (ok, done) ↦ rw done (Ends-cons m t e es _ ok (steps-Ends m es (e ∷ t)))
  | inr (bad, done) ↦ rw done (stops [] es e refl tt bad)
]

-- A command whose effects are fixed follows its plan: it does all the effects of the plan in order
-- and they all succeed, or it stops with the error of the first effect that fails and starts none
-- that follows; a file that is not there counts as removed.
pub handle_command-Ends :
    (windows : Bool) (m : Machine) (c : Command) (t : History)
    → Ends m t (plan windows m c) (handle_command windows m c t)
handle_command-Ends windows m c t =
    rw (command-Follows windows m c t) (steps-Ends m (plan windows m c) t)
