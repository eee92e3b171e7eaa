-- ===== src/Runner/Laws.antt =====
-- How the runs of tools/runner.go are taken apart.
use go_grpcbridge.Base.{◌⊎◌, inl, inr, ◌≡◌, refl, arith, Text, ◌∷◌}
use go_grpcbridge.Runner.{Effect, gives, History, Machine, RunnerError, Run, ◌>>=◌, obtain}

pub Sum-cases :
    {A : Type 0} (r : RunnerError ⊎ A) → ((e : RunnerError) × (r ≡ inl e)) ⊎ ((a : A) × (r ≡ inr a))
Sum-cases (inl e) = inl (e, refl)
Sum-cases (inr a) = inr (a, refl)

-- A run that goes through has gone through each of its parts.
pub passes-bind :
    {A B : Type 0} (m : Run A) (f : A → Run B) (t : History) (b : B)
    → ((m >>= f) t).0 ≡ inr b
    → (a : A) × ((m t).0 ≡ inr a) × ((m >>= f) t ≡ f a (m t).1)
passes-bind m f t b h = elim (Sum-cases (m t).0) [
  | inl (e, stopped) ↦ absurd (ground (arith, stopped))
  | inr (a, done) ↦ (a, done, ground (arith, done))
]

pub obtain-inr :
    (m : Machine) (e : Effect) (t : History) (text : Text)
    → (obtain m e t).0 ≡ inr text
    → (m.reply t e ≡ gives text) × ((obtain m e t).1 ≡ e ∷ t)
unfolding obtain
obtain-inr m e t text h = ground arith

-- A run whose first part goes through is the run of what follows.
pub passes-then :
    {A B : Type 0} (m : Run A) (f : A → Run B) (t : History) (a : A)
    → (m t).0 ≡ inr a
    → ((m >>= f) t).0 ≡ (f a (m t).1).0
passes-then m f t a h = ground (arith, h)
