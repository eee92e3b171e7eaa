-- ===== src/Runner/Publish/Laws.antt =====
-- The temporary directory of the publish check of tools/runner.go.
use go_grpcbridge.Base.{
  Bool, true, false, not, Option, none, some, List, [], ◌∷◌, ◌⊎◌, inl, inr, ◌≡◌, refl, arith, Text,
  eq_text, eq_text_iff, if◌then◌else◌,
}
use go_grpcbridge.Runner.{
  Effect, execute, capture, look_path, stat, read_file, remove, make_directory, make_executable,
  remove_all, make_temp, wait, write_file, Reply, gives, fails, absent, History, Machine,
  RunnerError, module_path_missing, not_canonical, origin_not_canonical, Done, Run, return, ◌>>=◌,
  ◌>>◌, perform, obtain,
}
use go_grpcbridge.Runner.Laws.{Sum-cases}
use go_grpcbridge.Runner.Quality.{or_raise, raise_if}
use go_grpcbridge.Runner.Publish.{
  check_identity, check_origin_remote, reach_repositories, smoke_consumer, deferring,
  handle_runner_canonical_publish_check, build_runner_canonical_repository_urls,
  has_runner_skip_canonical_origin_check, parse_runner_go_mod_module_path, canonical_module_path,
}

abbrev remove_one : Text → List Text → List Text
remove_one dir [] = []
remove_one dir (d ∷ ds) = if eq_text d dir then ds else d ∷ remove_one dir ds

abbrev with_made : Reply → List Text → List Text
with_made (gives dir) ds = dir ∷ ds
with_made (fails _) ds = ds
with_made absent ds = ds

-- The temporary directories that a history made and has not asked to remove yet.
unfoldable pub to_remove : Machine → History → List Text
to_remove m [] = []
to_remove m (make_temp ∷ t) = with_made (m.reply t make_temp) (to_remove m t)
to_remove m (remove_all dir ∷ t) = remove_one dir (to_remove m t)
to_remove m (_ ∷ t) = to_remove m t

-- Neither makes nor removes a directory of that kind.
abbrev is_plain : Effect → Bool
is_plain make_temp = false
is_plain (remove_all dir) = false
is_plain _ = true

to_remove-plain :
    (m : Machine) (e : Effect) (t : History)
    → is_plain e ≡ true
    → to_remove m (e ∷ t) ≡ to_remove m t
unfolding to_remove
to_remove-plain m (execute p) t h = refl
to_remove-plain m (capture p) t h = refl
to_remove-plain m (look_path s) t h = refl
to_remove-plain m (stat s) t h = refl
to_remove-plain m (read_file s) t h = refl
to_remove-plain m (remove s) t h = refl
to_remove-plain m (make_directory s) t h = refl
to_remove-plain m (make_executable s) t h = refl
to_remove-plain m (remove_all s) t h = absurd (ground arith)
to_remove-plain m make_temp t h = absurd (ground arith)
to_remove-plain m wait t h = refl
to_remove-plain m (write_file s text) t h = refl

-- A run that leaves the temporary directories as they are.
IsNeutral : {A : Type 0} → Machine → Run A → Type 0
IsNeutral m k = (t : History) → to_remove m (k t).1 ≡ to_remove m t

perform-IsNeutral : (m : Machine) (e : Effect) → is_plain e ≡ true → IsNeutral m (perform m e)
unfolding IsNeutral perform
perform-IsNeutral m e h t = to_remove-plain m e t h

obtain-IsNeutral : (m : Machine) (e : Effect) → is_plain e ≡ true → IsNeutral m (obtain m e)
unfolding IsNeutral obtain
obtain-IsNeutral m e h t = to_remove-plain m e t h

bind-IsNeutral :
    {A B : Type 0} (m : Machine) (k : Run A) (f : A → Run B)
    → IsNeutral m k
    → ((a : A) → IsNeutral m (f a))
    → IsNeutral m (k >>= f)
unfolding IsNeutral
bind-IsNeutral m k f h g t = elim (Sum-cases (k t).0) [
  | inl (e, stopped) ↦ ground (arith, stopped, h t)
  | inr (a, done) ↦ ground (arith, done, h t, g a (k t).1)
]

choice-IsNeutral :
    (m : Machine) (b : Bool) (k l : Run Done)
    → IsNeutral m k
    → IsNeutral m l
    → IsNeutral m (if b then k else l)
choice-IsNeutral m true k l h g = h
choice-IsNeutral m false k l h g = g

or_raise-IsNeutral :
    {A : Type 0} (m : Machine) (o : Option A) (e : RunnerError) → IsNeutral m (or_raise o e)
unfolding IsNeutral
or_raise-IsNeutral m none e t = refl
or_raise-IsNeutral m (some a) e t = refl

raise_if-IsNeutral : (m : Machine) (b : Bool) (e : RunnerError) → IsNeutral m (raise_if b e)
unfolding IsNeutral
raise_if-IsNeutral m true e t = refl
raise_if-IsNeutral m false e t = refl

return-IsNeutral : (m : Machine) → IsNeutral m (return tt)
unfolding IsNeutral
return-IsNeutral m t = refl

-- An effect, and what follows it.
step-IsNeutral :
    (m : Machine) (e : Effect) (k : Run Done)
    → is_plain e ≡ true
    → IsNeutral m k
    → IsNeutral m (perform m e >> k)
step-IsNeutral m e k h g =
    bind-IsNeutral m (perform m e) (λ _. k) (perform-IsNeutral m e h) (λ _. g)

smoke_consumer-IsNeutral : (m : Machine) (dir : Text) → IsNeutral m (smoke_consumer m dir)
unfolding smoke_consumer
smoke_consumer-IsNeutral m dir = step-IsNeutral m _ _ refl (
    step-IsNeutral m _ _ refl (
      step-IsNeutral m _ _ refl (
        step-IsNeutral m _ _ refl (
          step-IsNeutral m _ _ refl (
            step-IsNeutral m _ _ refl (
              step-IsNeutral m _ _ refl (
                step-IsNeutral m _ _ refl
                  (step-IsNeutral m _ _ refl (perform-IsNeutral m _ refl)))))))))

reach-IsNeutral : (m : Machine) (urls : List Text) → IsNeutral m (reach_repositories m urls)
unfolding reach_repositories
reach-IsNeutral m [] = return-IsNeutral m
reach-IsNeutral m (url ∷ urls) =
    bind-IsNeutral m (obtain m _) _ (obtain-IsNeutral m _ refl) (λ _. reach-IsNeutral m urls)

origin-IsNeutral :
    (to_lower : Text → Text) (m : Machine) → IsNeutral m (check_origin_remote to_lower m)
unfolding check_origin_remote
origin-IsNeutral to_lower m =
    choice-IsNeutral m (has_runner_skip_canonical_origin_check to_lower m) _ _ (return-IsNeutral m)
      (bind-IsNeutral m (obtain m _) _ (obtain-IsNeutral m _ refl)
        (λ output. raise_if-IsNeutral m _ origin_not_canonical))

identity-IsNeutral :
    (to_lower : Text → Text) (m : Machine) → IsNeutral m (check_identity to_lower m)
unfolding check_identity
identity-IsNeutral to_lower m =
    bind-IsNeutral m (obtain m _) _ (obtain-IsNeutral m _ refl) (λ contents.
      let path = parse_runner_go_mod_module_path contents in
      bind-IsNeutral m (or_raise path module_path_missing) _
        (or_raise-IsNeutral m path module_path_missing)
        (λ path.
          let other = not (eq_text path canonical_module_path) in
          bind-IsNeutral m (raise_if other not_canonical) _
            (raise_if-IsNeutral m other not_canonical)
            (λ _.
              bind-IsNeutral m (check_origin_remote to_lower m) _ (origin-IsNeutral to_lower m)
                (λ _. reach-IsNeutral m build_runner_canonical_repository_urls))))

Reply-cases :
    (r : Reply)
    → ((text : Text) × (r ≡ gives text)) ⊎ ((text : Text) × (r ≡ fails text)) ⊎ (r ≡ absent)
Reply-cases (gives text) = inl (text, refl)
Reply-cases (fails text) = inr (inl (text, refl))
Reply-cases absent = inr (inr refl)

-- The body, and the deferred removal of its directory.
smoke-to_remove :
    (m : Machine) → IsNeutral m (obtain m make_temp >>= λ dir. deferring dir (smoke_consumer m dir))
unfolding IsNeutral obtain to_remove
smoke-to_remove m t = elim (Reply-cases (m.reply t make_temp)) [
  | inl (dir, made) ↦
      ground (arith, made, smoke_consumer-IsNeutral m dir (make_temp ∷ t), eq_text_iff dir dir)
  | inr (inl (text, broken)) ↦ ground (arith, broken)
  | inr (inr missing) ↦ ground (arith, missing)
]

-- Whatever fails, and where, the publish check asks for the removal of the temporary directory
-- that it made before it returns: none is left that it has not asked to remove; whether a removal
-- succeeds is not looked at.
pub to_remove-publish :
    (to_lower : Text → Text) (m : Machine) (t : History)
    → to_remove m (handle_runner_canonical_publish_check to_lower m t).1 ≡ to_remove m t
unfolding handle_runner_canonical_publish_check IsNeutral
to_remove-publish to_lower m t =
    bind-IsNeutral m (check_identity to_lower m)
      (λ _. obtain m make_temp >>= λ dir. deferring dir (smoke_consumer m dir))
      (identity-IsNeutral to_lower m) (λ _. smoke-to_remove m) t
