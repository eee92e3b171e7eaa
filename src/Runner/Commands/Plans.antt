-- ===== src/Runner/Commands/Plans.antt =====
-- What the commands of tools/runner.go do, as lists of effects, and how a run follows its list.
use go_grpcbridge.Base.{
  Bool, true, false, List, [], ◌∷◌, ◌++◌, ◌≡◌, refl, sym, ◌∙◌, arith, if◌then◌else◌, Text, codes,
  map,
}
use go_grpcbridge.Runner.{
  Effect, execute, look_path, stat, remove, make_executable, History, Machine, Done, Run, return,
  ◌>>◌, join, process, perform,
}
use go_grpcbridge.Runner.Commands.{
  handle_runner_test, handle_runner_test_short, format_runner_code, handle_runner_lint,
  apply_runner_lint_fix, handle_runner_check, handle_runner_pre_commit, apply_runner_install_hooks,
  handle_runner_fuzz, handle_runner_fuzz_quick, handle_runner_e2e, build_runner_examples,
  clear_runner_artifacts, handle_runner_single_fuzz, clear_files, artifact_names,
}

-- The commands whose effects do not depend on what an effect gives.
pub data Command : Type 0 where
  test test_short fmt lint lint_fix check pre_commit install_hooks : Command
  fuzz fuzz_quick e2e build clean : Command

unfoldable pub handle_command : Bool → Machine → Command → Run Done
handle_command windows m test = handle_runner_test m
handle_command windows m test_short = handle_runner_test_short m
handle_command windows m fmt = format_runner_code m
handle_command windows m lint = handle_runner_lint m
handle_command windows m lint_fix = apply_runner_lint_fix m
handle_command windows m check = handle_runner_check m
handle_command windows m pre_commit = handle_runner_pre_commit m
handle_command windows m install_hooks = apply_runner_install_hooks windows m
handle_command windows m fuzz = handle_runner_fuzz m
handle_command windows m fuzz_quick = handle_runner_fuzz_quick m
handle_command windows m e2e = handle_runner_e2e m
handle_command windows m build = build_runner_examples m
handle_command windows m clean = clear_runner_artifacts m

abbrev go : Machine → List Text → Effect
go m args = execute (process m m.root [] (codes "go") args)

abbrev fmt_plan : Machine → List Effect
fmt_plan m =
    look_path (codes "goimports")
    ∷ execute (process m m.root [] (codes "gofmt") (map codes ("-w" ∷ "-s" ∷ "." ∷ [])))
    ∷ execute (process m m.root [] (codes "goimports") (map codes ("-w" ∷ "." ∷ [])))
    ∷ []

abbrev lint_plan : Machine → List Text → List Effect
lint_plan m flags =
    look_path (codes "golangci-lint")
    ∷ execute (
        process m m.root [] (codes "golangci-lint")
          (codes "run" ∷ codes "--config=.golangci.yml" ∷ flags ++ codes "./..." ∷ []))
    ∷ []

abbrev short_plan : Machine → List Effect
short_plan m = go m (map codes ("test" ∷ "./pkg/..." ∷ "-short" ∷ [])) ∷ []

abbrev fuzz_plan : Machine → Text → List Text → List Effect
fuzz_plan m duration [] = []
fuzz_plan m duration (name ∷ names) =
    go m (
      map codes ("test" ∷ "./pkg/bridge" ∷ "-v" ∷ [])
      ++ (codes "-fuzz=" ++ name) ∷ (codes "-fuzztime=" ++ duration) ∷ [])
    ∷ fuzz_plan m duration names

abbrev fuzz_names : List Text
fuzz_names = map codes (
    "FuzzWebSocketConnWrite" ∷ "FuzzWebSocketConnRead" ∷ "FuzzBinaryMessage" ∷ "FuzzMessageSizes"
    ∷ [])

-- What a command is there for, effect by effect.
unfoldable pub plan : Bool → Machine → Command → List Effect
plan windows m test =
    go m (map codes ("test" ∷ "./pkg/..." ∷ "-v" ∷ "-race" ∷ "-coverprofile=coverage.txt" ∷ []))
    ∷ []
plan windows m test_short = short_plan m
plan windows m fmt = fmt_plan m
plan windows m lint = lint_plan m []
plan windows m lint_fix = lint_plan m (codes "--fix" ∷ [])
plan windows m check = fmt_plan m ++ lint_plan m [] ++ short_plan m
plan windows m pre_commit = fmt_plan m ++ lint_plan m [] ++ short_plan m
plan windows m install_hooks =
    let hook = join m.root (codes ".git/hooks/pre-commit") in
    stat hook ∷ (if windows then [] else make_executable hook ∷ [])
plan windows m fuzz = fuzz_plan m (codes "60s") fuzz_names
plan windows m fuzz_quick = fuzz_plan m (codes "5s") fuzz_names
plan windows m e2e = go m (map codes ("test" ∷ "./e2e/..." ∷ "-v" ∷ "-timeout" ∷ "5m" ∷ [])) ∷ []
plan windows m build =
    go m (map codes ("build" ∷ "-v" ∷ "./examples/direct-bridge" ∷ []))
    ∷ go m (map codes ("build" ∷ "-v" ∷ "./examples/grpc-server" ∷ []))
    ∷ execute (
        process m (join m.root (codes "examples/wasm-client"))
          ((codes "GOOS", codes "js") ∷ (codes "GOARCH", codes "wasm") ∷ []) (codes "go")
          (map codes ("build" ∷ "-v" ∷ "." ∷ [])))
    ∷ []
plan windows m clean =
    go m (map codes ("clean" ∷ "-cache" ∷ "-testcache" ∷ "-modcache" ∷ []))
    ∷ remove (join m.root (codes "coverage.txt"))
    ∷ remove (join m.root (codes "direct-bridge"))
    ∷ remove (join m.root (codes "direct-bridge.exe"))
    ∷ remove (join m.root (codes "grpc-server"))
    ∷ remove (join m.root (codes "grpc-server.exe"))
    ∷ remove (join m.root (codes "examples/wasm-client/main.wasm"))
    ∷ []

-- A list of effects, one after the other, up to the first that fails.
unfoldable pub steps : Machine → List Effect → Run Done
unfolding perform
steps m [] = return tt
steps m (e ∷ es) = perform m e >> steps m es

bind_return : (k : Run Done) (t : History) → (k >> return tt) t ≡ k t
bind_return k t = ground arith

steps-append :
    (m : Machine) (xs ys : List Effect) (t : History)
    → (steps m xs >> steps m ys) t ≡ steps m (xs ++ ys) t
unfolding steps
steps-append m [] ys t = refl
steps-append m (x ∷ xs) ys t = ground (arith, steps-append m xs ys (x ∷ t))

-- A command follows a plan when it does what `steps` does.
abbrev pub Follows : Machine → Run Done → List Effect → Type 0
Follows m k es = (t : History) → k t ≡ steps m es t

perform-Follows : (m : Machine) (e : Effect) → Follows m (perform m e) (e ∷ [])
unfolding steps
perform-Follows m e t = sym (bind_return (perform m e) t)

then-Follows :
    (m : Machine) (k l : Run Done) (xs ys : List Effect)
    → Follows m k xs
    → Follows m l ys
    → Follows m (k >> l) (xs ++ ys)
then-Follows m k l xs ys f g t = ground (arith, f t, g (steps m xs t).1, steps-append m xs ys t)

cons-Follows :
    (m : Machine) (k : Run Done) (e : Effect) (xs : List Effect)
    → Follows m k xs
    → Follows m (perform m e >> k) (e ∷ xs)
unfolding steps
cons-Follows m k e xs f t = ground (arith, f (e ∷ t))

two-Follows : (m : Machine) (d e : Effect) → Follows m (perform m d >> perform m e) (d ∷ e ∷ [])
two-Follows m d e = cons-Follows m _ d (e ∷ []) (perform-Follows m e)

format-Follows : (m : Machine) → Follows m (format_runner_code m) (fmt_plan m)
unfolding format_runner_code
format-Follows m = cons-Follows m _ _ (_ ∷ _ ∷ []) (two-Follows m _ _)

lint-Follows : (m : Machine) → Follows m (handle_runner_lint m) (lint_plan m [])
unfolding handle_runner_lint
lint-Follows m = two-Follows m _ _

lint_fix-Follows :
    (m : Machine) → Follows m (apply_runner_lint_fix m) (lint_plan m (codes "--fix" ∷ []))
unfolding apply_runner_lint_fix
lint_fix-Follows m = two-Follows m _ _

short-Follows : (m : Machine) → Follows m (handle_runner_test_short m) (short_plan m)
unfolding handle_runner_test_short
short-Follows m = perform-Follows m _

check-Follows :
    (m : Machine) → Follows m (handle_runner_check m) (fmt_plan m ++ lint_plan m [] ++ short_plan m)
unfolding handle_runner_check
check-Follows m =
    then-Follows m (format_runner_code m) _ (fmt_plan m) (lint_plan m [] ++ short_plan m)
      (format-Follows m)
      (then-Follows m (handle_runner_lint m) (handle_runner_test_short m) (lint_plan m [])
        (short_plan m) (lint-Follows m) (short-Follows m))

pre_commit-Follows :
    (m : Machine)
    → Follows m (handle_runner_pre_commit m) (fmt_plan m ++ lint_plan m [] ++ short_plan m)
unfolding handle_runner_pre_commit
pre_commit-Follows m t = bind_return (handle_runner_check m) t ∙ check-Follows m t

install-Follows :
    (windows : Bool) (m : Machine)
    → Follows m (apply_runner_install_hooks windows m) (plan windows m install_hooks)
unfolding apply_runner_install_hooks plan steps
install-Follows true m t = refl
install-Follows false m t = two-Follows m _ _ t

fuzz-Follows :
    (m : Machine) → Follows m (handle_runner_fuzz m) (fuzz_plan m (codes "60s") fuzz_names)
unfolding handle_runner_fuzz handle_runner_single_fuzz
fuzz-Follows m =
    cons-Follows m _ _ (_ ∷ _ ∷ _ ∷ []) (cons-Follows m _ _ (_ ∷ _ ∷ []) (two-Follows m _ _))

fuzz_quick-Follows :
    (m : Machine) → Follows m (handle_runner_fuzz_quick m) (fuzz_plan m (codes "5s") fuzz_names)
unfolding handle_runner_fuzz_quick handle_runner_single_fuzz
fuzz_quick-Follows m =
    cons-Follows m _ _ (_ ∷ _ ∷ _ ∷ []) (cons-Follows m _ _ (_ ∷ _ ∷ []) (two-Follows m _ _))

clear_files-Follows :
    (m : Machine) (paths : List Text) → Follows m (clear_files m paths) (map remove paths)
unfolding clear_files steps
clear_files-Follows m [] t = refl
clear_files-Follows m (path ∷ paths) t =
    ground (arith, clear_files-Follows m paths (remove path ∷ t))

pub command-Follows :
    (windows : Bool) (m : Machine) (c : Command)
    → Follows m (handle_command windows m c) (plan windows m c)
unfolding handle_command plan handle_runner_test handle_runner_e2e build_runner_examples
    clear_runner_artifacts
command-Follows windows m test = perform-Follows m _
command-Follows windows m test_short = short-Follows m
command-Follows windows m fmt = format-Follows m
command-Follows windows m lint = lint-Follows m
command-Follows windows m lint_fix = lint_fix-Follows m
command-Follows windows m check = check-Follows m
command-Follows windows m pre_commit = pre_commit-Follows m
command-Follows windows m install_hooks = install-Follows windows m
command-Follows windows m fuzz = fuzz-Follows m
command-Follows windows m fuzz_quick = fuzz_quick-Follows m
command-Follows windows m e2e = perform-Follows m _
command-Follows windows m build = cons-Follows m _ _ (_ ∷ _ ∷ []) (two-Follows m _ _)
command-Follows windows m clean =
    cons-Follows m _ _ _ (clear_files-Follows m (map (join m.root) artifact_names))
