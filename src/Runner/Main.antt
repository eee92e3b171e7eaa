-- ===== src/Runner/Main.antt =====
-- tools/runner.go: the choice of a command. The text that it prints as help is left out.
use go_grpcbridge.Base.{
  Bool, ◌||◌, none, some, List, [], ◌∷◌, if◌then◌else◌, Text, codes, eq_text, Dict, lookup,
}
use go_grpcbridge.Runner.{
  stat, Machine, unknown_command, Done, Run, return, raise, ◌>>◌, join, perform,
}
use go_grpcbridge.Runner.Commands.{
  handle_runner_test, handle_runner_test_short, format_runner_code, handle_runner_lint,
  apply_runner_lint_fix, handle_runner_check, handle_runner_pre_commit, apply_runner_install_hooks,
  handle_runner_fuzz, handle_runner_fuzz_quick, handle_runner_e2e, build_runner_examples,
  clear_runner_artifacts,
}
use go_grpcbridge.Runner.Benchmarks.{Floats}
use go_grpcbridge.Runner.Gates.{
  Json, handle_runner_quality, store_runner_quality_baseline, handle_runner_quality_trend,
}
use go_grpcbridge.Runner.Publish.{handle_runner_canonical_publish_check}

module _ (F : Floats) (windows : Bool) (to_lower : Text → Text) (j : Json F) (m : Machine) where
  -- buildRunnerCommands.
  unfoldable pub build_runner_commands : Dict (Run Done)
  build_runner_commands =
      (codes "test", handle_runner_test m)
      ∷ (codes "test-short", handle_runner_test_short m)
      ∷ (codes "fmt", format_runner_code m)
      ∷ (codes "lint", handle_runner_lint m)
      ∷ (codes "lint-fix", apply_runner_lint_fix m)
      ∷ (codes "check", handle_runner_check m)
      ∷ (codes "pre-commit", handle_runner_pre_commit m)
      ∷ (codes "install-hooks", apply_runner_install_hooks windows m)
      ∷ (codes "fuzz", handle_runner_fuzz m)
      ∷ (codes "fuzz-quick", handle_runner_fuzz_quick m)
      ∷ (codes "e2e", handle_runner_e2e m)
      ∷ (codes "build", build_runner_examples m)
      ∷ (codes "quality", handle_runner_quality F to_lower j m)
      ∷ (codes "quality-baseline", store_runner_quality_baseline F j m)
      ∷ (codes "quality-trend", handle_runner_quality_trend F j m)
      ∷ (codes "canonical-publish-check", handle_runner_canonical_publish_check to_lower m)
      ∷ (codes "clean", clear_runner_artifacts m)
      ∷ []

  abbrev is_help : Text → Bool
  is_help name =
      eq_text name (codes "help") || eq_text name (codes "-h") || eq_text name (codes "--help")

  pub run_arguments : List Text → Run Done
  unfolding build_runner_commands
  run_arguments [] = return tt
  run_arguments (name ∷ arguments) =
      if is_help name then return tt else elim (lookup name build_runner_commands) [
        | none ↦ raise (unknown_command name)
        | some action ↦ action
      ]

  -- handleRunnerMain, with getRunnerRootPath.
  unfoldable pub handle_runner_main : List Text → Run Done
  unfolding run_arguments
  handle_runner_main arguments =
      perform m (stat (join m.root (codes "go.mod"))) >> run_arguments arguments
