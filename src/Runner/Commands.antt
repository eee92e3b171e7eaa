-- ===== src/Runner/Commands.antt =====
-- tools/runner.go: the commands that run a fixed sequence of effects, and the choice of a command.
pub mod Laws
pub mod Plans
use go_grpcbridge.Base.{
  Bool, Option, none, some, List, [], ◌∷◌, ◌++◌, inr, if◌then◌else◌, Text, codes, eq_text, map,
}
use go_grpcbridge.Runner.{
  Process, Effect, execute, look_path, stat, remove, make_executable, Machine, unknown_command,
  Done, Run, return, raise, ◌>>=◌, ◌>>◌, join, process, perform, handle_process,
}

-- handleRunnerTest.
pub handle_runner_test : Machine → Run Done
handle_runner_test m =
    handle_process m (codes "go")
      (map codes ("test" ∷ "./pkg/..." ∷ "-v" ∷ "-race" ∷ "-coverprofile=coverage.txt" ∷ []))

-- handleRunnerTestShort.
pub handle_runner_test_short : Machine → Run Done
handle_runner_test_short m =
    handle_process m (codes "go") (map codes ("test" ∷ "./pkg/..." ∷ "-short" ∷ []))

-- formatRunnerCode.
pub format_runner_code : Machine → Run Done
format_runner_code m = do
  perform m (look_path (codes "goimports"))
  handle_process m (codes "gofmt") (map codes ("-w" ∷ "-s" ∷ "." ∷ []))
  handle_process m (codes "goimports") (map codes ("-w" ∷ "." ∷ []))

-- handleRunnerLint.
unfoldable pub handle_runner_lint : Machine → Run Done
handle_runner_lint m = do
  perform m (look_path (codes "golangci-lint"))
  handle_process m (codes "golangci-lint")
      (map codes ("run" ∷ "--config=.golangci.yml" ∷ "./..." ∷ []))

-- applyRunnerLintFix.
pub apply_runner_lint_fix : Machine → Run Done
apply_runner_lint_fix m = do
  perform m (look_path (codes "golangci-lint"))
  handle_process m (codes "golangci-lint")
      (map codes ("run" ∷ "--config=.golangci.yml" ∷ "--fix" ∷ "./..." ∷ []))

-- handleRunnerCheck.
pub handle_runner_check : Machine → Run Done
unfolding format_runner_code handle_runner_lint handle_runner_test_short
handle_runner_check m = do format_runner_code m; handle_runner_lint m; handle_runner_test_short m

-- handleRunnerPreCommit.
pub handle_runner_pre_commit : Machine → Run Done
unfolding handle_runner_check
handle_runner_pre_commit m = handle_runner_check m >> return tt

-- applyRunnerInstallHooks; the flag is runtime.GOOS == "windows".
pub apply_runner_install_hooks : Bool → Machine → Run Done
apply_runner_install_hooks is_windows m =
    let hook = join m.root (codes ".git/hooks/pre-commit") in
    perform m (stat hook) >> (if is_windows then return tt else perform m (make_executable hook))

-- handleRunnerSingleFuzz.
pub handle_runner_single_fuzz : Machine → Text → Text → Run Done
handle_runner_single_fuzz m name duration = handle_process m (codes "go") (
    codes "test"
    ∷ codes "./pkg/bridge"
    ∷ codes "-v"
    ∷ (codes "-fuzz=" ++ name)
    ∷ (codes "-fuzztime=" ++ duration)
    ∷ [])

-- handleRunnerFuzz.
pub handle_runner_fuzz : Machine → Run Done
unfolding handle_runner_single_fuzz
handle_runner_fuzz m = do
  handle_runner_single_fuzz m (codes "FuzzWebSocketConnWrite") (codes "60s")
  handle_runner_single_fuzz m (codes "FuzzWebSocketConnRead") (codes "60s")
  handle_runner_single_fuzz m (codes "FuzzBinaryMessage") (codes "60s")
  handle_runner_single_fuzz m (codes "FuzzMessageSizes") (codes "60s")

-- handleRunnerFuzzQuick.
pub handle_runner_fuzz_quick : Machine → Run Done
unfolding handle_runner_single_fuzz
handle_runner_fuzz_quick m = do
  handle_runner_single_fuzz m (codes "FuzzWebSocketConnWrite") (codes "5s")
  handle_runner_single_fuzz m (codes "FuzzWebSocketConnRead") (codes "5s")
  handle_runner_single_fuzz m (codes "FuzzBinaryMessage") (codes "5s")
  handle_runner_single_fuzz m (codes "FuzzMessageSizes") (codes "5s")

-- handleRunnerE2E.
pub handle_runner_e2e : Machine → Run Done
handle_runner_e2e m =
    handle_process m (codes "go") (map codes ("test" ∷ "./e2e/..." ∷ "-v" ∷ "-timeout" ∷ "5m" ∷ []))

-- buildRunnerExamples.
pub build_runner_examples : Machine → Run Done
build_runner_examples m = do
  handle_process m (codes "go") (map codes ("build" ∷ "-v" ∷ "./examples/direct-bridge" ∷ []))
  handle_process m (codes "go") (map codes ("build" ∷ "-v" ∷ "./examples/grpc-server" ∷ []))
  perform m (
      execute (
        process m (join m.root (codes "examples/wasm-client"))
          ((codes "GOOS", codes "js") ∷ (codes "GOARCH", codes "wasm") ∷ []) (codes "go")
          (map codes ("build" ∷ "-v" ∷ "." ∷ []))))

-- The loop of clearRunnerArtifacts.
clear_files : Machine → List Text → Run Done
clear_files m [] = return tt
clear_files m (path ∷ paths) = perform m (remove path) >> clear_files m paths

abbrev artifact_names : List Text
artifact_names = map codes (
    "coverage.txt" ∷ "direct-bridge" ∷ "direct-bridge.exe" ∷ "grpc-server" ∷ "grpc-server.exe"
    ∷ "examples/wasm-client/main.wasm" ∷ [])

-- clearRunnerArtifacts.
pub clear_runner_artifacts : Machine → Run Done
unfolding clear_files
clear_runner_artifacts m = do
  handle_process m (codes "go") (map codes ("clean" ∷ "-cache" ∷ "-testcache" ∷ "-modcache" ∷ []))
  clear_files m (map (join m.root) artifact_names)
