-- ===== src/Runner.antt =====
-- tools/runner.go: what its commands share. The machine is an argument: it answers each effect, and
-- its answer may depend on all that was done before. What a command prints is left out.
pub mod Laws
pub mod Commands
pub mod Benchmarks
pub mod Quality
pub mod Publish
pub mod Main
pub mod Tests
pub mod Gates
use go_grpcbridge.Base.{
  Option, none, some, List, [], ◌∷◌, ◌++◌, ◌⊎◌, inl, inr, if◌then◌else◌, Text, codes, eq_text, Dict,
  map,
}

-- A process as it is started: exec.Cmd.
pub record Process : Type 0 where
  pub dir : Text
  pub env : List Text
  pub binary : Text
  pub args : List Text

-- handleRunnerProcess, buildRunnerProcessOutput, and what the runner calls of packages os and exec.
pub data Effect : Type 0 where
  execute capture : Process → Effect
  look_path stat read_file remove make_directory make_executable remove_all : Text → Effect
  make_temp wait : Effect
  write_file : Text → Text → Effect

-- A success with what it gives, a failure with what was printed, or os.ErrNotExist.
pub data Reply : Type 0 where
  gives fails : Text → Reply
  absent : Reply

abbrev pub History : Type 0
History = List Effect

-- The latest effect stands first in a history.
pub record Machine : Type 0 where
  pub reply : History → Effect → Reply
  pub getenv : Text → Text
  pub environ : List Text
  pub root : Text

pub data RunnerError : Type 0 where
  failed : Effect → RunnerError
  module_path_missing not_canonical origin_not_canonical : RunnerError
  coverage_missing coverage_invalid coverage_too_low : RunnerError
  no_benchmarks benchmarks_missing payload_metric_missing denominator_invalid : RunnerError
  savings_too_small cancelled race_failed json_failed : RunnerError
  benchmark_missing unknown_command : Text → RunnerError

-- The value of a command that returns nothing.
abbrev pub Done : Type 0
Done = Unit

abbrev pub Run : Type 0 → Type 0
Run A = History → (RunnerError ⊎ A) × History

module _ {A : Type 0} where
  abbrev pub return : A → Run A
  return a t = (inr a, t)

  abbrev pub raise : RunnerError → Run A
  raise e t = (inl e, t)

infixl 5 ◌>>=◌ ◌>>◌
abbrev pub ◌>>=◌ : {A B : Type 0} → Run A → (A → Run B) → Run B
◌>>=◌ m f t = let (r, t') = m t in elim r [ inr a ↦ f a t' | inl e ↦ (inl e, t') ]

abbrev pub ◌>>◌ : {A B : Type 0} → Run A → Run B → Run B
m >> k = m >>= λ _. k

-- filepath.Join of a clean path and a name below it.
abbrev pub join : Text → Text → Text
join path name = if eq_text path (codes "/") then path ++ name else path ++ codes "/" ++ name

abbrev pub assignment : Text × Text → Text
assignment (name, value) = name ++ codes "=" ++ value

-- buildRunnerEnv.
abbrev pub build_runner_env : Machine → Dict Text → List Text
build_runner_env m overrides =
    m.environ ++ codes "GOWORK=off" ∷ (codes "RUNNER_ROOT=" ++ m.root) ∷ map assignment overrides

abbrev pub process : Machine → Text → Dict Text → Text → List Text → Process
process m dir overrides binary args = record {
  dir = dir;
  env = build_runner_env m overrides;
  binary = binary;
  args = args;
}

-- What a call returns when only a failure matters.
abbrev pub answer : Effect → Reply → RunnerError ⊎ Done
answer e (gives text) = inr tt
answer e (fails text) = inl (failed e)
answer (remove path) absent = inr tt
answer e absent = inl (failed e)

-- handleRunnerProcess, getRunnerBinaryError, clearRunnerFile and the calls of package os.
unfoldable pub perform : Machine → Effect → Run Done
perform m e t = (answer e (m.reply t e), e ∷ t)

-- The text that a call gives: os.ReadFile, os.MkdirTemp.
abbrev pub text_of : Effect → Reply → RunnerError ⊎ Text
text_of e (gives text) = inr text
text_of e (fails text) = inl (failed e)
text_of e absent = inl (failed e)

unfoldable pub obtain : Machine → Effect → Run Text
obtain m e t = (text_of e (m.reply t e), e ∷ t)

-- handleRunnerProcess in the repository's root, with no override.
abbrev pub handle_process : Machine → Text → List Text → Run Done
handle_process m binary args = perform m (execute (process m m.root [] binary args))
