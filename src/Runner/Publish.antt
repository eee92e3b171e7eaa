-- ===== src/Runner/Publish.antt =====
-- tools/runner.go: canonical-publish-check, with its parsers of go.mod and of repository URLs.
pub mod Laws
use mathlib.Core.Option.{bind}
use go_grpcbridge.Base.{
  ℕ, Bool, true, false, not, ◌&&◌, ◌||◌, Option, none, some, List, [], ◌∷◌, ◌++◌, ◌⊎◌, inl, inr,
  if◌then◌else◌, ◌==◌, Text, codes, eq_text, trim_space, trim_suffix, cut_prefix, is_empty, Dict,
  insert, map,
}
use go_grpcbridge.Runner.{
  Process, Effect, execute, capture, read_file, make_directory, make_temp, remove_all, write_file,
  Machine, RunnerError, module_path_missing, not_canonical, origin_not_canonical, Done, Run, return,
  raise, ◌>>=◌, ◌>>◌, join, process, perform, obtain,
}
use go_grpcbridge.Runner.Quality.{is_pattern_space, some_spaces, or_raise, raise_if}

-- `\S*` at the head of a text, and what follows.
word_and_rest : Text → Text × Text
word_and_rest [] = ([], [])
word_and_rest (c ∷ s) =
    let (word, rest) = word_and_rest s in
    if is_pattern_space c then ([], c ∷ s) else (c ∷ word, rest)

-- `\s*$` with `$` at the end of any line.
ends_line : Text → Bool
ends_line [] = true
ends_line (c ∷ s) = c == 10 || (is_pattern_space c && ends_line s)

abbrev full_word : Text × Text → Option Text
full_word ([], rest) = none
full_word (c ∷ word, rest) = if ends_line rest then some (c ∷ word) else none

-- `module\s+(\S+)\s*$` at the head of a text.
pub match_module : Text → Option Text
unfolding word_and_rest ends_line
match_module s =
    bind (cut_prefix s (codes "module")) λ a. bind (some_spaces a) λ b. full_word (word_and_rest b)

-- Its first match at the start of a line; the flag tells whether a line starts here.
pub find_module : Bool → Text → Option Text
unfolding match_module
find_module starts [] = none
find_module starts (c ∷ s) =
    let later = find_module (c == 10) s in
    if starts then elim (match_module (c ∷ s)) [ some word ↦ some word | none ↦ later ] else later

-- parseRunnerGoModModulePath.
pub parse_runner_go_mod_module_path : Text → Option Text
unfolding find_module
parse_runner_go_mod_module_path contents = elim (find_module true contents) [
  | none ↦ none
  | some word ↦ some (trim_space word)
]

abbrev ssh_to_https : Text → Text
ssh_to_https url = elim (cut_prefix url (codes "git@github.com:")) [
  | none ↦ url
  | some path ↦ codes "https://github.com/" ++ path
]

-- normalizeRunnerRepositoryURL.
pub normalize_runner_repository_url : Text → Text
normalize_runner_repository_url url = ssh_to_https (trim_suffix (trim_space url) (codes ".git"))

abbrev pub canonical_module_path : Text
canonical_module_path = codes "github.com/monstercameron/GoGRPCBridge"

abbrev pub canonical_repository_url : Text
canonical_repository_url = codes "https://github.com/monstercameron/GoGRPCBridge"

-- buildRunnerCanonicalRepositoryURLs.
pub build_runner_canonical_repository_urls : List Text
unfolding normalize_runner_repository_url
build_runner_canonical_repository_urls =
    let url = normalize_runner_repository_url canonical_repository_url in
    if is_empty url then [] else url ∷ []

contains_url : Text → List Text → Bool
contains_url url [] = false
contains_url url (allowed ∷ urls) = eq_text url allowed || contains_url url urls

-- hasRunnerCanonicalRepositoryURL.
pub has_runner_canonical_repository_url : Text → List Text → Bool
unfolding contains_url
has_runner_canonical_repository_url url urls =
    contains_url (normalize_runner_repository_url url) urls

-- hasRunnerSkipCanonicalOriginCheck; strings.ToLower is an argument.
pub has_runner_skip_canonical_origin_check : (Text → Text) → Machine → Bool
has_runner_skip_canonical_origin_check to_lower m =
    let value = trim_space (to_lower (m.getenv (codes "RUNNER_CANONICAL_SKIP_ORIGIN"))) in
    eq_text value (codes "1") || eq_text value (codes "true") || eq_text value (codes "yes")

-- buildRunnerCanonicalEnv.
pub build_runner_canonical_env : Machine → Dict Text
build_runner_canonical_env m =
    let proxy = trim_space (m.getenv (codes "RUNNER_CANONICAL_GOPROXY")) in
    if is_empty proxy then [] else (codes "GOPROXY", proxy) ∷ []

put_all : Dict Text → Dict Text → Dict Text
put_all [] env = env
put_all ((name, value) ∷ more) env = put_all more (insert name value env)

-- buildRunnerCanonicalWASMEnv.
pub build_runner_canonical_wasm_env : Dict Text → Dict Text
unfolding put_all
build_runner_canonical_wasm_env env =
    put_all env ((codes "GOOS", codes "js") ∷ (codes "GOARCH", codes "wasm") ∷ [])

abbrev git_output : Machine → List Text → Effect
git_output m args = capture (process m m.root [] (codes "git") args)

abbrev pub origin_effect : Machine → Effect
origin_effect m = git_output m (map codes ("remote" ∷ "get-url" ∷ "origin" ∷ []))

-- The check of the origin remote.
pub check_origin_remote : (Text → Text) → Machine → Run Done
check_origin_remote to_lower m =
    if has_runner_skip_canonical_origin_check to_lower m
    then return tt
    else (obtain m (origin_effect m) >>= λ output.
        raise_if
          (not (
            has_runner_canonical_repository_url
              (normalize_runner_repository_url (trim_space output))
              build_runner_canonical_repository_urls))
          origin_not_canonical)

-- Each accepted repository answers.
pub reach_repositories : Machine → List Text → Run Done
reach_repositories m [] = return tt
reach_repositories m (url ∷ urls) =
    obtain m (git_output m (codes "ls-remote" ∷ url ∷ codes "HEAD" ∷ []))
    >> reach_repositories m urls

-- What precedes the smoke directory.
pub check_identity : (Text → Text) → Machine → Run Done
unfolding parse_runner_go_mod_module_path check_origin_remote reach_repositories
check_identity to_lower m = do
  contents ← obtain m (read_file (join m.root (codes "go.mod")))
  path ← or_raise (parse_runner_go_mod_module_path contents) module_path_missing
  raise_if (not (eq_text path canonical_module_path)) not_canonical
  check_origin_remote to_lower m
  reach_repositories m build_runner_canonical_repository_urls

abbrev smoke_go : Machine → Text → Dict Text → List Text → Run Done
smoke_go m dir env args = perform m (execute (process m dir env (codes "go") args))

abbrev import_line : Text
import_line =
    codes "package main\n\nimport _ \""
    ++ canonical_module_path
    ++ codes "/pkg/grpctunnel\"\n\nfunc main() {}\n"

-- What is done in the smoke directory.
pub smoke_consumer : Machine → Text → Run Done
unfolding build_runner_canonical_env build_runner_canonical_wasm_env
smoke_consumer m dir =
    let env = build_runner_canonical_env m in
    let server = join dir (codes "server") in
    let wasm = join dir (codes "wasm") in
    do
      smoke_go m dir env
          (map codes ("mod" ∷ "init" ∷ "example.com/gogrpcbridge-publish-smoke" ∷ []))
      smoke_go m dir env (codes "get" ∷ (canonical_module_path ++ codes "@latest") ∷ [])
      smoke_go m dir env
          (codes "get" ∷ (canonical_module_path ++ codes "/pkg/grpctunnel@latest") ∷ [])
      perform m (make_directory server)
      perform m (make_directory (join dir (codes "bin")))
      perform m (write_file (join server (codes "main.go")) import_line)
      smoke_go m dir env (map codes ("build" ∷ "-o" ∷ "bin/server-smoke" ∷ "./server" ∷ []))
      perform m (make_directory wasm)
      perform m (
          write_file (join wasm (codes "main.go"))
            (codes "//go:build js && wasm\n\n" ++ import_line))
      smoke_go m dir (build_runner_canonical_wasm_env env)
          (map codes ("build" ∷ "-o" ∷ "bin/wasm-smoke.wasm" ∷ "./wasm" ∷ []))

-- The deferred removal of a directory: its own error is dropped.
abbrev pub deferring : Text → Run Done → Run Done
deferring dir k t = let (r, t') = k t in (r, remove_all dir ∷ t')

-- handleRunnerCanonicalPublishCheck.
pub handle_runner_canonical_publish_check : (Text → Text) → Machine → Run Done
unfolding check_identity smoke_consumer
handle_runner_canonical_publish_check to_lower m = do
  check_identity to_lower m
  dir ← obtain m make_temp
  deferring dir (smoke_consumer m dir)
