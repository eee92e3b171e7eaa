-- ===== src/ApiGuard/Commands.antt =====
-- tools/api_compat_guard/main.go: the check of the baseline and of the documentation, and the commands.
use go_grpcbridge.Base.{
  ◌++◌, Bool, not, Option, none, some, List, [], ◌∷◌, if◌then◌else◌, Text, codes, eq_text, contains,
  trim_space, Dict,
}
use go_grpcbridge.Config.{reject, ◌>>◌}
use go_grpcbridge.ApiGuard.{Toolchain, build_package_symbol_map, missing_symbols}

-- The files of the repository, by paths relative to its root, and encoding/json, which prints a
-- baseline with the instant of the call; `has_caller` says that runtime.Caller finds the source file.
pub record Files : Type 0 where
  pub has_caller : Bool
  pub read : Text → Option Text
  pub exists_file : Text → Bool
  pub accepts_write : Text → Text → Bool
  pub parse_baseline : Text → Option (Dict (List Text))
  pub print_baseline : Text → Dict (List Text) → Option Text

pub data GuardError : Type 0 where
  root_unknown root_invalid parse_failed unknown_command : GuardError
  baseline_unreadable baseline_invalid baseline_unprintable baseline_unwritable : GuardError
  document_missing document_unreadable section_missing : GuardError
  symbols_missing : List Text → GuardError

-- getAPIGuardRepositoryRootPath: its error.
unfoldable pub get_repository_root_error : Files → Option GuardError
get_repository_root_error files = do
  reject (not files.has_caller) root_unknown
  reject (not (files.exists_file (codes "go.mod"))) root_invalid

-- handleAPIGuardBaselineCheck; none is its nil error.
unfoldable pub check_symbols : Toolchain → Dict (List Text) → Dict (List Text) → Option GuardError
check_symbols tools current baseline = elim (missing_symbols current baseline) [
  | [] ↦ none
  | s ∷ missing ↦ some (symbols_missing (tools.sort (s ∷ missing)))
]

unfoldable pub handle_baseline_check :
    Toolchain → Files → Text → Dict (List Text) → Option GuardError
unfolding check_symbols
handle_baseline_check tools files path current = elim (files.read path) [
  | none ↦ some baseline_unreadable
  | some contents ↦ elim (files.parse_baseline contents) [
    | none ↦ some baseline_invalid
    | some baseline ↦ check_symbols tools current baseline
  ]
]

-- getAPIGuardDocumentationPath: the first candidate that exists.
unfoldable pub get_documentation_path : Files → List Text → Option Text
get_documentation_path files [] = none
get_documentation_path files (path ∷ paths) =
    let later = get_documentation_path files paths in
    if files.exists_file path then some path else later

unfoldable pub check_sections : Text → List Text → Option GuardError
check_sections text [] = none
check_sections text (section ∷ sections) = do
  reject (not (contains text section)) section_missing
  check_sections text sections

unfoldable pub check_document : Files → List Text → List Text → Option GuardError
unfolding check_sections
check_document files paths sections = elim (get_documentation_path files paths) [
  | none ↦ some document_missing
  | some path ↦ elim (files.read path) [
    | none ↦ some document_unreadable
    | some text ↦ check_sections text sections
  ]
]

-- handleAPIGuardDocumentationCheck; paths are relative to the repository's root.
unfoldable pub handle_documentation_check : Files → Option GuardError
unfolding check_document
handle_documentation_check files = do
  check_document files (codes "docs/core/API_COMPATIBILITY.md" ∷ codes "API_COMPATIBILITY.md" ∷ [])
      (codes "## Deprecation Lifecycle" ∷ codes "## CI and Release Enforcement" ∷ [])
  check_document files (codes "docs/core/MIGRATION.md" ∷ codes "MIGRATION.md" ∷ [])
      (codes "## Old to New Mapping" ∷ [])

abbrev pub baseline_path : Text
baseline_path = codes "tools/api_compat_guard/api_compatibility_baseline.json"

abbrev pub package_paths : List Text
package_paths = codes "pkg/grpctunnel" ∷ codes "pkg/bridge" ∷ []

-- What the guard returns, and the file that it has written.
abbrev pub Outcome : Type 0
Outcome = Option GuardError × Option (Text × Text)

-- storeAPIGuardBaselineFile.
unfoldable pub store_baseline_file : Files → Text → Text → Dict (List Text) → Outcome
store_baseline_file files now path current = elim (files.print_baseline now current) [
  | none ↦ (some baseline_unprintable, none)
  | some text ↦
      let contents = text ++ codes "\n" in
      if files.accepts_write path contents
      then (none, some (path, contents))
      else (some baseline_unwritable, none)
]

unfoldable pub command_of : List Text → Text
command_of [] = codes "check"
command_of (argument ∷ arguments) = trim_space argument

-- The command on the symbols of the packages; an update writes the baseline of this instant.
unfoldable pub run_command : Toolchain → Files → Text → Text → Dict (List Text) → Outcome
unfolding handle_documentation_check handle_baseline_check store_baseline_file
run_command tools files now command current =
    if eq_text command (codes "check")
    then (
      handle_documentation_check files >> handle_baseline_check tools files baseline_path current,
      none,
    )
    else if eq_text command (codes "update")
    then store_baseline_file files now baseline_path current
    else (some unknown_command, none)

-- handleAPIGuardMain.
unfoldable pub handle_api_guard_main : Toolchain → Files → Text → List Text → Outcome
unfolding run_command command_of get_repository_root_error
handle_api_guard_main tools files now arguments = elim (get_repository_root_error files) [
  | some e ↦ (some e, none)
  | none ↦ elim (build_package_symbol_map tools package_paths) [
    | none ↦ (some parse_failed, none)
    | some current ↦ run_command tools files now (command_of arguments) current
  ]
]
