-- ===== src/ApiGuard/Documents.antt =====
-- The documentation check of tools/api_compat_guard/main.go.
use mathlib.Core.Path.{subst}
use go_grpcbridge.Base.{
  ◌≡◌, ◌↔◌, true, false, none, some, List, [], ◌∷◌, Text, codes, contains, All, arith, Option-cases,
  Bool-cases, inl, inr,
}
use go_grpcbridge.ApiGuard.Commands.{
  Files, get_documentation_path, check_sections, check_document, handle_documentation_check,
}

-- The first of some candidates that exists.
pub data FirstFound (files : Files) : List Text → Text → Type 0 where
  at_head :
      (path : Text) (paths : List Text)
      → files.exists_file path ≡ true
      → FirstFound files (path ∷ paths) path
  in_tail :
      (other : Text) {path : Text} {paths : List Text}
      → files.exists_file other ≡ false
      → FirstFound files paths path
      → FirstFound files (other ∷ paths) path

found_first :
    (files : Files) (paths : List Text) (path : Text)
    → get_documentation_path files paths ≡ some path
    → FirstFound files paths path
unfolding get_documentation_path
found_first files [] path h = absurd (ground arith)
found_first files (p ∷ paths) path h = elim (Bool-cases (files.exists_file p)) [
  | inr absent ↦ in_tail p absent (found_first files paths path (ground (arith, absent)))
  | inl there ↦
      let same : p ≡ path = ground (arith, there) in
      subst (FirstFound files (p ∷ paths)) same (at_head p paths there)
]

first_found :
    {files : Files} {paths : List Text} {path : Text}
    → FirstFound files paths path
    → get_documentation_path files paths ≡ some path
unfolding get_documentation_path
first_found (at_head path paths there) = ground (arith, there)
first_found (in_tail other absent d) = ground (arith, absent, first_found d)

-- The document at the first of the paths that exists can be read, and has the sections.
pub record HasDocument (files : Files) (paths sections : List Text) : Type 0 where
  pub path : Text
  pub text : Text
  pub located : FirstFound files paths path
  pub readable : files.read path ≡ some text
  pub complete : All (λ section. contains text section ≡ true) sections

check_sections-none :
    (text : Text) (sections : List Text)
    → (check_sections text sections ≡ none) ↔ All (λ section. contains text section ≡ true) sections
unfolding check_sections
check_sections-none text [] = ground arith
check_sections-none text (section ∷ sections) = ground (arith, check_sections-none text sections)

check_document-none :
    (files : Files) (paths sections : List Text)
    → (check_document files paths sections ≡ none) ↔ HasDocument files paths sections
unfolding check_document
check_document-none files paths sections = (
  λ h. elim (Option-cases (get_documentation_path files paths)) [
    | inl nowhere ↦ absurd (ground (arith, nowhere))
    | inr (path, located) ↦ elim (Option-cases (files.read path)) [
      | inl unreadable ↦ absurd (ground (arith, located, unreadable))
      | inr (text, readable) ↦ record {
        path = path;
        text = text;
        located = found_first files paths path located;
        readable = readable;
        complete = (check_sections-none text sections).0 (ground (arith, located, readable));
      }
    ]
  ],
  λ d.
      let complete = (check_sections-none d.text sections).1 d.complete in
      ground (arith, first_found d.located, d.readable, complete),
)

-- The compatibility policy and the migration guide have their sections.
abbrev pub IsDocumented : Files → Type 0
IsDocumented files =
    HasDocument files (codes "docs/core/API_COMPATIBILITY.md" ∷ codes "API_COMPATIBILITY.md" ∷ [])
      (codes "## Deprecation Lifecycle" ∷ codes "## CI and Release Enforcement" ∷ [])
    × HasDocument files (codes "docs/core/MIGRATION.md" ∷ codes "MIGRATION.md" ∷ [])
        (codes "## Old to New Mapping" ∷ [])

pub documentation-none :
    (files : Files) → (handle_documentation_check files ≡ none) ↔ IsDocumented files
unfolding handle_documentation_check
documentation-none files = ground (
  arith,
  check_document-none files
      (codes "docs/core/API_COMPATIBILITY.md" ∷ codes "API_COMPATIBILITY.md" ∷ [])
      (codes "## Deprecation Lifecycle" ∷ codes "## CI and Release Enforcement" ∷ []),
  check_document-none files (codes "docs/core/MIGRATION.md" ∷ codes "MIGRATION.md" ∷ [])
      (codes "## Old to New Mapping" ∷ []),
)
