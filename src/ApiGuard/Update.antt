-- ===== src/ApiGuard/Update.antt =====
-- What the two commands of the guard do, and that an update makes the next check pass.
use go_grpcbridge.Base.{
  ◌≡◌, ◌↔◌, refl, ap, sym, ◌∙◌, true, none, some, List, [], ◌∷◌, inl, inr, Text, codes, eq_text,
  eq_text_iff, All, arith, Option-cases, Dict, lookup, Option, ◌++◌, ◌≢◌, ◌⊎◌,
}
use go_grpcbridge.ApiGuard.{
  Toolchain, build_package_symbols, build_package_symbol_map, missing_symbols, has_symbol,
}
use go_grpcbridge.ApiGuard.Laws.{first_has, later_has, IsKept, missing_symbols-nil}
use go_grpcbridge.ApiGuard.Documents.{IsDocumented, documentation-none}
use go_grpcbridge.ApiGuard.Commands.{
  Files, check_symbols, handle_baseline_check, handle_documentation_check,
  get_repository_root_error, store_baseline_file, unknown_command, baseline_path, package_paths,
  command_of, run_command, handle_api_guard_main,
}
use go_grpcbridge.Config.{◌>>◌}
use mathlib.Core.Path.{subst}

check_symbols-passes :
    (tools : Toolchain) (current baseline : Dict (List Text))
    → (check_symbols tools current baseline ≡ none) ↔ IsKept current baseline
unfolding check_symbols
check_symbols-passes tools current baseline = split (missing_symbols current baseline) refl
  where
    split :
        (missing : List Text)
        → missing_symbols current baseline ≡ missing
        → (check_symbols tools current baseline ≡ none) ↔ IsKept current baseline
    split [] e = rw (e, check_symbols) (λ _. (missing_symbols-nil current baseline).0 e, λ _. refl)
    split (s ∷ missing) e =
        rw (e, check_symbols)
          (
            λ h. ground arith,
            λ kept. ground (arith, e, (missing_symbols-nil current baseline).1 kept),
          )

-- The stored baseline can be read, and none of its symbols is gone.
pub record HoldsBaseline (files : Files) (path : Text) (current : Dict (List Text)) : Type 0 where
  pub contents : Text
  pub baseline : Dict (List Text)
  pub reads : files.read path ≡ some contents
  pub parses : files.parse_baseline contents ≡ some baseline
  pub kept : IsKept current baseline

handle_baseline_check-passes :
    (tools : Toolchain) (files : Files) (path : Text) (current : Dict (List Text))
    → (handle_baseline_check tools files path current ≡ none) ↔ HoldsBaseline files path current
unfolding handle_baseline_check
handle_baseline_check-passes tools files path current = (
  λ h. elim (Option-cases (files.read path)) [
    | inl unreadable ↦ absurd (ground (arith, unreadable))
    | inr (contents, reads) ↦ elim (Option-cases (files.parse_baseline contents)) [
      | inl invalid ↦ absurd (ground (arith, reads, invalid))
      | inr (baseline, parses) ↦ record {
        contents = contents;
        baseline = baseline;
        reads = reads;
        parses = parses;
        kept = (check_symbols-passes tools current baseline).0 (ground (arith, reads, parses));
      }
    ]
  ],
  λ held.
      let passes = (check_symbols-passes tools current held.baseline).1 held.kept in
      ground (arith, held.reads, held.parses, passes),
)

-- The new baseline can be printed and written.
pub record CanStore (files : Files) (now : Text) (current : Dict (List Text)) : Type 0 where
  pub text : Text
  pub printed : files.print_baseline now current ≡ some text
  pub accepted : files.accepts_write baseline_path (text ++ codes "\n") ≡ true

store-none :
    (files : Files) (now : Text) (current : Dict (List Text))
    → ((store_baseline_file files now baseline_path current).0 ≡ none) ↔ CanStore files now current
unfolding store_baseline_file
store-none files now current = (
  λ h. elim (Option-cases (files.print_baseline now current)) [
    | inl bad ↦ absurd (ground (arith, bad))
    | inr (text, printed) ↦ record {
      text = text;
      printed = printed;
      accepted = ground (arith, printed);
    }
  ],
  λ c. ground (arith, c.printed, c.accepted),
)

-- The repository's root is known and has a go.mod.
abbrev pub HasRoot : Files → Type 0
HasRoot files = (files.has_caller ≡ true) × (files.exists_file (codes "go.mod") ≡ true)

root-none : (files : Files) → (get_repository_root_error files ≡ none) ↔ HasRoot files
unfolding get_repository_root_error
root-none files = ground arith

-- What a command requires of the current symbols.
pub data Fulfils (files : Files) (now : Text) (current : Dict (List Text)) : Text → Type 0 where
  checks :
      IsDocumented files
      → HoldsBaseline files baseline_path current
      → Fulfils files now current (codes "check")
  updates : CanStore files now current → Fulfils files now current (codes "update")

run_command-cases :
    (tools : Toolchain) (files : Files) (now command : Text) (current : Dict (List Text))
    → ((command ≡ codes "check")
        × (run_command tools files now command current ≡ (
          handle_documentation_check files
              >> handle_baseline_check tools files baseline_path current,
          none,
        )))
      ⊎ ((command ≡ codes "update")
          × (run_command tools files now command current
              ≡ store_baseline_file files now baseline_path current))
      ⊎ ((command ≢ codes "check")
          × (command ≢ codes "update")
          × (run_command tools files now command current ≡ (some unknown_command, none)))
unfolding run_command
run_command-cases tools files now command current =
    ground (arith, eq_text_iff command (codes "check"), eq_text_iff command (codes "update"))

both-none : {A : Type 0} (a b : Option A) → ((a >> b) ≡ none) ↔ ((a ≡ none) × (b ≡ none))
both-none none b = ground arith
both-none (some x) b = ground arith

run_command-Fulfils :
    (tools : Toolchain) (files : Files) (now command : Text) (current : Dict (List Text))
    → (run_command tools files now command current).0 ≡ none
    → Fulfils files now current command
run_command-Fulfils tools files now command current h =
    elim (run_command-cases tools files now command current) [
      | inl (check, ran) ↦
          let (documented, passes) = (both-none _ _).0 (sym (ap (λ r. r.0) ran) ∙ h) in
          subst (Fulfils files now current) (sym check) (
            checks ((documentation-none files).0 documented)
              ((handle_baseline_check-passes tools files baseline_path current).0 passes))
      | inr (inl (update, ran)) ↦
          subst (Fulfils files now current) (sym update)
            (updates ((store-none files now current).0 (sym (ap (λ r. r.0) ran) ∙ h)))
      | inr (inr (_, _, ran)) ↦ absurd (ground (arith, ran))
    ]

Fulfils-run_command :
    (tools : Toolchain) (files : Files) (now : Text) (current : Dict (List Text)) {command : Text}
    → Fulfils files now current command
    → (run_command tools files now command current).0 ≡ none
unfolding run_command eq_text
Fulfils-run_command tools files now current (checks documented held) = (both-none _ _).1 (
  (documentation-none files).1 documented,
  (handle_baseline_check-passes tools files baseline_path current).1 held,
)
Fulfils-run_command tools files now current (updates can) = (store-none files now current).1 can

-- The guard returns nil exactly when the repository's root is known and has a go.mod, the packages
-- parse, and either the command is "check", the documents can be read and have their sections, and
-- the baseline can be read and none of its symbols is gone, or the command is "update" and the new
-- baseline can be printed and written.
pub handle_api_guard_main-passes_iff :
    (tools : Toolchain) (files : Files) (now : Text) (arguments : List Text)
    → ((handle_api_guard_main tools files now arguments).0 ≡ none) ↔ (
        HasRoot files
        × (current : Dict (List Text)) × (build_package_symbol_map tools package_paths
            ≡ some current)
        × Fulfils files now current (command_of arguments))
unfolding handle_api_guard_main
handle_api_guard_main-passes_iff tools files now arguments = (
  λ h. elim (Option-cases (get_repository_root_error files)) [
    | inr (e, lost) ↦ absurd (ground (arith, lost))
    | inl rooted ↦ elim (Option-cases (build_package_symbol_map tools package_paths)) [
      | inl failed ↦ absurd (ground (arith, rooted, failed))
      | inr (current, parsed) ↦ (
        (root-none files).0 rooted,
        current,
        parsed,
        run_command-Fulfils tools files now (command_of arguments) current
            (ground (arith, rooted, parsed)),
      )
    ]
  ],
  λ (root, current, parsed, f).
      let rooted = (root-none files).1 root in
      ground (arith, rooted, parsed, Fulfils-run_command tools files now current f),
)

has-All :
    (xs ys : List Text)
    → ((s : Text) → has_symbol s xs ≡ true → has_symbol s ys ≡ true)
    → All (λ s. has_symbol s ys ≡ true) xs
has-All [] ys keeps = tt
has-All (x ∷ xs) ys keeps =
    (keeps x (first_has x xs), has-All xs ys (λ s h. keeps s (later_has s x xs h)))

-- The snapshot of the two packages.
abbrev snapshot : List Text → List Text → Dict (List Text)
snapshot tunnel bridge = (codes "pkg/grpctunnel", tunnel) ∷ ((codes "pkg/bridge", bridge) ∷ [])

current-cases :
    (tools : Toolchain) (current : Dict (List Text))
    → build_package_symbol_map tools package_paths ≡ some current
    → (tunnel : List Text) × ((bridge : List Text) × (current ≡ snapshot tunnel bridge))
unfolding build_package_symbol_map
current-cases tools current h =
    elim (Option-cases (build_package_symbols tools (codes "pkg/grpctunnel"))) [
      | inl failed ↦ absurd (ground (arith, failed))
      | inr (tunnel, parsed) ↦
          elim (Option-cases (build_package_symbols tools (codes "pkg/bridge"))) [
            | inl failed ↦ absurd (ground (arith, parsed, failed))
            | inr (bridge, parsed') ↦ (tunnel, (bridge, ground (arith, parsed, parsed')))
          ]
    ]

snapshot-IsKept :
    (tunnel bridge : List Text) → IsKept (snapshot tunnel bridge) (snapshot tunnel bridge)
unfolding lookup eq_text
snapshot-IsKept tunnel bridge =
    (has-All tunnel tunnel (λ s h. h), (has-All bridge bridge (λ s h. h), tt))

stored :
    (tools : Toolchain) (files : Files) (now command : Text) (current : Dict (List Text))
    → command ≡ codes "update"
    → store_baseline_file files now baseline_path current
      ≡ run_command tools files now command current
unfolding run_command eq_text
stored tools files now command current e = rw (e, run_command) refl

main_runs :
    (tools : Toolchain) (files : Files) (now : Text) (arguments : List Text)
    (current : Dict (List Text))
    → get_repository_root_error files ≡ none
    → build_package_symbol_map tools package_paths ≡ some current
    → handle_api_guard_main tools files now arguments
      ≡ run_command tools files now (command_of arguments) current
unfolding handle_api_guard_main
main_runs tools files now arguments current rooted parsed =
    rw (rooted, parsed, handle_api_guard_main) refl

-- What an update writes.
written :
    (tools : Toolchain) (files : Files) (now path text : Text) (arguments : List Text)
    → command_of arguments ≡ codes "update"
    → handle_api_guard_main tools files now arguments ≡ (none, some (path, text))
    → (current : Dict (List Text)) × (printed : Text) × (build_package_symbol_map tools
          package_paths
        ≡ some current)
      × (files.print_baseline now current ≡ some printed)
      × (path ≡ baseline_path)
      × (text ≡ printed ++ codes "\n")
unfolding handle_api_guard_main store_baseline_file
written tools files now path text arguments u w =
    elim (Option-cases (get_repository_root_error files)) [
      | inr (e, lost) ↦ absurd (ground (arith, lost))
      | inl rooted ↦ elim (Option-cases (build_package_symbol_map tools package_paths)) [
        | inl failed ↦ absurd (ground (arith, rooted, failed))
        | inr (current, parsed) ↦
            let ran : store_baseline_file files now baseline_path current
                ≡ (none, some (path, text)) =
              stored tools files now (command_of arguments) current u
              ∙ sym (main_runs tools files now arguments current rooted parsed)
              ∙ w in
            elim (Option-cases (files.print_baseline now current)) [
              | inl bad ↦ absurd (ground (arith, ran, bad))
              | inr (printed, spelled) ↦
                  let (place, contents) : (path ≡ baseline_path) × (text ≡ printed ++ codes "\n") =
                    ground (arith, ran, spelled) in
                  (current, printed, parsed, spelled, place, contents)
            ]
      ]
    ]

-- A check writes nothing.
check_writes :
    (tools : Toolchain) (files : Files) (now : Text)
    → (handle_api_guard_main tools files now []).1 ≡ none
unfolding handle_api_guard_main run_command command_of eq_text
check_writes tools files now = ground arith

-- An update that wrote its file makes the next check pass, while the source stays the same: where
-- the repository has its root, the documents have their sections, the file has what the update
-- wrote, and the encoding of that baseline is read back as it was.
pub update-check :
    (tools : Toolchain) (files files' : Files) (now later path text : Text) (arguments : List Text)
    → command_of arguments ≡ codes "update"
    → handle_api_guard_main tools files now arguments ≡ (none, some (path, text))
    → files'.read path ≡ some text
    → ((d : Dict (List Text)) (printed : Text)
        → build_package_symbol_map tools package_paths ≡ some d
        → files.print_baseline now d ≡ some printed
        → files'.parse_baseline (printed ++ codes "\n") ≡ some d)
    → HasRoot files'
    → IsDocumented files'
    → handle_api_guard_main tools files' later [] ≡ (none, none)
unfolding command_of
update-check tools files files' now later path text arguments u w r back root documented =
    let (current, printed, parsed, spelled, place, contents) =
      written tools files now path text arguments u w in
    let (tunnel, (bridge, shape)) = current-cases tools current parsed in
    let passes = (handle_api_guard_main-passes_iff tools files' later []).1 (
      root,
      current,
      parsed,
      checks documented (record {
        contents = text;
        baseline = current;
        reads = ap files'.read (sym place) ∙ r;
        parses = ap files'.parse_baseline contents ∙ back current printed parsed spelled;
        kept = rw shape (snapshot-IsKept tunnel bridge);
      }),
    ) in
    ap (λ e. (e, (handle_api_guard_main tools files' later []).1)) passes
    ∙ ap (λ file. (none, file)) (check_writes tools files' later)
