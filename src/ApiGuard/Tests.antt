-- ===== src/ApiGuard/Tests.antt =====
-- The guard on two packages that export one function each.
use go_grpcbridge.Base.{
  ℕ, ◌++◌, ◌≡◌, ◌↔◌, refl, sym, ◌∙◌, Bool, true, false, ◌&&◌, Option, none, some, List, [], ◌∷◌,
  if◌then◌else◌, Text, codes, eq_text, leb, Any, Dict, trim_space, arith,
}
use go_grpcbridge.ApiGuard.{
  Toolchain, Decl, star, ident, func_decl, build_package_symbols, build_package_symbol_map,
  symbols_of, has_symbol,
}
use go_grpcbridge.ApiGuard.Laws.{Exports, build_package_symbols-has}
use go_grpcbridge.ApiGuard.Commands.{
  Files, handle_api_guard_main, command_of, package_paths, baseline_path,
}
use go_grpcbridge.ApiGuard.Documents.{IsDocumented, at_head}
use go_grpcbridge.ApiGuard.Update.{HasRoot, Fulfils, handle_api_guard_main-passes_iff, update-check}

-- Dial is exported, and parse is not.
abbrev decls : List Decl
decls = func_decl (codes "Dial") none ∷ (func_decl (codes "parse") none ∷ [])

-- The same with a method of a pointer.
abbrev method_decls : List Decl
method_decls = func_decl (codes "Read") (some (star (ident (codes "Conn")))) ∷ decls

abbrev tools : Toolchain
tools = record {
  is_upper = λ c. leb b'A' c && leb c b'Z';
  sort = λ symbols. symbols;
  parse_dir = λ keeps path. some decls;
}

abbrev method_tools : Toolchain
method_tools = record tools { parse_dir = λ keeps path. some method_decls }

build_package_symbols-has_example :
    (has_symbol
        (codes "method (*Conn) Read")
        (symbols_of (build_package_symbols method_tools (codes "pkg/bridge")))
      ≡ true)
    ↔ Any (λ d. Exports tools.is_upper d (codes "method (*Conn) Read")) method_decls
build_package_symbols-has_example =
    build_package_symbols-has method_tools (codes "pkg/bridge") method_decls
      (codes "method (*Conn) Read") (λ s symbols. refl) refl

abbrev document : Text
document = codes "## Deprecation Lifecycle ## CI and Release Enforcement ## Old to New Mapping"

abbrev snapshot : Dict (List Text)
snapshot =
    (codes "pkg/grpctunnel", codes "func Dial" ∷ [])
    ∷ ((codes "pkg/bridge", codes "func Dial" ∷ []) ∷ [])

abbrev encoded : Text
encoded = codes "baseline"

abbrev files : Files
files = record {
  read = λ path. if eq_text path baseline_path then some (encoded ++ codes "\n") else some document;
  has_caller = true;
  exists_file = λ path. true;
  accepts_write = λ path contents. true;
  parse_baseline = λ text. some snapshot;
  print_baseline = λ now packages. some encoded;
}

built : build_package_symbol_map tools package_paths ≡ some snapshot
unfolding build_package_symbol_map go_grpcbridge.Base.eq_text go_grpcbridge.ApiGuard.is_exported
    go_grpcbridge.ApiGuard.func_symbol go_grpcbridge.ApiGuard.store_symbol
built = refl

documented : IsDocumented files
unfolding go_grpcbridge.Base.contains go_grpcbridge.Base.cut go_grpcbridge.Base.cut_prefix
    go_grpcbridge.Base.eq_text
documented = (
  record {
    path = codes "docs/core/API_COMPATIBILITY.md";
    text = document;
    located = at_head _ _ refl;
    readable = refl;
    complete = (refl, (refl, tt));
  },
  record {
    path = codes "docs/core/MIGRATION.md";
    text = document;
    located = at_head _ _ refl;
    readable = refl;
    complete = (refl, tt);
  },
)

updated :
    handle_api_guard_main tools files (codes "now") (codes "update" ∷ [])
    ≡ (none, some (baseline_path, encoded ++ codes "\n"))
unfolding handle_api_guard_main go_grpcbridge.ApiGuard.Commands.get_repository_root_error
    go_grpcbridge.ApiGuard.Commands.store_baseline_file go_grpcbridge.Base.eq_text
    go_grpcbridge.Base.trim_space
updated = rw (built, handle_api_guard_main) refl

handle_api_guard_main-passes_iff_example :
    ((handle_api_guard_main tools files (codes "now") []).0 ≡ none) ↔ (
      HasRoot files
      × (current : Dict (List Text)) × (build_package_symbol_map tools package_paths ≡ some current)
      × Fulfils files (codes "now") current (command_of []))
handle_api_guard_main-passes_iff_example =
    handle_api_guard_main-passes_iff tools files (codes "now") []

update-check_example : handle_api_guard_main tools files (codes "later") [] ≡ (none, none)
unfolding command_of go_grpcbridge.Base.eq_text go_grpcbridge.Base.trim_space
update-check_example =
    update-check tools files files (codes "now") (codes "later") baseline_path
      (encoded ++ codes "\n") (codes "update" ∷ []) refl updated refl
      (λ d printed e p. sym built ∙ e) (refl, refl) documented
