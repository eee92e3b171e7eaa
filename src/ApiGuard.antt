-- ===== src/ApiGuard.antt =====
-- tools/api_compat_guard/main.go: the exported symbols of a package, the check of them against the stored
-- baseline and of the documentation, and the two commands. The Go parser's output, package sort,
-- encoding/json and the files are arguments; a symbol set is a list without repetitions.
pub mod Laws
pub mod Commands
pub mod Documents
pub mod Update
pub mod Tests
use go_grpcbridge.Base.{
  ℕ, ◌++◌, Bool, true, false, not, Option, none, some, List, [], ◌∷◌, if◌then◌else◌, Text, codes,
  eq_text, has_suffix, contains, trim_space, Dict, lookup,
}
use go_grpcbridge.Config.{reject, ◌>>◌}

-- What the guard reads of go/ast.
pub data Expr : Type 0 where
  star : Expr → Expr
  ident : Text → Expr
  -- IndexExpr and IndexListExpr, without the indices.
  index : Expr → Expr
  selector : Text → Expr
  other_expr : Expr

pub data Spec : Type 0 where
  type_spec : Text → Spec
  value_spec : List Text → Spec
  other_spec : Spec

pub data Token : Type 0 where
  type_token const_token var_token other_token : Token

-- A function has its name and the type of its first receiver.
pub data Decl : Type 0 where
  gen_decl : Token → List Spec → Decl
  func_decl : Text → Option Expr → Decl
  bad_decl : Decl

-- ast.Ident.IsExported, over unicode.IsUpper.
pub is_exported : (ℕ → Bool) → Text → Bool
is_exported is_upper [] = false
is_exported is_upper (c ∷ s) = is_upper c

unfoldable pub has_symbol : Text → List Text → Bool
has_symbol s [] = false
has_symbol s (t ∷ set) = let later = has_symbol s set in if eq_text s t then true else later

-- `set[symbol] = struct{}{}`.
pub store_symbol : Text → List Text → List Text
unfolding has_symbol
store_symbol s set = if has_symbol s set then set else s ∷ set

pub store_if : Bool → Text → List Text → List Text
unfolding store_symbol
store_if exported s set = if exported then store_symbol s set else set

-- The names of one ValueSpec behind "const " or "var ".
pub store_names : (ℕ → Bool) → Text → List Text → List Text → List Text
unfolding store_if is_exported
store_names is_upper keyword [] set = set
store_names is_upper keyword (name ∷ names) set =
    store_names is_upper keyword names (store_if (is_exported is_upper name) (keyword ++ name) set)

pub store_spec : (ℕ → Bool) → Token → Spec → List Text → List Text
unfolding store_names
store_spec is_upper type_token (type_spec name) set =
    store_if (is_exported is_upper name) (codes "type " ++ name) set
store_spec is_upper const_token (value_spec names) set =
    store_names is_upper (codes "const ") names set
store_spec is_upper var_token (value_spec names) set = store_names is_upper (codes "var ") names set
store_spec is_upper token spec set = set

-- storeAPIGuardGenDeclarationSymbols.
pub store_gen_declaration_symbols : (ℕ → Bool) → Token → List Spec → List Text → List Text
unfolding store_spec
store_gen_declaration_symbols is_upper token [] set = set
store_gen_declaration_symbols is_upper token (spec ∷ specs) set =
    store_gen_declaration_symbols is_upper token specs (store_spec is_upper token spec set)

-- getAPIGuardReceiverTypeName.
pub get_receiver_type_name : Expr → Text
get_receiver_type_name (star x) = codes "*" ++ get_receiver_type_name x
get_receiver_type_name (ident name) = name
get_receiver_type_name (index x) = get_receiver_type_name x
get_receiver_type_name (selector name) = name
get_receiver_type_name other_expr = codes "unknown"

-- storeAPIGuardFuncDeclarationSymbol.
pub func_symbol : Text → Option Expr → Text
unfolding get_receiver_type_name
func_symbol name none = codes "func " ++ name
func_symbol name (some receiver) =
    (codes "method (" ++ get_receiver_type_name receiver) ++ (codes ") " ++ name)

-- storeAPIGuardDeclarationSymbols.
pub store_declaration_symbols : (ℕ → Bool) → Decl → List Text → List Text
unfolding store_gen_declaration_symbols func_symbol
store_declaration_symbols is_upper (gen_decl token specs) set =
    store_gen_declaration_symbols is_upper token specs set
store_declaration_symbols is_upper (func_decl name receiver) set =
    store_if (is_exported is_upper name) (func_symbol name receiver) set
store_declaration_symbols is_upper bad_decl set = set

-- The declarations of all files of a package, one after the other.
pub collect_symbols : (ℕ → Bool) → List Decl → List Text → List Text
unfolding store_declaration_symbols
collect_symbols is_upper [] set = set
collect_symbols is_upper (d ∷ ds) set =
    collect_symbols is_upper ds (store_declaration_symbols is_upper d set)

-- The libraries: unicode.IsUpper, sort.Strings, and parser.ParseDir with its filter (none on an error).
pub record Toolchain : Type 0 where
  pub is_upper : ℕ → Bool
  pub sort : List Text → List Text
  pub parse_dir : (Text → Bool) → Text → Option (List Decl)

-- The filter of the files of a package: the Go files that are not tests.
pub is_api_file : Text → Bool
is_api_file name =
    let trimmed = trim_space name in
    if has_suffix trimmed (codes "_test.go") then false else has_suffix trimmed (codes ".go")

-- buildAPIGuardPackageSymbols.
pub build_package_symbols : Toolchain → Text → Option (List Text)
unfolding collect_symbols
build_package_symbols tools path = elim (tools.parse_dir is_api_file path) [
  | none ↦ none
  | some decls ↦ some (tools.sort (collect_symbols tools.is_upper decls []))
]

-- buildAPIGuardPackageSymbolMap.
pub build_package_symbol_map : Toolchain → List Text → Option (Dict (List Text))
unfolding build_package_symbols
build_package_symbol_map tools [] = some []
build_package_symbol_map tools (path ∷ paths) =
    let rest = build_package_symbol_map tools paths in
    elim (build_package_symbols tools path) [
      | none ↦ none
      | some symbols ↦ elim rest [ none ↦ none | some packages ↦ some ((path, symbols) ∷ packages) ]
    ]

abbrev pub symbols_of : Option (List Text) → List Text
symbols_of none = []
symbols_of (some symbols) = symbols

-- The symbols of one package of the baseline that are gone.
pub missing_of : Text → List Text → List Text → List Text
unfolding has_symbol
missing_of path current [] = []
missing_of path current (s ∷ symbols) =
    let rest = missing_of path current symbols in
    if has_symbol s current then rest else ((path ++ codes "::") ++ s) ∷ rest

pub missing_symbols : Dict (List Text) → Dict (List Text) → List Text
unfolding missing_of
missing_symbols current [] = []
missing_symbols current ((path, symbols) ∷ baseline) =
    missing_of path (symbols_of (lookup path current)) symbols ++ missing_symbols current baseline
