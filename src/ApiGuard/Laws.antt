-- ===== src/ApiGuard/Laws.antt =====
-- Which symbols the guard finds in a package, and when none of the baseline is gone.
use go_grpcbridge.Base.{
  ℕ, ◌++◌, ◌≡◌, ◌↔◌, refl, ap, ◌∙◌, Bool, true, false, Option, none, some, List, [], ◌∷◌, ◌⊎◌, inl,
  inr, Text, codes, eq_text_iff, Any, All, arith, Bool-cases, Dict, lookup,
}
use go_grpcbridge.ApiGuard.{
  is_api_file, Expr, star, ident, index, selector, other_expr, get_receiver_type_name, Spec,
  type_spec, value_spec, other_spec, Token, type_token, const_token, var_token, other_token, Decl,
  gen_decl, func_decl, bad_decl, is_exported, has_symbol, store_symbol, store_if, store_names,
  store_spec, store_gen_declaration_symbols, func_symbol, store_declaration_symbols,
  collect_symbols, Toolchain, build_package_symbols, symbols_of, missing_of, missing_symbols,
}

-- A name that begins with an upper-case letter.
abbrev pub StartsUpper : (ℕ → Bool) → Text → Type 0
StartsUpper is_upper [] = ⊥
StartsUpper is_upper (c ∷ s) = is_upper c ≡ true

is_exported_iff :
    (is_upper : ℕ → Bool) (name : Text)
    → (is_exported is_upper name ≡ true) ↔ StartsUpper is_upper name
unfolding is_exported
is_exported_iff is_upper [] = ground arith
is_exported_iff is_upper (c ∷ s) = (λ h. h, λ h. h)

-- The name of the type of a receiver: stars are kept, and type arguments left out.
pub data Spells : Expr → Text → Type 0 where
  by_name : (name : Text) → Spells (ident name) name
  by_pointer : {x : Expr} {name : Text} → Spells x name → Spells (star x) (codes "*" ++ name)
  by_instance : {x : Expr} {name : Text} → Spells x name → Spells (index x) name
  by_selector : (name : Text) → Spells (selector name) name
  by_nothing : Spells other_expr (codes "unknown")

spelled : (x : Expr) → Spells x (get_receiver_type_name x)
unfolding get_receiver_type_name
spelled (star x) = by_pointer (spelled x)
spelled (ident name) = by_name name
spelled (index x) = by_instance (spelled x)
spelled (selector name) = by_selector name
spelled other_expr = by_nothing

spelled_unique : {x : Expr} {name : Text} → Spells x name → name ≡ get_receiver_type_name x
unfolding get_receiver_type_name
spelled_unique (by_name name) = refl
spelled_unique (by_pointer d) = ap (λ name. codes "*" ++ name) (spelled_unique d)
spelled_unique (by_instance d) = spelled_unique d
spelled_unique (by_selector name) = refl
spelled_unique by_nothing = refl

-- The symbol of a function or of a method, with the name of its receiver.
abbrev pub NamesFunction : Text → Option Expr → Text → Type 0
NamesFunction name none s = s ≡ codes "func " ++ name
NamesFunction name (some receiver) s =
    (type_name : Text) × Spells receiver type_name
    × (s ≡ codes "method (" ++ (type_name ++ (codes ") " ++ name)))

func_symbol_iff :
    (name : Text) (receiver : Option Expr) (s : Text)
    → (s ≡ func_symbol name receiver) ↔ NamesFunction name receiver s
unfolding func_symbol
func_symbol_iff name none s = (λ h. h, λ h. h)
func_symbol_iff name (some receiver) s = (
  λ h. (get_receiver_type_name receiver, spelled receiver, h),
  λ (type_name, d, h).
      h ∙ ap (λ r. codes "method (" ++ (r ++ (codes ") " ++ name))) (spelled_unique d),
)

-- A value declaration exports the symbol.
abbrev pub NamesExport : (ℕ → Bool) → Text → List Text → Text → Type 0
NamesExport is_upper keyword names s =
    Any (λ name. StartsUpper is_upper name × (s ≡ keyword ++ name)) names

abbrev pub SpecExports : (ℕ → Bool) → Token → Spec → Text → Type 0
SpecExports is_upper type_token (type_spec name) s =
    StartsUpper is_upper name × (s ≡ codes "type " ++ name)
SpecExports is_upper const_token (value_spec names) s =
    NamesExport is_upper (codes "const ") names s
SpecExports is_upper var_token (value_spec names) s = NamesExport is_upper (codes "var ") names s
SpecExports is_upper token spec s = ⊥

-- The symbols that a declaration exports.
abbrev pub Exports : (ℕ → Bool) → Decl → Text → Type 0
Exports is_upper (gen_decl token specs) s = Any (λ spec. SpecExports is_upper token spec s) specs
Exports is_upper (func_decl name receiver) s =
    StartsUpper is_upper name × NamesFunction name receiver s
Exports is_upper bad_decl s = ⊥

store_symbol-has :
    (s t : Text) (set : List Text)
    → (has_symbol s (store_symbol t set) ≡ true) ↔ ((s ≡ t) ⊎ (has_symbol s set ≡ true))
unfolding store_symbol has_symbol
store_symbol-has s t set = elim (Bool-cases (has_symbol t set)) [
  | inl there ↦
      rw there
        (λ h. inr h, λ h. elim h [ inl e ↦ ap (λ x. has_symbol x set) e ∙ there | inr old ↦ old ])
  | inr fresh ↦ rw fresh (ground (arith, eq_text_iff s t))
]

store_if-has :
    (exported : Bool) (s t : Text) (set : List Text)
    → (has_symbol s (store_if exported t set) ≡ true)
      ↔ (((exported ≡ true) × (s ≡ t)) ⊎ (has_symbol s set ≡ true))
unfolding store_if
store_if-has true s t set = ground (arith, store_symbol-has s t set)
store_if-has false s t set = ground arith

store_names-has :
    (is_upper : ℕ → Bool) (keyword : Text) (names : List Text) (s : Text) (set : List Text)
    → (has_symbol s (store_names is_upper keyword names set) ≡ true)
      ↔ (NamesExport is_upper keyword names s ⊎ (has_symbol s set ≡ true))
unfolding store_names
store_names-has is_upper keyword [] s set = ground arith
store_names-has is_upper keyword (name ∷ names) s set = ground (
  arith,
  store_names-has is_upper keyword names s
      (store_if (is_exported is_upper name) (keyword ++ name) set),
  store_if-has (is_exported is_upper name) s (keyword ++ name) set,
  is_exported_iff is_upper name,
)

store_spec-has :
    (is_upper : ℕ → Bool) (token : Token) (spec : Spec) (s : Text) (set : List Text)
    → (has_symbol s (store_spec is_upper token spec set) ≡ true)
      ↔ (SpecExports is_upper token spec s ⊎ (has_symbol s set ≡ true))
unfolding store_spec
store_spec-has is_upper type_token (type_spec name) s set = ground (
  arith,
  store_if-has (is_exported is_upper name) s (codes "type " ++ name) set,
  is_exported_iff is_upper name,
)
store_spec-has is_upper type_token (value_spec names) s set = ground arith
store_spec-has is_upper type_token other_spec s set = ground arith
store_spec-has is_upper const_token (type_spec name) s set = ground arith
store_spec-has is_upper const_token (value_spec names) s set =
    store_names-has is_upper (codes "const ") names s set
store_spec-has is_upper const_token other_spec s set = ground arith
store_spec-has is_upper var_token (type_spec name) s set = ground arith
store_spec-has is_upper var_token (value_spec names) s set =
    store_names-has is_upper (codes "var ") names s set
store_spec-has is_upper var_token other_spec s set = ground arith
store_spec-has is_upper other_token spec s set = ground arith

store_gen-has :
    (is_upper : ℕ → Bool) (token : Token) (specs : List Spec) (s : Text) (set : List Text)
    → (has_symbol s (store_gen_declaration_symbols is_upper token specs set) ≡ true)
      ↔ (Any (λ spec. SpecExports is_upper token spec s) specs ⊎ (has_symbol s set ≡ true))
unfolding store_gen_declaration_symbols
store_gen-has is_upper token [] s set = ground arith
store_gen-has is_upper token (spec ∷ specs) s set = ground (
  arith,
  store_gen-has is_upper token specs s (store_spec is_upper token spec set),
  store_spec-has is_upper token spec s set,
)

store_declaration-has :
    (is_upper : ℕ → Bool) (d : Decl) (s : Text) (set : List Text)
    → (has_symbol s (store_declaration_symbols is_upper d set) ≡ true)
      ↔ (Exports is_upper d s ⊎ (has_symbol s set ≡ true))
unfolding store_declaration_symbols
store_declaration-has is_upper (gen_decl token specs) s set =
    store_gen-has is_upper token specs s set
store_declaration-has is_upper (func_decl name receiver) s set = ground (
  arith,
  store_if-has (is_exported is_upper name) s (func_symbol name receiver) set,
  is_exported_iff is_upper name,
  func_symbol_iff name receiver s,
)
store_declaration-has is_upper bad_decl s set = ground arith

collect-has :
    (is_upper : ℕ → Bool) (decls : List Decl) (s : Text) (set : List Text)
    → (has_symbol s (collect_symbols is_upper decls set) ≡ true)
      ↔ (Any (λ d. Exports is_upper d s) decls ⊎ (has_symbol s set ≡ true))
unfolding collect_symbols
collect-has is_upper [] s set = ground arith
collect-has is_upper (d ∷ ds) s set = ground (
  arith,
  collect-has is_upper ds s (store_declaration_symbols is_upper d set),
  store_declaration-has is_upper d s set,
)

pub first_has : (x : Text) (xs : List Text) → has_symbol x (x ∷ xs) ≡ true
unfolding has_symbol
first_has x xs = rw ((eq_text_iff x x).1 refl) refl

pub later_has :
    (s x : Text) (xs : List Text) → has_symbol s xs ≡ true → has_symbol s (x ∷ xs) ≡ true
unfolding has_symbol
later_has s x xs h = ground (arith, h)

-- sort.Strings keeps the entries of a list.
abbrev pub KeepsEntries : (List Text → List Text) → Type 0
KeepsEntries sort = (s : Text) (xs : List Text) → has_symbol s (sort xs) ≡ has_symbol s xs

-- The symbols of a package whose files parse are those that its declarations export, and no
-- others: the types, constants, variables and functions whose names begin with an upper-case
-- letter, and the methods, each with the name of its receiver's type; sorting keeps the entries of
-- a list.
pub build_package_symbols-has :
    (tools : Toolchain) (path : Text) (decls : List Decl) (s : Text)
    → KeepsEntries tools.sort
    → tools.parse_dir is_api_file path ≡ some decls
    → (has_symbol s (symbols_of (build_package_symbols tools path)) ≡ true)
      ↔ Any (λ d. Exports tools.is_upper d s) decls
unfolding build_package_symbols has_symbol
build_package_symbols-has tools path decls s keeps parsed = ground (
  arith,
  parsed,
  keeps s (collect_symbols tools.is_upper decls []),
  collect-has tools.is_upper decls s [],
)

missing_of-nil :
    (path : Text) (current symbols : List Text)
    → (missing_of path current symbols ≡ []) ↔ All (λ s. has_symbol s current ≡ true) symbols
unfolding missing_of
missing_of-nil path current [] = ground arith
missing_of-nil path current (s ∷ symbols) = ground (arith, missing_of-nil path current symbols)

append-nil_iff : (xs ys : List Text) → ((xs ++ ys) ≡ []) ↔ ((xs ≡ []) × (ys ≡ []))
append-nil_iff [] ys = ground arith
append-nil_iff (x ∷ xs) ys = ground arith

-- Every symbol of the baseline is one of the current symbols of its package.
abbrev pub IsKept : Dict (List Text) → Dict (List Text) → Type 0
IsKept current baseline =
    All (λ entry. All (λ s. has_symbol s (symbols_of (lookup entry.0 current)) ≡ true) entry.1)
      baseline

pub missing_symbols-nil :
    (current baseline : Dict (List Text))
    → (missing_symbols current baseline ≡ []) ↔ IsKept current baseline
unfolding missing_symbols
missing_symbols-nil current [] = ground arith
missing_symbols-nil current ((path, symbols) ∷ baseline) = ground (
  arith,
  append-nil_iff (missing_of path (symbols_of (lookup path current)) symbols)
      (missing_symbols current baseline),
  missing_of-nil path (symbols_of (lookup path current)) symbols,
  missing_symbols-nil current baseline,
)
