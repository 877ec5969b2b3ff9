-- ===== src/Session.antt =====
-- session.go: the symbols that a session has cached, and the symbol table that a device uploads.
pub mod Table
pub mod Registry
pub mod Access
pub mod Operations
use goads.Base.{ℕ, Bool, true, false, length, if◌then◌else◌, Option, none, some, List, [], ◌∷◌}
use goads.Base.Bytes.{same_bytes}
use goads.Symbol.{Fields}

-- `SymbolInfo`. Strings are their bytes.
pub record SymbolInfo : Type 0 where
  pub name : List ℕ
  pub data_type : List ℕ
  pub size : ℕ
  pub index_group : ℕ
  pub index_offset : ℕ
  pub handle : ℕ
  pub comment : List ℕ
  pub fields : Fields

-- `SymbolRegistry`: a map from names.
abbrev pub SymbolRegistry : Type 0
SymbolRegistry = List (List ℕ × SymbolInfo)

-- `Get`
unfoldable pub get : SymbolRegistry → List ℕ → Option SymbolInfo
unfolding same_bytes
get [] name = none
get ((key, info) ∷ symbols) name = if same_bytes key name then some info else get symbols name

-- `Set`
unfoldable pub set : SymbolRegistry → List ℕ → SymbolInfo → SymbolRegistry
unfolding same_bytes
set [] name info = (name, info) ∷ []
set ((key, old) ∷ symbols) name info =
    let rest = set symbols name info in
    if same_bytes key name then (key, info) ∷ symbols else (key, old) ∷ rest

-- `NewSymbolRegistry`
abbrev pub new_symbol_registry : SymbolRegistry
new_symbol_registry = []

-- `GetAll`: a copy of the map
abbrev pub get_all : SymbolRegistry → SymbolRegistry
get_all symbols = symbols

-- `Count` and `GetSymbolCount`
abbrev pub count : SymbolRegistry → ℕ
count symbols = length symbols

-- `HasSymbol`
unfoldable pub has_symbol : SymbolRegistry → List ℕ → Bool
unfolding get
has_symbol symbols name = elim (get symbols name) [ none ↦ false | some info ↦ true ]
