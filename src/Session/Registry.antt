-- ===== src/Session/Registry.antt =====
-- The registry of symbols behind `Set`.
use goads.Base.{
  ℕ, ◌+◌, ◌≡◌, true, refl, sym, ap, ◌∙◌, false, if◌then◌else◌, some, List, [], ◌∷◌, arith,
  Bool-cases, inl, inr,
}
use goads.Base.Bytes.{same_bytes, same_bytes_sound}
use goads.Session.{SymbolInfo, SymbolRegistry, get, set, get_all, count, has_symbol}

-- After `Set` of one name, `Get` finds the new symbol under that name and under any other what it
-- found before.
pub get-set :
    (symbols : SymbolRegistry) (key name : List ℕ) (info : SymbolInfo)
    → get (set symbols key info) name
      ≡ (if same_bytes key name then some info else get symbols name)
unfolding get set
get-set [] key name info = ground arith
get-set ((k, old) ∷ symbols) key name info = elim (Bool-cases (same_bytes k key)) [
  | inl same ↦ let equal = same_bytes_sound k key same in rw (same, set) (rw equal (ground arith))
  | inr other ↦ elim (Bool-cases (same_bytes key name)) [
    | inl here ↦
        let equal = same_bytes_sound key name here in
        let off : same_bytes k name ≡ false = ap (same_bytes k) (sym equal) ∙ other in
        ground (arith, get-set symbols key name info)
    | inr there ↦ ground (arith, get-set symbols key name info)
  ]
]

count-set :
    (symbols : SymbolRegistry) (key : List ℕ) (info : SymbolInfo)
    → count (set symbols key info)
      ≡ (if has_symbol symbols key then count symbols else count symbols + 1)
unfolding get set has_symbol
count-set [] key info = refl
count-set ((k, old) ∷ symbols) key info = ground (arith, count-set symbols key info)

-- After `Set` of one name, `Get` finds the new symbol under that name and under any other what it
-- found before, `GetAll` and `HasSymbol` agree with `Get`, and `Count` is one more where the name was
-- not there.
registry-set :
    (symbols : SymbolRegistry) (key name : List ℕ) (info : SymbolInfo)
    → let after = set symbols key info in
      (get after name ≡ (if same_bytes key name then some info else get symbols name))
      × (get (get_all after) name ≡ get after name)
      × (has_symbol after name ≡ (if same_bytes key name then true else has_symbol symbols name))
      × (count after ≡ (if has_symbol symbols key then count symbols else count symbols + 1))
unfolding has_symbol
registry-set symbols key name info = (
  get-set symbols key name info,
  refl,
  rw (get-set symbols key name info, has_symbol) (ground arith),
  count-set symbols key info,
)
