-- ===== src/Encoding/Names.antt =====
-- The names of the types in the texts of a PLC, each with the width and the bound of its numbers.
use mathlib.Core.Path.{subst}
use goads.Base.{
  ◌≢◌, false, take-append-drop, ◌⊎◌, ℕ, ◌+◌, ◌≡◌, refl, sym, ap, ◌∙◌, List, ◌++◌, true, ◌||◌, leb,
  arith, length, take, drop, if◌then◌else◌, Bool-cases, inl, inr,
}
use goads.Base.Bytes.{codes, same_bytes, same_bytes_sound}
use goads.Encoding.{
  Width, w8, w16, w32, w64, half, Kind, signed_kind, unsigned_kind, string_kind, other_kind,
  kind_of, is_string,
}

-- A type of numbers from `- bound` to `bound - 1`
pub data SignedName : Width → ℕ → List ℕ → Type 0 where
  sint : SignedName w8 128 (codes "SINT")
  int : SignedName w16 32768 (codes "INT")
  dint : SignedName w32 2147483648 (codes "DINT")
  lint : SignedName w64 9223372036854775808 (codes "LINT")

-- A type of numbers below a bound
pub data UnsignedName : Width → ℕ → List ℕ → Type 0 where
  usint : UnsignedName w8 256 (codes "USINT")
  byte : UnsignedName w8 256 (codes "BYTE")
  uint : UnsignedName w16 65536 (codes "UINT")
  word : UnsignedName w16 65536 (codes "WORD")
  udint : UnsignedName w32 4294967296 (codes "UDINT")
  dword : UnsignedName w32 4294967296 (codes "DWORD")
  ulint : UnsignedName w64 18446744073709551616 (codes "ULINT")
  lword : UnsignedName w64 18446744073709551616 (codes "LWORD")

pub SignedName-kind :
    {w : Width} {bound : ℕ} {name : List ℕ}
    → SignedName w bound name
    → (kind_of name ≡ signed_kind w) × (half w ≡ bound)
unfolding kind_of same_bytes
SignedName-kind sint = (refl, refl)
SignedName-kind int = (refl, refl)
SignedName-kind dint = (refl, refl)
SignedName-kind lint = (refl, refl)

pub UnsignedName-kind :
    {w : Width} {bound : ℕ} {name : List ℕ}
    → UnsignedName w bound name
    → (kind_of name ≡ unsigned_kind w) × (half w + half w ≡ bound)
unfolding kind_of same_bytes
UnsignedName-kind usint = (refl, refl)
UnsignedName-kind byte = (refl, refl)
UnsignedName-kind uint = (refl, refl)
UnsignedName-kind word = (refl, refl)
UnsignedName-kind udint = (refl, refl)
UnsignedName-kind dword = (refl, refl)
UnsignedName-kind ulint = (refl, refl)
UnsignedName-kind lword = (refl, refl)

pub string-kind : (rest : List ℕ) → kind_of (codes "STRING" ++ rest) ≡ string_kind
unfolding kind_of same_bytes
string-kind rest =
    let long : leb 6 (length (codes "STRING" ++ rest)) ≡ true = ground arith in
    rw (long, kind_of) refl

pub differs : (xs ys : List ℕ) → xs ≢ ys → same_bytes xs ys ≡ false
differs xs ys other = elim (Bool-cases (same_bytes xs ys)) [
  | inl same ↦ absurd (other (same_bytes_sound xs ys same))
  | inr apart ↦ apart
]

-- A name that the code has a case for
pub data Known : List ℕ → Type 0 where
  named_bool : Known (codes "BOOL")
  named_real : Known (codes "REAL")
  named_lreal : Known (codes "LREAL")
  named_string : (rest : List ℕ) → Known (codes "STRING" ++ rest)
  named_signed : (w : Width) (bound : ℕ) (name : List ℕ) → SignedName w bound name → Known name
  named_unsigned : (w : Width) (bound : ℕ) (name : List ℕ) → UnsignedName w bound name → Known name

-- Whether a kind is right for a name.
abbrev Right : List ℕ → Kind → Type 0
Right name k = (k ≡ other_kind) ⊎ Known name

Right-if :
    (name literal : List ℕ) (a b : Kind)
    → Known literal
    → Right name b
    → Right name (if same_bytes name literal then a else b)
Right-if name literal a b known rest = elim (Bool-cases (same_bytes name literal)) [
  | inl same ↦ inr (subst (λ n. Known n) (sym (same_bytes_sound name literal same)) known)
  | inr other ↦ rw other rest
]

Right-either :
    (name literal other : List ℕ) (a b : Kind)
    → Known literal
    → Known other
    → Right name b
    → Right name (if same_bytes name literal || same_bytes name other then a else b)
Right-either name literal other a b first second rest =
    elim (Bool-cases (same_bytes name literal)) [
      | inl same ↦ inr (subst (λ n. Known n) (sym (same_bytes_sound name literal same)) first)
      | inr apart ↦ rw apart (Right-if name other a b second rest)
    ]

Right-string : (name : List ℕ) → Right name (if is_string name then string_kind else other_kind)
Right-string name = elim (Bool-cases (is_string name)) [
  | inl begins ↦
      let same = same_bytes_sound (take 6 name) (codes "STRING") ground arith in
      let whole = sym (take-append-drop 6 name) ∙ ap (λ t. t ++ drop 6 name) same in
      inr (subst (λ n. Known n) (sym whole) (named_string (drop 6 name)))
  | inr apart ↦ inl (rw apart refl)
]

-- A name that the code has no case for is of no kind.
pub kind_of-unknown : (name : List ℕ) → ¬ Known name → kind_of name ≡ other_kind
unfolding kind_of
kind_of-unknown name unknown =
    let right : Right name (kind_of name) = Right-if name _ _ _ named_bool (
      Right-if name _ _ _ (named_signed _ _ _ sint) (
        Right-either name _ _ _ _ (named_unsigned _ _ _ usint) (named_unsigned _ _ _ byte) (
          Right-if name _ _ _ (named_signed _ _ _ int) (
            Right-either name _ _ _ _ (named_unsigned _ _ _ uint) (named_unsigned _ _ _ word) (
              Right-if name _ _ _ (named_signed _ _ _ dint) (
                Right-either name _ _ _ _ (named_unsigned _ _ _ udint) (named_unsigned _ _ _ dword)
                  (Right-if name _ _ _ (named_signed _ _ _ lint) (
                    Right-either name _ _ _ _ (named_unsigned _ _ _ ulint)
                      (named_unsigned _ _ _ lword)
                      (Right-if name _ _ _ named_real
                        (Right-if name _ _ _ named_lreal (Right-string name))))))))))) in
    elim right [ inl other ↦ other | inr known ↦ absurd (unknown known) ]
