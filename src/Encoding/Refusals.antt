-- ===== src/Encoding/Refusals.antt =====
-- The texts that are refused, and the bytes of any length.
use goads.Base.{
  sym, ℕ, ◌+◌, ◌≤◌, ◌≡◌, refl, ltb, leb, ◌==◌, false, Option, none, List, [], ◌∷◌, ◌++◌, length,
  Bool-cases, inl, inr, arith,
}
use goads.Base.Decimal.{decimal, NoDigit}
use goads.Base.Int.{ℤ, pos, negsuc, IsSigned}
use goads.Ams.Outcome.{Outcome, done}
use goads.Ams.Buffer.{le_uint16, le_uint32}
use goads.Typed.{le_uint64, first_byte}
use mathlib.Core.Path.{subst}
use goads.Encoding.Names.{
  SignedName, UnsignedName, Known, SignedName-kind, UnsignedName-kind, kind_of-unknown,
}
use goads.Encoding.{
  Width, w8, w16, w32, w64, size_in_bytes, half, Kind, bool_kind, real_kind, lreal_kind,
  string_kind, other_kind, signed_kind, unsigned_kind, kind_of, fits_signed, number_at_start, Value,
  nil_value, value_of, decode_number, decode_as, decode_field_value, encode_as, encode_value,
}
use goads.Encoding.Kinds.{int_text, scan_int_lem, scan_uint_lem}

-- No number or value of the type that a name names stands in a text.
pub data StandsForNone : List ℕ → List ℕ → Type 0 where
  out_of_range :
      (name : List ℕ) (w : Width) (bound : ℕ) (i : ℤ) (rest : List ℕ)
      → SignedName w bound name
      → ¬ IsSigned bound i
      → NoDigit rest
      → StandsForNone name (int_text i ++ rest)
  too_large :
      (name : List ℕ) (w : Width) (bound n : ℕ) (rest : List ℕ)
      → UnsignedName w bound name
      → bound ≤ n
      → NoDigit rest
      → StandsForNone name (decimal n ++ rest)
  with_minus :
      (name : List ℕ) (w : Width) (bound : ℕ) (rest : List ℕ)
      → UnsignedName w bound name
      → StandsForNone name (45 ∷ rest)
  with_plus :
      (name : List ℕ) (w : Width) (bound : ℕ) (rest : List ℕ)
      → UnsignedName w bound name
      → StandsForNone name (43 ∷ rest)
  empty_signed :
      (name : List ℕ) (w : Width) (bound : ℕ) → SignedName w bound name → StandsForNone name []
  empty_unsigned :
      (name : List ℕ) (w : Width) (bound : ℕ) → UnsignedName w bound name → StandsForNone name []
  unknown_type : (name text : List ℕ) → ¬ Known name → StandsForNone name text

far_IsSigned : (h : ℕ) (i : ℤ) → ¬ IsSigned h i → fits_signed h i ≡ false
far_IsSigned h (pos n) far = ground (arith, far)
far_IsSigned h (negsuc n) far = ground (arith, far)

refused_as :
    (s32 s64 : List ℕ → Option ℕ) (name text : List ℕ) (size : ℕ)
    → StandsForNone name text
    → encode_as s32 s64 (kind_of name) text size ≡ none
unfolding encode_as
refused_as s32 s64 _ _ size (out_of_range name w bound i rest named far stop) =
    let (kind, same) = SignedName-kind named in
    let far_here = subst (λ h. ¬ IsSigned h i) (sym same) far in
    rw (kind, encode_as)
      (rw (scan_int_lem (half w) i rest stop, encode_as)
        (rw (far_IsSigned (half w) i far_here) refl))
refused_as s32 s64 _ _ size (too_large name w bound n rest named large stop) =
    let (kind, same) = UnsignedName-kind named in
    let far : ltb n (half w + half w) ≡ false = ground (arith, same, large) in
    rw (kind, encode_as) (rw (scan_uint_lem (half w) n rest stop, encode_as) (rw far refl))
refused_as s32 s64 _ _ size (with_minus name w bound rest named) =
    rw ((UnsignedName-kind named).0, encode_as) refl
refused_as s32 s64 _ _ size (with_plus name w bound rest named) =
    rw ((UnsignedName-kind named).0, encode_as) refl
refused_as s32 s64 _ _ size (empty_signed name w bound named) =
    rw ((SignedName-kind named).0, encode_as) refl
refused_as s32 s64 _ _ size (empty_unsigned name w bound named) =
    rw ((UnsignedName-kind named).0, encode_as) refl
refused_as s32 s64 _ _ size (unknown_type name text unknown) =
    rw (kind_of-unknown name unknown, encode_as) refl

-- A decimal number out of the bounds of its integer type, with any text behind it that does not go on
-- with a digit; a minus or a plus in front of a number of an unsigned type; an empty text for an integer
-- type; and any text for a name that is none of the integer types, BOOL, REAL and LREAL and does not
-- begin with STRING: `EncodeValue` returns an error.
pub encode_value_refused :
    (scan_float32 scan_float64 : List ℕ → Option ℕ) (data_type text : List ℕ) (size : ℕ)
    → StandsForNone data_type text
    → encode_value scan_float32 scan_float64 text data_type size ≡ none
unfolding encode_value
encode_value_refused s32 s64 data_type text size none_there =
    refused_as s32 s64 data_type text size none_there

abbrev Ends : Outcome Value → Type 0
Ends x = (v : Value) × (x ≡ done v)

Ends-value_of :
    {A : Type 0} (f : A → Value) (x : Outcome A) → ((a : A) × (x ≡ done a)) → Ends (value_of f x)
Ends-value_of f x (a, same) = rw same (f a, refl)

number_there :
    (w : Width) (bytes : List ℕ)
    → size_in_bytes w ≤ length bytes
    → (n : ℕ) × (number_at_start w bytes ≡ done n)
unfolding number_at_start first_byte le_uint16 le_uint32 le_uint64
number_there w8 (a ∷ _) enough = (_, refl)
number_there w16 (a ∷ b ∷ _) enough = (_, refl)
number_there w32 (a ∷ b ∷ c ∷ d ∷ _) enough = (_, refl)
number_there w64 (a ∷ b ∷ c ∷ d ∷ e ∷ f ∷ g ∷ h ∷ _) enough = (_, refl)
number_there _ _ enough = absurd (omega arith)

Ends-decode_number : (w : Width) (f : ℕ → Value) (bytes : List ℕ) → Ends (decode_number w f bytes)
unfolding decode_number
Ends-decode_number w f bytes = elim (Bool-cases (leb (size_in_bytes w) (length bytes))) [
  | inl enough ↦ rw (enough, decode_number) (Ends-value_of f _ (number_there w bytes ground arith))
  | inr short ↦ rw (short, decode_number) (_, refl)
]

Ends-decode_as : (k : Kind) (bytes : List ℕ) → Ends (decode_as k bytes)
unfolding decode_as
Ends-decode_as bool_kind bytes = Ends-decode_number w8 _ bytes
Ends-decode_as (signed_kind w) bytes = Ends-decode_number w _ bytes
Ends-decode_as (unsigned_kind w) bytes = Ends-decode_number w _ bytes
Ends-decode_as real_kind bytes = Ends-decode_number w32 _ bytes
Ends-decode_as lreal_kind bytes = Ends-decode_number w64 _ bytes
Ends-decode_as string_kind bytes = (_, refl)
Ends-decode_as other_kind bytes = (_, refl)

-- On any bytes and any name of a type `DecodeFieldValue` makes no access out of range.
pub decode_field_value_ends :
    (bytes data_type : List ℕ) → (v : Value) × (decode_field_value bytes data_type ≡ done v)
unfolding decode_field_value
decode_field_value_ends bytes data_type = elim (Bool-cases (length bytes == 0)) [
  | inl empty ↦ rw (empty, decode_field_value) (nil_value, refl)
  | inr more ↦ rw (more, decode_field_value) (Ends-decode_as (kind_of data_type) bytes)
]
