-- ===== src/Encoding/RoundTrip.antt =====
-- What is encoded from a text is decoded to the value that the text stands for.
use mathlib.Core.Path.{subst}
use goads.Base.{
  sym, ◌≢◌, ℕ, ◌<◌, ◌≡◌, refl, true, false, Option, some, List, ◌++◌, take, All, arith,
}
use goads.Base.Bytes.{codes, same_bytes}
use goads.Base.Decimal.{decimal, NoDigit}
use goads.Base.Int.{ℤ, IsSigned}
use goads.Ams.Outcome.{done}
use goads.Encoding.Names.{
  SignedName, UnsignedName, differs, SignedName-kind, UnsignedName-kind, string-kind,
}
use goads.Encoding.{
  Width, bool_kind, kind_of, is_true, Value, bool_value, int_value, uint_value, float32_value,
  float64_value, string_value, decode_field_value, encode_value,
}
use goads.Encoding.Kinds.{
  int_text, OfKind, bool_of_kind, int_of_kind, uint_of_kind, real_of_kind, lreal_of_kind,
  string_of_kind, decode_as-encode_as,
}

-- A text stands for a value of a type, given by the type's name, where strings have a size.
pub data StandsFor (scan_float32 scan_float64 : List ℕ → Option ℕ)
    : List ℕ → List ℕ → ℕ → Value → Type 0 where
  for_true :
      (size : ℕ)
      → StandsFor scan_float32 scan_float64 (codes "BOOL") (codes "true") size (bool_value true)
  for_one :
      (size : ℕ)
      → StandsFor scan_float32 scan_float64 (codes "BOOL") (codes "1") size (bool_value true)
  for_false :
      (text : List ℕ) (size : ℕ)
      → text ≢ codes "true"
      → text ≢ codes "1"
      → StandsFor scan_float32 scan_float64 (codes "BOOL") text size (bool_value false)
  for_int :
      (name : List ℕ) (w : Width) (bound : ℕ) (i : ℤ) (rest : List ℕ) (size : ℕ)
      → SignedName w bound name
      → IsSigned bound i
      → NoDigit rest
      → StandsFor scan_float32 scan_float64 name (int_text i ++ rest) size (int_value w i)
  for_uint :
      (name : List ℕ) (w : Width) (bound n : ℕ) (rest : List ℕ) (size : ℕ)
      → UnsignedName w bound name
      → n < bound
      → NoDigit rest
      → StandsFor scan_float32 scan_float64 name (decimal n ++ rest) size (uint_value w n)
  for_real :
      (text : List ℕ) (size bits : ℕ)
      → scan_float32 text ≡ some bits
      → bits < 4294967296
      → StandsFor scan_float32 scan_float64 (codes "REAL") text size (float32_value bits)
  for_lreal :
      (text : List ℕ) (size bits : ℕ)
      → scan_float64 text ≡ some bits
      → bits < 18446744073709551616
      → StandsFor scan_float32 scan_float64 (codes "LREAL") text size (float64_value bits)
  for_string :
      (length_in_name text : List ℕ) (size : ℕ)
      → All (λ b. 0 < b) text
      → 0 < size
      → StandsFor scan_float32 scan_float64
          (codes "STRING" ++ length_in_name)
          text
          size
          (string_value (take size text))

not_true : (text : List ℕ) → text ≢ codes "true" → text ≢ codes "1" → is_true text ≡ false
unfolding is_true
not_true text no_word no_digit =
    let word = differs text (codes "true") no_word in
    let digit = differs text (codes "1") no_digit in rw (word, is_true) (rw digit refl)

OfKind-StandsFor :
    (scan_float32 scan_float64 : List ℕ → Option ℕ) (name text : List ℕ) (size : ℕ) (v : Value)
    → StandsFor scan_float32 scan_float64 name text size v
    → OfKind scan_float32 scan_float64 (kind_of name) text size v
unfolding kind_of is_true same_bytes
OfKind-StandsFor s32 s64 _ _ _ _ (for_true size) = bool_of_kind (codes "true") size
OfKind-StandsFor s32 s64 _ _ _ _ (for_one size) = bool_of_kind (codes "1") size
OfKind-StandsFor s32 s64 _ _ _ _ (for_false text size no_word no_digit) =
    subst (λ b. OfKind s32 s64 bool_kind text size (bool_value b)) (not_true text no_word no_digit)
      (bool_of_kind text size)
OfKind-StandsFor s32 s64 _ _ _ _ (for_int name w bound i rest size named fits stop) =
    let (kind, same) = SignedName-kind named in
    subst (λ k. OfKind s32 s64 k (int_text i ++ rest) size (int_value w i)) (sym kind)
      (int_of_kind w i rest size (subst (λ h. IsSigned h i) (sym same) fits) stop)
OfKind-StandsFor s32 s64 _ _ _ _ (for_uint name w bound n rest size named fits stop) =
    let (kind, same) = UnsignedName-kind named in
    subst (λ k. OfKind s32 s64 k (decimal n ++ rest) size (uint_value w n)) (sym kind)
      (uint_of_kind w n rest size (omega (arith, same, fits)) stop)
OfKind-StandsFor s32 s64 _ _ _ _ (for_real text size bits scanned fits) =
    real_of_kind text size bits scanned fits
OfKind-StandsFor s32 s64 _ _ _ _ (for_lreal text size bits scanned fits) =
    lreal_of_kind text size bits scanned fits
OfKind-StandsFor s32 s64 _ _ _ _ (for_string length_in_name text size clean room) =
    subst (λ k. OfKind s32 s64 k text size (string_value (take size text)))
      (sym (string-kind length_in_name)) (string_of_kind text size clean room)

-- Where a text stands for a value of the type that a name names, `EncodeValue` turns it into bytes and
-- `DecodeFieldValue` turns those into the value: BOOL with `true` and `1` for true and any other text for
-- false; SINT, INT, DINT and LINT with a decimal number within the signed bounds of 8, 16, 32 and 64 bits,
-- and USINT, BYTE, UINT, WORD, UDINT, DWORD, ULINT and LWORD within the unsigned ones, with any text
-- behind it that does not go on with a digit; REAL and LREAL with a text that scans as a float; and a name
-- that begins with STRING with a text without null bytes, of which as many bytes come back as the
-- size, one or more, has room for.
pub decode_field_value-encode_value :
    (scan_float32 scan_float64 : List ℕ → Option ℕ) (data_type text : List ℕ) (size : ℕ) (v : Value)
    → StandsFor scan_float32 scan_float64 data_type text size v
    → (bytes : List ℕ) × (encode_value scan_float32 scan_float64 text data_type size ≡ some bytes)
      × (decode_field_value bytes data_type ≡ done v)
unfolding decode_field_value encode_value
decode_field_value-encode_value s32 s64 data_type text size v stands =
    let (bytes, encoded, there, decoded) =
      decode_as-encode_as s32 s64 (kind_of data_type) text size v
        (OfKind-StandsFor s32 s64 data_type text size v stands) in
    (bytes, encoded, rw (there, decode_field_value) decoded)
