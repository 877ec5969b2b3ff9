-- ===== src/Encoding.antt =====
-- encoding.go: the values of a variable's type as text and as bytes. A text is ASCII bytes; a float is
-- its IEEE 754 bits, as in Typed.
pub mod Kinds
pub mod Names
pub mod RoundTrip
pub mod Refusals
use goads.Base.{
  ℕ, suc, ◌+◌, ◌/◌, ◌%◌, ◌==◌, ltb, leb, Bool, true, ◌&&◌, ◌||◌, if◌then◌else◌, Option, none, some,
  List, [], ◌∷◌, ◌++◌, length, take, drop, replicate, and_match,
}
use goads.Base.Bytes.{codes, same_bytes}
use goads.Base.Decimal.{scan_number}
use goads.Base.Int.{ℤ, pos, negsuc, neg, signed, unsigned}
use goads.Ams.Outcome.{Outcome, done, panic}
use goads.Ams.Buffer.{le_uint16, le_uint32, put_uint16, put_uint32, copy}
use goads.Typed.{le_uint64, put_uint64, first_byte, is_set, before_null}

-- The sizes of the integer types.
pub data Width : Type 0 where
  w8 w16 w32 w64 : Width

abbrev pub size_in_bytes : Width → ℕ
size_in_bytes w8 = 1
size_in_bytes w16 = 2
size_in_bytes w32 = 4
size_in_bytes w64 = 8

-- The signed type holds the numbers from `- half` to `half - 1`.
abbrev pub half : Width → ℕ
half w8 = 128
half w16 = 32768
half w32 = 2147483648
half w64 = 9223372036854775808

-- The cases of the `switch` on the name of a type, the same in both functions.
pub data Kind : Type 0 where
  bool_kind real_kind lreal_kind string_kind other_kind : Kind
  signed_kind unsigned_kind : Width → Kind

abbrev pub is_string : List ℕ → Bool
is_string data_type = leb 6 (length data_type) && same_bytes (take 6 data_type) (codes "STRING")

unfoldable pub kind_of : List ℕ → Kind
unfolding same_bytes
kind_of t =
    if same_bytes t (codes "BOOL")
    then bool_kind
    else if same_bytes t (codes "SINT")
    then signed_kind w8
    else if same_bytes t (codes "USINT") || same_bytes t (codes "BYTE")
    then unsigned_kind w8
    else if same_bytes t (codes "INT")
    then signed_kind w16
    else if same_bytes t (codes "UINT") || same_bytes t (codes "WORD")
    then unsigned_kind w16
    else if same_bytes t (codes "DINT")
    then signed_kind w32
    else if same_bytes t (codes "UDINT") || same_bytes t (codes "DWORD")
    then unsigned_kind w32
    else if same_bytes t (codes "LINT")
    then signed_kind w64
    else if same_bytes t (codes "ULINT") || same_bytes t (codes "LWORD")
    then unsigned_kind w64
    else if same_bytes t (codes "REAL")
    then real_kind
    else if same_bytes t (codes "LREAL")
    then lreal_kind
    else if is_string t
    then string_kind
    else other_kind

-- `fmt.Sscanf` with `%d`: spaces are left out, a line break among them is an error, and what stands
-- behind the number is not looked at.
abbrev is_space : ℕ → Bool
is_space b = b == 9 || b == 11 || b == 12 || b == 13 || b == 32

unfoldable pub skip_space : List ℕ → Option (List ℕ)
skip_space [] = some []
skip_space (b ∷ bytes) =
    let rest = skip_space bytes in
    if b == 10 then none else if is_space b then rest else some (b ∷ bytes)

abbrev pub number_of : Option (ℕ × List ℕ) → Option ℕ
number_of (some (n, rest)) = some n
number_of none = none

abbrev pub negative_of : Option (ℕ × List ℕ) → Option ℤ
negative_of (some (n, rest)) = some (neg n)
negative_of none = none

abbrev pub positive_of : Option (ℕ × List ℕ) → Option ℤ
positive_of (some (n, rest)) = some (pos n)
positive_of none = none

-- A number with or without a sign
unfoldable pub scan_signed : List ℕ → Option ℤ
unfolding scan_number
scan_signed [] = none
scan_signed (b ∷ bytes) =
    if b == 45
    then negative_of (scan_number bytes)
    else if b == 43
    then positive_of (scan_number bytes)
    else positive_of (scan_number (b ∷ bytes))

-- Whether the signed type holds the number. The 64 bits of `ParseInt` hold every such number.
abbrev pub fits_signed : ℕ → ℤ → Bool
fits_signed h (pos n) = ltb n h
fits_signed h (negsuc n) = ltb n h

unfoldable pub scan_int : ℕ → List ℕ → Option ℤ
unfolding skip_space scan_signed
scan_int h text =
    and_match (skip_space text)
      λ bytes. and_match (scan_signed bytes) λ i. if fits_signed h i then some i else none

unfoldable pub scan_uint : ℕ → List ℕ → Option ℕ
unfolding skip_space scan_number
scan_uint h text =
    and_match (skip_space text)
      λ bytes. and_match (number_of (scan_number bytes)) λ n. if ltb n (h + h) then some n else none

-- `[]byte{byte(val)}`, `PutUint16` and so on, and `data[0]`, `Uint16` and so on
unfoldable pub put : Width → ℕ → List ℕ
unfolding put_uint16 put_uint32 put_uint64
put w8 n = n ∷ []
put w16 n = put_uint16 n
put w32 n = put_uint32 n
put w64 n = put_uint64 n

unfoldable pub number_at_start : Width → List ℕ → Outcome ℕ
unfolding first_byte le_uint16 le_uint32 le_uint64
number_at_start w8 bytes = first_byte bytes
number_at_start w16 bytes = le_uint16 (take 2 bytes)
number_at_start w32 bytes = le_uint32 (take 4 bytes)
number_at_start w64 bytes = le_uint64 (take 8 bytes)

-- `value == "true" || value == "1"`
unfoldable pub is_true : List ℕ → Bool
unfolding same_bytes
is_true value = same_bytes value (codes "true") || same_bytes value (codes "1")

-- A string: null bytes, the value copied onto them, and a null byte behind it where there is room.
unfoldable pub string_bytes : List ℕ → ℕ → List ℕ
unfolding copy
string_bytes value size =
    let copied = copy (replicate size 0) value in
    if ltb (length value) size
    then take (length value) copied ++ (0 ∷ drop (suc (length value)) copied)
    else copied

-- `%X`
abbrev hex_digit : ℕ → ℕ
hex_digit n = if ltb n 10 then 48 + n else 55 + n

unfoldable pub hex : List ℕ → List ℕ
hex [] = []
hex (b ∷ bytes) = hex_digit (b / 16) ∷ hex_digit (b % 16) ∷ hex bytes

-- What `DecodeFieldValue` returns, an `interface{}`.
pub data Value : Type 0 where
  nil_value : Value
  bool_value : Bool → Value
  int_value : Width → ℤ → Value
  uint_value : Width → ℕ → Value
  float32_value float64_value : ℕ → Value
  string_value : List ℕ → Value

abbrev pub value_of : {A : Type 0} → (A → Value) → Outcome A → Outcome Value
value_of f (done a) = done (f a)
value_of f panic = panic

-- The number at the start where there are enough bytes, else the bytes in hexadecimal.
unfoldable pub decode_number : Width → (ℕ → Value) → List ℕ → Outcome Value
unfolding number_at_start hex
decode_number w f bytes =
    if leb (size_in_bytes w) (length bytes)
    then value_of f (number_at_start w bytes)
    else done (string_value (hex bytes))

unfoldable pub decode_as : Kind → List ℕ → Outcome Value
unfolding decode_number before_null hex signed
decode_as bool_kind bytes = decode_number w8 (λ b. bool_value (is_set b)) bytes
decode_as (signed_kind w) bytes = decode_number w (λ n. int_value w (signed (half w) n)) bytes
decode_as (unsigned_kind w) bytes = decode_number w (uint_value w) bytes
decode_as real_kind bytes = decode_number w32 float32_value bytes
decode_as lreal_kind bytes = decode_number w64 float64_value bytes
decode_as string_kind bytes = done (string_value (before_null bytes))
decode_as other_kind bytes = done (string_value (hex bytes))

-- `DecodeFieldValue`
unfoldable pub decode_field_value : List ℕ → List ℕ → Outcome Value
unfolding decode_as kind_of
decode_field_value bytes data_type =
    if length bytes == 0 then done nil_value else decode_as (kind_of data_type) bytes

-- `fmt.Sscanf` with `%f` gives the bits of a float, or `none` for an error.
module _ (scan_float32 scan_float64 : List ℕ → Option ℕ) where
  unfoldable pub encode_as : Kind → List ℕ → ℕ → Option (List ℕ)
  unfolding is_true scan_int scan_uint unsigned put put_uint32 put_uint64 string_bytes
  encode_as bool_kind value size = some ((if is_true value then 1 else 0) ∷ [])
  encode_as (signed_kind w) value size =
      and_match (scan_int (half w) value) λ i. some (put w (unsigned (half w) i))
  encode_as (unsigned_kind w) value size = and_match (scan_uint (half w) value) λ n. some (put w n)
  encode_as real_kind value size = and_match (scan_float32 value) λ bits. some (put_uint32 bits)
  encode_as lreal_kind value size = and_match (scan_float64 value) λ bits. some (put_uint64 bits)
  encode_as string_kind value size = some (string_bytes value size)
  encode_as other_kind value size = none

  -- `EncodeValue`
  unfoldable pub encode_value : List ℕ → List ℕ → ℕ → Option (List ℕ)
  unfolding encode_as kind_of
  encode_value value data_type size = encode_as (kind_of data_type) value size
