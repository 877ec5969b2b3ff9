-- ===== src/Encoding/Kinds.antt =====
-- The round trip of a text and its bytes for each case of the `switch` on the name of a type.
use goads.Base.{
  ℕ, zero, suc, ◌+◌, ◌<◌, ◌≤◌, ◌≡◌, refl, ap, ◌∙◌, ltb, ◌==◌, Bool, true, false, Option, none, some,
  List, [], ◌∷◌, ◌++◌, length, take, drop, replicate, if◌then◌else◌, length-replicate,
  length-append, length-take, length-drop, All, arith, Bool-cases, inl, inr,
}
use goads.Base.Decimal.{
  decimal, is_digit, scan_number, StartsWithDigit, starts, NoDigit, decimal-StartsWithDigit,
  scan_number-decimal,
}
use goads.Base.Int.{ℤ, pos, negsuc, IsSigned, signed, unsigned, signed-unsigned, unsigned_bound}
use goads.Ams.Outcome.{done}
use goads.Ams.Buffer.{put_uint16, put_uint32, copy}
use goads.Typed.{put_uint64, first_byte, is_set, before_null}
use goads.Typed.RoundTrip.{le_uint16-put, le_uint32-put, le_uint64-put, before_null_padded}
use goads.Encoding.{
  Width, w8, w16, w32, w64, half, Kind, bool_kind, real_kind, lreal_kind, string_kind, signed_kind,
  unsigned_kind, skip_space, scan_signed, fits_signed, scan_int, scan_uint, put, number_at_start,
  is_true, string_bytes, Value, bool_value, int_value, uint_value, float32_value, float64_value,
  string_value, value_of, decode_number, decode_as, encode_as, positive_of,
}

-- `%d` of a signed number
abbrev pub int_text : ℤ → List ℕ
int_text (pos n) = decimal n
int_text (negsuc n) = 45 ∷ decimal (suc n)

skip_digit : (bytes : List ℕ) → StartsWithDigit bytes → skip_space bytes ≡ some bytes
unfolding skip_space is_digit
skip_digit bytes (starts b rest digit) = ground (arith, digit)

scan_signed_digit :
    (bytes : List ℕ) → StartsWithDigit bytes → scan_signed bytes ≡ positive_of (scan_number bytes)
unfolding scan_signed is_digit
scan_signed_digit bytes (starts b rest digit) = ground (arith, digit)

pub scan_int_lem :
    (h : ℕ) (i : ℤ) (rest : List ℕ)
    → NoDigit rest
    → scan_int h (int_text i ++ rest) ≡ (if fits_signed h i then some i else none)
unfolding scan_int
scan_int_lem h (pos n) rest stop =
    let digit = decimal-StartsWithDigit n rest in
    rw (skip_digit (decimal n ++ rest) digit, scan_int)
      (rw (scan_signed_digit (decimal n ++ rest) digit) (rw (scan_number-decimal n rest stop) refl))
scan_int_lem h (negsuc n) rest stop = rw (scan_number-decimal (suc n) rest stop, scan_int) refl

pub scan_uint_lem :
    (h n : ℕ) (rest : List ℕ)
    → NoDigit rest
    → scan_uint h (decimal n ++ rest) ≡ (if ltb n (h + h) then some n else none)
unfolding scan_uint
scan_uint_lem h n rest stop =
    let digit = decimal-StartsWithDigit n rest in
    rw (skip_digit (decimal n ++ rest) digit, scan_uint) (rw (scan_number-decimal n rest stop) refl)

decode_number-put :
    (w : Width) (f : ℕ → Value) (n : ℕ)
    → n < half w + half w
    → decode_number w f (put w n) ≡ done (f n)
unfolding decode_number put number_at_start put_uint16 put_uint32 put_uint64
decode_number-put w8 f n fits = refl
decode_number-put w16 f n fits = ap (value_of f) (le_uint16-put n [] fits)
decode_number-put w32 f n fits = ap (value_of f) (le_uint32-put n [] fits)
decode_number-put w64 f n fits = ap (value_of f) (le_uint64-put n [] fits)

-- The bytes of a number are not none.
put_some : (w : Width) (n : ℕ) → (length (put w n) == 0) ≡ false
unfolding put put_uint16 put_uint32 put_uint64
put_some w8 n = refl
put_some w16 n = refl
put_some w32 n = refl
put_some w64 n = refl

-- A text stands for a value of a kind.
pub data OfKind (scan_float32 scan_float64 : List ℕ → Option ℕ)
    : Kind → List ℕ → ℕ → Value → Type 0 where
  bool_of_kind :
      (text : List ℕ) (size : ℕ)
      → OfKind scan_float32 scan_float64 bool_kind text size (bool_value (is_true text))
  int_of_kind :
      (w : Width) (i : ℤ) (rest : List ℕ) (size : ℕ)
      → IsSigned (half w) i
      → NoDigit rest
      → OfKind scan_float32 scan_float64 (signed_kind w) (int_text i ++ rest) size (int_value w i)
  uint_of_kind :
      (w : Width) (n : ℕ) (rest : List ℕ) (size : ℕ)
      → n < half w + half w
      → NoDigit rest
      → OfKind scan_float32 scan_float64 (unsigned_kind w) (decimal n ++ rest) size (uint_value w n)
  real_of_kind :
      (text : List ℕ) (size bits : ℕ)
      → scan_float32 text ≡ some bits
      → bits < 4294967296
      → OfKind scan_float32 scan_float64 real_kind text size (float32_value bits)
  lreal_of_kind :
      (text : List ℕ) (size bits : ℕ)
      → scan_float64 text ≡ some bits
      → bits < 18446744073709551616
      → OfKind scan_float32 scan_float64 lreal_kind text size (float64_value bits)
  string_of_kind :
      (text : List ℕ) (size : ℕ)
      → All (λ b. 0 < b) text
      → 0 < size
      → OfKind scan_float32 scan_float64 string_kind text size (string_value (take size text))

IsSigned-fits : (h : ℕ) (i : ℤ) → IsSigned h i → fits_signed h i ≡ true
IsSigned-fits h (pos n) fits = ground arith
IsSigned-fits h (negsuc n) fits = ground arith

-- The null byte that is set is there already.
null_there :
    (text : List ℕ) (size : ℕ)
    → length text < size
    → take (length text) (take size text ++ drop (length text) (replicate size 0))
        ++ (0 ∷ drop (suc (length text)) (take size text ++ drop (length text) (replicate size 0)))
      ≡ take size text ++ drop (length text) (replicate size 0)
null_there text zero short = absurd (omega arith)
null_there [] (suc n) short = refl
null_there (b ∷ text) (suc n) short = ap (λ bytes. b ∷ bytes) (null_there text n (omega arith))

string_bytes_lem :
    (text : List ℕ) (size : ℕ)
    → string_bytes text size ≡ take size text ++ drop (length text) (replicate size 0)
unfolding string_bytes copy
string_bytes_lem text size =
    rw (length-replicate {A = ℕ} size 0, string_bytes)
      (elim (Bool-cases (ltb (length text) size)) [
        | inl short ↦ rw short (null_there text size ground arith)
        | inr long ↦ rw long refl
      ])

length-string_bytes : (text : List ℕ) (size : ℕ) → size ≤ length (string_bytes text size)
length-string_bytes text size =
    rw
      (
        string_bytes_lem text size,
        length-append (take size text) (drop (length text) (replicate size 0)),
      )
      (omega (
        arith,
        length-take {0} size text,
        length-drop {A = ℕ} (length text) (replicate size 0),
        length-replicate {A = ℕ} size 0,
      ))

bool_back :
    (b : Bool)
    → decode_number w8 (λ n. bool_value (is_set n)) ((if b then 1 else 0) ∷ [])
      ≡ done (bool_value b)
unfolding decode_number number_at_start first_byte
bool_back true = refl
bool_back false = refl

pub decode_as-encode_as :
    (scan_float32 scan_float64 : List ℕ → Option ℕ) (k : Kind) (text : List ℕ) (size : ℕ)
    (v : Value)
    → OfKind scan_float32 scan_float64 k text size v
    → (bytes : List ℕ) × (encode_as scan_float32 scan_float64 k text size ≡ some bytes)
      × ((length bytes == 0) ≡ false)
      × (decode_as k bytes ≡ done v)
unfolding encode_as decode_as
decode_as-encode_as s32 s64 k _ _ _ (bool_of_kind text size) =
    ((if is_true text then 1 else 0) ∷ [], refl, refl, bool_back (is_true text))
decode_as-encode_as s32 s64 k _ _ _ (int_of_kind w i rest size fits stop) =
    let in_range = IsSigned-fits (half w) i fits in
    (
      put w (unsigned (half w) i),
      rw (scan_int_lem (half w) i rest stop, encode_as) (rw in_range refl),
      put_some w (unsigned (half w) i),
      decode_number-put w (λ n. int_value w (signed (half w) n)) (unsigned (half w) i)
            (unsigned_bound (half w) i fits)
          ∙ ap (λ j. done (int_value w j)) (signed-unsigned (half w) i fits),
    )
decode_as-encode_as s32 s64 k _ _ _ (uint_of_kind w n rest size fits stop) =
    let small : ltb n (half w + half w) ≡ true = ground arith in
    (
      put w n,
      rw (scan_uint_lem (half w) n rest stop, encode_as) (rw small refl),
      put_some w n,
      decode_number-put w (uint_value w) n fits,
    )
decode_as-encode_as s32 s64 k _ _ _ (real_of_kind text size bits scanned fits) = (
  put_uint32 bits,
  rw (scanned, encode_as) refl,
  put_some w32 bits,
  decode_number-put w32 float32_value bits fits,
)
decode_as-encode_as s32 s64 k _ _ _ (lreal_of_kind text size bits scanned fits) = (
  put_uint64 bits,
  rw (scanned, encode_as) refl,
  put_some w64 bits,
  decode_number-put w64 float64_value bits fits,
)
decode_as-encode_as s32 s64 k _ _ _ (string_of_kind text size clean room) = (
  string_bytes text size,
  refl,
  ground (arith, length-string_bytes text size),
  ap (λ b. done (string_value b))
      (ap before_null (string_bytes_lem text size) ∙ before_null_padded size text clean),
)
