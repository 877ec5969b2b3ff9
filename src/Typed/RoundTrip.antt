-- ===== src/Typed/RoundTrip.antt =====
-- What is encoded is decoded.
use goads.Base.{
  ℕ, zero, suc, ◌%◌, ◌^◌, ◌<◌, ◌≡◌, refl, ap, ◌∙◌, Bool, some, List, [], ◌∷◌, ◌++◌, length, take,
  drop, replicate, length-replicate, All, arith, ltb, false,
}
use goads.Base.Int.{ℤ, IsSigned, signed, unsigned, signed-unsigned, unsigned_bound}
use goads.Ams.Outcome.{Outcome, done}
use goads.Ams.Buffer.{le_uint16, le_uint32, put_uint16, put_uint32, copy}
use goads.Typed.{
  le_uint64, put_uint64, encode_bool, encode_byte, encode_uint16, encode_uint32, encode_uint64,
  encode_string, decode_bool, decode_byte, decode_uint16, decode_uint32, decode_uint64, before_null,
  decode_string, first_byte, no_error_with, encode_sint, encode_int16, encode_int32, encode_int64,
  encode_float32, encode_float64, decode_sint, decode_int16, decode_int32, decode_int64,
  decode_float32, decode_float64,
}

decode-encode_uint64 :
    (n : ℕ) (rest : List ℕ) → n < 2 ^ 64 → decode_uint64 (encode_uint64 n ++ rest) ≡ done (some n)
unfolding encode_uint64 decode_uint64 put_uint64 put_uint32 le_uint64 no_error_with
decode-encode_uint64 n rest fits = ground arith

pub before_null_padded :
    (max_len : ℕ) (value : List ℕ)
    → All (λ b. 0 < b) value
    → before_null (take max_len value ++ drop (length value) (replicate max_len 0))
      ≡ take max_len value
unfolding before_null
before_null_padded zero [] clean = refl
before_null_padded zero (b ∷ value) clean = refl
before_null_padded (suc n) [] clean = refl
before_null_padded (suc n) (b ∷ value) (h, hs) = ground (arith, before_null_padded n value hs)

-- A number that was put is read again, with any bytes behind it.
pub le_uint16-put :
    (n : ℕ) (rest : List ℕ) → n < 65536 → le_uint16 (take 2 (put_uint16 n ++ rest)) ≡ done n
unfolding le_uint16 put_uint16
le_uint16-put n rest fits = ground arith

pub le_uint32-put :
    (n : ℕ) (rest : List ℕ) → n < 4294967296 → le_uint32 (take 4 (put_uint32 n ++ rest)) ≡ done n
unfolding le_uint32 put_uint32
le_uint32-put n rest fits = ground arith

pub le_uint64-put :
    (n : ℕ) (rest : List ℕ)
    → n < 18446744073709551616
    → le_uint64 (take 8 (put_uint64 n ++ rest)) ≡ done n
unfolding le_uint64 put_uint64 put_uint32
le_uint64-put n rest fits = ground arith

pub put_enough_16 : (n : ℕ) (rest : List ℕ) → ltb (length (put_uint16 n ++ rest)) 2 ≡ false
unfolding put_uint16
put_enough_16 n rest = ground arith

pub put_enough_32 : (n : ℕ) (rest : List ℕ) → ltb (length (put_uint32 n ++ rest)) 4 ≡ false
unfolding put_uint32
put_enough_32 n rest = ground arith

pub put_enough_64 : (n : ℕ) (rest : List ℕ) → ltb (length (put_uint64 n ++ rest)) 8 ≡ false
unfolding put_uint64 put_uint32
put_enough_64 n rest = ground arith

signed_back :
    (half : ℕ) (i : ℤ) (x : Outcome ℕ)
    → IsSigned half i
    → x ≡ done (unsigned half i)
    → no_error_with (signed half) x ≡ done (some i)
unfolding no_error_with
signed_back half i x fits same =
    ap (no_error_with (signed half)) same ∙ ap (λ j. done (some j)) (signed-unsigned half i fits)

decode-encode_int16 :
    (i : ℤ) (rest : List ℕ)
    → IsSigned 32768 i
    → decode_int16 (encode_int16 i ++ rest) ≡ done (some i)
unfolding decode_int16 encode_int16
decode-encode_int16 i rest fits =
    rw (put_enough_16 (unsigned 32768 i) rest, decode_int16)
      (signed_back 32768 i _ fits (le_uint16-put _ rest (unsigned_bound 32768 i fits)))

decode-encode_int32 :
    (i : ℤ) (rest : List ℕ)
    → IsSigned 2147483648 i
    → decode_int32 (encode_int32 i ++ rest) ≡ done (some i)
unfolding decode_int32 encode_int32
decode-encode_int32 i rest fits =
    rw (put_enough_32 (unsigned 2147483648 i) rest, decode_int32)
      (signed_back 2147483648 i _ fits (le_uint32-put _ rest (unsigned_bound 2147483648 i fits)))

decode-encode_int64 :
    (i : ℤ) (rest : List ℕ)
    → IsSigned 9223372036854775808 i
    → decode_int64 (encode_int64 i ++ rest) ≡ done (some i)
unfolding decode_int64 encode_int64
decode-encode_int64 i rest fits =
    rw (put_enough_64 (unsigned 9223372036854775808 i) rest, decode_int64)
      (signed_back 9223372036854775808 i _ fits
        (le_uint64-put _ rest (unsigned_bound 9223372036854775808 i fits)))

decode-encode_float64 :
    (n : ℕ) (rest : List ℕ) → n < 2 ^ 64 → decode_float64 (encode_float64 n ++ rest) ≡ done (some n)
unfolding decode_float64 encode_float64 no_error_with
decode-encode_float64 n rest fits =
    rw (put_enough_64 n rest, decode_float64)
      (ap (no_error_with (λ k. k)) (le_uint64-put n rest fits))

decode-encode_sint :
    (i : ℤ) (rest : List ℕ) → IsSigned 128 i → decode_sint (encode_sint i ++ rest) ≡ done (some i)
unfolding decode_sint encode_sint first_byte
decode-encode_sint i rest fits =
    let enough : ltb (length (unsigned 128 i ∷ rest)) 1 ≡ false = ground arith in
    rw (enough, decode_sint) (signed_back 128 i (done (unsigned 128 i)) fits refl)

-- Each decoder gives back what its encoder was given, with any bytes behind it: a Boolean, a byte, an
-- unsigned number or the bits of a float reduced to the width of the type, and a signed number of the
-- type; of a string without null bytes, as many bytes come back as the length leaves room for.
pub typed_round_trip :
    (b : Bool) (n : ℕ) (i8 i16 i32 i64 : ℤ) (rest value : List ℕ) (max_len : ℕ)
    → IsSigned 128 i8
    → IsSigned 32768 i16
    → IsSigned 2147483648 i32
    → IsSigned 9223372036854775808 i64
    → All (λ c. 0 < c) value
    → (decode_bool (encode_bool b ++ rest) ≡ done (some b))
      × (decode_byte (encode_byte n ++ rest) ≡ done (some n))
      × (decode_uint16 (encode_uint16 (n % 2 ^ 16) ++ rest) ≡ done (some (n % 2 ^ 16)))
      × (decode_uint32 (encode_uint32 (n % 2 ^ 32) ++ rest) ≡ done (some (n % 2 ^ 32)))
      × (decode_uint64 (encode_uint64 (n % 2 ^ 64) ++ rest) ≡ done (some (n % 2 ^ 64)))
      × (decode_sint (encode_sint i8 ++ rest) ≡ done (some i8))
      × (decode_int16 (encode_int16 i16 ++ rest) ≡ done (some i16))
      × (decode_int32 (encode_int32 i32 ++ rest) ≡ done (some i32))
      × (decode_int64 (encode_int64 i64 ++ rest) ≡ done (some i64))
      × (decode_float32 (encode_float32 (n % 2 ^ 32) ++ rest) ≡ done (some (n % 2 ^ 32)))
      × (decode_float64 (encode_float64 (n % 2 ^ 64) ++ rest) ≡ done (some (n % 2 ^ 64)))
      × (decode_string (encode_string value max_len) ≡ take max_len value)
unfolding encode_bool encode_byte encode_uint16 encode_uint32 encode_string decode_bool decode_byte
    decode_float32 encode_float32 decode_uint16 decode_uint32 decode_string put_uint16 put_uint32
    le_uint16 le_uint32 copy no_error_with first_byte
typed_round_trip b n i8 i16 i32 i64 rest value max_len f8 f16 f32 f64 clean = (
  ground arith,
  ground arith,
  ground arith,
  ground arith,
  decode-encode_uint64 (n % 2 ^ 64) rest (omega arith),
  decode-encode_sint i8 rest f8,
  decode-encode_int16 i16 rest f16,
  decode-encode_int32 i32 rest f32,
  decode-encode_int64 i64 rest f64,
  ground arith,
  decode-encode_float64 (n % 2 ^ 64) rest (omega arith),
  ap (λ k. before_null (take k value ++ drop (length value) (replicate max_len 0)))
        (length-replicate max_len 0)
      ∙ before_null_padded max_len value clean,
)
