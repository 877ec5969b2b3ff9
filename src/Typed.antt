-- ===== src/Typed.antt =====
-- encoding_typed.go: the encoders and decoders of each type. A decoder returns `none` where the code
-- returns an error. A float is its IEEE 754 bits, which is what `math.Float32bits` and
-- `math.Float32frombits` convert to and from.
pub mod RoundTrip
use goads.Base.{
  ℕ, ◌+◌, ◌*◌, ◌/◌, ◌%◌, ◌^◌, Bool, true, false, ◌==◌, ltb, if◌then◌else◌, Option, none, some, List,
  [], ◌∷◌, ◌++◌, length, take, replicate,
}
use goads.Base.Int.{ℤ, signed, unsigned}
use goads.Ams.Outcome.{Outcome, done, panic}
use goads.Ams.Buffer.{le_uint16, le_uint32, put_uint16, put_uint32, copy}

-- `binary.LittleEndian.Uint64` and `PutUint64`
unfoldable pub le_uint64 : List ℕ → Outcome ℕ
le_uint64 (a ∷ b ∷ c ∷ d ∷ e ∷ f ∷ g ∷ h ∷ _) =
    done
      (a + b * 2 ^ 8 + c * 2 ^ 16 + d * 2 ^ 24 + e * 2 ^ 32 + f * 2 ^ 40 + g * 2 ^ 48 + h * 2 ^ 56)
le_uint64 _ = panic

unfoldable pub put_uint64 : ℕ → List ℕ
unfolding put_uint32
put_uint64 n = put_uint32 (n % 2 ^ 32) ++ put_uint32 (n / 2 ^ 32 % 2 ^ 32)

unfoldable pub encode_bool : Bool → List ℕ
encode_bool true = 1 ∷ []
encode_bool false = 0 ∷ []

unfoldable pub encode_byte : ℕ → List ℕ
encode_byte value = value ∷ []

unfoldable pub encode_uint16 : ℕ → List ℕ
unfolding put_uint16
encode_uint16 value = put_uint16 value

unfoldable pub encode_uint32 : ℕ → List ℕ
unfolding put_uint32
encode_uint32 value = put_uint32 value

unfoldable pub encode_uint64 : ℕ → List ℕ
unfolding put_uint64
encode_uint64 value = put_uint64 value

unfoldable pub encode_sint : ℤ → List ℕ
unfolding unsigned
encode_sint value = unsigned 128 value ∷ []

unfoldable pub encode_int16 : ℤ → List ℕ
unfolding unsigned put_uint16
encode_int16 value = put_uint16 (unsigned 32768 value)

unfoldable pub encode_int32 : ℤ → List ℕ
unfolding unsigned put_uint32
encode_int32 value = put_uint32 (unsigned 2147483648 value)

unfoldable pub encode_int64 : ℤ → List ℕ
unfolding unsigned put_uint64
encode_int64 value = put_uint64 (unsigned 9223372036854775808 value)

unfoldable pub encode_float32 : ℕ → List ℕ
unfolding put_uint32
encode_float32 bits = put_uint32 bits

unfoldable pub encode_float64 : ℕ → List ℕ
unfolding put_uint64
encode_float64 bits = put_uint64 bits

-- `EncodeString`: the value is cut off at the length, or filled up with null bytes.
unfoldable pub encode_string : List ℕ → ℕ → List ℕ
unfolding copy
encode_string value max_len = copy (replicate max_len 0) value

-- `data[0]`
unfoldable pub first_byte : List ℕ → Outcome ℕ
first_byte [] = panic
first_byte (b ∷ _) = done b

-- The number that was read, beside a nil error.
unfoldable pub no_error_with : {A B : Type 0} → (A → B) → Outcome A → Outcome (Option B)
no_error_with f (done n) = done (some (f n))
no_error_with f panic = panic

abbrev pub is_set : ℕ → Bool
is_set b = if b == 0 then false else true

abbrev same : ℕ → ℕ
same n = n

unfoldable pub decode_bool : List ℕ → Outcome (Option Bool)
unfolding first_byte no_error_with
decode_bool bytes =
    if ltb (length bytes) 1 then done none else no_error_with is_set (first_byte bytes)

unfoldable pub decode_byte : List ℕ → Outcome (Option ℕ)
unfolding first_byte no_error_with
decode_byte bytes =
    if ltb (length bytes) 1 then done none else no_error_with same (first_byte bytes)

unfoldable pub decode_uint16 : List ℕ → Outcome (Option ℕ)
unfolding le_uint16 no_error_with
decode_uint16 bytes =
    if ltb (length bytes) 2 then done none else no_error_with same (le_uint16 (take 2 bytes))

unfoldable pub decode_uint32 : List ℕ → Outcome (Option ℕ)
unfolding le_uint32 no_error_with
decode_uint32 bytes =
    if ltb (length bytes) 4 then done none else no_error_with same (le_uint32 (take 4 bytes))

unfoldable pub decode_uint64 : List ℕ → Outcome (Option ℕ)
unfolding le_uint64 no_error_with
decode_uint64 bytes =
    if ltb (length bytes) 8 then done none else no_error_with same (le_uint64 (take 8 bytes))

unfoldable pub decode_sint : List ℕ → Outcome (Option ℤ)
unfolding first_byte no_error_with signed
decode_sint bytes =
    if ltb (length bytes) 1 then done none else no_error_with (signed 128) (first_byte bytes)

unfoldable pub decode_int16 : List ℕ → Outcome (Option ℤ)
unfolding le_uint16 no_error_with signed
decode_int16 bytes =
    if ltb (length bytes) 2
    then done none
    else no_error_with (signed 32768) (le_uint16 (take 2 bytes))

unfoldable pub decode_int32 : List ℕ → Outcome (Option ℤ)
unfolding le_uint32 no_error_with signed
decode_int32 bytes =
    if ltb (length bytes) 4
    then done none
    else no_error_with (signed 2147483648) (le_uint32 (take 4 bytes))

unfoldable pub decode_int64 : List ℕ → Outcome (Option ℤ)
unfolding le_uint64 no_error_with signed
decode_int64 bytes =
    if ltb (length bytes) 8
    then done none
    else no_error_with (signed 9223372036854775808) (le_uint64 (take 8 bytes))

unfoldable pub decode_float32 : List ℕ → Outcome (Option ℕ)
unfolding le_uint32 no_error_with
decode_float32 bytes =
    if ltb (length bytes) 4 then done none else no_error_with same (le_uint32 (take 4 bytes))

unfoldable pub decode_float64 : List ℕ → Outcome (Option ℕ)
unfolding le_uint64 no_error_with
decode_float64 bytes =
    if ltb (length bytes) 8 then done none else no_error_with same (le_uint64 (take 8 bytes))

-- The bytes in front of the first null byte, the loop of `DecodeString`.
unfoldable pub before_null : List ℕ → List ℕ
before_null [] = []
before_null (b ∷ bytes) = if b == 0 then [] else b ∷ before_null bytes

-- `DecodeString`, which has no error.
unfoldable pub decode_string : List ℕ → List ℕ
unfolding before_null
decode_string bytes = before_null bytes
