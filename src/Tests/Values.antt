-- ===== src/Tests/Values.antt =====
-- Values of each type, encoded and decoded.
use goads.Base.{◌%◌, ◌^◌, ◌≡◌, arith, true, some, [], ◌∷◌, ◌++◌, take}
use goads.Base.Int.{pos, negsuc}
use goads.Ams.Outcome.{done}
use goads.Typed.{
  encode_bool, encode_byte, encode_uint16, encode_uint32, encode_uint64, encode_string, decode_bool,
  decode_byte, decode_uint16, decode_uint32, decode_uint64, decode_string, encode_sint,
  encode_int16, encode_int32, encode_int64, encode_float32, encode_float64, decode_sint,
  decode_int16, decode_int32, decode_int64, decode_float32, decode_float64,
}
use goads.Typed.RoundTrip.{typed_round_trip}

typed_round_trip_example :
    (decode_bool (encode_bool true ++ (5 ∷ [])) ≡ done (some true))
    × (decode_byte (encode_byte 200 ++ (5 ∷ [])) ≡ done (some 200))
    × (decode_uint16 (encode_uint16 (200 % 2 ^ 16) ++ (5 ∷ [])) ≡ done (some (200 % 2 ^ 16)))
    × (decode_uint32 (encode_uint32 (200 % 2 ^ 32) ++ (5 ∷ [])) ≡ done (some (200 % 2 ^ 32)))
    × (decode_uint64 (encode_uint64 (200 % 2 ^ 64) ++ (5 ∷ [])) ≡ done (some (200 % 2 ^ 64)))
    × (decode_sint (encode_sint (negsuc 127) ++ (5 ∷ [])) ≡ done (some (negsuc 127)))
    × (decode_int16 (encode_int16 (negsuc 0) ++ (5 ∷ [])) ≡ done (some (negsuc 0)))
    × (decode_int32 (encode_int32 (negsuc 41) ++ (5 ∷ [])) ≡ done (some (negsuc 41)))
    × (decode_int64 (encode_int64 (pos 70000) ++ (5 ∷ [])) ≡ done (some (pos 70000)))
    × (decode_float32 (encode_float32 (200 % 2 ^ 32) ++ (5 ∷ [])) ≡ done (some (200 % 2 ^ 32)))
    × (decode_float64 (encode_float64 (200 % 2 ^ 64) ++ (5 ∷ [])) ≡ done (some (200 % 2 ^ 64)))
    × (decode_string (encode_string (97 ∷ 98 ∷ 99 ∷ []) 2) ≡ take 2 (97 ∷ 98 ∷ 99 ∷ []))
typed_round_trip_example =
    typed_round_trip true 200 (negsuc 127) (negsuc 0) (negsuc 41) (pos 70000) (5 ∷ [])
      (97 ∷ 98 ∷ 99 ∷ []) 2 (omega arith) (omega arith) (omega arith) (omega arith)
      (omega arith, (omega arith, (omega arith, tt)))
