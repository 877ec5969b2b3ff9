-- ===== src/Tests/Texts.antt =====
-- Addresses and values as text.
use goads.Base.{ℕ, ◌≡◌, refl, arith, Option, none, some, List, [], ◌∷◌, ◌++◌}
use goads.Base.Bytes.{codes}
use goads.Base.Decimal.{decimal, at_end, other, is_digit}
use goads.Base.Int.{negsuc}
use goads.Ams.Outcome.{done}
use goads.Ams.Addr.Text.{parse_addr, IsTextAddr}
use goads.Ams.Addr.Must.{must_parse_addr, Round, addr_text-Round}
use goads.Encoding.{w16, w8, int_value, Value, encode_value, decode_field_value}
use goads.Encoding.RoundTrip.{StandsFor, for_int, decode_field_value-encode_value}
use goads.Encoding.Names.{int, byte}
use goads.Encoding.Kinds.{int_text}
use goads.Encoding.Refusals.{
  StandsForNone, too_large, encode_value_refused, decode_field_value_ends,
}
use goads.Tests.Data.{target}

target-IsTextAddr : IsTextAddr target
target-IsTextAddr = record {
  six = refl;
  bytes =
      (omega arith, (omega arith, (omega arith, (omega arith, (omega arith, (omega arith, tt))))));
  port = omega arith;
}

abbrev target_text : List ℕ
target_text = codes "01.2.3.4.5.6:1234"

target_parsed : must_parse_addr target_text ≡ done target
unfolding must_parse_addr
target_parsed = refl

addr_text-Round_example :
    Round target × (parse_addr target_text ≡ some target) × IsTextAddr target × Round target
addr_text-Round_example = addr_text-Round target target target_text target-IsTextAddr target_parsed

-- No float is scanned.
abbrev no_float : List ℕ → Option ℕ
no_float text = none

minus_five :
    StandsFor no_float no_float
      (codes "INT")
      (int_text (negsuc 4) ++ codes " V")
      2
      (int_value w16 (negsuc 4))
unfolding is_digit
minus_five =
    for_int (codes "INT") w16 32768 (negsuc 4) (codes " V") 2 int (omega arith) (other 32 _ refl)

decode_field_value-encode_value_example :
    (bytes : List ℕ) × (encode_value no_float no_float
        (int_text (negsuc 4) ++ codes " V")
        (codes "INT")
        2
      ≡ some bytes)
    × (decode_field_value bytes (codes "INT") ≡ done (int_value w16 (negsuc 4)))
decode_field_value-encode_value_example =
    decode_field_value-encode_value no_float no_float (codes "INT")
      (int_text (negsuc 4) ++ codes " V") 2 (int_value w16 (negsuc 4)) minus_five

three_hundred : StandsForNone (codes "BYTE") (decimal 300 ++ [])
three_hundred = too_large (codes "BYTE") w8 256 300 [] byte (omega arith) at_end

encode_value_refused_example :
    encode_value no_float no_float (decimal 300 ++ []) (codes "BYTE") 1 ≡ none
encode_value_refused_example =
    encode_value_refused no_float no_float (codes "BYTE") (decimal 300 ++ []) 1 three_hundred

decode_field_value_ends_example :
    (v : Value) × (decode_field_value (7 ∷ []) (codes "LREAL") ≡ done v)
decode_field_value_ends_example = decode_field_value_ends (7 ∷ []) (codes "LREAL")
