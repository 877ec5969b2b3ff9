-- ===== src/Symbol/Parse/Safety.antt =====
-- The responses of the device make nothing panic.
use goads.Base.{
  some, zero, suc, ◌≤◌, ℕ, ◌+◌, ◌≡◌, refl, leb, ltb, ◌==◌, Option, none, List, length, arith,
}
use goads.Ams.Outcome.{Outcome, done}
use goads.Ams.ReadWrite.{ReadWriteResponse}
use goads.Slicing.Returns.{
  Returns, Any, Returns-and_then, Returns-slice_of, Returns-uint32_at, Returns-uint16_at,
  Returns-if,
}
use goads.Symbol.{StructField, Fields, nil}
use goads.Symbol.Parse.{
  read_field_strings, read_field, fields_from, after_field, parse_data_type, Symbol, type_name_at,
  parse_symbol, parse_handle,
}

Returns-type_name_at :
    (bytes : List ℕ) (start size : ℕ) → Returns Any (type_name_at bytes start (start + size))
unfolding type_name_at
Returns-type_name_at bytes start size =
    Returns-if (leb (start + size) (length bytes))
      (λ inside.
        Returns-and_then _ _
          (Returns-slice_of bytes start (start + size) (omega arith) (ground arith))
          (λ t _. (_, refl, tt)))
      (λ cut. (_, refl, tt))

Returns-read_field_strings :
    (bytes : List ℕ) (offset size field_offset name_length type_length : ℕ)
    → offset + 4 ≤ length bytes
    → Returns Any (read_field_strings bytes offset size field_offset name_length type_length)
unfolding read_field_strings
Returns-read_field_strings bytes offset size field_offset name_length type_length inside =
    let name_end = offset + 42 + name_length in
    let type_end = name_end + 1 + type_length in
    Returns-if (ltb (length bytes) name_end) (λ cut. (none, refl, tt))
      λ named.
        Returns-and_then _ _
          (Returns-slice_of bytes (offset + 42) name_end (omega arith) (ground arith))
          λ name _.
            Returns-if (ltb (length bytes) type_end) (λ cut. (none, refl, tt))
              λ typed.
                Returns-and_then _ _
                  (Returns-slice_of bytes (name_end + 1) type_end (omega arith) (ground arith))
                  λ data_type _.
                    Returns-and_then _ _ (Returns-uint32_at bytes offset inside)
                      λ entry_length _. (_, refl, tt)

Returns-read_field : (bytes : List ℕ) (offset : ℕ) → Returns Any (read_field bytes offset)
unfolding read_field
Returns-read_field bytes offset =
    Returns-if (ltb (length bytes) (offset + 42)) (λ cut. (none, refl, tt))
      λ inside.
        Returns-and_then _ _ (Returns-uint32_at bytes (offset + 16) (ground arith)) λ size _.
          Returns-and_then _ _ (Returns-uint32_at bytes (offset + 20) (ground arith))
            λ field_offset _.
              Returns-and_then _ _ (Returns-uint16_at bytes (offset + 32) (ground arith)) λ names _.
                Returns-and_then _ _ (Returns-uint16_at bytes (offset + 34) (ground arith))
                  λ types _.
                    Returns-read_field_strings bytes offset size field_offset names types
                      (ground arith)

Returns-after_field :
    (rest : ℕ → Outcome Fields) (field : Option (StructField × ℕ))
    → ((next : ℕ) → Returns Any (rest next))
    → Returns Any (after_field rest field)
unfolding after_field
Returns-after_field rest none returns = (nil, refl, tt)
Returns-after_field rest (some (f, next)) returns =
    Returns-and_then _ _ (returns next) λ fs _. (_, refl, tt)

Returns-fields_from :
    (n : ℕ) (bytes : List ℕ) (offset : ℕ) → Returns Any (fields_from n bytes offset)
unfolding fields_from
Returns-fields_from zero bytes offset = (nil, refl, tt)
Returns-fields_from (suc n) bytes offset =
    Returns-if (ltb offset (length bytes))
      (λ inside.
        Returns-and_then _ _ (Returns-read_field bytes offset)
          (λ field _. Returns-after_field _ field (Returns-fields_from n bytes)))
      (λ behind. (nil, refl, tt))

Returns-parse_data_type : (bytes : List ℕ) → Returns Any (parse_data_type bytes)
unfolding parse_data_type
Returns-parse_data_type bytes =
    Returns-if (ltb (length bytes) 32) (λ short. (none, refl, tt))
      λ _.
        Returns-if (ltb (length bytes) 42) (λ short. (none, refl, tt))
          λ long. Returns-and_then _ _ (Returns-uint16_at bytes 40 (ground arith)) λ sub_items _.
            Returns-if (sub_items == 0) (λ primitive. (some nil, refl, tt))
              λ struct.
                Returns-and_then _ _ (Returns-uint16_at bytes 32 (ground arith)) λ name_length _.
                  Returns-and_then _ _ (Returns-uint16_at bytes 34 (ground arith)) λ type_length _.
                    Returns-and_then _ _ (Returns-uint16_at bytes 36 (ground arith))
                      λ comment_length _.
                        Returns-and_then _ _ (Returns-fields_from sub_items bytes _)
                          λ fs _. (_, refl, tt)

-- `GetSymbol`, `GetDataTypeInfo` and `GetSymHandleByName` return on every response, of any length and
-- content: they make no access out of range.
pub parse_symbol_ends :
    (name bytes : List ℕ) (res : ReadWriteResponse)
    → ((symbol : Option Symbol) × (parse_symbol name bytes ≡ done symbol))
      × ((handle : Option ℕ) × (parse_handle res ≡ done handle))
      × ((fields : Option Fields) × (parse_data_type bytes ≡ done fields))
unfolding parse_symbol parse_handle
parse_symbol_ends name bytes res = (
  let (symbol, same, _) =
        Returns-if {P = Any} (ltb (length bytes) 32) (λ short. (none, refl, tt))
          λ long. Returns-and_then _ _ (Returns-uint32_at bytes 12 (ground arith)) λ size _.
            Returns-and_then _ _ (Returns-uint16_at bytes 24 (ground arith)) λ name_length _.
              Returns-and_then _ _ (Returns-uint16_at bytes 26 (ground arith)) λ type_length _.
                Returns-and_then _ _ (Returns-type_name_at bytes (30 + name_length + 1) type_length)
                  λ data_type _. (_, refl, tt) in
      (symbol, same),
  let (handle, same, _) =
        Returns-if {P = Any} (res.ams_header.error_code == 0)
          (λ fine.
            Returns-if (ltb (length res.payload) 4) (λ short. (none, refl, tt))
              λ long.
                Returns-and_then _ _ (Returns-uint32_at res.payload 0 (ground arith))
                  λ h _. (_, refl, tt))
          (λ failed. (none, refl, tt)) in
      (handle, same),
  let (fields, same, _) = Returns-parse_data_type bytes in (fields, same),
)
