-- ===== src/Symbol/Parse.antt =====
-- symbol.go and client.go, what `GetSymbol`, `GetDataTypeInfo` and `GetSymHandleByName` make of the
-- responses of the device.
pub mod Safety
pub mod Describe
use goads.Base.{ℕ, zero, suc, ◌+◌, ◌==◌, ltb, leb, if◌then◌else◌, Option, none, some, List, length}
use goads.Base.Bytes.{codes}
use goads.Ams.Outcome.{Outcome, done}
use goads.Ams.ReadWrite.{ReadWriteResponse}
use goads.Slicing.{and_then, slice_of, uint32_at, uint16_at, null_terminated_string}
use goads.Symbol.{StructField, struct_field, Fields, nil, cons}

-- `Client.GetSymbol` on its response: the data type and the size.
abbrev unknown : List ℕ
unknown = codes "UNKNOWN"

unfoldable pub type_name_at : List ℕ → ℕ → ℕ → Outcome (List ℕ)
unfolding and_then slice_of null_terminated_string
type_name_at bytes type_start type_end =
    if leb type_end (length bytes)
    then and_then (slice_of bytes type_start type_end) (λ t. done (null_terminated_string t))
    else done unknown

-- `Symbol`; `GetSymbol` leaves its `Fields` empty.
pub record Symbol : Type 0 where
  pub name : List ℕ
  pub data_type : List ℕ
  pub size : ℕ
  pub fields : Fields

unfoldable pub parse_symbol : List ℕ → List ℕ → Outcome (Option Symbol)
unfolding and_then uint32_at uint16_at type_name_at
parse_symbol name bytes =
    if ltb (length bytes) 32
    then done none
    else and_then (uint32_at bytes 12) λ size. and_then (uint16_at bytes 24) λ name_length.
      and_then (uint16_at bytes 26) λ type_length.
        let type_start = 30 + name_length + 1 in
        and_then (type_name_at bytes type_start (type_start + type_length)) λ data_type.
          done (some (record { name = name; data_type = data_type; size = size; fields = nil }))

-- `Client.GetSymHandleByName` on its response
unfoldable pub parse_handle : ReadWriteResponse → Outcome (Option ℕ)
unfolding and_then uint32_at
parse_handle res =
    if res.ams_header.error_code == 0
    then if ltb (length res.payload) 4
      then done none
      else and_then (uint32_at res.payload 0) (λ handle. done (some handle))
    else done none

-- `GetDataTypeInfo`: the body of its loop, one field and where the next one begins, or `none` for a
-- `break`.
unfoldable pub read_field_strings : List ℕ → ℕ → ℕ → ℕ → ℕ → ℕ → Outcome (Option (StructField × ℕ))
unfolding and_then slice_of uint32_at null_terminated_string
read_field_strings bytes offset size field_offset name_length type_length =
    let name_start = offset + 42 in
    let name_end = name_start + name_length in
    let type_start = name_end + 1 in
    let type_end = type_start + type_length in
    if ltb (length bytes) name_end
    then done none
    else and_then (slice_of bytes name_start name_end) (λ name.
      if ltb (length bytes) type_end
      then done none
      else and_then (slice_of bytes type_start type_end) (λ data_type.
        and_then (uint32_at bytes offset) (λ entry_length. done (
          some (
            struct_field (null_terminated_string name) (null_terminated_string data_type)
                field_offset size nil,
            offset + entry_length,
          )))))

unfoldable pub read_field : List ℕ → ℕ → Outcome (Option (StructField × ℕ))
unfolding and_then uint32_at uint16_at read_field_strings
read_field bytes offset =
    if ltb (length bytes) (offset + 42)
    then done none
    else and_then (uint32_at bytes (offset + 16)) λ size.
      and_then (uint32_at bytes (offset + 20)) λ field_offset.
        and_then (uint16_at bytes (offset + 32)) λ name_length.
          and_then (uint16_at bytes (offset + 34))
            λ type_length. read_field_strings bytes offset size field_offset name_length type_length

-- What the loop does after one turn; `rest` is the loop from an offset on.
unfoldable pub after_field : (ℕ → Outcome Fields) → Option (StructField × ℕ) → Outcome Fields
unfolding and_then
after_field rest none = done nil
after_field rest (some (f, next)) = and_then (rest next) (λ fs. done (cons f fs))

-- The loop, for as many fields as the response announces.
unfoldable pub fields_from : ℕ → List ℕ → ℕ → Outcome Fields
unfolding and_then read_field after_field
fields_from zero bytes offset = done nil
fields_from (suc n) bytes offset =
    if ltb offset (length bytes)
    then and_then (read_field bytes offset) (after_field (fields_from n bytes))
    else done nil

-- `GetDataTypeInfo` on its response: `none` for an error, no field for a primitive type.
unfoldable pub parse_data_type : List ℕ → Outcome (Option Fields)
unfolding and_then uint16_at fields_from
parse_data_type bytes =
    if ltb (length bytes) 32
    then done none
    else if ltb (length bytes) 42
    then done none
    else and_then (uint16_at bytes 40) (λ sub_items.
      if sub_items == 0
      then done (some nil)
      else and_then (uint16_at bytes 32) λ name_length. and_then (uint16_at bytes 34) λ type_length.
        and_then (uint16_at bytes 36) λ comment_length.
          let offset = 42 + name_length + 1 + type_length + 1 + comment_length + 1 in
          and_then (fields_from sub_items bytes offset) (λ fs. done (some fs)))
