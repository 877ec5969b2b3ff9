-- ===== src/Variable.antt =====
-- variable.go and the operations of symbol.go and client.go that it calls: a variable is read and
-- written by its name, and one field of a struct by its path.
pub mod Memory
pub mod Populate
use goads.Base.{
  ℕ, ◌+◌, ◌==◌, ltb, if◌then◌else◌, Bool, true, false, Option, none, some, List, [], ◌∷◌, ◌++◌,
  length, take, drop,
}
use goads.Ams.Addr.{Addr}
use goads.Ams.Constants.{idx_get_sym_handle_by_name}
use goads.Ams.Buffer.{copy}
use goads.Ams.Read.{new_read_request}
use goads.Ams.Write.{new_write_request}
use goads.Ams.ReadWrite.{new_read_write_request}
use goads.Symbol.{
  StructField, Fields, nil, cons, found, missing, size_of, slice, find_field_by_path_with_offset,
}
use goads.Symbol.Parse.{Symbol, parse_symbol, parse_handle, parse_data_type}
use goads.Link.{Link, Task, ◌>>=◌, ◌>>◌, pure, call, parsed, or_fail}

-- `ADSIGRP_SYM_VALBYHND`, with a handle as the offset
abbrev pub value_group : ℕ
value_group = 0xF005

-- `len(fields) == 0`
abbrev pub no_fields : Fields → Bool
no_fields nil = true
no_fields (cons f fs) = false

-- What `WriteNestedField` makes of the struct's bytes: `none` is an error. The session's has the same
-- conditions.
unfoldable pub patch : List ℕ → List ℕ → StructField × ℕ → Option (List ℕ)
unfolding copy
patch bytes payload (f, offset) =
    let field_end = offset + size_of f in
    if ltb (length bytes) field_end
    then none
    else if length payload == size_of f
    then some
        (take offset bytes ++ (copy (slice bytes offset field_end) payload ++ drop field_end bytes))
    else none

unfoldable pub update_field : Fields → List (List ℕ) → List ℕ → List ℕ → Option (List ℕ)
unfolding find_field_by_path_with_offset patch
update_field fields path payload bytes = elim (find_field_by_path_with_offset fields path 0) [
  | missing e ↦ none
  | found place ↦ patch bytes payload place
]

module _ {D : Type 0} (link : Link D) (target sender : Addr) where
  -- `GetSymbol`
  unfoldable pub get_symbol : List ℕ → Task D Symbol
  unfolding parse_symbol
  get_symbol name = do
    resp ←
        call (
          link.read_write (new_read_write_request target sender 0xF009 0 0xFFFF (name ++ (0 ∷ []))))
    parsed (parse_symbol name resp.payload)

  -- `GetDataTypeInfo`
  unfoldable pub get_data_type_info : List ℕ → Task D Fields
  unfolding parse_data_type
  get_data_type_info name = do
    resp ←
        call (
          link.read_write (new_read_write_request target sender 0xF011 0 0xFFFF (name ++ (0 ∷ []))))
    parsed (parse_data_type resp.payload)

  -- `GetSymHandleByName`
  unfoldable pub get_sym_handle_by_name : List ℕ → Task D ℕ
  unfolding parse_handle
  get_sym_handle_by_name name = do
    resp ←
        call (
          link.read_write
            (new_read_write_request target sender idx_get_sym_handle_by_name 0 4 name))
    parsed (parse_handle resp)

  -- The bytes under a handle: a Read request and its response.
  unfoldable pub read_value : ℕ → ℕ → Task D (List ℕ)
  read_value handle size = do
    resp ← call (link.read (new_read_request target sender value_group handle size))
    pure resp.payload

  unfoldable pub write_value : ℕ → List ℕ → Task D Unit
  write_value handle bytes = do
    resp ← call (link.write (new_write_request target sender value_group handle bytes))
    pure tt

  -- `ReadVariable`
  unfoldable pub read_variable : List ℕ → Task D (List ℕ × Symbol)
  unfolding get_symbol get_sym_handle_by_name read_value
  read_variable name = do
    symbol ← get_symbol name
    handle ← get_sym_handle_by_name name
    bytes ← read_value handle symbol.size
    pure (bytes, symbol)

  -- `WriteVariable`
  unfoldable pub write_variable : List ℕ → List ℕ → Task D Unit
  unfolding get_sym_handle_by_name write_value
  write_variable name payload = do handle ← get_sym_handle_by_name name; write_value handle payload

  -- The fields of a symbol, asked for unless they are there.
  unfoldable pub load_fields : Symbol → Task D Fields
  unfolding get_data_type_info
  load_fields symbol =
      if no_fields symbol.fields then get_data_type_info symbol.data_type else pure symbol.fields

  -- `WriteNestedField`
  unfoldable pub write_nested_field : List ℕ → List (List ℕ) → List ℕ → Task D Unit
  unfolding get_symbol get_sym_handle_by_name read_value load_fields update_field write_value
  write_nested_field name path payload = do
    symbol ← get_symbol name
    handle ← get_sym_handle_by_name name
    bytes ← read_value handle symbol.size
    fields ← load_fields symbol
    updated ← or_fail (update_field fields path payload bytes)
    write_value handle updated
