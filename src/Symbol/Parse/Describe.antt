-- ===== src/Symbol/Parse/Describe.antt =====
-- The description of a data type, as the device writes it, is parsed into the fields of the type.
use goads.Base.{
  ℕ, ◌+◌, ◌^◌, ◌<◌, ◌≡◌, refl, sym, ap, List, [], ◌∷◌, ◌++◌, length, length-append, ltb, ◌==◌, All,
  some, false, true, arith,
}
use mathlib.Core.List.{append-nil}
use goads.Ams.Outcome.{done}
use goads.Ams.Buffer.{put_uint16, put_uint32}
use goads.Slicing.{uint32_at, uint16_at}
use goads.Slicing.Stands.{
  Stands, Stands-at, Stands-first, Stands-second, Stands-inside, string_here, uint32_here,
  Stands-uint32, uint16_here, Stands-uint16, null_terminated_string_id, then_done,
}
use goads.Symbol.{StructField, struct_field, Fields, nil, cons}
use goads.Symbol.Parse.{read_field_strings, read_field, fields_from, after_field, parse_data_type}

-- A type or a field as the device describes it; `offset` is that of a field in its struct.
pub record TypeEntry : Type 0 where
  pub version : ℕ
  pub hash : ℕ
  pub type_hash : ℕ
  pub size : ℕ
  pub offset : ℕ
  pub type_id : ℕ
  pub flags : ℕ
  pub array_dim : ℕ
  pub name : List ℕ
  pub data_type : List ℕ
  pub comment : List ℕ

abbrev strings_of : TypeEntry → List ℕ
strings_of e =
    e.name ++ ((0 ∷ []) ++ (e.data_type ++ ((0 ∷ []) ++ (e.comment ++ ((0 ∷ []) ++ [])))))

abbrev item_length : TypeEntry → ℕ
item_length e = 45 + length e.name + length e.data_type + length e.comment

-- The bytes of an entry that announces `items` fields, and says to be of some length.
unfoldable pub item_bytes : ℕ → ℕ → TypeEntry → List ℕ
item_bytes whole items e =
    put_uint32 whole
    ++ (put_uint32 e.version
        ++ (put_uint32 e.hash
            ++ (put_uint32 e.type_hash
                ++ (put_uint32 e.size
                    ++ (put_uint32 e.offset
                        ++ (put_uint32 e.type_id
                            ++ (put_uint32 e.flags
                                ++ (put_uint16 (length e.name)
                                    ++ (put_uint16 (length e.data_type)
                                        ++ (put_uint16 (length e.comment)
                                            ++ (put_uint16 e.array_dim
                                                ++ (put_uint16 items ++ strings_of e))))))))))))

-- The numbers that are read fit their fields, and no string has a null byte of its own.
pub record IsTypeEntry (e : TypeEntry) : Type 0 where
  pub size : e.size < 2 ^ 32
  pub offset : e.offset < 2 ^ 32
  pub name_fits : length e.name < 2 ^ 16
  pub type_fits : length e.data_type < 2 ^ 16
  pub comment_fits : length e.comment < 2 ^ 16
  pub name : All (λ b. 0 < b) e.name
  pub data_type : All (λ b. 0 < b) e.data_type

abbrev pub field_of : TypeEntry → StructField
field_of e = struct_field e.name e.data_type e.offset e.size nil

length-item_bytes :
    (whole items : ℕ) (e : TypeEntry) → length (item_bytes whole items e) ≡ item_length e
unfolding item_bytes put_uint32 put_uint16
length-item_bytes whole items e = simp length-append (omega arith)

-- The numbers of an entry, where it stands.
record Numbers (whole items : ℕ) (e : TypeEntry) (bytes : List ℕ) (at : ℕ) : Type 0 where
  whole_here : uint32_at bytes at ≡ done whole
  size_here : uint32_at bytes (at + 16) ≡ done e.size
  offset_here : uint32_at bytes (at + 20) ≡ done e.offset
  name_length_here : uint16_at bytes (at + 32) ≡ done (length e.name)
  type_length_here : uint16_at bytes (at + 34) ≡ done (length e.data_type)
  comment_length_here : uint16_at bytes (at + 36) ≡ done (length e.comment)
  items_here : uint16_at bytes (at + 40) ≡ done items
  strings_here : Stands (strings_of e) (at + 42) bytes

Numbers-here :
    (whole items : ℕ) (e : TypeEntry) (bytes : List ℕ) (at : ℕ)
    → whole < 2 ^ 32
    → items < 2 ^ 16
    → IsTypeEntry e
    → Stands (item_bytes whole items e) at bytes
    → Numbers whole items e bytes at
unfolding item_bytes
Numbers-here whole items e bytes at fits few v s =
    let s4 = Stands-uint32 whole _ (at + 4) refl s in
    let s8 = Stands-uint32 e.version _ (at + 8) (omega arith) s4 in
    let s12 = Stands-uint32 e.hash _ (at + 12) (omega arith) s8 in
    let s16 = Stands-uint32 e.type_hash _ (at + 16) (omega arith) s12 in
    let s20 = Stands-uint32 e.size _ (at + 20) (omega arith) s16 in
    let s24 = Stands-uint32 e.offset _ (at + 24) (omega arith) s20 in
    let s28 = Stands-uint32 e.type_id _ (at + 28) (omega arith) s24 in
    let s32 = Stands-uint32 e.flags _ (at + 32) (omega arith) s28 in
    let s34 = Stands-uint16 (length e.name) _ (at + 34) (omega arith) s32 in
    let s36 = Stands-uint16 (length e.data_type) _ (at + 36) (omega arith) s34 in
    let s38 = Stands-uint16 (length e.comment) _ (at + 38) (omega arith) s36 in
    let s40 = Stands-uint16 e.array_dim _ (at + 40) (omega arith) s38 in
    record {
      whole_here = uint32_here whole _ bytes at fits s;
      size_here = uint32_here e.size _ bytes (at + 16) v.size s16;
      offset_here = uint32_here e.offset _ bytes (at + 20) v.offset s20;
      name_length_here = uint16_here (length e.name) _ bytes (at + 32) v.name_fits s32;
      type_length_here = uint16_here (length e.data_type) _ bytes (at + 34) v.type_fits s34;
      comment_length_here = uint16_here (length e.comment) _ bytes (at + 36) v.comment_fits s36;
      items_here = uint16_here items _ bytes (at + 40) few s40;
      strings_here = Stands-uint16 items _ (at + 42) (omega arith) s40;
    }

-- One field of a struct, which announces no fields of its own.
abbrev field_bytes : TypeEntry → List ℕ
field_bytes e = item_bytes (item_length e) 0 e

read_field_here :
    (e : TypeEntry) (bytes : List ℕ) (at : ℕ)
    → IsTypeEntry e
    → Stands (field_bytes e) at bytes
    → read_field bytes at ≡ done (some (field_of e, at + item_length e))
unfolding read_field read_field_strings
read_field_here e bytes at v s =
    let n = Numbers-here (item_length e) 0 e bytes at (omega arith) (omega arith) v s in
    let (name, type_stands, name_inside) = string_here e.name _ bytes (at + 42) n.strings_here in
    let (data_type, _, type_inside) =
      string_here e.data_type _ bytes (at + 42 + length e.name + 1) type_stands in
    let long : ltb (length bytes) (at + 42) ≡ false = ground arith in
    let named : ltb (length bytes) (at + 42 + length e.name) ≡ false = ground arith in
    let typed : ltb (length bytes) (at + 42 + length e.name + 1 + length e.data_type) ≡ false =
      ground arith in
    rw (long, read_field)
      (then_done _ n.size_here (
        then_done _ n.offset_here (
          then_done _ n.name_length_here (
            then_done _ n.type_length_here (
              rw (named, read_field_strings)
                (then_done _ name (
                  rw typed (
                    then_done _ data_type (
                      then_done _ n.whole_here (
                        rw (null_terminated_string_id e.name v.name)
                          (rw (null_terminated_string_id e.data_type v.data_type) refl)))))))))))

-- The fields of a struct, one behind the other.
unfoldable pub fields_bytes : List TypeEntry → List ℕ
fields_bytes [] = []
fields_bytes (e ∷ es) = item_bytes (item_length e) 0 e ++ fields_bytes es

abbrev pub fields_of_entries : List TypeEntry → Fields
fields_of_entries [] = nil
fields_of_entries (e ∷ es) = cons (field_of e) (fields_of_entries es)

fields_here :
    (es : List TypeEntry) (bytes : List ℕ) (at : ℕ)
    → All IsTypeEntry es
    → Stands (fields_bytes es) at bytes
    → fields_from (length es) bytes at ≡ done (fields_of_entries es)
unfolding fields_bytes fields_from after_field
fields_here [] bytes at v s = refl
fields_here (e ∷ es) bytes at (v, vs) s =
    let here = Stands-first (field_bytes e) (fields_bytes es) s in
    let behind =
      Stands-at (fields_bytes es) (ap (λ n. at + n) (length-item_bytes (item_length e) 0 e))
        (Stands-second (field_bytes e) (fields_bytes es) s) in
    let before : ltb at (length bytes) ≡ true =
      ground (arith, Stands-inside (field_bytes e) here, length-item_bytes (item_length e) 0 e) in
    rw (before, fields_from)
      (then_done _ (read_field_here e bytes at v here)
        (then_done _ (fields_here es bytes (at + item_length e) vs behind) refl))

-- The description of a struct type, whose fields are primitive or described elsewhere.
unfoldable pub type_bytes : TypeEntry → List TypeEntry → List ℕ
type_bytes e es =
    item_bytes (item_length e + length (fields_bytes es)) (length es) e ++ fields_bytes es

-- `GetDataTypeInfo` finds in the description of a struct the fields that it describes, in their
-- order: the numbers that it reads fit their fields, the names and types have no null bytes, the
-- struct has 1 to 65535 fields and the description less than 4 GiB.
pub parse_data_type-type_bytes :
    (e : TypeEntry) (es : List TypeEntry)
    → IsTypeEntry e
    → All IsTypeEntry es
    → 0 < length es
    → length es < 2 ^ 16
    → item_length e + length (fields_bytes es) < 2 ^ 32
    → parse_data_type (type_bytes e es) ≡ done (some (fields_of_entries es))
unfolding parse_data_type type_bytes
parse_data_type-type_bytes e es v vs some_fields few fits =
    let bytes = type_bytes e es in
    let whole = item_length e + length (fields_bytes es) in
    let stands : Stands (item_bytes whole (length es) e ++ fields_bytes es) 0 bytes =
      ([], [], sym (append-nil bytes), refl) in
    let head = item_bytes whole (length es) e in
    let here = Stands-first head (fields_bytes es) stands in
    let n = Numbers-here whole (length es) e bytes 0 fits few v here in
    let size = length-item_bytes whole (length es) e in
    let behind =
      Stands-at (fields_bytes es)
        {other = 42 + length e.name + 1 + length e.data_type + 1 + length e.comment + 1}
        (omega (arith, size)) (Stands-second head (fields_bytes es) stands) in
    let long : ltb (length bytes) 42 ≡ false = ground (arith, Stands-inside head here, size) in
    let enough : ltb (length bytes) 32 ≡ false = ground arith in
    let struct : (length es == 0) ≡ false = ground arith in
    rw (enough, parse_data_type)
      (rw long (
        then_done _ n.items_here (
          rw struct (
            then_done _ n.name_length_here (
              then_done _ n.type_length_here (
                then_done _ n.comment_length_here
                  (then_done _ (fields_here es bytes _ vs behind) refl)))))))
