-- ===== src/Tests/Variables.antt =====
-- The operations of a client on the device with one variable.
use goads.Base.{
  replicate, sym, ap, ◌∙◌, ℕ, ◌+◌, ◌<◌, ◌≤◌, ◌≡◌, ◌≢◌, ◌^◌, refl, arith, some, List, [], ◌∷◌,
  length, All,
}
use goads.Ams.Outcome.{done}
use goads.Ams.Buffer.{put_uint32, put_uint16, le_uint32, le_uint16}
use goads.Ams.ReadWrite.{new_read_write_request}
use goads.Symbol.{
  Fields, cons, StructField, struct_field, nil, found, find_field_by_path_with_offset, first_named,
  size_of,
}
use goads.Symbol.Parse.{parse_data_type}
use goads.Symbol.Parse.Describe.{
  IsTypeEntry, item_bytes, fields_bytes, type_bytes, fields_of_entries, parse_data_type-type_bytes,
}
use mathlib.Core.Path.{subst}
use goads.Variable.Populate.{AllFilled, populate}
use goads.Variable.Populate.Filling.{FillsAll}
use goads.Variable.Populate.Ends.{RanksBelow, IsRanked, populate_ends}
use goads.Link.{Reply, crashed, ok, failed}
use goads.Variable
use goads.Variable.{write_nested_field, write_variable, read_variable}
use goads.Variable.Memory.{
  IsPatched, write_nested_field-IsPatched, write_nested_field_refused, read_variable-write_variable,
}
use goads.Tests.Data.{target, sender}
use goads.Tests.Devices.{
  struct_entry, field_entries, World, toy, toy_device, start_world, struct_symbol, toy-Describes,
}

b_found :
    find_field_by_path_with_offset (fields_of_entries field_entries) ((98 ∷ []) ∷ []) 0
    ≡ found (struct_field (98 ∷ []) (73 ∷ []) 1 2 nil, 1)
unfolding find_field_by_path_with_offset first_named
b_found = refl

write_nested_field-IsPatched_example :
    (d' : World) × (write_nested_field toy target sender
        (112 ∷ [])
        ((98 ∷ []) ∷ [])
        (8 ∷ 9 ∷ [])
        start_world
      ≡ (ok tt, d'))
    × IsPatched (1 ∷ 2 ∷ 3 ∷ []) (d' 7) 1 (8 ∷ 9 ∷ [])
    × ((k : ℕ) → k ≢ 7 → d' k ≡ start_world k)
unfolding toy_device
write_nested_field-IsPatched_example =
    write_nested_field-IsPatched toy_device target sender start_world (112 ∷ []) struct_symbol 7
      (fields_of_entries field_entries) ((98 ∷ []) ∷ []) (8 ∷ 9 ∷ [])
      (struct_field (98 ∷ []) (73 ∷ []) 1 2 nil) 1 (toy-Describes start_world refl) b_found
      (omega arith) refl

too_long :
    (f : StructField) (offset : ℕ)
    → find_field_by_path_with_offset (fields_of_entries field_entries) ((99 ∷ []) ∷ []) 0
      ≡ found (f, offset)
    → offset + size_of f ≤ length (start_world 7)
    → 2 ≢ size_of f
unfolding find_field_by_path_with_offset first_named
too_long f offset named fits = ground (arith, named)

write_nested_field_refused_example :
    write_nested_field toy target sender (112 ∷ []) ((99 ∷ []) ∷ []) (8 ∷ 9 ∷ []) start_world
    ≡ (failed, start_world)
unfolding toy_device
write_nested_field_refused_example =
    write_nested_field_refused toy_device target sender start_world (112 ∷ []) struct_symbol 7
      (fields_of_entries field_entries) ((99 ∷ []) ∷ []) (8 ∷ 9 ∷ [])
      (toy-Describes start_world refl) too_long

read_variable-write_variable_example :
    (d' : World) × (write_variable toy target sender (112 ∷ []) (4 ∷ 5 ∷ 6 ∷ []) start_world
      ≡ (ok tt, d'))
    × (read_variable toy target sender (112 ∷ []) d' ≡ (ok (4 ∷ 5 ∷ 6 ∷ [], struct_symbol), d'))
unfolding toy_device
read_variable-write_variable_example =
    read_variable-write_variable toy_device target sender start_world (112 ∷ []) struct_symbol 7
      (fields_of_entries field_entries) (4 ∷ 5 ∷ 6 ∷ []) toy-Describes refl refl

entries-IsTypeEntry : All IsTypeEntry field_entries
entries-IsTypeEntry = (
  record {
    size = omega arith;
    offset = omega arith;
    name_fits = omega arith;
    type_fits = omega arith;
    comment_fits = omega arith;
    name = (omega arith, tt);
    data_type = (omega arith, tt);
  },
  (
    record {
      size = omega arith;
      offset = omega arith;
      name_fits = omega arith;
      type_fits = omega arith;
      comment_fits = omega arith;
      name = (omega arith, tt);
      data_type = (omega arith, tt);
    },
    tt,
  ),
)

struct-IsTypeEntry : IsTypeEntry struct_entry
struct-IsTypeEntry = record {
  size = omega arith;
  offset = omega arith;
  name_fits = omega arith;
  type_fits = omega arith;
  comment_fits = omega arith;
  name = (omega arith, tt);
  data_type = tt;
}

described_small : 46 + length (fields_bytes field_entries) < 2 ^ 32
unfolding fields_bytes item_bytes put_uint32 put_uint16
described_small = omega arith

parse_data_type-type_bytes_example :
    parse_data_type (type_bytes struct_entry field_entries)
    ≡ done (some (fields_of_entries field_entries))
parse_data_type-type_bytes_example =
    parse_data_type-type_bytes struct_entry field_entries struct-IsTypeEntry entries-IsTypeEntry
      (omega arith) (omega arith) described_small

-- The fields in the answer to `GetDataTypeInfo`
abbrev described_fields : Reply Fields × World → Fields
described_fields (ok fields, d) = fields
described_fields (failed, d) = nil
described_fields (crashed, d) = nil

toy_described :
    (name : List ℕ) (d : World)
    → Variable.get_data_type_info toy target sender name d
      ≡ (ok (fields_of_entries field_entries), d)
unfolding Variable.get_data_type_info new_read_write_request type_bytes item_bytes fields_bytes
    put_uint32 put_uint16 le_uint32 le_uint16
toy_described name d = refl

abbrev flat : List ℕ → ℕ
flat name = 0

toy-IsRanked : IsRanked toy target sender flat
toy-IsRanked = record {
  below = λ name fields d d' answered.
      subst (RanksBelow flat 0) (ap described_fields (sym (toy_described name d) ∙ answered))
        (omega arith, (omega arith, tt));
}

-- A struct of nine bytes in a struct
abbrev outer_fields : Fields
outer_fields = cons (struct_field (113 ∷ []) (115 ∷ []) 0 9 nil) nil

populate_ends_example :
    (all : AllFilled) × (d' : World) × (populate toy target sender 2 outer_fields
        (replicate 9 1)
        start_world
      ≡ (ok (some all), d'))
    × FillsAll toy target sender outer_fields (replicate 9 1) all
populate_ends_example =
    populate_ends toy target sender flat 1 outer_fields (replicate 9 1) start_world toy-IsRanked
      (omega arith, tt)
