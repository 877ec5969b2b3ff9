-- ===== src/Tests/Symbols.antt =====
-- A struct within a struct, and the searches on it.
use goads.Base.{ℕ, ◌+◌, ◌≤◌, ◌≡◌, refl, arith, List, [], ◌∷◌, length, take, drop}
use goads.Base.Bytes.{codes, same_bytes}
use goads.Symbol.{
  StructField, struct_field, Fields, nil, cons, size_of, found, find_field_by_path,
  find_field_by_path_with_offset, find_nested_field, first_named, field_data,
}
use goads.Symbol.Nested.{forget_offset, with_offset-field, nested_field-with_offset}

abbrev speed : StructField
speed = struct_field (codes "speed") (codes "INT") 2 2 nil

abbrev motor : StructField
motor = struct_field (codes "motor") (codes "ST_Motor") 4 4 (cons speed nil)

abbrev machine : Fields
machine = cons (struct_field (codes "on") (codes "BOOL") 0 1 nil) (cons motor nil)

abbrev memory : List ℕ
memory = 10 ∷ 11 ∷ 12 ∷ 13 ∷ 14 ∷ 15 ∷ 16 ∷ 17 ∷ 18 ∷ []

abbrev speed_path : List (List ℕ)
speed_path = (codes "motor") ∷ (codes "speed") ∷ []

speed_found : find_nested_field machine speed_path memory ≡ found (speed, 16 ∷ 17 ∷ [])
unfolding find_nested_field first_named field_data same_bytes
speed_found = refl

with_offset-field_example :
    forget_offset (find_field_by_path_with_offset machine speed_path 100)
    ≡ find_field_by_path machine speed_path
with_offset-field_example = with_offset-field machine speed_path 100

nested_field-with_offset_example :
    (off : ℕ) × (find_field_by_path_with_offset machine speed_path 100 ≡ found (speed, 100 + off))
    × (off + size_of speed ≤ length memory)
    × (16 ∷ 17 ∷ [] ≡ take (size_of speed) (drop off memory))
nested_field-with_offset_example =
    nested_field-with_offset machine speed_path memory (16 ∷ 17 ∷ []) 100 speed (omega arith)
      speed_found
