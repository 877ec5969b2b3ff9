-- ===== src/Symbol.antt =====
-- symbol.go: the fields of a struct, and the three ways to find one by its path.
pub mod Nested
pub mod Parse
use goads.Base.{
  ℕ, ◌+◌, ◌-◌, ◌%◌, ◌^◌, Option, none, some, List, [], ◌∷◌, ltb, if◌then◌else◌, length, take, drop,
}
use goads.Base.Bytes.{same_bytes}

-- `StructField`, less its `Value`, which no search reads; `Fields` is the slice of them.
mutual
  pub data StructField : Type 0 where
    struct_field : List ℕ → List ℕ → ℕ → ℕ → Fields → StructField

  pub data Fields : Type 0 where
    nil : Fields
    cons : StructField → Fields → Fields

abbrev pub name_of : StructField → List ℕ
name_of (struct_field name data_type offset size fields) = name

abbrev pub offset_of : StructField → ℕ
offset_of (struct_field name data_type offset size fields) = offset

abbrev pub size_of : StructField → ℕ
size_of (struct_field name data_type offset size fields) = size

abbrev pub fields_of : StructField → Fields
fields_of (struct_field name data_type offset size fields) = fields

pub data PathError : Type 0 where
  empty_path out_of_range : PathError
  not_found not_a_struct : List ℕ → PathError

pub data Found {ℓ} (A : Type ℓ) : Type ℓ where
  found : A → Found A
  missing : PathError → Found A

-- The loops `for i := range fields` stop at the first field of that name.
unfoldable pub first_named : List ℕ → Fields → Option StructField
unfolding same_bytes
first_named name nil = none
first_named name (cons f fs) = if same_bytes (name_of f) name then some f else first_named name fs

-- `FindFieldByPath`; what is behind the first field of a name decides, there is no second try.
unfoldable pub find_field_by_path : Fields → List (List ℕ) → Found StructField
find_field_by_path fields [] = missing empty_path
find_field_by_path fields (p ∷ []) = elim (first_named p fields) [
  | none ↦ missing (not_found p)
  | some f ↦ found f
]
find_field_by_path fields (p ∷ q ∷ path) = elim (first_named p fields) [
  | none ↦ missing (not_found p)
  | some f ↦ find_field_by_path (fields_of f) (q ∷ path)
]

-- `FindFieldByPathWithOffset`; the offsets are added as `uint32`.
unfoldable pub find_field_by_path_with_offset : Fields → List (List ℕ) → ℕ → Found (StructField × ℕ)
find_field_by_path_with_offset fields [] base = missing empty_path
find_field_by_path_with_offset fields (p ∷ []) base = elim (first_named p fields) [
  | none ↦ missing (not_found p)
  | some f ↦ found (f, (base + offset_of f) % 2 ^ 32)
]
find_field_by_path_with_offset fields (p ∷ q ∷ path) base = elim (first_named p fields) [
  | none ↦ missing (not_found p)
  | some f ↦ find_field_by_path_with_offset (fields_of f) (q ∷ path) ((base + offset_of f) % 2 ^ 32)
]

-- `data[from:to]`
abbrev pub slice : List ℕ → ℕ → ℕ → List ℕ
slice bytes from to = take (to - from) (drop from bytes)

-- The bytes of a field within those of its parent.
unfoldable pub field_data : StructField → List ℕ → Found (List ℕ)
field_data f parent =
    let field_end = offset_of f + size_of f in
    if ltb (length parent) field_end
    then missing out_of_range
    else found (slice parent (offset_of f) field_end)

-- `FindNestedField`
unfoldable pub find_nested_field : Fields → List (List ℕ) → List ℕ → Found (StructField × List ℕ)
find_nested_field fields [] parent = missing empty_path
find_nested_field fields (p ∷ []) parent = elim (first_named p fields) [
  | none ↦ missing (not_found p)
  | some f ↦ elim (field_data f parent) [ missing e ↦ missing e | found bytes ↦ found (f, bytes) ]
]
find_nested_field fields (p ∷ q ∷ path) parent = elim (first_named p fields) [
  | none ↦ missing (not_found p)
  | some f ↦ elim (field_data f parent) [
    | missing e ↦ missing e
    | found bytes ↦ elim (fields_of f) [
      | nil ↦ missing (not_a_struct p)
      | cons g gs ↦ find_nested_field (fields_of f) (q ∷ path) bytes
    ]
  ]
]
