-- ===== src/Symbol/Nested.antt =====
-- The three searches agree.
use goads.Base.{
  ◌⊎◌, ℕ, ◌+◌, ◌%◌, ◌^◌, ◌≤◌, ◌<◌, ◌≡◌, refl, ap, ◌∙◌, some, List, [], ◌∷◌, length, take, drop,
  take-drop-take, drop-drop, length-take, length-drop, arith, Option-cases, inl, inr,
}
use native.Mathlib.Nat.{add-sub_cancel_left}
use goads.Symbol.{
  StructField, Fields, size_of, offset_of, fields_of, Found, found, missing, PathError, first_named,
  find_field_by_path, find_field_by_path_with_offset, field_data, find_nested_field,
}

-- The answer of the plain search, when the other also gave an offset.
abbrev pub forget_offset : Found (StructField × ℕ) → Found StructField
forget_offset (missing e) = missing e
forget_offset (found (f, o)) = found f

-- The search with an offset finds the field, or has the error, of the search without one.
pub with_offset-field :
    (fields : Fields) (path : List (List ℕ)) (base : ℕ)
    → forget_offset (find_field_by_path_with_offset fields path base)
      ≡ find_field_by_path fields path
unfolding find_field_by_path find_field_by_path_with_offset
with_offset-field fields [] base = refl
with_offset-field fields (p ∷ []) base = ground arith
with_offset-field fields (p ∷ q ∷ path) base = elim (Option-cases (first_named p fields)) [
  | inl none_named ↦ ground arith
  | inr (f, e) ↦
      ground (arith, with_offset-field (fields_of f) (q ∷ path) ((base + offset_of f) % 2 ^ 32))
]

-- What `field_data` gives when it gives anything.
field_data_found :
    (f : StructField) (parent bytes : List ℕ)
    → field_data f parent ≡ found bytes
    → (offset_of f + size_of f ≤ length parent)
      × (bytes ≡ take (size_of f) (drop (offset_of f) parent))
unfolding field_data
field_data_found f parent bytes e = ground (arith, add-sub_cancel_left (offset_of f) (size_of f))

pub Found-cases :
    {A : Type 0} (r : Found A) → ((e : PathError) × (r ≡ missing e)) ⊎ ((a : A) × (r ≡ found a))
Found-cases (missing e) = inl (e, refl)
Found-cases (found a) = inr (a, refl)

-- What the last step and an inner step of `FindNestedField` found on the way to an answer.
last_step :
    (fields : Fields) (p : List ℕ) (parent bytes : List ℕ) (f : StructField)
    → find_nested_field fields (p ∷ []) parent ≡ found (f, bytes)
    → (first_named p fields ≡ some f) × (field_data f parent ≡ found bytes)
unfolding find_nested_field
last_step fields p parent bytes f e = elim (Option-cases (first_named p fields)) [
  | inl none_named ↦ ground arith
  | inr (g, named) ↦ elim (Found-cases (field_data g parent)) [
    | inl (x, out) ↦ ground arith
    | inr (found_bytes, there) ↦ ground arith
  ]
]

inner_step :
    (fields : Fields) (p q : List ℕ) (path : List (List ℕ)) (parent bytes : List ℕ)
    (f : StructField)
    → find_nested_field fields (p ∷ q ∷ path) parent ≡ found (f, bytes)
    → (g : StructField) × (part : List ℕ) × (first_named p fields ≡ some g)
      × (field_data g parent ≡ found part)
      × (find_nested_field (fields_of g) (q ∷ path) part ≡ found (f, bytes))
unfolding find_nested_field
inner_step fields p q path parent bytes f e = elim (Option-cases (first_named p fields)) [
  | inl none_named ↦ absurd (ground arith)
  | inr (g, named) ↦ elim (Found-cases (field_data g parent)) [
    | inl (x, out) ↦ absurd (ground arith)
    | inr (part, there) ↦ (g, part, named, there, ground arith)
  ]
]

-- Where `FindNestedField` finds a field in data of less than 4 GiB, `FindFieldByPathWithOffset`
-- finds the same field, its offset added to the base, and the bytes are those that stand in the
-- data at that offset.
pub nested_field-with_offset :
    (fields : Fields) (path : List (List ℕ)) (parent bytes : List ℕ) (base : ℕ) (f : StructField)
    → base + length parent < 2 ^ 32
    → find_nested_field fields path parent ≡ found (f, bytes)
    → (off : ℕ) × (find_field_by_path_with_offset fields path base ≡ found (f, base + off))
      × (off + size_of f ≤ length parent)
      × (bytes ≡ take (size_of f) (drop off parent))
unfolding find_field_by_path_with_offset
nested_field-with_offset fields [] parent bytes base f h e = unfold find_nested_field in cc
nested_field-with_offset fields (p ∷ []) parent bytes base f h e =
    let (named, there) = last_step fields p parent bytes f e in
    let (fits, part) = field_data_found f parent bytes there in
    (
      offset_of f,
      rw (named, find_field_by_path_with_offset) (ap (λ o. found (f, o)) (omega arith)),
      fits,
      part,
    )
nested_field-with_offset fields (p ∷ q ∷ path) parent bytes base f h e =
    let (g, mid, named, there, deeper) = inner_step fields p q path parent bytes f e in
    let (fits, part) = field_data_found g parent mid there in
    let short : length mid ≡ size_of g = rw part (
      omega (
        arith,
        length-take {0} (size_of g) (drop (offset_of g) parent),
        length-drop {0} (offset_of g) parent,
      )) in
    let (off, same, inside, bytes_at) =
      nested_field-with_offset (fields_of g) (q ∷ path) mid bytes (base + offset_of g) f
        (omega arith) deeper in
    let in_32_bits : (base + offset_of g) % 2 ^ 32 ≡ base + offset_of g = omega arith in
    (
      offset_of g + off,
      rw (named, find_field_by_path_with_offset)
          (rw in_32_bits (same ∙ ap (λ o. found (f, o)) (omega arith))),
      omega arith,
      bytes_at
          ∙ ap (λ m. take (size_of f) (drop off m)) part
          ∙ take-drop-take off (size_of f) (size_of g) (drop (offset_of g) parent) (omega arith)
          ∙ ap (take (size_of f)) (drop-drop (offset_of g) off parent),
    )
