-- ===== src/Variable/Populate/Filling.antt =====
-- What `PopulateFieldValues` should make of fields, written without the code.
use goads.Base.{
  ◌-◌, ◌≤◌, ap, take, drop, ℕ, ◌+◌, ◌<◌, ◌≡◌, refl, Bool, true, false, Option, some, List, length,
  if◌then◌else◌, arith,
}
use goads.Ams.Addr.{Addr}
use goads.Ams.Outcome.{done}
use goads.Symbol.{StructField, Fields, nil, cons, size_of, offset_of, slice}
use goads.Encoding.{Value, decode_field_value}
use goads.Link.{Link, Reply, ok, failed, Task, follow}
use goads.Variable.{no_fields, get_data_type_info}
use goads.Variable.Populate.{
  Filled, AllFilled, struct, data_type_of, none_left, filled, left_out, primitive,
}

-- A value with a property is there, without an error or a panic.
pub data Fills {D A : Type 0} (P : A → Type 0) : Reply (Option A) × D → Type 0 where
  fills : (a : A) (d : D) → P a → Fills P (ok (some a), d)

pub Fills-there :
    {D A : Type 0} {P : A → Type 0} (x : Reply (Option A) × D)
    → Fills P x
    → (a : A) × (d : D) × (x ≡ (ok (some a), d)) × P a
Fills-there x (fills a d p) = (a, d, refl, p)

pub Fills-follow :
    {D A B : Type 0} {P : A → Type 0} {Q : B → Type 0} (x : Reply (Option A) × D)
    (f : Option A → Task D (Option B))
    → Fills P x
    → ((a : A) (d : D) → P a → Fills Q (f (some a) d))
    → Fills Q (follow x f)
Fills-follow x f (fills a d p) rest = rest a d p

pub Fills-if :
    {D A : Type 0} {P : A → Type 0} (b : Bool) (x y : Reply (Option A) × D)
    → (b ≡ true → Fills P x)
    → (b ≡ false → Fills P y)
    → Fills P (if b then x else y)
Fills-if true x y f g = f refl
Fills-if false x y f g = g refl

-- The bytes of a field
abbrev pub part_of : StructField → List ℕ → List ℕ
part_of f bytes = take (size_of f) (drop (offset_of f) bytes)

pub part_of-slice :
    (f : StructField) (bytes : List ℕ)
    → slice bytes (offset_of f) (offset_of f + size_of f) ≡ part_of f bytes
part_of-slice f bytes =
    let size : offset_of f + size_of f - offset_of f ≡ size_of f = omega arith in
    ap (λ n. take n (drop (offset_of f) bytes)) size

module _ {D : Type 0} (link : Link D) (target sender : Addr) where
  -- A field has no fields of its own to fill: it is small, or the device refuses to describe its type,
  -- or describes it without fields.
  pub data IsPrimitive (f : StructField) : Type 0 where
    small : size_of f ≤ 8 → IsPrimitive f
    refused :
        (d d' : D)
        → get_data_type_info link target sender (data_type_of f) d ≡ (failed, d')
        → IsPrimitive f
    bare :
        (d d' : D) (fields : Fields)
        → get_data_type_info link target sender (data_type_of f) d ≡ (ok fields, d')
        → no_fields fields ≡ true
        → IsPrimitive f

  -- What becomes of a field on bytes, and of fields, each in its place.
  mutual
    pub data FillsField : StructField → List ℕ → Filled → Type 0 where
      outside :
          (f : StructField) (bytes : List ℕ)
          → length bytes < offset_of f + size_of f
          → FillsField f bytes (left_out f)
      with_value :
          (f : StructField) (bytes : List ℕ) (v : Value)
          → offset_of f + size_of f ≤ length bytes
          → IsPrimitive f
          → decode_field_value (part_of f bytes) (data_type_of f) ≡ done v
          → FillsField f bytes (primitive f v)
      with_fields :
          (f : StructField) (bytes : List ℕ) (d d' : D) (fields : Fields) (inner : AllFilled)
          → offset_of f + size_of f ≤ length bytes
          → 8 < size_of f
          → get_data_type_info link target sender (data_type_of f) d ≡ (ok fields, d')
          → no_fields fields ≡ false
          → FillsAll fields (part_of f bytes) inner
          → FillsField f bytes (struct f inner)

    pub data FillsAll : Fields → List ℕ → AllFilled → Type 0 where
      no_more : (bytes : List ℕ) → FillsAll nil bytes none_left
      one_more :
          (f : StructField) (fs : Fields) (bytes : List ℕ) (first : Filled) (rest : AllFilled)
          → FillsField f bytes first
          → FillsAll fs bytes rest
          → FillsAll (cons f fs) bytes (filled first rest)
