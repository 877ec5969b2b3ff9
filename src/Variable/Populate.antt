-- ===== src/Variable/Populate.antt =====
-- variable.go, `PopulateFieldValues`: the fields of a struct with the values in its bytes.
pub mod Ends
pub mod Filling
use goads.Base.{ℕ, zero, suc, ◌+◌, ltb, Option, none, some, List, length, if◌then◌else◌}
use goads.Ams.Addr.{Addr}
use goads.Ams.Outcome.{done, panic}
use goads.Symbol.{StructField, struct_field, Fields, nil, cons, size_of, offset_of, slice}
use goads.Encoding.{Value, decode_field_value}
use goads.Link.{Link, Reply, ok, failed, crashed, Task, ◌>>=◌, pure, follow}
use goads.Variable.{no_fields, get_data_type_info}

-- A field that does not lie in the bytes stays as it is; else it gets a value, or the fields of its own
-- type with theirs.
mutual
  pub data Filled : Type 0 where
    left_out : StructField → Filled
    primitive : StructField → Value → Filled
    struct : StructField → AllFilled → Filled

  pub data AllFilled : Type 0 where
    none_left : AllFilled
    filled : Filled → AllFilled → AllFilled

abbrev pub data_type_of : StructField → List ℕ
data_type_of (struct_field name data_type offset size fields) = data_type

-- `DecodeFieldValue`
unfoldable pub fill_value : {D : Type 0} → StructField → List ℕ → Task D (Option Filled)
unfolding decode_field_value
fill_value f bytes d = elim (decode_field_value bytes (data_type_of f)) [
  | done v ↦ (ok (some (primitive f v)), d)
  | panic ↦ (crashed, d)
]

abbrev pub as_struct : StructField → Option AllFilled → Option Filled
as_struct f none = none
as_struct f (some fields) = some (struct f fields)

abbrev pub both : Option Filled → Option AllFilled → Option AllFilled
both (some f) (some fs) = some (filled f fs)
both (some f) none = none
both none fs = none

module _ {D : Type 0} (link : Link D) (target sender : Addr) where
  -- What `GetDataTypeInfo` led to: an error of it is not one of the field's.
  unfoldable pub fill_described :
      (Fields → List ℕ → Task D (Option AllFilled))
      → StructField
      → List ℕ
      → Reply Fields × D
      → Reply (Option Filled) × D
  unfolding fill_value
  fill_described deeper f bytes (ok fields, d) =
      if no_fields fields
      then fill_value f bytes d
      else follow (deeper fields bytes d) (λ inner. pure (as_struct f inner))
  fill_described deeper f bytes (failed, d) = fill_value f bytes d
  fill_described deeper f bytes (crashed, d) = (crashed, d)

  -- One turn of the loop, where `deeper` is the call for the fields of a struct.
  unfoldable pub fill_field :
      (Fields → List ℕ → Task D (Option AllFilled)) → StructField → List ℕ → Task D (Option Filled)
  unfolding fill_described fill_value get_data_type_info
  fill_field deeper f bytes d =
      let field_end = offset_of f + size_of f in
      let field_bytes = slice bytes (offset_of f) field_end in
      if ltb (length bytes) field_end
      then (ok (some (left_out f)), d)
      else if ltb 8 (size_of f)
      then fill_described deeper f field_bytes
          (get_data_type_info link target sender (data_type_of f) d)
      else fill_value f field_bytes d

  unfoldable pub fill_fields :
      (Fields → List ℕ → Task D (Option AllFilled)) → Fields → List ℕ → Task D (Option AllFilled)
  unfolding fill_field
  fill_fields deeper nil bytes = pure (some none_left)
  fill_fields deeper (cons f fs) bytes = do
    first ← fill_field deeper f bytes
    rest ← fill_fields deeper fs bytes
    pure (both first rest)

  -- `PopulateFieldValues`, with the number of levels that it may go down: `none` where they are not
  -- enough.
  unfoldable pub populate : ℕ → Fields → List ℕ → Task D (Option AllFilled)
  unfolding fill_fields
  populate zero fields bytes = pure none
  populate (suc levels) fields bytes = fill_fields (populate levels) fields bytes
