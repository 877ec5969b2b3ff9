-- ===== src/Variable/Populate/Ends.antt =====
-- `PopulateFieldValues` ends on types that are not nested in themselves.
use goads.Base.{
  ◌≤◌, ℕ, zero, suc, ◌+◌, ◌<◌, ◌≡◌, refl, ltb, Option, none, some, List, [], ◌∷◌, ◌++◌, length,
  if◌then◌else◌, arith,
}
use goads.Ams.Addr.{Addr}
use goads.Ams.Outcome.{Outcome, done}
use goads.Ams.ReadWrite.{new_read_write_request}
use goads.Symbol.{StructField, Fields, nil, cons, size_of, offset_of}
use goads.Symbol.Parse.{parse_data_type}
use goads.Symbol.Parse.Safety.{parse_symbol_ends}
use goads.Encoding.Refusals.{decode_field_value_ends}
use goads.Link.{Link, Reply, ok, failed, Task, follow, answered, parsed}
use goads.Variable.{no_fields, get_data_type_info}
use goads.Variable.Populate.{
  AllFilled, struct, data_type_of, fill_value, fill_described, fill_field, fill_fields, populate,
  none_left, filled, left_out, primitive,
}
use goads.Variable.Populate.Filling.{
  Fills, fills, Fills-there, Fills-follow, Fills-if, part_of, part_of-slice, IsPrimitive, small,
  refused, bare, FillsField, FillsAll, outside, with_value, with_fields, no_more, one_more,
}

-- The rank of a type that the description of a type names, where a field of more than 8 bytes has it.
abbrev pub RanksBelow : (List ℕ → ℕ) → ℕ → Fields → Type 0
RanksBelow rank r nil = Unit
RanksBelow rank r (cons f fs) =
    (if ltb 8 (size_of f) then rank (data_type_of f) < r else 0 < 1) × RanksBelow rank r fs

-- The types that the device describes are not nested in themselves: each has a rank above those of the
-- types of its fields.
pub record IsRanked {D : Type 0} (link : Link D) (target sender : Addr) (rank : List ℕ → ℕ)
    : Type 0 where
  pub below :
      (name : List ℕ) (fields : Fields) (d d' : D)
      → get_data_type_info link target sender name d ≡ (ok fields, d')
      → RanksBelow rank (rank name) fields

-- A reply that is not a panic
data NoCrash {D A : Type 0} : Reply A × D → Type 0 where
  no_crash_ok : (a : A) (d : D) → NoCrash (ok a, d)
  no_crash_failed : (d : D) → NoCrash (failed, d)

NoCrash-done : {D A : Type 0} (o : Option A) (d : D) → NoCrash (parsed (done o) d)
NoCrash-done (some a) d = no_crash_ok a d
NoCrash-done none d = no_crash_failed d

NoCrash-parsed :
    {D A : Type 0} (x : Outcome (Option A)) (d : D)
    → ((a : Option A) × (x ≡ done a))
    → NoCrash (parsed x d)
NoCrash-parsed x d (a, same) = rw same (NoCrash-done a d)

NoCrash-answered :
    {D A B : Type 0} (x : Option A × D) (f : A → Task D B)
    → ((a : A) (d : D) → NoCrash (f a d))
    → NoCrash (follow (answered x) f)
NoCrash-answered (some a, d) f rest = rest a d
NoCrash-answered (none, d) f rest = no_crash_failed d

module _ {D : Type 0} (link : Link D) (target sender : Addr) where
  NoCrash-get_data_type_info :
      (name : List ℕ) (d : D) → NoCrash (get_data_type_info link target sender name d)
  unfolding get_data_type_info
  NoCrash-get_data_type_info name d =
      NoCrash-answered
        (link.read_write (new_read_write_request target sender 0xF011 0 0xFFFF (name ++ (0 ∷ [])))
          d)
        _
        λ resp d'.
          NoCrash-parsed (parse_data_type resp.payload) d'
            (parse_symbol_ends [] resp.payload resp).2

  Fills-fill_value :
      (f : StructField) (bytes : List ℕ) (d : D)
      → offset_of f + size_of f ≤ length bytes
      → IsPrimitive link target sender f
      → Fills (FillsField link target sender f bytes) (fill_value f (part_of f bytes) d)
  unfolding fill_value
  Fills-fill_value f bytes d inside primitive_field =
      let (v, same) = decode_field_value_ends (part_of f bytes) (data_type_of f) in
      rw (same, fill_value)
        (fills (primitive f v) d (with_value f bytes v inside primitive_field same))

  -- The fields that a level down are filled, with enough levels left.
  Deeper : (Fields → List ℕ → Task D (Option AllFilled)) → (List ℕ → ℕ) → ℕ → Type 0
  Deeper deeper rank r =
      (fields : Fields) (bytes : List ℕ) (d : D) (s : ℕ)
      → s < r
      → RanksBelow rank s fields
      → Fills (FillsAll link target sender fields bytes) (deeper fields bytes d)

  Fills-described :
      (deeper : Fields → List ℕ → Task D (Option AllFilled)) (f : StructField) (bytes : List ℕ)
      (d : D) (x : Reply Fields × D)
      → get_data_type_info link target sender (data_type_of f) d ≡ x
      → NoCrash x
      → offset_of f + size_of f ≤ length bytes
      → 8 < size_of f
      → ((fields : Fields) (d' : D)
          → x ≡ (ok fields, d')
          → Fills
              (FillsAll link target sender fields (part_of f bytes))
              (deeper fields (part_of f bytes) d'))
      → Fills
          (FillsField link target sender f bytes)
          (fill_described link target sender deeper f (part_of f bytes) x)
  unfolding fill_described
  Fills-described deeper f bytes d x asked (no_crash_ok fields d') inside large ends =
      Fills-if (no_fields fields) _ _
        (λ no_more_fields.
          Fills-fill_value f bytes d' inside (bare d d' fields asked no_more_fields))
        λ more. Fills-follow _ _ (ends fields d' refl) λ a d2 all.
          fills (struct f a) d2 (with_fields f bytes d d' fields a inside large asked more all)
  Fills-described deeper f bytes d x asked (no_crash_failed d') inside large ends =
      Fills-fill_value f bytes d' inside (refused d d' asked)

  Fills-field :
      (rank : List ℕ → ℕ)
      → IsRanked link target sender rank
      → (deeper : Fields → List ℕ → Task D (Option AllFilled)) (r : ℕ) → Deeper deeper rank r
      → (f : StructField) (bytes : List ℕ) (d : D)
      → (if ltb 8 (size_of f) then rank (data_type_of f) < r else 0 < 1)
      → Fills
          (FillsField link target sender f bytes)
          (fill_field link target sender deeper f bytes d)
  unfolding fill_field Deeper
  Fills-field rank ranked deeper r ends f bytes d low =
      Fills-if (ltb (length bytes) (offset_of f + size_of f)) _ _
        (λ out. fills (left_out f) d (outside f bytes ground arith))
        λ within.
          let inside : offset_of f + size_of f ≤ length bytes = ground arith in
          rw (part_of-slice f bytes) (
            Fills-if (ltb 8 (size_of f)) _ _
              (λ large.
                Fills-described deeper f bytes d _ refl
                  (NoCrash-get_data_type_info (data_type_of f) d) inside ground arith
                  λ fields d' described.
                    ends fields _ d' (rank (data_type_of f)) (ground (arith, low, large))
                      (ranked.below (data_type_of f) fields d d' described))
              λ not_large. Fills-fill_value f bytes d inside (small ground arith))

  Fills-fields :
      (rank : List ℕ → ℕ)
      → IsRanked link target sender rank
      → (deeper : Fields → List ℕ → Task D (Option AllFilled)) (r : ℕ) → Deeper deeper rank r
      → (fields : Fields) (bytes : List ℕ) (d : D) → RanksBelow rank r fields
      → Fills
          (FillsAll link target sender fields bytes)
          (fill_fields link target sender deeper fields bytes d)
  unfolding fill_fields
  Fills-fields rank ranked deeper r ends nil bytes d low = fills none_left d (no_more bytes)
  Fills-fields rank ranked deeper r ends (cons f fs) bytes d (first, rest) =
      Fills-follow _ _ (Fills-field rank ranked deeper r ends f bytes d first) λ a d1 one.
        Fills-follow _ _ (Fills-fields rank ranked deeper r ends fs bytes d1 rest)
          λ more d2 all. fills (filled a more) d2 (one_more f fs bytes a more one all)

  populate-Fills :
      (rank : List ℕ → ℕ)
      → IsRanked link target sender rank
      → (levels : ℕ) (fields : Fields) (bytes : List ℕ) (d : D) (r : ℕ) → r < levels
      → RanksBelow rank r fields
      → Fills
          (FillsAll link target sender fields bytes)
          (populate link target sender levels fields bytes d)
  unfolding populate Deeper
  populate-Fills rank ranked zero fields bytes d r enough low = absurd (omega arith)
  populate-Fills rank ranked (suc levels) fields bytes d r enough low =
      Fills-fields rank ranked (populate link target sender levels) r
        (λ inner part d' s below. populate-Fills rank ranked levels inner part d' s (omega arith))
        fields bytes d low

  -- Where no type that the device describes is nested in itself, so that the types have ranks that fall
  -- from a struct to the types of its fields of more than 8 bytes, `PopulateFieldValues` ends, for all
  -- bytes and whatever else the device answers, without an error, without an access out of range, and
  -- within one level more than the rank of the fields. Its result has every field, in the given order:
  -- one that does not lie in the bytes is left as it is; one of more than 8 bytes for whose type the
  -- device gives fields has those, filled in this way from the field's own bytes; and every other one
  -- has the value that `DecodeFieldValue` gives for its bytes and its type.
  pub populate_ends :
      (rank : List ℕ → ℕ) (levels : ℕ) (fields : Fields) (bytes : List ℕ) (d : D)
      → IsRanked link target sender rank
      → RanksBelow rank levels fields
      → (all : AllFilled) × (d' : D) × (populate link target sender (suc levels) fields bytes d
          ≡ (ok (some all), d'))
        × FillsAll link target sender fields bytes all
  populate_ends rank levels fields bytes d ranked low =
      Fills-there _
        (populate-Fills rank ranked (suc levels) fields bytes d levels (omega arith) low)
