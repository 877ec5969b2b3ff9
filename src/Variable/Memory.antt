-- ===== src/Variable/Memory.antt =====
-- A device that keeps bytes under handles, and what the operations on variables do to them.
use goads.Base.{
  inl, inr, ℕ, ◌+◌, ◌-◌, ◌==◌, ◌≤◌, ◌≡◌, ◌≢◌, refl, sym, ap, ◌∙◌, ltb, true, false, none, some,
  List, ◌++◌, length, take, drop, length-append, length-take, length-drop, take_append, drop_append,
  take_all, drop_all, arith,
}
use mathlib.Core.List.{append_assoc, append-nil}
use goads.Ams.Addr.{Addr}
use goads.Ams.Buffer.{copy}
use goads.Ams.Read.{ReadResponse, new_read_request}
use goads.Ams.Write.{WriteResponse, new_write_request}
use goads.Symbol.{StructField, Fields, found, size_of, slice, find_field_by_path_with_offset}
use goads.Symbol.Parse.{Symbol}
use goads.Link.{Link, ok, failed}
use goads.Symbol.Nested.{Found-cases}
use goads.Variable.{
  value_group, patch, update_field, get_symbol, get_sym_handle_by_name, read_value, write_value,
  read_variable, write_variable, load_fields, write_nested_field,
}

-- What the operations rely on of a device: a read by handle gives the first bytes of the value under
-- the handle and changes nothing, and a write by handle of as many bytes as the value has replaces it
-- and no other value.
pub record Device {D : Type 0} (link : Link D) : Type 0 where
  pub value : D → ℕ → List ℕ
  pub reads :
      (target sender : Addr) (h n : ℕ) (d : D)
      → (r : ReadResponse) × (link.read (new_read_request target sender value_group h n) d
          ≡ (some r, d))
        × (r.payload ≡ take n (value d h))
  pub writes :
      (target sender : Addr) (h : ℕ) (bytes : List ℕ) (d : D)
      → length bytes ≡ length (value d h)
      → (r : WriteResponse) × (d' : D) × (link.write
            (new_write_request target sender value_group h bytes)
            d
          ≡ (some r, d'))
        × (value d' h ≡ bytes)
        × ((k : ℕ) → k ≢ h → value d' k ≡ value d k)

-- `new` is `old` with `part` at an offset, and the same elsewhere.
pub record IsPatched (old new : List ℕ) (offset : ℕ) (part : List ℕ) : Type 0 where
  pub same_length : length new ≡ length old
  pub before : take offset new ≡ take offset old
  pub inside : take (length part) (drop offset new) ≡ part
  pub behind : drop (offset + length part) new ≡ drop (offset + length part) old

take-splice : (n : ℕ) (a b : List ℕ) → length a ≡ n → take n (a ++ b) ≡ a
take-splice n a b e = ap (λ k. take k (a ++ b)) (sym e) ∙ take_append a b

drop-splice : (n : ℕ) (a b : List ℕ) → length a ≡ n → drop n (a ++ b) ≡ b
drop-splice n a b e = ap (λ k. drop k (a ++ b)) (sym e) ∙ drop_append a b

-- `copy` into a slice of the length of its source.
copy_all : (dst src : List ℕ) → length src ≡ length dst → copy dst src ≡ src
unfolding copy
copy_all dst src e =
    rw (take_all (length dst) src (omega arith))
      (rw (drop_all (length src) dst (omega arith)) (append-nil src))

spliced-IsPatched :
    (old part : List ℕ) (offset : ℕ)
    → offset + length part ≤ length old
    → IsPatched old (take offset old ++ (part ++ drop (offset + length part) old)) offset part
spliced-IsPatched old part offset fits =
    let head : length (take offset old) ≡ offset = omega (arith, length-take {0} offset old) in
    let rest = part ++ drop (offset + length part) old in
    record {
      same_length =
          simp length-append
            (omega (arith, length-take {0} offset old, length-drop {0} (offset + length part) old));
      before = take-splice offset (take offset old) rest head;
      inside =
          ap (take (length part)) (drop-splice offset (take offset old) rest head)
          ∙ take_append part (drop (offset + length part) old);
      behind =
          ap (drop (offset + length part)) (sym (append_assoc (take offset old) part _))
          ∙ drop-splice (offset + length part) (take offset old ++ part) _
              (length-append (take offset old) part ∙ ap (λ n. n + length part) head);
    }

update_field_found :
    (fields : Fields) (path : List (List ℕ)) (payload bytes : List ℕ) (f : StructField) (offset : ℕ)
    → find_field_by_path_with_offset fields path 0 ≡ found (f, offset)
    → offset + size_of f ≤ length bytes
    → length payload ≡ size_of f
    → (new : List ℕ) × (update_field fields path payload bytes ≡ some new)
      × IsPatched bytes new offset payload
unfolding update_field patch
update_field_found fields path payload bytes f offset named fits same =
    let inside : ltb (length bytes) (offset + size_of f) ≡ false = ground arith in
    let full : (length payload == size_of f) ≡ true = ground arith in
    let field_end : offset + size_of f ≡ offset + length payload = omega arith in
    let sized : length payload ≡ length (slice bytes offset (offset + size_of f)) = omega (
      arith,
      length-take {0} (offset + size_of f - offset) (drop offset bytes),
      length-drop {0} offset bytes,
    ) in
    (
      take offset bytes ++ (payload ++ drop (offset + length payload) bytes),
      rw (named, update_field)
          (rw inside (
            rw full (
              rw (copy_all (slice bytes offset (offset + size_of f)) payload sized)
                (rw field_end refl)))),
      spliced-IsPatched bytes payload offset (omega arith),
    )

update_field_refused :
    (fields : Fields) (path : List (List ℕ)) (payload bytes : List ℕ)
    → ((f : StructField) (offset : ℕ)
        → find_field_by_path_with_offset fields path 0 ≡ found (f, offset)
        → offset + size_of f ≤ length bytes
        → length payload ≢ size_of f)
    → update_field fields path payload bytes ≡ none
unfolding update_field patch
update_field_refused fields path payload bytes refused =
    elim (Found-cases (find_field_by_path_with_offset fields path 0)) [
      | inl (e, out) ↦ rw (out, update_field) refl
      | inr ((f, offset), named) ↦ rw (named, update_field) (ground (arith, refused f offset named))
    ]

module _ {D : Type 0} {link : Link D} (device : Device link) (target sender : Addr) where
  -- In a state of the world the device describes a variable: its symbol, its handle and, where it has
  -- them, its fields, without a change; the size of the symbol is that of the value.
  pub record Describes (d : D) (name : List ℕ) (symbol : Symbol) (h : ℕ) (fields : Fields)
      : Type 0 where
    pub symbol_given : get_symbol link target sender name d ≡ (ok symbol, d)
    pub handle_given : get_sym_handle_by_name link target sender name d ≡ (ok h, d)
    pub fields_given : load_fields link target sender symbol d ≡ (ok fields, d)
    pub whole : symbol.size ≡ length (device.value d h)

  read_value_whole :
      (d : D) (h n : ℕ)
      → n ≡ length (device.value d h)
      → read_value link target sender h n d ≡ (ok (device.value d h), d)
  unfolding read_value
  read_value_whole d h n whole =
      let (r, given, bytes) = device.reads target sender h n d in
      rw (given, read_value)
        (ap (λ b. (ok b, d)) (bytes ∙ take_all n (device.value d h) (omega arith)))

  -- `WriteNestedField` on a variable that the device describes, to a field that the search finds
  -- within the value, with data of the field's size, replaces the bytes of the field and no others,
  -- and no other value.
  pub write_nested_field-IsPatched :
      (d : D) (name : List ℕ) (symbol : Symbol) (h : ℕ) (fields : Fields) (path : List (List ℕ))
      (payload : List ℕ) (f : StructField) (offset : ℕ)
      → Describes d name symbol h fields
      → find_field_by_path_with_offset fields path 0 ≡ found (f, offset)
      → offset + size_of f ≤ length (device.value d h)
      → length payload ≡ size_of f
      → (d' : D) × (write_nested_field link target sender name path payload d ≡ (ok tt, d'))
        × IsPatched (device.value d h) (device.value d' h) offset payload
        × ((k : ℕ) → k ≢ h → device.value d' k ≡ device.value d k)
  unfolding write_nested_field write_value
  write_nested_field-IsPatched d name symbol h fields path payload f offset s named fits same =
      let (new, updated, patched) =
        update_field_found fields path payload (device.value d h) f offset named fits same in
      let (r, d', written, stored, others) =
        device.writes target sender h new d patched.same_length in
      (
        d',
        rw s.symbol_given (
            rw s.handle_given (
              rw (read_value_whole d h symbol.size s.whole)
                (rw s.fields_given (rw updated (rw written refl))))),
        rw stored patched,
        others,
      )

  -- Where the search finds no field within the value that has the size of the data, `WriteNestedField`
  -- returns an error and writes nothing.
  pub write_nested_field_refused :
      (d : D) (name : List ℕ) (symbol : Symbol) (h : ℕ) (fields : Fields) (path : List (List ℕ))
      (payload : List ℕ)
      → Describes d name symbol h fields
      → ((f : StructField) (offset : ℕ)
          → find_field_by_path_with_offset fields path 0 ≡ found (f, offset)
          → offset + size_of f ≤ length (device.value d h)
          → length payload ≢ size_of f)
      → write_nested_field link target sender name path payload d ≡ (failed, d)
  unfolding write_nested_field
  write_nested_field_refused d name symbol h fields path payload s refused = rw s.symbol_given (
      rw s.handle_given (
        rw (read_value_whole d h symbol.size s.whole) (
          rw s.fields_given
            (rw (update_field_refused fields path payload (device.value d h) refused) refl))))

  -- `WriteVariable` of as many bytes as the variable has, then `ReadVariable`, where the device
  -- describes the variable whenever its value has the size of the symbol: the bytes that were written
  -- are read.
  pub read_variable-write_variable :
      (d : D) (name : List ℕ) (symbol : Symbol) (h : ℕ) (fields : Fields) (payload : List ℕ)
      → ((d' : D) → symbol.size ≡ length (device.value d' h) → Describes d' name symbol h fields)
      → symbol.size ≡ length (device.value d h)
      → length payload ≡ symbol.size
      → (d' : D) × (write_variable link target sender name payload d ≡ (ok tt, d'))
        × (read_variable link target sender name d' ≡ (ok (payload, symbol), d'))
  unfolding write_variable read_variable write_value
  read_variable-write_variable d name symbol h fields payload described whole same =
      let (r, d', written, stored, others) =
        device.writes target sender h payload d (same ∙ whole) in
      let s = described d whole in
      let s' = described d' (sym same ∙ ap (λ bytes. length bytes) (sym stored)) in
      (
        d',
        rw s.handle_given (rw written refl),
        rw s'.symbol_given
            (rw s'.handle_given (rw (read_value_whole d' h symbol.size s'.whole) (rw stored refl))),
      )
