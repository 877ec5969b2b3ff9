-- ===== src/Slicing/Returns.antt =====
-- When slices and reads return.
use goads.Base.{
  ℕ, ◌+◌, ◌-◌, ◌≤◌, ◌≡◌, refl, ap, ◌∙◌, Bool, true, false, List, [], ◌∷◌, length, take, drop,
  length-take, length-drop, if◌then◌else◌, arith,
}
use goads.Ams.Outcome.{Outcome, done}
use goads.Ams.Buffer.{le_uint16, le_uint32}
use goads.Slicing.{and_then, slice_of, uint32_at, uint16_at}

-- A call returns a value of which `P` holds.
abbrev pub Returns : {A : Type 0} → (A → Type 0) → Outcome A → Type 0
Returns {A} P o = (a : A) × (o ≡ done a) × P a

pub Returns-and_then :
    {A B : Type 0} {P : A → Type 0} {Q : B → Type 0} (o : Outcome A) (f : A → Outcome B)
    → Returns P o
    → ((a : A) → P a → Returns Q (f a))
    → Returns Q (and_then o f)
unfolding and_then
Returns-and_then o f (a, e, p) rest =
    let (b, same, q) = rest a p in (b, ap (λ call. and_then call f) e ∙ same, q)

-- Of a value nothing need hold.
abbrev pub Any : {A : Type 0} → A → Type 0
Any a = Unit

pub Returns-slice_of :
    (bytes : List ℕ) (from to : ℕ)
    → from ≤ to
    → to ≤ length bytes
    → Returns (λ part. length part ≡ to - from) (slice_of bytes from to)
unfolding slice_of
Returns-slice_of bytes from to ordered inside = (
  take (to - from) (drop from bytes),
  ground arith,
  omega (arith, length-take {0} (to - from) (drop from bytes), length-drop {0} from bytes),
)

Returns-le_uint32 : (bytes : List ℕ) → length bytes ≡ 4 → Returns Any (le_uint32 bytes)
unfolding le_uint32
Returns-le_uint32 (a ∷ b ∷ c ∷ d ∷ rest) four = (_, refl, tt)
Returns-le_uint32 [] four = absurd (omega arith)
Returns-le_uint32 (a ∷ []) four = absurd (omega arith)
Returns-le_uint32 (a ∷ b ∷ []) four = absurd (omega arith)
Returns-le_uint32 (a ∷ b ∷ c ∷ []) four = absurd (omega arith)

Returns-le_uint16 : (bytes : List ℕ) → length bytes ≡ 2 → Returns Any (le_uint16 bytes)
unfolding le_uint16
Returns-le_uint16 (a ∷ b ∷ rest) two = (_, refl, tt)
Returns-le_uint16 [] two = absurd (omega arith)
Returns-le_uint16 (a ∷ []) two = absurd (omega arith)

pub Returns-uint32_at :
    (bytes : List ℕ) (offset : ℕ) → offset + 4 ≤ length bytes → Returns Any (uint32_at bytes offset)
unfolding uint32_at
Returns-uint32_at bytes offset inside =
    Returns-and_then _ _ (Returns-slice_of bytes offset (offset + 4) (omega arith) inside)
      λ part four. Returns-le_uint32 part (omega arith)

pub Returns-uint16_at :
    (bytes : List ℕ) (offset : ℕ) → offset + 2 ≤ length bytes → Returns Any (uint16_at bytes offset)
unfolding uint16_at
Returns-uint16_at bytes offset inside =
    Returns-and_then _ _ (Returns-slice_of bytes offset (offset + 2) (omega arith) inside)
      λ part two. Returns-le_uint16 part (omega arith)

pub Returns-if :
    {A : Type 0} {P : A → Type 0} {yes no : Outcome A} (b : Bool)
    → (b ≡ true → Returns P yes)
    → (b ≡ false → Returns P no)
    → Returns P (if b then yes else no)
Returns-if true y n = y refl
Returns-if false y n = n refl
