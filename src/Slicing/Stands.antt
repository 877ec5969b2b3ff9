-- ===== src/Slicing/Stands.antt =====
-- What is read where a part of the bytes is known to stand.
use goads.Base.{
  ℕ, ◌+◌, ◌-◌, ◌^◌, ◌<◌, ◌≤◌, ◌≡◌, refl, sym, ap, ◌∙◌, List, [], ◌∷◌, ◌++◌, length, take, drop,
  take_append, drop_append, length-append, All, arith,
}
use mathlib.Core.List.{append_assoc}
use goads.Ams.Outcome.{Outcome, done}
use goads.Ams.Buffer.{le_uint16, le_uint32, put_uint16, put_uint32}
use goads.Slicing.{and_then, slice_of, uint32_at, uint16_at, null_terminated_string}

-- A part of the bytes that begins at an offset.
abbrev pub Stands : List ℕ → ℕ → List ℕ → Type 0
Stands part at bytes =
    (before : List ℕ) × (after : List ℕ) × (bytes ≡ before ++ (part ++ after))
    × (length before ≡ at)

pub Stands-at :
    (part : List ℕ) {bytes : List ℕ} {at other : ℕ}
    → at ≡ other
    → Stands part at bytes
    → Stands part other bytes
Stands-at part same (before, after, e, l) = (before, after, e, l ∙ same)

-- A part of two parts.
pub Stands-first :
    (a b : List ℕ) {bytes : List ℕ} {at : ℕ} → Stands (a ++ b) at bytes → Stands a at bytes
Stands-first a b (before, after, e, l) =
    (before, b ++ after, e ∙ ap (◌++◌ before) (append_assoc a b after), l)

pub Stands-second :
    (a b : List ℕ) {bytes : List ℕ} {at : ℕ}
    → Stands (a ++ b) at bytes
    → Stands b (at + length a) bytes
Stands-second a b (before, after, e, l) = (
  before ++ a,
  after,
  e ∙ ap (◌++◌ before) (append_assoc a b after) ∙ sym (append_assoc before a (b ++ after)),
  length-append before a ∙ ap (λ n. n + length a) l,
)

pub Stands-inside :
    (part : List ℕ) {bytes : List ℕ} {at : ℕ}
    → Stands part at bytes
    → at + length part ≤ length bytes
Stands-inside part (before, after, e, l) =
    rw e (omega (arith, l, length-append before (part ++ after), length-append part after))

pub slice_here :
    (part bytes : List ℕ) (at : ℕ)
    → Stands part at bytes
    → slice_of bytes at (at + length part) ≡ done part
unfolding slice_of
slice_here part bytes at s =
    let inside = Stands-inside part s in
    let (before, after, e, l) = s in
    let there : drop at bytes ≡ part ++ after =
      ap (λ n. drop n bytes) (sym l)
      ∙ ap (drop (length before)) e
      ∙ drop_append before (part ++ after) in
    let taken : take (at + length part - at) (drop at bytes) ≡ part =
      ap (λ n. take n (drop at bytes)) (omega arith)
      ∙ ap (take (length part)) there
      ∙ take_append part after in
    ground arith

pub uint32_here :
    (n : ℕ) (rest bytes : List ℕ) (at : ℕ)
    → n < 2 ^ 32
    → Stands (put_uint32 n ++ rest) at bytes
    → uint32_at bytes at ≡ done n
unfolding uint32_at and_then put_uint32 le_uint32
uint32_here n rest bytes at fits s =
    rw (slice_here (put_uint32 n) bytes at (Stands-first (put_uint32 n) rest s), and_then)
      (ap done (omega arith))

pub Stands-uint32 :
    (n : ℕ) (rest : List ℕ) {bytes : List ℕ} {at : ℕ} (next : ℕ)
    → at + 4 ≡ next
    → Stands (put_uint32 n ++ rest) at bytes
    → Stands rest next bytes
unfolding put_uint32
Stands-uint32 n rest next same s = Stands-at rest same (Stands-second (put_uint32 n) rest s)

pub uint16_here :
    (n : ℕ) (rest bytes : List ℕ) (at : ℕ)
    → n < 2 ^ 16
    → Stands (put_uint16 n ++ rest) at bytes
    → uint16_at bytes at ≡ done n
unfolding uint16_at and_then put_uint16 le_uint16
uint16_here n rest bytes at fits s =
    rw (slice_here (put_uint16 n) bytes at (Stands-first (put_uint16 n) rest s), and_then)
      (ap done (omega arith))

pub Stands-uint16 :
    (n : ℕ) (rest : List ℕ) {bytes : List ℕ} {at : ℕ} (next : ℕ)
    → at + 2 ≡ next
    → Stands (put_uint16 n ++ rest) at bytes
    → Stands rest next bytes
unfolding put_uint16
Stands-uint16 n rest next same s = Stands-at rest same (Stands-second (put_uint16 n) rest s)

pub null_terminated_string_id : (bs : List ℕ) → All (λ b. 0 < b) bs → null_terminated_string bs ≡ bs
unfolding null_terminated_string
null_terminated_string_id [] h = refl
null_terminated_string_id (b ∷ bs) (h, hs) = ground (arith, null_terminated_string_id bs hs)

pub then_done :
    {A B : Type 0} {o : Outcome A} {a : A} {r : Outcome B} (f : A → Outcome B)
    → o ≡ done a
    → f a ≡ r
    → and_then o f ≡ r
unfolding and_then
then_done f e rest = ap (λ call. and_then call f) e ∙ rest

-- A string with a null byte behind it.
pub string_here :
    (s rest bytes : List ℕ) (at : ℕ)
    → Stands (s ++ ((0 ∷ []) ++ rest)) at bytes
    → (slice_of bytes at (at + length s) ≡ done s)
      × Stands rest (at + length s + 1) bytes
      × (at + length s < length bytes)
string_here s rest bytes at here =
    let null = Stands-second s ((0 ∷ []) ++ rest) here in
    (
      slice_here s bytes at (Stands-first s _ here),
      Stands-second (0 ∷ []) rest null,
      omega (arith, Stands-inside (0 ∷ []) (Stands-first (0 ∷ []) rest null)),
    )
