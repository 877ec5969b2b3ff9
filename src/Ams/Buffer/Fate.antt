-- ===== src/Ams/Buffer/Fate.antt =====
-- How a read ends on a buffer of any bytes: with a value, with an error, or by a panic.
pub mod Reads
use goads.Base.{
  ℕ, ◌+◌, ◌-◌, ◌≤◌, ◌<◌, ◌≡◌, refl, ap, ◌∙◌, Option, none, some, List, leb, if◌then◌else◌, length,
  drop, drop-drop, length-drop, Bool-cases, leb→le, inl, inr, arith,
}
use goads.Ams.Outcome.{Outcome, done, panic, Error}
use goads.Ams.Buffer.{Buffer, new_buffer, Action, ◌>>=◌, return_err}

-- How a read ends that has too few bytes.
pub data Short : Type 0 where
  fails crashes : Short

-- `Q` relates the value that comes back to the error that is left.
abbrev pub Ends : {A : Type 0} → (A → Option Error → Type 0) → Short → Outcome (A × Buffer) → Type 0
Ends {A} Q fails o =
    (a : A) × (e : Error) × (rest : List ℕ) × Q a (some e)
    × (o ≡ done (a, record { bytes = rest; err = some e }))
Ends Q crashes o = o ≡ panic

-- `m` takes `k` bytes from a buffer that has them. On `n` bytes, fewer than `k`, it ends as `short n`
-- says, and on a buffer with an error it changes nothing.
pub record Fares {A : Type 0} (Q : A → Option Error → Type 0) (m : Action A) (k : ℕ)
    (short : ℕ → Short) : Type 0 where
  pub enough :
      (bs : List ℕ)
      → k ≤ length bs
      → (a : A) × Q a none × (m (new_buffer bs) ≡ done (a, new_buffer (drop k bs)))
  pub lacking : (bs : List ℕ) → length bs < k → Ends Q (short (length bs)) (m (new_buffer bs))
  pub stuck :
      (bs : List ℕ) (e : Error)
      → (a : A) × Q a (some e)
        × (m (record { bytes = bs; err = some e }) ≡ done (a, record { bytes = bs; err = some e }))

-- Any value will do.
abbrev pub AnyValue : {A : Type 0} → A → Option Error → Type 0
AnyValue a e = Unit {0}

-- `decode` returns the error that it leaves in the buffer.
abbrev pub ErrIsLeft : {X : Type 0} → X × Option Error → Option Error → Type 0
ErrIsLeft r e = r.1 ≡ e

pub Fares-return_err : {X : Type 0} (x : X) → Fares ErrIsLeft (return_err x) 0 (λ _. crashes)
unfolding return_err
Fares-return_err x = record {
  enough = λ bs h. ((x, none), refl, refl);
  lacking = λ bs h. absurd (omega arith);
  stuck = λ bs e. ((x, some e), refl, refl);
}

-- The fate of one read after another that takes `k` bytes.
abbrev pub then_short : ℕ → (ℕ → Short) → (ℕ → Short) → ℕ → Short
then_short k s t n = if leb k n then t (n - k) else s n

module _ {A B : Type 0} where
  after_short :
      (P : A → Option Error → Type 0) (Q : B → Option Error → Type 0) (m : Action A)
      (f : A → Action B) {l : ℕ} {t : ℕ → Short}
      → ((a : A) → Fares Q (f a) l t)
      → (b : Buffer) (φ : Short) → Ends P φ (m b)
      → Ends Q φ ((m >>= f) b)
  unfolding ◌>>=◌
  after_short P Q m f hf b crashes h = rw (h, ◌>>=◌) refl
  after_short P Q m f hf b fails (a, e, rest, p, h) =
      let (c, q, r) = (hf a).stuck rest e in (c, e, rest, q, rw (h, ◌>>=◌) r)

module _ {A B : Type 0} {P : A → Option Error → Type 0} {Q : B → Option Error → Type 0} where
  pub Fares-bind :
      {m : Action A} {f : A → Action B} {k l : ℕ} {s t : ℕ → Short}
      → Fares P m k s
      → ((a : A) → Fares Q (f a) l t)
      → Fares Q (m >>= f) (k + l) (then_short k s t)
  unfolding ◌>>=◌
  Fares-bind {m} {f} {k} {l} {s} {t} hm hf = record {
    enough = λ bs h.
        let (a, p, e) = hm.enough bs (omega arith) in
        let (b, q, r) = (hf a).enough (drop k bs) (omega (arith, length-drop {0} k bs)) in
        (b, q, rw (e, ◌>>=◌) (r ∙ ap (λ c. done (b, new_buffer c)) (drop-drop k l bs)));
    lacking = λ bs h. elim (Bool-cases (leb k (length bs))) [
      | inl some_left ↦
          let (a, p, e) = hm.enough bs (leb→le _ _ some_left) in
          rw (some_left, e, ◌>>=◌)
            (rw length-drop at (
              (hf a).lacking (drop k bs)
                (omega (arith, length-drop {0} k bs, leb→le k (length bs) some_left))))
      | inr none_left ↦
          rw none_left
            (after_short P Q m f hf (new_buffer bs) (s (length bs)) (hm.lacking bs (ground arith)))
    ];
    stuck = λ bs e.
        let (a, p, h) = hm.stuck bs e in
        let (b, q, r) = (hf a).stuck bs e in (b, q, rw (h, ◌>>=◌) r);
  }
