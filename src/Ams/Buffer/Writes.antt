-- ===== src/Ams/Buffer/Writes.antt =====
-- What the write methods append to a buffer with no error.
use goads.Base.{ℕ, ◌≡◌, refl, none, List, [], ◌∷◌, ◌++◌, length, take_all, arith, Option}
use goads.Ams.Outcome.{done, Error}
use goads.Ams.Buffer.{
  new_buffer, Action, ◌>>=◌, ◌>>◌, pure, unless_err, return_err, write, write_n, write_uint8,
  write_uint16, write_uint32, write_struct, put_uint16, put_uint32,
}
use mathlib.Core.List.{append_assoc, append-nil}

-- On a buffer with no error `m` appends `bs`, leaves no error and returns `a`.
pub record Writes {A : Type 0} (m : Action A) (bs : List ℕ) (a : A) : Type 0 where
  pub run : (b : List ℕ) → m (new_buffer b) ≡ done (a, new_buffer (b ++ bs))

pub Writes-return_err : {X : Type 0} (x : X) → Writes (return_err x) [] (x, none)
unfolding return_err
Writes-return_err x = record { run = λ b. rw append-nil }

pub Writes-pure : {A : Type 0} (a : A) → Writes (pure a) [] a
unfolding pure
Writes-pure a = record { run = λ b. rw append-nil }

pub Writes-bind :
    {A B : Type 0} {m : Action A} (f : A → Action B) {bs cs : List ℕ} {a : A} {b : B}
    → Writes m bs a
    → Writes (f a) cs b
    → Writes (m >>= f) (bs ++ cs) b
unfolding ◌>>=◌
Writes-bind f {bs} {cs} h k = record {
  run = λ b. rw (← append_assoc) (rw (h.run b, ◌>>=◌) (k.run (b ++ bs)));
}

-- A statement that returns nothing, and the rest.
pub Writes-seq :
    {B : Type 0} {m : Action Unit} {k : Action B} {bs cs : List ℕ} {b : B}
    → Writes m bs tt
    → Writes k cs b
    → Writes (m >> k) (bs ++ cs) b
Writes-seq {k} h r = Writes-bind (λ _. k) h r

pub Writes-write : (bs : List ℕ) → Writes (write bs) bs tt
unfolding write unless_err
Writes-write bs = record { run = λ b. refl }

pub Writes-write_n : (bs : List ℕ) (n : ℕ) → length bs ≡ n → Writes (write_n bs n) bs tt
unfolding write_n write unless_err
Writes-write_n bs n h = record { run = λ b. ground (arith, take_all n bs) }

pub Writes-uint8 : (n : ℕ) → Writes (write_uint8 n) (n ∷ []) tt
unfolding write_uint8 write unless_err
Writes-uint8 n = record { run = λ b. refl }

pub Writes-uint16 : (n : ℕ) → Writes (write_uint16 n) (put_uint16 n) tt
unfolding write_uint16 write unless_err
Writes-uint16 n = record { run = λ b. refl }

pub Writes-uint32 : (n : ℕ) → Writes (write_uint32 n) (put_uint32 n) tt
unfolding write_uint32 write unless_err
Writes-uint32 n = record { run = λ b. refl }

pub Writes-struct :
    {X : Type 0} (encode : X → Action (X × Option Error)) (x y : X) (bs : List ℕ)
    → Writes (encode x) bs (y, none)
    → Writes (write_struct encode x) bs y
unfolding write_struct unless_err ◌>>=◌ pure
Writes-struct encode x y bs h = record { run = λ b. rw (h.run b, ◌>>=◌) refl }

pub ruleset write_rules = (
  Writes-return_err, Writes-seq, Writes-bind, Writes-write, Writes-write_n, Writes-uint8,
  Writes-uint16, Writes-uint32,
)
