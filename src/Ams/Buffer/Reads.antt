-- ===== src/Ams/Buffer/Reads.antt =====
-- Reading back: what the read methods return on bytes that spell a value.
use goads.Base.{
  ℕ, ◌^◌, ◌<◌, ◌≡◌, refl, sym, ◌∙◌, Option, none, List, [], ◌∷◌, ◌++◌, length, take_append,
  drop_append, drop_all, take_all, length-append, le→leb, arith,
}
use goads.Ams.Outcome.{done, Error}
use goads.Ams.Buffer.{
  new_buffer, Action, ◌>>=◌, pure, lift, unless_err, return_err, io_read_full, copy, read_copy,
  read_full, read_n, le_uint16, le_uint32, read_uint8, read_uint16, read_uint32, read_struct,
  put_uint16, put_uint32, nil_on_err,
}
use mathlib.Core.List.{append_assoc, append-nil}

-- With no error so far and the bytes `bs` in front, `m` takes exactly `bs` and returns `a`.
pub record Reads {A : Type 0} (m : Action A) (bs : List ℕ) (a : A) : Type 0 where
  pub run : (rest : List ℕ) → m (new_buffer (bs ++ rest)) ≡ done (a, new_buffer rest)

pub Reads-pure : {A : Type 0} (a : A) → Reads (pure a) [] a
unfolding pure
Reads-pure a = record { run = λ rest. refl }

pub Reads-return_err : {X : Type 0} (x : X) → Reads (return_err x) [] (x, none)
unfolding return_err
Reads-return_err x = record { run = λ rest. refl }

pub Reads-bind :
    {A B : Type 0} {m : Action A} (f : A → Action B) {bs cs : List ℕ} {a : A} {b : B}
    → Reads m bs a
    → Reads (f a) cs b
    → Reads (m >>= f) (bs ++ cs) b
unfolding ◌>>=◌
Reads-bind f {bs} {cs} h k = record {
  run = λ rest. rw append_assoc (rw (h.run (cs ++ rest), ◌>>=◌) (k.run rest));
}

pub Reads-map :
    {A B : Type 0} {m : Action A} (g : A → B) {bs : List ℕ} {a : A}
    → Reads m bs a
    → Reads (m >>= λ x. pure (g x)) bs (g a)
unfolding ◌>>=◌ pure
Reads-map g h = record { run = λ rest. rw (h.run rest, ◌>>=◌) refl }

pub Reads-end :
    {X : Type 0} {m : Action X} {bs : List ℕ} {x : X}
    → Reads m bs x
    → Reads (m >>= return_err) bs (x, none)
unfolding ◌>>=◌ return_err
Reads-end h = record { run = λ rest. rw (h.run rest, ◌>>=◌) refl }

pub Reads-uint8 : (n : ℕ) → Reads read_uint8 (n ∷ []) n
unfolding read_uint8 unless_err read_n io_read_full ◌>>=◌ pure
Reads-uint8 n = record { run = λ rest. ground arith }

pub Reads-uint16 : (n : ℕ) → n < 2 ^ 16 → Reads read_uint16 (put_uint16 n) n
unfolding put_uint16 read_uint16 unless_err read_n io_read_full ◌>>=◌ lift le_uint16
Reads-uint16 n h = record { run = λ rest. ground arith }

pub Reads-uint32 : (n : ℕ) → n < 2 ^ 32 → Reads read_uint32 (put_uint32 n) n
unfolding put_uint32 read_uint32 unless_err read_n io_read_full ◌>>=◌ lift le_uint32
Reads-uint32 n h = record { run = λ rest. ground arith }

pub io_read_full_append :
    (bs rest : List ℕ) → io_read_full (length bs) (bs ++ rest) ≡ (bs, rest, none)
unfolding io_read_full
io_read_full_append bs rest =
    rw (le→leb (length bs) (length (bs ++ rest)) (omega (arith, length-append {0} bs rest)))
      (ground (arith, take_append bs rest, drop_append bs rest))

pub Reads-read_n : (bs : List ℕ) (n : ℕ) → length bs ≡ n → Reads (read_n n) bs bs
unfolding read_n unless_err nil_on_err
Reads-read_n bs n h = record { run = λ rest. rw (← h, io_read_full_append) refl }

pub Reads-read_full :
    (bs dst : List ℕ) → length bs ≡ 16 → length dst ≡ 16 → Reads (read_full dst) bs bs
unfolding read_full unless_err
Reads-read_full bs dst h k = record {
  run = λ rest.
      rw (k ∙ sym h, io_read_full_append) (ground (arith, drop_all (length bs) dst, append-nil bs));
}

pub Reads-read_copy :
    (bs dst : List ℕ) (n : ℕ) → length bs ≡ n → length dst ≡ n → Reads (read_copy dst n) bs bs
unfolding read_copy pure copy ◌>>=◌
Reads-read_copy bs dst n h k = record {
  run = λ rest.
      rw ((Reads-read_n bs n h).run rest, ◌>>=◌)
        (ground (arith, take_all (length dst) bs, drop_all (length bs) dst, append-nil bs));
}

pub Reads-struct :
    {X : Type 0} (decode : X → Action (X × Option Error)) (x y : X) (bs : List ℕ)
    → Reads (decode x) bs (y, none)
    → Reads (read_struct decode x) bs y
unfolding read_struct unless_err ◌>>=◌ pure
Reads-struct decode x y bs h = record { run = λ rest. rw (h.run rest, ◌>>=◌) refl }

-- The same rules with the rest of the method in them, so that `search` has no value to guess.
module _ {B : Type 0} {cs : List ℕ} {b : B} where
  pub Reads-uint8_then :
      (f : ℕ → Action B) (n : ℕ) → Reads (f n) cs b → Reads (read_uint8 >>= f) (n ∷ [] ++ cs) b
  Reads-uint8_then f n k = Reads-bind f (Reads-uint8 n) k

  pub Reads-uint16_then :
      (f : ℕ → Action B) (n : ℕ)
      → n < 2 ^ 16
      → Reads (f n) cs b
      → Reads (read_uint16 >>= f) (put_uint16 n ++ cs) b
  Reads-uint16_then f n h k = Reads-bind f (Reads-uint16 n h) k

  pub Reads-uint32_then :
      (f : ℕ → Action B) (n : ℕ)
      → n < 2 ^ 32
      → Reads (f n) cs b
      → Reads (read_uint32 >>= f) (put_uint32 n ++ cs) b
  Reads-uint32_then f n h k = Reads-bind f (Reads-uint32 n h) k

  pub Reads-read_n_then :
      (f : List ℕ → Action B) (bs : List ℕ) (n : ℕ)
      → length bs ≡ n
      → Reads (f bs) cs b
      → Reads (read_n n >>= f) (bs ++ cs) b
  Reads-read_n_then f bs n h k = Reads-bind f (Reads-read_n bs n h) k

  pub Reads-read_full_then :
      (f : List ℕ → Action B) (bs dst : List ℕ)
      → length bs ≡ 16
      → length dst ≡ 16
      → Reads (f bs) cs b
      → Reads (read_full dst >>= f) (bs ++ cs) b
  Reads-read_full_then f bs dst h l k = Reads-bind f (Reads-read_full bs dst h l) k

  pub Reads-read_copy_then :
      (f : List ℕ → Action B) (bs dst : List ℕ) (n : ℕ)
      → length bs ≡ n
      → length dst ≡ n
      → Reads (f bs) cs b
      → Reads (read_copy dst n >>= f) (bs ++ cs) b
  Reads-read_copy_then f bs dst n h l k = Reads-bind f (Reads-read_copy bs dst n h l) k

pub ruleset read_rules = (
  Reads-return_err, Reads-uint8_then, Reads-uint16_then, Reads-uint32_then, Reads-read_n_then,
  Reads-read_full_then, Reads-read_copy_then,
)
