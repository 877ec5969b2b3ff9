-- ===== src/Ams/Buffer/Fate/Reads.antt =====
-- The fates of the read methods: `ReadUint16` and `ReadUint32` panic on too few bytes, since
-- `binary.LittleEndian` is given the nil slice of `ReadN`; `ReadN` and `ReadUint8` fail.
use goads.Base.{
  ℕ, ◌+◌, ◌*◌, ◌≤◌, ◌<◌, ◌≡◌, refl, Option, List, [], ◌∷◌, le→leb, lt→leb_false, length, take, drop,
  arith,
}
use goads.Ams.Outcome.{done, panic, Error}
use goads.Ams.Buffer.{
  new_buffer, Action, ◌>>=◌, pure, lift, unless_err, io_read_full, read_n, le_uint16, le_uint32,
  read_uint16, read_uint32, read_struct,
}
use goads.Ams.Buffer.Fate.{Short, fails, crashes, Ends, Fares, AnyValue, ErrIsLeft}

pub Fares-read_n : (n : ℕ) → Fares AnyValue (read_n n) n (λ _. fails)
unfolding read_n unless_err io_read_full
Fares-read_n n = record {
  enough = λ bs h. (take n bs, tt, rw (le→leb n (length bs) h) refl);
  lacking = λ bs h. rw (lt→leb_false n (length bs) h) ([], _, [], tt, refl);
  stuck = λ bs e. ([], tt, refl);
}

module _ (bs : List ℕ) where
  uint16_lacking : length bs < 2 → read_uint16 (new_buffer bs) ≡ panic
  unfolding read_uint16 read_n unless_err io_read_full ◌>>=◌ lift le_uint16
  uint16_lacking h = ground arith

  uint32_lacking : length bs < 4 → read_uint32 (new_buffer bs) ≡ panic
  unfolding read_uint32 read_n unless_err io_read_full ◌>>=◌ lift le_uint32
  uint32_lacking h = ground arith

uint16_enough :
    (bs : List ℕ)
    → 2 ≤ length bs
    → (n : ℕ) × (read_uint16 (new_buffer bs) ≡ done (n, new_buffer (drop 2 bs)))
unfolding read_uint16 read_n unless_err io_read_full ◌>>=◌ lift le_uint16
uint16_enough (a ∷ b ∷ bs) h = (a + b * 256, ground arith)
uint16_enough (a ∷ []) h = absurd (omega arith)
uint16_enough [] h = absurd (omega arith)

uint32_enough :
    (bs : List ℕ)
    → 4 ≤ length bs
    → (n : ℕ) × (read_uint32 (new_buffer bs) ≡ done (n, new_buffer (drop 4 bs)))
unfolding read_uint32 read_n unless_err io_read_full ◌>>=◌ lift le_uint32
uint32_enough (a ∷ b ∷ c ∷ d ∷ bs) h = (a + b * 256 + c * 65536 + d * 16777216, ground arith)
uint32_enough (a ∷ b ∷ c ∷ []) h = absurd (omega arith)
uint32_enough (a ∷ b ∷ []) h = absurd (omega arith)
uint32_enough (a ∷ []) h = absurd (omega arith)
uint32_enough [] h = absurd (omega arith)

pub Fares-uint16 : Fares AnyValue read_uint16 2 (λ _. crashes)
unfolding read_uint16 unless_err
Fares-uint16 = record {
  enough = λ bs h. let (n, e) = uint16_enough bs h in (n, tt, e);
  lacking = uint16_lacking;
  stuck = λ bs e. (0, tt, refl);
}

pub Fares-uint32 : Fares AnyValue read_uint32 4 (λ _. crashes)
unfolding read_uint32 unless_err
Fares-uint32 = record {
  enough = λ bs h. let (n, e) = uint32_enough bs h in (n, tt, e);
  lacking = uint32_lacking;
  stuck = λ bs e. (0, tt, refl);
}

-- A struct fares as its decoder does.
struct_lacking :
    {X : Type 0} (decode : X → Action (X × Option Error)) (x : X) (bs : List ℕ) (φ : Short)
    → Ends ErrIsLeft φ (decode x (new_buffer bs))
    → Ends AnyValue φ (read_struct decode x (new_buffer bs))
unfolding read_struct unless_err ◌>>=◌ pure
struct_lacking decode x bs crashes h = rw (h, ◌>>=◌) refl
struct_lacking decode x bs fails (r, e, rest, q, h) = (r.0, e, rest, tt, rw (h, ◌>>=◌) (rw q))

pub Fares-struct :
    {X : Type 0} (decode : X → Action (X × Option Error)) (x : X) {k : ℕ} {s : ℕ → Short}
    → Fares ErrIsLeft (decode x) k s
    → Fares AnyValue (read_struct decode x) k s
unfolding read_struct unless_err ◌>>=◌ pure
Fares-struct decode x h = record {
  enough = λ bs long. let (r, q, e) = h.enough bs long in (r.0, tt, rw (e, ◌>>=◌) (rw q));
  lacking = λ bs lack. struct_lacking decode x bs _ (h.lacking bs lack);
  stuck = λ bs e. (x, tt, refl);
}
