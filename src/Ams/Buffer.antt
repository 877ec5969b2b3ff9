-- ===== src/Ams/Buffer.antt =====
-- ams/buffer.go: the buffer with its sticky error, and its reads and writes. A `bytes.Buffer` is
-- the list of its unread bytes.
pub mod Reads
pub mod Writes
pub mod Fate
pub mod Sticky
pub mod Slices
use goads.Base.{
  ℕ, ◌+◌, ◌*◌, ◌/◌, ◌%◌, Option, none, some, List, [], ◌∷◌, ◌++◌, leb, ltb, if◌then◌else◌, length,
  take, drop,
}
use goads.Ams.Outcome.{Outcome, done, panic, Error, eof, unexpected_eof}

pub record Buffer : Type 0 where
  pub bytes : List ℕ
  pub err : Option Error

-- `NewBuffer`
abbrev pub new_buffer : List ℕ → Buffer
new_buffer bs = record { bytes = bs; err = none }

-- A method of the buffer: it returns a value and the new buffer, or it panics.
abbrev pub Action : Type 0 → Type 0
Action A = Buffer → Outcome (A × Buffer)

infixl 5 ◌>>=◌ ◌>>◌
unfoldable pub ◌>>=◌ : {A B : Type 0} → Action A → (A → Action B) → Action B
◌>>=◌ m f b = elim (m b) [ done (a, b') ↦ f a b' | panic ↦ panic ]

abbrev pub ◌>>◌ : {A B : Type 0} → Action A → Action B → Action B
m >> k = m >>= λ _. k

unfoldable pub pure : {A : Type 0} → A → Action A
pure a b = done (a, b)

unfoldable pub lift : {A : Type 0} → Outcome A → Action A
lift (done a) b = done (a, b)
lift panic b = panic

-- `if buf.err != nil { return z }` in front of the rest of a method.
unfoldable pub unless_err : {A : Type 0} → A → Action A → Action A
unless_err z m b = elim b.err [ some _ ↦ done (z, b) | none ↦ m b ]

-- `Bytes` and `Err`
unfoldable pub bytes_of : Action (List ℕ)
bytes_of b = done (b.bytes, b)

unfoldable pub err_of : Action (Option Error)
err_of b = done (b.err, b)

-- `return b.Err()` at the end of a method whose receiver is then `x`.
unfoldable pub return_err : {X : Type 0} → X → Action (X × Option Error)
return_err x b = done ((x, b.err), b)

-- `Reset`
unfoldable pub reset : Action Unit
reset b = done (tt, record { bytes = []; err = none })

abbrev short_read : List ℕ → Error
short_read [] = eof
short_read (_ ∷ _) = unexpected_eof

-- `io.ReadFull` on `n` bytes of a `bytes.Buffer`: what it read, what is left, and its error.
unfoldable pub io_read_full : ℕ → List ℕ → List ℕ × List ℕ × Option Error
io_read_full n bs =
    if leb n (length bs) then (take n bs, drop n bs, none) else (bs, [], some (short_read bs))

-- `ReadFull` and `Read`: what was read overwrites the front of `dst`.
unfoldable pub read_full : List ℕ → Action (List ℕ)
unfolding unless_err
read_full dst = unless_err dst λ b.
    let (got, rest, e) = io_read_full (length dst) b.bytes in
    done (got ++ drop (length got) dst, record { bytes = rest; err = e })

nil_on_err : List ℕ → Option Error → List ℕ
nil_on_err got none = got
nil_on_err got (some _) = []

-- `ReadN`; a nil slice is the empty list.
unfoldable pub read_n : ℕ → Action (List ℕ)
unfolding nil_on_err
read_n n = unless_err [] λ b.
    let (got, rest, e) = io_read_full n b.bytes in
    done (nil_on_err got e, record { bytes = rest; err = e })

-- `copy(dst, src)`: what `dst` holds afterwards.
unfoldable pub copy : List ℕ → List ℕ → List ℕ
copy dst src = take (length dst) src ++ drop (length src) dst

-- `copy(dst, b.ReadN(n))`
unfoldable pub read_copy : List ℕ → ℕ → Action (List ℕ)
unfolding copy
read_copy dst n = do src ← read_n n; pure (copy dst src)

-- `binary.LittleEndian.Uint16` and `Uint32` panic on a slice that is too short.
unfoldable pub le_uint16 : List ℕ → Outcome ℕ
le_uint16 (a ∷ b ∷ _) = done (a + b * 256)
le_uint16 _ = panic

unfoldable pub le_uint32 : List ℕ → Outcome ℕ
le_uint32 (a ∷ b ∷ c ∷ d ∷ _) = done (a + b * 256 + c * 65536 + d * 16777216)
le_uint32 _ = panic

first_or_zero : List ℕ → ℕ
first_or_zero [] = 0
first_or_zero (x ∷ _) = x

unfoldable pub read_uint8 : Action ℕ
unfolding first_or_zero
read_uint8 = unless_err 0 (do bs ← read_n 1; pure (first_or_zero bs))

unfoldable pub read_uint16 : Action ℕ
read_uint16 = unless_err 0 (do bs ← read_n 2; lift (le_uint16 bs))

unfoldable pub read_uint32 : Action ℕ
read_uint32 = unless_err 0 (do bs ← read_n 4; lift (le_uint32 bs))

unfoldable pub read_times : ℕ → Action (List ℕ)
read_times ℕ.zero = pure []
read_times (ℕ.suc n) = do x ← read_uint32; xs ← read_times n; pure (x ∷ xs)

-- `ReadUint32Slice`
unfoldable pub read_uint32_slice : ℕ → Action (List ℕ)
unfolding read_times
read_uint32_slice n = unless_err [] (read_times n)

-- The float32 methods: a float is its bits.
unfoldable pub read_float32 : Action ℕ
read_float32 = read_uint32

unfoldable pub read_float32_slice : ℕ → Action (List ℕ)
unfolding read_uint32_slice
read_float32_slice n = unless_err [] (do xs ← read_uint32_slice n; unless_err [] (pure xs))

set_err : Option Error → Action Unit
set_err e b = done (tt, record b { err = e })

-- `ReadStruct` on the receiver `x` of `decode`.
unfoldable pub read_struct : {X : Type 0} → (X → Action (X × Option Error)) → X → Action X
unfolding set_err
read_struct decode x = unless_err x (do r ← decode x; set_err r.1; pure r.0)

-- `buf.b.Write`, the underlying buffer's own method: it does not look at the error that is kept.
unfoldable pub put_bytes : List ℕ → Action Unit
put_bytes bs b = done (tt, record b { bytes = b.bytes ++ bs })

-- `Write`: a write to a `bytes.Buffer` returns no error.
unfoldable pub write : List ℕ → Action Unit
unfolding put_bytes
write bs = unless_err tt (put_bytes bs)

-- `WriteN`
unfoldable pub write_n : List ℕ → ℕ → Action Unit
write_n bs max = unless_err tt (write (if ltb max (length bs) then take max bs else bs))

-- `binary.LittleEndian.PutUint16` and `PutUint32`: `byte(v)`, `byte(v >> 8)`, and so on.
unfoldable pub put_uint16 : ℕ → List ℕ
put_uint16 n = n % 256 ∷ n / 256 % 256 ∷ []

unfoldable pub put_uint32 : ℕ → List ℕ
put_uint32 n = n % 256 ∷ n / 256 % 256 ∷ n / 65536 % 256 ∷ n / 16777216 % 256 ∷ []

unfoldable pub write_uint8 : ℕ → Action Unit
unfolding put_bytes
write_uint8 n = unless_err tt (put_bytes (n ∷ []))

unfoldable pub write_uint16 : ℕ → Action Unit
unfolding put_bytes
write_uint16 n = unless_err tt (put_bytes (put_uint16 n))

unfoldable pub write_uint32 : ℕ → Action Unit
unfolding put_bytes
write_uint32 n = unless_err tt (put_bytes (put_uint32 n))

unfoldable pub put_all : List ℕ → List ℕ
put_all [] = []
put_all (x ∷ xs) = put_uint32 x ++ put_all xs

-- `WriteUint32Slice`
unfoldable pub write_uint32_slice : List ℕ → Action Unit
unfolding put_all put_bytes
write_uint32_slice xs = unless_err tt (put_bytes (put_all xs))

unfoldable pub write_float32 : ℕ → Action Unit
write_float32 bits = write_uint32 bits

unfoldable pub write_float32_slice : List ℕ → Action Unit
unfolding write_uint32_slice
write_float32_slice xs = write_uint32_slice xs

-- `WriteStruct`; an encoder may change its receiver, so that comes back too.
unfoldable pub write_struct : {X : Type 0} → (X → Action (X × Option Error)) → X → Action X
unfolding set_err
write_struct encode x = unless_err x (do r ← encode x; set_err r.1; pure r.0)
