-- ===== src/Ams/Buffer/Sticky.antt =====
-- The sticky error: what any sequence of the methods does in a buffer that has an error.
use goads.Base.{ℕ, ◌≡◌, refl, Option, some, List, [], ◌∷◌}
use goads.Ams.Outcome.{done, Error}
use goads.Ams.Buffer.{
  Action, Buffer, unless_err, ◌>>=◌, pure, read_full, read_n, read_uint8, read_uint16, read_uint32,
  read_uint32_slice, read_struct, write, write_n, write_uint8, write_uint16, write_uint32,
  write_uint32_slice, write_struct, read_float32, read_float32_slice, write_float32,
  write_float32_slice,
}

-- A call of a method, with its arguments. `X` is the type of the structs.
pub data MethodCall (X : Type 0) : Type 0 where
  reads_full : List ℕ → MethodCall X
  reads_n reads_uint32_slice reads_float32_slice : ℕ → MethodCall X
  reads_uint8 reads_uint16 reads_uint32 reads_float32 : MethodCall X
  writes : List ℕ → MethodCall X
  writes_n : List ℕ → ℕ → MethodCall X
  writes_uint8 writes_uint16 writes_uint32 writes_float32 : ℕ → MethodCall X
  writes_uint32_slice writes_float32_slice : List ℕ → MethodCall X
  reads_struct writes_struct : (X → Action (X × Option Error)) → X → MethodCall X

-- What a call returns: bytes or numbers, a number, nothing, or the receiver of a struct's codec.
pub data Returned (X : Type 0) : Type 0 where
  numbers : List ℕ → Returned X
  number : ℕ → Returned X
  nothing : Returned X
  receiver : X → Returned X

-- A buffer with an error
abbrev pub broken : List ℕ → Error → Buffer
broken rest e = record { bytes = rest; err = some e }

module _ {X : Type 0} where
  abbrev returned : {A : Type 0} → (A → Returned X) → Action A → Action (Returned X)
  returned f action = action >>= λ a. pure (f a)

  unfoldable pub run_call : MethodCall X → Action (Returned X)
  unfolding read_full read_n read_uint8 read_uint16 read_uint32 read_uint32_slice read_struct write
      write_n write_uint8 write_uint16 write_uint32 write_uint32_slice write_struct read_float32
      read_float32_slice write_float32 write_float32_slice
  run_call (reads_full bytes) = returned numbers (read_full bytes)
  run_call (reads_n n) = returned numbers (read_n n)
  run_call (reads_uint32_slice n) = returned numbers (read_uint32_slice n)
  run_call (reads_float32_slice n) = returned numbers (read_float32_slice n)
  run_call reads_uint8 = returned number read_uint8
  run_call reads_uint16 = returned number read_uint16
  run_call reads_uint32 = returned number read_uint32
  run_call reads_float32 = returned number read_float32
  run_call (writes bytes) = returned (λ _. nothing) (write bytes)
  run_call (writes_n bytes n) = returned (λ _. nothing) (write_n bytes n)
  run_call (writes_uint8 n) = returned (λ _. nothing) (write_uint8 n)
  run_call (writes_uint16 n) = returned (λ _. nothing) (write_uint16 n)
  run_call (writes_uint32 n) = returned (λ _. nothing) (write_uint32 n)
  run_call (writes_float32 n) = returned (λ _. nothing) (write_float32 n)
  run_call (writes_uint32_slice ns) = returned (λ _. nothing) (write_uint32_slice ns)
  run_call (writes_float32_slice ns) = returned (λ _. nothing) (write_float32_slice ns)
  run_call (reads_struct codec x) = returned receiver (read_struct codec x)
  run_call (writes_struct codec x) = returned receiver (write_struct codec x)

  unfoldable pub run_calls : List (MethodCall X) → Action (List (Returned X))
  unfolding run_call
  run_calls [] = pure []
  run_calls (c ∷ cs) = do x ← run_call c; xs ← run_calls cs; pure (x ∷ xs)

  -- What a call returns that does nothing: zero, no bytes, or its own argument.
  abbrev pub idle : MethodCall X → Returned X
  idle (reads_full bytes) = numbers bytes
  idle (reads_n n) = numbers []
  idle (reads_uint32_slice n) = numbers []
  idle (reads_float32_slice n) = numbers []
  idle reads_uint8 = number 0
  idle reads_uint16 = number 0
  idle reads_uint32 = number 0
  idle reads_float32 = number 0
  idle (writes bytes) = nothing
  idle (writes_n bytes n) = nothing
  idle (writes_uint8 n) = nothing
  idle (writes_uint16 n) = nothing
  idle (writes_uint32 n) = nothing
  idle (writes_float32 n) = nothing
  idle (writes_uint32_slice ns) = nothing
  idle (writes_float32_slice ns) = nothing
  idle (reads_struct codec x) = receiver x
  idle (writes_struct codec x) = receiver x

  abbrev pub idle_all : List (MethodCall X) → List (Returned X)
  idle_all [] = []
  idle_all (c ∷ cs) = idle c ∷ idle_all cs

  run_call-broken :
      (c : MethodCall X) (rest : List ℕ) (e : Error)
      → run_call c (broken rest e) ≡ done (idle c, broken rest e)
  unfolding ◌>>=◌ pure unless_err run_call read_full read_n read_uint8 read_uint16 read_uint32
      read_uint32_slice read_struct write write_n write_uint8 write_uint16 write_uint32
      write_uint32_slice write_struct read_float32 read_float32_slice write_float32
      write_float32_slice
  run_call-broken (reads_full bytes) rest e = refl
  run_call-broken (reads_n n) rest e = refl
  run_call-broken (reads_uint32_slice n) rest e = refl
  run_call-broken (reads_float32_slice n) rest e = refl
  run_call-broken reads_uint8 rest e = refl
  run_call-broken reads_uint16 rest e = refl
  run_call-broken reads_uint32 rest e = refl
  run_call-broken reads_float32 rest e = refl
  run_call-broken (writes bytes) rest e = refl
  run_call-broken (writes_n bytes n) rest e = refl
  run_call-broken (writes_uint8 n) rest e = refl
  run_call-broken (writes_uint16 n) rest e = refl
  run_call-broken (writes_uint32 n) rest e = refl
  run_call-broken (writes_float32 n) rest e = refl
  run_call-broken (writes_uint32_slice ns) rest e = refl
  run_call-broken (writes_float32_slice ns) rest e = refl
  run_call-broken (reads_struct codec x) rest e = refl
  run_call-broken (writes_struct codec x) rest e = refl

  -- In a buffer with an error any sequence of calls of the read and write methods leaves the buffer as
  -- it is, error and bytes, and panics nowhere: a read returns zero, no bytes or its own argument, a
  -- write returns, and a struct's codec, which may be any, is not called.
  pub error_is_sticky :
      (calls : List (MethodCall X)) (rest : List ℕ) (e : Error)
      → run_calls calls (broken rest e) ≡ done (idle_all calls, broken rest e)
  unfolding ◌>>=◌ pure run_calls
  error_is_sticky [] rest e = refl
  error_is_sticky (c ∷ cs) rest e =
      rw (run_call-broken c rest e, run_calls, ◌>>=◌) (rw (error_is_sticky cs rest e, ◌>>=◌) refl)
