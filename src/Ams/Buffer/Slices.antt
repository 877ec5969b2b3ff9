-- ===== src/Ams/Buffer/Slices.antt =====
-- Slices of numbers are written and read without their length.
use goads.Base.{ℕ, ◌^◌, ◌<◌, ◌≡◌, refl, List, [], ◌∷◌, ◌++◌, length, All}
use goads.Ams.Outcome.{done}
use goads.Ams.Buffer.{
  Action, Buffer, ◌>>=◌, pure, new_buffer, unless_err, put_all, read_times, read_uint32_slice,
  write, write_uint32_slice, read_float32_slice, write_float32_slice,
}
use goads.Ams.Buffer.Reads.{Reads, Reads-pure, Reads-bind, Reads-map, Reads-uint32}

Reads-times :
    (xs : List ℕ) → All (λ x. x < 2 ^ 32) xs → Reads (read_times (length xs)) (put_all xs) xs
unfolding read_times put_all
Reads-times [] h = Reads-pure []
Reads-times (x ∷ xs) (h, hs) =
    Reads-bind _ (Reads-uint32 x h) (Reads-map (◌∷◌ x) (Reads-times xs hs))

bind_done :
    {A B : Type 0} (m : Action A) (f : A → Action B) (b b' : Buffer) (a : A)
    → m b ≡ done (a, b')
    → (m >>= f) b ≡ f a b'
unfolding ◌>>=◌
bind_done m f b b' a e = rw (e, ◌>>=◌) refl

-- What `WriteUint32Slice` appends for numbers of 32 bits, behind any bytes, `ReadUint32Slice` reads
-- back when it is told how many they are, and leaves whatever follows; `WriteFloat32Slice` and
-- `ReadFloat32Slice` do the same with the bits of floats.
pub slice_transfers :
    (xs b rest : List ℕ)
    → All (λ x. x < 2 ^ 32) xs
    → (write_uint32_slice xs (new_buffer b) ≡ done (tt, new_buffer (b ++ put_all xs)))
      × (read_uint32_slice (length xs) (new_buffer (put_all xs ++ rest))
          ≡ done (xs, new_buffer rest))
      × (write_float32_slice xs (new_buffer b) ≡ done (tt, new_buffer (b ++ put_all xs)))
      × (read_float32_slice (length xs) (new_buffer (put_all xs ++ rest))
          ≡ done (xs, new_buffer rest))
unfolding write_float32_slice read_float32_slice write_uint32_slice write read_uint32_slice
    unless_err pure
slice_transfers xs b rest h =
    let read = (Reads-times xs h).run rest in
    (
      refl,
      read,
      refl,
      bind_done (read_uint32_slice (length xs)) (λ ys. unless_err [] (pure ys))
          (new_buffer (put_all xs ++ rest)) (new_buffer rest) xs read,
    )
