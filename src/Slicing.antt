-- ===== src/Slicing.antt =====
-- Slices of the bytes of a response and numbers read from them, as symbol.go and session.go take them:
-- what is out of range panics.
pub mod Returns
pub mod Stands
use goads.Base.{ℕ, ◌+◌, ◌-◌, ◌==◌, leb, ◌&&◌, if◌then◌else◌, List, [], ◌∷◌, length, take, drop}
use goads.Ams.Outcome.{Outcome, done, panic}
use goads.Ams.Buffer.{le_uint16, le_uint32}

unfoldable pub and_then : {A B : Type 0} → Outcome A → (A → Outcome B) → Outcome B
and_then panic f = panic
and_then (done a) f = f a

-- `bytes[from:to]`
unfoldable pub slice_of : List ℕ → ℕ → ℕ → Outcome (List ℕ)
slice_of bytes from to =
    if leb from to && leb to (length bytes)
    then done (take (to - from) (drop from bytes))
    else panic

-- `binary.LittleEndian.Uint32(data[offset:offset+4])`, and of two bytes
unfoldable pub uint32_at : List ℕ → ℕ → Outcome ℕ
unfolding and_then slice_of
uint32_at bytes offset = and_then (slice_of bytes offset (offset + 4)) le_uint32

unfoldable pub uint16_at : List ℕ → ℕ → Outcome ℕ
unfolding and_then slice_of
uint16_at bytes offset = and_then (slice_of bytes offset (offset + 2)) le_uint16

-- `nullTerminatedString`
unfoldable pub null_terminated_string : List ℕ → List ℕ
null_terminated_string [] = []
null_terminated_string (b ∷ bs) = if b == 0 then [] else b ∷ null_terminated_string bs
