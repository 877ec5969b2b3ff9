-- ===== src/Ams/Codec.antt =====
-- What it means that a packet's `Encode` and `Decode` follow one wire format.
use goads.Base.{ℕ, ◌≡◌, Option, none, List, ◌++◌}
use goads.Ams.Outcome.{done, Error}
use goads.Ams.Buffer.{Action, new_buffer}

-- `encode x` appends `wire` to any bytes `b` and leaves the receiver as `y`; `decode` into any
-- receiver `z` turns `wire`, with anything behind it, into `y` and leaves just that.
abbrev pub Transfers :
    {X : Type 0}
    → (X → Action (X × Option Error))
    → (X → Action (X × Option Error))
    → List ℕ
    → X
    → X
    → X
    → List ℕ
    → List ℕ
    → Type 0
Transfers encode decode wire z x y b rest =
    (encode x (new_buffer b) ≡ done ((y, none), new_buffer (b ++ wire)))
    × (decode z (new_buffer (wire ++ rest)) ≡ done ((y, none), new_buffer rest))
