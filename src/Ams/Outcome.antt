-- ===== src/Ams/Outcome.antt =====
-- What a Go call comes to.

-- `panic` is a run-time panic, such as an index out of range.
pub data Outcome {ℓ} (A : Type ℓ) : Type ℓ where
  done : A → Outcome A
  panic : Outcome A

-- The errors of `io.ReadFull`.
pub data Error : Type 0 where
  eof unexpected_eof : Error
