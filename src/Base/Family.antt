-- ===== src/Base/Family.antt =====
-- Families indexed by a number, and their update at one index.
use Prim.Native.Nat.{ℕ}
use goads.Base.Tests.{◌==◌, if◌then◌else◌}

abbrev pub update {ℓ} : {A : Type ℓ} → (ℕ → A) → ℕ → A → ℕ → A
update f i a j = if j == i then a else f j
