-- ===== src/Base/Int.antt =====
-- Go's signed integers: the integers, the conversions from and to the unsigned type of the same width,
-- and the division that rounds towards 0.
use Prim.Native.Nat.{ℕ, zero, suc, ◌+◌, ◌-◌, ◌*◌, ◌/◌, ◌%◌, ◌<◌}
use mathlib.Core.Path.{◌≡◌}
use native.Mathlib.Omega.{arith}
use goads.Base.Tests.{ltb, if◌then◌else◌}

-- `negsuc n` is `-(n + 1)`.
pub data ℤ : Type 0 where
  pos negsuc : ℕ → ℤ

-- `- n`
abbrev pub neg : ℕ → ℤ
neg zero = pos 0
neg (suc n) = negsuc n

-- A signed type holds the numbers from `- half` to `half - 1`.
abbrev pub IsSigned : ℕ → ℤ → Type 0
IsSigned half (pos n) = n < half
IsSigned half (negsuc n) = n < half

-- `int16(u)` where `half` is `2 ^ 15`, and so on
unfoldable pub signed : ℕ → ℕ → ℤ
signed half u = if ltb u half then pos u else negsuc (half + half - 1 - u)

-- `uint16(i)`
unfoldable pub unsigned : ℕ → ℤ → ℕ
unsigned half (pos n) = n
unsigned half (negsuc n) = half + half - 1 - n

-- `uint32(i)` of an `int64`: the lowest bits
unfoldable pub low_bits : ℕ → ℤ → ℕ
low_bits modulus (pos n) = n % modulus
low_bits modulus (negsuc n) = modulus - 1 - n % modulus

-- `a / k` and `a % k`
unfoldable pub quot : ℤ → ℕ → ℤ
quot (pos n) k = pos (n / k)
quot (negsuc n) k = neg ((n + 1) / k)

unfoldable pub rem : ℤ → ℕ → ℤ
rem (pos n) k = pos (n % k)
rem (negsuc n) k = neg ((n + 1) % k)

-- `a * k` and `a - k`
unfoldable pub times : ℤ → ℕ → ℤ
times (pos n) k = pos (n * k)
times (negsuc n) k = neg ((n + 1) * k)

unfoldable pub minus : ℤ → ℕ → ℤ
minus (pos n) k = if ltb n k then negsuc (k - n - 1) else pos (n - k)
minus (negsuc n) k = negsuc (n + k)

pub signed-unsigned : (half : ℕ) (i : ℤ) → IsSigned half i → signed half (unsigned half i) ≡ i
unfolding signed unsigned
signed-unsigned half (pos n) h = ground arith
signed-unsigned half (negsuc n) h = ground arith

pub unsigned_bound : (half : ℕ) (i : ℤ) → IsSigned half i → unsigned half i < half + half
unfolding unsigned
unsigned_bound half (pos n) h = omega arith
unsigned_bound half (negsuc n) h = omega arith
