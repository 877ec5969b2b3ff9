-- ===== src/Base/Decimal.antt =====
-- Decimal numbers as Go writes and scans them, on the bytes of a string.
use Prim.Native.Nat.{ℕ, zero, suc, ◌+◌, ◌-◌, ◌*◌, ◌/◌, ◌%◌, ◌<◌}
use mathlib.Core.Path.{◌≡◌, refl, ap, ◌∙◌}
use mathlib.Core.Bool.{Bool, true, false, ◌&&◌}
use mathlib.Core.Option.{Option, none, some}
use mathlib.Core.List.{List, [], ◌∷◌, ◌++◌}
use native.Mathlib.Omega.{arith}
use goads.Base.Tests.{ltb, leb, if◌then◌else◌}

-- `'0' <= b && b <= '9'`
unfoldable pub is_digit : ℕ → Bool
is_digit b = leb 48 b && leb b 57

-- `%d` of an unsigned number: its digits in front of some bytes. Each turn leaves a smaller number,
-- so `n + 1` turns are enough.
unfoldable pub decimal_from : ℕ → ℕ → List ℕ → List ℕ
decimal_from zero n rest = rest
decimal_from (suc fuel) n rest =
    let more = decimal_from fuel (n / 10) ((48 + n % 10) ∷ rest) in
    if ltb n 10 then (48 + n) ∷ rest else more

unfoldable pub decimal : ℕ → List ℕ
unfolding decimal_from
decimal n = decimal_from (suc n) n []

-- A run of digits, with the number in front of it, and what stands behind.
unfoldable pub digits_from : ℕ → List ℕ → ℕ × List ℕ
unfolding is_digit
digits_from n [] = (n, [])
digits_from n (b ∷ bytes) =
    let more = digits_from (n * 10 + (b - 48)) bytes in if is_digit b then more else (n, b ∷ bytes)

-- One digit or more
unfoldable pub scan_number : List ℕ → Option (ℕ × List ℕ)
unfolding digits_from
scan_number [] = none
scan_number (b ∷ bytes) = if is_digit b then some (digits_from 0 (b ∷ bytes)) else none

-- Bytes that begin with a digit, and bytes that do not.
pub data StartsWithDigit : List ℕ → Type 0 where
  starts : (b : ℕ) (bytes : List ℕ) → is_digit b ≡ true → StartsWithDigit (b ∷ bytes)

pub data NoDigit : List ℕ → Type 0 where
  at_end : NoDigit []
  other : (b : ℕ) (bytes : List ℕ) → is_digit b ≡ false → NoDigit (b ∷ bytes)

either_starts :
    (b : Bool) (xs ys : List ℕ)
    → (b ≡ true → StartsWithDigit xs)
    → (b ≡ false → StartsWithDigit ys)
    → StartsWithDigit (if b then xs else ys)
either_starts true xs ys x y = x refl
either_starts false xs ys x y = y refl

decimal_from-StartsWithDigit :
    (fuel n : ℕ) (rest : List ℕ) → n < fuel → StartsWithDigit (decimal_from fuel n rest)
unfolding decimal_from is_digit
decimal_from-StartsWithDigit zero n rest h = absurd (omega arith)
decimal_from-StartsWithDigit (suc fuel) n rest h =
    either_starts (ltb n 10) _ _ (λ small. starts (48 + n) rest (ground arith))
      λ large. decimal_from-StartsWithDigit fuel (n / 10) _ (ground (arith, large))

scan_number_start :
    (bytes : List ℕ) → StartsWithDigit bytes → scan_number bytes ≡ some (digits_from 0 bytes)
unfolding scan_number
scan_number_start bytes (starts b rest digit) = rw digit refl

digits_from-NoDigit : (n : ℕ) (rest : List ℕ) → NoDigit rest → digits_from n rest ≡ (n, rest)
unfolding digits_from
digits_from-NoDigit n rest at_end = refl
digits_from-NoDigit n rest (other b bytes none_there) = rw none_there refl

digits_from-decimal_from :
    (fuel n : ℕ) (rest : List ℕ)
    → n < fuel
    → digits_from 0 (decimal_from fuel n rest) ≡ digits_from n rest
unfolding decimal_from digits_from is_digit
digits_from-decimal_from zero n rest h = ground arith
digits_from-decimal_from (suc fuel) n rest h =
    ground (arith, digits_from-decimal_from fuel (n / 10) ((48 + n % 10) ∷ rest))

decimal_from-++ :
    (fuel n : ℕ) (rest more : List ℕ)
    → decimal_from fuel n rest ++ more ≡ decimal_from fuel n (rest ++ more)
unfolding decimal_from
decimal_from-++ zero n rest more = refl
decimal_from-++ (suc fuel) n rest more =
    ground (arith, decimal_from-++ fuel (n / 10) ((48 + n % 10) ∷ rest) more)

pub decimal-StartsWithDigit : (n : ℕ) (rest : List ℕ) → StartsWithDigit (decimal n ++ rest)
unfolding decimal
decimal-StartsWithDigit n rest =
    rw (decimal_from-++ (suc n) n [] rest)
      (decimal_from-StartsWithDigit (suc n) n rest (omega arith))

-- What is written is scanned, up to the first byte that is no digit.
pub scan_number-decimal :
    (n : ℕ) (rest : List ℕ) → NoDigit rest → scan_number (decimal n ++ rest) ≡ some (n, rest)
unfolding decimal
scan_number-decimal n rest stop =
    scan_number_start (decimal n ++ rest) (decimal-StartsWithDigit n rest)
    ∙ ap (λ bytes. some (digits_from 0 bytes)) (decimal_from-++ (suc n) n [] rest)
    ∙ ap some
        (digits_from-decimal_from (suc n) n rest (omega arith) ∙ digits_from-NoDigit n rest stop)
