-- ===== src/Prelude/Int.antt =====
-- Go's `int`, `int64` and `time.Duration`: integers, with the wrap-around of 64 bits where the
-- source adds or doubles a value that it does not bound.
use Prim.Native.Nat.{ℕ, suc, ◌+◌, ◌-◌, ◌*◌, ◌%◌, ◌^◌}
use mathlib.Core.Bool.{Bool, true, false}
use nullfield.Prelude.Tests.{ltb, leb, if◌then◌else◌}

-- `negsuc n` is -(n + 1).
pub data ℤ : Type 0 where
  pos : ℕ → ℤ
  negsuc : ℕ → ℤ

-- `0 < n`
abbrev pub is_positive : ℤ → Bool
is_positive (pos n) = ltb 0 n
is_positive (negsuc n) = false

-- `z`, or a default where it is not positive
abbrev pub positive_or : ℤ → ℕ → ℕ
positive_or (pos n) fallback = if ltb 0 n then n else fallback
positive_or (negsuc n) fallback = fallback

-- `n <= z` for a length or a count `n`
abbrev pub ge_count : ℕ → ℤ → Bool
ge_count n (pos m) = leb m n
ge_count n (negsuc m) = true

-- `z < n`, for a length or a count `n`
abbrev pub gt_count : ℕ → ℤ → Bool
gt_count n (pos m) = ltb m n
gt_count n (negsuc m) = true

infix 50 ◌≥ℤ◌
abbrev pub ◌≥ℤ◌ : ℤ → ℤ → Bool
pos a ≥ℤ pos b = leb b a
pos a ≥ℤ negsuc b = true
negsuc a ≥ℤ pos b = false
negsuc a ≥ℤ negsuc b = leb a b

-- The value of a 64-bit pattern in two's complement.
unfoldable pub of_bits : ℕ → ℤ
of_bits n = if ltb n (2 ^ 63) then pos n else negsuc (2 ^ 64 - n - 1)

unfoldable pub to_bits : ℤ → ℕ
to_bits (pos n) = n % 2 ^ 64
to_bits (negsuc n) = 2 ^ 64 - suc (n % 2 ^ 64)

-- `a + b` on `int`
unfoldable pub add64 : ℤ → ℤ → ℤ
unfolding of_bits to_bits
add64 a b = of_bits ((to_bits a + to_bits b) % 2 ^ 64)

-- `2 * d` on `time.Duration`
unfoldable pub double64 : ℤ → ℤ
unfolding of_bits to_bits
double64 d = of_bits (2 * to_bits d % 2 ^ 64)
