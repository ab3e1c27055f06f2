-- ===== src/Prelude/Int.antt =====
-- Signed integers over the native numbers, for the `i64` fields of events and spans. Sums and
-- orders go through the two parts of an integer, which are numbers that `omega` reads.
use Prim.Native.Nat.{ℕ, suc, ◌+◌, ◌-◌, ◌%◌, ◌^◌, ◌≤◌, ◌<◌}
use mathlib.Core.Path.{◌≡◌}
use mathlib.Core.Bool.{Bool}
use native.Mathlib.Omega.{arith}
use micromegas.Prelude.Tests.{ltb, leb, if◌then◌else◌}

-- `negsuc n` is -(n + 1).
pub data ℤ : Type 0 where
  pos : ℕ → ℤ
  negsuc : ℕ → ℤ

abbrev pub pos_part : ℤ → ℕ
pos_part (pos n) = n
pos_part (negsuc n) = 0

abbrev pub neg_part : ℤ → ℕ
neg_part (pos n) = 0
neg_part (negsuc n) = suc n

-- a - b, as an integer.
abbrev pub sub_ℕ : ℕ → ℕ → ℤ
sub_ℕ a b = if leb b a then pos (a - b) else negsuc (b - a - 1)

infixl 65 ◌+ℤ◌ ◌-ℤ◌
infix 50 ◌≤ℤ◌
unfoldable pub ◌+ℤ◌ : ℤ → ℤ → ℤ
a +ℤ b = sub_ℕ (pos_part a + pos_part b) (neg_part a + neg_part b)

unfoldable pub ◌-ℤ◌ : ℤ → ℤ → ℤ
a -ℤ b = sub_ℕ (pos_part a + neg_part b) (neg_part a + pos_part b)

abbrev pub ◌≤ℤ◌ : ℤ → ℤ → Type 0
a ≤ℤ b = pos_part a + neg_part b ≤ pos_part b + neg_part a

abbrev pub ltb_ℤ : ℤ → ℤ → Bool
ltb_ℤ a b = ltb (pos_part a + neg_part b) (pos_part b + neg_part a)

-- An `i64` as the 64-bit pattern that memory holds, and back (`as u64`, `as i64`).
unfoldable pub bits_of_i64 : ℤ → ℕ
bits_of_i64 (pos n) = n
bits_of_i64 (negsuc n) = 2 ^ 64 - suc n

unfoldable pub i64_of_bits : ℕ → ℤ
i64_of_bits n = if ltb n (2 ^ 63) then pos n else negsuc (2 ^ 64 - n - 1)

-- The integers that an `i64` holds.
abbrev pub IsI64 : ℤ → Type 0
IsI64 (pos n) = n < 2 ^ 63
IsI64 (negsuc n) = n < 2 ^ 63

pub i64_of_bits-bits_of_i64 : (z : ℤ) → IsI64 z → i64_of_bits (bits_of_i64 z) ≡ z
unfolding i64_of_bits bits_of_i64
i64_of_bits-bits_of_i64 (pos n) h = ground arith
i64_of_bits-bits_of_i64 (negsuc n) h = ground arith

pub bits_of_i64-i64_of_bits : (n : ℕ) → n < 2 ^ 64 → bits_of_i64 (i64_of_bits n) ≡ n
unfolding i64_of_bits bits_of_i64
bits_of_i64-i64_of_bits n h = ground arith

pub bits_of_i64-lt : (z : ℤ) → IsI64 z → bits_of_i64 z < 2 ^ 64
unfolding bits_of_i64
bits_of_i64-lt (pos n) h = omega arith
bits_of_i64-lt (negsuc n) h = omega arith

-- `a + b` and `a - b` on `i64`, as a release build computes them.
unfoldable pub add_i64 : ℤ → ℤ → ℤ
add_i64 a b = i64_of_bits ((bits_of_i64 a + bits_of_i64 b) % 2 ^ 64)

unfoldable pub sub_i64 : ℤ → ℤ → ℤ
sub_i64 a b = i64_of_bits ((bits_of_i64 a + 2 ^ 64 - bits_of_i64 b) % 2 ^ 64)
