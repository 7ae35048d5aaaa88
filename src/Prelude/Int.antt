-- ===== src/Prelude/Int.antt =====
-- The C type `int` where it may be negative: the integers over the native numbers.
use Prim.Native.Nat.{ℕ, suc, ◌+◌, ◌-◌, ◌%◌}
use mathlib.Core.Bool.{Bool, false}
use mathlib.Core.Path.{◌≡◌}
use native.Mathlib.Omega.{arith}
use browserhistory.Prelude.Tests.{leb, if◌then◌else◌, ltb, ◌==◌}

-- `negsuc n` is -(n + 1).
pub data ℤ : Type 0 where
  pos : ℕ → ℤ
  negsuc : ℕ → ℤ

abbrev pub minus_one : ℤ
minus_one = negsuc 0

abbrev pub pos_part : ℤ → ℕ
pos_part (pos n) = n
pos_part (negsuc n) = 0

-- `n > 0`
abbrev pub is_positive : ℤ → Bool
is_positive n = ltb 0 (pos_part n)

-- `n == k`, for a `k` that is not negative
abbrev pub is_nat : ℤ → ℕ → Bool
is_nat (pos n) k = n == k
is_nat (negsuc n) k = false

abbrev pub neg_part : ℤ → ℕ
neg_part (pos n) = 0
neg_part (negsuc n) = suc n

-- a - b, as an integer.
abbrev pub sub_ℕ : ℕ → ℕ → ℤ
sub_ℕ a b = if leb b a then pos (a - b) else negsuc (b - a - 1)

infixl 65 ◌+ℤ◌
unfoldable pub ◌+ℤ◌ : ℤ → ℤ → ℤ
a +ℤ b = sub_ℕ (pos_part a + pos_part b) (neg_part a + neg_part b)

-- `-n` for a number `n`
abbrev pub minus_ℕ : ℕ → ℤ
minus_ℕ n = sub_ℕ 0 n

-- The remainder of a division by a positive number, which in C takes the sign of the dividend.
infixl 70 ◌%ℤ◌
abbrev pub ◌%ℤ◌ : ℤ → ℕ → ℤ
pos n %ℤ d = pos (n % d)
negsuc n %ℤ d = minus_ℕ (suc n % d)

pub pos-+ℤ : (m n : ℕ) → pos m +ℤ pos n ≡ pos (m + n)
unfolding ◌+ℤ◌
pos-+ℤ m n = ground arith
