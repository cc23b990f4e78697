-- ===== src/Prelude/Int.antt =====
-- Signed integers over the native numbers, under the library's names (its ℤ stands on the unary ℕ).
use Prim.Native.Nat.{ℕ, suc, ◌*◌, ◌/◌, ◌%◌, ◌+◌, ◌-◌, ◌^◌, ◌≤◌, ◌<◌}
use mathlib.Core.Path.{◌≡◌}
use mathlib.Core.Bool.{Bool}
use native.Mathlib.Omega.{arith}
use sled.Prelude.Tests.{ltb, leb, if◌then◌else◌}

-- `negsuc n` is -(n + 1).
pub data ℤ : Type 0 where
  pos : ℕ → ℤ
  negsuc : ℕ → ℤ

abbrev pub pos_part : ℤ → ℕ
pos_part (pos n) = n
pos_part (negsuc n) = 0

abbrev pub neg_part : ℤ → ℕ
neg_part (pos n) = 0
neg_part (negsuc n) = suc n

-- a - b, as an integer.
abbrev pub sub_ℕ : ℕ → ℕ → ℤ
sub_ℕ a b = if leb b a then pos (a - b) else negsuc (b - a - 1)

-- `a / k`, `a % k` and `a * k` on an i64, where division rounds to zero
abbrev pub div_ℤ : ℤ → ℕ → ℤ
div_ℤ (pos n) k = pos (n / k)
div_ℤ (negsuc n) k = sub_ℕ 0 (suc n / k)

abbrev pub rem_ℤ : ℤ → ℕ → ℤ
rem_ℤ (pos n) k = pos (n % k)
rem_ℤ (negsuc n) k = sub_ℕ 0 (suc n % k)

abbrev pub mul_ℤ : ℤ → ℕ → ℤ
mul_ℤ (pos n) k = pos (n * k)
mul_ℤ (negsuc n) k = sub_ℕ 0 (suc n * k)

-- `a + k`
abbrev pub add_ℤ : ℤ → ℕ → ℤ
add_ℤ (pos n) k = pos (n + k)
add_ℤ (negsuc n) k = sub_ℕ k (suc n)

-- The i64 of a bit pattern, and the integer that is left of one on 64 bits.
abbrev pub signed64 : ℕ → ℤ
signed64 w = if ltb w (2 ^ 63) then pos w else negsuc (2 ^ 64 - w - 1)

unfoldable pub wrap_i64 : ℤ → ℤ
wrap_i64 (pos n) = signed64 (n % 2 ^ 64)
wrap_i64 (negsuc n) = signed64 (2 ^ 64 - 1 - n % 2 ^ 64)

pub wrap_i64_small : (n : ℕ) → n < 2 ^ 63 → wrap_i64 (pos n) ≡ pos n
unfolding wrap_i64
wrap_i64_small n h = ground (arith, h)

-- `a - 1`
abbrev pub pred_ℤ : ℤ → ℤ
pred_ℤ (pos n) = sub_ℕ n 1
pred_ℤ (negsuc n) = negsuc (suc n)

infix 50 ◌≤ℤ◌
abbrev pub ◌≤ℤ◌ : ℤ → ℤ → Type 0
a ≤ℤ b = pos_part a + neg_part b ≤ pos_part b + neg_part a

abbrev pub ltb_ℤ : ℤ → ℤ → Bool
ltb_ℤ a b = ltb (pos_part a + neg_part b) (pos_part b + neg_part a)

abbrev pub leb_ℤ : ℤ → ℤ → Bool
leb_ℤ a b = leb (pos_part a + neg_part b) (pos_part b + neg_part a)

pub eq_of_parts : (a b : ℤ) → pos_part a + neg_part b ≡ pos_part b + neg_part a → a ≡ b
eq_of_parts a b h = ground arith
