-- ===== src/Prelude/Xor.antt =====
-- The native exclusive or, digit by digit.
use Prim.Native.Nat.{ℕ, zero, suc, ◌+◌, ◌*◌, ◌/◌, ◌%◌, ◌^◌, ◌<◌, differ, bit_xor, bit_xor-bitwise}
use mathlib.Core.Path.{◌≡◌, refl, ◌∙◌}
use native.Mathlib.Omega.{arith}
use native.Mathlib.Nat.{pow-suc}
use sled.Prelude.Bits.{enough_fuel}

xor_digit : (a b : ℕ) → bit_xor a b ≡ bit_xor (a / 2) (b / 2) * 2 + differ (a % 2) (b % 2)
xor_digit zero b = omega (arith, bit_xor-bitwise 0 b, bit_xor-bitwise 0 (b / 2))
xor_digit (suc a) b = omega (
  arith,
  bit_xor-bitwise (suc a) b,
  bit_xor-bitwise (suc a / 2) (b / 2),
  enough_fuel (λ y. y) differ a (suc a / 2) (suc a / 2) (b / 2) (omega arith) (omega arith),
)

-- On two digits, the exclusive or is a digit, and undoes itself.
differ_twice : (x y : ℕ) → x < 2 → y < 2 → (differ x y < 2) × (differ (differ x y) y ≡ x)
differ_twice zero zero h k = (omega arith, refl)
differ_twice zero (suc zero) h k = (omega arith, refl)
differ_twice (suc zero) zero h k = (omega arith, refl)
differ_twice (suc zero) (suc zero) h k = (omega arith, refl)
differ_twice (suc (suc x)) y h k = absurd (omega arith)
differ_twice x (suc (suc y)) h k = absurd (omega arith)

-- On numbers of `k` digits, the exclusive or has `k` digits, and undoes itself.
pub bit_xor-bit_xor :
    (k a m : ℕ) → a < 2 ^ k → m < 2 ^ k → (bit_xor a m < 2 ^ k) × (bit_xor (bit_xor a m) m ≡ a)
bit_xor-bit_xor zero a m h g =
    let none_a : a ≡ 0 = omega arith in
    let none_m : m ≡ 0 = omega arith in
    rw (none_a, none_m)
      (omega (arith, bit_xor-bitwise 0 0), rw (bit_xor-bitwise 0 0) (bit_xor-bitwise 0 0))
bit_xor-bit_xor (suc k) a m h g =
    let (bound, back) =
      bit_xor-bit_xor k (a / 2) (m / 2) (omega (arith, pow-suc 2 k)) (omega (arith, pow-suc 2 k)) in
    let (digit, undone) = differ_twice (a % 2) (m % 2) (omega arith) (omega arith) in
    let low : bit_xor a m % 2 ≡ differ (a % 2) (m % 2) = omega (arith, xor_digit a m, digit) in
    let high : bit_xor a m / 2 ≡ bit_xor (a / 2) (m / 2) = omega (arith, xor_digit a m, digit) in
    (
      omega (arith, xor_digit a m, pow-suc 2 k, digit, bound),
      xor_digit (bit_xor a m) m ∙ rw (high, low) (omega (arith, back, undone)),
    )
