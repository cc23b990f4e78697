-- ===== src/Prelude/Bits.antt =====
-- The native `&` and `|` on a word that is split in a high part `q` and `k` low bits `r`.
use Prim.Native.Nat.{
  ℕ, zero, suc, ◌+◌, ◌-◌, ◌*◌, ◌/◌, ◌%◌, ◌^◌, ◌≤◌, ◌<◌, min, max, digits, bit_and, bit_or,
  bit_and-bitwise, bit_or-bitwise,
}
use mathlib.Core.Path.{◌≡◌, refl, ap, ap₂, ◌∙◌}
use native.Mathlib.Omega.{arith}
use native.Mathlib.Nat.{pow-suc, one-le-pow}

-- The operations are recursions on fuel; any fuel from the first number on gives the same digits.
pub enough_fuel :
    (z : ℕ → ℕ) (f : ℕ → ℕ → ℕ) (n m a b : ℕ) → a ≤ n → a ≤ m → digits z f n a b ≡ digits z f m a b
enough_fuel z f zero zero zero b hn hm = refl
enough_fuel z f zero (suc m) zero b hn hm = refl
enough_fuel z f (suc n) zero zero b hn hm = refl
enough_fuel z f (suc n) (suc m) zero b hn hm = refl
enough_fuel z f zero m (suc a) b hn hm = absurd (omega arith)
enough_fuel z f (suc n) zero (suc a) b hn hm = absurd (omega arith)
enough_fuel z f (suc n) (suc m) (suc a) b hn hm =
    ap (λ (d : ℕ). d * 2 + f (suc a % 2) (b % 2))
      (enough_fuel z f n m (suc a / 2) (b / 2) (omega arith) (omega arith))

-- The lowest digit of each operation.
pub and_digit : (a b : ℕ) → bit_and a b ≡ bit_and (a / 2) (b / 2) * 2 + min (a % 2) (b % 2)
and_digit zero b = rw (bit_and-bitwise 0 b, bit_and-bitwise 0 (b / 2)) (omega arith)
and_digit (suc a) b = omega (
  arith,
  bit_and-bitwise (suc a) b,
  bit_and-bitwise (suc a / 2) (b / 2),
  enough_fuel (λ y. 0) min a (suc a / 2) (suc a / 2) (b / 2) (omega arith) (omega arith),
)

or_digit : (a b : ℕ) → bit_or a b ≡ bit_or (a / 2) (b / 2) * 2 + max (a % 2) (b % 2)
or_digit zero b = rw (bit_or-bitwise 0 b, bit_or-bitwise 0 (b / 2)) (omega arith)
or_digit (suc a) b = omega (
  arith,
  bit_or-bitwise (suc a) b,
  bit_or-bitwise (suc a / 2) (b / 2),
  enough_fuel (λ y. y) max a (suc a / 2) (suc a / 2) (b / 2) (omega arith) (omega arith),
)

twice_pow : (q k : ℕ) → q * 2 ^ suc k ≡ 2 * (q * 2 ^ k)
twice_pow q k = omega (arith, ap (λ (t : ℕ). q * t) (pow-suc 2 k))

-- A mask above the low bits clears these, and meets the high part.
pub bit_and_high :
    (k q r m : ℕ) → r < 2 ^ k → bit_and (q * 2 ^ k + r) (m * 2 ^ k) ≡ bit_and q m * 2 ^ k
bit_and_high zero q r m h =
    let low : q * 1 + r ≡ q = omega arith in
    let mask : m * 1 ≡ m = omega arith in rw (low, mask) (omega arith)
bit_and_high (suc k) q r m h = omega (
  arith,
  and_digit (q * 2 ^ suc k + r) (m * 2 ^ suc k),
  twice_pow q k,
  twice_pow m k,
  twice_pow (bit_and q m) k,
  pow-suc 2 k,
  halves,
  bit_and_high k q (r / 2) m (omega (arith, pow-suc 2 k)),
)
  where
    halves :
        bit_and ((q * 2 ^ suc k + r) / 2) (m * 2 ^ suc k / 2)
        ≡ bit_and (q * 2 ^ k + r / 2) (m * 2 ^ k)
    halves =
        let a : (q * 2 ^ suc k + r) / 2 ≡ q * 2 ^ k + r / 2 = omega (arith, twice_pow q k) in
        let b : m * 2 ^ suc k / 2 ≡ m * 2 ^ k = omega (arith, twice_pow m k) in rw (a, b)

pub bit_or_high :
    (k q r m : ℕ) → r < 2 ^ k → bit_or (q * 2 ^ k + r) (m * 2 ^ k) ≡ bit_or q m * 2 ^ k + r
bit_or_high zero q r m h =
    let low : q * 1 + r ≡ q = omega arith in
    let mask : m * 1 ≡ m = omega arith in rw (low, mask) (omega arith)
bit_or_high (suc k) q r m h = omega (
  arith,
  or_digit (q * 2 ^ suc k + r) (m * 2 ^ suc k),
  twice_pow q k,
  twice_pow m k,
  twice_pow (bit_or q m) k,
  pow-suc 2 k,
  halves,
  bit_or_high k q (r / 2) m (omega (arith, pow-suc 2 k)),
)
  where
    halves :
        bit_or ((q * 2 ^ suc k + r) / 2) (m * 2 ^ suc k / 2)
        ≡ bit_or (q * 2 ^ k + r / 2) (m * 2 ^ k)
    halves =
        let a : (q * 2 ^ suc k + r) / 2 ≡ q * 2 ^ k + r / 2 = omega (arith, twice_pow q k) in
        let b : m * 2 ^ suc k / 2 ≡ m * 2 ^ k = omega (arith, twice_pow m k) in rw (a, b)

and_zero_below : (n a : ℕ) → a < n → bit_and a 0 ≡ 0
and_zero_below zero a h = elim h [ ]
and_zero_below (suc n) zero h = bit_and-bitwise 0 0
and_zero_below (suc n) (suc a) h =
    omega (arith, and_digit (suc a) 0, and_zero_below n (suc a / 2) (omega arith))

or_zero_below : (n a : ℕ) → a < n → bit_or a 0 ≡ a
or_zero_below zero a h = elim h [ ]
or_zero_below (suc n) zero h = bit_or-bitwise 0 0
or_zero_below (suc n) (suc a) h =
    omega (arith, or_digit (suc a) 0, or_zero_below n (suc a / 2) (omega arith))

pub bit_and-zero : (a : ℕ) → bit_and a 0 ≡ 0
bit_and-zero a = and_zero_below (suc a) a (omega arith)

pub bit_and-one : (a : ℕ) → bit_and a 1 ≡ a % 2
bit_and-one a = omega (arith, and_digit a 1, bit_and-zero (a / 2))

pub bit_or-one : (a : ℕ) → bit_or a 1 ≡ a / 2 * 2 + 1
bit_or-one a = omega (arith, or_digit a 1, or_zero_below (suc (a / 2)) (a / 2) (omega arith))

-- A number of `k` bits meets a mask of `k` ones in itself.
pub bit_and_ones : (k a : ℕ) → a < 2 ^ k → bit_and a (2 ^ k - 1) ≡ a
bit_and_ones zero a h = omega (arith, bit_and-zero a)
bit_and_ones (suc k) a h =
    let half : (2 ^ suc k - 1) / 2 ≡ 2 ^ k - 1 = omega (arith, pow-suc 2 k, one-le-pow k 2) in
    omega (
      arith,
      and_digit a (2 ^ suc k - 1),
      ap (bit_and (a / 2)) half,
      pow-suc 2 k,
      one-le-pow k 2,
      bit_and_ones k (a / 2) (omega (arith, pow-suc 2 k)),
    )

-- Low bits join a high part as a sum, and a mask of ones takes them out again.
pub bit_or_low : (k q r : ℕ) → r < 2 ^ k → bit_or (q * 2 ^ k) r ≡ q * 2 ^ k + r
bit_or_low zero q r h =
    let low : r ≡ 0 = omega arith in
    let high : q * 1 ≡ q = omega arith in
    rw (low, high) (or_zero_below (suc q) q (omega arith) ∙ omega arith)
bit_or_low (suc k) q r h =
    let half : q * 2 ^ suc k / 2 ≡ q * 2 ^ k = omega (arith, twice_pow q k) in
    omega (
      arith,
      or_digit (q * 2 ^ suc k) r,
      ap (λ (t : ℕ). bit_or t (r / 2)) half,
      twice_pow q k,
      bit_or_low k q (r / 2) (omega (arith, pow-suc 2 k)),
    )

pub bit_and_low : (k q r : ℕ) → r < 2 ^ k → bit_and (q * 2 ^ k + r) (2 ^ k - 1) ≡ r
bit_and_low zero q r h = omega (arith, bit_and-zero (q * 1 + r))
bit_and_low (suc k) q r h =
    let half : (q * 2 ^ suc k + r) / 2 ≡ q * 2 ^ k + r / 2 = omega (arith, twice_pow q k) in
    let mask : (2 ^ suc k - 1) / 2 ≡ 2 ^ k - 1 = omega (arith, pow-suc 2 k, one-le-pow k 2) in
    omega (
      arith,
      and_digit (q * 2 ^ suc k + r) (2 ^ suc k - 1),
      ap₂ bit_and half mask,
      twice_pow q k,
      pow-suc 2 k,
      one-le-pow k 2,
      bit_and_low k q (r / 2) (omega (arith, pow-suc 2 k)),
    )
