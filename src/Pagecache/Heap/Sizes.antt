-- ===== src/Pagecache/Heap/Sizes.antt =====
-- The sizes of slabs and the round trip of heap ids (src/pagecache/heap.rs).
use Prim.Native.Nat.{bit_or}
use native.Mathlib.Nat.{pow-suc, pow-le-pow_right, zero-add}
use Prim.Native.Nat.add
use sled.Prelude.{
  ℕ, zero, suc, ◌+◌, ◌-◌, ◌*◌, ◌/◌, ◌%◌, ◌^◌, ◌≤◌, ◌<◌, ◌≡◌, refl, ap, subst, ◌∙◌, max, arith, ltb,
  leb, Bool-cases, ◌⊎◌, inl, inr,
}
use sled.Prelude.Int.{ℤ}
use sled.Prelude.Outcome.{ok, panic}
use sled.Prelude.Bits.{bit_or_low, bit_and_low}
use sled.Pagecache.Heap.{
  min_sz, count_zeros, double_until, size_to_slab_id, decompose, compose, reserve_slab,
}

pub pow-add : (a b : ℕ) → 2 ^ (a + b) ≡ 2 ^ a * 2 ^ b
pow-add zero b = ap (λ (e : ℕ). 2 ^ e) (zero-add b) ∙ omega arith
pow-add (suc a) b =
    ap (λ (e : ℕ). 2 ^ e) (add.suc a b) ∙ grind (arith, pow-suc 2 (a + b), pow-suc 2 a, pow-add a b)

count_zeros-pow : (k width : ℕ) → k < width → count_zeros width (2 ^ k) ≡ k
unfolding count_zeros
count_zeros-pow k zero h = absurd (omega arith)
count_zeros-pow zero (suc width) h = ground arith
count_zeros-pow (suc k) (suc width) h =
    let half : 2 ^ suc k / 2 ≡ 2 ^ k = omega (arith, pow-suc 2 k) in
    let even : 2 ^ suc k % 2 ≡ 0 = omega (arith, pow-suc 2 k) in
    rw (half, even) (ground (arith, count_zeros-pow k width (omega arith)))

-- Doubling from 2 ^ k stops at the first power that reaches `n`.
double_until-pow :
    (fuel k top n : ℕ)
    → k + fuel ≡ top
    → n ≤ 2 ^ top
    → (j : ℕ) × (double_until fuel (2 ^ k) n ≡ 2 ^ j)
      × (k ≤ j)
      × (j ≤ top)
      × (n ≤ 2 ^ j)
      × ((j ≡ k) ⊎ (2 ^ j < n * 2))
unfolding double_until
double_until-pow zero k top n e h =
    (k, refl, omega arith, omega arith, subst (λ t. n ≤ 2 ^ t) (omega arith) h, inl refl)
double_until-pow (suc fuel) k top n e h = elim (Bool-cases (leb n (2 ^ k))) [
  | inl done ↦ (k, rw done, omega arith, omega arith, ground (arith, done), inl refl)
  | inr more ↦
      let (j, stop, lo, hi, fits, tight) = double_until-pow fuel (suc k) top n (omega arith) h in
      (
        j,
        rw (more, ← pow-suc 2 k) stop,
        omega arith,
        hi,
        fits,
        inr (first_step k j n (ground (arith, more)) tight),
      )
]
  where
    first_step : (k j n : ℕ) → 2 ^ k < n → (j ≡ suc k) ⊎ (2 ^ j < n * 2) → 2 ^ j < n * 2
    first_step k j n h (inl e) = rw e (omega (arith, pow-suc 2 k))
    first_step k j n h (inr l) = l

-- The slab of a size: its slots hold the size, and it is the first slab, or its slots are less than
-- twice the size.
pub record IsSlabFor (size i : ℕ) : Type 0 where
  pub is_u8 : i ≤ 48
  pub holds : size ≤ 2 ^ (15 + i)
  pub tight : (i ≡ 0) ⊎ (2 ^ (15 + i) < size * 2)

normalized_slab :
    (size i : ℕ)
    → max min_sz (double_until 64 1 size % 2 ^ 64) ≡ 2 ^ (15 + i)
    → i ≤ 48
    → size_to_slab_id size ≡ ok i
unfolding size_to_slab_id
normalized_slab size i e h =
    let shifted : 2 ^ (15 + i) / 2 ^ 15 ≡ 2 ^ i = omega (arith, pow-add 15 i) in
    rw (e, shifted, count_zeros-pow i 64 (omega arith)) (ground arith)

-- A power of a u64 does not wrap.
kept_whole : {n j : ℕ} → n ≡ 2 ^ j → j ≤ 63 → n % 2 ^ 64 ≡ 2 ^ j
kept_whole {n = n} {j = j} e h =
    omega (arith, e, pow-le-pow_right {n = 2} (omega arith) {i = j} {j = 63} h)

size_to_slab_id_cases :
    (size j i : ℕ)
    → double_until 64 1 size ≡ 2 ^ j
    → j ≤ 63
    → size ≤ 2 ^ j
    → (j ≡ 0) ⊎ (2 ^ j < size * 2)
    → ((j ≤ 15) × (i ≡ 0)) ⊎ (15 + i ≡ j)
    → (size_to_slab_id size ≡ ok i) × IsSlabFor size i
size_to_slab_id_cases size j i e hi fits tight (inl (small, first)) =
    let low : 2 ^ j ≤ 2 ^ 15 = pow-le-pow_right {n = 2} (omega arith) {i = j} {j = 15} small in
    rw first (
      normalized_slab size 0 (omega (arith, kept_whole e hi)) (omega arith),
      record { is_u8 = omega arith; holds = omega arith; tight = inl refl },
    )
size_to_slab_id_cases size j i e hi fits tight (inr same) =
    let power : 2 ^ (15 + i) ≡ 2 ^ j = ap (λ (t : ℕ). 2 ^ t) same in
    let low : 2 ^ 15 ≤ 2 ^ j =
      pow-le-pow_right {n = 2} (omega arith) {i = 15} {j = j} (omega arith) in
    (
      normalized_slab size i (omega (arith, kept_whole e hi)) (omega arith),
      record { is_u8 = omega arith; holds = omega arith; tight = larger tight },
    )
  where
    larger : (j ≡ 0) ⊎ (2 ^ j < size * 2) → (i ≡ 0) ⊎ (2 ^ (15 + i) < size * 2)
    larger (inl z) = absurd (omega arith)
    larger (inr l) = inr (omega (arith, ap (λ (t : ℕ). 2 ^ t) same))

exponent_below : (j n : ℕ) → 2 ^ j < 2 ^ n → j < n
exponent_below j n h = elim (Bool-cases (leb n j)) [
  | inl above ↦
      let big : 2 ^ n ≤ 2 ^ j =
        pow-le-pow_right {n = 2} (omega arith) {i = n} {j = j} (ground (arith, above)) in
      absurd (omega arith)
  | inr below ↦ ground (arith, below)
]

split_exponent : (j : ℕ) → (i : ℕ) × (((j ≤ 15) × (i ≡ 0)) ⊎ (15 + i ≡ j))
split_exponent j = elim (Bool-cases (leb j 15)) [
  | inl small ↦ (0, inl (ground (arith, small), refl))
  | inr large ↦ (j - 15, inr (ground (arith, large)))
]

-- Every size up to 2 ^ 63 has a slab: its slots hold the size, and it is the smallest slab or its
-- slots are less than twice the size.
pub size_to_slab_id-IsSlabFor :
    (size : ℕ) → size ≤ 2 ^ 63 → (i : ℕ) × (size_to_slab_id size ≡ ok i) × IsSlabFor size i
size_to_slab_id-IsSlabFor size h =
    let (j, stop, lo, hi, fits, tight) =
      double_until-pow 64 0 64 size (omega arith) (omega arith) in
    let (i, split) = split_exponent j in
    let (e, slab) = size_to_slab_id_cases size j i stop (short j tight) fits tight split in
    (i, e, slab)
  where
    short : (j : ℕ) → (j ≡ 0) ⊎ (2 ^ j < size * 2) → j ≤ 63
    short j (inl z) = omega arith
    short j (inr l) = omega (arith, exponent_below j 64 (omega arith))

-- `reserve` passes its assertion for sizes below 2 ^ 48, and finds a slab among the 32 exactly for
-- sizes up to 2 ^ 46: it panics on the sizes in between.
pub reserve_slab_cases :
    (size : ℕ)
    → (size ≤ 2 ^ 46 → (i : ℕ) × (reserve_slab size ≡ ok i) × (i < 32) × IsSlabFor size i)
      × (2 ^ 46 < size → reserve_slab size ≡ panic)
unfolding reserve_slab
reserve_slab_cases size = (
  λ h.
      let (i, e, slab) = size_to_slab_id-IsSlabFor size (omega arith) in
      let small : i < 32 = narrow i h slab.tight in (i, reserve-ok i h e small, small, slab),
  λ h. too_big h,
)
  where
    narrow : (i : ℕ) → size ≤ 2 ^ 46 → (i ≡ 0) ⊎ (2 ^ (15 + i) < size * 2) → i < 32
    narrow i h (inl z) = omega arith
    narrow i h (inr l) = omega (arith, exponent_below (15 + i) 47 (omega arith))

    large : (i : ℕ) → 2 ^ 46 < size → size ≤ 2 ^ (15 + i) → 32 ≤ i
    large i h holds = omega (arith, exponent_below 46 (15 + i) (omega arith))

    reserve-ok :
        (i : ℕ) → size ≤ 2 ^ 46 → size_to_slab_id size ≡ ok i → i < 32 → reserve_slab size ≡ ok i
    reserve-ok i h e small = ground (arith, e)

    too_big : 2 ^ 46 < size → reserve_slab size ≡ panic
    too_big h = elim (Bool-cases (ltb size (2 ^ 48))) [
      | inl below ↦
          let (i, e, slab) = size_to_slab_id-IsSlabFor size (ground (arith, below)) in
          ground (arith, e, large i h slab.holds)
      | inr above ↦ rw above
    ]

-- A heap id that was composed of a slab and a slot gives these back.
pub decompose-compose :
    (slab_id slab_idx : ℕ) (lsn : ℤ)
    → slab_id < 32
    → slab_idx < 2 ^ 32
    → decompose (compose slab_id slab_idx lsn) ≡ ok (slab_id, slab_idx, lsn)
unfolding decompose compose
decompose-compose slab_id slab_idx lsn hs hi =
    let shift : (32 + slab_id) % 64 ≡ 32 + slab_id = omega arith in
    let location : bit_or (1 * 2 ^ ((32 + slab_id) % 64)) slab_idx
        ≡ 2 ^ slab_id * 2 ^ 32 + slab_idx =
      ap (λ (w : ℕ). bit_or w slab_idx)
        (ap (λ (d : ℕ). 1 * 2 ^ d) shift ∙ omega (arith, pow-add 32 slab_id))
      ∙ bit_or_low 32 (2 ^ slab_id) slab_idx hi in
    let slab : (2 ^ slab_id * 2 ^ 32 + slab_idx) / 2 ^ 32 ≡ 2 ^ slab_id = omega arith in
    rw
      (
        location,
        slab,
        count_zeros-pow slab_id 64 (omega arith),
        bit_and_low 32 (2 ^ slab_id) slab_idx hi,
      )
      (ground arith)
