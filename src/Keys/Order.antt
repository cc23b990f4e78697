-- ===== src/Keys/Order.antt =====
-- The order of byte strings (src/fastcmp.rs).
use sled.Prelude.{ℕ, ◌≡◌, refl, ap, ◌∙◌, arith, true, false, [], ◌∷◌, length, if◌then◌else◌}
use sled.Prelude.Int.{ℤ, pos, ltb_ℤ}
use sled.Prelude.Sorted.{StrictOrder}
use sled.Keys.{Key, less, equal, greater, cmp, ltb_key}

pub cmp_lem :
    (l r : Key) → cmp l r ≡ (if ltb_key l r then less else if ltb_key r l then greater else equal)
unfolding cmp ltb_key
cmp_lem [] [] = refl
cmp_lem [] (y ∷ r) = refl
cmp_lem (x ∷ l) [] = refl
cmp_lem (x ∷ l) (y ∷ r) = ground (arith, cmp_lem l r)

pub ltb_key_irrefl : (a : Key) → ltb_key a a ≡ false
unfolding ltb_key
ltb_key_irrefl [] = refl
ltb_key_irrefl (x ∷ a) = ground (arith, ltb_key_irrefl a)

pub ltb_key_trans : (a b c : Key) → ltb_key a b ≡ true → ltb_key b c ≡ true → ltb_key a c ≡ true
unfolding ltb_key
ltb_key_trans a b [] p q = cc
ltb_key_trans a [] (z ∷ c) p q = cc
ltb_key_trans [] (y ∷ b) (z ∷ c) p q = refl
ltb_key_trans (x ∷ a) (y ∷ b) (z ∷ c) p q = ground (arith, ltb_key_trans a b c)

pub ltb_key_total : (a b : Key) → ltb_key a b ≡ false → ltb_key b a ≡ false → a ≡ b
unfolding ltb_key
ltb_key_total [] [] p q = refl
ltb_key_total [] (y ∷ b) p q = cc
ltb_key_total (x ∷ a) [] p q = cc
ltb_key_total (x ∷ a) (y ∷ b) p q =
    let (first, rest) = heads in
    ap (λ l. x ∷ l) (ltb_key_total a b rest.0 rest.1) ∙ ap (λ (n : ℕ). n ∷ b) first
  where
    heads : (x ≡ y) × ((ltb_key a b ≡ false) × (ltb_key b a ≡ false))
    heads = ground arith

pub ltb_key-StrictOrder : StrictOrder ltb_key
ltb_key-StrictOrder = record {
  irrefl = ltb_key_irrefl;
  trans = ltb_key_trans;
  total = ltb_key_total;
}

-- What libc documents of `memcmp` on as many bytes of both arguments: the sign of the result is the
-- order of the first bytes that differ, read as unsigned numbers.
pub record IsMemcmp (memcmp : Key → Key → ℤ) : Type 0 where
  pub zero : (a b : Key) → a ≡ b → memcmp a b ≡ pos 0
  pub below :
      (a b : Key) → length a ≡ length b → ltb_key a b ≡ true → ltb_ℤ (memcmp a b) (pos 0) ≡ true
  pub above :
      (a b : Key) → length a ≡ length b → ltb_key b a ≡ true → ltb_ℤ (pos 0) (memcmp a b) ≡ true
