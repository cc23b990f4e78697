-- ===== src/Keys/Memcmp.antt =====
-- `fastcmp` of src/fastcmp.rs against the order of slices, by what libc promises of `memcmp`.
use sled.Prelude.{
  ℕ, zero, suc, min, ◌≡◌, inl, inr, refl, sym, ◌∙◌, arith, [], ◌∷◌, length, length-take, take,
  if◌then◌else◌, Bool-cases,
}
use sled.Prelude.Int.{ℤ, pos, ltb_ℤ}
use sled.Keys.{Key, Ordering, less, greater, cmp_ℕ, cmp, fastcmp, ltb_key}
use sled.Keys.Order.{IsMemcmp, ltb_key_total}

-- The order is decided by the bytes that both have, then by the lengths.
cmp_by_front :
    (n : ℕ) (l r : Key)
    → n ≡ min (length l) (length r)
    → cmp l r ≡ (
        if ltb_key (take n l) (take n r)
        then less
        else if ltb_key (take n r) (take n l)
        then greater
        else cmp_ℕ (length l) (length r))
unfolding cmp ltb_key
cmp_by_front zero [] [] h = refl
cmp_by_front zero [] (y ∷ r) h = ground arith
cmp_by_front zero (x ∷ l) [] h = ground arith
cmp_by_front zero (x ∷ l) (y ∷ r) h = absurd (omega arith)
cmp_by_front (suc n) [] r h = absurd (omega arith)
cmp_by_front (suc n) (x ∷ l) [] h = absurd (omega arith)
cmp_by_front (suc n) (x ∷ l) (y ∷ r) h = ground (arith, cmp_by_front n l r (omega arith))

module _ (memcmp : Key → Key → ℤ) (libc : IsMemcmp memcmp) where
  sign :
      (a b : Key) (e : Ordering)
      → length a ≡ length b
      → (if ltb_ℤ (pos 0) (memcmp a b)
          then greater
          else if ltb_ℤ (memcmp a b) (pos 0)
          then less
          else e)
        ≡ (if ltb_key a b then less else if ltb_key b a then greater else e)
  sign a b e h = elim (Bool-cases (ltb_key a b)) [
    | inl below ↦ ground (arith, libc.below a b h below)
    | inr nb ↦ elim (Bool-cases (ltb_key b a)) [
      | inl above ↦ ground (arith, libc.above a b h above)
      | inr na ↦ ground (arith, libc.zero a b (ltb_key_total a b nb na))
    ]
  ]

  -- Where memcmp keeps the promises of libc, fastcmp orders two keys as slices of bytes are ordered.
  pub fastcmp-cmp : (l r : Key) → fastcmp memcmp l r ≡ cmp l r
  unfolding fastcmp
  fastcmp-cmp l r =
      let n = min (length l) (length r) in
      sign (take n l) (take n r) (cmp_ℕ (length l) (length r))
        (omega (arith, length-take n l, length-take n r))
      ∙ sym (cmp_by_front n l r refl)
