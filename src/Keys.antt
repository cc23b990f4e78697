-- ===== src/Keys.antt =====
-- Byte strings and their order (src/fastcmp.rs). `memcmp` of libc is a parameter.
pub mod Order
pub mod Prefix
pub mod Memcmp
use sled.Prelude.{ℕ, min, Bool, true, false, List, [], ◌∷◌, length, take, ltb, if◌then◌else◌, not}
use sled.Prelude.Int.{ℤ, pos, ltb_ℤ}

abbrev pub Key : Type 0
Key = List ℕ

pub data Ordering : Type 0 where
  less equal greater : Ordering

-- `usize::cmp`
abbrev pub cmp_ℕ : ℕ → ℕ → Ordering
cmp_ℕ a b = if ltb a b then less else if ltb b a then greater else equal

-- `l.cmp(r)` on slices of bytes
unfoldable pub cmp : Key → Key → Ordering
cmp [] [] = equal
cmp [] (y ∷ r) = less
cmp (x ∷ l) [] = greater
cmp (x ∷ l) (y ∷ r) =
    let rest = cmp l r in if ltb x y then less else if ltb y x then greater else rest

-- `memcmp` over the bytes that both have, then the lengths.
unfoldable pub fastcmp : (Key → Key → ℤ) → Key → Key → Ordering
fastcmp memcmp l r =
    let len = min (length l) (length r) in
    let order = memcmp (take len l) (take len r) in
    if ltb_ℤ (pos 0) order
    then greater
    else if ltb_ℤ order (pos 0)
    then less
    else cmp_ℕ (length l) (length r)

-- `l < r` and `l <= r` on slices
unfoldable pub ltb_key : Key → Key → Bool
ltb_key l [] = false
ltb_key [] (y ∷ r) = true
ltb_key (x ∷ l) (y ∷ r) =
    let rest = ltb_key l r in if ltb x y then true else if ltb y x then false else rest

abbrev pub leb_key : Key → Key → Bool
leb_key l r = not (ltb_key r l)
