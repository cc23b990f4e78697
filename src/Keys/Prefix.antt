-- ===== src/Keys/Prefix.antt =====
-- Byte strings that begin alike.
use sled.Prelude.{ℕ, zero, suc, ◌≤◌, ◌≡◌, refl, arith, false, [], ◌∷◌, ◌++◌, length, take}
use sled.Keys.{Key, ltb_key}

-- A common beginning does not change the order.
pub ltb_key-append : (p a b : Key) → ltb_key (p ++ a) (p ++ b) ≡ ltb_key a b
unfolding ltb_key
ltb_key-append [] a b = refl
ltb_key-append (x ∷ p) a b = ground (arith, ltb_key-append p a b)

-- What lies between two strings that begin alike begins as they do.
pub take-between :
    (n : ℕ) (lo k hi : Key)
    → n ≤ length lo
    → take n hi ≡ take n lo
    → ltb_key k lo ≡ false
    → ltb_key hi k ≡ false
    → take n k ≡ take n lo
unfolding ltb_key
take-between zero lo k hi h e above below = refl
take-between (suc n) [] k hi h e above below = absurd (omega arith)
take-between (suc n) (x ∷ lo) [] hi h e above below = cc
take-between (suc n) (x ∷ lo) (y ∷ k) [] h e above below = cc
take-between (suc n) (x ∷ lo) (y ∷ k) (z ∷ hi) h e above below =
    ground (arith, take-between n lo k hi)
