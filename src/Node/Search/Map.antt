-- ===== src/Node/Search/Map.antt =====
-- The search of a node looks keys up in the sorted map of its items (src/node.rs).
use sled.Prelude.{
  ℕ, zero, suc, ◌<◌, ◌≡◌, ◌⊎◌, inl, inr, refl, arith, none, some, List, [], ◌∷◌, length,
}
use sled.Prelude.Int.{ℤ}
use sled.Prelude.Outcome.{ok}
use sled.Prelude.Sorted.{get}
use sled.Keys.{Key, ltb_key}
use sled.Keys.Order.{IsMemcmp, ltb_key_irrefl}
use sled.Node.{Item, Node, children}
use sled.Node.Search.{Found, at, before, find}
use sled.Node.Search.Place.{
  IsSorted, IsSorted-lt, IsPlace, item_at, key_at, ltb_key_asym, Located, find-Located,
}

abbrev pub value_at : List Item → ℕ → Key
value_at items i = (item_at items i).1

pub get_at :
    (items : List Item) (i : ℕ)
    → IsSorted items
    → i < length items
    → get ltb_key (key_at items i) items ≡ some (value_at items i)
unfolding get
get_at [] i s h = elim h [ ]
get_at ((j, w) ∷ items) zero s h = rw ltb_key_irrefl refl
get_at ((j, w) ∷ items) (suc i) s h =
    rw
      (
        IsSorted-lt ((j, w) ∷ items) 0 (suc i) s (omega arith) h,
        ltb_key_asym j (key_at items i) (IsSorted-lt ((j, w) ∷ items) 0 (suc i) s (omega arith) h),
      )
      (get_at items i s.1 (omega arith))

pub get_absent :
    (items : List Item) (k : Key) (i : ℕ) → IsPlace items k i → get ltb_key k items ≡ none
unfolding get
get_absent [] k i p = refl
get_absent ((j, w) ∷ items) k zero p = rw (p.above 0 (omega arith) (omega arith)) (
    get_absent items k zero (record {
      bound = omega arith;
      below = λ m h. absurd (omega arith);
      above = λ m h b. p.above (suc m) (omega arith) (omega arith);
    }))
get_absent ((j, w) ∷ items) k (suc i) p =
    rw (p.below 0 (omega arith), ltb_key_asym j k (p.below 0 (omega arith)))
      (get_absent items k i (record {
        bound = omega (arith, p.bound);
        below = λ m h. p.below (suc m) (omega arith);
        above = λ m h b. p.above (suc m) (omega arith) (omega arith);
      }))

module _ (memcmp : Key → Key → ℤ) (libc : IsMemcmp memcmp) (n : Node)
    (sorted : IsSorted n.items) where
  -- The search and the map agree on which keys are there.
  pub find-get :
      (k : Key)
      → (i : ℕ) × (((find memcmp n k ≡ ok (at i))
            × (i < children n)
            × (key_at n.items i ≡ k)
            × (get ltb_key k n.items ≡ some (value_at n.items i)))
          ⊎ ((find memcmp n k ≡ ok (before i))
              × IsPlace n.items k i
              × (get ltb_key k n.items ≡ none)))
  find-get k = let (r, e, l) = find-Located memcmp libc n sorted k in told r e l
    where
      told :
          (r : Found)
          → find memcmp n k ≡ ok r
          → Located memcmp libc n sorted k r
          → (i : ℕ) × (((find memcmp n k ≡ ok (at i))
                × (i < children n)
                × (key_at n.items i ≡ k)
                × (get ltb_key k n.items ≡ some (value_at n.items i)))
              ⊎ ((find memcmp n k ≡ ok (before i))
                  × IsPlace n.items k i
                  × (get ltb_key k n.items ≡ none)))
      told (at i) e l = (i, inl (e, l.0, l.1, rw (← l.1) (get_at n.items i sorted l.0)))
      told (before i) e l = (i, inr (e, l, get_absent n.items k i l))
