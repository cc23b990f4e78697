-- ===== src/Node/Stitch/Splice.antt =====
-- A splice at the place of a key is the change of a sorted map (src/node.rs).
use sled.Prelude.{
  ℕ, zero, suc, ◌+◌, ◌≤◌, ◌<◌, ◌≡◌, refl, ap, arith, true, false, none, some, List, [], ◌∷◌, ◌++◌,
  map, length, take, drop, set, All,
}
use sled.Prelude.Sorted.{insert, remove}
use sled.Keys.{Key, ltb_key}
use sled.Keys.Order.{ltb_key_irrefl}
use sled.Node.{Item, Node}
use sled.Node.Search.Place.{IsSorted, IsSorted-lt, IsPlace, key_of, key_at, item_at, ltb_key_asym}
use sled.Node.Stitch.{spliced, item_size}
use sled.Node.Sizes.{total_size, weight}

abbrev Above : Key → Key → Type 0
Above k j = ltb_key k j ≡ true

pub splice-insert :
    (items : List Item) (k v : Key) (i : ℕ)
    → IsPlace items k i
    → spliced items i (some (k, v)) false ≡ insert ltb_key k v items
unfolding insert
splice-insert [] k v zero p = refl
splice-insert [] k v (suc i) p = absurd (omega (arith, p.bound))
splice-insert ((j, w) ∷ items) k v zero p = rw (p.above 0 (omega arith) (omega arith)) refl
splice-insert ((j, w) ∷ items) k v (suc i) p =
    rw (ltb_key_asym j k (p.below 0 (omega arith)), p.below 0 (omega arith))
      (ap (λ l. (j, w) ∷ l)
        (splice-insert items k v i (record {
          bound = omega (arith, p.bound);
          below = λ m h. p.below (suc m) (omega arith);
          above = λ m h b. p.above (suc m) (omega arith) (omega arith);
        })))

pub splice-replace :
    (items : List Item) (v : Key) (i : ℕ)
    → IsSorted items
    → i < length items
    → spliced items i (some (key_at items i, v)) true ≡ insert ltb_key (key_at items i) v items
unfolding insert
splice-replace [] v i s h = elim h [ ]
splice-replace ((j, w) ∷ items) v zero s h = rw ltb_key_irrefl refl
splice-replace ((j, w) ∷ items) v (suc i) s h =
    let after = IsSorted-lt ((j, w) ∷ items) 0 (suc i) s (omega arith) h in
    rw (ltb_key_asym j (key_at items i) after, after)
      (ap (λ l. (j, w) ∷ l) (splice-replace items v i s.1 (omega arith)))

pub set-insert :
    (items : List Item) (v : Key) (i : ℕ)
    → IsSorted items
    → i < length items
    → set items i (key_at items i, v) ≡ insert ltb_key (key_at items i) v items
unfolding insert
set-insert [] v i s h = elim h [ ]
set-insert ((j, w) ∷ items) v zero s h = rw ltb_key_irrefl refl
set-insert ((j, w) ∷ items) v (suc i) s h =
    let after = IsSorted-lt ((j, w) ∷ items) 0 (suc i) s (omega arith) h in
    rw (ltb_key_asym j (key_at items i) after, after)
      (ap (λ l. (j, w) ∷ l) (set-insert items v i s.1 (omega arith)))

remove_below :
    (k : Key) (items : List Item)
    → All (Above k) (map key_of items)
    → remove ltb_key k items ≡ items
unfolding remove
remove_below k [] h = refl
remove_below k ((j, w) ∷ items) h = rw (h.0, remove_below k items h.1) refl

pub splice-remove :
    (items : List Item) (i : ℕ)
    → IsSorted items
    → i < length items
    → spliced items i none true ≡ remove ltb_key (key_at items i) items
unfolding remove
splice-remove [] i s h = elim h [ ]
splice-remove ((j, w) ∷ items) zero s h = rw (ltb_key_irrefl, remove_below j items s.0) refl
splice-remove ((j, w) ∷ items) (suc i) s h =
    let after = IsSorted-lt ((j, w) ∷ items) 0 (suc i) s (omega arith) h in
    rw (ltb_key_asym j (key_at items i) after, after)
      (ap (λ l. (j, w) ∷ l) (splice-remove items i s.1 (omega arith)))

-- What the items take, and their weight, after a splice.
pub total_size-append :
    (n : Node) (a b : List Item) → total_size n (a ++ b) ≡ total_size n a + total_size n b
total_size-append n [] b = omega arith
total_size-append n (i ∷ a) b = omega (arith, total_size-append n a b)

pub total_size_at :
    (n : Node) (items : List Item) (i : ℕ)
    → i < length items
    → total_size n items
      ≡ total_size n (take i items)
        + item_size n (item_at items i)
        + total_size n (drop (suc i) items)
total_size_at n [] i h = elim h [ ]
total_size_at n (x ∷ items) zero h = omega arith
total_size_at n (x ∷ items) (suc i) h = omega (arith, total_size_at n items i (omega arith))

pub total_size_around :
    (n : Node) (items : List Item) (i : ℕ)
    → total_size n items ≡ total_size n (take i items) + total_size n (drop i items)
total_size_around n items zero = omega arith
total_size_around n [] (suc i) = omega arith
total_size_around n (x ∷ items) (suc i) = omega (arith, total_size_around n items i)

pub weight-insert :
    (k v : Key) (items : List Item)
    → weight (insert ltb_key k v items) ≤ weight items + (length k + length v + 24)
unfolding insert
weight-insert k v [] = omega arith
weight-insert k v ((j, w) ∷ items) = ground (arith, weight-insert k v items)
