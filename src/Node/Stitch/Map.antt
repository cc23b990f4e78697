-- ===== src/Node/Stitch/Map.antt =====
-- `insert`, `replace` and `remove_index` of src/node.rs change the sorted map of the items, and keep
-- what holds of every node.
use sled.Prelude.{
  ℕ, zero, suc, ◌+◌, ◌^◌, ◌≤◌, ◌<◌, ◌≡◌, inl, inr, refl, ap, sym, subst, ◌∙◌, arith, Bool, true,
  false, not, Option, none, some, List, [], ◌∷◌, set, length, length-set, leb, lt→ltb, ◌==◌, All,
  if◌then◌else◌,
}
use sled.Prelude.Int.{ℤ}
use sled.Prelude.Outcome.{Outcome, ok, ◌>>=◌, ◌>>◌, assert}
use sled.Prelude.Sorted.{insert, remove, get}
use sled.Varint.{size}
use sled.Varint.Encode.{size_bounds}
use sled.Keys.{Key, ltb_key}
use sled.Keys.Order.{IsMemcmp}
use sled.Node.{Item, Node, children, stored_hi, index_values_fit, index_item, is_none}
use sled.Node.Search.Place.{key_at, item_at, index_item_lem}
use sled.Node.Search.Map.{find-get, value_at}
use sled.Node.Stitch.{
  spliced, item_size, stitch, take_slow_path, rebuild, copy_around, stitched_children, remove_index,
  replace,
}
use sled.Node.Stitch as Stitch
use sled.Node.Stitch.Splice.{
  splice-insert, splice-replace, splice-remove, set-insert, weight-insert,
}
use sled.Node.Stitch.Edits.{
  Edited, rebuild-Edited, copy_around-insert, copy_around-replace, copy_around-remove,
}
use sled.Node.Sizes.{total_size, weight, bytes_per_offset_small}
use sled.Node.Invariant.{
  IsBounds, IsIndex, IsContent, IsNode, InRange, insert-IsContent, remove-IsContent, length-insert,
  Removable,
}

-- The buffer of the node with one more item stays below the 2^48 bytes that offsets can address.
abbrev pub HasRoom : Node → Key → Key → Type 0
HasRoom n k v =
    (n.len + length k + length v + 24 < 2 ^ 48)
    × (weight n.items + length k + length v + 32 < 2 ^ 48)

pub IsBounds-stored_hi : (p : ℕ) (lo : Key) (hi : Option Key) → IsBounds p lo hi → stored_hi hi ≡ hi
unfolding stored_hi ltb_key
IsBounds-stored_hi p lo none h = refl
IsBounds-stored_hi p lo (some []) h = cc
IsBounds-stored_hi p lo (some (b ∷ hi)) h = refl

pub IsIndex-fit :
    (p : ℕ) (lo : Key) (ix : Bool) (items : List Item)
    → IsIndex p lo ix items
    → index_values_fit ix items ≡ true
unfolding index_values_fit
IsIndex-fit p lo false items h = refl
IsIndex-fit p lo true [] h = refl
IsIndex-fit p lo true ((k, v) ∷ items) h = let e : length v ≡ 8 = h.1.0 in ground arith

le→leb : (a b : ℕ) → a ≤ b → leb a b ≡ true
le→leb a b h = ground arith

either :
    (t : Bool) (x y : Outcome Node) (Q : Node → Type 0)
    → (t ≡ true → (n' : Node) × (x ≡ ok n') × Q n')
    → ((n' : Node) × (y ≡ ok n') × Q n')
    → (n' : Node) × ((if t then x else y) ≡ ok n') × Q n'
either true x y Q a b = a refl
either false x y Q a b = b

pub Edited-IsNode :
    (n n' : Node) (items : List Item)
    → Edited n items n'
    → IsContent n.prefix_len n.lo n.hi n.is_index items
    → IsNode n'
Edited-IsNode n n' items e h = (
  rw (e.prefix_kept, e.lo_kept, e.hi_kept, e.index_kept, e.items_changed) h,
  subst (λ l. total_size n' l ≤ n'.len) (sym e.items_changed) e.sized,
)

module _ (n : Node) (i : ℕ) (k v : Key) (room : HasRoom n k v) where
  -- Whichever path is taken, there is a result.
  stitch_paths :
      (r : Bool) (items : List Item) (c : ℕ)
      → stitched_children (children n) (some (k, v)) r ≡ ok c
      → ((n' : Node) × (rebuild n i (spliced n.items i (some (k, v)) r) ≡ ok n')
          × Edited n items n')
      → ((n' : Node) × (copy_around n i (some (k, v)) r ≡ ok n') × Edited n items n')
      → (n' : Node) × (stitch n i (some (k, v)) r ≡ ok n') × Edited n items n'
  unfolding stitch take_slow_path
  stitch_paths r items c e slow fast =
      let (b, g, small) =
        bytes_per_offset_small (n.len + size (length k) + length k + size (length v) + length v + 6)
          bound in
      rw (e, g) (either _ _ _ (Edited n items) (λ t. slow) fast)
    where
      bound : n.len + size (length k) + length k + size (length v) + length v + 6 < 2 ^ 48
      bound = omega (arith, room.0, (size_bounds (length k)).1, (size_bounds (length v)).1)

-- What an edit of a node gives: the node with the changed map, which is again a node.
abbrev pub Becomes : Node → List Item → Node → Type 0
Becomes n items n' = Edited n items n' × IsNode n'

put :
    (n : Node) (items : List Item)
    → total_size n items ≤ n.len
    → Edited n items (record n { items = items })
put n items h = record {
  lo_kept = refl;
  hi_kept = refl;
  prefix_kept = refl;
  index_kept = refl;
  next_kept = refl;
  merging_kept = refl;
  child_kept = refl;
  items_changed = refl;
  sized = omega (arith, h, same items);
}
  where
    same : (xs : List Item) → total_size (record n { items = items }) xs ≡ total_size n xs
    same [] = refl
    same (x ∷ xs) = omega (arith, same xs, one x)
      where
        one : (x : Item) → item_size (record n { items = items }) x ≡ item_size n x
        one x = unfold item_size in refl

total_size-set :
    (n : Node) (items : List Item) (i : ℕ) (v : Key)
    → length (value_at items i) ≡ length v
    → total_size n (set items i (key_at items i, v)) ≡ total_size n items
unfolding item_size
total_size-set n [] i v h = refl
total_size-set n ((k, w) ∷ items) zero v h = rw h refl
total_size-set n ((k, w) ∷ items) (suc i) v h = omega (arith, total_size-set n items i v h)

All_at :
    (P : Item → Type 0) (items : List Item) (i : ℕ)
    → All P items
    → i < length items
    → P (item_at items i)
All_at P [] i a h = elim h [ ]
All_at P (x ∷ items) zero a h = a.0
All_at P (x ∷ items) (suc i) a h = All_at P items i a.1 (omega arith)

==→eq : (a b : ℕ) → (a == b) ≡ true → a ≡ b
==→eq a b h = ground arith

bind_ok : {A : Type 0} (o : Outcome A) (x : A) (f : A → Outcome Node) → o ≡ ok x → (o >>= f) ≡ f x
bind_ok o x f h = rw h refl

-- The checks that `insert` and `replace` begin with.
guarded :
    (m : Bool) (c : Option ℕ) (x : Outcome Node)
    → m ≡ false
    → c ≡ none
    → (assert (not m) >> (assert (is_none c) >> x)) ≡ x
guarded m c x h e = rw (h, e) refl

module _ (n : Node) (is_node : IsNode n) (idle : n.merging ≡ false)
    (alone : n.merging_child ≡ none) where
  rebuilt :
      (i : ℕ) (k v : Key) (items : List Item)
      → HasRoom n k v
      → i ≤ children n
      → items ≡ insert ltb_key k v n.items
      → IsContent n.prefix_len n.lo n.hi n.is_index items
      → (n' : Node) × (rebuild n i items ≡ ok n') × Edited n items n'
  rebuilt i k v items room h e content =
      rebuild-Edited n i items idle alone (IsBounds-stored_hi n.prefix_len n.lo n.hi content.bounds)
        h content.counted (IsIndex-fit n.prefix_len n.lo n.is_index items content.indexed)
        (omega (arith, room.1, weight-insert k v n.items, ap weight e))

  pub insert-Becomes :
      (memcmp : Key → Key → ℤ) (libc : IsMemcmp memcmp) (k v : Key)
      → get ltb_key k n.items ≡ none
      → length n.items + 1 ≤ 65535
      → HasRoom n k v
      → InRange n.prefix_len n.lo n.hi k
      → (n.is_index ≡ true → length v ≡ 8)
      → (n' : Node) × (Stitch.insert memcmp n k v ≡ ok n')
        × Becomes n (insert ltb_key k v n.items) n'
  unfolding Stitch.insert
  insert-Becomes memcmp libc k v absent counted room range pid =
      let (i, found) = find-get memcmp libc n is_node.0.sorted k in
      elim found [
        | inl f ↦ absurd (none_some (sym absent ∙ f.3))
        | inr f ↦
            let same = splice-insert n.items k v i f.1 in
            let content : IsContent n.prefix_len n.lo n.hi n.is_index (insert ltb_key k v n.items) =
              insert-IsContent n.prefix_len n.lo n.hi n.is_index k v n.items
                (omega (arith, length-insert k v n.items, counted)) range pid is_node.0 in
            let (n', e, edited) =
              stitch_paths n i k v room false (insert ltb_key k v n.items) (length n.items + 1)
                (fits counted)
                (rw same (rebuilt i k v (insert ltb_key k v n.items) room (f.1.bound) refl content))
                (subst
                  (λ l. (n' : Node) × (copy_around n i (some (k, v)) false ≡ ok n') × Edited n l n')
                  same (copy_around-insert n is_node.1 i k v f.1.bound)) in
            (
              n',
              guarded n.merging n.merging_child _ idle alone ∙ rw f.0 e,
              (edited, Edited-IsNode n n' (insert ltb_key k v n.items) edited content),
            )
      ]
    where
      none_some : {A : Type 0} {a : A} → none ≡ some a → ⊥
      none_some h = cc

      fits :
          length n.items + 1 ≤ 65535
          → stitched_children (children n) (some (k, v)) false ≡ ok (length n.items + 1)
      fits h = unfold stitched_children in ground arith

  pub replace-Becomes :
      (i : ℕ) (v : Key)
      → i < children n
      → HasRoom n (key_at n.items i) v
      → (n.is_index ≡ true → length v ≡ 8)
      → (n' : Node) × (replace n i v ≡ ok n')
        × Becomes n (insert ltb_key (key_at n.items i) v n.items) n'
  unfolding replace
  replace-Becomes i v h room pid =
      let (n', e, edited) =
        either (length (value_at n.items i) == length v) _ _ (Edited n (insert ltb_key k v n.items))
          in_place
          (stitch_paths n i k v room true (insert ltb_key k v n.items) (children n)
            (unfold stitched_children in refl)
            (rw same (rebuilt i k v (insert ltb_key k v n.items) room (omega arith) refl content))
            (subst (λ l. (n' : Node) × (copy_around n i (some (k, v)) true ≡ ok n') × Edited n l n')
              same (copy_around-replace n is_node.1 i k v h))) in
      (
        n',
        guarded n.merging n.merging_child _ idle alone
            ∙ bind_ok (index_item n i) (item_at n.items i) _ (index_item_lem n i h)
            ∙ e,
        (edited, Edited-IsNode n n' (insert ltb_key k v n.items) edited content),
      )
    where
      k : Key
      k = key_at n.items i

      same : spliced n.items i (some (k, v)) true ≡ insert ltb_key k v n.items
      same = splice-replace n.items v i is_node.0.sorted h

      content : IsContent n.prefix_len n.lo n.hi n.is_index (insert ltb_key k v n.items)
      content =
          insert-IsContent n.prefix_len n.lo n.hi n.is_index k v n.items
            (subst (λ l. length l ≤ 65535) (set-insert n.items v i is_node.0.sorted h)
              (omega (arith, length-set n.items i (k, v), is_node.0.counted)))
            (All_at (λ j. InRange n.prefix_len n.lo n.hi j.0) n.items i is_node.0.ranged h) pid
            is_node.0

      in_place :
          (length (value_at n.items i) == length v) ≡ true
          → (n' : Node) × (ok (record n { items = set n.items i (k, v) }) ≡ ok n')
            × Edited n (insert ltb_key k v n.items) n'
      in_place t = (
        record n { items = set n.items i (k, v) },
        refl,
        subst (λ l. Edited n l (record n { items = set n.items i (k, v) }))
            (set-insert n.items v i is_node.0.sorted h)
            (put n (set n.items i (k, v))
              (omega (arith, is_node.1, total_size-set n n.items i v (==→eq _ _ t)))),
      )

module _ (n : Node) (is_node : IsNode n) where
  pub remove-Becomes :
      (i : ℕ)
      → i < children n
      → Removable n.is_index (key_at n.items i) n.items
      → (n' : Node) × (remove_index n i ≡ ok n')
        × Becomes n (remove ltb_key (key_at n.items i) n.items) n'
  unfolding remove_index
  remove-Becomes i h r =
      let (n', e, edited) = copy_around-remove n is_node.1 i is_node.0.sorted h in
      let edited' : Edited n (remove ltb_key (key_at n.items i) n.items) n' =
        subst (λ l. Edited n l n') (splice-remove n.items i is_node.0.sorted h) edited in
      rw (lt→ltb i (children n) h) (
        n',
        (unfold stitch stitched_children take_slow_path in
            rw (le→leb 1 (children n) (omega arith)) e),
        (
          edited',
          Edited-IsNode n n' (remove ltb_key (key_at n.items i) n.items) edited' (
              remove-IsContent n.prefix_len n.lo n.hi n.is_index (key_at n.items i) n.items r
                is_node.0),
        ),
      )
