-- ===== src/Node/Stitch/Edits.antt =====
-- Inserting, replacing and removing give the node whose sorted map is changed so, whichever path
-- `stitch` takes (src/node.rs).
use sled.Prelude.{
  ℕ, zero, suc, ◌+◌, ◌-◌, ◌*◌, ◌/◌, ◌^◌, ◌≤◌, ◌<◌, ◌≡◌, inl, inr, refl, ap, sym, ◌∙◌, arith, true,
  false, none, some, List, [], ◌∷◌, ◌++◌, length, take, drop, get_elem?, get_elem?-get_or, ltb,
  ltb→lt, leb, ◌==◌, Bool-cases,
}
use native.Mathlib.Nat.{div-lt_iff_lt-mul}
use sled.Prelude.Outcome.{ok}
use sled.Prelude.Sorted.{same_key_refl}
use sled.Keys.{Key}
use sled.Keys.Order.{ltb_key-StrictOrder}
use sled.Node.{Item, Node, children, stored_hi, index_values_fit}
use sled.Node.Search.Place.{IsSorted, IsSorted-lt, item_at, index_item_lem, index_key_lem}
use sled.Node.Stitch.{spliced, item_size, activity_sketch_bit, rebuild, check_stitched, copy_around}
use sled.Node.Stitch.Splice.{total_size-append, total_size_at, total_size_around}
use sled.Node.Sizes.{total_size, weight, new-IsNew}

-- A node with other items, and all else that a reader of it sees as before.
pub record Edited (n : Node) (items : List Item) (n' : Node) : Type 0 where
  pub lo_kept : n'.lo ≡ n.lo
  pub hi_kept : n'.hi ≡ n.hi
  pub prefix_kept : n'.prefix_len ≡ n.prefix_len
  pub index_kept : n'.is_index ≡ n.is_index
  pub next_kept : n'.next ≡ n.next
  pub merging_kept : n'.merging ≡ n.merging
  pub child_kept : n'.merging_child ≡ n.merging_child
  pub items_changed : n'.items ≡ items
  pub sized : total_size n' items ≤ n'.len

le→leb : (a b : ℕ) → a ≤ b → leb a b ≡ true
le→leb a b h = ground arith

module _ (n : Node) where
  sketch_bit : (i c : ℕ) → i ≤ c → (b : ℕ) × (activity_sketch_bit i c ≡ ok b)
  unfolding activity_sketch_bit
  sketch_bit i zero h = (7, ground arith)
  sketch_bit i (suc c) h = elim (Bool-cases (i == suc c)) [
    | inl e ↦ rw e (7, refl)
    | inr e ↦ rw (e, seven e) (i * 8 / suc c, refl)
  ]
    where
      seven : (i == suc c) ≡ false → leb (i * 8 / suc c) 7 ≡ true
      seven e =
          let bound : i * 8 / suc c < 8 = (div-lt_iff_lt-mul (omega arith)).1 (ground arith) in
          ground arith

  -- The slow path.
  pub rebuild-Edited :
      (i : ℕ) (items : List Item)
      → n.merging ≡ false
      → n.merging_child ≡ none
      → stored_hi n.hi ≡ n.hi
      → i ≤ children n
      → length items ≤ 65535
      → index_values_fit n.is_index items ≡ true
      → weight items + 8 < 2 ^ 48
      → (n' : Node) × (rebuild n i items ≡ ok n') × Edited n items n'
  unfolding rebuild
  rebuild-Edited i items m c s h l f w =
      let (n', e, made) = new-IsNew n.lo n.hi n.prefix_len n.is_index n.next items l f w in
      let (b, e') = sketch_bit i (children n) h in
      rw e (elim (Bool-cases (ltb 1 (children n'))) [
        | inl t ↦
            rw (t, e')
              (
                _,
                refl,
                record {
                  lo_kept = made.lo_kept;
                  hi_kept = made.hi_kept ∙ s;
                  prefix_kept = made.prefix_kept;
                  index_kept = made.index_kept;
                  next_kept = made.next_kept;
                  merging_kept = made.not_merging ∙ sym m;
                  child_kept = made.no_child ∙ sym c;
                  items_changed = made.items_kept;
                  sized = resized n' _ made.roomy;
                },
              )
        | inr t ↦ rw t (
          n',
          refl,
          record {
            lo_kept = made.lo_kept;
            hi_kept = made.hi_kept ∙ s;
            prefix_kept = made.prefix_kept;
            index_kept = made.index_kept;
            next_kept = made.next_kept;
            merging_kept = made.not_merging ∙ sym m;
            child_kept = made.no_child ∙ sym c;
            items_changed = made.items_kept;
            sized = made.roomy;
          },
        )
      ])
    where
      resized :
          (a : Node) (s : ℕ)
          → total_size a items ≤ a.len
          → total_size (record a { activity_sketch = s }) items ≤ a.len
      resized a s r = unfold item_size in r

at_splice :
    (items rest : List Item) (i : ℕ) (x : Item)
    → i ≤ length items
    → get_elem? (take i items ++ x ∷ rest) i ≡ some x
at_splice items rest zero x h = refl
at_splice [] rest (suc i) x h = absurd (omega arith)
at_splice (y ∷ items) rest (suc i) x h = at_splice items rest i x (omega arith)

after_cut :
    (items : List Item) (i : ℕ)
    → i < length items
    → get_elem? (take i items ++ drop (suc i) items) i ≡ get_elem? items (suc i)
after_cut [] i h = elim h [ ]
after_cut (x ∷ []) zero h = refl
after_cut (x ∷ y ∷ items) zero h = refl
after_cut (x ∷ items) (suc i) h = after_cut items i (omega arith)

length_cut :
    (items : List Item) (i : ℕ)
    → i < length items
    → length (take i items ++ drop (suc i) items) + 1 ≡ length items
length_cut [] i h = elim h [ ]
length_cut (x ∷ items) zero h = omega arith
length_cut (x ∷ items) (suc i) h = omega (arith, length_cut items i (omega arith))

abbrev copied : Node → List Item → ℕ → Node
copied n items l = record n {
  probation_ops_remaining = n.probation_ops_remaining - 1;
  items = items;
  len = l;
}

copied-total_size :
    (n : Node) (items : List Item) (l : ℕ) (xs : List Item)
    → total_size (copied n items l) xs ≡ total_size n xs
unfolding item_size
copied-total_size n items l [] = refl
copied-total_size n items l (x ∷ xs) = omega (arith, copied-total_size n items l xs)

copied-Edited :
    (n : Node) (items : List Item) (l : ℕ)
    → total_size n items ≤ l
    → Edited n items (copied n items l)
copied-Edited n items l h = record {
  lo_kept = refl;
  hi_kept = refl;
  prefix_kept = refl;
  index_kept = refl;
  next_kept = refl;
  merging_kept = refl;
  child_kept = refl;
  items_changed = refl;
  sized = rw (copied-total_size n items l items) h;
}

-- The key after the one that is removed is another key.
check_removed :
    (n ret : Node) (i : ℕ)
    → IsSorted n.items
    → i < children n
    → ret.items ≡ spliced n.items i none true
    → check_stitched n i none ret ≡ ok ret
unfolding check_stitched
check_removed n ret i s h e = elim (Bool-cases (ltb i (children ret))) [
  | inr t ↦ rw t refl
  | inl t ↦
      let inside : suc i < children n =
        omega (arith, ltb→lt i (children ret) t, ap length e, length_cut n.items i h) in
      let next : get_elem? ret.items i ≡ some (item_at n.items (suc i)) =
        ap (λ l. get_elem? l i) e
        ∙ after_cut n.items i h
        ∙ get_elem?-get_or n.items (suc i) ([], []) inside in
      rw (t, index_key_lem n i h, next, IsSorted-lt n.items i (suc i) s (omega arith) inside) refl
]

module _ (n : Node) (sized : total_size n n.items ≤ n.len) where
  -- The fast path, for a new item.
  pub copy_around-insert :
      (i : ℕ) (k v : Key)
      → i ≤ children n
      → (n' : Node) × (copy_around n i (some (k, v)) false ≡ ok n')
        × Edited n (spliced n.items i (some (k, v)) false) n'
  unfolding copy_around check_stitched
  copy_around-insert i k v h =
      rw
        (
          le→leb i (children n) h,
          le→leb 0 (n.len + item_size n (k, v)) (omega arith),
          at_splice n.items (drop i n.items) i (k, v) h,
          same_key_refl ltb_key-StrictOrder k,
          same_key_refl ltb_key-StrictOrder v,
        )
        (
          _,
          refl,
          copied-Edited n (spliced n.items i (some (k, v)) false) (n.len + item_size n (k, v) - 0) (
              omega (
                arith,
                sized,
                total_size-append n (take i n.items) ((k, v) ∷ drop i n.items),
                total_size_around n n.items i,
              )),
        )

  -- The fast path, for another value of an item.
  pub copy_around-replace :
      (i : ℕ) (k v : Key)
      → i < children n
      → (n' : Node) × (copy_around n i (some (k, v)) true ≡ ok n')
        × Edited n (spliced n.items i (some (k, v)) true) n'
  unfolding copy_around check_stitched
  copy_around-replace i k v h =
      rw
        (
          le→leb i (children n) (omega arith),
          index_item_lem n i h,
          le→leb (item_size n (item_at n.items i)) (n.len + item_size n (k, v))
              (omega (arith, sized, total_size_at n n.items i h)),
          at_splice n.items (drop (suc i) n.items) i (k, v) (omega arith),
          same_key_refl ltb_key-StrictOrder k,
          same_key_refl ltb_key-StrictOrder v,
        )
        (
          _,
          refl,
          copied-Edited n (spliced n.items i (some (k, v)) true)
              (n.len + item_size n (k, v) - item_size n (item_at n.items i))
              (omega (
                arith,
                sized,
                total_size-append n (take i n.items) ((k, v) ∷ drop (suc i) n.items),
                total_size_at n n.items i h,
              )),
        )

  -- The fast path, for an item that is removed.
  pub copy_around-remove :
      (i : ℕ)
      → IsSorted n.items
      → i < children n
      → (n' : Node) × (copy_around n i none true ≡ ok n')
        × Edited n (spliced n.items i none true) n'
  unfolding copy_around
  copy_around-remove i s h =
      rw
        (
          le→leb i (children n) (omega arith),
          index_item_lem n i h,
          le→leb (item_size n (item_at n.items i)) (n.len + 0)
              (omega (arith, sized, total_size_at n n.items i h)),
          check_removed n
              (copied n (spliced n.items i none true) (n.len + 0 - item_size n (item_at n.items i)))
              i s h refl,
        )
        (
          _,
          refl,
          copied-Edited n (spliced n.items i none true)
              (n.len + 0 - item_size n (item_at n.items i))
              (omega (
                arith,
                sized,
                total_size-append n (take i n.items) (drop (suc i) n.items),
                total_size_at n n.items i h,
              )),
        )
