-- ===== src/Node/Search/Pairs.antt =====
-- `node_kv_pair` and `index_next_node` of src/node.rs, on the full keys.
use sled.Prelude.{
  ℕ, zero, suc, ◌≤◌, ◌<◌, ◌≡◌, inl, inr, refl, ap, sym, ◌∙◌, arith, Bool, true, false, Option, none,
  some, List, [], ◌∷◌, ◌++◌, length, take, drop, take-append-drop, length-take, All, leb, min,
}
use sled.Prelude.Int.{ℤ}
use sled.Prelude.Outcome.{Outcome, ok, ◌>>◌, assert}
use sled.Prelude.Bytes.{from_le_bytes}
use sled.Prelude.Sorted.{get}
use sled.Keys.{Key, ltb_key, leb_key}
use sled.Keys.Order.{IsMemcmp, ltb_key_irrefl}
use sled.Keys.Prefix.{ltb_key-append, take-between}
use sled.Node.{Item, Node, children, index_pid, pid_of_bytes}
use sled.Node.Search.{
  Found, at, before, below_hi, find, node_kv_pair, index_next_node, index_before,
}
use sled.Node.Search.Place.{IsSorted-lt, IsPlace, key_at, index_item_lem, ltb_key_asym}
use sled.Node.Search.Map.{value_at, find-get}
use sled.Node.Invariant.{full_key, IsBounds, IsNode, IsIndex}

-- The map of the node, with the full keys.
abbrev pub entries : ℕ → Key → List Item → List Item
entries prefix_len lo [] = []
entries prefix_len lo ((k, v) ∷ items) = (full_key prefix_len lo k, v) ∷ entries prefix_len lo items

pub get-entries :
    (prefix_len : ℕ) (lo k : Key) (items : List Item)
    → get ltb_key (full_key prefix_len lo k) (entries prefix_len lo items) ≡ get ltb_key k items
unfolding get
get-entries p lo k [] = refl
get-entries p lo k ((j, w) ∷ items) =
    rw (ltb_key-append (take p lo) k j, ltb_key-append (take p lo) j k, get-entries p lo k items)
      refl

-- A key between the bounds of a node begins with its prefix.
pub prefix_of_bounds :
    (prefix_len : ℕ) (lo key : Key) (hi : Option Key)
    → prefix_len ≤ length lo
    → IsBounds prefix_len lo hi
    → leb_key lo key ≡ true
    → below_hi key hi ≡ true
    → take prefix_len key ≡ take prefix_len lo
prefix_of_bounds p lo key none h b l g = rw b refl
prefix_of_bounds p lo key (some hi) h b l g =
    take-between p lo key hi h b.0 (ground arith) (ltb_key_asym key hi g)

abbrev Between : Key → Node → Type 0
Between key n = (leb_key n.lo key ≡ true) × (below_hi key n.hi ≡ true)

module _ (n : Node) (is_node : IsNode n) (key : Key) (inside : Between key n) where
  same_prefix : take n.prefix_len key ≡ take n.prefix_len n.lo
  same_prefix =
      prefix_of_bounds n.prefix_len n.lo key n.hi is_node.0.prefixed.0 is_node.0.bounds inside.0
        inside.1

  pub whole : full_key n.prefix_len n.lo (drop n.prefix_len key) ≡ key
  whole = ap (λ p. p ++ drop n.prefix_len key) (sym same_prefix) ∙ take-append-drop n.prefix_len key

  pub long : leb n.prefix_len (length key) ≡ true
  long =
      let e : min n.prefix_len (length key) ≡ min n.prefix_len (length n.lo) =
        sym (length-take n.prefix_len key)
        ∙ ap length same_prefix
        ∙ length-take n.prefix_len n.lo in
      le→leb n.prefix_len (length key) (omega (arith, e, is_node.0.prefixed.0))
    where
      le→leb : (a b : ℕ) → a ≤ b → leb a b ≡ true
      le→leb a b h = ground arith

  lookup :
      get ltb_key key (entries n.prefix_len n.lo n.items)
      ≡ get ltb_key (drop n.prefix_len key) n.items
  lookup =
      ap (λ k. get ltb_key k (entries n.prefix_len n.lo n.items)) (sym whole)
      ∙ get-entries n.prefix_len n.lo (drop n.prefix_len key) n.items

  -- For a sound node, and a key between its bounds, node_kv_pair answers the key behind the prefix,
  -- and the value under the whole key in the map of the node, if there is one.
  pub node_kv_pair-get :
      (memcmp : Key → Key → ℤ) (libc : IsMemcmp memcmp)
      → (i : ℕ) × (node_kv_pair memcmp n key
          ≡ ok (drop n.prefix_len key, get ltb_key key (entries n.prefix_len n.lo n.items), i))
  unfolding node_kv_pair
  node_kv_pair-get memcmp libc =
      let (i, found) = find-get memcmp libc n is_node.0.sorted (drop n.prefix_len key) in
      (
        i,
        rw (inside.0, inside.1, long, lookup)
            (elim found [
              | inl f ↦ rw (f.0, index_item_lem n i f.1, f.2, f.3) refl
              | inr f ↦ rw (f.0, f.2) refl
            ]),
      )

  -- The child that an index leads to.
  abbrev pub LeadsTo : ℕ → ℕ → Type 0
  LeadsTo i pid =
      (i < children n)
      × (from_le_bytes (value_at n.items i) ≡ pid)
      × (ltb_key key (full_key n.prefix_len n.lo (key_at n.items i)) ≡ false)
      × ((j : ℕ)
          → i < j
          → j < children n
          → ltb_key key (full_key n.prefix_len n.lo (key_at n.items j)) ≡ true)

  above_full :
      (k : Key) → ltb_key key (full_key n.prefix_len n.lo k) ≡ ltb_key (drop n.prefix_len key) k
  above_full k =
      ap (λ a. ltb_key a (full_key n.prefix_len n.lo k)) (sym whole)
      ∙ ltb_key-append (take n.prefix_len n.lo) (drop n.prefix_len key) k

  pid_at :
      n.is_index ≡ true
      → (i : ℕ) → i < children n
      → index_pid n i ≡ ok (from_le_bytes (value_at n.items i))
  unfolding index_pid
  pid_at index i h =
      rw (index, index_item_lem n i h)
        (read n.prefix_len n.lo n.is_index n.items i index is_node.0.indexed h)
    where
      eight :
          (items : List Item) (i : ℕ)
          → All (λ j. length j.1 ≡ 8) items
          → i < length items
          → length (value_at items i) ≡ 8
      eight [] i a h = elim h [ ]
      eight (x ∷ items) zero a h = a.0
      eight (x ∷ items) (suc i) a h = eight items i a.1 (omega arith)

      read :
          (p : ℕ) (lo : Key) (ix : Bool) (items : List Item) (i : ℕ)
          → ix ≡ true
          → IsIndex p lo ix items
          → i < length items
          → pid_of_bytes (value_at items i) ≡ ok (from_le_bytes (value_at items i))
      read p lo false items i e x h = cc
      read p lo true [] i e x h = elim h [ ]
      read p lo true ((k, v) ∷ items) i e x h = let l = eight ((k, v) ∷ items) i x.1 h in rw l refl

  first_low : n.is_index ≡ true → ltb_key (drop n.prefix_len key) (key_at n.items 0) ≡ false
  first_low index =
      sym (above_full (key_at n.items 0))
      ∙ ap (ltb_key key) (first n.prefix_len n.lo n.is_index n.items index is_node.0.indexed)
      ∙ not_low
    where
      first :
          (p : ℕ) (lo : Key) (ix : Bool) (items : List Item)
          → ix ≡ true
          → IsIndex p lo ix items
          → full_key p lo (key_at items 0) ≡ lo
      first p lo false items e x = cc
      first p lo true [] e x = elim x [ ]
      first p lo true ((k, v) ∷ items) e x = x.0

      not_low : ltb_key key n.lo ≡ false
      not_low = let h = inside.0 in ground arith

  next_node_runs :
      (memcmp : Key → Key → ℤ) (i : ℕ) (r : Found)
      → n.is_index ≡ true
      → i < children n
      → find memcmp n (drop n.prefix_len key) ≡ ok r
      → elim r as (λ f. Outcome ℕ) [ at j ↦ ok j | before j ↦ index_before j ] ≡ ok i
      → index_next_node memcmp n key ≡ ok (i, from_le_bytes (value_at n.items i))
  unfolding index_next_node
  next_node_runs memcmp i r index h f e =
      guarded (leb_key n.lo key) (below_hi key n.hi) n.is_index _ inside.0 inside.1 index
      ∙ rw (long, f, e, pid_at index i h) refl
    where
      guarded :
          (a b c : Bool) (x : Outcome (ℕ × ℕ))
          → a ≡ true
          → b ≡ true
          → c ≡ true
          → (assert a >> (assert b >> (assert c >> x))) ≡ x
      guarded a b c x p q r = rw (p, q, r) refl

  before-LeadsTo :
      (memcmp : Key → Key → ℤ) (i : ℕ)
      → n.is_index ≡ true
      → find memcmp n (drop n.prefix_len key) ≡ ok (before i)
      → IsPlace n.items (drop n.prefix_len key) i
      → (i pid : ℕ) × (index_next_node memcmp n key ≡ ok (i, pid)) × LeadsTo i pid
  unfolding index_before
  before-LeadsTo memcmp zero index f p = absurd (
      clash (first_low index) (
        p.above 0 (omega arith)
          (some_child n.prefix_len n.lo n.is_index n.items index is_node.0.indexed)))
    where
      clash : {b : Bool} → b ≡ false → b ≡ true → ⊥
      clash p q = cc

      some_child :
          (p : ℕ) (lo : Key) (ix : Bool) (items : List Item)
          → ix ≡ true
          → IsIndex p lo ix items
          → 0 < length items
      some_child p lo false items e x = cc
      some_child p lo true [] e x = elim x [ ]
      some_child p lo true (j ∷ items) e x = omega arith
  before-LeadsTo memcmp (suc i) index f p = (
    i,
    from_le_bytes (value_at n.items i),
    next_node_runs memcmp i (before (suc i)) index (omega (arith, p.bound)) f refl,
    (
      omega (arith, p.bound),
      refl,
      above_full (key_at n.items i)
          ∙ ltb_key_asym (key_at n.items i) (drop n.prefix_len key) (p.below i (omega arith)),
      λ j l b. above_full (key_at n.items j) ∙ p.above j (omega arith) b,
    ),
  )

  -- In a sound index, for a key between its bounds, index_next_node answers an item and the page id
  -- that it holds, and the key of the item is the last one that is not above the key.
  pub index_next_node-LeadsTo :
      (memcmp : Key → Key → ℤ) (libc : IsMemcmp memcmp)
      → n.is_index ≡ true
      → (i pid : ℕ) × (index_next_node memcmp n key ≡ ok (i, pid)) × LeadsTo i pid
  index_next_node-LeadsTo memcmp libc index =
      let (i, found) = find-get memcmp libc n is_node.0.sorted (drop n.prefix_len key) in
      elim found [
        | inl f ↦ (
          i,
          from_le_bytes (value_at n.items i),
          next_node_runs memcmp i (at i) index f.1 f.0 refl,
          (
            f.1,
            refl,
            above_full (key_at n.items i)
                ∙ ap (λ k. ltb_key k (key_at n.items i)) (sym f.2)
                ∙ ltb_key_irrefl (key_at n.items i),
            λ j l b.
                above_full (key_at n.items j)
                ∙ ap (λ k. ltb_key k (key_at n.items j)) (sym f.2)
                ∙ IsSorted-lt n.items i j is_node.0.sorted l b,
          ),
        )
        | inr f ↦ before-LeadsTo memcmp i index f.0 f.1
      ]
