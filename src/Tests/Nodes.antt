-- ===== src/Tests/Nodes.antt =====
-- Runs of src/node.rs and src/fastcmp.rs.
use sled.Prelude.{
  ℕ, ◌≤◌, ◌<◌, ◌≡◌, refl, arith, true, false, none, some, [], ◌∷◌, ◌++◌, if◌then◌else◌,
}
use sled.Prelude.Int.{ℤ, pos, negsuc, ltb_ℤ}
use sled.Prelude.Outcome.{ok}
use sled.Prelude.Sorted.{get}
use sled.Prelude.Bytes.{to_le_bytes}
use sled.Varint.{size}
use sled.Keys.{Key, ltb_key, leb_key, cmp, fastcmp}
use sled.Keys.Order.{IsMemcmp, ltb_key_irrefl, ltb_key_trans}
use sled.Keys.Memcmp.{fastcmp-cmp}
use sled.Link.{Link}
use sled.Node.{Node}
use sled.Node.Stitch.{item_size}
use sled.Node.Search.{Found, below_hi, find, node_kv_pair, index_next_node}
use sled.Node.Search.Place.{Located, find-Located}
use sled.Node.Search.Pairs.{entries, node_kv_pair-get, LeadsTo, index_next_node-LeadsTo}
use sled.Node.Invariant.{IsNode}
use sled.Node.Apply.{apply}
use sled.Node.Apply.Effect.{Allowed, Applied, apply-Applied}
use sled.Node.Split.{split, receive_merge}
use sled.Node.Split.Parts.{IsPart}
use sled.Node.Split.Shared.{IsSplit, split-IsSplit}
use sled.Node.Split.Merged.{receive_merge-IsPart}
use sled.Node.Range.{included, excluded, successor, predecessor}
use sled.Node.Range.Predecessor.{IsServedBefore, last_where, wanted_before, predecessor-last_where}
use sled.Node.Range.Successor.{wanted_by, first_where, successor-first_where}

-- A comparison of bytes that keeps the promises of libc.
abbrev by_order : Key → Key → ℤ
by_order a b = if ltb_key a b then negsuc 0 else if ltb_key b a then pos 1 else pos 0

by_order-IsMemcmp : IsMemcmp by_order
by_order-IsMemcmp = record {
  zero = λ a b e. rw (e, ltb_key_irrefl b) refl;
  below = λ a b l h. rw h refl;
  above = λ a b l h. above a b h;
}
  where
    above : (a b : Key) → ltb_key b a ≡ true → ltb_ℤ (pos 0) (by_order a b) ≡ true
    above a b h = ground (arith, h, ltb_key_trans a b a, ltb_key_irrefl a)

fastcmp_example : fastcmp by_order (1 ∷ 2 ∷ []) (1 ∷ 3 ∷ []) ≡ cmp (1 ∷ 2 ∷ []) (1 ∷ 3 ∷ [])
fastcmp_example = fastcmp-cmp by_order by_order-IsMemcmp (1 ∷ 2 ∷ []) (1 ∷ 3 ∷ [])

-- A leaf from [7, 1] to [7, 9], with the prefix [7].
abbrev leaf : Node
leaf = record {
  next = some 5;
  merging_child = none;
  fixed_key_length = some 1;
  fixed_value_length = none;
  prefix_len = 1;
  probation_ops_remaining = 0;
  offset_bytes = 1;
  rewrite_generations = 0;
  activity_sketch = 0;
  merging = false;
  is_index = false;
  lo = 7 ∷ 1 ∷ [];
  hi = some (7 ∷ 9 ∷ []);
  items = (1 ∷ [], 10 ∷ []) ∷ (3 ∷ [], 30 ∷ 31 ∷ []) ∷ (6 ∷ [], []) ∷ [];
  len = 84;
}

leaf-IsNode : IsNode leaf
unfolding ltb_key item_size size
leaf-IsNode = (
  record {
    sorted = ((refl, (refl, tt)), ((refl, tt), (tt, tt)));
    counted = omega arith;
    prefixed = (omega arith, omega arith);
    bounds = (refl, refl);
    ranged = ((refl, refl), ((refl, refl), ((refl, refl), tt)));
    indexed = tt;
  },
  omega arith,
)

find_example :
    (r : Found) × (find by_order leaf (4 ∷ []) ≡ ok r)
    × Located by_order by_order-IsMemcmp leaf leaf-IsNode.0.sorted (4 ∷ []) r
find_example = find-Located by_order by_order-IsMemcmp leaf leaf-IsNode.0.sorted (4 ∷ [])

inside_leaf :
    (k : ℕ)
    → 1 ≤ k
    → k < 9
    → (leb_key leaf.lo (7 ∷ k ∷ []) ≡ true) × (below_hi (7 ∷ k ∷ []) leaf.hi ≡ true)
unfolding ltb_key
inside_leaf k l h = (ground arith, ground arith)

node_kv_pair_example :
    (i : ℕ) × (node_kv_pair by_order leaf (7 ∷ 3 ∷ [])
      ≡ ok (3 ∷ [], get ltb_key (7 ∷ 3 ∷ []) (entries leaf.prefix_len leaf.lo leaf.items), i))
node_kv_pair_example =
    node_kv_pair-get leaf leaf-IsNode (7 ∷ 3 ∷ []) (inside_leaf 3 (omega arith) (omega arith))
      by_order by_order-IsMemcmp

-- The bound lies below the leaf, whose first item is the answer.
below_leaf : below_hi (6 ∷ 1 ∷ []) leaf.hi ≡ true
unfolding ltb_key
below_leaf = refl

successor_example :
    successor by_order leaf (included (6 ∷ 1 ∷ []))
    ≡ ok (
        first_where
          (wanted_by (included (6 ∷ 1 ∷ [])))
          (entries leaf.prefix_len leaf.lo leaf.items))
successor_example =
    successor-first_where by_order by_order-IsMemcmp leaf leaf-IsNode refl (included (6 ∷ 1 ∷ []))
      below_leaf

-- The bound excludes the upper bound of the leaf, whose last item is the answer.
up_to_leaf : IsServedBefore leaf (excluded (7 ∷ 9 ∷ []))
unfolding ltb_key
up_to_leaf = (refl, refl)

predecessor_example :
    predecessor by_order leaf (excluded (7 ∷ 9 ∷ []))
    ≡ ok (
        last_where
          (wanted_before (excluded (7 ∷ 9 ∷ [])))
          (entries leaf.prefix_len leaf.lo leaf.items))
predecessor_example =
    predecessor-last_where by_order by_order-IsMemcmp leaf leaf-IsNode refl (excluded (7 ∷ 9 ∷ []))
      up_to_leaf

leaf-Allowed : Allowed leaf (Link.set (4 ∷ []) (40 ∷ []))
unfolding get ltb_key
leaf-Allowed = (refl, refl, omega arith, (omega arith, omega arith), (refl, refl), λ h. refused h)
  where
    refused : {n : ℕ} → false ≡ true → n ≡ 8
    refused h = cc

apply_link_example :
    (n' : Node) × (apply by_order leaf (Link.set (4 ∷ []) (40 ∷ [])) ≡ ok n')
    × Applied leaf (Link.set (4 ∷ []) (40 ∷ [])) n'
apply_link_example =
    apply-Applied by_order by_order-IsMemcmp leaf leaf-IsNode refl (Link.set (4 ∷ []) (40 ∷ []))
      leaf-Allowed

split_example :
    (left : Node) × (right : Node) × (split leaf ≡ ok (left, right)) × IsSplit leaf left right
split_example = split-IsSplit leaf leaf-IsNode refl refl (omega arith) (omega arith)

-- The leaf behind it.
abbrev behind : Node
behind = record {
  next = none;
  merging_child = none;
  fixed_key_length = none;
  fixed_value_length = none;
  prefix_len = 0;
  probation_ops_remaining = 0;
  offset_bytes = 1;
  rewrite_generations = 1;
  activity_sketch = 0;
  merging = true;
  is_index = false;
  lo = 7 ∷ 9 ∷ [];
  hi = none;
  items = (8 ∷ [], 1 ∷ []) ∷ [];
  len = 78;
}

behind-IsNode : IsNode behind
unfolding ltb_key item_size size
behind-IsNode = (
  record {
    sorted = (tt, tt);
    counted = omega arith;
    prefixed = (omega arith, omega arith);
    bounds = refl;
    ranged = ((refl, refl), tt);
    indexed = tt;
  },
  omega arith,
)

receive_merge_example :
    (merged : Node) × (receive_merge leaf behind ≡ ok merged)
    × IsPart leaf.lo behind.hi leaf.is_index behind.next
        (entries leaf.prefix_len leaf.lo leaf.items
          ++ entries behind.prefix_len behind.lo behind.items)
        merged
receive_merge_example =
    receive_merge-IsPart leaf behind leaf-IsNode behind-IsNode refl refl refl refl (omega arith)
      (omega arith)

-- An index with two children.
abbrev index : Node
index = record {
  next = none;
  merging_child = none;
  fixed_key_length = none;
  fixed_value_length = some 8;
  prefix_len = 0;
  probation_ops_remaining = 0;
  offset_bytes = 1;
  rewrite_generations = 0;
  activity_sketch = 0;
  merging = false;
  is_index = true;
  lo = [];
  hi = none;
  items = ([], to_le_bytes 8 3) ∷ (5 ∷ [], to_le_bytes 8 4) ∷ [];
  len = 85;
}

index-IsNode : IsNode index
unfolding ltb_key item_size size to_le_bytes
index-IsNode = (
  record {
    sorted = ((refl, tt), (tt, tt));
    counted = omega arith;
    prefixed = (omega arith, omega arith);
    bounds = refl;
    ranged = ((refl, refl), ((refl, refl), tt));
    indexed = (refl, (refl, (refl, tt)));
  },
  omega arith,
)

inside_index : (leb_key index.lo (4 ∷ []) ≡ true) × (below_hi (4 ∷ []) index.hi ≡ true)
unfolding ltb_key
inside_index = (refl, refl)

index_next_node_example :
    (i pid : ℕ) × (index_next_node by_order index (4 ∷ []) ≡ ok (i, pid))
    × LeadsTo index index-IsNode (4 ∷ []) inside_index i pid
index_next_node_example =
    index_next_node-LeadsTo index index-IsNode (4 ∷ []) inside_index by_order by_order-IsMemcmp refl
