-- ===== src/Node/Split/Shared.antt =====
-- `split` of src/node.rs: two nodes that share the map of the one between them.
use sled.Prelude.{
  ℕ, ◌+◌, ◌-◌, ◌^◌, ◌≤◌, ◌<◌, ◌≡◌, refl, ◌∙◌, arith, Bool, true, false, not, Option, none, some,
  length, take, drop, leb,
}
use sled.Prelude.Outcome.{Outcome, ok, ◌>>◌, assert}
use sled.Keys.{Key}
use sled.Node.{Node, children, is_none}
use sled.Node.Search.Place.{IsSorted-lt, key_at, index_key_lem}
use sled.Node.Search.Pairs.{entries}
use sled.Node.Sizes.{weight}
use sled.Node.Invariant.{IsNode}
use sled.Node.Split.{
  weighted_split_point, splitpoint_length, split_key_at, split_left, split_right, split,
}
use sled.Node.Split.Parts.{IsPart, split_point_inside}
use sled.Node.Split.Halves.{split_key, cut_lem, left-IsPart, right-IsPart}

le→leb : (a b : ℕ) → a ≤ b → leb a b ≡ true
le→leb a b h = ground arith

-- Both halves are nodes, the one below and the other from the split key on, with the map of the node
-- between them.
pub record IsSplit (n left right : Node) : Type 0 where
  pub at : ℕ
  pub inside : (1 ≤ at) × (at < children n)
  pub key : Key
  pub left_is :
      IsPart n.lo (some key) n.is_index n.next (take at (entries n.prefix_len n.lo n.items)) left
  pub right_is :
      IsPart key n.hi n.is_index n.next (drop at (entries n.prefix_len n.lo n.items)) right

module _ (n : Node) (is_node : IsNode n) where
  split_key_at-lem :
      (sp : ℕ) (l : 1 ≤ sp) (r : sp < children n)
      → split_key_at n sp ≡ ok (split_key n is_node sp l r)
  unfolding split_key_at
  split_key_at-lem sp l r =
      rw
        (
          index_key_lem n (sp - 1) (omega arith),
          index_key_lem n sp r,
          IsSorted-lt n.items (sp - 1) sp is_node.0.sorted (omega arith) r,
          le→leb (splitpoint_length n.is_index (key_at n.items (sp - 1)) (key_at n.items sp))
              (length (key_at n.items sp)) (cut_lem n is_node sp l r).0,
          le→leb n.prefix_len (length n.lo) is_node.0.prefixed.0,
        )
        refl

split_runs :
    (n : Node) (key : Key) (left right : Node)
    → 2 ≤ children n
    → n.merging ≡ false
    → n.merging_child ≡ none
    → split_key_at n (weighted_split_point n) ≡ ok key
    → split_left n (weighted_split_point n) key ≡ ok left
    → split_right n (weighted_split_point n) key ≡ ok right
    → split n ≡ ok (left, right)
unfolding split
split_runs n key left right two idle alone k l r =
    guarded (leb 2 (children n)) n.merging n.merging_child _ (le→leb 2 (children n) two) idle alone
    ∙ rw (k, l, r) refl
  where
    guarded :
        (a m : Bool) (c : Option ℕ) (x : Outcome (Node × Node))
        → a ≡ true
        → m ≡ false
        → c ≡ none
        → (assert a >> (assert (not m) >> (assert (is_none c) >> x))) ≡ x
    guarded a m c x f g h = rw (f, g, h) refl

-- A sound node of two items or more, that has no merge under way and whose keys and values, with 24
-- bytes more for each item, take less than 2^48 - 8 bytes, is split at an inner item into two sound
-- nodes, which meet at one key and share the map of the node between them; both keep the kind of the
-- node and its next.
pub split-IsSplit :
    (n : Node)
    → IsNode n
    → n.merging ≡ false
    → n.merging_child ≡ none
    → 2 ≤ children n
    → weight n.items + 8 < 2 ^ 48
    → (left : Node) × (right : Node) × (split n ≡ ok (left, right)) × IsSplit n left right
split-IsSplit n is_node idle alone two w =
    let (l, r) = split_point_inside n two in
    let sp = weighted_split_point n in
    let (left, e, left_is) = left-IsPart n is_node sp l r w in
    let (right, f, right_is) = right-IsPart n is_node sp l r w in
    (
      left,
      right,
      split_runs n (split_key n is_node sp l r) left right two idle alone
          (split_key_at-lem n is_node sp l r) e f,
      record {
        at = sp;
        inside = (l, r);
        key = split_key n is_node sp l r;
        left_is = left_is;
        right_is = right_is;
      },
    )
