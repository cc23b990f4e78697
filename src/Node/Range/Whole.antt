-- ===== src/Node/Range/Whole.antt =====
-- Whole keys at the bounds of an iteration (src/node.rs).
use sled.Prelude.{ℕ, ◌≤◌, ◌≡◌, refl, ap, sym, ◌∙◌, arith, true, take, drop, length, leb}
use sled.Prelude.Outcome.{ok}
use sled.Keys.{Key, ltb_key}
use sled.Keys.Prefix.{ltb_key-append}
use sled.Node.{Node, prefix_decode}
use sled.Node.Invariant.{full_key, IsNode}

pub decodes :
    (n : Node) → IsNode n → (k : Key) → prefix_decode n k ≡ ok (full_key n.prefix_len n.lo k)
decodes n is_node k = rw (le→leb n.prefix_len (length n.lo) is_node.0.prefixed.0) refl
  where
    le→leb : (a b : ℕ) → a ≤ b → leb a b ≡ true
    le→leb a b h = ground arith

-- A key with the prefix of the node is compared with whole keys as its rest with what the node stores.
module _ (n : Node) (b : Key) (whole_b : full_key n.prefix_len n.lo (drop n.prefix_len b) ≡ b) where
  pub compare_low :
      (k : Key) → ltb_key (full_key n.prefix_len n.lo k) b ≡ ltb_key k (drop n.prefix_len b)
  compare_low k =
      ap (ltb_key (full_key n.prefix_len n.lo k)) (sym whole_b)
      ∙ ltb_key-append (take n.prefix_len n.lo) k (drop n.prefix_len b)

  pub compare_high :
      (k : Key) → ltb_key b (full_key n.prefix_len n.lo k) ≡ ltb_key (drop n.prefix_len b) k
  compare_high k =
      ap (λ x. ltb_key x (full_key n.prefix_len n.lo k)) (sym whole_b)
      ∙ ltb_key-append (take n.prefix_len n.lo) (drop n.prefix_len b) k
