-- ===== src/Node/Split/Merged.antt =====
-- `receive_merge` of src/node.rs: a node takes over the map of the next one.
use sled.Prelude.{
  ℕ, ◌+◌, ◌*◌, ◌^◌, ◌≤◌, ◌<◌, min, ◌≡◌, inl, inr, refl, ap, sym, subst, ◌∙◌, arith, Bool, true,
  false, not, Option, none, some, List, ◌++◌, length, length-append, take, ltb, ◌==◌, Bool-cases,
}
use sled.Prelude.Outcome.{Outcome, ok, ◌>>◌, assert}
use sled.Prelude.Sorted.{same_key_refl}
use sled.Keys.{Key, ltb_key}
use sled.Keys.Order.{ltb_key_trans, ltb_key-StrictOrder}
use sled.Node.{Item, Node, children, is_none, new}
use sled.Node.Search.{below_hi}
use sled.Node.Search.Pairs.{entries}
use sled.Node.Sizes.{weight}
use sled.Node.Invariant.{IsBounds, IsNode}
use sled.Node.Split.{reencode_all, same_hi, same_bool, merged_items, receive_merge}
use sled.Node.Split.Entries.{IsEntries, IsContent-IsEntries, IsEntries-IsContent}
use sled.Node.Split.Parts.{IsPart, stamped, new-IsPart}
use sled.Node.Split.Joined.{
  reencode_all-entries, kept_entries, take_shorter, le→leb, entries-append, weight-append, joined,
}

same_bool_lem : (a b : Bool) → a ≡ b → same_bool a b ≡ true
same_bool_lem true b e = sym e
same_bool_lem false b e = rw (← e) refl

merge_runs :
    (n other : Node) (items : List Item) (made : Node)
    → same_hi n.hi other.lo ≡ true
    → same_bool n.is_index other.is_index ≡ true
    → n.merging ≡ false
    → n.merging_child ≡ none
    → merged_items n other ≡ ok items
    → new n.lo other.hi (min n.prefix_len other.prefix_len) n.is_index other.next items ≡ ok made
    → receive_merge n other
      ≡ ok (
          stamped made
            (min n.rewrite_generations other.rewrite_generations)
            made.probation_ops_remaining)
unfolding receive_merge
merge_runs n other items made h k idle alone e f =
    guarded (same_hi n.hi other.lo) (same_bool n.is_index other.is_index) n.merging n.merging_child
      _ h k idle alone
    ∙ rw (e, f) refl
  where
    guarded :
        (a b m : Bool) (c : Option ℕ) (x : Outcome Node)
        → a ≡ true
        → b ≡ true
        → m ≡ false
        → c ≡ none
        → (assert a >> (assert b >> (assert (not m) >> (assert (is_none c) >> x)))) ≡ x
    guarded a b m c x f g h k = rw (f, g, h, k) refl

module _ (n other : Node) (is_node : IsNode n) (is_other : IsNode other)
    (next_to : n.hi ≡ some other.lo) where
  abbrev m : ℕ
  m = min n.prefix_len other.prefix_len

  IsBounds-of_n : IsBounds n.prefix_len n.lo (some other.lo)
  IsBounds-of_n = subst (IsBounds n.prefix_len n.lo) next_to is_node.0.bounds

  alike : take m n.lo ≡ take m other.lo
  alike = take_shorter m n.prefix_len n.lo other.lo (omega arith) (sym IsBounds-of_n.0)

  -- The items of both nodes, under the shorter prefix.
  abbrev Merges : Outcome (List Item) → Type 0
  Merges result =
      (items : List Item) × (result ≡ ok items)
      × (entries m n.lo items
          ≡ entries n.prefix_len n.lo n.items ++ entries other.prefix_len other.lo other.items)
      × (length items ≡ children n + children other)
      × (weight items ≤ weight n.items + weight other.items + 255 * (children n + children other))

  joins :
      (a b : List Item)
      → entries m n.lo a ≡ entries n.prefix_len n.lo n.items
      → entries m n.lo b ≡ entries other.prefix_len other.lo other.items
      → length a ≡ children n
      → length b ≡ children other
      → weight a ≤ weight n.items + 255 * children n
      → weight b ≤ weight other.items + 255 * children other
      → Merges (ok (a ++ b))
  joins a b e f g h v w = (
    a ++ b,
    refl,
    entries-append m n.lo a b ∙ rw (e, f) refl,
    length-append a b ∙ rw (g, h) refl,
    omega (arith, weight-append a b, v, w),
  )

  kept_n : m ≡ n.prefix_len → entries m n.lo n.items ≡ entries n.prefix_len n.lo n.items
  kept_n e =
      kept_entries m n.prefix_len n.lo n.lo refl (omega arith) is_node.0.prefixed.0
        is_node.0.prefixed.1 e n.items

  kept_other :
      m ≡ other.prefix_len
      → entries m n.lo other.items ≡ entries other.prefix_len other.lo other.items
  kept_other e =
      kept_entries m other.prefix_len n.lo other.lo alike (omega arith) is_other.0.prefixed.0
        is_other.0.prefixed.1 e other.items

  merged_items-Merges : Merges (merged_items n other)
  unfolding merged_items
  merged_items-Merges = elim (Bool-cases (n.prefix_len == other.prefix_len)) [
    | inl e ↦ rw e (
        joins n.items other.items (kept_n (ground arith)) (kept_other (ground arith)) refl refl
          (omega arith) (omega arith))
    | inr e ↦ elim (Bool-cases (ltb other.prefix_len n.prefix_len)) [
      | inl l ↦
          let q : m ≡ other.prefix_len = ground arith in
          let (f, g, w) =
            reencode_all-entries other.prefix_len n.prefix_len n.lo n.lo refl (ground arith)
              is_node.0.prefixed.0 is_node.0.prefixed.1 n.items in
          rw (e, l, le→leb n.prefix_len (length n.lo) is_node.0.prefixed.0)
            (joins (reencode_all (take n.prefix_len n.lo) other.prefix_len n.items) other.items
              (ap
                  (λ (i : ℕ).
                    entries i n.lo (reencode_all (take n.prefix_len n.lo) other.prefix_len n.items))
                  q
                ∙ f)
              (kept_other q) g refl w (omega arith))
      | inr l ↦
          let q : m ≡ n.prefix_len = ground arith in
          let (f, g, w) =
            reencode_all-entries n.prefix_len other.prefix_len n.lo other.lo (sym IsBounds-of_n.0)
              (ground arith) is_other.0.prefixed.0 is_other.0.prefixed.1 other.items in
          rw (e, l, le→leb other.prefix_len (length other.lo) is_other.0.prefixed.0)
            (joins n.items (reencode_all (take other.prefix_len other.lo) n.prefix_len other.items)
              (kept_n q)
              (ap
                  (λ (i : ℕ).
                    entries i n.lo
                      (reencode_all (take other.prefix_len other.lo) n.prefix_len other.items))
                  q
                ∙ f)
              refl g (omega arith) w)
    ]
  ]

  low_mid : ltb_key n.lo other.lo ≡ true
  low_mid = IsBounds-of_n.1

  merged-IsBounds :
      (hi : Option Key)
      → IsBounds other.prefix_len other.lo hi
      → IsBounds m n.lo hi × (below_hi other.lo hi ≡ true)
  merged-IsBounds none b = (omega (arith, b), refl)
  merged-IsBounds (some hi) b = (
    (
      take_shorter m other.prefix_len hi other.lo (omega arith) b.0 ∙ sym alike,
      ltb_key_trans n.lo other.lo hi low_mid b.1,
    ),
    b.1,
  )

  -- Two sound nodes of one kind that stand next to each other, the left one with no merge under way,
  -- with 65535 items at most and less than 2^48 - 2^24 bytes together, counted with 24 bytes more
  -- for each item, are merged to a sound node that has the low bound of the left one, the high bound
  -- and next of the right one, and the two maps, one behind the other.
  pub receive_merge-IsPart :
      n.is_index ≡ other.is_index
      → n.merging ≡ false
      → n.merging_child ≡ none
      → children n + children other ≤ 65535
      → weight n.items + weight other.items + 2 ^ 24 < 2 ^ 48
      → (merged : Node) × (receive_merge n other ≡ ok merged)
        × IsPart n.lo other.hi n.is_index other.next
            (entries n.prefix_len n.lo n.items ++ entries other.prefix_len other.lo other.items)
            merged
  receive_merge-IsPart kind idle alone few w =
      let (items, e, f, g, heavy) = merged_items-Merges in
      let (bounds, mid) = merged-IsBounds other.hi is_other.0.bounds in
      let both : IsEntries n.lo other.hi n.is_index (entries m n.lo items) =
        subst (IsEntries n.lo other.hi n.is_index) (sym f) (
          joined n.lo other.lo other.hi n.is_index (entries n.prefix_len n.lo n.items)
            (entries other.prefix_len other.lo other.items) low_mid mid
            (subst (λ h. IsEntries n.lo h n.is_index (entries n.prefix_len n.lo n.items)) next_to
              (IsContent-IsEntries n.prefix_len n.lo n.hi n.is_index n.items is_node.0))
            (subst
              (λ x. IsEntries other.lo other.hi x (entries other.prefix_len other.lo other.items))
              (sym kind)
              (IsContent-IsEntries other.prefix_len other.lo other.hi other.is_index other.items
                is_other.0))) in
      let content =
        IsEntries-IsContent m n.lo other.hi n.is_index items (omega arith)
          (omega (arith, is_node.0.prefixed.0), omega (arith, is_node.0.prefixed.1)) bounds both in
      let (made, h, is_part) =
        new-IsPart m n.lo other.hi n.is_index other.next items _ content f (omega arith) in
      (
        stamped made (min n.rewrite_generations other.rewrite_generations)
            made.probation_ops_remaining,
        merge_runs n other items made
            (ap (λ h. same_hi h other.lo) next_to ∙ same_key_refl ltb_key-StrictOrder other.lo)
            (same_bool_lem n.is_index other.is_index kind) idle alone e h,
        is_part (min n.rewrite_generations other.rewrite_generations) made.probation_ops_remaining,
      )
