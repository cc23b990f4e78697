-- ===== src/Node/Split/Halves.antt =====
-- The halves of a split node share its map between them (`split` of src/node.rs).
use sled.Prelude.{
  ℕ, zero, suc, ◌+◌, ◌-◌, ◌/◌, ◌^◌, ◌≤◌, ◌<◌, min, ◌≡◌, inl, inr, refl, ap, sym, subst, ◌∙◌, arith,
  Bool, true, false, Option, none, some, List, [], ◌∷◌, ◌++◌, length, length-take, length-drop,
  length-append, take, drop, take-append_of_length, drop-append_of_length, take-append-drop,
  All-take, leb, ◌==◌, Bool-cases,
}
use sled.Prelude.Outcome.{ok}
use sled.Keys.{Key, ltb_key}
use sled.Keys.Order.{ltb_key_trans}
use sled.Keys.Prefix.{ltb_key-append, take-between}
use sled.Node.{Item, Node, children, new}
use sled.Node.Search.{below_hi}
use sled.Node.Search.Place.{IsSorted-lt, key_at, ltb_key_asym}
use sled.Node.Search.Pairs.{entries}
use sled.Node.Sizes.{weight}
use sled.Node.Invariant.{full_key, IsBounds, IsNode}
use sled.Node.Split.{
  common_len, splitpoint_length, additional_prefix, additional_to_hi, shorten, split_left,
  split_right,
}
use sled.Node.Split.Entries.{
  IsEntries, LeadsFrom, entries-take, entries-drop, key_at-entries, length-entries,
  IsContent-IsEntries, take-IsSorted, drop-IsSorted, All-of_take, All-of_drop, All_index,
}
use sled.Node.Split.Shorten.{take_add, take_all, take_common, common_len-le, splitpoint_length-lem}
use sled.Node.Split.Parts.{
  IsPart, stamped, part, not_above_trans, leads_at, weight-take, weight-drop, additional_prefix_lem,
}

le→leb : (a b : ℕ) → a ≤ b → leb a b ≡ true
le→leb a b h = ground arith

module _ (n : Node) (sp : ℕ) (key : Key) (a : ℕ) (items : List Item) (m : Node) where
  left_runs :
      additional_prefix n.prefix_len n.lo key ≡ ok a
      → shorten a (take sp n.items) ≡ ok items
      → new n.lo (some key) (n.prefix_len + a) n.is_index n.next items ≡ ok m
      → split_left n sp key ≡ ok (stamped m n.rewrite_generations m.probation_ops_remaining)
  unfolding split_left
  left_runs h e f = rw (h, e, f) refl

  right_runs :
      additional_to_hi n.prefix_len key n.hi ≡ ok a
      → shorten a (drop sp n.items) ≡ ok items
      → new key n.hi (n.prefix_len + a) n.is_index n.next items ≡ ok m
      → split_right n sp key ≡ ok (stamped m n.rewrite_generations (min (children n / 2) 255))
  unfolding split_right
  right_runs h e f = rw (h, e, f) refl

module _ (n : Node) (is_node : IsNode n) (sp : ℕ) (some_left : 1 ≤ sp)
    (some_right : sp < children n) where
  abbrev pub right_min : Key
  right_min = key_at n.items sp

  -- The split key without the prefix.
  abbrev pub cut : Key
  cut = take (splitpoint_length n.is_index (key_at n.items (sp - 1)) right_min) right_min

  abbrev pub split_key : Key
  split_key = full_key n.prefix_len n.lo cut

  pub cut_lem :
      (splitpoint_length n.is_index (key_at n.items (sp - 1)) right_min ≤ length right_min)
      × (ltb_key (key_at n.items (sp - 1)) cut ≡ true)
      × (ltb_key right_min cut ≡ false)
  cut_lem = splitpoint_length-lem n.is_index (key_at n.items (sp - 1)) right_min strict
    where
      strict : ltb_key (key_at n.items (sp - 1)) (key_at n.items sp) ≡ true
      strict = IsSorted-lt n.items (sp - 1) sp is_node.0.sorted (omega arith) some_right

  left_below : (j : ℕ) → j < sp → ltb_key (key_at n.items j) cut ≡ true
  left_below j h = elim (Bool-cases (j == sp - 1)) [
    | inl e ↦ subst (λ i. ltb_key (key_at n.items i) cut ≡ true) (ground arith) cut_lem.1
    | inr e ↦
        ltb_key_trans (key_at n.items j) (key_at n.items (sp - 1)) cut
          (IsSorted-lt n.items j (sp - 1) is_node.0.sorted (ground arith) (omega arith)) cut_lem.1
  ]

  right_above : (j : ℕ) → sp ≤ j → j < children n → ltb_key (key_at n.items j) cut ≡ false
  right_above j h b = elim (Bool-cases (j == sp)) [
    | inl e ↦ subst (λ i. ltb_key (key_at n.items i) cut ≡ false) (ground arith) cut_lem.2
    | inr e ↦ ltb_key_asym cut (key_at n.items j) (
        not_above_trans cut right_min (key_at n.items j) cut_lem.2
          (IsSorted-lt n.items sp j is_node.0.sorted (ground arith) b))
  ]

  pub length_prefix : length (take n.prefix_len n.lo) ≡ n.prefix_len
  length_prefix = omega (arith, length-take n.prefix_len n.lo, is_node.0.prefixed.0)

  take-split_key : take n.prefix_len split_key ≡ take n.prefix_len n.lo
  take-split_key = take-append_of_length n.prefix_len (take n.prefix_len n.lo) cut length_prefix

  drop-split_key : drop n.prefix_len split_key ≡ cut
  drop-split_key = drop-append_of_length n.prefix_len (take n.prefix_len n.lo) cut length_prefix

  long_split_key : n.prefix_len ≤ length split_key
  long_split_key = omega (arith, length-append (take n.prefix_len n.lo) cut, length_prefix)

  full_rest : full_key n.prefix_len n.lo (drop n.prefix_len n.lo) ≡ n.lo
  full_rest = take-append-drop n.prefix_len n.lo

  not_low : (j : ℕ) → j < children n → ltb_key (key_at n.items j) (drop n.prefix_len n.lo) ≡ false
  not_low j h =
      sym (ltb_key-append (take n.prefix_len n.lo) (key_at n.items j) (drop n.prefix_len n.lo))
      ∙ ap (ltb_key (full_key n.prefix_len n.lo (key_at n.items j))) full_rest
      ∙ (All_index _ n.items j is_node.0.ranged h).0

  abbrev pub es : List Item
  es = entries n.prefix_len n.lo n.items

  whole_map : IsEntries n.lo n.hi n.is_index es
  whole_map = IsContent-IsEntries n.prefix_len n.lo n.hi n.is_index n.items is_node.0

  full_at : (j : ℕ) → j < children n → key_at es j ≡ full_key n.prefix_len n.lo (key_at n.items j)
  full_at j h = key_at-entries n.prefix_len n.lo n.items j h

  left_map : IsEntries n.lo (some split_key) n.is_index (take sp es)
  left_map = record {
    sorted = take-IsSorted sp es whole_map.sorted;
    ranged = All-of_take _ sp es (λ j l b. (
      (All_index _ es j whole_map.ranged b).0,
      rw
          (
            full_at j (omega (arith, length-entries n.prefix_len n.lo n.items)),
            ltb_key-append (take n.prefix_len n.lo),
          )
          (left_below j l),
    ));
    leads = first n.lo n.is_index es sp some_left whole_map.leads;
  }
    where
      first :
          (lo : Key) (ix : Bool) (es : List Item) (k : ℕ)
          → 1 ≤ k
          → LeadsFrom lo ix es
          → LeadsFrom lo ix (take k es)
      first lo false es k h l = tt
      first lo true [] k h l = elim l [ ]
      first lo true (e ∷ es) zero h l = absurd (omega arith)
      first lo true ((j, v) ∷ es) (suc k) h l =
          (l.0, (l.1.0, All-take (λ i. length i.1 ≡ 8) k es l.1.1))

  right_map : IsEntries split_key n.hi n.is_index (drop sp es)
  right_map = record {
    sorted = drop-IsSorted sp es whole_map.sorted;
    ranged = All-of_drop _ sp es (λ j l b. (
      rw
          (
            full_at j (omega (arith, length-entries n.prefix_len n.lo n.items)),
            ltb_key-append (take n.prefix_len n.lo),
          )
          (right_above j l (omega (arith, length-entries n.prefix_len n.lo n.items))),
      (All_index _ es j whole_map.ranged b).1,
    ));
    leads =
        leads_at n.lo n.is_index split_key es sp
          (omega (arith, length-entries n.prefix_len n.lo n.items)) starts whole_map.leads;
  }
    where
      whole_key : (ix : Bool) (l r : Key) → ix ≡ true → take (splitpoint_length ix l r) r ≡ r
      whole_key false l r h = cc
      whole_key true l r h = unfold splitpoint_length in take_all r

      starts : n.is_index ≡ true → key_at es sp ≡ split_key
      starts h =
          full_at sp some_right
          ∙ ap (full_key n.prefix_len n.lo) (sym (whole_key n.is_index _ right_min h))

  rest_below : ltb_key (drop n.prefix_len n.lo) cut ≡ true
  rest_below =
      not_above_trans (drop n.prefix_len n.lo) (key_at n.items 0) cut (not_low 0 (omega arith))
        (left_below 0 (omega arith))

  pub left-IsPart :
      weight n.items + 8 < 2 ^ 48
      → (l : Node) × (split_left n sp split_key ≡ ok l)
        × IsPart n.lo (some split_key) n.is_index n.next (take sp es) l
  left-IsPart w =
      let (items', m, e, f, is_part) =
        part a n.prefix_len n.lo n.lo (some split_key) n.is_index n.next (take sp n.items) refl
          is_node.0.prefixed.0 (omega (arith, common_len-le (drop n.prefix_len n.lo) cut))
          (omega (arith, is_node.0.prefixed.1)) bounds
          (omega (arith, length-take sp n.items, is_node.0.counted))
          (omega (arith, weight-take sp n.items, w))
          (All-of_take _ sp n.items (λ j l b.
            take-between a (drop n.prefix_len n.lo) (key_at n.items j) cut
              (omega (arith, common_len-le (drop n.prefix_len n.lo) cut)) (sym alike) (not_low j b)
              (ltb_key_asym (key_at n.items j) cut (left_below j l))))
          (subst (IsEntries n.lo (some split_key) n.is_index)
            (sym (entries-take n.prefix_len n.lo sp n.items)) left_map) in
      (
        stamped m n.rewrite_generations m.probation_ops_remaining,
        left_runs n sp split_key a items' m additional e f,
        subst
            (λ x.
              IsPart n.lo (some split_key) n.is_index n.next x
                (stamped m n.rewrite_generations m.probation_ops_remaining))
            (entries-take n.prefix_len n.lo sp n.items)
            (is_part n.rewrite_generations m.probation_ops_remaining),
      )
    where
      a : ℕ
      a = min (255 - n.prefix_len) (common_len (drop n.prefix_len n.lo) cut)

      additional : additional_prefix n.prefix_len n.lo split_key ≡ ok a
      additional =
          additional_prefix_lem n.prefix_len n.lo split_key is_node.0.prefixed.0 long_split_key
          ∙ ap (λ l. ok (min (255 - n.prefix_len) (common_len (drop n.prefix_len n.lo) l)))
              drop-split_key

      alike : take a (drop n.prefix_len n.lo) ≡ take a cut
      alike = take_common a (drop n.prefix_len n.lo) cut (omega arith)

      bounds : IsBounds (n.prefix_len + a) n.lo (some split_key)
      bounds = (
        take_add n.prefix_len a split_key
            ∙ ap (λ l. l ++ take a (drop n.prefix_len split_key)) take-split_key
            ∙ ap (λ l. take n.prefix_len n.lo ++ take a l) drop-split_key
            ∙ ap (λ l. take n.prefix_len n.lo ++ l) (sym alike)
            ∙ sym (take_add n.prefix_len a n.lo),
        ap (λ k. ltb_key k split_key) (sym full_rest)
            ∙ ltb_key-append (take n.prefix_len n.lo) (drop n.prefix_len n.lo) cut
            ∙ rest_below,
      )

  -- How many more bytes the bounds of the right half share, and its keys with them.
  right_prefix :
      (hi : Option Key)
      → IsBounds n.prefix_len n.lo hi
      → below_hi split_key hi ≡ true
      → (a : ℕ) × (additional_to_hi n.prefix_len split_key hi ≡ ok a)
        × (a ≤ length cut)
        × (n.prefix_len + a ≤ 255)
        × IsBounds (n.prefix_len + a) split_key hi
        × ((k : Key)
            → ltb_key k cut ≡ false
            → below_hi (full_key n.prefix_len n.lo k) hi ≡ true
            → take a k ≡ take a cut)
  unfolding additional_to_hi
  right_prefix none b s =
      (0, refl, omega arith, omega (arith, is_node.0.prefixed.1), omega (arith, b), λ k l h. refl)
  right_prefix (some hi) b s = (
    a,
    additional_prefix_lem n.prefix_len split_key hi long_split_key long_hi
        ∙ ap (λ l. ok (min (255 - n.prefix_len) (common_len l (drop n.prefix_len hi))))
            drop-split_key,
    omega (arith, common_len-le cut (drop n.prefix_len hi)),
    omega (arith, is_node.0.prefixed.1),
    (
      take_add n.prefix_len a hi
          ∙ ap (λ l. l ++ take a (drop n.prefix_len hi)) (b.0 ∙ sym take-split_key)
          ∙ ap (λ l. take n.prefix_len split_key ++ l)
              (sym alike ∙ ap (take a) (sym drop-split_key))
          ∙ sym (take_add n.prefix_len a split_key),
      s,
    ),
    λ k l h.
        take-between a cut k (drop n.prefix_len hi)
          (omega (arith, common_len-le cut (drop n.prefix_len hi))) (sym alike) l
          (ltb_key_asym k (drop n.prefix_len hi) (
            sym (ltb_key-append (take n.prefix_len n.lo) k (drop n.prefix_len hi))
            ∙ ap (λ x. ltb_key (full_key n.prefix_len n.lo k) (x ++ drop n.prefix_len hi)) (sym b.0)
            ∙ ap (ltb_key (full_key n.prefix_len n.lo k)) (take-append-drop n.prefix_len hi)
            ∙ h)),
  )
    where
      a : ℕ
      a = min (255 - n.prefix_len) (common_len cut (drop n.prefix_len hi))

      alike : take a cut ≡ take a (drop n.prefix_len hi)
      alike = take_common a cut (drop n.prefix_len hi) (omega arith)

      long_hi : n.prefix_len ≤ length hi
      long_hi = omega (arith, length-take n.prefix_len hi, ap length b.0, length_prefix)

  split_key_low : below_hi split_key n.hi ≡ true
  split_key_low = low n.hi (All_index _ n.items sp is_node.0.ranged some_right).1
    where
      low :
          (hi : Option Key)
          → below_hi (full_key n.prefix_len n.lo right_min) hi ≡ true
          → below_hi split_key hi ≡ true
      low none h = refl
      low (some hi) h =
          not_above_trans split_key (full_key n.prefix_len n.lo right_min) hi
            (ltb_key-append (take n.prefix_len n.lo) right_min cut ∙ cut_lem.2) h

  pub right-IsPart :
      weight n.items + 8 < 2 ^ 48
      → (r : Node) × (split_right n sp split_key ≡ ok r)
        × IsPart split_key n.hi n.is_index n.next (drop sp es) r
  right-IsPart w =
      let (a, additional, inside, small, bounds, begins) =
        right_prefix n.hi is_node.0.bounds split_key_low in
      let (items', m, e, f, is_part) =
        part a n.prefix_len split_key n.lo n.hi n.is_index n.next (drop sp n.items) take-split_key
          long_split_key (omega (arith, inside, ap length drop-split_key)) small bounds
          (omega (arith, length-drop sp n.items, is_node.0.counted))
          (omega (arith, weight-drop sp n.items, w))
          (All-of_drop _ sp n.items (λ j l b.
            begins (key_at n.items j) (right_above j l b)
              (All_index _ n.items j is_node.0.ranged b).1
            ∙ ap (take a) (sym drop-split_key)))
          (subst (IsEntries split_key n.hi n.is_index)
            (sym (entries-drop n.prefix_len n.lo sp n.items)) right_map) in
      (
        stamped m n.rewrite_generations (min (children n / 2) 255),
        right_runs n sp split_key a items' m additional e f,
        subst
            (λ x.
              IsPart split_key n.hi n.is_index n.next x
                (stamped m n.rewrite_generations (min (children n / 2) 255)))
            (entries-drop n.prefix_len n.lo sp n.items)
            (is_part n.rewrite_generations (min (children n / 2) 255)),
      )
