-- ===== src/Node/Range/Predecessor.antt =====
-- `predecessor` of src/node.rs gives the last item at or before a bound.
use sled.Prelude.{
  ℕ, zero, suc, ◌+◌, ◌-◌, ◌≤◌, ◌<◌, ◌≡◌, inl, inr, refl, ap, sym, subst, ◌∙◌, arith, Bool, true,
  false, not, ◌⊎◌, Option, none, some, List, [], ◌∷◌, ◌++◌, length, length-take, take,
  take-append-drop, drop, min, All, leb, ◌==◌, Bool-cases, if◌then◌else◌,
}
use sled.Prelude.Int.{ℤ}
use sled.Prelude.Outcome.{Outcome, ok, ◌>>◌, assert}
use sled.Keys.{Key, ltb_key, leb_key}
use sled.Keys.Order.{IsMemcmp, ltb_key_irrefl, ltb_key_total}
use sled.Node.{Item, Node, children, is_empty, prefix_decode}
use sled.Node.Search.{Found, at, before, below_hi, find}
use sled.Node.Search.Place.{IsSorted-lt, IsPlace, key_at, ltb_key_asym}
use sled.Node.Search.Map.{find-get}
use sled.Node.Search.Pairs.{entries, whole, long}
use sled.Node.Invariant.{full_key, IsBounds, IsNode}
use sled.Node.Split.Entries.{All-of_take, All-of_drop, key_at-entries, length-entries, entries-take}
use sled.Node.Range.Whole.{decodes, compare_low, compare_high}
use sled.Node.Range.{
  Bound, included, excluded, unbounded, prefix_encode, is_excluded_below, scan_back, search_back,
  predecessor,
}

-- The last item of a map whose key is wanted.
abbrev pub last_where : (Key → Bool) → List Item → Option Item
last_where wanted [] = none
last_where wanted ((k, v) ∷ es) = elim (last_where wanted es) [
  | some e ↦ some e
  | none ↦ if wanted k then some (k, v) else none
]

abbrev pub wanted_before : Bound → Key → Bool
wanted_before (included b) k = not (ltb_key b k)
wanted_before (excluded b) k = ltb_key k b
wanted_before unbounded k = true

abbrev not_above : Key → Option Key → Bool
not_above b none = true
not_above b (some hi) = leb_key b hi

-- The bounds that `predecessor` serves, which the iterator sees to: without a bound, the last node.
abbrev pub IsServedBefore : Node → Bound → Type 0
IsServedBefore n (included b) = (leb_key n.lo b ≡ true) × (below_hi b n.hi ≡ true)
IsServedBefore n (excluded b) = (leb_key n.lo b ≡ true) × (not_above b n.hi ≡ true)
IsServedBefore n unbounded = n.hi ≡ none

last_where-none :
    (w : Key → Bool) (es : List Item) → All (λ e. w e.0 ≡ false) es → last_where w es ≡ none
last_where-none w [] h = refl
last_where-none w ((k, v) ∷ es) h = rw (last_where-none w es h.1, h.0) refl

last_where-take :
    (w : Key → Bool) (i : ℕ) (es : List Item)
    → All (λ e. w e.0 ≡ false) (drop i es)
    → last_where w (take i es) ≡ last_where w es
last_where-take w zero es h = sym (last_where-none w es h)
last_where-take w (suc i) [] h = refl
last_where-take w (suc i) ((k, v) ∷ es) h = rw (last_where-take w i es h) refl

scan_back-nil : (n : Node) (bound : Bound) → scan_back n bound [] ≡ ok none
unfolding scan_back
scan_back-nil n bound = refl

-- One key: it is passed over, or it is the answer of the scan so far.
scan_back-cons :
    (n : Node) (bound : Bound) (k v full : Key) (items : List Item) (found : Option Item)
    (skip : Bool)
    → scan_back n bound items ≡ ok found
    → is_excluded_below n bound k ≡ ok skip
    → prefix_decode n k ≡ ok full
    → scan_back n bound ((k, v) ∷ items)
      ≡ ok (elim found [ some e ↦ some e | none ↦ if skip then none else some (full, v) ])
unfolding scan_back
scan_back-cons n bound k v full items none true e f g = rw (e, f) refl
scan_back-cons n bound k v full items none false e f g = rw (e, f, g) refl
scan_back-cons n bound k v full items (some x) skip e f g = rw e refl

found_runs :
    (memcmp : Key → Key → ℤ) (n : Node) (bound : Bound) (r : Found)
    → n.is_index ≡ false
    → search_back memcmp n bound ≡ ok r
    → predecessor memcmp n bound ≡ elim r as (λ f. Outcome (Option Item)) [
      | at end ↦ scan_back n bound (take (end + 1) n.items)
      | before zero ↦ ok none
      | before (suc end) ↦ scan_back n bound (take (end + 1) n.items)
    ]
unfolding predecessor
found_runs memcmp n bound r leaf e = leaf_runs n.is_index _ leaf ∙ rw e refl
  where
    leaf_runs : (x : Bool) (o : Outcome (Option Item)) → x ≡ false → (assert (not x) >> o) ≡ o
    leaf_runs x o h = rw h refl

skipped_or_wanted :
    (x : Item) (found : Option Item) (w w' : Bool)
    → w' ≡ w
    → elim found as (λ f. Option Item) [ some e ↦ some e | none ↦ if not w then none else some x ]
      ≡ elim found as (λ f. Option Item) [ some e ↦ some e | none ↦ if w' then some x else none ]
skipped_or_wanted x (some e) w w' h = refl
skipped_or_wanted x none true w' h = rw h refl
skipped_or_wanted x none false w' h = rw h refl

module _ (n : Node) (is_node : IsNode n) where
  scan_all :
      (items : List Item)
      → scan_back n unbounded items
        ≡ ok (last_where (wanted_before unbounded) (entries n.prefix_len n.lo items))
  unfolding is_excluded_below
  scan_all [] = unfold scan_back in refl
  scan_all ((k, v) ∷ items) =
      scan_back-cons n unbounded k v (full_key n.prefix_len n.lo k) items _ false (scan_all items)
        refl (decodes n is_node k)

  module _ (b : Key) (whole_b : full_key n.prefix_len n.lo (drop n.prefix_len b) ≡ b)
      (long_b : leb n.prefix_len (length b) ≡ true) where
    abbrev suffix : Key
    suffix = drop n.prefix_len b

    -- Behind a bound with this key nothing is wanted.
    unwanted_full :
        (inc : Bool) (k : Key)
        → ltb_key suffix k ≡ true
        → wanted_before (if inc then included b else excluded b) (full_key n.prefix_len n.lo k)
          ≡ false
    unwanted_full true k h = rw (compare_high n b whole_b k, h) refl
    unwanted_full false k h = compare_low n b whole_b k ∙ ltb_key_asym suffix k h

    scan-last :
        (inc : Bool) (items : List Item)
        → All (λ i. ltb_key suffix i.0 ≡ false) items
        → scan_back n (if inc then included b else excluded b) items
          ≡ ok (
              last_where
                (wanted_before (if inc then included b else excluded b))
                (entries n.prefix_len n.lo items))
    unfolding is_excluded_below
    scan-last true [] h = unfold scan_back in refl
    scan-last false [] h = unfold scan_back in refl
    scan-last true ((k, v) ∷ items) h =
        scan_back-cons n (included b) k v (full_key n.prefix_len n.lo k) items _ false
          (scan-last true items h.1) refl (decodes n is_node k)
        ∙ ap ok (
            skipped_or_wanted (full_key n.prefix_len n.lo k, v) _ true
              (not (ltb_key b (full_key n.prefix_len n.lo k)))
              (rw (compare_high n b whole_b k, h.0) refl))
    scan-last false ((k, v) ∷ items) h =
        scan_back-cons n (excluded b) k v (full_key n.prefix_len n.lo k) items _
          (not (ltb_key k suffix)) (scan-last false items h.1) (rw (long_b, h.0) refl)
          (decodes n is_node k)
        ∙ ap ok (
            skipped_or_wanted (full_key n.prefix_len n.lo k, v) _ (ltb_key k suffix)
              (ltb_key (full_key n.prefix_len n.lo k) b) (compare_low n b whole_b k))

    -- Up to the place of the key, the scan gives the last wanted item of the whole map.
    scan_to :
        (inc : Bool) (i : ℕ)
        → ((j : ℕ) → j < i → j < children n → ltb_key suffix (key_at n.items j) ≡ false)
        → ((j : ℕ) → i ≤ j → j < children n → ltb_key suffix (key_at n.items j) ≡ true)
        → scan_back n (if inc then included b else excluded b) (take i n.items)
          ≡ ok (
              last_where
                (wanted_before (if inc then included b else excluded b))
                (entries n.prefix_len n.lo n.items))
    scan_to inc i low high =
        scan-last inc (take i n.items) (All-of_take (λ e. ltb_key suffix e.0 ≡ false) i n.items low)
        ∙ ap (λ es. ok (last_where w es)) (entries-take n.prefix_len n.lo i n.items)
        ∙ ap ok (
            last_where-take w i es
              (All-of_drop (λ e. w e.0 ≡ false) i es (λ j l c. unwanted j l c)))
      where
        w : Key → Bool
        w = wanted_before (if inc then included b else excluded b)

        es : List Item
        es = entries n.prefix_len n.lo n.items

        unwanted : (j : ℕ) → i ≤ j → j < length es → w (key_at es j) ≡ false
        unwanted j l c =
            let c' : j < children n = omega (arith, c, length-entries n.prefix_len n.lo n.items) in
            ap w (key_at-entries n.prefix_len n.lo n.items j c')
            ∙ unwanted_full inc (key_at n.items j) (high j l c')

    predecessor_inside :
        (memcmp : Key → Key → ℤ) (libc : IsMemcmp memcmp) (inc : Bool)
        → n.is_index ≡ false
        → search_back memcmp n (if inc then included b else excluded b) ≡ find memcmp n suffix
        → predecessor memcmp n (if inc then included b else excluded b)
          ≡ ok (
              last_where
                (wanted_before (if inc then included b else excluded b))
                (entries n.prefix_len n.lo n.items))
    predecessor_inside memcmp libc inc leaf begins =
        let (i, found) = find-get memcmp libc n is_node.0.sorted suffix in
        elim found [
          | inl f ↦
              found_runs memcmp n bound (at i) leaf (begins ∙ f.0)
              ∙ scan_to inc (i + 1)
                  (λ j l c. elim (Bool-cases (j == i)) [
                    | inl q ↦
                        subst (λ k. ltb_key k (key_at n.items j) ≡ false) f.2
                          (subst (λ (m : ℕ). ltb_key (key_at n.items m) (key_at n.items j) ≡ false)
                            (ground arith) (ltb_key_irrefl (key_at n.items j)))
                    | inr q ↦
                        subst (λ k. ltb_key k (key_at n.items j) ≡ false) f.2
                          (ltb_key_asym (key_at n.items j) (key_at n.items i)
                            (IsSorted-lt n.items j i is_node.0.sorted (ground arith) f.1))
                  ])
                  (λ j l c.
                    subst (λ k. ltb_key k (key_at n.items j) ≡ true) f.2
                      (IsSorted-lt n.items i j is_node.0.sorted (omega arith) c))
          | inr f ↦ found_runs memcmp n bound (before i) leaf (begins ∙ f.0) ∙ placed i f.1
        ]
      where
        bound : Bound
        bound = if inc then included b else excluded b

        behind :
            (i : ℕ)
            → IsPlace n.items suffix i
            → scan_back n bound (take i n.items)
              ≡ ok (last_where (wanted_before bound) (entries n.prefix_len n.lo n.items))
        behind i p =
            scan_to inc i (λ j l c. ltb_key_asym (key_at n.items j) suffix (p.below j l))
              (λ j l c. p.above j l c)

        placed :
            (i : ℕ)
            → IsPlace n.items suffix i
            → elim (before i) as (λ f. Outcome (Option Item)) [
              | at end ↦ scan_back n bound (take (end + 1) n.items)
              | before zero ↦ ok none
              | before (suc end) ↦ scan_back n bound (take (end + 1) n.items)
            ]
              ≡ ok (last_where (wanted_before bound) (entries n.prefix_len n.lo n.items))
        placed zero p = sym (scan_back-nil n bound) ∙ behind zero p
        placed (suc i) p =
            subst
              (λ (m : ℕ).
                scan_back n bound (take m n.items)
                ≡ ok (last_where (wanted_before bound) (entries n.prefix_len n.lo n.items)))
              {x = suc i} (omega arith) (behind (suc i) p)

-- The upper bound of a node begins with its prefix too.
whole_hi : (p : ℕ) (lo hi : Key) → IsBounds p lo (some hi) → full_key p lo (drop p hi) ≡ hi
whole_hi p lo hi h = ap (λ q. q ++ drop p hi) (sym h.0) ∙ take-append-drop p hi

long_hi : (p : ℕ) (lo hi : Key) → p ≤ length lo → IsBounds p lo (some hi) → leb p (length hi) ≡ true
long_hi p lo hi l h =
    let e : min p (length hi) ≡ min p (length lo) =
      sym (length-take p hi) ∙ ap length h.0 ∙ length-take p lo in
    le→leb p (length hi) (omega (arith, e, l))
  where
    le→leb : (a b : ℕ) → a ≤ b → leb a b ≡ true
    le→leb a b h = ground arith

-- A key up to the upper bound lies inside of the node, or is the bound.
reaches :
    (p : ℕ) (lo b : Key) (hi : Option Key)
    → not_above b hi ≡ true
    → (below_hi b hi ≡ true) ⊎ (hi ≡ some b)
reaches p lo b none h = inl refl
reaches p lo b (some hi) h = elim (Bool-cases (ltb_key b hi)) [
  | inl l ↦ inl l
  | inr e ↦ inr (ap some (sym (ltb_key_total b hi e (ground (arith, h)))))
]

module _ (memcmp : Key → Key → ℤ) (libc : IsMemcmp memcmp) (n : Node) (is_node : IsNode n)
    (leaf : n.is_index ≡ false) where
  at_key :
      (b : Key)
      → full_key n.prefix_len n.lo (drop n.prefix_len b) ≡ b
      → leb n.prefix_len (length b) ≡ true
      → predecessor memcmp n (excluded b)
        ≡ ok (last_where (wanted_before (excluded b)) (entries n.prefix_len n.lo n.items))
  at_key b w l =
      predecessor_inside n is_node b w l memcmp libc false leaf (unfold search_back in rw l refl)

  whole_map :
      n.hi ≡ none
      → predecessor memcmp n unbounded
        ≡ ok (last_where (wanted_before unbounded) (entries n.prefix_len n.lo n.items))
  whole_map open_end = elim (Bool-cases (is_empty n)) [
    | inl e ↦
        found_runs memcmp n unbounded (before 0) leaf (unfold search_back in rw (open_end, e) refl)
        ∙ sym (scan_back-nil n unbounded)
        ∙ ap (scan_back n unbounded) (sym (no_items n.items (ground (arith, e))))
        ∙ scan_all n is_node n.items
    | inr e ↦
        found_runs memcmp n unbounded (at (children n - 1)) leaf
          (unfold search_back in rw (open_end, e) refl)
        ∙ ap (scan_back n unbounded) (take_all (children n - 1 + 1) n.items (omega arith))
        ∙ scan_all n is_node n.items
  ]
    where
      no_items : (items : List Item) → length items ≡ 0 → items ≡ []
      no_items [] h = refl
      no_items (x ∷ items) h = absurd (omega arith)

      take_all : (k : ℕ) (items : List Item) → length items ≤ k → take k items ≡ items
      take_all zero [] h = refl
      take_all (suc k) [] h = refl
      take_all zero (x ∷ items) h = absurd (omega arith)
      take_all (suc k) (x ∷ items) h = ap (λ l. x ∷ l) (take_all k items (omega arith))

  -- For a sound leaf, and a bound that includes a key between both bounds of the leaf, or excludes one up
  -- to its upper bound, or is none where the leaf has no upper bound, predecessor answers the last item of
  -- the map, with its whole key, that the bound wants, or nothing.
  pub predecessor-last_where :
      (bound : Bound)
      → IsServedBefore n bound
      → predecessor memcmp n bound
        ≡ ok (last_where (wanted_before bound) (entries n.prefix_len n.lo n.items))
  predecessor-last_where (included b) served =
      predecessor_inside n is_node b (whole n is_node b served) (long n is_node b served) memcmp
        libc true leaf
        (unfold search_back prefix_encode in rw (served.0, served.1, long n is_node b served) refl)
  predecessor-last_where (excluded b) served = elim (reaches n.prefix_len n.lo b n.hi served.1) [
    | inl l ↦ at_key b (whole n is_node b (served.0, l)) (long n is_node b (served.0, l))
    | inr e ↦
        let bounds : IsBounds n.prefix_len n.lo (some b) =
          subst (IsBounds n.prefix_len n.lo) e is_node.0.bounds in
        at_key b (whole_hi n.prefix_len n.lo b bounds)
          (long_hi n.prefix_len n.lo b is_node.0.prefixed.0 bounds)
  ]
  predecessor-last_where unbounded served = whole_map served
