-- ===== src/Node/Range/Successor.antt =====
-- `successor` of src/node.rs gives the first item at or behind a bound.
use sled.Prelude.{
  ℕ, zero, suc, ◌≤◌, ◌<◌, ◌≡◌, inl, inr, refl, ap, sym, subst, ◌∙◌, arith, Bool, true, false, not,
  Option, none, some, List, [], ◌∷◌, length, take, drop, All, ltb, ◌==◌, Bool-cases, if◌then◌else◌,
}
use sled.Prelude.Int.{ℤ}
use sled.Prelude.Outcome.{Outcome, ok, err, panic, ◌>>=◌, ◌>>◌, assert}
use sled.Keys.{Key, ltb_key, leb_key}
use sled.Keys.Order.{IsMemcmp, ltb_key_irrefl, ltb_key_trans, ltb_key_total}
use sled.Node.{Item, Node, children}
use sled.Node.Search.{Found, at, before, below_hi, find}
use sled.Node.Search.Place.{IsSorted-lt, IsPlace, key_at, ltb_key_asym}
use sled.Node.Search.Map.{find-get}
use sled.Node.Search.Pairs.{entries, whole, long}
use sled.Node.Invariant.{full_key, InRange, IsBounds, IsNode}
use sled.Node.Split.Entries.{All-of_take, All-of_drop, key_at-entries, length-entries, entries-drop}
use sled.Node.Range.Whole.{decodes, compare_low, compare_high}
use sled.Node.Range.{
  Bound, included, excluded, unbounded, max_key, prefix_encode, lowest_key, is_excluded, scan,
  successor,
}

-- The first item of a map whose key is wanted.
abbrev pub first_where : (Key → Bool) → List Item → Option Item
first_where wanted [] = none
first_where wanted ((k, v) ∷ es) =
    let rest = first_where wanted es in if wanted k then some (k, v) else rest

-- The bound with this key, and the keys that it wants.
abbrev bound_at : Bool → Key → Bound
bound_at true b = included b
bound_at false b = excluded b

abbrev wanted : Bool → Key → Key → Bool
wanted true b k = not (ltb_key k b)
wanted false b k = ltb_key b k

first_where-drop :
    (w : Key → Bool) (i : ℕ) (es : List Item)
    → All (λ e. w e.0 ≡ false) (take i es)
    → first_where w es ≡ first_where w (drop i es)
first_where-drop w zero es h = refl
first_where-drop w (suc i) [] h = refl
first_where-drop w (suc i) ((k, v) ∷ es) h = rw h.0 (first_where-drop w i es h.1)

module _ (n : Node) (is_node : IsNode n) (b : Key)
    (inside : (leb_key n.lo b ≡ true) × (below_hi b n.hi ≡ true)) where
  abbrev suffix : Key
  suffix = drop n.prefix_len b

  -- The bound is not below the lower bound of the node.
  top : max_key b n.lo ≡ b
  top = elim (Bool-cases (ltb_key n.lo b)) [
    | inl l ↦ rw l refl
    | inr e ↦ rw e (ltb_key_total n.lo b e (ground (arith, inside.0)))
  ]

  lowest : (inc : Bool) → lowest_key n (bound_at inc b) ≡ ok suffix
  unfolding lowest_key prefix_encode
  lowest true = rw (top, inside.0, inside.1, long n is_node b inside) refl
  lowest false = rw (top, inside.0, inside.1, long n is_node b inside) refl

  scan-first :
      (inc : Bool) (items : List Item)
      → All (λ i. ltb_key i.0 suffix ≡ false) items
      → scan n (bound_at inc b) items
        ≡ ok (first_where (wanted inc b) (entries n.prefix_len n.lo items))
  unfolding scan is_excluded
  scan-first true [] h = refl
  scan-first false [] h = refl
  scan-first true ((k, v) ∷ items) h =
      rw (decodes n is_node k, compare_low n b (whole n is_node b inside) k, h.0) refl
  scan-first false ((k, v) ∷ items) h =
      rw (long n is_node b inside, compare_high n b (whole n is_node b inside) k)
        (elim (Bool-cases (ltb_key suffix k)) [
          | inl l ↦ rw (l, decodes n is_node k) refl
          | inr e ↦ rw (e, h.0) (scan-first false items h.1)
        ])

  -- From the place of the key on, the scan gives the first wanted item of the whole map.
  scan_from :
      (inc : Bool) (i : ℕ)
      → ((j : ℕ) → j < i → j < children n → ltb_key (key_at n.items j) suffix ≡ true)
      → ((j : ℕ) → i ≤ j → j < children n → ltb_key (key_at n.items j) suffix ≡ false)
      → scan n (bound_at inc b) (drop i n.items)
        ≡ ok (first_where (wanted inc b) (entries n.prefix_len n.lo n.items))
  scan_from inc i low high =
      scan-first inc (drop i n.items) (All-of_drop (λ e. ltb_key e.0 suffix ≡ false) i n.items high)
      ∙ ap (λ es. ok (first_where (wanted inc b) es)) (entries-drop n.prefix_len n.lo i n.items)
      ∙ ap ok (
          sym (
            first_where-drop (wanted inc b) i (entries n.prefix_len n.lo n.items) (
              All-of_take (λ e. wanted inc b e.0 ≡ false) i (entries n.prefix_len n.lo n.items)
                (λ j l c. unwanted inc j l c))))
    where
      not_wanted :
          (inc : Bool) (k : Key)
          → ltb_key k suffix ≡ true
          → wanted inc b (full_key n.prefix_len n.lo k) ≡ false
      not_wanted true k d = rw (compare_low n b (whole n is_node b inside) k, d) refl
      not_wanted false k d = compare_high n b (whole n is_node b inside) k ∙ ltb_key_asym k suffix d

      unwanted :
          (inc : Bool) (j : ℕ)
          → j < i
          → j < length (entries n.prefix_len n.lo n.items)
          → wanted inc b (key_at (entries n.prefix_len n.lo n.items) j) ≡ false
      unwanted inc j l c =
          let c' : j < children n = omega (arith, c, length-entries n.prefix_len n.lo n.items) in
          let d : ltb_key (key_at n.items j) suffix ≡ true = low j l c' in
          ap (wanted inc b) (key_at-entries n.prefix_len n.lo n.items j c')
          ∙ not_wanted inc (key_at n.items j) d

  found_runs :
      (memcmp : Key → Key → ℤ) (inc : Bool) (r : Found)
      → n.is_index ≡ false
      → find memcmp n suffix ≡ ok r
      → successor memcmp n (bound_at inc b) ≡ elim r as (λ f. Outcome (Option Item)) [
        | at start ↦ scan n (bound_at inc b) (drop start n.items)
        | before start ↦
            if ltb start (children n) then scan n (bound_at inc b) (drop start n.items) else ok none
      ]
  unfolding successor
  found_runs memcmp inc r leaf e = leaf_runs n.is_index _ leaf ∙ rw (lowest inc, e) refl
    where
      leaf_runs : (x : Bool) (o : Outcome (Option Item)) → x ≡ false → (assert (not x) >> o) ≡ o
      leaf_runs x o h = rw h refl

  -- A bound with a key between the bounds of the node.
  successor_inside :
      (memcmp : Key → Key → ℤ) (libc : IsMemcmp memcmp) (inc : Bool)
      → n.is_index ≡ false
      → successor memcmp n (bound_at inc b)
        ≡ ok (first_where (wanted inc b) (entries n.prefix_len n.lo n.items))
  successor_inside memcmp libc inc leaf =
      let (i, found) = find-get memcmp libc n is_node.0.sorted suffix in
      elim found [
        | inl f ↦
            found_runs memcmp inc (at i) leaf f.0
            ∙ scan_from inc i
                (λ j l c.
                  subst (λ k. ltb_key (key_at n.items j) k ≡ true) f.2
                    (IsSorted-lt n.items j i is_node.0.sorted l f.1))
                (λ j l c. elim (Bool-cases (j == i)) [
                  | inl q ↦
                      subst (λ k. ltb_key (key_at n.items j) k ≡ false) f.2
                        (subst (λ (m : ℕ). ltb_key (key_at n.items j) (key_at n.items m) ≡ false)
                          (ground arith) (ltb_key_irrefl (key_at n.items j)))
                  | inr q ↦
                      subst (λ k. ltb_key (key_at n.items j) k ≡ false) f.2
                        (ltb_key_asym (key_at n.items i) (key_at n.items j)
                          (IsSorted-lt n.items i j is_node.0.sorted (ground arith) c))
                ])
        | inr f ↦
            found_runs memcmp inc (before i) leaf f.0 ∙ elim (Bool-cases (ltb i (children n))) [
              | inl t ↦ rw t (placed inc i f.1)
              | inr t ↦ rw t (sym (empty_scan i (ground arith)) ∙ placed inc i f.1)
            ]
      ]
    where
      placed :
          (inc : Bool) (i : ℕ)
          → IsPlace n.items suffix i
          → scan n (bound_at inc b) (drop i n.items)
            ≡ ok (first_where (wanted inc b) (entries n.prefix_len n.lo n.items))
      placed inc i p =
          scan_from inc i (λ j l c. p.below j l)
            (λ j l c. ltb_key_asym suffix (key_at n.items j) (p.above j l c))

      nothing : (items : List Item) (i : ℕ) → length items ≤ i → drop i items ≡ []
      nothing [] zero h = refl
      nothing [] (suc i) h = refl
      nothing (x ∷ items) zero h = absurd (omega arith)
      nothing (x ∷ items) (suc i) h = nothing items i (omega arith)

      empty_scan : (i : ℕ) → children n ≤ i → scan n (bound_at inc b) (drop i n.items) ≡ ok none
      empty_scan i h = unfold scan in rw (nothing n.items i h) refl

-- The keys that a bound wants.
abbrev pub wanted_by : Bound → Key → Bool
wanted_by (included b) k = not (ltb_key k b)
wanted_by (excluded b) k = ltb_key b k
wanted_by unbounded k = true

-- The bounds that `successor` serves: what is included may lie below the node, what is excluded may
-- not, which the iterator sees to by `contains_lower_bound`.
abbrev pub IsServed : Node → Bound → Type 0
IsServed n (included b) = below_hi b n.hi ≡ true
IsServed n (excluded b) = (leb_key n.lo b ≡ true) × (below_hi b n.hi ≡ true)
IsServed n unbounded = Unit

bind_congr :
    {A B : Type 0} (m : Outcome A) (f g : A → Outcome B)
    → ((a : A) → f a ≡ g a)
    → (m >>= f) ≡ (m >>= g)
bind_congr (ok a) f g h = h a
bind_congr (err e) f g h = refl
bind_congr panic f g h = refl

first_where_congr :
    (w w' : Key → Bool) (es : List Item)
    → All (λ e. w e.0 ≡ w' e.0) es
    → first_where w es ≡ first_where w' es
first_where_congr w w' [] h = refl
first_where_congr w w' ((k, v) ∷ es) h = rw (h.0, first_where_congr w w' es h.1) refl

-- Bounds that begin at the same key and exclude the same items have the same successor.
successor_alike :
    (memcmp : Key → Key → ℤ) (n : Node) (p q : Bound)
    → lowest_key n p ≡ lowest_key n q
    → ((items : List Item) → scan n p items ≡ scan n q items)
    → successor memcmp n p ≡ successor memcmp n q
unfolding successor
successor_alike memcmp n p q e h = rw e (
    ap (λ (o : Outcome (Option Item)). assert (not n.is_index) >> o)
      (bind_congr (lowest_key n q) _ _ λ key. bind_congr (find memcmp n key) _ _ place))
  where
    place :
        (r : Found)
        → elim r as (λ f. Outcome (Option Item)) [
          | at start ↦ scan n p (drop start n.items)
          | before start ↦ if ltb start (children n) then scan n p (drop start n.items) else ok none
        ]
          ≡ elim r as (λ f. Outcome (Option Item)) [
            | at start ↦ scan n q (drop start n.items)
            | before start ↦
                if ltb start (children n) then scan n q (drop start n.items) else ok none
          ]
    place (at start) = h (drop start n.items)
    place (before start) = rw (h (drop start n.items)) refl

-- Only an excluded key is passed over.
scan-included :
    (n : Node) (a b : Key) (items : List Item)
    → scan n (included a) items ≡ scan n (included b) items
unfolding scan is_excluded
scan-included n a b [] = refl
scan-included n a b ((k, v) ∷ items) = refl

scan-unbounded :
    (n : Node) (b : Key) (items : List Item) → scan n unbounded items ≡ scan n (included b) items
unfolding scan is_excluded
scan-unbounded n b [] = refl
scan-unbounded n b ((k, v) ∷ items) = refl

low_inside : (p : ℕ) (lo : Key) (hi : Option Key) → IsBounds p lo hi → below_hi lo hi ≡ true
low_inside p lo none h = refl
low_inside p lo (some hi) h = h.1

not_below :
    (p : ℕ) (lo : Key) (hi : Option Key) (items : List Item)
    → All (λ i. InRange p lo hi i.0) items
    → All (λ e. ltb_key e.0 lo ≡ false) (entries p lo items)
not_below p lo hi [] h = tt
not_below p lo hi ((k, v) ∷ items) h = (h.0.0, not_below p lo hi items h.1)

module _ (memcmp : Key → Key → ℤ) (libc : IsMemcmp memcmp) (n : Node) (is_node : IsNode n)
    (leaf : n.is_index ≡ false) where
  above_low : All (λ e. ltb_key e.0 n.lo ≡ false) (entries n.prefix_len n.lo n.items)
  above_low = not_below n.prefix_len n.lo n.hi n.items is_node.0.ranged

  from_low :
      successor memcmp n (included n.lo)
      ≡ ok (first_where (wanted_by (included n.lo)) (entries n.prefix_len n.lo n.items))
  from_low =
      successor_inside n is_node n.lo
        (rw (ltb_key_irrefl n.lo) refl, low_inside n.prefix_len n.lo n.hi is_node.0.bounds) memcmp
        libc true leaf

  -- A bound below the node wants what the lower bound of the node wants.
  below_node :
      (b : Key)
      → ltb_key b n.lo ≡ true
      → successor memcmp n (included b)
        ≡ ok (first_where (wanted_by (included b)) (entries n.prefix_len n.lo n.items))
  unfolding lowest_key
  below_node b low =
      successor_alike memcmp n (included b) (included n.lo) (ap (prefix_encode n) moved)
        (scan-included n b n.lo)
      ∙ from_low
      ∙ ap ok (first_where_congr _ _ _ (agree _ above_low))
    where
      moved : max_key b n.lo ≡ max_key n.lo n.lo
      moved = rw (ltb_key_asym b n.lo low, ltb_key_irrefl n.lo) refl

      agree :
          (es : List Item)
          → All (λ e. ltb_key e.0 n.lo ≡ false) es
          → All (λ e. wanted_by (included n.lo) e.0 ≡ wanted_by (included b) e.0) es
      agree [] h = tt
      agree (e ∷ es) h = (ground (arith, h.0, low, ltb_key_trans e.0 b n.lo), agree es h.1)

  without_bound :
      successor memcmp n unbounded
      ≡ ok (first_where (wanted_by unbounded) (entries n.prefix_len n.lo n.items))
  unfolding lowest_key
  without_bound =
      successor_alike memcmp n unbounded (included n.lo) (ap (prefix_encode n) moved)
        (scan-unbounded n n.lo)
      ∙ from_low
      ∙ ap ok (first_where_congr _ _ _ (agree _ above_low))
    where
      moved : n.lo ≡ max_key n.lo n.lo
      moved = rw (ltb_key_irrefl n.lo) refl

      agree :
          (es : List Item)
          → All (λ e. ltb_key e.0 n.lo ≡ false) es
          → All (λ e. wanted_by (included n.lo) e.0 ≡ wanted_by unbounded e.0) es
      agree [] h = tt
      agree (e ∷ es) h = (rw h.0 refl, agree es h.1)

  -- For a sound leaf, and a bound that is none, or includes a key below the upper bound of the leaf, or
  -- excludes a key between both bounds, successor answers the first item of the map, with its whole key,
  -- that the bound wants, or nothing.
  pub successor-first_where :
      (bound : Bound)
      → IsServed n bound
      → successor memcmp n bound
        ≡ ok (first_where (wanted_by bound) (entries n.prefix_len n.lo n.items))
  successor-first_where (included b) served = elim (Bool-cases (ltb_key b n.lo)) [
    | inl low ↦ below_node b low
    | inr e ↦ successor_inside n is_node b (rw e refl, served) memcmp libc true leaf
  ]
  successor-first_where (excluded b) served =
      successor_inside n is_node b served memcmp libc false leaf
  successor-first_where unbounded served = without_bound
