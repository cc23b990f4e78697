-- ===== src/Node/Search/Place.antt =====
-- The binary search of a node finds the place of a key (src/node.rs).
use sled.Prelude.{
  ℕ, zero, suc, ◌+◌, ◌-◌, ◌/◌, ◌≤◌, ◌<◌, ◌≡◌, inl, inr, refl, sym, subst, ◌∙◌, arith, true, false,
  List, [], ◌∷◌, map, length, get_or, get_elem?-get_or, All, ltb, ◌==◌, if◌then◌else◌, Bool-cases,
}
use sled.Prelude.Int.{ℤ}
use sled.Prelude.Outcome.{ok}
use sled.Prelude.Sorted.{Ascending}
use sled.Keys.{Key, less, equal, greater, fastcmp, ltb_key}
use sled.Keys.Order.{
  IsMemcmp, cmp_lem, ltb_key_irrefl, ltb_key_trans, ltb_key_total, ltb_key-StrictOrder,
}
use sled.Keys.Memcmp.{fastcmp-cmp}
use sled.Node.{Item, Node, children, index_item, index_key}
use sled.Node.Search.{Found, at, before, find_loop, find_from, find}

abbrev pub key_of : Item → Key
key_of (k, v) = k

-- The keys of a node ascend.
abbrev pub IsSorted : List Item → Type 0
IsSorted items = Ascending ltb_key-StrictOrder (map key_of items)

abbrev pub item_at : List Item → ℕ → Item
item_at items i = get_or items i ([], [])

abbrev pub key_at : List Item → ℕ → Key
key_at items i = key_of (item_at items i)

pub index_item_lem : (n : Node) (i : ℕ) → i < children n → index_item n i ≡ ok (item_at n.items i)
index_item_lem n i h = rw (get_elem?-get_or n.items i ([], []) h) refl

pub index_key_lem : (n : Node) (i : ℕ) → i < children n → index_key n i ≡ ok (key_at n.items i)
index_key_lem n i h = rw (index_item_lem n i h) refl

below-All :
    (k : Key) (items : List Item) (j : ℕ)
    → All (λ i. ltb_key k i ≡ true) (map key_of items)
    → j < length items
    → ltb_key k (key_at items j) ≡ true
below-All k [] j h l = elim l [ ]
below-All k ((i, v) ∷ items) zero h l = h.0
below-All k ((i, v) ∷ items) (suc j) h l = below-All k items j h.1 (omega arith)

pub IsSorted-lt :
    (items : List Item) (i j : ℕ)
    → IsSorted items
    → i < j
    → j < length items
    → ltb_key (key_at items i) (key_at items j) ≡ true
IsSorted-lt [] i j h l m = elim m [ ]
IsSorted-lt (x ∷ items) i zero h l m = elim l [ ]
IsSorted-lt ((k, v) ∷ items) zero (suc j) h l m = below-All k items j h.0 (omega arith)
IsSorted-lt ((k, v) ∷ items) (suc i) (suc j) h l m =
    IsSorted-lt items i j h.1 (omega arith) (omega arith)

pub ltb_key_asym : (a b : Key) → ltb_key a b ≡ true → ltb_key b a ≡ false
ltb_key_asym a b h = elim (Bool-cases (ltb_key b a)) [
  | inl l ↦ absurd (true_false (sym (ltb_key_trans a b a h l) ∙ ltb_key_irrefl a))
  | inr e ↦ e
]
  where
    true_false : true ≡ false → ⊥
    true_false e = cc

-- All keys before `i` are below the key, and all from `i` on above it.
pub record IsPlace (items : List Item) (key : Key) (i : ℕ) : Type 0 where
  pub bound : i ≤ length items
  pub below : (j : ℕ) → j < i → ltb_key (key_at items j) key ≡ true
  pub above : (j : ℕ) → i ≤ j → j < length items → ltb_key key (key_at items j) ≡ true

module _ (memcmp : Key → Key → ℤ) (libc : IsMemcmp memcmp) (n : Node) (sorted : IsSorted n.items)
    (key : Key) where
  -- The last index whose key is not above.
  abbrev IsLast : ℕ → Type 0
  IsLast r =
      (r < children n)
      × (ltb_key key (key_at n.items r) ≡ false)
      × ((j : ℕ) → r < j → j < children n → ltb_key key (key_at n.items j) ≡ true)

  above_mid :
      (m : ℕ)
      → ltb_key key (key_at n.items m) ≡ true
      → (j : ℕ) → m ≤ j
      → j < children n
      → ltb_key key (key_at n.items j) ≡ true
  above_mid m h j l b = elim (Bool-cases (m == j)) [
    | inl e ↦ subst (λ i. ltb_key key (key_at n.items i) ≡ true) (ground arith) h
    | inr e ↦
        ltb_key_trans key (key_at n.items m) (key_at n.items j) h
          (IsSorted-lt n.items m j sorted (ground arith) b)
  ]

  -- The test of the loop looks whether the key is below the one in the middle.
  not_above :
      (a : Key) (base mid : ℕ)
      → elim (fastcmp memcmp a key) as (λ o. ℕ) [ greater ↦ base | less ↦ mid | equal ↦ mid ]
        ≡ (if ltb_key key a then base else mid)
  not_above a base mid =
      rw (fastcmp-cmp memcmp libc a key, cmp_lem a key)
        (elim (Bool-cases (ltb_key a key)) [
          | inl l ↦ rw (l, ltb_key_asym a key l) refl
          | inr e ↦ rw e (ground arith)
        ])

  find_loop-IsLast :
      (fuel size base : ℕ)
      → size ≤ fuel
      → 1 ≤ size
      → base + size ≤ children n
      → ltb_key key (key_at n.items base) ≡ false
      → ((j : ℕ) → base + size ≤ j → j < children n → ltb_key key (key_at n.items j) ≡ true)
      → (r : ℕ) × (find_loop memcmp n key fuel size base ≡ ok r) × IsLast r
  unfolding find_loop
  find_loop-IsLast zero size base f p b low high = absurd (omega arith)
  find_loop-IsLast (suc fuel) size base f p b low high = elim (Bool-cases (ltb 1 size)) [
    | inr e ↦ rw e (base, refl, (omega arith, low, λ j l. high j (ground arith)))
    | inl e ↦
        rw (e, index_key_lem n (base + size / 2) (ground arith), not_above)
          (elim (Bool-cases (ltb_key key (key_at n.items (base + size / 2)))) [
            | inl up ↦ rw up (
                find_loop-IsLast fuel (size - size / 2) base (ground arith) (ground arith)
                  (omega arith) low (λ j l. above_mid (base + size / 2) up j (omega arith)))
            | inr down ↦ rw down (
                find_loop-IsLast fuel (size - size / 2) (base + size / 2) (ground arith)
                  (ground arith) (omega arith) down (λ j l. high j (omega arith)))
          ])
  ]

  -- What the search says of a key: it stands at the index, or it would stand before it.
  abbrev pub Located : Found → Type 0
  Located (at i) = (i < children n) × (key_at n.items i ≡ key)
  Located (before i) = IsPlace n.items key i

  find_from-Located :
      1 ≤ children n
      → ltb_key key (key_at n.items 0) ≡ false
      → (r : Found) × (find_from memcmp n key ≡ ok r) × Located r
  unfolding find_from
  find_from-Located p low =
      let (r, e, last) =
        find_loop-IsLast (children n) (children n) 0 (omega arith) p (omega arith) low
          (λ j l b. absurd (omega arith)) in
      rw
        (
          e,
          index_key_lem n r last.0,
          fastcmp-cmp memcmp libc (key_at n.items r) key,
          cmp_lem,
          last.1,
        )
        (elim (Bool-cases (ltb_key (key_at n.items r) key)) [
          | inl l ↦ rw l (
            before (r + 1),
            refl,
            record {
              bound = omega arith;
              below = λ j b. under r l last.0 j (omega arith);
              above = λ j b. last.2 j (omega arith);
            },
          )
          | inr e' ↦ rw e' (at r, refl, (last.0, ltb_key_total _ _ e' last.1))
        ])
    where
      under :
          (r : ℕ)
          → ltb_key (key_at n.items r) key ≡ true
          → r < children n
          → (j : ℕ) → j ≤ r
          → ltb_key (key_at n.items j) key ≡ true
      under r l b j h = elim (Bool-cases (j == r)) [
        | inl e ↦ subst (λ i. ltb_key (key_at n.items i) key ≡ true) (ground arith) l
        | inr e ↦
            ltb_key_trans (key_at n.items j) (key_at n.items r) key
              (IsSorted-lt n.items j r sorted (ground arith) b) l
      ]

  -- In a node whose keys ascend strictly, with a memcmp that keeps the promises of libc, find ends
  -- with an index, which holds the key, or with the place before which the key would stand: all keys
  -- before it are smaller, and all others larger.
  pub find-Located : (r : Found) × (find memcmp n key ≡ ok r) × Located r
  unfolding find
  find-Located = elim (Bool-cases (children n == 0)) [
    | inl e ↦ rw e (
      before 0,
      refl,
      record {
        bound = omega arith;
        below = λ j b. absurd (omega arith);
        above = λ j l b. absurd (ground arith);
      },
    )
    | inr e ↦
        rw (e, index_key_lem n 0 (ground arith))
          (elim (Bool-cases (ltb_key key (key_at n.items 0))) [
            | inl l ↦ rw l (
              before 0,
              refl,
              record {
                bound = omega arith;
                below = λ j b. absurd (omega arith);
                above = λ j h b. above_mid 0 l j h b;
              },
            )
            | inr l ↦ rw l (find_from-Located (ground arith) l)
          ])
  ]
