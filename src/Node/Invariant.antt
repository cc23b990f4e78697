-- ===== src/Node/Invariant.antt =====
-- What holds of the content of every node of the tree (src/node.rs): its items ascend, and their keys
-- lie between its bounds, which share the prefix that the keys are stored without.
use sled.Prelude.{
  ℕ, ◌+◌, ◌≤◌, ◌≡◌, inl, inr, refl, ap, sym, ◌∙◌, arith, Bool, true, false, Option, none, some,
  List, [], ◌∷◌, ◌++◌, map, length, take, All, Bool-cases,
}
use sled.Prelude.Sorted.{insert, remove, insert_set, same_key, insert_set-Ascending}
use sled.Keys.{Key, ltb_key}
use sled.Keys.Order.{ltb_key-StrictOrder, ltb_key_total}
use sled.Keys.Prefix.{ltb_key-append}
use sled.Node.{Item, Node}
use sled.Node.Search.Place.{IsSorted, key_of}
use sled.Node.Search.{below_hi}
use sled.Node.Sizes.{total_size}

-- A stored key with its prefix, which is the beginning of the lower bound.
abbrev pub full_key : ℕ → Key → Key → Key
full_key prefix_len lo k = take prefix_len lo ++ k

-- A key that a node with these bounds may store.
abbrev pub InRange : ℕ → Key → Option Key → Key → Type 0
InRange prefix_len lo hi k =
    (ltb_key (full_key prefix_len lo k) lo ≡ false)
    × (below_hi (full_key prefix_len lo k) hi ≡ true)

-- Both bounds begin with the prefix. Without an upper bound there is none.
abbrev pub IsBounds : ℕ → Key → Option Key → Type 0
IsBounds prefix_len lo none = prefix_len ≡ 0
IsBounds prefix_len lo (some hi) =
    (take prefix_len hi ≡ take prefix_len lo) × (ltb_key lo hi ≡ true)

-- The values of an index are page ids, and its first key is its lower bound.
abbrev pub IsIndex : ℕ → Key → Bool → List Item → Type 0
IsIndex prefix_len lo false items = Unit
IsIndex prefix_len lo true [] = ⊥
IsIndex prefix_len lo true ((k, v) ∷ items) =
    (full_key prefix_len lo k ≡ lo) × All (λ i. length i.1 ≡ 8) ((k, v) ∷ items)

pub record IsContent (prefix_len : ℕ) (lo : Key) (hi : Option Key) (is_index : Bool)
    (items : List Item) : Type 0 where
  pub sorted : IsSorted items
  pub counted : length items ≤ 65535
  pub prefixed : (prefix_len ≤ length lo) × (prefix_len ≤ 255)
  pub bounds : IsBounds prefix_len lo hi
  pub ranged : All (λ i. InRange prefix_len lo hi i.0) items
  pub indexed : IsIndex prefix_len lo is_index items

abbrev pub IsNode : Node → Type 0
IsNode n = IsContent n.prefix_len n.lo n.hi n.is_index n.items × (total_size n n.items ≤ n.len)

module _ {κ} (P : Item → Type κ) (k : Key) where
  pub All-insert :
      (v : Key) (items : List Item) → P (k, v) → All P items → All P (insert ltb_key k v items)
  unfolding insert
  All-insert v [] p h = (p, tt)
  All-insert v ((j, w) ∷ items) p h = elim (Bool-cases (ltb_key k j)) [
    | inl l ↦ rw l (p, h)
    | inr e ↦ elim (Bool-cases (ltb_key j k)) [
      | inl g ↦ rw (e, g) (h.0, All-insert v items p h.1)
      | inr f ↦ rw (e, f) (p, h.1)
    ]
  ]

  pub All-remove : (items : List Item) → All P items → All P (remove ltb_key k items)
  unfolding remove
  All-remove [] h = tt
  All-remove ((j, w) ∷ items) h = elim (Bool-cases (same_key ltb_key k j)) [
    | inl e ↦ rw e (All-remove items h.1)
    | inr e ↦ rw e (h.0, All-remove items h.1)
  ]

keys-insert :
    (k v : Key) (items : List Item)
    → map key_of (insert ltb_key k v items) ≡ insert_set ltb_key k (map key_of items)
unfolding insert insert_set
keys-insert k v [] = refl
keys-insert k v ((j, w) ∷ items) = ground (arith, ltb_key_total k j, keys-insert k v items)

pub insert-IsSorted :
    (k v : Key) (items : List Item) → IsSorted items → IsSorted (insert ltb_key k v items)
insert-IsSorted k v items h =
    rw (keys-insert k v items) (insert_set-Ascending ltb_key-StrictOrder k (map key_of items) h)

above-remove :
    (i k : Key) (items : List Item)
    → All (λ j. ltb_key i j ≡ true) (map key_of items)
    → All (λ j. ltb_key i j ≡ true) (map key_of (remove ltb_key k items))
unfolding remove
above-remove i k [] h = tt
above-remove i k ((j, w) ∷ items) h = elim (Bool-cases (same_key ltb_key k j)) [
  | inl e ↦ rw e (above-remove i k items h.1)
  | inr e ↦ rw e (h.0, above-remove i k items h.1)
]

pub remove-IsSorted :
    (k : Key) (items : List Item) → IsSorted items → IsSorted (remove ltb_key k items)
unfolding remove
remove-IsSorted k [] h = tt
remove-IsSorted k ((j, w) ∷ items) h = elim (Bool-cases (same_key ltb_key k j)) [
  | inl e ↦ rw e (remove-IsSorted k items h.1)
  | inr e ↦ rw e (above-remove j k items h.0, remove-IsSorted k items h.1)
]

pub length-insert :
    (k v : Key) (items : List Item) → length (insert ltb_key k v items) ≤ length items + 1
unfolding insert
length-insert k v [] = omega arith
length-insert k v ((j, w) ∷ items) = ground (arith, length-insert k v items)

pub length-remove : (k : Key) (items : List Item) → length (remove ltb_key k items) ≤ length items
unfolding remove
length-remove k [] = omega arith
length-remove k ((j, w) ∷ items) = ground (arith, length-remove k items)

-- A key in the range of an index does not come before its first key.
not_before :
    (prefix_len : ℕ) (lo k j : Key)
    → full_key prefix_len lo j ≡ lo
    → ltb_key (full_key prefix_len lo k) lo ≡ false
    → ltb_key k j ≡ false
not_before prefix_len lo k j e h =
    sym (ltb_key-append (take prefix_len lo) k j) ∙ ap (ltb_key (full_key prefix_len lo k)) e ∙ h

insert-IsIndex :
    (prefix_len : ℕ) (lo : Key) (is_index : Bool) (k v : Key) (items : List Item)
    → ltb_key (full_key prefix_len lo k) lo ≡ false
    → (is_index ≡ true → length v ≡ 8)
    → IsIndex prefix_len lo is_index items
    → IsIndex prefix_len lo is_index (insert ltb_key k v items)
unfolding insert
insert-IsIndex prefix_len lo false k v items r p h = tt
insert-IsIndex prefix_len lo true k v [] r p h = elim h [ ]
insert-IsIndex prefix_len lo true k v ((j, w) ∷ items) r p h =
    rw (not_before prefix_len lo k j h.0 r) (elim (Bool-cases (ltb_key j k)) [
      | inl g ↦ rw g (h.0, (h.1.0, All-insert (λ i. length i.1 ≡ 8) k v items (p refl) h.1.1))
      | inr f ↦ rw f (
        ap (full_key prefix_len lo) (ltb_key_total k j (not_before prefix_len lo k j h.0 r) f)
            ∙ h.0,
        (p refl, h.1.1),
      )
    ])

pub insert-IsContent :
    (prefix_len : ℕ) (lo : Key) (hi : Option Key) (is_index : Bool) (k v : Key) (items : List Item)
    → length (insert ltb_key k v items) ≤ 65535
    → InRange prefix_len lo hi k
    → (is_index ≡ true → length v ≡ 8)
    → IsContent prefix_len lo hi is_index items
    → IsContent prefix_len lo hi is_index (insert ltb_key k v items)
insert-IsContent prefix_len lo hi is_index k v items c r p h = record {
  sorted = insert-IsSorted k v items h.sorted;
  counted = c;
  prefixed = h.prefixed;
  bounds = h.bounds;
  ranged = All-insert (λ i. InRange prefix_len lo hi i.0) k v items r h.ranged;
  indexed = insert-IsIndex prefix_len lo is_index k v items r.0 p h.indexed;
}

-- The first key of an index stays.
abbrev pub Removable : Bool → Key → List Item → Type 0
Removable false k items = Unit
Removable true k [] = Unit
Removable true k ((j, w) ∷ items) = same_key ltb_key k j ≡ false

remove-IsIndex :
    (prefix_len : ℕ) (lo : Key) (is_index : Bool) (k : Key) (items : List Item)
    → Removable is_index k items
    → IsIndex prefix_len lo is_index items
    → IsIndex prefix_len lo is_index (remove ltb_key k items)
unfolding remove
remove-IsIndex prefix_len lo false k items r h = tt
remove-IsIndex prefix_len lo true k [] r h = elim h [ ]
remove-IsIndex prefix_len lo true k ((j, w) ∷ items) r h =
    rw r (h.0, (h.1.0, All-remove (λ i. length i.1 ≡ 8) k items h.1.1))

pub remove-IsContent :
    (prefix_len : ℕ) (lo : Key) (hi : Option Key) (is_index : Bool) (k : Key) (items : List Item)
    → Removable is_index k items
    → IsContent prefix_len lo hi is_index items
    → IsContent prefix_len lo hi is_index (remove ltb_key k items)
remove-IsContent prefix_len lo hi is_index k items r h = record {
  sorted = remove-IsSorted k items h.sorted;
  counted = omega (arith, length-remove k items, h.counted);
  prefixed = h.prefixed;
  bounds = h.bounds;
  ranged = All-remove (λ i. InRange prefix_len lo hi i.0) k items h.ranged;
  indexed = remove-IsIndex prefix_len lo is_index k items r h.indexed;
}
