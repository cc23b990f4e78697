-- ===== src/Node/Sizes.antt =====
-- The size of a node's buffer (`Node::new` of src/node.rs).
use sled.Prelude.{
  ℕ, ◌+◌, ◌*◌, ◌^◌, ◌≤◌, ◌<◌, max, ◌≡◌, inl, inr, refl, arith, Bool, true, false, Option, none,
  some, List, [], ◌∷◌, map, length, leb, ltb, Bool-cases, lt→ltb,
}
use sled.Prelude.Outcome.{ok}
use native.Mathlib.Nat.{mul-suc}
use sled.Varint.Encode.{size_bounds}
use sled.Keys.{Key}
use sled.Node.{
  Item, Node, key_length, value_length, all_equal, fixed_length, prefixed_sizes, storage_size,
  bytes_per_offset, offset_bytes_for, index_values_fit, stored_hi, new,
}
use sled.Node.Stitch.{item_size}

-- An upper bound of what items take: 24 bytes each, with their two lengths and an offset.
abbrev pub weight : List Item → ℕ
weight [] = 0
weight ((k, v) ∷ items) = length k + length v + 24 + weight items

abbrev pub total : List ℕ → ℕ
total [] = 0
total (l ∷ ls) = l + total ls

all_equal-total : (n : ℕ) (ls : List ℕ) → all_equal n ls ≡ true → n * length ls ≡ total ls
unfolding all_equal
all_equal-total n [] h = omega arith
all_equal-total n (l ∷ ls) h =
    let (same, rest) = both in omega (arith, all_equal-total n ls rest, mul-suc n (length ls))
  where
    both : (n ≡ l) × (all_equal n ls ≡ true)
    both = ground arith

prefixed_sizes-bounds :
    (ls : List ℕ) → (total ls ≤ prefixed_sizes ls) × (prefixed_sizes ls ≤ total ls + 9 * length ls)
unfolding prefixed_sizes
prefixed_sizes-bounds [] = (omega arith, omega arith)
prefixed_sizes-bounds (l ∷ ls) =
    let (a, b) = prefixed_sizes-bounds ls in
    let (c, d) = size_bounds l in (omega arith, omega arith)

-- What lengths take, with a varint for each where they are not fixed.
abbrev taken : Option ℕ → List ℕ → ℕ
taken none ls = prefixed_sizes ls
taken (some l) ls = total ls

storage_size-taken : (ls : List ℕ) → storage_size (fixed_length ls) ls ≡ taken (fixed_length ls) ls
unfolding fixed_length storage_size
storage_size-taken [] = refl
storage_size-taken (l ∷ ls) = elim (Bool-cases (all_equal l (l ∷ ls))) [
  | inr e ↦ rw e refl
  | inl e ↦ elim (Bool-cases (ltb 0 l)) [
    | inr z ↦ rw (e, z) refl
    | inl z ↦ rw (e, z) (all_equal-total l (l ∷ ls) e)
  ]
]

taken-bound : (o : Option ℕ) (ls : List ℕ) → taken o ls ≤ total ls + 9 * length ls
taken-bound none ls = (prefixed_sizes-bounds ls).1
taken-bound (some l) ls = omega arith

pub bytes_per_offset_small : (i : ℕ) → i < 2 ^ 48 → (b : ℕ) × (bytes_per_offset i ≡ ok b) × (b ≤ 6)
unfolding bytes_per_offset
bytes_per_offset_small i h = elim (Bool-cases (ltb i 256)) [
  | inl e ↦ rw e (1, refl, omega arith)
  | inr e0 ↦ rw e0 (elim (Bool-cases (ltb i (2 ^ 16))) [
    | inl e ↦ rw e (2, refl, omega arith)
    | inr e1 ↦ rw e1 (elim (Bool-cases (ltb i (2 ^ 24))) [
      | inl e ↦ rw e (3, refl, omega arith)
      | inr e2 ↦ rw e2 (elim (Bool-cases (ltb i (2 ^ 32))) [
        | inl e ↦ rw e (4, refl, omega arith)
        | inr e3 ↦ rw e3 (elim (Bool-cases (ltb i (2 ^ 40))) [
          | inl e ↦ rw e (5, refl, omega arith)
          | inr e4 ↦ rw e4 (rw (lt→ltb i (2 ^ 48) h) (6, refl, omega arith))
        ])
      ])
    ])
  ])
]

offset_bytes_for_small :
    (k v : Option ℕ) (i : ℕ) → i < 2 ^ 48 → (b : ℕ) × (offset_bytes_for k v i ≡ ok b) × (b ≤ 6)
unfolding offset_bytes_for
offset_bytes_for_small none v i h = bytes_per_offset_small i h
offset_bytes_for_small (some k) none i h = bytes_per_offset_small i h
offset_bytes_for_small (some k) (some v) i h = (0, refl, omega arith)

total_weight :
    (items : List Item)
    → total (map key_length items) + total (map value_length items) + 24 * length items
      ≡ weight items
total_weight [] = omega arith
total_weight ((k, v) ∷ items) = omega (arith, total_weight items)

length-map : (f : Item → ℕ) (items : List Item) → length (map f items) ≡ length items
length-map f [] = refl
length-map f (i ∷ items) = omega (arith, length-map f items)

abbrev pub total_size : Node → List Item → ℕ
total_size n [] = 0
total_size n (item ∷ items) = item_size n item + total_size n items

-- What a new node is, but for the sizes that were chosen for it.
pub record IsNew (lo : Key) (hi : Option Key) (prefix_len : ℕ) (is_index : Bool) (next : Option ℕ)
    (items : List Item) (n : Node) : Type 0 where
  pub lo_kept : n.lo ≡ lo
  pub hi_kept : n.hi ≡ stored_hi hi
  pub prefix_kept : n.prefix_len ≡ prefix_len
  pub index_kept : n.is_index ≡ is_index
  pub next_kept : n.next ≡ next
  pub items_kept : n.items ≡ items
  pub not_merging : n.merging ≡ false
  pub no_child : n.merging_child ≡ none
  pub roomy : total_size n items ≤ n.len

taken-nil : (o : Option ℕ) → taken o [] ≡ 0
unfolding prefixed_sizes
taken-nil none = refl
taken-nil (some l) = refl

total_size-taken :
    (n : Node) (items : List Item)
    → total_size n items
      ≡ n.offset_bytes * length items
        + taken n.fixed_key_length (map key_length items)
        + taken n.fixed_value_length (map value_length items)
unfolding item_size prefixed_sizes
total_size-taken n [] = omega (arith, taken-nil n.fixed_key_length, taken-nil n.fixed_value_length)
total_size-taken n ((k, v) ∷ items) =
    grind (arith, total_size-taken n items, mul-suc n.offset_bytes (length items))

pub new-IsNew :
    (lo : Key) (hi : Option Key) (prefix_len : ℕ) (is_index : Bool) (next : Option ℕ)
    (items : List Item)
    → length items ≤ 65535
    → index_values_fit is_index items ≡ true
    → weight items + 8 < 2 ^ 48
    → (n : Node) × (new lo hi prefix_len is_index next items ≡ ok n)
      × IsNew lo hi prefix_len is_index next items n
unfolding new
new-IsNew lo hi prefix_len is_index next items c f w =
    let (b, e, bound) = offset_bytes_for_small (fixed_length keys) (fixed_length values) _ small in
    rw (fits, f, e)
      (
        _,
        refl,
        record {
          lo_kept = refl;
          hi_kept = refl;
          prefix_kept = refl;
          index_kept = refl;
          next_kept = refl;
          items_kept = refl;
          not_merging = refl;
          no_child = refl;
          roomy =
              rw (total_size-taken, storage_size-taken keys, storage_size-taken values)
                (omega (arith, length-map key_length items));
        },
      )
  where
    keys : List ℕ
    keys = map key_length items

    values : List ℕ
    values = map value_length items

    fits : leb (length items) 65535 ≡ true
    fits = ground arith

    small :
        storage_size (fixed_length keys) keys
          + max (storage_size (fixed_length values) values) 8
          + 6 * length items
        < 2 ^ 48
    small =
        rw (storage_size-taken keys, storage_size-taken values)
          (omega (
            arith,
            taken-bound (fixed_length keys) keys,
            taken-bound (fixed_length values) values,
            total_weight items,
            length-map key_length items,
            length-map value_length items,
          ))
