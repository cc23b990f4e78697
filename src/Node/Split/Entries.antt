-- ===== src/Node/Split/Entries.antt =====
-- What holds of a node, said of its map with the full keys (src/node.rs).
use sled.Prelude.{
  ℕ, zero, suc, ◌≤◌, ◌<◌, ◌≡◌, refl, ap, sym, ◌∙◌, arith, Bool, true, false, Option, List, [], ◌∷◌,
  map, length, take, drop, All,
}
use sled.Keys.{Key, ltb_key}
use sled.Keys.Prefix.{ltb_key-append}
use sled.Node.{Item}
use sled.Node.Search.{below_hi}
use sled.Node.Search.Place.{IsSorted, key_of, item_at, key_at}
use sled.Node.Search.Pairs.{entries}
use sled.Node.Invariant.{full_key, IsBounds, IsContent, IsIndex}

-- A key between two bounds.
abbrev pub Between : Key → Option Key → Key → Type 0
Between lo hi k = (ltb_key k lo ≡ false) × (below_hi k hi ≡ true)

-- In an index the values are page ids, and the first key is the lower bound.
abbrev pub LeadsFrom : Key → Bool → List Item → Type 0
LeadsFrom lo false es = Unit
LeadsFrom lo true [] = ⊥
LeadsFrom lo true ((k, v) ∷ es) = (k ≡ lo) × All (λ i. length i.1 ≡ 8) ((k, v) ∷ es)

pub record IsEntries (lo : Key) (hi : Option Key) (is_index : Bool) (es : List Item) : Type 0 where
  pub sorted : IsSorted es
  pub ranged : All (λ i. Between lo hi i.0) es
  pub leads : LeadsFrom lo is_index es

module _ (p : ℕ) (lo : Key) where
  pub length-entries : (items : List Item) → length (entries p lo items) ≡ length items
  length-entries [] = refl
  length-entries ((k, v) ∷ items) = ap suc (length-entries items)

  pub entries-take :
      (n : ℕ) (items : List Item) → entries p lo (take n items) ≡ take n (entries p lo items)
  entries-take zero items = refl
  entries-take (suc n) [] = refl
  entries-take (suc n) ((k, v) ∷ items) = ap (λ l. (full_key p lo k, v) ∷ l) (entries-take n items)

  pub entries-drop :
      (n : ℕ) (items : List Item) → entries p lo (drop n items) ≡ drop n (entries p lo items)
  entries-drop zero items = refl
  entries-drop (suc n) [] = refl
  entries-drop (suc n) ((k, v) ∷ items) = entries-drop n items

  pub key_at-entries :
      (items : List Item) (i : ℕ)
      → i < length items
      → key_at (entries p lo items) i ≡ full_key p lo (key_at items i)
  key_at-entries [] i h = elim h [ ]
  key_at-entries ((k, v) ∷ items) zero h = refl
  key_at-entries ((k, v) ∷ items) (suc i) h = key_at-entries items i (omega arith)

  above_entries :
      (k : Key) (items : List Item)
      → All (λ j. ltb_key k j ≡ true) (map key_of items)
      → All (λ j. ltb_key (full_key p lo k) j ≡ true) (map key_of (entries p lo items))
  above_entries k [] h = tt
  above_entries k ((j, w) ∷ items) h =
      (ltb_key-append (take p lo) k j ∙ h.0, above_entries k items h.1)

  above_items :
      (k : Key) (items : List Item)
      → All (λ j. ltb_key (full_key p lo k) j ≡ true) (map key_of (entries p lo items))
      → All (λ j. ltb_key k j ≡ true) (map key_of items)
  above_items k [] h = tt
  above_items k ((j, w) ∷ items) h =
      (sym (ltb_key-append (take p lo) k j) ∙ h.0, above_items k items h.1)

  IsSorted-entries : (items : List Item) → IsSorted items → IsSorted (entries p lo items)
  IsSorted-entries [] h = tt
  IsSorted-entries ((k, v) ∷ items) h = (above_entries k items h.0, IsSorted-entries items h.1)

  IsSorted-items : (items : List Item) → IsSorted (entries p lo items) → IsSorted items
  IsSorted-items [] h = tt
  IsSorted-items ((k, v) ∷ items) h = (above_items k items h.0, IsSorted-items items h.1)

  All-entries :
      (Q : Key → Type 0) (items : List Item)
      → All (λ i. Q (full_key p lo i.0)) items
      → All (λ i. Q i.0) (entries p lo items)
  All-entries Q [] h = tt
  All-entries Q ((k, v) ∷ items) h = (h.0, All-entries Q items h.1)

  All-items :
      (Q : Key → Type 0) (items : List Item)
      → All (λ i. Q i.0) (entries p lo items)
      → All (λ i. Q (full_key p lo i.0)) items
  All-items Q [] h = tt
  All-items Q ((k, v) ∷ items) h = (h.0, All-items Q items h.1)

  values_entries :
      (items : List Item)
      → All (λ i. length i.1 ≡ 8) items
      → All (λ i. length i.1 ≡ 8) (entries p lo items)
  values_entries [] h = tt
  values_entries ((k, v) ∷ items) h = (h.0, values_entries items h.1)

  values_items :
      (items : List Item)
      → All (λ i. length i.1 ≡ 8) (entries p lo items)
      → All (λ i. length i.1 ≡ 8) items
  values_items [] h = tt
  values_items ((k, v) ∷ items) h = (h.0, values_items items h.1)

  leads_entries :
      (ix : Bool) (items : List Item) → IsIndex p lo ix items → LeadsFrom lo ix (entries p lo items)
  leads_entries false items h = tt
  leads_entries true [] h = elim h [ ]
  leads_entries true ((k, v) ∷ items) h = (h.0, (h.1.0, values_entries items h.1.1))

  leads_items :
      (ix : Bool) (items : List Item) → LeadsFrom lo ix (entries p lo items) → IsIndex p lo ix items
  leads_items false items h = tt
  leads_items true [] h = elim h [ ]
  leads_items true ((k, v) ∷ items) h = (h.0, (h.1.0, values_items items h.1.1))

  pub IsContent-IsEntries :
      (hi : Option Key) (ix : Bool) (items : List Item)
      → IsContent p lo hi ix items
      → IsEntries lo hi ix (entries p lo items)
  IsContent-IsEntries hi ix items h = record {
    sorted = IsSorted-entries items h.sorted;
    ranged = All-entries (Between lo hi) items h.ranged;
    leads = leads_entries ix items h.indexed;
  }

  pub IsEntries-IsContent :
      (hi : Option Key) (ix : Bool) (items : List Item)
      → length items ≤ 65535
      → (p ≤ length lo) × (p ≤ 255)
      → IsBounds p lo hi
      → IsEntries lo hi ix (entries p lo items)
      → IsContent p lo hi ix items
  IsEntries-IsContent hi ix items c f b h = record {
    sorted = IsSorted-items items h.sorted;
    counted = c;
    prefixed = f;
    bounds = b;
    ranged = All-items (Between lo hi) items h.ranged;
    indexed = leads_items ix items h.leads;
  }

-- The parts of a sorted map.
take_above :
    (k : Key) (n : ℕ) (es : List Item)
    → All (λ j. ltb_key k j ≡ true) (map key_of es)
    → All (λ j. ltb_key k j ≡ true) (map key_of (take n es))
take_above k zero es h = tt
take_above k (suc n) [] h = tt
take_above k (suc n) (e ∷ es) h = (h.0, take_above k n es h.1)

pub take-IsSorted : (n : ℕ) (es : List Item) → IsSorted es → IsSorted (take n es)
take-IsSorted zero es h = tt
take-IsSorted (suc n) [] h = tt
take-IsSorted (suc n) ((k, v) ∷ es) h = (take_above k n es h.0, take-IsSorted n es h.1)

pub drop-IsSorted : (n : ℕ) (es : List Item) → IsSorted es → IsSorted (drop n es)
drop-IsSorted zero es h = h
drop-IsSorted (suc n) [] h = tt
drop-IsSorted (suc n) (e ∷ es) h = drop-IsSorted n es h.1

pub All-drop : (P : Item → Type 0) (n : ℕ) (es : List Item) → All P es → All P (drop n es)
All-drop P zero es h = h
All-drop P (suc n) [] h = tt
All-drop P (suc n) (e ∷ es) h = All-drop P n es h.1

-- A predicate on the elements, from the elements one by one.
pub All-of_take :
    (P : Item → Type 0) (n : ℕ) (es : List Item)
    → ((j : ℕ) → j < n → j < length es → P (item_at es j))
    → All P (take n es)
All-of_take P zero es h = tt
All-of_take P (suc n) [] h = tt
All-of_take P (suc n) (e ∷ es) h = (
  h 0 (omega arith) (omega arith),
  All-of_take P n es (λ j l b. h (suc j) (omega arith) (omega arith)),
)

pub All-of_drop :
    (P : Item → Type 0) (n : ℕ) (es : List Item)
    → ((j : ℕ) → n ≤ j → j < length es → P (item_at es j))
    → All P (drop n es)
All-of_drop P zero [] h = tt
All-of_drop P zero (e ∷ es) h = (
  h 0 (omega arith) (omega arith),
  All-of_drop P zero es (λ j l b. h (suc j) (omega arith) (omega arith)),
)
All-of_drop P (suc n) [] h = tt
All-of_drop P (suc n) (e ∷ es) h =
    All-of_drop P n es (λ j l b. h (suc j) (omega arith) (omega arith))

pub All_index :
    (P : Item → Type 0) (es : List Item) (j : ℕ) → All P es → j < length es → P (item_at es j)
All_index P [] j a h = elim h [ ]
All_index P (e ∷ es) zero a h = a.0
All_index P (e ∷ es) (suc j) a h = All_index P es j a.1 (omega arith)
