-- ===== src/Node/Range.antt =====
-- Iteration over a node: bounds, the next item and the one before (src/node.rs).
pub mod Whole
pub mod Successor
pub mod Predecessor
use sled.Prelude.{
  ℕ, zero, suc, ◌+◌, ◌-◌, Bool, true, false, not, ◌&&◌, ◌||◌, Option, none, some, List, [], ◌∷◌,
  length, take, drop, ltb, leb, ◌==◌, if◌then◌else◌,
}
use sled.Prelude.Int.{ℤ}
use sled.Prelude.Outcome.{Outcome, ok, ◌>>=◌, ◌>>◌, assert}
use sled.Prelude.Bytes.{slice_from}
use sled.Prelude.Sorted.{same_key}
use sled.Keys.{Key, ltb_key, leb_key}
use sled.Node.{Item, Node, children, is_empty, is_none, prefix_decode}
use sled.Node.Search.{Found, at, before, below_hi, find}

-- `std::ops::Bound`
pub data Bound : Type 0 where
  included excluded : Key → Bound
  unbounded : Bound

unfoldable pub contains_upper_bound : Node → Bound → Bool
contains_upper_bound n bound = elim n.hi [
  | none ↦ true
  | some hi ↦ elim bound [
    | excluded b ↦ leb_key b hi
    | included b ↦ ltb_key b hi
    | unbounded ↦ false
  ]
]

unfoldable pub contains_lower_bound : Node → Bound → Bool → Bool
contains_lower_bound n (excluded b) is_forward =
    if ltb_key n.lo b || (is_forward && same_key ltb_key b n.lo) then true else length n.lo == 0
contains_lower_bound n (included b) is_forward = if leb_key n.lo b then true else length n.lo == 0
contains_lower_bound n unbounded is_forward = if is_forward then length n.lo == 0 else is_none n.hi

unfoldable pub prefix_encode : Node → Key → Outcome Key
prefix_encode n key = do
  assert (leb_key n.lo key)
  assert (below_hi key n.hi)
  slice_from n.prefix_len key

abbrev pub max_key : Key → Key → Key
max_key a b = if ltb_key b a then a else b

unfoldable pub lowest_key : Node → Bound → Outcome Key
lowest_key n unbounded = prefix_encode n n.lo
lowest_key n (included b) = prefix_encode n (max_key b n.lo)
lowest_key n (excluded b) = prefix_encode n (max_key b n.lo)

-- Whether a key is the one that the bound excludes.
unfoldable pub is_excluded : Node → Bound → Key → Outcome Bool
is_excluded n (excluded b) k =
    slice_from n.prefix_len b >>= λ suffix. ok (same_key ltb_key suffix k)
is_excluded n _ k = ok false

-- The first of the items that the bound does not exclude, with its full key.
unfoldable pub scan : Node → Bound → List Item → Outcome (Option Item)
scan n bound [] = ok none
scan n bound ((k, v) ∷ items) =
    let rest = scan n bound items in
    is_excluded n bound k >>= λ skip.
    if skip then rest else (prefix_decode n k >>= λ key. ok (some (key, v)))

-- As `is_excluded`, of a key that may be shorter than the prefix.
unfoldable pub is_excluded_below : Node → Bound → Key → Outcome Bool
is_excluded_below n (excluded b) k =
    ok (leb n.prefix_len (length b) && same_key ltb_key (drop n.prefix_len b) k)
is_excluded_below n _ k = ok false

-- The last of the items that the bound does not exclude, with its full key.
unfoldable pub scan_back : Node → Bound → List Item → Outcome (Option Item)
scan_back n bound [] = ok none
scan_back n bound ((k, v) ∷ items) = do
  later ← scan_back n bound items
  elim later [
    | some item ↦ ok (some item)
    | none ↦ is_excluded_below n bound k >>= λ skip.
        if skip then ok none else (prefix_decode n k >>= λ key. ok (some (key, v)))
  ]

module _ (memcmp : Key → Key → ℤ) where
  unfoldable pub successor : Node → Bound → Outcome (Option Item)
  successor n bound = do
    assert (not n.is_index)
    predecessor_key ← lowest_key n bound
    search ← find memcmp n predecessor_key
    elim search [
      | at start ↦ scan n bound (drop start n.items)
      | before start ↦ if ltb start (children n) then scan n bound (drop start n.items) else ok none
    ]

  -- Where the search for the predecessor begins: at the upper end, or at a key.
  unfoldable pub search_back : Node → Bound → Outcome Found
  search_back n (included b) = prefix_encode n b >>= find memcmp n
  search_back n (excluded b) = slice_from n.prefix_len b >>= find memcmp n
  search_back n unbounded = elim n.hi [
    | some hi ↦ prefix_encode n hi >>= find memcmp n
    | none ↦ ok (if is_empty n then before 0 else at (children n - 1))
  ]

  unfoldable pub predecessor : Node → Bound → Outcome (Option Item)
  predecessor n bound = do
    assert (not n.is_index)
    search ← search_back n bound
    elim search [
      | at end ↦ scan_back n bound (take (end + 1) n.items)
      | before zero ↦ ok none
      | before (suc end) ↦ scan_back n bound (take (end + 1) n.items)
    ]
