-- ===== src/Node/Stitch.antt =====
-- One item of a node added, replaced or removed: `stitch` and its callers (src/node.rs).
pub mod Splice
pub mod Edits
pub mod Map
use Prim.Native.Nat.{bit_or}
use sled.Prelude.{
  ℕ, zero, suc, ◌+◌, ◌-◌, ◌*◌, ◌/◌, ◌^◌, Bool, true, false, not, ◌&&◌, ◌||◌, Option, none, some,
  List, [], ◌∷◌, ◌++◌, length, take, drop, set, ltb, leb, ◌==◌, if◌then◌else◌,
}
use sled.Prelude.Int.{ℤ}
use sled.Prelude.Outcome.{Outcome, ok, panic, ◌>>=◌, ◌>>◌, assert}
use sled.Prelude.Bytes.{slice_from, to_le_bytes}
use sled.Prelude.Sorted.{same_key}
use sled.Varint.{size}
use sled.Keys.{Key, ltb_key}
use sled.Node.{
  Item, Node, new, bytes_per_offset, children, index_item, index_key, index_value, is_some, is_none,
}
use sled.Node.Search.{Found, at, before, find, contains_key}

-- The new number of children, a u16.
unfoldable pub stitched_children : ℕ → Option Item → Bool → Outcome ℕ
stitched_children c none replace = if leb 1 c then ok (c - 1) else panic
stitched_children c (some item) true = ok c
stitched_children c (some item) false = if leb (c + 1) 65535 then ok (c + 1) else panic

abbrev violates : Option ℕ → ℕ → Bool
violates none l = false
violates (some f) l = not (f == l)

unfoldable pub take_slow_path : Node → Option Item → Outcome Bool
unfolding bytes_per_offset
take_slow_path n none = ok false
take_slow_path n (some (k, v)) = do
  new_offset_bytes ←
      bytes_per_offset (n.len + size (length k) + length k + size (length v) + length v + 6)
  ok (
      ltb n.offset_bytes new_offset_bytes
      || (violates n.fixed_key_length (length k) || violates n.fixed_value_length (length v)))

-- `iter().take(index).chain(new_item).chain(iter().skip(index + if replace { 1 } else { 0 }))`
abbrev pub spliced : List Item → ℕ → Option Item → Bool → List Item
spliced items index none replace =
    take index items ++ drop (if replace then suc index else index) items
spliced items index (some item) replace =
    take index items ++ item ∷ drop (if replace then suc index else index) items

unfoldable pub activity_sketch_bit : ℕ → ℕ → Outcome ℕ
activity_sketch_bit index zero = if index == 0 then ok 7 else panic
activity_sketch_bit index (suc c) =
    let bit = if index == suc c then 7 else index * 8 / suc c in assert (leb bit 7) >> ok bit

-- The bytes that an item takes.
unfoldable pub item_size : Node → Item → ℕ
item_size n (k, v) =
    n.offset_bytes
    + length k
    + length v
    + (if is_some n.fixed_key_length then 0 else size (length k))
    + (if is_some n.fixed_value_length then 0 else size (length v))

unfoldable pub rebuild : Node → ℕ → List Item → Outcome Node
unfolding new activity_sketch_bit
rebuild n index items = do
  ret ← new n.lo n.hi n.prefix_len n.is_index n.next items
  if ltb 1 (children ret)
      then (do
        bit ← activity_sketch_bit index (children n)
        ok (record ret { activity_sketch = bit_or (2 ^ bit) n.activity_sketch }))
      else ok ret

-- Both checks at the end of `stitch`.
unfoldable pub check_stitched : Node → ℕ → Option Item → Node → Outcome Node
check_stitched n index (some (k, v)) ret = do
  k' ← index_key ret index
  assert (same_key ltb_key k k')
  v' ← index_value ret index
  assert (same_key ltb_key v v')
  ok ret
check_stitched n index none ret =
    if ltb index (children ret)
    then (do
      k ← index_key n index
      k' ← index_key ret index
      assert (not (same_key ltb_key k k'))
      ok ret)
    else ok ret

unfoldable pub copy_around : Node → ℕ → Option Item → Bool → Outcome Node
unfolding item_size
copy_around n index new_item replace = do
  assert (leb index (children n))
  existing_item_size ←
      if replace then (index_item n index >>= λ item. ok (item_size n item)) else ok 0
  let new_item_size : ℕ = elim new_item [ none ↦ 0 | some item ↦ item_size n item ]
  assert (leb existing_item_size (n.len + new_item_size))
  check_stitched n index new_item (record n {
    probation_ops_remaining = n.probation_ops_remaining - 1;
    items = spliced n.items index new_item replace;
    len = n.len + new_item_size - existing_item_size;
  })

unfoldable pub stitch : Node → ℕ → Option Item → Bool → Outcome Node
stitch n index new_item replace = do
  c ← stitched_children (children n) new_item replace
  slow ← take_slow_path n new_item
  if slow
      then rebuild n index (spliced n.items index new_item replace)
      else copy_around n index new_item replace

unfoldable pub remove_index : Node → ℕ → Outcome Node
remove_index n index = do assert (ltb index (children n)); stitch n index none true

unfoldable pub replace : Node → ℕ → Key → Outcome Node
replace n index value = do
  assert (not n.merging)
  assert (is_none n.merging_child)
  old ← index_item n index
  if length old.1 == length value
      then ok (record n { items = set n.items index (old.0, value) })
      else stitch n index (some (old.0, value)) true

module _ (memcmp : Key → Key → ℤ) where
  unfoldable pub insert : Node → Key → Key → Outcome Node
  insert n key value = do
    assert (not n.merging)
    assert (is_none n.merging_child)
    search ← find memcmp n key
    elim search [ before index ↦ stitch n index (some (key, value)) false | at index ↦ panic ]

  unfoldable pub parent_split : Node → Key → ℕ → Outcome (Option Node)
  parent_split n separator to = do
    assert n.is_index
    encoded_sep ← slice_from n.prefix_len separator
    there ← contains_key memcmp n encoded_sep
    if there then ok none else (insert n encoded_sep (to_le_bytes 8 to) >>= λ ret. ok (some ret))
