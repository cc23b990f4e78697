-- ===== src/Node.antt =====
-- src/node.rs: an immutable sorted table, the content of a leaf or of an index of the tree. The
-- packed buffer is represented by its header, its bounds and the items that it holds, with `len` its
-- size in bytes.
pub mod Search
pub mod Stitch
pub mod Apply
pub mod Split
pub mod Range
pub mod Sizes
pub mod Invariant
use sled.Prelude.{
  ℕ, ◌+◌, ◌*◌, ◌^◌, max, Bool, true, false, not, ◌&&◌, Option, none, some, List, [], ◌∷◌, ◌++◌, map,
  length, get_elem?, ltb, leb, ◌==◌, if◌then◌else◌,
}
use sled.Prelude.Outcome.{Outcome, ok, panic, ◌>>=◌, ◌>>◌, assert, unwrap}
use sled.Prelude.Bytes.{to_le_bytes, from_le_bytes, slice_to, slice_from}
use sled.Varint.{size}
use sled.Keys.{Key}

abbrev pub Item : Type 0
Item = Key × Key

-- `Header` and the rest of the buffer. A `None` of the code's `Option<NonZeroU64>` is `none`.
pub record Node : Type 0 where
  pub next : Option ℕ
  pub merging_child : Option ℕ
  pub fixed_key_length : Option ℕ
  pub fixed_value_length : Option ℕ
  pub prefix_len : ℕ
  pub probation_ops_remaining : ℕ
  pub offset_bytes : ℕ
  pub rewrite_generations : ℕ
  pub activity_sketch : ℕ
  pub merging : Bool
  pub is_index : Bool
  pub lo : Key
  pub hi : Option Key
  pub items : List Item
  pub len : ℕ

-- `size_of::<Header>()`: six words, then nine bytes, up to the alignment of 8.
abbrev pub header_size : ℕ
header_size = 64

abbrev pub key_length : Item → ℕ
key_length (k, v) = length k

abbrev pub value_length : Item → ℕ
value_length (k, v) = length v

unfoldable pub all_equal : ℕ → List ℕ → Bool
all_equal n [] = true
all_equal n (l ∷ ls) = let rest = all_equal n ls in (n == l) && rest

-- The length that all keys, or all values, have, when it is not zero.
unfoldable pub fixed_length : List ℕ → Option ℕ
unfolding all_equal
fixed_length [] = none
fixed_length (l ∷ ls) = if all_equal l (l ∷ ls) then (if ltb 0 l then some l else none) else none

unfoldable pub prefixed_sizes : List ℕ → ℕ
prefixed_sizes [] = 0
prefixed_sizes (l ∷ ls) = l + size l + prefixed_sizes ls

unfoldable pub storage_size : Option ℕ → List ℕ → ℕ
unfolding prefixed_sizes
storage_size none lengths = prefixed_sizes lengths
storage_size (some l) lengths = l * length lengths

-- How many bytes an offset takes in a buffer of this size.
unfoldable pub bytes_per_offset : ℕ → Outcome ℕ
bytes_per_offset i =
    if ltb i 256
    then ok 1
    else if ltb i (2 ^ 16)
    then ok 2
    else if ltb i (2 ^ 24)
    then ok 3
    else if ltb i (2 ^ 32)
    then ok 4
    else if ltb i (2 ^ 40)
    then ok 5
    else if ltb i (2 ^ 48)
    then ok 6
    else panic

unfoldable pub offset_bytes_for : Option ℕ → Option ℕ → ℕ → Outcome ℕ
unfolding bytes_per_offset
offset_bytes_for (some k) (some v) total = ok 0
offset_bytes_for _ _ total = bytes_per_offset total

-- The values of an index are page ids of eight bytes: the first one is looked at.
unfoldable pub index_values_fit : Bool → List Item → Bool
index_values_fit false items = true
index_values_fit true [] = true
index_values_fit true ((k, v) ∷ items) = length v == 8

-- An empty upper bound has no bytes in the buffer, and reads as none.
unfoldable pub stored_hi : Option Key → Option Key
stored_hi (some (b ∷ hi)) = some (b ∷ hi)
stored_hi _ = none

unfoldable pub hi_len : Option Key → ℕ
hi_len none = 0
hi_len (some hi) = length hi

-- `Node::new`
unfoldable pub new : Key → Option Key → ℕ → Bool → Option ℕ → List Item → Outcome Node
unfolding fixed_length storage_size offset_bytes_for index_values_fit stored_hi hi_len
new lo hi prefix_len is_index next items =
    let fixed_key_length = fixed_length (map key_length items) in
    let fixed_value_length = fixed_length (map value_length items) in
    let key_storage_size = storage_size fixed_key_length (map key_length items) in
    let value_storage_size = max (storage_size fixed_value_length (map value_length items)) 8 in
    let most = key_storage_size + value_storage_size + 6 * length items in
    assert (leb (length items) 65535)
    >> assert (index_values_fit is_index items)
    >> (offset_bytes_for fixed_key_length fixed_value_length most >>= λ offset_bytes. ok (record {
      next = next;
      merging_child = none;
      fixed_key_length = fixed_key_length;
      fixed_value_length = fixed_value_length;
      prefix_len = prefix_len;
      probation_ops_remaining = 0;
      offset_bytes = offset_bytes;
      rewrite_generations = 0;
      activity_sketch = 0;
      merging = false;
      is_index = is_index;
      lo = lo;
      hi = stored_hi hi;
      items = items;
      len =
          header_size
          + hi_len hi
          + length lo
          + key_storage_size
          + value_storage_size
          + offset_bytes * length items;
    }))

unfoldable pub new_root : ℕ → Outcome Node
unfolding new
new_root child_pid = new [] none 0 true none (([], to_le_bytes 8 child_pid) ∷ [])

unfoldable pub new_hoisted_root : ℕ → Key → ℕ → Outcome Node
unfolding new
new_hoisted_root left at right =
    new [] none 0 true none (([], to_le_bytes 8 left) ∷ (at, to_le_bytes 8 right) ∷ [])

-- `children()`
abbrev pub children : Node → ℕ
children n = length n.items

abbrev pub is_empty : Node → Bool
is_empty n = children n == 0

abbrev pub index_item : Node → ℕ → Outcome Item
index_item n idx = unwrap (get_elem? n.items idx)

abbrev pub index_key : Node → ℕ → Outcome Key
index_key n idx = index_item n idx >>= λ item. ok item.0

abbrev pub index_value : Node → ℕ → Outcome Key
index_value n idx = index_item n idx >>= λ item. ok item.1

-- `u64::from_le_bytes(bytes.try_into().unwrap())`
abbrev pub pid_of_bytes : Key → Outcome ℕ
pid_of_bytes v = if length v == 8 then ok (from_le_bytes v) else panic

unfoldable pub index_pid : Node → ℕ → Outcome ℕ
index_pid n idx = assert n.is_index >> (index_value n idx >>= pid_of_bytes)

-- `iter_index_pids().position(|p| p == pid)` over the values that are left
unfoldable pub position_of_pid : ℕ → List Item → Outcome (Option ℕ)
position_of_pid pid [] = ok none
position_of_pid pid ((k, v) ∷ items) =
    let rest = position_of_pid pid items in
    pid_of_bytes v >>= λ p.
    if p == pid
    then ok (some 0)
    else (rest >>= λ i. ok (elim i [ none ↦ none | some j ↦ some (j + 1) ]))

abbrev pub is_some {ℓ} : {A : Type ℓ} → Option A → Bool
is_some none = false
is_some (some a) = true

abbrev pub is_none {ℓ} : {A : Type ℓ} → Option A → Bool
is_none o = not (is_some o)

unfoldable pub can_merge_child : Node → ℕ → Outcome Bool
unfolding position_of_pid
can_merge_child n pid =
    if is_none n.merging_child && not n.merging
    then (assert n.is_index >> (position_of_pid pid n.items >>= λ i. ok (is_some i)))
    else ok false

abbrev pub prefix : Node → Outcome Key
prefix n = slice_to n.prefix_len n.lo

-- `prefix::decode` and `prefix::reencode`
abbrev pub decode : Key → Key → Key
decode old_prefix old_encoded_key = old_prefix ++ old_encoded_key

abbrev pub prefix_decode : Node → Key → Outcome Key
prefix_decode n key = prefix n >>= λ p. ok (decode p key)
