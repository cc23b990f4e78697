-- ===== src/Node/Split.antt =====
-- A node split in two, and two nodes merged into one (src/node.rs).
pub mod Entries
pub mod Shorten
pub mod Parts
pub mod Halves
pub mod Shared
pub mod Joined
pub mod Merged
use sled.Prelude.{
  ℕ, zero, suc, ◌+◌, ◌-◌, ◌*◌, ◌/◌, ◌%◌, ◌^◌, min, max, Bool, true, false, not, ◌&&◌, Option, none,
  some, List, [], ◌∷◌, ◌++◌, length, take, drop, ltb, leb, ◌==◌, if◌then◌else◌,
}
use sled.Prelude.Outcome.{Outcome, ok, panic, ◌>>=◌, ◌>>◌, assert}
use sled.Prelude.Bytes.{slice_from, slice_to}
use sled.Prelude.Sorted.{same_key}
use sled.Keys.{Key, ltb_key}
use sled.Node.{Item, Node, new, children, index_key, is_none, prefix, prefix_decode, decode}

-- `activity_sketch.count_ones()`, over the low `n` bits
unfoldable pub count_ones : ℕ → ℕ → ℕ
count_ones zero v = 0
count_ones (suc n) v = count_ones n v + v / 2 ^ n % 2

-- The sum of the numbers of the bits that are set, counted from one.
unfoldable pub weighted_count : ℕ → ℕ → ℕ
weighted_count zero v = 0
weighted_count (suc n) v = weighted_count n v + (if v / 2 ^ n % 2 == 1 then n + 1 else 0)

-- `a / b`
abbrev pub quotient : ℕ → ℕ → ℕ
quotient a zero = 0
quotient a (suc b) = a / suc b

unfoldable pub weighted_split_point : Node → ℕ
weighted_split_point n =
    let bits_set = count_ones 8 n.activity_sketch in
    if bits_set == 0
    then children n / 2
    else max
        (min (quotient (weighted_count 8 n.activity_sketch) bits_set * children n / 8)
          (children n - 1))
        1

-- `a.iter().zip(b.iter()).take_while(|(a, b)| a == b).count()`
unfoldable pub common_len : Key → Key → ℕ
common_len [] b = 0
common_len (x ∷ a) [] = 0
common_len (x ∷ a) (y ∷ b) = let rest = common_len a b in if x == y then suc rest else 0

unfoldable pub splitpoint_length : Bool → Key → Key → ℕ
unfolding common_len
splitpoint_length true left_max right_min = length right_min
splitpoint_length false left_max right_min = suc (common_len right_min left_max)

-- How many bytes the prefix can grow by, when the keys are to lie between `a` and `b`.
unfoldable pub additional_prefix : ℕ → Key → Key → Outcome ℕ
additional_prefix prefix_len a b = do
  a' ← slice_from prefix_len a
  b' ← slice_from prefix_len b
  ok (min (255 - prefix_len) (common_len a' b'))

-- Each key without its first bytes.
unfoldable pub shorten : ℕ → List Item → Outcome (List Item)
shorten additional [] = ok []
shorten additional ((k, v) ∷ items) =
    let rest = shorten additional items in
    slice_from additional k >>= λ k'. rest >>= λ items'. ok ((k', v) ∷ items')

unfoldable pub additional_to_hi : ℕ → Key → Option Key → Outcome ℕ
additional_to_hi prefix_len split_key none = ok 0
additional_to_hi prefix_len split_key (some hi) = additional_prefix prefix_len split_key hi

unfoldable pub split_key_at : Node → ℕ → Outcome Key
split_key_at n split_point = do
  left_max ← index_key n (split_point - 1)
  right_min ← index_key n split_point
  assert (not (same_key ltb_key left_max right_min))
  possibly_truncated ← slice_to (splitpoint_length n.is_index left_max right_min) right_min
  prefix_decode n possibly_truncated

unfoldable pub split_left : Node → ℕ → Key → Outcome Node
split_left n split_point split_key = do
  additional ← additional_prefix n.prefix_len n.lo split_key
  items ← shorten additional (take split_point n.items)
  left ← new n.lo (some split_key) (n.prefix_len + additional) n.is_index n.next items
  ok (record left { rewrite_generations = n.rewrite_generations })

unfoldable pub split_right : Node → ℕ → Key → Outcome Node
split_right n split_point split_key = do
  additional ← additional_to_hi n.prefix_len split_key n.hi
  items ← shorten additional (drop split_point n.items)
  right ← new split_key n.hi (n.prefix_len + additional) n.is_index n.next items
  ok (record right {
    rewrite_generations = n.rewrite_generations;
    probation_ops_remaining = min (children n / 2) 255;
  })

unfoldable pub split : Node → Outcome (Node × Node)
split n = do
  assert (leb 2 (children n))
  assert (not n.merging)
  assert (is_none n.merging_child)
  let split_point = weighted_split_point n
  split_key ← split_key_at n split_point
  left ← split_left n split_point split_key
  right ← split_right n split_point split_key
  ok (left, right)

-- `prefix::reencode`
abbrev pub reencode : Key → Key → ℕ → Key
reencode old_prefix old_encoded_key new_prefix_length =
    drop new_prefix_length (old_prefix ++ old_encoded_key)

unfoldable pub reencode_all : Key → ℕ → List Item → List Item
reencode_all old_prefix new_prefix_length [] = []
reencode_all old_prefix new_prefix_length ((k, v) ∷ items) =
    (reencode old_prefix k new_prefix_length, v) ∷ reencode_all old_prefix new_prefix_length items

abbrev pub same_hi : Option Key → Key → Bool
same_hi none lo = false
same_hi (some hi) lo = same_key ltb_key hi lo

abbrev pub same_bool : Bool → Bool → Bool
same_bool true b = b
same_bool false b = not b

unfoldable pub merged_items : Node → Node → Outcome (List Item)
merged_items n other =
    if n.prefix_len == other.prefix_len
    then ok (n.items ++ other.items)
    else if ltb other.prefix_len n.prefix_len
    then (do p ← prefix n; ok (reencode_all p other.prefix_len n.items ++ other.items))
    else (do p ← prefix other; ok (n.items ++ reencode_all p n.prefix_len other.items))

unfoldable pub receive_merge : Node → Node → Outcome Node
receive_merge n other = do
  assert (same_hi n.hi other.lo)
  assert (same_bool n.is_index other.is_index)
  assert (not n.merging)
  assert (is_none n.merging_child)
  items ← merged_items n other
  ret ← new n.lo other.hi (min n.prefix_len other.prefix_len) n.is_index other.next items
  ok (record ret { rewrite_generations = min n.rewrite_generations other.rewrite_generations })

-- `MAX_MSG_HEADER_LEN`
abbrev pub max_msg_header_len : ℕ
max_msg_header_len = 32

-- The sizes outside the tests of the library.
unfoldable pub should_split : Node → Bool
should_split n =
    (is_none n.merging_child && not n.merging)
    && (ltb (1024 - max_msg_header_len) n.len && ltb 1 (children n))

unfoldable pub should_merge : Node → Bool
should_merge n =
    (is_none n.merging_child && (not n.merging && n.probation_ops_remaining == 0))
    && ltb n.len (256 - max_msg_header_len)
