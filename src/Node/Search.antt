-- ===== src/Node/Search.antt =====
-- The binary search of a node, and what stands on it (src/node.rs). `memcmp` of libc is a parameter.
pub mod Place
pub mod Map
pub mod Pairs
use sled.Prelude.{
  ℕ, zero, suc, ◌+◌, ◌-◌, ◌/◌, Bool, true, false, not, Option, none, some, List, ltb, ◌==◌,
  if◌then◌else◌,
}
use sled.Prelude.Int.{ℤ}
use sled.Prelude.Outcome.{Outcome, ok, panic, ◌>>=◌, ◌>>◌, assert}
use sled.Prelude.Bytes.{slice_from, to_le_bytes}
use sled.Keys.{Key, Ordering, less, equal, greater, fastcmp, ltb_key, leb_key}
use sled.Node.{Node, children, index_key, index_value, index_pid}

-- `Result<usize, usize>`: the index of the key, or where it would stand.
pub data Found : Type 0 where
  at before : ℕ → Found

-- `hi > key`, where there is an upper bound
abbrev pub below_hi : Key → Option Key → Bool
below_hi key none = true
below_hi key (some hi) = ltb_key key hi

-- `idx - 1` on a `usize`
unfoldable pub index_before : ℕ → Outcome ℕ
index_before zero = panic
index_before (suc idx) = ok idx

module _ (memcmp : Key → Key → ℤ) where
  -- `while size > 1`, on fuel
  unfoldable pub find_loop : Node → Key → (fuel size base : ℕ) → Outcome ℕ
  unfolding fastcmp
  find_loop n key zero size base = ok base
  find_loop n key (suc fuel) size base =
      if ltb 1 size
      then (do
        l ← index_key n (base + size / 2)
        let base' : ℕ = elim (fastcmp memcmp l key) [ greater ↦ base | _ ↦ base + size / 2 ]
        find_loop n key fuel (size - size / 2) base')
      else ok base

  unfoldable pub find_from : Node → Key → Outcome Found
  unfolding find_loop fastcmp
  find_from n key = do
    base ← find_loop n key (children n) (children n) 0
    l ← index_key n base
    ok (elim (fastcmp memcmp l key) [
      | equal ↦ at base
      | less ↦ before (base + 1)
      | greater ↦ before base
    ])

  unfoldable pub find : Node → Key → Outcome Found
  unfolding find_from
  find n key =
      if children n == 0
      then ok (before 0)
      else (do first ← index_key n 0; if ltb_key key first then ok (before 0) else find_from n key)

  unfoldable pub contains_key : Node → Key → Outcome Bool
  contains_key n key = do search ← find n key; ok (elim search [ at i ↦ true | before i ↦ false ])

  unfoldable pub index_next_node : Node → Key → Outcome (ℕ × ℕ)
  index_next_node n key = do
    assert (leb_key n.lo key)
    assert (below_hi key n.hi)
    assert n.is_index
    suffix ← slice_from n.prefix_len key
    search ← find n suffix
    idx ← elim search [ at i ↦ ok i | before i ↦ index_before i ]
    pid ← index_pid n idx
    ok (idx, pid)

  -- The encoded key, its value if it is there, and its index.
  unfoldable pub node_kv_pair : Node → Key → Outcome (Key × Option Key × ℕ)
  node_kv_pair n key = do
    assert (leb_key n.lo key)
    assert (below_hi key n.hi)
    suffix ← slice_from n.prefix_len key
    search ← find n suffix
    elim search [
      | at idx ↦ index_key n idx >>= λ k. index_value n idx >>= λ v. ok (k, some v, idx)
      | before idx ↦ ok (suffix, none, idx)
    ]
