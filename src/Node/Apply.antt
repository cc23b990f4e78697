-- ===== src/Node/Apply.antt =====
-- What a link does to a node: `apply` (src/node.rs).
pub mod Effect
use sled.Prelude.{
  ℕ, Bool, true, false, not, ◌&&◌, Option, none, some, List, ltb, ◌==◌, if◌then◌else◌,
}
use sled.Prelude.Int.{ℤ}
use sled.Prelude.Outcome.{Outcome, ok, panic, ◌>>=◌, ◌>>◌, assert, unwrap}
use sled.Keys.{Key}
use sled.Link.{Link}
use sled.Node.{Node, can_merge_child, position_of_pid}
use sled.Node.Stitch.{insert, replace, remove_index}

unfoldable pub start_merge : Node → ℕ → Outcome Node
start_merge n pid = do
  can ← can_merge_child n pid
  assert can
  assert (not (pid == 0))
  ok (record n { merging_child = some pid })

unfoldable pub confirm_merge : Node → Outcome Node
confirm_merge n = do
  merged_child ← unwrap n.merging_child
  assert n.is_index
  position ← position_of_pid merged_child n.items
  idx ← unwrap position
  ret ← remove_index n idx
  ok (record ret { merging_child = none })

module _ (memcmp : Key → Key → ℤ) where
  unfoldable pub change : Node → Link → Outcome Node
  change n (Link.set k v) = insert memcmp n k v
  change n (Link.replace index v) = replace n index v
  change n (Link.del index) = remove_index n index
  change n (Link.parent_merge_intention pid) = start_merge n pid
  change n Link.parent_merge_confirm = confirm_merge n
  change n Link.child_merge_cap = ok (record n { merging = true })

  unfoldable pub apply : Node → Link → Outcome Node
  apply n link = do assert (not n.merging); change n link
