-- ===== src/Link.antt =====
-- `Link` of src/lib.rs: one change to a node.
use sled.Prelude.{ℕ, List}

pub data Link : Type 0 where
  -- a new value for a key
  set : List ℕ → List ℕ → Link
  -- a new value at an index
  replace : ℕ → List ℕ → Link
  del : ℕ → Link
  parent_merge_intention : ℕ → Link
  parent_merge_confirm child_merge_cap : Link
