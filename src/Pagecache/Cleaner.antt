-- ===== src/Pagecache/Cleaner.antt =====
-- `SegmentCleaner` of src/pagecache/segment.rs: the pages that are still to be moved out of draining
-- segments. The map from the offset of a segment to its pages is an ascending list.
pub mod Queue
use sled.Prelude.{ℕ, Bool, Option, none, some, List, [], ◌∷◌, ltb}
use sled.Prelude.Outcome.{Outcome, ok, panic}
use sled.Prelude.Sorted.{remove_set, get, insert, remove}

abbrev pub Cleaner : Type 0
Cleaner = List (ℕ × List ℕ)

-- A page of the first segment, and that segment; a segment without pages is dropped.
unfoldable pub pop : Cleaner → Option (ℕ × ℕ) × Cleaner
pop [] = (none, [])
pop ((offset, pid ∷ pids) ∷ inner) =
    (some (pid, offset), (offset, remove_set ltb pid (pid ∷ pids)) ∷ inner)
pop ((offset, []) ∷ inner) = (none, remove ltb offset ((offset, []) ∷ inner))

unfoldable pub add_pids : Cleaner → ℕ → List ℕ → Outcome Cleaner
add_pids inner offset pids = elim (get ltb offset inner) [
  | none ↦ ok (insert ltb offset pids inner)
  | some prev ↦ panic
]

unfoldable pub remove_pids : Cleaner → ℕ → Cleaner
remove_pids inner offset = remove ltb offset inner
