-- ===== src/Pagecache/Accountant/Marks.antt =====
-- The pages that a segment holds: `mark_link`, `mark_replace` and `apply_op` of
-- src/pagecache/segment.rs. `arrange` is the order in which a hash map gives its entries.
use sled.Prelude.{
  ℕ, ◌+◌, Bool, true, false, not, ◌&&◌, Option, none, some, List, [], ◌∷◌, ◌++◌, ◌==◌,
  if◌then◌else◌,
}
use sled.Prelude.Int.{ℤ, ltb_ℤ}
use sled.Prelude.Outcome.{Outcome, ok, ◌>>=◌, ◌>>◌, assert, unwrap}
use sled.Prelude.Sorted.{same_key}
use sled.Pagecache.DiskPtr.{
  DiskPtr, HeapId, is_heap_item, heap_id, heap_pointer_merged_into_snapshot,
}
use sled.Pagecache.DiskPtr as DiskPtr
use sled.Pagecache.Segment.{insert_pid, remove_pid, remove_heap_item}
use sled.Pagecache.Segment as Segment
use sled.Pagecache.Tip.{normalize}
use sled.Pagecache.Accountant.{Accountant, segment_at, set_segment, segment_id}
use sled.Pagecache.Accountant.Free.{possibly_clean_or_free_segment}

pub record CacheInfo : Type 0 where
  pub ts : ℕ
  pub lsn : ℤ
  pub pointer : DiskPtr
  pub log_size : ℕ

pub data SegmentOp : Type 0 where
  link : ℕ → CacheInfo → SegmentOp
  replace : ℕ → List CacheInfo → CacheInfo → SegmentOp

unfoldable pub mark_link : Accountant → ℕ → CacheInfo → Outcome Accountant
mark_link a pid info = elim (DiskPtr.lid info.pointer) [
  | none ↦ ok a
  | some lid ↦ do
    let grown = segment_id a lid
    segment ← segment_at grown.0 grown.1
    lsn ← Segment.lsn segment
    assert (same_key ltb_ℤ lsn (normalize info.lsn a.segment_size))
    segment' ← insert_pid segment pid (normalize info.lsn a.segment_size) info.log_size
    ok (set_segment grown.0 grown.1 segment')
]

abbrev pub same_heap_item : Option HeapId → Option HeapId → Bool
same_heap_item none none = true
same_heap_item (some a) (some b) =
    (a.location == b.location) && same_key ltb_ℤ a.original_lsn b.original_lsn
same_heap_item _ _ = false

-- Not where one heap item is only pointed to from elsewhere.
unfoldable pub schedule_rm_heap_item : List CacheInfo → CacheInfo → Bool
schedule_rm_heap_item (old ∷ []) new = not (
    is_heap_item old.pointer
    && (is_heap_item new.pointer && same_heap_item (heap_id old.pointer) (heap_id new.pointer)))
schedule_rm_heap_item _ new = true

-- `*removals.entry(idx).or_insert(0) += size`
unfoldable pub add_removal : ℕ → ℕ → List (ℕ × ℕ) → List (ℕ × ℕ)
add_removal idx size [] = (idx, size) ∷ []
add_removal idx size ((i, s) ∷ removals) =
    let rest = add_removal idx size removals in
    if idx == i then (i, s + size) ∷ removals else (i, s) ∷ rest

-- A heap item is freed once the new segment is written, or at once where there is none.
unfoldable pub remove_item : Accountant → Option ℕ → HeapId → Outcome Accountant
remove_item a none id = ok (record a { heap_frees = id ∷ a.heap_frees })
remove_item a (some new_idx) id = do
  segment ← segment_at a new_idx
  removed ← remove_heap_item segment id
  ok (record (set_segment a new_idx removed.0) { heap_frees = removed.1 ++ a.heap_frees })

-- The loop over the old infos: the accountant, and the bytes that each segment loses.
unfoldable pub collect_removals :
    Accountant
    → Bool
    → Option ℕ
    → List CacheInfo
    → List (ℕ × ℕ)
    → Outcome (Accountant × List (ℕ × ℕ))
collect_removals a schedule new_idx [] removals = ok (a, removals)
collect_removals a schedule new_idx (old ∷ olds) removals = elim (DiskPtr.lid old.pointer) [
  | none ↦ collect_removals a schedule new_idx olds removals
  | some old_lid ↦ do
    a' ←
        if schedule && is_heap_item old.pointer
        then (unwrap (heap_id old.pointer) >>= remove_item a new_idx)
        else ok a
    let grown = segment_id a' old_lid
    collect_removals grown.0 schedule new_idx olds (add_removal grown.1 old.log_size removals)
]

unfoldable pub remove_all : Accountant → ℕ → ℤ → List (ℕ × ℕ) → Outcome Accountant
remove_all a pid lsn [] = ok a
remove_all a pid lsn ((old_idx, replaced_size) ∷ removals) = do
  segment ← segment_at a old_idx
  segment' ← remove_pid segment pid lsn replaced_size
  a' ← possibly_clean_or_free_segment (set_segment a old_idx segment') old_idx lsn
  remove_all a' pid lsn removals

unfoldable pub new_index : Accountant → DiskPtr → Accountant × Option ℕ
new_index a ptr = elim (DiskPtr.lid ptr) [
  | none ↦ (a, none)
  | some lid ↦ ((segment_id a lid).0, some (segment_id a lid).1)
]

module _ (arrange : List (ℕ × ℕ) → List (ℕ × ℕ)) where
  unfoldable pub mark_replace : Accountant → ℕ → List CacheInfo → CacheInfo → Outcome Accountant
  mark_replace a pid olds new = do
    linked ← if heap_pointer_merged_into_snapshot new.pointer then ok a else mark_link a pid new
    let indexed = new_index linked new.pointer
    collected ← collect_removals indexed.0 (schedule_rm_heap_item olds new) indexed.1 olds []
    remove_all collected.0 pid (normalize new.lsn a.segment_size) (arrange collected.1)

  unfoldable pub apply_op : Accountant → SegmentOp → Outcome Accountant
  apply_op a (link pid info) = mark_link a pid info
  apply_op a (replace pid olds new) = mark_replace a pid olds new
