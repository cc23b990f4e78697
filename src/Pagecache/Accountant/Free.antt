-- ===== src/Pagecache/Accountant/Free.antt =====
-- Freed segments and truncations of the file (`free_segment`, `truncate` and
-- `possibly_clean_or_free_segment` of src/pagecache/segment.rs).
use sled.Prelude.{
  ℕ, zero, suc, ◌+◌, ◌*◌, ◌/◌, ◌%◌, not, ◌&&◌, none, some, List, length, ltb, leb, ◌==◌,
  if◌then◌else◌,
}
use sled.Prelude.Int.{ℤ, ltb_ℤ, leb_ℤ}
use sled.Prelude.Outcome.{Outcome, ok, ◌>>=◌, ◌>>◌, assert}
use sled.Prelude.Sorted.{contains, insert_set, remove_set, get, remove}
use sled.Pagecache.Segment.{
  Segment, free, is_free, is_active, is_inactive, checked_sub, inactive_to_draining,
  draining_to_free, can_free, defer_free_lsn, inactive,
}
use sled.Pagecache.Segment as Segment
use sled.Pagecache.Cleaner.{add_pids, remove_pids}
use sled.Pagecache.Accountant.{Accountant, segment_at, set_segment, segment_id}

-- `SEGMENT_CLEANUP_THRESHOLD`
abbrev pub cleanup_threshold : ℕ
cleanup_threshold = 50

unfoldable pub truncate : Accountant → ℕ → Outcome Accountant
truncate a offset = do
  assert (offset % a.segment_size == 0)
  assert (not (contains ltb offset a.free))
  assert (not (contains ltb offset a.async_truncations))
  ok (record a { tip = offset; async_truncations = insert_set ltb offset a.async_truncations })

-- The loop that gives free segments at the end of the file back, on fuel. One free segment is kept.
unfoldable pub shrink : (fuel : ℕ) → Accountant → Outcome Accountant
shrink zero a = ok a
shrink (suc fuel) a =
    if not (a.tip == 0) && ltb 1 (length a.free)
    then (do
      last_segment ← checked_sub a.tip a.segment_size
      if contains ltb last_segment a.free
          then (do
            a' ← truncate (record a { free = remove_set ltb last_segment a.free }) last_segment
            shrink fuel a')
          else ok a)
    else ok a

-- `self.ordering.remove(&last_lsn)` for a segment that was in use before
unfoldable pub forget_lsn : Segment → List (ℤ × ℕ) → List (ℤ × ℕ)
forget_lsn (free (some last_lsn)) ordering = remove ltb_ℤ last_lsn ordering
forget_lsn _ ordering = ordering

unfoldable pub free_segment : Accountant → ℕ → Outcome Accountant
free_segment a lid = do
  let grown = segment_id (record a { segment_cleaner = remove_pids a.segment_cleaner lid }) lid
  assert (ltb lid a.tip)
  segment ← segment_at grown.0 grown.1
  assert (is_free segment)
  assert (not (contains ltb lid a.free))
  shrink (length a.free + 2) (record grown.0 {
    free = insert_set ltb lid a.free;
    ordering = forget_lsn segment a.ordering;
  })

-- A segment that holds little is cleaned.
unfoldable pub clean : Accountant → ℕ → ℤ → Segment → Outcome Accountant
clean a idx lsn (inactive i) =
    if leb (i.rss * 100 / a.segment_size) cleanup_threshold
    then (do
      drained ← inactive_to_draining (inactive i) lsn
      cleaner ← add_pids a.segment_cleaner (idx * a.segment_size) drained.1
      ok (record (set_segment a idx drained.0) { segment_cleaner = cleaner }))
    else ok a
clean a idx lsn segment = ok a

-- A segment that can be freed waits for the segment that replaced its last page to be written.
unfoldable pub free_or_defer : Accountant → ℕ → ℤ → ℤ → Outcome Accountant
free_or_defer a idx segment_lsn replacement_lsn = elim (get ltb_ℤ replacement_lsn a.ordering) [
  | none ↦ free_segment a (idx * a.segment_size)
  | some replacement_lid ↦ do
    replacement ← segment_at a (replacement_lid / a.segment_size)
    if is_active replacement
        then (do
          deferred ← defer_free_lsn replacement segment_lsn
          ok (set_segment a (replacement_lid / a.segment_size) deferred))
        else (do
          assert (leb_ℤ replacement_lsn a.max_stabilized_lsn)
          free_segment a (idx * a.segment_size))
]

unfoldable pub possibly_clean_or_free_segment : Accountant → ℕ → ℤ → Outcome Accountant
possibly_clean_or_free_segment a idx lsn = do
  segment ← segment_at a idx
  cleaned ← clean a idx lsn segment
  segment' ← segment_at cleaned idx
  segment_lsn ← Segment.lsn segment'
  if can_free segment'
      then (do
        freed ← draining_to_free segment' lsn
        free_or_defer (set_segment cleaned idx freed.0) idx segment_lsn freed.1)
      else ok cleaned
