-- ===== src/Pagecache/Accountant/Stable.antt =====
-- Segments that are wholly on disk: `stabilize` and `deactivate_segment` of src/pagecache/segment.rs.
use sled.Prelude.{
  ℕ, suc, ◌+◌, ◌*◌, ◌/◌, Bool, not, ◌&&◌, Option, none, some, List, [], ◌∷◌, ◌++◌, length, ltb, leb,
  ◌==◌, if◌then◌else◌,
}
use sled.Prelude.Int.{ℤ, ltb_ℤ, leb_ℤ, div_ℤ, mul_ℤ, pred_ℤ}
use sled.Prelude.Outcome.{Outcome, ok, ◌>>=◌, ◌>>◌, assert, unwrap}
use sled.Prelude.Sorted.{get}
use sled.Pagecache.Segment.{
  Segment, is_free, is_active, is_inactive, active_to_inactive, inactive_to_draining,
}
use sled.Pagecache.Cleaner.{add_pids}
use sled.Pagecache.Accountant.{Accountant, segment_at, set_segment, segment_id, ordering_from}
use sled.Pagecache.Accountant.Free.{cleanup_threshold, free_segment, possibly_clean_or_free_segment}
use sled.Pagecache.Tip.{normalize}

unfoldable pub count : (Segment → Bool) → List Segment → ℕ
count p [] = 0
count p (s ∷ ss) = let rest = count p ss in if p s then rest + 1 else rest

-- `iter().rposition(Segment::is_inactive)`
unfoldable pub last_inactive : List Segment → Option ℕ
last_inactive [] = none
last_inactive (s ∷ ss) = elim (last_inactive ss) [
  | some i ↦ some (i + 1)
  | none ↦ if is_inactive s then some 0 else none
]

-- With many free segments the last inactive one is emptied, so that the file can shrink.
unfoldable pub relocate_tip : Accountant → ℤ → Outcome Accountant
relocate_tip a lsn =
    let free_segs = count is_free a.segments in
    let inactive_segs = count is_inactive a.segments in
    let free_ratio = free_segs * 100 / suc (free_segs + inactive_segs) in
    if leb cleanup_threshold free_ratio && ltb 5 inactive_segs
    then (do
      last_index ← unwrap (last_inactive a.segments)
      segment ← segment_at a last_index
      drained ← inactive_to_draining segment lsn
      cleaner ← add_pids a.segment_cleaner (last_index * a.segment_size) drained.1
      ok (record (set_segment a last_index drained.0) { segment_cleaner = cleaner }))
    else ok a

-- The segments that waited for this one to be written.
unfoldable pub free_all : Accountant → ℕ → List ℤ → Outcome Accountant
free_all a lid [] = ok a
free_all a lid (lsn ∷ lsns) = do
  segment_start ← unwrap (get ltb_ℤ lsn a.ordering)
  assert (not (segment_start == lid))
  a' ← free_segment a segment_start
  free_all a' lid lsns

-- The accountant, and the segments that can now be freed.
unfoldable pub to_inactive : Accountant → ℕ → ℤ → Segment → Outcome (Accountant × List ℤ)
to_inactive a idx lsn segment =
    if is_active segment
    then (do
      moved ← active_to_inactive segment lsn
      ok (record (set_segment a idx moved.0) { heap_frees = moved.2 ++ a.heap_frees }, moved.1))
    else ok (a, [])

unfoldable pub deactivate_segment : Accountant → ℤ → Outcome Accountant
deactivate_segment a lsn = do
  lid ← unwrap (get ltb_ℤ lsn a.ordering)
  let grown = segment_id a lid
  segment ← segment_at grown.0 grown.1
  moved ← to_inactive grown.0 grown.1 lsn segment
  freed ← free_all moved.0 lid moved.1
  cleaned ← possibly_clean_or_free_segment freed grown.1 lsn
  relocate_tip cleaned lsn

-- `ordering.range((Excluded(after), Included(upto)))`
unfoldable pub lsns_between : ℤ → ℤ → List (ℤ × ℕ) → List ℤ
lsns_between after upto [] = []
lsns_between after upto ((l, r) ∷ ordering) =
    let rest = lsns_between after upto ordering in
    if ltb_ℤ after l && leb_ℤ l upto then l ∷ rest else rest

unfoldable pub deactivate_all : Accountant → List ℤ → Outcome Accountant
deactivate_all a [] = ok a
deactivate_all a (lsn ∷ lsns) = deactivate_segment a lsn >>= λ a'. deactivate_all a' lsns

unfoldable pub stabilize : Accountant → ℤ → Outcome Accountant
stabilize a stable_lsn =
    let lsn = mul_ℤ (pred_ℤ (div_ℤ stable_lsn a.segment_size)) a.segment_size in
    if leb_ℤ lsn a.max_stabilized_lsn
    then ok a
    else deactivate_all (record a { max_stabilized_lsn = lsn })
        (lsns_between a.max_stabilized_lsn lsn a.ordering)

-- `segment_snapshot_iter_from`
unfoldable pub segment_snapshot_iter_from : Accountant → ℤ → Outcome (List (ℤ × ℕ))
segment_snapshot_iter_from a lsn =
    assert (not (length a.ordering == 0))
    >> ok (ordering_from (normalize lsn a.segment_size) a.ordering)
