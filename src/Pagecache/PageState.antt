-- ===== src/Pagecache/PageState.antt =====
-- `PageState` and `Snapshot` of src/pagecache/snapshot.rs.
use sled.Prelude.{ℕ, Option, none, some, Bool, true, false, List, [], ◌∷◌, ◌++◌, map, if◌then◌else◌}
use sled.Prelude.Int.{ℤ, ltb_ℤ}
use sled.Prelude.Outcome.{Outcome, ok, panic, ◌>>=◌}
use sled.Pagecache.DiskPtr.{DiskPtr, HeapId, heap_id, forget_heap_log_coordinates}

-- The lsn, the pointer, and the size that the write has in the log.
abbrev pub Item : Type 0
Item = ℤ × DiskPtr × ℕ

pub data PageState : Type 0 where
  present : Item → List Item → PageState
  free : ℤ → DiskPtr → PageState
  uninitialized : PageState

pub record Snapshot : Type 0 where
  pub stable_lsn : Option ℤ
  pub active_segment : Option ℕ
  pub pt : List PageState

-- `frags.last().map_or(base.0, |f| f.0)`
unfoldable pub last_lsn : ℤ → List Item → ℤ
last_lsn lsn [] = lsn
last_lsn lsn (f ∷ frags) = last_lsn f.0 frags

-- An item that is not newer than the last one is skipped.
unfoldable pub push : PageState → Item → Outcome PageState
unfolding last_lsn
push (present base frags) item =
    if ltb_ℤ (last_lsn base.0 frags) item.0
    then ok (present base (frags ++ item ∷ []))
    else ok (present base frags)
push _ item = panic

unfoldable pub is_free : PageState → Bool
is_free (free lsn ptr) = true
is_free _ = false

-- `if let Some(heap_id) = ptr.heap_id() { ret.push(heap_id) }`
unfoldable pub push_heap_id : DiskPtr → List HeapId → List HeapId
unfolding heap_id
push_heap_id ptr ret = elim (heap_id ptr) [ none ↦ ret | some id ↦ ret ++ id ∷ [] ]

push_heap_ids : List Item → List HeapId → List HeapId
push_heap_ids [] ret = ret
push_heap_ids (f ∷ frags) ret = push_heap_ids frags (push_heap_id f.1 ret)

unfoldable pub heap_ids : PageState → Outcome (List HeapId)
unfolding push_heap_id push_heap_ids
heap_ids (present base frags) = ok (push_heap_ids frags (push_heap_id base.1 []))
heap_ids (free lsn ptr) = ok (push_heap_id ptr [])
heap_ids uninitialized = panic

abbrev forget_item : Item → Item
forget_item item = (item.0, forget_heap_log_coordinates item.1, item.2)

unfoldable pub forget_page : PageState → Outcome PageState
forget_page (free lsn ptr) = ok (free lsn (forget_heap_log_coordinates ptr))
forget_page (present base frags) = ok (present (forget_item base) (map forget_item frags))
forget_page uninitialized = panic

unfoldable pub forget_pages : List PageState → Outcome (List PageState)
unfolding forget_page
forget_pages [] = ok []
forget_pages (page ∷ pt) = forget_page page >>= λ p. forget_pages pt >>= λ ps. ok (p ∷ ps)

unfoldable pub filter_inner_heap_ids : Snapshot → Outcome Snapshot
unfolding forget_pages
filter_inner_heap_ids s = forget_pages s.pt >>= λ pt. ok (record s { pt = pt })
