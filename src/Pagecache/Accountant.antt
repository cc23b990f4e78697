-- ===== src/Pagecache/Accountant.antt =====
-- `SegmentAccountant` of src/pagecache/segment.rs: which blocks of the log file are free, in use, or on
-- the way out. Maps and sets are ascending lists. `shrinks` says whether the truncation of the file at
-- an offset, which another thread does, succeeds.
pub mod Free
pub mod Marks
pub mod Stable
pub mod Layout
pub mod Invariant
pub mod Cut
pub mod Shrink
use sled.Prelude.{
  ℕ, zero, suc, ◌+◌, ◌-◌, ◌*◌, ◌/◌, ◌%◌, Bool, true, false, not, ◌&&◌, ◌||◌, Option, none, some,
  List, [], ◌∷◌, ◌++◌, length, get_elem?, get_or, set, replicate, ltb, leb, ◌==◌, if◌then◌else◌,
}
use sled.Prelude.Int.{ℤ, pos, negsuc, ltb_ℤ, leb_ℤ, rem_ℤ}
use sled.Prelude.Outcome.{Outcome, ok, err, panic, io, ◌>>=◌, ◌>>◌, assert, unwrap}
use sled.Prelude.Sorted.{contains, insert_set, remove_set, get, insert, remove, same_key}
use sled.Pagecache.DiskPtr.{DiskPtr, HeapId}
use sled.Pagecache.Segment.{Segment, default, free_to_active}
use sled.Pagecache.Cleaner.{Cleaner}

pub record Accountant : Type 0 where
  -- of the configuration
  pub segment_size : ℕ
  pub segments : List Segment
  pub free : List ℕ
  pub tip : ℕ
  pub max_stabilized_lsn : ℤ
  pub segment_cleaner : Cleaner
  pub ordering : List (ℤ × ℕ)
  -- the offsets of truncations that were not waited for
  pub async_truncations : List ℕ
  -- the calls of `config.heap.free`, the latest first
  pub heap_frees : List HeapId

-- The segments, `Segment::default()` beyond the end.
abbrev pub segment_of : Accountant → ℕ → Segment
segment_of a idx = get_or a.segments idx default

abbrev pub segment_at : Accountant → ℕ → Outcome Segment
segment_at a idx = unwrap (get_elem? a.segments idx)

abbrev pub set_segment : Accountant → ℕ → Segment → Accountant
set_segment a idx s = record a { segments = set a.segments idx s }

-- The index of a segment, with the list of segments grown to it.
unfoldable pub segment_id : Accountant → ℕ → Accountant × ℕ
segment_id a lid =
    let idx = lid / a.segment_size in
    (
      if ltb (length a.segments) (idx + 1)
          then record a { segments = a.segments ++ replicate (idx + 1 - length a.segments) default }
          else a,
      idx,
    )

-- What `split_off` leaves in the set of truncations: those below the offset.
unfoldable pub below_only : ℕ → List ℕ → List ℕ
below_only lid [] = []
below_only lid (t ∷ ts) = let rest = below_only lid ts in if ltb t lid then t ∷ rest else rest

-- Whether all truncations from the offset on succeed.
unfoldable pub all_shrink : (ℕ → Bool) → ℕ → List ℕ → Bool
all_shrink shrinks lid [] = true
all_shrink shrinks lid (t ∷ ts) =
    let rest = all_shrink shrinks lid ts in if ltb t lid then rest else shrinks t && rest

-- The accountant, and the offset of the new segment at the end of the file.
unfoldable pub bump_tip : (ℕ → Bool) → Accountant → Outcome (Accountant × ℕ)
bump_tip shrinks a =
    if all_shrink shrinks a.tip a.async_truncations
    then ok (
      record a {
        async_truncations = below_only a.tip a.async_truncations;
        tip = a.tip + a.segment_size;
      },
      a.tip,
    )
    else err io

-- The lowest free segment, or else one at the tip.
unfoldable pub pick : (ℕ → Bool) → Accountant → Outcome (Accountant × ℕ × Bool)
pick shrinks a = elim a.free [
  | [] ↦ bump_tip shrinks a >>= λ bumped. ok (bumped.0, bumped.1, true)
  | next ∷ free ↦ ok (record a { free = remove_set ltb next a.free }, next, false)
]

-- `lsn` is pinned to the segment that was picked.
unfoldable pub activate : Accountant → ℤ → ℕ → Outcome Accountant
activate a lsn lid = do
  let grown = segment_id a lid
  segment ← segment_at grown.0 grown.1
  active ← free_to_active segment lsn
  ok (record (set_segment grown.0 grown.1 active) { ordering = insert ltb_ℤ lsn lid a.ordering })

-- The accountant, the offset to write a new segment at, and whether it is at the end of the file.
unfoldable pub next : (ℕ → Bool) → Accountant → ℤ → Outcome (Accountant × ℕ × Bool)
next shrinks a lsn = do
  assert (same_key ltb_ℤ (rem_ℤ lsn a.segment_size) (pos 0))
  picked ← pick shrinks a
  a' ← activate picked.0 lsn picked.1
  assert (leb_ℤ (pos picked.1) lsn)
  ok (a', picked.1, picked.2)

-- The segments whose lsn is not below the one that is asked for.
unfoldable pub ordering_from : ℤ → List (ℤ × ℕ) → List (ℤ × ℕ)
ordering_from lsn [] = []
ordering_from lsn ((l, r) ∷ ordering) =
    let rest = ordering_from lsn ordering in if leb_ℤ lsn l then (l, r) ∷ rest else rest
