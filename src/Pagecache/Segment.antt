-- ===== src/Pagecache/Segment.antt =====
-- `Segment` of src/pagecache/segment.rs: the bookkeeping of one block of the log. Sets are ascending
-- lists; a slot that `config.heap.free` is called on is an output of the operation.
pub mod Counts
pub mod Drain
use sled.Prelude.{
  ℕ, ◌+◌, ◌-◌, Bool, true, false, Option, none, some, List, [], ◌∷◌, length, not, ltb, leb, ◌==◌,
  ◌&&◌, if◌then◌else◌,
}
use sled.Prelude.Int.{ℤ, pos, ltb_ℤ, leb_ℤ}
use sled.Prelude.Outcome.{Outcome, ok, panic, ◌>>=◌, ◌>>◌, assert}
use sled.Prelude.Sorted.{insert_set, remove_set, difference, same_key}
use sled.Pagecache.DiskPtr.{HeapId}

pub record Active : Type 0 where
  pub lsn : ℤ
  pub rss : ℕ
  pub deferred_replaced_rss : ℕ
  pub deferred_replaced_pids : List ℕ
  pub pids : List ℕ
  pub latest_replacement_lsn : ℤ
  pub can_free_upon_deactivation : List ℤ
  pub deferred_heap_removals : List HeapId

pub record Inactive : Type 0 where
  pub lsn : ℤ
  pub rss : ℕ
  pub pids : List ℕ
  pub max_pids : ℕ
  pub replaced_pids : ℕ
  pub latest_replacement_lsn : ℤ

pub record Draining : Type 0 where
  pub lsn : ℤ
  pub max_pids : ℕ
  pub replaced_pids : ℕ
  pub latest_replacement_lsn : ℤ

pub data Segment : Type 0 where
  -- the lsn of the previous use
  free : Option ℤ → Segment
  active : Active → Segment
  inactive : Inactive → Segment
  draining : Draining → Segment

-- `Segment::default`
abbrev pub default : Segment
default = free none

unfoldable pub is_free : Segment → Bool
is_free (free previous_lsn) = true
is_free _ = false

unfoldable pub is_active : Segment → Bool
is_active (active a) = true
is_active _ = false

unfoldable pub is_inactive : Segment → Bool
is_inactive (inactive i) = true
is_inactive _ = false

unfoldable pub free_to_active : Segment → ℤ → Outcome Segment
free_to_active (free previous_lsn) new_lsn = ok (
    active (record {
      lsn = new_lsn;
      rss = 0;
      deferred_replaced_rss = 0;
      deferred_replaced_pids = [];
      pids = [];
      latest_replacement_lsn = pos 0;
      can_free_upon_deactivation = [];
      deferred_heap_removals = [];
    }))
free_to_active _ new_lsn = panic

-- `a.checked_sub(b).unwrap()`
abbrev pub checked_sub : ℕ → ℕ → Outcome ℕ
checked_sub a b = if leb b a then ok (a - b) else panic

abbrev deactivated : Active → ℕ → Inactive
deactivated a rss = record {
  lsn = a.lsn;
  rss = rss;
  pids = difference ltb a.pids a.deferred_replaced_pids;
  max_pids = length a.pids;
  replaced_pids = length a.deferred_replaced_pids;
  latest_replacement_lsn = a.latest_replacement_lsn;
}

-- The new state, the segments that can now be freed, and the heap items that are freed.
unfoldable pub active_to_inactive : Segment → ℤ → Outcome (Segment × List ℤ × List HeapId)
active_to_inactive (active a) lsn = do
  assert (leb_ℤ a.lsn lsn)
  rss ← checked_sub a.rss a.deferred_replaced_rss
  ok (inactive (deactivated a rss), a.can_free_upon_deactivation, a.deferred_heap_removals)
active_to_inactive _ lsn = panic

-- The new state, and the pages that are still to be moved.
unfoldable pub inactive_to_draining : Segment → ℤ → Outcome (Segment × List ℕ)
inactive_to_draining (inactive i) lsn = do
  assert (leb_ℤ i.lsn lsn)
  ok (
    draining (record {
      lsn = i.lsn;
      max_pids = i.max_pids;
      replaced_pids = i.replaced_pids;
      latest_replacement_lsn = i.latest_replacement_lsn;
    }),
    i.pids,
  )
inactive_to_draining _ lsn = panic

unfoldable pub defer_free_lsn : Segment → ℤ → Outcome Segment
defer_free_lsn (active a) lsn = ok (
    active
      (record a { can_free_upon_deactivation = insert_set ltb_ℤ lsn a.can_free_upon_deactivation }))
defer_free_lsn _ lsn = panic

-- The new state, and the lsn of the latest replacement.
unfoldable pub draining_to_free : Segment → ℤ → Outcome (Segment × ℤ)
draining_to_free (draining d) lsn = do
  assert (leb_ℤ d.lsn lsn)
  ok (free (some d.lsn), d.latest_replacement_lsn)
draining_to_free _ lsn = panic

unfoldable pub recovery_ensure_initialized : Segment → ℤ → Outcome Segment
unfolding is_free free_to_active
recovery_ensure_initialized s lsn = if is_free s then free_to_active s lsn else ok s

unfoldable pub lsn : Segment → Outcome ℤ
lsn (active a) = ok a.lsn
lsn (inactive i) = ok i.lsn
lsn (draining d) = ok d.lsn
lsn (free previous_lsn) = panic

unfoldable pub insert_pid : Segment → ℕ → ℤ → ℕ → Outcome Segment
insert_pid (active a) pid lsn size = do
  assert (same_key ltb_ℤ lsn a.lsn)
  ok (active (record a { pids = insert_set ltb pid a.pids; rss = a.rss + size }))
insert_pid _ pid lsn size = panic

abbrev pub later : ℤ → ℤ → ℤ
later replacement_lsn latest = if ltb_ℤ latest replacement_lsn then replacement_lsn else latest

unfoldable pub remove_pid : Segment → ℕ → ℤ → ℕ → Outcome Segment
remove_pid (active a) pid replacement_lsn sz = do
  assert (leb_ℤ a.lsn replacement_lsn)
  let deferred =
      if same_key ltb_ℤ replacement_lsn a.lsn
      then a.deferred_replaced_pids
      else insert_set ltb pid a.deferred_replaced_pids
  ok (
      active (record a {
        deferred_replaced_pids = deferred;
        deferred_replaced_rss = a.deferred_replaced_rss + sz;
        latest_replacement_lsn = later replacement_lsn a.latest_replacement_lsn;
      }))
remove_pid (inactive i) pid replacement_lsn sz = do
  assert (leb_ℤ i.lsn replacement_lsn)
  let same = same_key ltb_ℤ replacement_lsn i.lsn
  rss ← checked_sub i.rss sz
  ok (
      inactive (record i {
        pids = if same then i.pids else remove_set ltb pid i.pids;
        replaced_pids = if same then i.replaced_pids else i.replaced_pids + 1;
        rss = rss;
        latest_replacement_lsn = later replacement_lsn i.latest_replacement_lsn;
      }))
remove_pid (draining d) pid replacement_lsn sz = do
  assert (leb_ℤ d.lsn replacement_lsn)
  let same = same_key ltb_ℤ replacement_lsn d.lsn
  ok (
      draining (record d {
        replaced_pids = if same then d.replaced_pids else d.replaced_pids + 1;
        latest_replacement_lsn = later replacement_lsn d.latest_replacement_lsn;
      }))
remove_pid (free previous_lsn) pid replacement_lsn sz = panic

abbrev same_heap_id : HeapId → HeapId → Bool
same_heap_id a b = (a.location == b.location) && same_key ltb_ℤ a.original_lsn b.original_lsn

-- An insertion into a hash set.
unfoldable pub insert_heap_id : HeapId → List HeapId → List HeapId
insert_heap_id id [] = id ∷ []
insert_heap_id id (h ∷ s) =
    let rest = insert_heap_id id s in if same_heap_id id h then h ∷ s else h ∷ rest

-- The new state, and the heap items that are freed at once.
unfoldable pub remove_heap_item : Segment → HeapId → Outcome (Segment × List HeapId)
unfolding insert_heap_id
remove_heap_item (active a) id =
    ok (
      active (record a { deferred_heap_removals = insert_heap_id id a.deferred_heap_removals }),
      [],
    )
remove_heap_item (inactive i) id = ok (inactive i, id ∷ [])
remove_heap_item (draining d) id = ok (draining d, id ∷ [])
remove_heap_item (free previous_lsn) id = panic

unfoldable pub can_free : Segment → Bool
can_free (draining d) = d.replaced_pids == d.max_pids
can_free _ = false
