-- ===== src/Pagecache/Stability.antt =====
-- `StabilityIntervals` of src/pagecache/iobuf.rs: which part of the log is on stable storage. The
-- vector of ranges is a list with its last element in front, and the map of batches an ascending
-- list. `None` of `mark_fsync` means that the stable lsn is not raised.
pub mod Ranges
pub mod Batches
use sled.Prelude.{
  ℕ, Option, none, some, Bool, true, false, List, [], ◌∷◌, if◌then◌else◌, not, ◌&&◌, ◌||◌,
}
use sled.Prelude.Int.{ℤ, pos, ltb_ℤ, leb_ℤ, add_ℤ, pred_ℤ}
use sled.Prelude.Outcome.{Outcome, ok, panic, ◌>>=◌, ◌>>◌, assert}
use sled.Prelude.Sorted.{insert, same_key}

-- The first and the last lsn.
abbrev pub Interval : Type 0
Interval = ℤ × ℤ

pub record StabilityIntervals : Type 0 where
  pub fsynced_ranges : List Interval
  pub batches : List Interval
  pub stable_lsn : ℤ

abbrev pub new : ℤ → StabilityIntervals
new lsn = record { fsynced_ranges = []; batches = []; stable_lsn = lsn }

unfoldable pub mark_batch : StabilityIntervals → Interval → Outcome StabilityIntervals
mark_batch s interval = do
  assert (ltb_ℤ s.stable_lsn interval.0)
  ok (record s { batches = insert ltb_ℤ interval.0 interval.1 s.batches })

-- The interval is joined to the last range, or becomes the last one.
unfoldable pub push_interval : Interval → List Interval → List Interval
push_interval interval [] = interval ∷ []
push_interval interval (r ∷ ranges) =
    if same_key ltb_ℤ r.0 (add_ℤ interval.1 1)
    then (interval.0, r.1) ∷ ranges
    else if same_key ltb_ℤ (add_ℤ r.1 1) interval.0
    then (r.0, interval.1) ∷ ranges
    else interval ∷ r ∷ ranges

-- The reverse sort of the vector, by insertion: the least range comes to stand last in the vector.
abbrev before : Interval → Interval → Bool
before a b = ltb_ℤ a.0 b.0 || (same_key ltb_ℤ a.0 b.0 && ltb_ℤ a.1 b.1)

unfoldable pub place : Interval → List Interval → List Interval
place r [] = r ∷ []
place r (q ∷ ranges) = let rest = place r ranges in if before q r then q ∷ rest else r ∷ q ∷ ranges

unfoldable pub sort : List Interval → List Interval
unfolding place
sort [] = []
sort (r ∷ ranges) = place r (sort ranges)

-- The loop that moves the stable lsn over the ranges behind it.
unfoldable pub raise : List Interval → ℤ → Outcome (List Interval × ℤ)
raise [] stable_lsn = ok ([], stable_lsn)
raise (r ∷ ranges) stable_lsn =
    let rest = raise ranges r.1 in
    assert (leb_ℤ r.0 r.1)
    >> (assert (ltb_ℤ stable_lsn r.0)
        >> (if same_key ltb_ℤ (add_ℤ stable_lsn 1) r.0 then rest else ok (r ∷ ranges, stable_lsn)))

abbrev pub rises : Option ℤ → ℤ → Bool
rises none high = true
rises (some bsl) high = ltb_ℤ bsl high

-- The loop over the batches: those that are left, and the lsn up to which whole batches are stable.
unfoldable pub settle : List Interval → ℤ → Option ℤ → Outcome (List Interval × Option ℤ)
settle [] stable_lsn batch_stable_lsn = ok ([], batch_stable_lsn)
settle (b ∷ batches) stable_lsn batch_stable_lsn =
    let rest = settle batches stable_lsn (some b.1) in
    assert (ltb_ℤ b.0 b.1)
    >> (if leb_ℤ b.1 stable_lsn
        then assert (rises batch_stable_lsn b.1) >> rest
        else ok (b ∷ batches, if leb_ℤ b.0 stable_lsn then some (pred_ℤ b.0) else batch_stable_lsn))

abbrev pub answer : List Interval → ℤ → Option ℤ → Option ℤ
answer [] stable_lsn batch_stable_lsn = some stable_lsn
answer (b ∷ batches) stable_lsn batch_stable_lsn = batch_stable_lsn

unfoldable pub mark_fsync : StabilityIntervals → Interval → Outcome (Option ℤ × StabilityIntervals)
unfolding push_interval sort raise settle
mark_fsync s interval = do
  raised ← raise (sort (push_interval interval s.fsynced_ranges)) s.stable_lsn
  settled ← settle s.batches raised.1 none
  ok (
    answer settled.0 raised.1 settled.1,
    record { fsynced_ranges = raised.0; batches = settled.0; stable_lsn = raised.1 },
  )
