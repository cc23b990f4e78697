-- ===== src/Tests/Buffers.antt =====
-- Runs of src/pagecache/iobuf.rs and src/pagecache/logger.rs.
use sled.Prelude.{
  ℕ, ◌+◌, ◌*◌, ◌/◌, take, drop, replicate, ◌%◌, ◌^◌, length, arith, List, ◌≡◌, refl, true, false,
  Option, none, some, [], ◌∷◌, ◌||◌,
}
use sled.Prelude.Int.{ℤ, pos, negsuc, add_ℤ}
use sled.Prelude.Outcome.{Outcome, ok, err, panic}
use sled.Pagecache.SegmentHeader.{SegmentHeader, into, from}
use sled.Pagecache.SegmentHeader.RoundTrip.{from-into}
use sled.Pagecache.Header.Fields.{Fields, IsFields, pack}
use sled.Pagecache.IoBuf.{IoBuf, store_segment_header}
use sled.Pagecache.IoBuf.Fresh.{opened, store_segment_header-opened}
use sled.Pagecache.Stability.{
  StabilityIntervals, mark_fsync, push_interval, sort, place, raise, settle,
}
use sled.Pagecache.Stability.Ranges.{is_in, is_fsynced, is_stable}
use sled.Pagecache.Stability.Batches.{
  IsIntervals, Batches, is_up_to, Unfinished, mark_fsync-IsIntervals,
}

abbrev intervals : StabilityIntervals
intervals = record {
  fsynced_ranges = (pos 20, pos 29) ∷ [];
  batches = (pos 5, pos 8) ∷ (pos 15, pos 25) ∷ (pos 28, pos 40) ∷ [];
  stable_lsn = pos 9;
}

intervals-IsIntervals : IsIntervals intervals
intervals-IsIntervals = record {
  ranges = (refl, (refl, tt));
  batches = (refl, (refl, (refl, (refl, (refl, (refl, tt))))));
}

mark_fsync_example :
    (lsn : Option ℤ) × (s' : StabilityIntervals) × (mark_fsync intervals (pos 10, pos 19)
      ≡ ok (lsn, s'))
    × IsIntervals s'
    × (is_fsynced (add_ℤ s'.stable_lsn 1) s'.fsynced_ranges ≡ false)
    × ((x : ℤ)
        → is_stable x s'.stable_lsn s'.fsynced_ranges
          ≡ (is_in x (pos 10, pos 19) || is_stable x (pos 9) ((pos 20, pos 29) ∷ [])))
    × Batches lsn s'.batches
    × (is_up_to lsn s'.stable_lsn ≡ true)
    × Unfinished s'.stable_lsn s'.batches
mark_fsync_example =
    mark_fsync-IsIntervals intervals (pos 10, pos 19) intervals-IsIntervals refl refl (refl, tt)

answered : Outcome (Option ℤ × StabilityIntervals) → Option (Option ℤ)
answered (ok p) = some p.0
answered (err e) = none
answered panic = none

answer_is_below_batch : answered (mark_fsync intervals (pos 10, pos 19)) ≡ some (some (pos 27))
unfolding answered mark_fsync push_interval sort place raise settle
answer_is_below_batch = refl

-- A checksum for the run.
abbrev count_bytes : List ℕ → ℕ
count_bytes bytes = length bytes % 2 ^ 32

abbrev segment_header : SegmentHeader
segment_header = record { lsn = pos 4096; max_stable_lsn = negsuc 0; is_ok = false }

from-into_example :
    (length (into count_bytes segment_header) ≡ 20)
    × (from count_bytes (into count_bytes segment_header)
        ≡ record { lsn = pos 4096; max_stable_lsn = negsuc 0; is_ok = true })
from-into_example =
    from-into count_bytes segment_header (λ bytes. omega arith) (omega arith, omega arith)
      (omega arith, omega arith)

abbrev blank : IoBuf
blank = record {
  buf = replicate 24 7;
  header = 0;
  base = 0;
  offset = 512;
  lsn = pos 0;
  capacity = 24;
  from_tip = true;
  stored_max_stable_lsn = negsuc 0;
}

abbrev last_fields : Fields
last_fields = record { salt = 6; maxed = 1; sealed = 1; writers = 0; offset = 512 }

last_fields-IsFields : IsFields last_fields
last_fields-IsFields = record {
  salt = omega arith;
  maxed = omega arith;
  sealed = omega arith;
  writers = omega arith;
  offset = omega arith;
}

store_segment_header_example :
    (io' : IoBuf) × (store_segment_header count_bytes blank (pack last_fields) (pos 4096) (negsuc 0)
      ≡ ok io')
    × (io'.header ≡ pack (opened ((6 + 1) / 2 * 2)))
    × (from count_bytes (take 20 io'.buf)
        ≡ record { lsn = pos 4096; max_stable_lsn = negsuc 0; is_ok = true })
    × (drop 20 io'.buf ≡ drop 20 blank.buf)
    × (length io'.buf ≡ length blank.buf)
store_segment_header_example =
    store_segment_header-opened count_bytes blank last_fields (pos 4096) (negsuc 0)
      (λ bytes. omega arith) (omega arith) (omega arith) last_fields-IsFields (omega arith)
      (omega arith, omega arith) (omega arith, omega arith)
