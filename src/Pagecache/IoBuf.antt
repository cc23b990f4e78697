-- ===== src/Pagecache/IoBuf.antt =====
-- `IoBuf` of src/pagecache/iobuf.rs: a buffer of the log with the word that coordinates its writers.
-- The raw memory is a list of bytes, and the atomic word its value: an operation is one step on it.
pub mod Fresh
use sled.Prelude.{ℕ, Bool, true, List, ◌==◌, leb, if◌then◌else◌, ◌⊎◌, inl, inr}
use sled.Prelude.Int.{ℤ}
use sled.Prelude.Outcome.{Outcome, ok, ◌>>=◌, ◌>>◌, assert}
use sled.Prelude.Bytes.{copy_front}
use sled.Pagecache.Header.{bump_offset, bump_salt, salt}
use sled.Pagecache.SegmentHeader.{SegmentHeader, into}
use sled.Pagecache.Tip.{seg_header_len}

pub record IoBuf : Type 0 where
  pub buf : List ℕ
  pub header : ℕ
  pub base : ℕ
  pub offset : ℕ
  pub lsn : ℤ
  pub capacity : ℕ
  pub from_tip : Bool
  pub stored_max_stable_lsn : ℤ

-- The copy is over raw memory in the program; here it is a panic where the buffer is too short.
unfoldable pub store_segment_header : (List ℕ → ℕ) → IoBuf → ℕ → ℤ → ℤ → Outcome IoBuf
store_segment_header crc32 io last lsn max_stable_lsn = do
  assert (leb seg_header_len io.capacity)
  let header : SegmentHeader = record { lsn = lsn; max_stable_lsn = max_stable_lsn; is_ok = true }
  buf ← copy_front (into crc32 header) io.buf
  bumped ← bump_offset (bump_salt (salt last)) seg_header_len
  ok (record io { buf = buf; header = bumped; lsn = lsn; stored_max_stable_lsn = max_stable_lsn })

-- `compare_exchange`: the new buffer, or the header that was found instead of the old one.
unfoldable pub cas_header : IoBuf → ℕ → ℕ → IoBuf ⊎ ℕ
cas_header io old new = if io.header == old then inl (record io { header = new }) else inr io.header
