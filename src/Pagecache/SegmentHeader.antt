-- ===== src/Pagecache/SegmentHeader.antt =====
-- The header of a segment of the log (src/pagecache/logger.rs). The checksum `crc32` is a function of
-- the package crc32fast, here a parameter.
pub mod RoundTrip
use Prim.Native.Nat.{bit_xor}
use sled.Prelude.{ℕ, Bool, List, ◌++◌, take, drop, ◌==◌}
use sled.Prelude.Int.{ℤ}
use sled.Prelude.Bytes.{to_le_bytes, from_le_bytes}
use sled.Serialization.Ints.{i64_bits, i64_of_bits}

pub record SegmentHeader : Type 0 where
  pub lsn : ℤ
  pub max_stable_lsn : ℤ
  pub is_ok : Bool

abbrev pub lsn_mask : ℕ
lsn_mask = 0x7FFF_FFFF_FFFF_FFFF

abbrev pub crc_mask : ℕ
crc_mask = 0xFFFF_FFFF

-- `lsn_to_arr(lsn ^ 0x7FFF_FFFF_FFFF_FFFF)`, and back
unfoldable pub lsn_bytes : ℤ → List ℕ
lsn_bytes lsn = to_le_bytes 8 (bit_xor (i64_bits lsn) lsn_mask)

unfoldable pub lsn_of_bytes : List ℕ → ℤ
lsn_of_bytes arr = i64_of_bits (bit_xor (from_le_bytes arr) lsn_mask)

module _ (crc32 : List ℕ → ℕ) where
  -- The 20 bytes: the checksum over the two lsns, then these.
  unfoldable pub into : SegmentHeader → List ℕ
  unfolding lsn_bytes
  into h =
      let lsns = lsn_bytes h.lsn ++ lsn_bytes h.max_stable_lsn in
      to_le_bytes 4 (bit_xor (crc32 lsns) crc_mask) ++ lsns

  unfoldable pub from : List ℕ → SegmentHeader
  unfolding lsn_of_bytes
  from buf = record {
    lsn = lsn_of_bytes (take 8 (drop 4 buf));
    max_stable_lsn = lsn_of_bytes (take 8 (drop 12 buf));
    is_ok = crc32 (take 16 (drop 4 buf)) == bit_xor (from_le_bytes (take 4 buf)) crc_mask;
  }
