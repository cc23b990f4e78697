-- ===== src/Pagecache/IoBuf/Fresh.antt =====
-- A buffer at the start of a segment (src/pagecache/iobuf.rs).
use sled.Prelude.{
  ℕ, ◌+◌, ◌*◌, ◌/◌, ◌^◌, ◌≤◌, ◌<◌, ◌≡◌, refl, ap, ◌∙◌, arith, true, List, ◌++◌, length, take, drop,
  length-append, take-append_of_length, drop-append_of_length, length-drop, inl,
}
use sled.Prelude.Int.{ℤ}
use sled.Prelude.Outcome.{ok}
use sled.Serialization.IntLaws.{IsI64}
use sled.Pagecache.Header.{bump_offset, bump_salt, salt}
use sled.Pagecache.Header.Fields.{
  Fields, IsFields, pack, salt-pack, bump_salt-pack, bump_offset-pack, only_salt,
}
use sled.Pagecache.SegmentHeader.{SegmentHeader, into, from}
use sled.Pagecache.SegmentHeader.RoundTrip.{from-into}
use sled.Pagecache.IoBuf.{IoBuf, store_segment_header}

-- The header word of a buffer that is about to take its first message of a segment.
abbrev pub opened : ℕ → Fields
opened s = record { salt = s; maxed = 0; sealed = 0; writers = 0; offset = 20 }

salt_step :
    (f : Fields)
    → IsFields f
    → f.salt + 1 < 2 ^ 31
    → bump_offset (bump_salt (salt (pack f))) 20 ≡ ok (pack (opened ((f.salt + 1) / 2 * 2)))
salt_step f v room =
    ap (λ (w : ℕ). bump_offset (bump_salt w) 20) (salt-pack f v)
    ∙ (ap (λ (w : ℕ). bump_offset w 20)
          (bump_salt-pack (only_salt f.salt) (valid f.salt v.salt) room)
        ∙ bump_offset-pack (only_salt ((f.salt + 1) / 2 * 2))
            (valid ((f.salt + 1) / 2 * 2) (omega arith)) 20 (inl (omega arith)))
  where
    valid : (s : ℕ) → s < 2 ^ 31 → IsFields (only_salt s)
    valid s h = record {
      salt = h;
      maxed = omega arith;
      sealed = omega arith;
      writers = omega arith;
      offset = omega arith;
    }

-- Opening a buffer of enough room after one with the header of the fields `f`: it starts with the
-- segment's header, which is read back with a right checksum, for any checksum that is a u32; the
-- other bytes stay; and the word has no writer, is neither sealed nor maxed, and has its offset
-- right behind the segment's header.
pub store_segment_header-opened :
    (crc32 : List ℕ → ℕ) (io : IoBuf) (f : Fields) (lsn max_stable_lsn : ℤ)
    → ((bytes : List ℕ) → crc32 bytes < 2 ^ 32)
    → 20 ≤ io.capacity
    → io.capacity ≤ length io.buf
    → IsFields f
    → f.salt + 1 < 2 ^ 31
    → IsI64 lsn
    → IsI64 max_stable_lsn
    → (io' : IoBuf) × (store_segment_header crc32 io (pack f) lsn max_stable_lsn ≡ ok io')
      × (io'.header ≡ pack (opened ((f.salt + 1) / 2 * 2)))
      × (from crc32 (take 20 io'.buf)
          ≡ record { lsn = lsn; max_stable_lsn = max_stable_lsn; is_ok = true })
      × (drop 20 io'.buf ≡ drop 20 io.buf)
      × (length io'.buf ≡ length io.buf)
unfolding store_segment_header
store_segment_header-opened crc32 io f lsn max_stable_lsn word room fits v unsalted vl vm =
    let (len, back) = from-into crc32 header word vl vm in
    (
      record io {
        buf = into crc32 header ++ drop 20 io.buf;
        header = pack (opened ((f.salt + 1) / 2 * 2));
        lsn = lsn;
        stored_max_stable_lsn = max_stable_lsn;
      },
      rw (salt_step f v unsalted, len) (ground (arith, room, fits)),
      refl,
      ap (from crc32) (take-append_of_length 20 (into crc32 header) (drop 20 io.buf) len) ∙ back,
      drop-append_of_length 20 (into crc32 header) (drop 20 io.buf) len,
      omega (
        arith,
        length-append (into crc32 header) (drop 20 io.buf),
        len,
        length-drop 20 io.buf,
        room,
        fits,
      ),
    )
  where
    header : SegmentHeader
    header = record { lsn = lsn; max_stable_lsn = max_stable_lsn; is_ok = true }
