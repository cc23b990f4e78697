-- ===== src/Pagecache/SegmentHeader/RoundTrip.antt =====
-- A segment header is read back, and its checksum holds (src/pagecache/logger.rs).
use Prim.Native.Nat.{bit_xor}
use sled.Prelude.{
  ℕ, ◌^◌, ◌<◌, ◌≡◌, refl, ap, sym, drop-drop, ◌∙◌, arith, true, List, [], ◌++◌, length, take, drop,
  length-append, take-append_of_length, drop-append_of_length, append-nil,
}
use sled.Prelude.Int.{ℤ}
use sled.Prelude.Xor.{bit_xor-bit_xor}
use sled.Prelude.Bytes.{to_le_bytes, from_le_bytes, length-to_le_bytes, from_le_bytes-to_le_bytes}
use sled.Serialization.Ints.{i64_bits}
use sled.Serialization.IntLaws.{IsI64, i64_bits_back}
use sled.Pagecache.SegmentHeader.{
  SegmentHeader, lsn_mask, crc_mask, lsn_bytes, lsn_of_bytes, into, from,
}

length-lsn_bytes : (lsn : ℤ) → length (lsn_bytes lsn) ≡ 8
unfolding lsn_bytes
length-lsn_bytes lsn = length-to_le_bytes 8 (bit_xor (i64_bits lsn) lsn_mask)

le_bytes_back : (n v : ℕ) → v < 256 ^ n → from_le_bytes (to_le_bytes n v) ≡ v
le_bytes_back n v h = rw append-nil at (from_le_bytes-to_le_bytes n 0 v h)

lsn_of_bytes-lsn_bytes : (lsn : ℤ) → IsI64 lsn → lsn_of_bytes (lsn_bytes lsn) ≡ lsn
unfolding lsn_bytes lsn_of_bytes
lsn_of_bytes-lsn_bytes lsn v =
    let (fits, back) = i64_bits_back lsn v in
    let (bound, undone) = bit_xor-bit_xor 64 (i64_bits lsn) lsn_mask fits (omega arith) in
    rw (le_bytes_back 8 (bit_xor (i64_bits lsn) lsn_mask) bound, undone) back

-- The three parts of the buffer, by where they stand.
parts :
    (a b c : List ℕ)
    → length a ≡ 4
    → length b ≡ 8
    → length c ≡ 8
    → (take 4 (a ++ (b ++ c)) ≡ a)
      × (take 16 (drop 4 (a ++ (b ++ c))) ≡ b ++ c)
      × (take 8 (drop 4 (a ++ (b ++ c))) ≡ b)
      × (take 8 (drop 12 (a ++ (b ++ c))) ≡ c)
parts a b c ha hb hc =
    let tail : drop 4 (a ++ (b ++ c)) ≡ b ++ c = drop-append_of_length 4 a (b ++ c) ha in
    let whole : take 16 (b ++ c) ≡ b ++ c =
      ap (λ l. take 16 l) (sym (append-nil (b ++ c)))
      ∙ (take-append_of_length 16 (b ++ c) [] (omega (arith, length-append b c)) ∙ refl) in
    let last : drop 12 (a ++ (b ++ c)) ≡ c =
      sym (drop-drop 4 8 (a ++ (b ++ c)))
      ∙ (ap (λ l. drop 8 l) tail ∙ drop-append_of_length 8 b c hb) in
    let only : take 8 c ≡ c =
      ap (λ l. take 8 l) (sym (append-nil c)) ∙ take-append_of_length 8 c [] hc in
    (
      take-append_of_length 4 a (b ++ c) ha,
      rw tail whole,
      rw tail (take-append_of_length 8 b c hb),
      rw last only,
    )

-- A buffer with these parts is read as the header whose lsns and checksum they hold.
from_parts :
    (crc32 : List ℕ → ℕ) (buf a b c : List ℕ) (lsn max_stable_lsn : ℤ)
    → take 4 buf ≡ a
    → take 16 (drop 4 buf) ≡ b ++ c
    → take 8 (drop 4 buf) ≡ b
    → take 8 (drop 12 buf) ≡ c
    → bit_xor (from_le_bytes a) crc_mask ≡ crc32 (b ++ c)
    → lsn_of_bytes b ≡ lsn
    → lsn_of_bytes c ≡ max_stable_lsn
    → from crc32 buf ≡ record { lsn = lsn; max_stable_lsn = max_stable_lsn; is_ok = true }
unfolding from
from_parts crc32 buf a b c lsn max_stable_lsn ea ebc eb ec crc el em =
    rw (ea, ebc, eb, ec, crc, el, em) (ground arith)

-- For any checksum that is a u32, a header with lsns of 64 bits is read back from the 20 bytes that
-- it is written as, and its checksum is found right.
pub from-into :
    (crc32 : List ℕ → ℕ) (h : SegmentHeader)
    → ((bytes : List ℕ) → crc32 bytes < 2 ^ 32)
    → IsI64 h.lsn
    → IsI64 h.max_stable_lsn
    → (length (into crc32 h) ≡ 20)
      × (from crc32 (into crc32 h)
          ≡ record { lsn = h.lsn; max_stable_lsn = h.max_stable_lsn; is_ok = true })
unfolding into
from-into crc32 h word vl vm =
    let (bound, undone) = bit_xor-bit_xor 32 (crc32 lsns) crc_mask (word lsns) (omega arith) in
    let (crc, body, first, second) =
      parts stored (lsn_bytes h.lsn) (lsn_bytes h.max_stable_lsn)
        (length-to_le_bytes 4 (bit_xor (crc32 lsns) crc_mask)) (length-lsn_bytes h.lsn)
        (length-lsn_bytes h.max_stable_lsn) in
    (
      omega (
        arith,
        length-append stored lsns,
        length-append (lsn_bytes h.lsn) (lsn_bytes h.max_stable_lsn),
        length-to_le_bytes 4 (bit_xor (crc32 lsns) crc_mask),
        length-lsn_bytes h.lsn,
        length-lsn_bytes h.max_stable_lsn,
      ),
      from_parts crc32 (into crc32 h) stored (lsn_bytes h.lsn) (lsn_bytes h.max_stable_lsn) h.lsn
          h.max_stable_lsn crc body first second
          (ap (λ (v : ℕ). bit_xor v crc_mask)
              (le_bytes_back 4 (bit_xor (crc32 lsns) crc_mask) bound)
            ∙ undone)
          (lsn_of_bytes-lsn_bytes h.lsn vl) (lsn_of_bytes-lsn_bytes h.max_stable_lsn vm),
    )
  where
    lsns : List ℕ
    lsns = lsn_bytes h.lsn ++ lsn_bytes h.max_stable_lsn

    stored : List ℕ
    stored = to_le_bytes 4 (bit_xor (crc32 lsns) crc_mask)
