-- ===== src/Varint.antt =====
-- src/varint.rs: unsigned 64-bit integers in 1 to 9 bytes. The first byte is the value up to 240,
-- or says how the value is spread over the bytes that follow.
pub mod Encode
pub mod Decode
use sled.Prelude.{
  ℕ, ◌+◌, ◌-◌, ◌*◌, ◌/◌, ◌%◌, List, [], ◌∷◌, if◌then◌else◌, leb, ◌==◌, take, replicate,
}
use sled.Prelude.Outcome.{Outcome, ok, err, corruption, ◌>>=◌}
use sled.Prelude.Bytes.{
  to_le_bytes, from_le_bytes, to_u8, index, slice_to, slice_from, copy_front, copy_at,
}

unfoldable pub size : ℕ → ℕ
size int =
    if leb int 240
    then 1
    else if leb int 2287
    then 2
    else if leb int 67823
    then 3
    else if leb int 0x00FF_FFFF
    then 4
    else if leb int 0xFFFF_FFFF
    then 5
    else if leb int 0x00FF_FFFF_FFFF
    then 6
    else if leb int 0xFFFF_FFFF_FFFF
    then 7
    else if leb int 0x00FF_FFFF_FFFF_FFFF
    then 8
    else 9

-- The branches from 4 bytes on: the first byte, then the `n` low bytes of the integer.
unfoldable pub serialize_wide : ℕ → ℕ → ℕ → List ℕ → Outcome (List ℕ × ℕ)
serialize_wide first n int buf = do
  buf' ← copy_at 0 (first ∷ []) buf
  let bytes = to_le_bytes 8 int
  buf'' ← copy_at 1 (take n bytes) buf'
  ok (buf'', n + 1)

-- Returns the buffer after the writes, and the number of bytes that were written.
unfoldable pub serialize_into : ℕ → List ℕ → Outcome (List ℕ × ℕ)
serialize_into int buf =
    if leb int 240
    then (do b0 ← to_u8 int; buf' ← copy_at 0 (b0 ∷ []) buf; ok (buf', 1))
    else if leb int 2287
    then (do
      b0 ← to_u8 ((int - 240) / 256 + 241)
      buf' ← copy_at 0 (b0 ∷ []) buf
      b1 ← to_u8 ((int - 240) % 256)
      buf'' ← copy_at 1 (b1 ∷ []) buf'
      ok (buf'', 2))
    else if leb int 67823
    then (do
      buf' ← copy_at 0 (249 ∷ []) buf
      b1 ← to_u8 ((int - 2288) / 256)
      buf'' ← copy_at 1 (b1 ∷ []) buf'
      b2 ← to_u8 ((int - 2288) % 256)
      buf''' ← copy_at 2 (b2 ∷ []) buf''
      ok (buf''', 3))
    else if leb int 0x00FF_FFFF
    then serialize_wide 250 3 int buf
    else if leb int 0xFFFF_FFFF
    then serialize_wide 251 4 int buf
    else if leb int 0x00FF_FFFF_FFFF
    then serialize_wide 252 5 int buf
    else if leb int 0xFFFF_FFFF_FFFF
    then serialize_wide 253 6 int buf
    else if leb int 0x00FF_FFFF_FFFF_FFFF
    then serialize_wide 254 7 int buf
    else serialize_wide 255 8 int buf

-- `buf[1..=sz]` with the bytes behind the first one.
unfoldable pub deserialize_wide : ℕ → List ℕ → Outcome (ℕ × ℕ)
deserialize_wide other buf = do
  let sz = other - 247
  tail ← slice_from 1 buf
  bytes ← slice_to sz tail
  aligned ← copy_front bytes (replicate 8 0)
  ok (from_le_bytes aligned, sz + 1)

-- The integer, and the number of bytes that it took.
unfoldable pub deserialize : List ℕ → Outcome (ℕ × ℕ)
deserialize [] = err corruption
deserialize (b0 ∷ rest) =
    if leb b0 240
    then ok (b0, 1)
    else if leb b0 248
    then (do b1 ← index (b0 ∷ rest) 1; ok (240 + 256 * (b0 - 241) + b1, 2))
    else if b0 == 249
    then (do b1 ← index (b0 ∷ rest) 1; b2 ← index (b0 ∷ rest) 2; ok (2288 + 256 * b1 + b2, 3))
    else deserialize_wide b0 (b0 ∷ rest)
