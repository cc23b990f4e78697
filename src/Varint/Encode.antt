-- ===== src/Varint/Encode.antt =====
-- What `varint::serialize_into` writes, in plain arithmetic (src/varint.rs).
use sled.Prelude.{
  ℕ, ◌+◌, ◌-◌, ◌/◌, ◌%◌, ◌≤◌, ◌≡◌, List, [], ◌∷◌, ◌++◌, arith, length, drop, if◌then◌else◌, leb,
}
use sled.Prelude.Outcome.{ok}
use sled.Prelude.Bytes.{IsU64, to_le_bytes, length-to_le_bytes, take-to_le_bytes}
use sled.Varint.{size, serialize_wide, serialize_into}

-- The bytes of an integer.
unfoldable pub encoding : ℕ → List ℕ
encoding int =
    if leb int 240
    then int ∷ []
    else if leb int 2287
    then ((int - 240) / 256 + 241) ∷ (int - 240) % 256 ∷ []
    else if leb int 67823
    then 249 ∷ (int - 2288) / 256 ∷ (int - 2288) % 256 ∷ []
    else if leb int 0x00FF_FFFF
    then 250 ∷ to_le_bytes 3 int
    else if leb int 0xFFFF_FFFF
    then 251 ∷ to_le_bytes 4 int
    else if leb int 0x00FF_FFFF_FFFF
    then 252 ∷ to_le_bytes 5 int
    else if leb int 0xFFFF_FFFF_FFFF
    then 253 ∷ to_le_bytes 6 int
    else if leb int 0x00FF_FFFF_FFFF_FFFF
    then 254 ∷ to_le_bytes 7 int
    else 255 ∷ to_le_bytes 8 int

pub length-encoding : (int : ℕ) → length (encoding int) ≡ size int
unfolding encoding size to_le_bytes
length-encoding int = ground arith

pub size_bounds : (int : ℕ) → (1 ≤ size int) × (size int ≤ 9)
unfolding size
size_bounds int = ground arith

serialize_wide_lem :
    (first n int x : ℕ) (buf : List ℕ)
    → n ≤ 8
    → n ≤ length buf
    → serialize_wide first n int (x ∷ buf) ≡ ok (first ∷ (to_le_bytes n int ++ drop n buf), n + 1)
unfolding serialize_wide
serialize_wide_lem first n int x buf hn room =
    rw (take-to_le_bytes n 8 int hn) (ground (arith, length-to_le_bytes n int))

-- On a buffer with room, `serialize_into` writes the encoding to its front, leaves the rest alone,
-- and returns the size.
pub serialize_into-encoding :
    (int : ℕ) (buf : List ℕ)
    → IsU64 int
    → size int ≤ length buf
    → serialize_into int buf ≡ ok (encoding int ++ drop (size int) buf, size int)
unfolding serialize_into encoding size
serialize_into-encoding int [] h room = absurd (omega (arith, size_bounds int))
serialize_into-encoding int (x ∷ buf) h room = ground (
  arith,
  serialize_wide_lem 250 3 int x buf,
  serialize_wide_lem 251 4 int x buf,
  serialize_wide_lem 252 5 int x buf,
  serialize_wide_lem 253 6 int x buf,
  serialize_wide_lem 254 7 int x buf,
  serialize_wide_lem 255 8 int x buf,
)
