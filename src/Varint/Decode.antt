-- ===== src/Varint/Decode.antt =====
-- `varint::deserialize` on what `varint::serialize_into` wrote, and on any bytes (src/varint.rs).
use sled.Prelude.{
  ℕ, ◌+◌, ◌-◌, ◌*◌, ◌^◌, ◌≤◌, ◌<◌, ◌≡◌, List, [], ◌∷◌, ◌++◌, arith, length, length-append,
  length-take, length-take, take, get_or, All-take, take-append_of_length, drop-replicate, All,
  if◌then◌else◌, leb, ◌==◌,
}
use sled.Prelude.Outcome.{ok, panic}
use sled.Prelude.Bytes.{
  IsByte, IsU64, from_le_bytes-lt, from_le_bytes-append_zeros, to_le_bytes, from_le_bytes,
  length-to_le_bytes, from_le_bytes-to_le_bytes,
}
use sled.Varint.{size, deserialize_wide, deserialize}
use sled.Varint.Encode.{encoding}

deserialize_wide_lem :
    (n int : ℕ) (rest : List ℕ)
    → n ≤ 8
    → int < 256 ^ n
    → deserialize_wide (n + 247) ((n + 247) ∷ (to_le_bytes n int ++ rest)) ≡ ok (int, n + 1)
unfolding deserialize_wide
deserialize_wide_lem n int rest hn h = ground (
  arith,
  length-to_le_bytes n int,
  length-append (to_le_bytes n int) rest,
  take-append_of_length n (to_le_bytes n int) rest,
  drop-replicate {A = ℕ} n 8 0,
  from_le_bytes-to_le_bytes n (8 - n) int,
)

-- Reading the encoding of an integer, whatever follows it, gives the integer and its size.
pub deserialize-encoding :
    (int : ℕ) (rest : List ℕ) → IsU64 int → deserialize (encoding int ++ rest) ≡ ok (int, size int)
unfolding deserialize encoding size
deserialize-encoding int rest h = ground (
  arith,
  deserialize_wide_lem 3 int rest,
  deserialize_wide_lem 4 int rest,
  deserialize_wide_lem 5 int rest,
  deserialize_wide_lem 6 int rest,
  deserialize_wide_lem 7 int rest,
  deserialize_wide_lem 8 int rest,
)

-- The number of bytes that the first byte announces.
abbrev pub announced : ℕ → ℕ
announced b0 = if leb b0 240 then 1 else if leb b0 248 then 2 else if b0 == 249 then 3 else b0 - 246

-- The integer that the bytes stand for, when there are enough.
abbrev value : ℕ → List ℕ → ℕ
value b0 rest =
    if leb b0 240
    then b0
    else if leb b0 248
    then 240 + 256 * (b0 - 241) + get_or rest 0 0
    else if b0 == 249
    then 2288 + 256 * get_or rest 0 0 + get_or rest 1 0
    else from_le_bytes (take (b0 - 247) rest)

deserialize_wide_cases :
    (b0 : ℕ) (rest : List ℕ)
    → b0 < 256
    → 249 < b0
    → (b0 - 247 ≤ length rest
        → deserialize_wide b0 (b0 ∷ rest) ≡ ok (from_le_bytes (take (b0 - 247) rest), b0 - 246))
      × (length rest < b0 - 247 → deserialize_wide b0 (b0 ∷ rest) ≡ panic)
unfolding deserialize_wide
deserialize_wide_cases b0 rest hb lo = ground (
  arith,
  length-take (b0 - 247) rest,
  drop-replicate {A = ℕ} (b0 - 247) 8 0,
  from_le_bytes-append_zeros (take (b0 - 247) rest) (8 - (b0 - 247)),
)

wide-IsU64 :
    (b0 : ℕ) (rest : List ℕ)
    → b0 < 256
    → All IsByte rest
    → IsU64 (from_le_bytes (take (b0 - 247) rest))
wide-IsU64 b0 rest hb hs =
    from_le_bytes-lt 8 (take (b0 - 247) rest) (All-take IsByte (b0 - 247) rest hs)
      (omega (arith, length-take (b0 - 247) rest))

value-IsU64 : (b0 : ℕ) (rest : List ℕ) → IsByte b0 → All IsByte rest → IsU64 (value b0 rest)
value-IsU64 b0 [] hb hs = ground (arith, wide-IsU64 b0 [])
value-IsU64 b0 (x ∷ []) hb hs = ground (arith, wide-IsU64 b0 (x ∷ []))
value-IsU64 b0 (x ∷ y ∷ rest) hb hs = ground (arith, wide-IsU64 b0 (x ∷ y ∷ rest))

deserialize_enough :
    (b0 : ℕ) (rest : List ℕ)
    → b0 < 256
    → announced b0 ≤ length (b0 ∷ rest)
    → deserialize (b0 ∷ rest) ≡ ok (value b0 rest, announced b0)
unfolding deserialize
deserialize_enough b0 [] hb h = ground (arith, deserialize_wide_cases b0 [])
deserialize_enough b0 (x ∷ []) hb h = ground (arith, deserialize_wide_cases b0 (x ∷ []))
deserialize_enough b0 (x ∷ y ∷ rest) hb h = ground (arith, deserialize_wide_cases b0 (x ∷ y ∷ rest))

deserialize_short :
    (b0 : ℕ) (rest : List ℕ)
    → b0 < 256
    → length (b0 ∷ rest) < announced b0
    → deserialize (b0 ∷ rest) ≡ panic
unfolding deserialize
deserialize_short b0 [] hb h = ground (arith, deserialize_wide_cases b0 [])
deserialize_short b0 (x ∷ []) hb h = ground (arith, deserialize_wide_cases b0 (x ∷ []))
deserialize_short b0 (x ∷ y ∷ rest) hb h = ground (arith, deserialize_wide_cases b0 (x ∷ y ∷ rest))

-- On any bytes: `deserialize` answers with as many bytes as the first one announces, and with a
-- 64-bit integer; where the buffer is shorter than that, it panics.
pub deserialize_cases :
    (b0 : ℕ) (rest : List ℕ)
    → IsByte b0
    → All IsByte rest
    → (announced b0 ≤ length (b0 ∷ rest)
        → (int : ℕ) × (deserialize (b0 ∷ rest) ≡ ok (int, announced b0)) × IsU64 int)
      × (length (b0 ∷ rest) < announced b0 → deserialize (b0 ∷ rest) ≡ panic)
deserialize_cases b0 rest hb hs = (
  λ long. (value b0 rest, deserialize_enough b0 rest hb long, value-IsU64 b0 rest hb hs),
  deserialize_short b0 rest hb,
)
