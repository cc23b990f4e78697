-- ===== src/Serialization/IntLaws.antt =====
-- The integers of src/serialization.rs satisfy the laws of `Lawful`.
use sled.Prelude.{
  ℕ, ◌^◌, ◌≤◌, ◌<◌, ◌≡◌, refl, Bool, true, false, List, [], ◌∷◌, arith, length, drop, length-append,
  not, ◌==◌, take-append_of_length, drop-append_of_length, append-nil,
}
use sled.Prelude.Int.{ℤ, pos, negsuc, pos_part, neg_part}
use sled.Prelude.Bytes.{
  IsByte, IsU64, to_le_bytes, from_le_bytes, length-to_le_bytes, from_le_bytes-to_le_bytes,
}
use sled.Prelude.Reader.{Reads, Reads-last, Reads-check_nonempty}
use sled.Varint.{size}
use sled.Varint.Encode.{encoding, length-encoding, serialize_into-encoding, size_bounds}
use sled.Varint.Decode.{deserialize-encoding}
use sled.Serialization.{scoot}
use sled.Serialization.Rules.{Writes, Writes-write_bytes, Lawful, advance}
use sled.Serialization.Ints.{
  write_u64, read_u64, read_array, read_byte, bool_byte, i64_bits, i64_of_bits, u64, non_var_u64,
  u32, i64, u8, bool, unsigned,
}

u64-Writes : (v : ℕ) → IsU64 v → Writes (write_u64 v) (encoding v)
unfolding write_u64 scoot advance
u64-Writes v h = record {
  run = λ buf room. ground (
    arith,
    length-encoding v,
    serialize_into-encoding v buf.slice,
    length-append (encoding v) (drop (size v) buf.slice),
    take-append_of_length (size v) (encoding v) (drop (size v) buf.slice),
    drop-append_of_length (size v) (encoding v) (drop (size v) buf.slice),
  );
}

u64-Reads : (v : ℕ) → IsU64 v → Reads read_u64 (encoding v) v
unfolding read_u64
u64-Reads v h = Reads-check_nonempty (omega (arith, length-encoding v, size_bounds v)) (record {
  run = λ rest. ground (
    arith,
    deserialize-encoding v rest,
    length-encoding v,
    length-append (encoding v) rest,
    drop-append_of_length (size v) (encoding v) rest,
  );
})

pub u64-Lawful : Lawful u64 IsU64
u64-Lawful = record {
  encoding = encoding;
  size = λ v h. rw length-encoding;
  writes = u64-Writes;
  reads = u64-Reads;
}

pub read_array-Reads :
    (n : ℕ) (bytes : List ℕ) → length bytes ≡ n → Reads (read_array n) bytes bytes
unfolding read_array
read_array-Reads n bytes h = record {
  run = λ rest. ground (
    arith,
    length-append bytes rest,
    take-append_of_length n bytes rest,
    drop-append_of_length n bytes rest,
  );
}

le_bytes_back : (n v : ℕ) → v < 256 ^ n → from_le_bytes (to_le_bytes n v) ≡ v
le_bytes_back n v h = rw append-nil at (from_le_bytes-to_le_bytes n 0 v h)

unsigned-Lawful : (n : ℕ) → Lawful (unsigned n) (λ v. v < 256 ^ n)
unsigned-Lawful n = record {
  encoding = to_le_bytes n;
  size = λ v h. rw length-to_le_bytes;
  writes = λ v h. Writes-write_bytes (to_le_bytes n v);
  reads = λ v h.
      rw (le_bytes_back n v h) at (
        Reads-last _ from_le_bytes (read_array-Reads n (to_le_bytes n v) (length-to_le_bytes n v)));
}

pub non_var_u64-Lawful : Lawful non_var_u64 IsU64
non_var_u64-Lawful = unsigned-Lawful 8

abbrev pub IsU32 : ℕ → Type 0
IsU32 v = v < 2 ^ 32

pub u32-Lawful : Lawful u32 IsU32
u32-Lawful = unsigned-Lawful 4

abbrev pub IsI64 : ℤ → Type 0
IsI64 v = (pos_part v < 2 ^ 63) × (neg_part v ≤ 2 ^ 63)

pub i64_bits_back : (v : ℤ) → IsI64 v → (i64_bits v < 2 ^ 64) × (i64_of_bits (i64_bits v) ≡ v)
unfolding i64_bits i64_of_bits
i64_bits_back (pos n) h = ground arith
i64_bits_back (negsuc n) h = ground arith

pub i64-Lawful : Lawful i64 IsI64
i64-Lawful = record {
  encoding = λ v. to_le_bytes 8 (i64_bits v);
  size = λ v h. rw length-to_le_bytes;
  writes = λ v h. Writes-write_bytes (to_le_bytes 8 (i64_bits v));
  reads = λ v h.
      rw (le_bytes_back 8 (i64_bits v) (i64_bits_back v h).0, (i64_bits_back v h).1) at
        (Reads-last _ (λ array. i64_of_bits (from_le_bytes array))
          (read_array-Reads 8 (to_le_bytes 8 (i64_bits v)) (length-to_le_bytes 8 (i64_bits v))));
}

pub Reads-byte : (b : ℕ) → Reads read_byte (b ∷ []) b
unfolding read_byte
Reads-byte b = record { run = λ rest. refl }

pub Writes-u8 : (b : ℕ) → Writes (u8.serialize_into b) (b ∷ [])
Writes-u8 b = Writes-write_bytes (b ∷ [])

pub u8-Lawful : Lawful u8 IsByte
u8-Lawful = record {
  encoding = λ v. v ∷ [];
  size = λ v h. refl;
  writes = λ v h. Writes-write_bytes (v ∷ []);
  reads = λ v h. Reads-byte v;
}

pub bool-Lawful : Lawful bool (λ v. Unit)
bool-Lawful = record {
  encoding = λ v. bool_byte v ∷ [];
  size = λ v h. refl;
  writes = λ v h. Writes-write_bytes (bool_byte v ∷ []);
  reads = reads;
}
  where
    reads : (v : Bool) → Unit {0} → Reads bool.deserialize (bool_byte v ∷ []) v
    reads true h = Reads-last read_byte (λ value. not (value == 0)) (Reads-byte 1)
    reads false h = Reads-last read_byte (λ value. not (value == 0)) (Reads-byte 0)
