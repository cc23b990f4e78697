-- ===== src/Serialization/Ints.antt =====
-- The integers of src/serialization.rs: `u64` as a varint, and the types of a fixed width.
use sled.Prelude.{
  ℕ, ◌-◌, ◌^◌, Bool, true, false, List, [], ◌∷◌, length, take, drop, ltb, ◌==◌, not, if◌then◌else◌,
}
use sled.Prelude.Int.{ℤ, pos, negsuc}
use sled.Prelude.Outcome
use sled.Prelude.Outcome.{Outcome, ok, err, corruption}
use sled.Prelude.Bytes.{to_le_bytes, from_le_bytes, slice_from}
use sled.Prelude.Reader.{Reader, pure, check_nonempty, ◌>>=◌}
use sled.Varint
use sled.Serialization.{Buffer, scoot, write_bytes, Serialize}

infixl 5 ◌>=>◌
-- `m?` and what follows it, where neither is a reader
abbrev ◌>=>◌ {ℓ} : {A B : Type ℓ} → Outcome A → (A → Outcome B) → Outcome B
m >=> f = Outcome.◌>>=◌ m f

-- impl Serialize for u64
unfoldable pub write_u64 : ℕ → Buffer → Outcome Buffer
write_u64 v buf = Varint.serialize_into v buf.slice >=> λ p. scoot p.1 (record buf { slice = p.0 })

unfoldable pub read_u64 : Reader ℕ
read_u64 =
    check_nonempty
      λ buf. Varint.deserialize buf >=> λ p. slice_from p.1 buf >=> λ rest. ok (p.0, rest)

abbrev pub u64 : Serialize ℕ
u64 = record {
  serialized_size = λ v. ok (Varint.size v);
  serialize_into = write_u64;
  deserialize = read_u64;
}

-- `if buf.len() < n { return Err(..) }`, then the first `n` bytes, and the slice behind them.
unfoldable pub read_array : ℕ → Reader (List ℕ)
read_array n buf = if ltb (length buf) n then err corruption else ok (take n buf, drop n buf)

-- An unsigned integer of `n` bytes: NonVarU64 at 8, u32 at 4.
abbrev pub unsigned : ℕ → Serialize ℕ
unsigned n = record {
  serialized_size = λ v. ok n;
  serialize_into = λ v. write_bytes (to_le_bytes n v);
  deserialize = (do array ← read_array n; pure (from_le_bytes array));
}

-- impl Serialize for NonVarU64
abbrev pub non_var_u64 : Serialize ℕ
non_var_u64 = unsigned 8

-- impl Serialize for u32
abbrev pub u32 : Serialize ℕ
u32 = unsigned 4

-- The two's complement of an i64, and the i64 of a bit pattern.
unfoldable pub i64_bits : ℤ → ℕ
i64_bits (pos n) = n
i64_bits (negsuc n) = 2 ^ 64 - 1 - n

unfoldable pub i64_of_bits : ℕ → ℤ
i64_of_bits b = if ltb b (2 ^ 63) then pos b else negsuc (2 ^ 64 - 1 - b)

-- impl Serialize for i64
abbrev pub i64 : Serialize ℤ
i64 = record {
  serialized_size = λ v. ok 8;
  serialize_into = λ v. write_bytes (to_le_bytes 8 (i64_bits v));
  deserialize = (do array ← read_array 8; pure (i64_of_bits (from_le_bytes array)));
}

-- `buf[0]` and `buf = &buf[1..]` behind the test for an empty slice
unfoldable pub read_byte : Reader ℕ
read_byte [] = err corruption
read_byte (b ∷ buf) = ok (b, buf)

-- impl Serialize for u8
abbrev pub u8 : Serialize ℕ
u8 = record {
  serialized_size = λ v. ok 1;
  serialize_into = λ v. write_bytes (v ∷ []);
  deserialize = read_byte;
}

-- `u8::from(b)`
abbrev pub bool_byte : Bool → ℕ
bool_byte true = 1
bool_byte false = 0

-- impl Serialize for bool
abbrev pub bool : Serialize Bool
bool = record {
  serialized_size = λ v. ok 1;
  serialize_into = λ v. write_bytes (bool_byte v ∷ []);
  deserialize = (do value ← read_byte; pure (not (value == 0)));
}

-- impl Serialize for ()
abbrev pub unit : Serialize (Unit {0})
unit = record {
  serialized_size = λ v. ok 0;
  serialize_into = λ v buf. ok buf;
  deserialize = pure tt;
}
