-- ===== src/Serialization/Compose.antt =====
-- The generic and the compound implementations of src/serialization.rs: options, tuples, sequences
-- and byte strings.
use sled.Prelude.{
  ℕ, zero, suc, ◌+◌, ◌-◌, ◌^◌, ◌%◌, List, [], ◌∷◌, Option, none, some, length, take, drop, leb,
  ◌==◌, if◌then◌else◌,
}
use sled.Prelude.Int.{ℤ, pos, negsuc}
use sled.Prelude.Outcome.{Outcome, ok, panic}
use sled.Prelude.Reader.{Reader, pure, ◌>>=◌}
use sled.Serialization.{Buffer, write_bytes, ◌▸◌, ◌⊕◌, Serialize}
use sled.Serialization.Ints.{u64, i64, i64_bits, i64_of_bits}

-- A value that travels as another one.
abbrev pub through : {A B : Type 0} → Serialize B → (A → B) → (B → A) → Serialize A
through s to from = record {
  serialized_size = λ a. s.serialized_size (to a);
  serialize_into = λ a. s.serialize_into (to a);
  deserialize = (do b ← s.deserialize; pure (from b));
}

-- `s + 1` of an optimised build, which wraps around.
unfoldable pub shift_u64_opt : Option ℕ → ℕ
shift_u64_opt none = 0
shift_u64_opt (some s) = (s + 1) % 2 ^ 64

unfoldable pub unshift_u64_opt : ℕ → Option ℕ
unshift_u64_opt shifted = if shifted == 0 then none else some (shifted - 1)

-- impl Serialize for Option<u64>
abbrev pub option_u64 : Serialize (Option ℕ)
option_u64 = through u64 shift_u64_opt unshift_u64_opt

unfoldable pub nonzero_or_zero : Option ℕ → ℕ
nonzero_or_zero none = 0
nonzero_or_zero (some v) = v

unfoldable pub nonzero : ℕ → Option ℕ
nonzero underlying = if underlying == 0 then none else some underlying

-- impl Serialize for Option<NonZeroU64>
abbrev pub option_nonzero_u64 : Serialize (Option ℕ)
option_nonzero_u64 = through u64 nonzero_or_zero nonzero

-- A negative value stays, any other moves up by one (and wraps around at the top).
unfoldable pub shift_i64_opt : Option ℤ → ℤ
shift_i64_opt none = pos 0
shift_i64_opt (some (negsuc n)) = negsuc n
shift_i64_opt (some (pos n)) = i64_of_bits ((i64_bits (pos n) + 1) % 2 ^ 64)

unfoldable pub unshift_i64_opt : ℤ → Option ℤ
unshift_i64_opt (negsuc n) = some (negsuc n)
unshift_i64_opt (pos n) = if n == 0 then none else some (pos (n - 1))

-- impl Serialize for Option<i64>
abbrev pub option_i64 : Serialize (Option ℤ)
option_i64 = through i64 shift_i64_opt unshift_i64_opt

module _ {A B : Type 0} (s : Serialize A) (t : Serialize B) where
  -- impl Serialize for (A, B)
  abbrev pub pair : Serialize (A × B)
  pair = record {
    serialized_size = λ p. s.serialized_size p.0 ⊕ t.serialized_size p.1;
    serialize_into = λ p. s.serialize_into p.0 ▸ t.serialize_into p.1;
    deserialize = (do a ← s.deserialize; b ← t.deserialize; pure (a, b));
  }

module _ {A B C : Type 0} (s : Serialize A) (t : Serialize B) (u : Serialize C) where
  -- impl Serialize for (A, B, C)
  abbrev pub triple : Serialize (A × B × C)
  triple = record {
    serialized_size = λ p. s.serialized_size p.0 ⊕ t.serialized_size p.1 ⊕ u.serialized_size p.2;
    serialize_into = λ p. s.serialize_into p.0 ▸ t.serialize_into p.1 ▸ u.serialize_into p.2;
    deserialize = (do a ← s.deserialize; b ← t.deserialize; c ← u.deserialize; pure (a, b, c));
  }

-- `&buf[..n]` and `&buf[n..]`
unfoldable pub read_slice : ℕ → Reader (List ℕ)
read_slice n buf = if leb n (length buf) then ok (take n buf, drop n buf) else panic

-- impl Serialize for IVec
abbrev pub ivec : Serialize (List ℕ)
ivec = record {
  serialized_size = λ v. ok (length v) ⊕ u64.serialized_size (length v);
  serialize_into = λ v. u64.serialize_into (length v) ▸ write_bytes v;
  deserialize = (do k_len ← u64.deserialize; read_slice k_len);
}

module _ {A : Type 0} (s : Serialize A) where
  -- `.map(|item| item.serialized_size()).sum()`
  unfoldable pub sequence_size : List A → Outcome ℕ
  sequence_size [] = ok 0
  sequence_size (x ∷ xs) = s.serialized_size x ⊕ sequence_size xs

  -- `serialize_2tuple_sequence` and `serialize_3tuple_ref_sequence`, at the codec of a tuple
  unfoldable pub serialize_sequence : List A → Buffer → Outcome Buffer
  serialize_sequence [] = ok
  serialize_sequence (x ∷ xs) = s.serialize_into x ▸ serialize_sequence xs

  -- `ConsumeSequence::next`, called until it gives nothing or an error: it stops at the bound, and
  -- also where the slice is empty.
  unfoldable pub deserialize_bounded_sequence : ℕ → Reader (List A)
  deserialize_bounded_sequence zero buf = ok ([], buf)
  deserialize_bounded_sequence (suc bound) [] = ok ([], [])
  deserialize_bounded_sequence (suc bound) (b ∷ buf) =
      (do item ← s.deserialize; items ← deserialize_bounded_sequence bound; pure (item ∷ items))
        (b ∷ buf)
