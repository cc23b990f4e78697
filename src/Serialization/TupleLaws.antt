-- ===== src/Serialization/TupleLaws.antt =====
-- Tuples, byte strings and sequences of src/serialization.rs satisfy the laws of `Lawful`.
use sled.Prelude.{
  ℕ, suc, ◌+◌, ◌≤◌, ◌≡◌, refl, ap, ◌∙◌, arith, List, [], ◌∷◌, ◌++◌, length, All, length-append,
  take-append, drop-append,
}
use sled.Prelude.Outcome.{ok}
use sled.Prelude.Bytes.{IsU64}
use sled.Prelude.Reader.{pure, ◌>>=◌, Reads, Reads-last, Reads-bind}
use sled.Varint.{size}
use sled.Varint.Encode.{size_bounds}
use sled.Serialization.{Serialize}
use sled.Serialization.Rules.{
  Writes, Writes-▸, Writes-nil, Writes-write_bytes, Lawful, length-encoding,
}
use sled.Serialization.Ints.{u64}
use sled.Serialization.IntLaws.{u64-Lawful}
use sled.Serialization.Compose.{
  pair, triple, read_slice, ivec, sequence_size, serialize_sequence, deserialize_bounded_sequence,
}

module _ {A B : Type 0} {s : Serialize A} {t : Serialize B} {V : A → Type 0} {W : B → Type 0}
    (ls : Lawful s V) (lt : Lawful t W) where
  pub pair-Lawful : Lawful (pair s t) (λ p. V p.0 × W p.1)
  pair-Lawful = record {
    encoding = λ p. ls.encoding p.0 ++ lt.encoding p.1;
    size = λ p v. rw (ls.size p.0 v.0, lt.size p.1 v.1, length-append);
    writes = λ p v. Writes-▸ (ls.writes p.0 v.0) (lt.writes p.1 v.1);
    reads = λ p v.
        Reads-bind s.deserialize _ (ls.reads p.0 v.0)
          (Reads-last t.deserialize (λ b. (p.0, b)) (lt.reads p.1 v.1));
  }

module _ {A B C : Type 0} {s : Serialize A} {t : Serialize B} {u : Serialize C} {V : A → Type 0}
    {W : B → Type 0} {X : C → Type 0} (ls : Lawful s V) (lt : Lawful t W) (lu : Lawful u X) where
  pub triple-Lawful : Lawful (triple s t u) (λ p. V p.0 × W p.1 × X p.2)
  triple-Lawful = record {
    encoding = λ p. ls.encoding p.0 ++ (lt.encoding p.1 ++ lu.encoding p.2);
    size = λ p v.
        rw (ls.size p.0 v.0, lt.size p.1 v.1, lu.size p.2 v.2, length-append, length-append)
          (ap ok (omega arith));
    writes = λ p v. Writes-▸ (ls.writes p.0 v.0) (Writes-▸ (lt.writes p.1 v.1) (lu.writes p.2 v.2));
    reads = λ p v. Reads-bind s.deserialize _ (ls.reads p.0 v.0) (
        Reads-bind t.deserialize _ (lt.reads p.1 v.1)
          (Reads-last u.deserialize (λ c. (p.0, p.1, c)) (lu.reads p.2 v.2)));
  }

  pub triple_some_byte :
      ((a : A) → V a → 1 ≤ length (ls.encoding a))
      → (p : A × B × C) → V p.0 × W p.1 × X p.2
      → 1 ≤ length (triple-Lawful.encoding p)
  unfolding triple-Lawful
  triple_some_byte some_byte p v = omega (
    arith,
    some_byte p.0 v.0,
    length-append (ls.encoding p.0) (lt.encoding p.1 ++ lu.encoding p.2),
  )

pub read_slice-Reads : (bytes : List ℕ) → Reads (read_slice (length bytes)) bytes bytes
unfolding read_slice
read_slice-Reads bytes = record {
  run = λ rest.
      ground (arith, length-append bytes rest, take-append bytes rest, drop-append bytes rest);
}

-- A byte string shorter than 2 ^ 64.
abbrev pub IsIvec : List ℕ → Type 0
IsIvec v = IsU64 (length v)

pub length-u64 : (v : ℕ) → IsU64 v → length (u64-Lawful.encoding v) ≡ size v
length-u64 v h = length-encoding u64-Lawful v (size v) h refl

pub ivec-Lawful : Lawful ivec IsIvec
ivec-Lawful = record {
  encoding = λ v. u64-Lawful.encoding (length v) ++ v;
  size = λ v h.
      ap ok
        (omega (arith, length-append (u64-Lawful.encoding (length v)) v, length-u64 (length v) h));
  writes = λ v h. Writes-▸ (u64-Lawful.writes (length v) h) (Writes-write_bytes v);
  reads = λ v h.
      Reads-bind u64.deserialize read_slice (u64-Lawful.reads (length v) h) (read_slice-Reads v);
}

-- The encoding of an integer, and so of a byte string, has a byte at least.
pub u64_some_byte : (v : ℕ) → IsU64 v → 1 ≤ length (u64-Lawful.encoding v)
u64_some_byte v h = omega (arith, length-u64 v h, size_bounds v)

module _ {A : Type 0} {s : Serialize A} {V : A → Type 0} (ls : Lawful s V) where
  pub encodings : List A → List ℕ
  encodings [] = []
  encodings (x ∷ xs) = ls.encoding x ++ encodings xs

  pub sequence_size-encodings :
      (xs : List A) → All V xs → sequence_size s xs ≡ ok (length (encodings xs))
  unfolding sequence_size encodings
  sequence_size-encodings [] h = refl
  sequence_size-encodings (x ∷ xs) h =
      rw (ls.size x h.0, sequence_size-encodings xs h.1, length-append)

  pub serialize_sequence-Writes :
      (xs : List A) → All V xs → Writes (serialize_sequence s xs) (encodings xs)
  unfolding serialize_sequence encodings
  serialize_sequence-Writes [] h = Writes-nil
  serialize_sequence-Writes (x ∷ xs) h =
      Writes-▸ (ls.writes x h.0) (serialize_sequence-Writes xs h.1)

  -- One step of the loop, on a slice that is not empty.
  consume_step :
      (bound : ℕ) (buf : List ℕ)
      → 1 ≤ length buf
      → deserialize_bounded_sequence s (suc bound) buf
        ≡ (s.deserialize >>= λ item.
              deserialize_bounded_sequence s bound >>= λ items. pure (item ∷ items))
            buf
  unfolding deserialize_bounded_sequence
  consume_step bound [] h = absurd (omega arith)
  consume_step bound (b ∷ buf) h = refl

  -- Items that take a byte at least are read back, as many as the bound says.
  pub deserialize_bounded_sequence-Reads :
      ((x : A) → V x → 1 ≤ length (ls.encoding x))
      → (xs : List A) → All V xs
      → Reads (deserialize_bounded_sequence s (length xs)) (encodings xs) xs
  unfolding encodings
  deserialize_bounded_sequence-Reads some_byte [] h = record {
    run = λ rest. unfold deserialize_bounded_sequence in refl;
  }
  deserialize_bounded_sequence-Reads some_byte (x ∷ xs) h =
      let later = deserialize_bounded_sequence-Reads some_byte xs h.1 in
      let block =
        Reads-bind s.deserialize
          (λ item. deserialize_bounded_sequence s (length xs) >>= λ items. pure (item ∷ items))
          (ls.reads x h.0)
          (Reads-last (deserialize_bounded_sequence s (length xs)) (λ items. x ∷ items) later) in
      record {
        run = λ rest.
            consume_step (length xs) (ls.encoding x ++ encodings xs ++ rest) (room x xs rest h.0)
            ∙ block.run rest;
      }
    where
      room :
          (y : A) (ys : List A) (rest : List ℕ)
          → V y
          → 1 ≤ length (ls.encoding y ++ encodings ys ++ rest)
      room y ys rest v = omega (
        arith,
        some_byte y v,
        length-append (ls.encoding y ++ encodings ys) rest,
        length-append (ls.encoding y) (encodings ys),
      )

pub length-ivec :
    (v : List ℕ) → IsIvec v → length (ivec-Lawful.encoding v) ≡ length v + size (length v)
length-ivec v h = length-encoding ivec-Lawful v (length v + size (length v)) h refl
