-- ===== src/Serialization/Rules.antt =====
-- What it means that writers, readers and whole implementations of `Serialize` are correct, with
-- one rule for each way to build them (src/serialization.rs).
use sled.Prelude.{
  ℕ, ◌+◌, ◌-◌, ◌≤◌, ◌≡◌, refl, List, [], ◌∷◌, ◌++◌, arith, length, drop, replicate, append-nil,
  append_assoc, length-append, length-replicate, length-drop, drop-drop, take-append, drop-append,
  ◌∙◌, sym, ap,
}
use sled.Prelude.Outcome.{Outcome, ok}
use sled.Prelude.Reader.{Reads}
use sled.Serialization.{Buffer, scoot, write_bytes, ◌▸◌, ◌⊕◌, Serialize, serialize}

-- The buffer after `bytes` have been written to its front.
unfoldable pub advance : List ℕ → Buffer → Buffer
advance bytes buf = record { done = buf.done ++ bytes; slice = drop (length bytes) buf.slice }

pub advance-append :
    (xs ys : List ℕ) (buf : Buffer) → advance ys (advance xs buf) ≡ advance (xs ++ ys) buf
unfolding advance
advance-append xs ys buf = ground (
  arith,
  append_assoc buf.done xs ys,
  drop-drop (length xs) (length ys) buf.slice,
  length-append xs ys,
)

length-slice-advance :
    (bytes : List ℕ) (buf : Buffer)
    → length (advance bytes buf).slice ≡ length buf.slice - length bytes
unfolding advance
length-slice-advance bytes buf = length-drop (length bytes) buf.slice

pub record Writes (m : Buffer → Outcome Buffer) (bytes : List ℕ) : Type 0 where
  pub run : (buf : Buffer) → length bytes ≤ length buf.slice → m buf ≡ ok (advance bytes buf)

pub Writes-write_bytes : (bytes : List ℕ) → Writes (write_bytes bytes) bytes
unfolding write_bytes scoot advance
Writes-write_bytes bytes = record {
  run = λ buf room. ground (
    arith,
    length-append bytes (drop (length bytes) buf.slice),
    take-append bytes (drop (length bytes) buf.slice),
    drop-append bytes (drop (length bytes) buf.slice),
  );
}

pub Writes-▸ :
    {m k : Buffer → Outcome Buffer} {xs ys : List ℕ}
    → Writes m xs
    → Writes k ys
    → Writes (m ▸ k) (xs ++ ys)
unfolding ◌▸◌
Writes-▸ {m} {k} {xs} {ys} wm wk = record {
  run = λ buf room. rw (wm.run buf (omega (arith, length-append xs ys))) (
      wk.run (advance xs buf) (omega (arith, length-append xs ys, length-slice-advance xs buf))
      ∙ ap ok (advance-append xs ys buf));
}

-- Nothing is written, and the buffer stays.
pub advance-nil : (buf : Buffer) → advance [] buf ≡ buf
unfolding advance
advance-nil buf = ground (arith, append-nil buf.done)

-- A sum of sizes that are there.
pub ⊕-eq-ok : {m n : Outcome ℕ} {a b : ℕ} → m ≡ ok a → n ≡ ok b → (m ⊕ n) ≡ ok (a + b)
⊕-eq-ok {a = a} {b = b} p q = λ i. p i ⊕ q i

pub Writes-nil : Writes ok []
Writes-nil = record { run = λ buf room. ap ok (sym (advance-nil buf)) }

drop_zeros : (bytes : List ℕ) → bytes ++ drop (length bytes) (replicate (length bytes) 0) ≡ bytes
drop_zeros [] = refl
drop_zeros (b ∷ bytes) = ap (λ l. b ∷ l) (drop_zeros bytes)

-- A value of the right size fills the allocated buffer exactly.
pub serialize-Writes :
    {A : Type 0} (s : Serialize A) (a : A) (bytes : List ℕ)
    → s.serialized_size a ≡ ok (length bytes)
    → Writes (s.serialize_into a) bytes
    → serialize s a ≡ ok bytes
unfolding serialize advance
serialize-Writes s a bytes size w =
    let zeros : List ℕ = replicate (length bytes) 0 in
    rw
      (
        size,
        w.run (record { done = []; slice = zeros })
            (omega (arith, length-replicate {A = ℕ} (length bytes) 0)),
      )
      (ap ok (drop_zeros bytes))

-- On the values that `Valid` admits, an implementation writes and reads back one encoding, and
-- its `serialized_size` is the encoding's length.
pub record Lawful {A : Type 0} (s : Serialize A) (Valid : A → Type 0) : Type 0 where
  pub encoding : A → List ℕ
  pub size : (a : A) → Valid a → s.serialized_size a ≡ ok (length (encoding a))
  pub writes : (a : A) → Valid a → Writes (s.serialize_into a) (encoding a)
  pub reads : (a : A) → Valid a → Reads s.deserialize (encoding a) a

-- What was serialised, with `rest` behind it, is read back, and leaves `rest`.
abbrev pub RoundTrips : {A : Type 0} → Serialize A → A → List ℕ → Type 0
RoundTrips s a rest =
    (bytes : List ℕ) × (serialize s a ≡ ok bytes)
    × (s.serialized_size a ≡ ok (length bytes))
    × (s.deserialize (bytes ++ rest) ≡ ok (a, rest))

module _ {A : Type 0} {s : Serialize A} {Valid : A → Type 0} (law : Lawful s Valid) where
  -- The length of an encoding, from the size that the code computes.
  pub length-encoding :
      (a : A) (n : ℕ) → Valid a → s.serialized_size a ≡ ok n → length (law.encoding a) ≡ n
  length-encoding a n v e = cc (law.size a v)

  pub serialize-encoding : (a : A) → Valid a → serialize s a ≡ ok (law.encoding a)
  serialize-encoding a v = serialize-Writes s a (law.encoding a) (law.size a v) (law.writes a v)

  -- Deserialising what was serialised, with anything behind it, gives the value back and leaves
  -- exactly what was behind.
  pub deserialize-serialize : (a : A) (rest : List ℕ) → Valid a → RoundTrips s a rest
  deserialize-serialize a rest v =
      (law.encoding a, serialize-encoding a v, law.size a v, (law.reads a v).run rest)
