-- ===== src/Serialization.antt =====
-- The `Serialize` trait of src/serialization.rs, the slice that its writers scoot over, and the
-- readers. The implementations are in the child modules, as values of the record `Serialize`.
pub mod Rules
pub mod Ints
pub mod IntLaws
pub mod Compose
pub mod ComposeLaws
pub mod TupleLaws
pub mod Structs
pub mod StructLaws
pub mod LinkLaws
pub mod SnapshotLaws
pub mod PageStates
pub mod RoundTrip
pub mod FullPage
use sled.Prelude.{ℕ, ◌+◌, List, [], ◌++◌, length, take, drop, replicate, leb}
use sled.Prelude.Outcome.{Outcome, ok, err, panic, ◌>>=◌, ◌>>◌, assert}
use sled.Prelude.Bytes.{copy_front}
use sled.Prelude.Reader.{Reader}

-- `buf: &mut &mut [u8]` over a fixed allocation: the bytes that it has been moved past, and the
-- slice that it now points to.
pub record Buffer : Type 0 where
  pub done : List ℕ
  pub slice : List ℕ

-- `scoot`: the assertion, then the slice without its first bytes.
unfoldable pub scoot : ℕ → Buffer → Outcome Buffer
scoot amount buf = do
  assert (leb amount (length buf.slice))
  ok (record { done = buf.done ++ take amount buf.slice; slice = drop amount buf.slice })

-- `buf[..bytes.len()].copy_from_slice(bytes); scoot(buf, bytes.len())`
unfoldable pub write_bytes : List ℕ → Buffer → Outcome Buffer
write_bytes bytes buf = do
  slice ← copy_front bytes buf.slice
  scoot (length bytes) (record buf { slice = slice })

-- A statement after a statement, both on `buf`.
infixr 20 ◌▸◌
unfoldable pub ◌▸◌ : (Buffer → Outcome Buffer) → (Buffer → Outcome Buffer) → Buffer → Outcome Buffer
◌▸◌ m k buf = m buf >>= k

-- A sum of sizes.
infixl 65 ◌⊕◌
abbrev pub ◌⊕◌ : Outcome ℕ → Outcome ℕ → Outcome ℕ
a ⊕ b = a >>= λ x. b >>= λ y. ok (x + y)

pub record Serialize (A : Type 0) : Type 0 where
  pub serialized_size : A → Outcome ℕ
  pub serialize_into : A → Buffer → Outcome Buffer
  pub deserialize : Reader A

-- The default method: `vec![0; sz]`, filled by `serialize_into`, is returned whole.
unfoldable pub serialize : {A : Type 0} → Serialize A → A → Outcome (List ℕ)
serialize s a = do
  sz ← s.serialized_size a
  buf ← s.serialize_into a (record { done = []; slice = replicate sz 0 })
  ok (buf.done ++ buf.slice)
