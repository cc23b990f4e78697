-- ===== src/Prelude/Reader.antt =====
-- Functions over `buf: &mut &[u8]`: each takes the slice and returns what it leaves of it.
use Prim.Native.Nat.{ℕ, ◌≤◌}
use native.Mathlib.Omega.{arith}
use mathlib.Core.Path.{◌≡◌, refl, ◌∙◌}
use mathlib.Core.List.{List, [], ◌∷◌, ◌++◌, append_assoc}
use sled.Prelude.Tests.{ltb, if◌then◌else◌}
use sled.Prelude.Lists.{length, length-append}
use sled.Prelude.Outcome
use sled.Prelude.Outcome.{Outcome, ok, err, panic, Error, corruption}

abbrev pub Reader {ℓ} : Type ℓ → Type ℓ
Reader A = List ℕ → Outcome (A × List ℕ)

module _ {ℓ} {A : Type ℓ} where
  -- `Ok(a)`, which leaves the slice alone
  unfoldable pub pure : A → Reader A
  pure a buf = ok (a, buf)

  -- a computation that does not touch the slice
  unfoldable pub lift : Outcome A → Reader A
  lift m buf = Outcome.◌>>=◌ m (λ a. ok (a, buf))

  -- `if buf.is_empty() { return Err(Error::corruption(None)) }` before the rest
  unfoldable pub check_nonempty : Reader A → Reader A
  check_nonempty m [] = err corruption
  check_nonempty m (b ∷ buf) = m (b ∷ buf)

  -- `if buf.len() < n { return Err(Error::corruption(None)) }` before the rest
  unfoldable pub read_at_least : ℕ → Reader A → Reader A
  read_at_least n m buf = if ltb (length buf) n then err corruption else m buf

module _ {A B : Type 0} where
  -- `m?` and what follows it, which sees the slice that `m` left
  infixl 5 ◌>>=◌ ◌>>◌
  unfoldable pub ◌>>=◌ : Reader A → (A → Reader B) → Reader B
  ◌>>=◌ m f buf = Outcome.◌>>=◌ (m buf) (λ p. f p.0 p.1)

  abbrev pub ◌>>◌ : Reader A → Reader B → Reader B
  m >> k = m >>= λ _. k

-- `m` takes `bytes` off the front of any slice, and answers `a`.
pub record Reads {A : Type 0} (m : Reader A) (bytes : List ℕ) (a : A) : Type 0 where
  pub run : (rest : List ℕ) → m (bytes ++ rest) ≡ ok (a, rest)

module _ {A : Type 0} where
  pub Reads-pure : (a : A) → Reads (pure a) [] a
  unfolding pure
  Reads-pure a = record { run = λ rest. refl }

  pub check_nonempty_lem :
      (m : Reader A) (buf : List ℕ) → 1 ≤ length buf → check_nonempty m buf ≡ m buf
  unfolding check_nonempty
  check_nonempty_lem m [] h = absurd (omega arith)
  check_nonempty_lem m (b ∷ buf) h = refl

  pub Reads-check_nonempty :
      {m : Reader A} {bytes : List ℕ} {a : A}
      → 1 ≤ length bytes
      → Reads m bytes a
      → Reads (check_nonempty m) bytes a
  Reads-check_nonempty {m} {bytes} h r = record {
    run = λ rest.
        check_nonempty_lem m (bytes ++ rest) (omega (arith, length-append bytes rest)) ∙ r.run rest;
  }

  pub Reads-at_least :
      {m : Reader A} {bytes : List ℕ} {a : A} (n : ℕ)
      → n ≤ length bytes
      → Reads m bytes a
      → Reads (read_at_least n m) bytes a
  unfolding read_at_least
  Reads-at_least {m} {bytes} n h r = record {
    run = λ rest. ground (arith, length-append bytes rest, r.run rest);
  }

module _ {A B : Type 0} where
  pub Reads-bind :
      (m : Reader A) (f : A → Reader B) {a : A} {b : B} {xs ys : List ℕ}
      → Reads m xs a
      → Reads (f a) ys b
      → Reads (m >>= f) (xs ++ ys) b
  unfolding ◌>>=◌
  Reads-bind m f {a} {b} {xs} {ys} rm rf = record {
    run = λ rest. rw (append_assoc xs ys rest, rm.run (ys ++ rest)) (rf.run rest);
  }

  -- the last read of a block that ends in `Ok`
  pub Reads-last :
      (m : Reader A) (g : A → B) {a : A} {xs : List ℕ}
      → Reads m xs a
      → Reads (m >>= λ x. pure (g x)) xs (g a)
  unfolding ◌>>=◌ pure
  Reads-last m g rm = record { run = λ rest. rw (rm.run rest) }

  pub Reads-lift :
      (o : Outcome A) (f : A → Reader B) {a : A} {b : B} {xs : List ℕ}
      → o ≡ ok a
      → Reads (f a) xs b
      → Reads (lift o >>= f) xs b
  unfolding ◌>>=◌ lift
  Reads-lift o f e rf = record { run = λ rest. rw e (rf.run rest) }
