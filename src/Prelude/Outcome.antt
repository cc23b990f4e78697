-- ===== src/Prelude/Outcome.antt =====
-- The outcomes of a Rust function: `Ok`, `Err`, or a panic (a failed assertion, an `unwrap` of
-- nothing, a slice index out of range, an arithmetic overflow that the code does not expect).
use mathlib.Core.Bool.{Bool, true, false}
use mathlib.Core.Option.{Option, none, some}

-- The variants of `Error` that the modelled code returns. `corruption` is `Error::Corruption`.
pub data Error : Type 0 where
  corruption reportable_bug unsupported io : Error

pub data Outcome {ℓ} (A : Type ℓ) : Type ℓ where
  ok : A → Outcome A
  err : Error → Outcome A
  panic : Outcome A

infixl 5 ◌>>=◌ ◌>>◌
abbrev pub ◌>>=◌ {ℓ κ} : {A : Type ℓ} {B : Type κ} → Outcome A → (A → Outcome B) → Outcome B
ok a >>= f = f a
err e >>= f = err e
panic >>= f = panic

abbrev pub ◌>>◌ {ℓ} : {B : Type ℓ} → Outcome (Unit {0}) → Outcome B → Outcome B
m >> k = m >>= λ _. k

-- `assert!(b)`
abbrev pub assert : Bool → Outcome (Unit {0})
assert true = ok tt
assert false = panic

-- `if !b { return Err(e) }`
abbrev pub ensure : Bool → Error → Outcome (Unit {0})
ensure true e = ok tt
ensure false e = err e

-- `o.unwrap()`
abbrev pub unwrap {ℓ} : {A : Type ℓ} → Option A → Outcome A
unwrap none = panic
unwrap (some a) = ok a
