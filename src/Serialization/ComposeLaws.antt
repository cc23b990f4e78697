-- ===== src/Serialization/ComposeLaws.antt =====
-- The compound implementations of src/serialization.rs satisfy the laws of `Lawful`.
use sled.Prelude.{ℕ, ◌+◌, ◌^◌, ◌≤◌, ◌<◌, ◌≡◌, refl, arith, Option, none, some}
use sled.Prelude.Int.{ℤ, pos, negsuc, pos_part, neg_part}
use sled.Prelude.Bytes.{IsU64}
use sled.Prelude.Reader.{Reads-last}
use sled.Serialization.{Serialize}
use sled.Serialization.Rules.{Lawful}
use sled.Serialization.Ints.{i64_bits, i64_of_bits}
use sled.Serialization.IntLaws.{u64-Lawful, i64-Lawful, IsI64}
use sled.Serialization.Compose.{
  through, shift_u64_opt, unshift_u64_opt, option_u64, nonzero_or_zero, nonzero, option_nonzero_u64,
  shift_i64_opt, unshift_i64_opt, option_i64,
}

pub through-Lawful :
    {A B : Type 0} {s : Serialize B} {Valid : B → Type 0} (law : Lawful s Valid)
    → (to : A → B) (from : B → A) (V : A → Type 0) → ((a : A) → V a → Valid (to a))
    → ((a : A) → V a → from (to a) ≡ a)
    → Lawful (through s to from) V
through-Lawful {s = s} law to from V valid back = record {
  encoding = λ a. law.encoding (to a);
  size = λ a v. law.size (to a) (valid a v);
  writes = λ a v. law.writes (to a) (valid a v);
  reads = λ a v. rw (back a v) at (Reads-last s.deserialize from (law.reads (to a) (valid a v)));
}

-- What an `Option<u64>` must be for the shift not to wrap around.
abbrev pub IsShiftableU64 : Option ℕ → Type 0
IsShiftableU64 none = Unit
IsShiftableU64 (some v) = v + 1 < 2 ^ 64

shift_u64_opt-IsU64 : (o : Option ℕ) → IsShiftableU64 o → IsU64 (shift_u64_opt o)
unfolding shift_u64_opt
shift_u64_opt-IsU64 none h = omega arith
shift_u64_opt-IsU64 (some v) h = omega arith

unshift-shift_u64 : (o : Option ℕ) → IsShiftableU64 o → unshift_u64_opt (shift_u64_opt o) ≡ o
unfolding shift_u64_opt unshift_u64_opt
unshift-shift_u64 none h = refl
unshift-shift_u64 (some v) h = ground arith

pub option_u64-Lawful : Lawful option_u64 IsShiftableU64
option_u64-Lawful =
    through-Lawful u64-Lawful shift_u64_opt unshift_u64_opt IsShiftableU64 shift_u64_opt-IsU64
      unshift-shift_u64

abbrev pub IsNonZeroU64 : Option ℕ → Type 0
IsNonZeroU64 none = Unit
IsNonZeroU64 (some v) = (v < 2 ^ 64) × (0 < v)

nonzero_or_zero-IsU64 : (o : Option ℕ) → IsNonZeroU64 o → IsU64 (nonzero_or_zero o)
unfolding nonzero_or_zero
nonzero_or_zero-IsU64 none h = omega arith
nonzero_or_zero-IsU64 (some v) h = omega arith

nonzero-nonzero_or_zero : (o : Option ℕ) → IsNonZeroU64 o → nonzero (nonzero_or_zero o) ≡ o
unfolding nonzero nonzero_or_zero
nonzero-nonzero_or_zero none h = refl
nonzero-nonzero_or_zero (some v) h = ground arith

pub option_nonzero_u64-Lawful : Lawful option_nonzero_u64 IsNonZeroU64
option_nonzero_u64-Lawful =
    through-Lawful u64-Lawful nonzero_or_zero nonzero IsNonZeroU64 nonzero_or_zero-IsU64
      nonzero-nonzero_or_zero

-- Any i64 but the largest.
abbrev pub IsShiftableI64 : Option ℤ → Type 0
IsShiftableI64 none = Unit
IsShiftableI64 (some v) = (pos_part v + 1 < 2 ^ 63) × (neg_part v ≤ 2 ^ 63)

shift_i64_opt-pos : (n : ℕ) → n + 1 < 2 ^ 63 → shift_i64_opt (some (pos n)) ≡ pos (n + 1)
unfolding shift_i64_opt i64_bits i64_of_bits
shift_i64_opt-pos n h = ground arith

shift_i64_opt-IsI64 : (o : Option ℤ) → IsShiftableI64 o → IsI64 (shift_i64_opt o)
shift_i64_opt-IsI64 none h = unfold shift_i64_opt in omega arith
shift_i64_opt-IsI64 (some (pos n)) h = rw (shift_i64_opt-pos n h.0) (omega arith)
shift_i64_opt-IsI64 (some (negsuc n)) h = unfold shift_i64_opt in omega arith

unshift-shift_i64 : (o : Option ℤ) → IsShiftableI64 o → unshift_i64_opt (shift_i64_opt o) ≡ o
unfolding unshift_i64_opt
unshift-shift_i64 none h = unfold shift_i64_opt in refl
unshift-shift_i64 (some (pos n)) h = rw (shift_i64_opt-pos n h.0) (ground arith)
unshift-shift_i64 (some (negsuc n)) h = unfold shift_i64_opt in refl

pub option_i64-Lawful : Lawful option_i64 IsShiftableI64
option_i64-Lawful =
    through-Lawful i64-Lawful shift_i64_opt unshift_i64_opt IsShiftableI64 shift_i64_opt-IsI64
      unshift-shift_i64
