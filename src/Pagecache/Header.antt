-- ===== src/Pagecache/Header.antt =====
-- src/pagecache/header.rs: the u64 that coordinates the writers of an I/O buffer. From the top: 31
-- bits of salt, 1 bit maxed, 1 bit sealed, 7 bits of writers, 24 bits of offset.
pub mod Fields
use Prim.Native.Nat.{bit_and, bit_or}
use sled.Prelude.{ℕ, ◌+◌, ◌-◌, ◌*◌, ◌/◌, ◌%◌, ◌^◌, Bool, ◌==◌, not, if◌then◌else◌, ltb}
use sled.Prelude.Outcome.{Outcome, ok, ◌>>=◌, ◌>>◌, assert}

abbrev pub max_writers : ℕ
max_writers = 127

-- `v << k` and `v >> k` on a u64, and the sum of an optimised build
abbrev shl : ℕ → ℕ → ℕ
shl v k = v * 2 ^ k % 2 ^ 64

abbrev shr : ℕ → ℕ → ℕ
shr v k = v / 2 ^ k

abbrev add_u64 : ℕ → ℕ → ℕ
add_u64 a b = (a + b) % 2 ^ 64

unfoldable pub is_maxed : ℕ → Bool
is_maxed v = bit_and v (1 * 2 ^ 32) == 1 * 2 ^ 32

unfoldable pub mk_maxed : ℕ → ℕ
mk_maxed v = bit_or v (1 * 2 ^ 32)

unfoldable pub is_sealed : ℕ → Bool
is_sealed v = bit_and v (1 * 2 ^ 31) == 1 * 2 ^ 31

unfoldable pub mk_sealed : ℕ → ℕ
mk_sealed v = bit_or v (1 * 2 ^ 31)

unfoldable pub n_writers : ℕ → ℕ
n_writers v = shr (shl v 33) 57

unfoldable pub incr_writers : ℕ → Outcome ℕ
incr_writers v = do assert (not (n_writers v == max_writers)); ok (add_u64 v (2 ^ 24))

unfoldable pub decr_writers : ℕ → Outcome ℕ
decr_writers v = do assert (not (n_writers v == 0)); ok ((v + 2 ^ 64 - 2 ^ 24) % 2 ^ 64)

unfoldable pub offset : ℕ → ℕ
offset v = shr (shl v 40) 40

unfoldable pub bump_offset : ℕ → ℕ → Outcome ℕ
bump_offset v by = do assert (shr by 24 == 0); ok (add_u64 v by)

unfoldable pub bump_salt : ℕ → ℕ
bump_salt v = bit_and (add_u64 v (2 ^ 33)) 0xFFFF_FFFD_0000_0000

unfoldable pub salt : ℕ → ℕ
salt v = shl (shr v 33) 33
