-- ===== src/Prelude/Bytes.antt =====
-- Bytes as numbers, little-endian arrays, and writes to the front of a slice.
use Prim.Native.Nat.{ℕ, zero, suc, ◌+◌, ◌*◌, ◌/◌, ◌%◌, ◌^◌, ◌≤◌, ◌<◌}
use mathlib.Core.Path.{◌≡◌, refl, ap}
use mathlib.Core.List.{List, [], ◌∷◌, ◌++◌}
use native.Mathlib.Omega.{arith}
use native.Mathlib.Nat.{pow-suc}
use sled.Prelude.Tests.{ltb, leb, if◌then◌else◌}
use sled.Prelude.Lists.{length, get_elem?, take, drop, replicate, All}
use sled.Prelude.Outcome.{Outcome, ok, panic, ◌>>=◌, unwrap}

abbrev pub IsByte : ℕ → Type 0
IsByte b = b < 256

abbrev pub IsU64 : ℕ → Type 0
IsU64 v = v < 2 ^ 64

-- The `n` low bytes of `v`, the lowest first: `v.to_le_bytes()` for an n-byte integer `v`, and
-- `v.to_le_bytes()[..n]` for a wider one.
unfoldable pub to_le_bytes : ℕ → ℕ → List ℕ
to_le_bytes zero v = []
to_le_bytes (suc n) v = v % 256 ∷ to_le_bytes n (v / 256)

-- `from_le_bytes(bytes)`
unfoldable pub from_le_bytes : List ℕ → ℕ
from_le_bytes [] = 0
from_le_bytes (b ∷ bs) = b + 256 * from_le_bytes bs

pub length-to_le_bytes : (n v : ℕ) → length (to_le_bytes n v) ≡ n
unfolding to_le_bytes
length-to_le_bytes zero v = refl
length-to_le_bytes (suc n) v = ap suc (length-to_le_bytes n (v / 256))

pub to_le_bytes-IsByte : (n v : ℕ) → All IsByte (to_le_bytes n v)
unfolding to_le_bytes
to_le_bytes-IsByte zero v = tt
to_le_bytes-IsByte (suc n) v = (omega arith, to_le_bytes-IsByte n (v / 256))

pub from_le_bytes-lt :
    (n : ℕ) (bs : List ℕ) → All IsByte bs → length bs ≤ n → from_le_bytes bs < 256 ^ n
unfolding from_le_bytes
from_le_bytes-lt zero [] h hn = omega arith
from_le_bytes-lt zero (b ∷ bs) h hn = absurd (omega arith)
from_le_bytes-lt (suc n) [] h hn =
    omega (arith, pow-suc 256 n, from_le_bytes-lt n [] tt (omega arith))
from_le_bytes-lt (suc n) (b ∷ bs) h hn =
    omega (arith, pow-suc 256 n, from_le_bytes-lt n bs h.1 (omega arith))

-- Zero bytes at the high end do not change the value.
pub from_le_bytes-append_zeros :
    (bs : List ℕ) (k : ℕ) → from_le_bytes (bs ++ replicate k 0) ≡ from_le_bytes bs
unfolding from_le_bytes
from_le_bytes-append_zeros [] zero = refl
from_le_bytes-append_zeros [] (suc k) = omega (arith, from_le_bytes-append_zeros [] k)
from_le_bytes-append_zeros (b ∷ bs) k = omega (arith, from_le_bytes-append_zeros bs k)

-- The low bytes of a wide integer are the bytes of a narrow one.
pub take-to_le_bytes : (n m v : ℕ) → n ≤ m → take n (to_le_bytes m v) ≡ to_le_bytes n v
unfolding to_le_bytes
take-to_le_bytes zero m v h = refl
take-to_le_bytes (suc n) zero v h = absurd (omega arith)
take-to_le_bytes (suc n) (suc m) v h =
    ap (λ l. v % 256 ∷ l) (take-to_le_bytes n m (v / 256) (omega arith))

-- Reading back what was written, with any number of zero bytes behind it.
pub from_le_bytes-to_le_bytes :
    (n k v : ℕ) → v < 256 ^ n → from_le_bytes (to_le_bytes n v ++ replicate k 0) ≡ v
unfolding to_le_bytes from_le_bytes
from_le_bytes-to_le_bytes zero zero v h = omega arith
from_le_bytes-to_le_bytes zero (suc k) v h = omega (arith, from_le_bytes-to_le_bytes zero k v h)
from_le_bytes-to_le_bytes (suc n) k v h =
    omega (arith, from_le_bytes-to_le_bytes n k (v / 256) (omega (arith, pow-suc 256 n)))

-- `u8::try_from(v).unwrap()`
abbrev pub to_u8 : ℕ → Outcome ℕ
to_u8 v = if ltb v 256 then ok v else panic

-- `buf[i]`
abbrev pub index : List ℕ → ℕ → Outcome ℕ
index buf i = unwrap (get_elem? buf i)

-- `&buf[..n]` and `&buf[n..]`
abbrev pub slice_to : ℕ → List ℕ → Outcome (List ℕ)
slice_to n buf = if leb n (length buf) then ok (take n buf) else panic

abbrev pub slice_from : ℕ → List ℕ → Outcome (List ℕ)
slice_from n buf = if leb n (length buf) then ok (drop n buf) else panic

-- `buf[..bytes.len()].copy_from_slice(bytes)`
abbrev pub copy_front : List ℕ → List ℕ → Outcome (List ℕ)
copy_front bytes buf =
    if leb (length bytes) (length buf) then ok (bytes ++ drop (length bytes) buf) else panic

-- `buf[i..i + bytes.len()].copy_from_slice(bytes)`, and `buf[i] = b` for `bytes` the one byte `b`.
abbrev pub copy_at : ℕ → List ℕ → List ℕ → Outcome (List ℕ)
copy_at zero bytes buf = copy_front bytes buf
copy_at (suc i) bytes [] = panic
copy_at (suc i) bytes (x ∷ buf) = copy_at i bytes buf >>= λ buf'. ok (x ∷ buf')
