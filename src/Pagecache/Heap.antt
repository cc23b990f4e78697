-- ===== src/Pagecache/Heap.antt =====
-- src/pagecache/heap.rs: the ids of heap items, the sizes of the slabs, and the slots of a slab. The
-- free list of a slab is a lock-free stack of the program, here a list with the top in front.
pub mod Sizes
pub mod Slots
use Prim.Native.Nat.{bit_and, bit_or}
use sled.Prelude.{
  ℕ, zero, suc, ◌+◌, ◌-◌, ◌*◌, ◌/◌, ◌%◌, ◌^◌, max, Bool, true, false, List, [], ◌∷◌, ltb, leb, ◌==◌,
  if◌then◌else◌,
}
use sled.Prelude.Int.{ℤ}
use sled.Prelude.Outcome.{Outcome, ok, panic, ◌>>=◌, ◌>>◌, assert}
use sled.Prelude.Bytes.{to_u8}
use sled.Pagecache.DiskPtr.{HeapId}

-- `MIN_SZ` of a build without the feature "testing"
abbrev pub min_sz : ℕ
min_sz = 32 * 1024

abbrev pub min_trailing_zeros : ℕ
min_trailing_zeros = 15

-- `u64::trailing_zeros`, which is 64 at zero
unfoldable pub count_zeros : ℕ → ℕ → ℕ
count_zeros zero n = 0
count_zeros (suc width) n =
    let rest = count_zeros width (n / 2) in if n % 2 == 1 then 0 else rest + 1

abbrev trailing_zeros : ℕ → ℕ
trailing_zeros n = count_zeros 64 n

-- Doubling, up to the first power that is not below `n`.
unfoldable pub double_until : ℕ → ℕ → ℕ → ℕ
double_until zero p n = p
double_until (suc fuel) p n = let rest = double_until fuel (p * 2) n in if leb n p then p else rest

-- `u64::next_power_of_two`, which wraps to zero above the largest power
abbrev next_power_of_two : ℕ → ℕ
next_power_of_two n = double_until 64 1 n % 2 ^ 64

-- A shift of a u64 takes its distance modulo 64.
unfoldable pub slab_id_to_size : ℕ → ℕ
slab_id_to_size slab_id = 1 * 2 ^ ((min_trailing_zeros + slab_id) % 64)

unfoldable pub size_to_slab_id : ℕ → Outcome ℕ
size_to_slab_id size =
    let normalized_size = max min_sz (next_power_of_two size) in
    let rebased_size = normalized_size / 2 ^ min_trailing_zeros in
    to_u8 (trailing_zeros rebased_size)

unfoldable pub slab_size : ℕ → Outcome ℕ
slab_size size = size_to_slab_id size >>= λ slab_id. ok (slab_id_to_size slab_id)

-- The slab, the slot in it, and the original lsn.
unfoldable pub decompose : HeapId → Outcome (ℕ × ℕ × ℤ)
decompose id = do
  slab_id ← to_u8 (trailing_zeros (id.location / 2 ^ 32))
  ok (slab_id, bit_and id.location (2 ^ 32 - 1), id.original_lsn)

unfoldable pub compose : ℕ → ℕ → ℤ → HeapId
compose slab_id slab_idx original_lsn = record {
  location = bit_or (1 * 2 ^ ((32 + slab_id) % 64)) slab_idx;
  original_lsn = original_lsn;
}

-- Where an item stands in the file of its slab, on u64.
unfoldable pub offset : HeapId → Outcome ℕ
offset id = decompose id >>= λ p. ok (slab_id_to_size p.0 * p.1 % 2 ^ 64)

-- The slots of one slab: the next slot that was never used, and those given back.
pub record Slab : Type 0 where
  pub slab_id : ℕ
  pub tip : ℕ
  pub free : List ℕ

-- A reservation: the slot, and whether it is a new one at the tip. `fetch_add` wraps around.
unfoldable pub take_slot : ℕ → ℕ → List ℕ → ℕ × Bool × Slab
take_slot slab_id tip (idx ∷ free) =
    (idx, false, record { slab_id = slab_id; tip = tip; free = free })
take_slot slab_id tip [] =
    (tip, true, record { slab_id = slab_id; tip = (tip + 1) % 2 ^ 32; free = [] })

unfoldable pub reserve_slot : Slab → ℕ × Bool × Slab
unfolding take_slot
reserve_slot s = take_slot s.slab_id s.tip s.free

-- `Slab::free`, and the drop of a reservation that was not completed.
unfoldable pub free_slot : Slab → ℕ → Slab
free_slot s idx = record s { free = idx ∷ s.free }

-- The slab that `Heap::reserve` takes its slot from: the assertion, and the index into the 32 slabs.
unfoldable pub reserve_slab : ℕ → Outcome ℕ
reserve_slab size = do
  assert (ltb size (2 ^ 48))
  slab_id ← size_to_slab_id size
  assert (ltb slab_id 32)
  ok slab_id
