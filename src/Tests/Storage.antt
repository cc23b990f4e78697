-- ===== src/Tests/Storage.antt =====
-- Runs of src/pagecache/heap.rs, src/pagecache/segment.rs and src/pagecache/header.rs.
use sled.Prelude.{
  ℕ, ◌+◌, ◌*◌, ◌-◌, ◌^◌, ◌<◌, ◌≤◌, ◌≡◌, refl, arith, Bool, true, false, none, some, List, [], ◌∷◌,
  length, ltb, ◌==◌, if◌then◌else◌, inl,
}
use sled.Prelude.Int.{pos}
use sled.Prelude.Outcome.{ok, panic, ◌>>=◌}
use sled.Prelude.Sorted.{contains}
use sled.Pagecache.Heap.{
  Slab, take_slot, size_to_slab_id, reserve_slab, compose, decompose, reserve_slot,
}
use sled.Pagecache.Heap.Sizes.{
  IsSlabFor, size_to_slab_id-IsSlabFor, reserve_slab_cases, decompose-compose,
}
use sled.Pagecache.Heap.Slots.{mark, here, next, reserve, reserve_slot-unused}
use sled.Pagecache.Segment.{
  Segment, Active, active, free, free_to_active, can_free, draining_to_free,
}
use sled.Pagecache.Segment.Counts.{
  IsActive, Event, page_written, page_replaced, run, all_taken, handed_out, Recorded, run-Recorded,
}
use sled.Pagecache.Segment.Drain.{Move, retire, resident, latest, retire-can_free}
use sled.Pagecache.Cleaner.{Cleaner}
use sled.Pagecache.Cleaner.Queue.{pop_all, pops, pending, pop_all-pending}
use sled.Pagecache.Header.{
  max_writers, offset, n_writers, is_sealed, is_maxed, salt, incr_writers, decr_writers,
  bump_offset, bump_salt,
}
use sled.Pagecache.Header.Fields.{
  Fields, IsFields, pack, fields-pack, incr_writers-pack, decr_writers-pack, bump_offset-pack,
  bump_salt-salt,
}

size_example : (i : ℕ) × (size_to_slab_id 100000 ≡ ok i) × IsSlabFor 100000 i
size_example = size_to_slab_id-IsSlabFor 100000 (omega arith)

reserve_slab_example :
    (2 ^ 47 ≤ 2 ^ 46 → (i : ℕ) × (reserve_slab (2 ^ 47) ≡ ok i) × (i < 32) × IsSlabFor (2 ^ 47) i)
    × (2 ^ 46 < 2 ^ 47 → reserve_slab (2 ^ 47) ≡ panic)
reserve_slab_example = reserve_slab_cases (2 ^ 47)

compose_example : decompose (compose 3 70 (pos 9)) ≡ ok (3, 70, pos 9)
compose_example = decompose-compose 3 70 (pos 9) (omega arith) (omega arith)

abbrev opened : Slab
opened = record { slab_id = 1; tip = 2; free = [] }

abbrev used_before : ℕ → Bool
used_before i = ltb i 2

abbrev once : Slab
once = (reserve_slot opened).2

abbrev used_once : ℕ → Bool
used_once = mark used_before (reserve_slot opened).0 true

once-room : once.tip + 1 < 2 ^ 32
unfolding reserve_slot take_slot
once-room = omega arith

slot_example : used_once (reserve_slot once).0 ≡ false
slot_example =
    reserve_slot-unused 1 2 used_once once (next here (reserve used_before opened (omega arith)))
      once-room

abbrev segment : Active
segment = record {
  lsn = pos 64;
  rss = 30;
  deferred_replaced_rss = 10;
  deferred_replaced_pids = 5 ∷ [];
  pids = 3 ∷ 5 ∷ [];
  latest_replacement_lsn = pos 128;
  can_free_upon_deactivation = [];
  deferred_heap_removals = [];
}

covered : (j : ℕ) → contains ltb j (5 ∷ []) ≡ true → contains ltb j (3 ∷ 5 ∷ []) ≡ true
unfolding contains
covered j h = ground arith

segment-IsActive : IsActive segment
segment-IsActive = record { pids = ((refl, tt), (tt, tt)); deferred = (tt, tt); covered = covered }

abbrev moved : List Move
moved = (3, pos 192, 20) ∷ []

retire_example :
    (s : Segment) × (retire (active segment) (pos 128) moved ≡ ok (s, resident segment))
    × (can_free s ≡ (length moved == length (resident segment)))
    × (draining_to_free s (pos 128) ≡ ok (free (some (pos 64)), latest moved (pos 128)))
retire_example =
    retire-can_free segment (pos 128) moved segment-IsActive (omega arith) refl (refl, tt)

abbrev history : List Event
history = page_written 3 (pos 64) 20 ∷ page_written 5 (pos 64) 7 ∷ page_replaced 3 (pos 192) 20 ∷ []

run_example :
    (after : Active) × ((free_to_active (free none) (pos 64) >>= run history)
      ≡ (if all_taken (pos 64) history then ok (active after) else panic))
    × Recorded history (handed_out (pos 64)) after
run_example = run-Recorded none (pos 64) history

abbrev fields : Fields
fields = record { salt = 6; maxed = 1; sealed = 0; writers = 3; offset = 512 }

fields-IsFields : IsFields fields
fields-IsFields = record {
  salt = omega arith;
  maxed = omega arith;
  sealed = omega arith;
  writers = omega arith;
  offset = omega arith;
}

fields_example :
    (offset (pack fields) ≡ 512)
    × (n_writers (pack fields) ≡ 3)
    × (is_sealed (pack fields) ≡ (0 == 1))
    × (is_maxed (pack fields) ≡ (1 == 1))
    × (salt (pack fields) ≡ 6 * 2 ^ 33)
fields_example = fields-pack fields fields-IsFields

incr_writers_example :
    incr_writers (pack fields)
    ≡ (if 3 == max_writers then panic else ok (pack (record fields { writers = 3 + 1 })))
incr_writers_example = incr_writers-pack fields fields-IsFields

decr_writers_example :
    decr_writers (pack fields)
    ≡ (if 3 == 0 then panic else ok (pack (record fields { writers = 3 - 1 })))
decr_writers_example = decr_writers-pack fields fields-IsFields

bump_offset_example :
    bump_offset (pack fields) 100
    ≡ (if ltb 100 (2 ^ 24) then ok (pack (record fields { offset = 512 + 100 })) else panic)
bump_offset_example = bump_offset-pack fields fields-IsFields 100 (inl (omega arith))

same_salt_example : bump_salt (salt (pack fields)) ≡ salt (pack fields)
same_salt_example = bump_salt-salt fields fields-IsFields (omega arith) (omega arith)

abbrev cleaner : Cleaner
cleaner = (0, 3 ∷ 5 ∷ []) ∷ (64, 2 ∷ []) ∷ []

pop_all_example : pop_all (pops cleaner) cleaner ≡ (pending cleaner, [])
pop_all_example =
    pop_all-pending cleaner ((refl, tt), (((refl, tt), (tt, tt)), (tt, ((tt, tt), tt))))
