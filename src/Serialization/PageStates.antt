-- ===== src/Serialization/PageStates.antt =====
-- The implementations of `Serialize` for `PageState` and `Snapshot` (src/serialization.rs).
use sled.Prelude.{ℕ, ◌+◌, ◌-◌, ◌%◌, List, length, ltb, ◌==◌, if◌then◌else◌}
use sled.Prelude.Outcome.{Outcome, ok, panic}
use sled.Prelude.Reader.{Reader, pure, ◌>>=◌}
use sled.Serialization.{Buffer, ◌▸◌, ◌⊕◌, Serialize}
use sled.Serialization.Ints.{u64, i64, u8, read_byte}
use sled.Serialization.Compose.{
  option_u64, option_i64, triple, sequence_size, serialize_sequence, deserialize_bounded_sequence,
}
use sled.Serialization.Structs.{disk_ptr}
use sled.Pagecache.PageState.{PageState, Item, Snapshot, present, free, uninitialized}

abbrev pub item : Serialize Item
item = triple i64 disk_ptr u64

unfoldable pub page_state_size : PageState → Outcome ℕ
page_state_size (free a ptr) = ok 1 ⊕ i64.serialized_size a ⊕ disk_ptr.serialized_size ptr
page_state_size (present base frags) = ok 1 ⊕ item.serialized_size base ⊕ sequence_size item frags
page_state_size uninitialized = panic

-- `1 + u8::try_from(frags.len()).expect(..)` of an optimised build, where the sum wraps around.
unfoldable pub frags_len : List Item → Outcome ℕ
frags_len frags = if ltb 255 (length frags) then panic else ok ((1 + length frags) % 256)

unfoldable pub write_page_state : PageState → Buffer → Outcome Buffer
write_page_state (free lsn ptr) =
    u8.serialize_into 0 ▸ i64.serialize_into lsn ▸ disk_ptr.serialize_into ptr
write_page_state (present base frags) = elim (frags_len frags) [
  | ok len ↦ u8.serialize_into len ▸ item.serialize_into base ▸ serialize_sequence item frags
  | _ ↦ λ buf. panic
]
write_page_state uninitialized = λ buf. panic

unfoldable pub page_state_body : ℕ → Reader PageState
page_state_body d =
    if d == 0
    then (do lsn ← i64.deserialize; ptr ← disk_ptr.deserialize; pure (free lsn ptr))
    else (do
      base ← item.deserialize
      frags ← deserialize_bounded_sequence item (d - 1)
      pure (present base frags))

abbrev pub page_state : Serialize PageState
page_state = record {
  serialized_size = page_state_size;
  serialize_into = write_page_state;
  deserialize = (do d ← read_byte; page_state_body d);
}

-- impl Serialize for Snapshot
abbrev pub snapshot : Serialize Snapshot
snapshot = record {
  serialized_size = λ s.
      option_i64.serialized_size s.stable_lsn
      ⊕ option_u64.serialized_size s.active_segment
      ⊕ u64.serialized_size (length s.pt)
      ⊕ sequence_size page_state s.pt;
  serialize_into = λ s.
      option_i64.serialize_into s.stable_lsn
      ▸ option_u64.serialize_into s.active_segment
      ▸ u64.serialize_into (length s.pt)
      ▸ serialize_sequence page_state s.pt;
  deserialize = (do
    stable_lsn ← option_i64.deserialize
    active_segment ← option_u64.deserialize
    len ← u64.deserialize
    pt ← deserialize_bounded_sequence page_state len
    pure (record { stable_lsn = stable_lsn; active_segment = active_segment; pt = pt }));
}
