-- ===== src/Serialization/SnapshotLaws.antt =====
-- `PageState` and `Snapshot` satisfy the laws of `Lawful` (src/serialization.rs).
use sled.Prelude.{
  ℕ, ◌==◌, false, ◌+◌, ◌-◌, ◌≤◌, ◌≡◌, refl, ap, ◌∙◌, arith, List, [], ◌∷◌, ◌++◌, length, All,
}
use sled.Prelude.Outcome.{ok}
use sled.Prelude.Bytes.{IsU64}
use sled.Prelude.Reader.{pure, ◌>>=◌, Reads, Reads-last, Reads-bind}
use sled.Serialization.Rules.{Writes, Writes-▸, Lawful, length-encoding, ⊕-eq-ok}
use sled.Serialization.Ints.{u64, i64, read_byte}
use sled.Serialization.IntLaws.{u64-Lawful, i64-Lawful, IsI64, Reads-byte, Writes-u8}
use sled.Serialization.Compose.{option_u64, option_i64, deserialize_bounded_sequence}
use sled.Serialization.ComposeLaws.{
  option_u64-Lawful, option_i64-Lawful, IsShiftableU64, IsShiftableI64,
}
use sled.Serialization.TupleLaws.{
  triple-Lawful, triple_some_byte, encodings, sequence_size-encodings, serialize_sequence-Writes,
  deserialize_bounded_sequence-Reads,
}
use sled.Serialization.Structs.{disk_ptr}
use sled.Serialization.StructLaws.{disk_ptr-Lawful, IsDiskPtr, length-append_bytes}
use sled.Serialization.PageStates.{
  item, page_state_size, frags_len, write_page_state, page_state_body, page_state, snapshot,
}
use sled.Pagecache.PageState.{PageState, Item, Snapshot, present, free, uninitialized}

abbrev pub IsItem : Item → Type 0
IsItem p = IsI64 p.0 × IsDiskPtr p.1 × IsU64 p.2

pub item-Lawful : Lawful item IsItem
item-Lawful = triple-Lawful i64-Lawful disk_ptr-Lawful u64-Lawful

item_some_byte : (p : Item) → IsItem p → 1 ≤ length (item-Lawful.encoding p)
unfolding item-Lawful
item_some_byte p v =
    triple_some_byte i64-Lawful disk_ptr-Lawful u64-Lawful
      (λ a h. omega (arith, length-encoding i64-Lawful a 8 h refl)) p v

-- A page in a state that the code serializes: it has been seen in the log, and has at most 254
-- fragments besides its base.
abbrev pub IsPageState : PageState → Type 0
IsPageState (present base frags) = (length frags ≤ 254) × IsItem base × All IsItem frags
IsPageState (free lsn ptr) = IsI64 lsn × IsDiskPtr ptr
IsPageState uninitialized = ⊥

page_state_encoding : PageState → List ℕ
page_state_encoding (present base frags) =
    (1 + length frags) ∷ (item-Lawful.encoding base ++ encodings item-Lawful frags)
page_state_encoding (free lsn ptr) = 0 ∷ (i64-Lawful.encoding lsn ++ disk_ptr-Lawful.encoding ptr)
page_state_encoding uninitialized = []

page_state_size-encoding :
    (p : PageState) → IsPageState p → page_state_size p ≡ ok (length (page_state_encoding p))
unfolding page_state_size page_state_encoding
page_state_size-encoding (present base frags) v =
    ⊕-eq-ok (⊕-eq-ok {a = 1} refl (item-Lawful.size base v.1))
      (sequence_size-encodings item-Lawful frags v.2)
    ∙ ap ok (omega (arith, length-append_bytes))
page_state_size-encoding (free lsn ptr) v =
    ⊕-eq-ok (⊕-eq-ok {a = 1} refl (i64-Lawful.size lsn v.0)) (disk_ptr-Lawful.size ptr v.1)
    ∙ ap ok (omega (arith, length-append_bytes))
page_state_size-encoding uninitialized v = absurd v

frags_len_lem : (frags : List Item) → length frags ≤ 254 → frags_len frags ≡ ok (1 + length frags)
unfolding frags_len
frags_len_lem frags h = ground arith

write_page_state-Writes :
    (p : PageState) → IsPageState p → Writes (write_page_state p) (page_state_encoding p)
unfolding write_page_state page_state_encoding
write_page_state-Writes (present base frags) v =
    rw (frags_len_lem frags v.0, write_page_state)
      (Writes-▸ (Writes-u8 (1 + length frags))
        (Writes-▸ (item-Lawful.writes base v.1) (serialize_sequence-Writes item-Lawful frags v.2)))
write_page_state-Writes (free lsn ptr) v =
    Writes-▸ (Writes-u8 0) (Writes-▸ (i64-Lawful.writes lsn v.0) (disk_ptr-Lawful.writes ptr v.1))
write_page_state-Writes uninitialized v = absurd v

page_state_body-present :
    (n : ℕ)
    → page_state_body (1 + n) ≡ (
        item.deserialize >>= λ base.
        deserialize_bounded_sequence item n >>= λ frags. pure (present base frags))
unfolding page_state_body
page_state_body-present n =
    let positive : ((1 + n) == 0) ≡ false = ground arith in
    let less_one : 1 + n - 1 ≡ n = omega arith in rw (positive, less_one)

page_state_body-free :
    page_state_body 0
    ≡ (i64.deserialize >>= λ lsn. disk_ptr.deserialize >>= λ ptr. pure (free lsn ptr))
unfolding page_state_body
page_state_body-free = refl

page_state-Reads :
    (p : PageState) → IsPageState p → Reads page_state.deserialize (page_state_encoding p) p
unfolding page_state_encoding
page_state-Reads (present base frags) v =
    Reads-bind read_byte page_state_body (Reads-byte (1 + length frags)) (
      rw page_state_body-present (
        Reads-bind item.deserialize _ (item-Lawful.reads base v.1) (
          Reads-last (deserialize_bounded_sequence item (length frags)) (present base)
            (deserialize_bounded_sequence-Reads item-Lawful item_some_byte frags v.2))))
page_state-Reads (free lsn ptr) v = Reads-bind read_byte page_state_body (Reads-byte 0) (
    rw page_state_body-free (
      Reads-bind i64.deserialize _ (i64-Lawful.reads lsn v.0)
        (Reads-last disk_ptr.deserialize (free lsn) (disk_ptr-Lawful.reads ptr v.1))))
page_state-Reads uninitialized v = absurd v

page_state_some_byte : (p : PageState) → IsPageState p → 1 ≤ length (page_state_encoding p)
unfolding page_state_encoding
page_state_some_byte (present base frags) v = omega arith
page_state_some_byte (free lsn ptr) v = omega arith
page_state_some_byte uninitialized v = absurd v

pub page_state-Lawful : Lawful page_state IsPageState
page_state-Lawful = record {
  encoding = page_state_encoding;
  size = page_state_size-encoding;
  writes = write_page_state-Writes;
  reads = page_state-Reads;
}

page_some_byte : (p : PageState) → IsPageState p → 1 ≤ length (page_state-Lawful.encoding p)
unfolding page_state-Lawful
page_some_byte = page_state_some_byte

pub record IsSnapshot (s : Snapshot) : Type 0 where
  pub stable_lsn : IsShiftableI64 s.stable_lsn
  pub active_segment : IsShiftableU64 s.active_segment
  pub pages : IsU64 (length s.pt)
  pub pt : All IsPageState s.pt

pub snapshot-Lawful : Lawful snapshot IsSnapshot
snapshot-Lawful = record {
  encoding = λ s.
      option_i64-Lawful.encoding s.stable_lsn
      ++ (option_u64-Lawful.encoding s.active_segment
          ++ (u64-Lawful.encoding (length s.pt) ++ encodings page_state-Lawful s.pt));
  size = λ s v.
      ⊕-eq-ok
        (⊕-eq-ok
          (⊕-eq-ok (option_i64-Lawful.size s.stable_lsn v.stable_lsn)
            (option_u64-Lawful.size s.active_segment v.active_segment))
          (u64-Lawful.size (length s.pt) v.pages))
        (sequence_size-encodings page_state-Lawful s.pt v.pt)
      ∙ ap ok (omega (arith, length-append_bytes));
  writes = λ s v. Writes-▸ (option_i64-Lawful.writes s.stable_lsn v.stable_lsn) (
      Writes-▸ (option_u64-Lawful.writes s.active_segment v.active_segment) (
        Writes-▸ (u64-Lawful.writes (length s.pt) v.pages)
          (serialize_sequence-Writes page_state-Lawful s.pt v.pt)));
  reads = λ s v.
      Reads-bind option_i64.deserialize _ (option_i64-Lawful.reads s.stable_lsn v.stable_lsn) (
        Reads-bind option_u64.deserialize _
          (option_u64-Lawful.reads s.active_segment v.active_segment)
          (Reads-bind u64.deserialize _ (u64-Lawful.reads (length s.pt) v.pages) (
            Reads-last (deserialize_bounded_sequence page_state (length s.pt))
              (λ pt. record s { pt = pt })
              (deserialize_bounded_sequence-Reads page_state-Lawful page_some_byte s.pt v.pt))));
}
