-- ===== src/Pagecache/Tip.antt =====
-- Where the log goes on after recovery: what `advance_snapshot` does behind its loop, and
-- `Snapshot::recovered_coords` (src/pagecache/snapshot.rs). The writes that zero the tail of the
-- segment and torn segments, and the write of the snapshot file, are taken to succeed.
pub mod Coords
pub mod Advance
use sled.Prelude.{
  ℕ, suc, ◌+◌, ◌-◌, ◌*◌, ◌/◌, ◌%◌, ◌^◌, Option, none, some, Bool, true, false, List, [], ◌∷◌,
  if◌then◌else◌, ltb, leb, ◌==◌, not, ◌&&◌, ◌||◌,
}
use sled.Prelude.Int.{div_ℤ, rem_ℤ, mul_ℤ, add_ℤ, wrap_i64, ℤ, pos, negsuc, sub_ℕ, ltb_ℤ, leb_ℤ}
use sled.Prelude.Outcome.{Outcome, ok, err, panic, corruption, ◌>>=◌, ◌>>◌, assert, ensure}
use sled.Prelude.Sorted.{same_key}
use sled.Pagecache.PageState.{PageState, Snapshot, filter_inner_heap_ids}
use sled.Pagecache.Snapshot.{Entry, replay, lsn_or}

abbrev pub seg_header_len : ℕ
seg_header_len = 20

abbrev pub max_msg_header_len : ℕ
max_msg_header_len = 32

-- `LogOffset::try_from(lsn).unwrap()`
abbrev pub log_offset : ℤ → Outcome ℕ
log_offset (pos n) = ok n
log_offset (negsuc n) = panic

-- `RunningConfig::normalize`
abbrev pub normalize : ℤ → ℕ → ℤ
normalize lsn segment_size = mul_ℤ (div_ℤ lsn segment_size) segment_size

unfoldable pub coords : Option ℤ → Option ℕ → ℕ → Outcome (Option ℕ × Option ℤ)
coords none active_segment segment_size = ok (none, none)
coords (some stable_lsn) (some base_offset) segment_size = do
  assert (ltb 0 segment_size)
  progress ← log_offset (rem_ℤ stable_lsn segment_size)
  ok (some ((base_offset + progress) % 2 ^ 64), some stable_lsn)
coords (some stable_lsn) none segment_size = do
  assert (ltb 0 segment_size)
  let partial = if same_key ltb_ℤ (rem_ℤ stable_lsn segment_size) (pos 0) then 0 else 1
  let lsn_idx = wrap_i64 (add_ℤ (div_ℤ stable_lsn segment_size) partial)
  ok (none, some (wrap_i64 (mul_ℤ lsn_idx segment_size)))

unfoldable pub recovered_coords : Snapshot → ℕ → Outcome (Option ℕ × Option ℤ)
unfolding coords
recovered_coords s segment_size = coords s.stable_lsn s.active_segment segment_size

abbrev pub is_none : {A : Type 0} → Option A → Bool
is_none none = true
is_none (some a) = false

abbrev is_empty : List PageState → Bool
is_empty [] = true
is_empty (page ∷ pt) = false

-- `snapshot == Snapshot::default()`
abbrev pub is_default : Snapshot → Bool
is_default s = is_none s.stable_lsn && is_none s.active_segment && is_empty s.pt

-- The new stable lsn and the new active segment, on i64. A segment without room for another message is left.
unfoldable pub tip : ℤ → Option ℕ → ℕ → ℤ × Option ℕ
tip iterated_lsn segment_base segment_size =
    if leb_ℤ (pos segment_size)
      (wrap_i64 (add_ℤ (rem_ℤ iterated_lsn segment_size) max_msg_header_len))
    then (wrap_i64 (add_ℤ (normalize iterated_lsn segment_size) segment_size), none)
    else (iterated_lsn, segment_base)

-- The case of a log in which the iterator has come to an lsn.
unfoldable pub progress_to : Snapshot → ℤ → Option ℕ → ℕ → Outcome Snapshot
unfolding tip
progress_to s iterated_lsn segment_base segment_size = do
  assert (ltb 0 segment_size)
  let segment_progress = rem_ℤ iterated_lsn segment_size
  ensure
      (leb_ℤ (pos seg_header_len) segment_progress
        || (same_key ltb_ℤ segment_progress (pos 0) && is_none segment_base))
      corruption
  let new = tip iterated_lsn segment_base segment_size
  ensure (not (ltb_ℤ new.0 (lsn_or s.stable_lsn (pos 0)))) corruption
  filter_inner_heap_ids (record s { stable_lsn = some new.0; active_segment = new.1 })

unfoldable pub choose_tip : Snapshot → Option ℤ → Option ℕ → ℕ → Outcome Snapshot
choose_tip s none segment_base segment_size =
    if is_none s.stable_lsn then ensure (is_default s) corruption >> ok s else ok s
choose_tip s (some cur_lsn) segment_base segment_size =
    if leb_ℤ cur_lsn (lsn_or s.stable_lsn (pos 0)) && is_none s.stable_lsn
    then ensure (is_default s) corruption >> ok s
    else progress_to s cur_lsn segment_base segment_size

-- `a < b` on options, where nothing is the least
abbrev pub before : Option ℤ → Option ℤ → Bool
before a none = false
before none (some b) = true
before (some a) (some b) = ltb_ℤ a b

-- The whole: the entries that the iterator gives, and the lsn and the segment where it ends.
unfoldable pub advance_snapshot : List Entry → Option ℤ → Option ℕ → Snapshot → ℕ → Outcome Snapshot
unfolding choose_tip progress_to
advance_snapshot entries cur_lsn segment_base snapshot segment_size = do
  replayed ← replay entries snapshot
  chosen ← choose_tip replayed cur_lsn segment_base segment_size
  ensure (not (before chosen.stable_lsn snapshot.stable_lsn)) corruption
  ok chosen
