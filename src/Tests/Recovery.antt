-- ===== src/Tests/Recovery.antt =====
-- Runs of src/pagecache/snapshot.rs.
use sled.Prelude.{
  ℕ, arith, leb, ◌+◌, ◌*◌, ◌/◌, ◌%◌, ◌≡◌, refl, false, none, some, List, [], ◌∷◌, ◌++◌,
  if◌then◌else◌,
}
use sled.Prelude.Int.{pos}
use sled.Prelude.Outcome.{ok, err, corruption}
use sled.Pagecache.Tip.{advance_snapshot, recovered_coords, max_msg_header_len}
use sled.Pagecache.Tip.Advance.{advance_snapshot-resumes}
use sled.Pagecache.DiskPtr.{inline}
use sled.Pagecache.Message.{LogKind}
use sled.Pagecache.PageState.{present, Snapshot}
use sled.Pagecache.Snapshot.{Entry, apply, replay, replay_entry, grow, apply_kind}
use sled.Pagecache.Snapshot.Pages.{page_at}
use sled.Pagecache.Snapshot.Replay.{
  history, AllReplayable, is_replayable, IsOrdered, replay-history, replay_corrupt,
  replay-IsOrdered,
}

abbrev empty : Snapshot
empty = record { stable_lsn = none; active_segment = none; pt = [] }

abbrev replace_2 : Entry
replace_2 = record { kind = LogKind.replace; pid = 2; lsn = pos 5; ptr = inline 100; sz = 10 }

abbrev link_2 : Entry
link_2 = record { kind = LogKind.link; pid = 2; lsn = pos 7; ptr = inline 120; sz = 4 }

abbrev link_4 : Entry
link_4 = record { kind = LogKind.link; pid = 4; lsn = pos 8; ptr = inline 130; sz = 4 }

abbrev skip_1 : Entry
skip_1 = record { kind = LogKind.skip; pid = 1; lsn = pos 9; ptr = inline 140; sz = 4 }

abbrev log : List Entry
log = replace_2 ∷ link_2 ∷ link_4 ∷ []

log-AllReplayable : AllReplayable none log
log-AllReplayable = (refl, (refl, (refl, tt)))

replay_example :
    (s' : Snapshot) × (replay log empty ≡ ok s')
    × ((q : ℕ) → page_at s'.pt q ≡ history none q log (page_at [] q))
replay_example = replay-history log empty log-AllReplayable

sorted_log_example :
    (s' : Snapshot) × (replay log empty ≡ ok s') × ((q : ℕ) → IsOrdered (page_at s'.pt q))
sorted_log_example = replay-IsOrdered log empty log-AllReplayable (λ q. tt)

corrupt_example : replay (log ++ skip_1 ∷ link_2 ∷ []) empty ≡ err corruption
corrupt_example = replay_corrupt log skip_1 (link_2 ∷ []) empty log-AllReplayable skipped
  where
    skipped : is_replayable none skip_1 ≡ false
    skipped = refl

abbrev replace_0 : Entry
replace_0 = record { kind = LogKind.replace; pid = 0; lsn = pos 600; ptr = inline 100; sz = 10 }

abbrev replaced : Snapshot
replaced = record {
  stable_lsn = none;
  active_segment = none;
  pt = present (pos 600, inline 100, 10) [] ∷ [];
}

replayed : replay (replace_0 ∷ []) empty ≡ ok replaced
unfolding replay replay_entry apply grow apply_kind
replayed = refl

advance_snapshot_example :
    (s' : Snapshot) × (advance_snapshot (replace_0 ∷ []) (some (pos 700)) (some 1024) empty 512
      ≡ ok s')
    × (recovered_coords s' 512 ≡ (
        if leb 512 (700 % 512 + max_msg_header_len)
        then ok (none, some (pos (700 / 512 * 512 + 512)))
        else ok (some (1024 + 700 % 512), some (pos 700))))
advance_snapshot_example =
    advance_snapshot-resumes (replace_0 ∷ []) empty replaced 700 1024 512 0 (refl, tt) replayed
      (tt, tt) (omega arith) (omega arith) refl (omega arith) (omega arith) (omega arith)
      (omega arith)
