-- ===== src/Pagecache/Tip/Advance.antt =====
-- `advance_snapshot` as a whole (src/pagecache/snapshot.rs).
use sled.Prelude.{
  ℕ, ◌+◌, ◌*◌, ◌/◌, ◌%◌, ◌^◌, ◌≤◌, ◌<◌, ◌≡◌, refl, sym, ap, ◌∙◌, false, Option, none, some, List,
  All, if◌then◌else◌, leb,
}
use sled.Prelude.Int.{ℤ, pos, ltb_ℤ}
use sled.Prelude.Outcome.{Outcome, ok}
use sled.Pagecache.PageState.{Snapshot}
use sled.Pagecache.Snapshot.{Entry, replay, lsn_or}
use sled.Pagecache.Snapshot.Replay.{AllReplayable, replay_from}
use sled.Pagecache.Tip.{
  seg_header_len, max_msg_header_len, recovered_coords, tip, before, advance_snapshot,
}
use sled.Pagecache.Tip.Coords.{IsSeen, tip_above, choose_tip_lem}

stable_of : Outcome Snapshot → Option ℤ
stable_of (ok s) = s.stable_lsn
stable_of _ = none

-- The loop leaves the stable lsn alone.
replay-stable_lsn :
    (entries : List Entry) (s s1 : Snapshot)
    → AllReplayable s.stable_lsn entries
    → replay entries s ≡ ok s1
    → s1.stable_lsn ≡ s.stable_lsn
unfolding stable_of
replay-stable_lsn entries s s1 h e =
    let (s', done, pages, stable) = replay_from entries s.stable_lsn s refl h in
    ap stable_of (sym e ∙ done) ∙ stable

not_before :
    (a : ℤ) (old : Option ℤ) (m : ℕ)
    → lsn_or old (pos 0) ≡ pos m
    → ltb_ℤ a (pos m) ≡ false
    → before (some a) old ≡ false
not_before a none m e h = refl
not_before a (some lsn) m e h = rw e h

-- Where the loop has replayed all entries into a snapshot whose pages have all been seen, and the
-- iterator has stopped at an lsn behind the header of the segment at `base` and not below the lsn
-- of the old snapshot, where a segment has at most 2^24 bytes, the lsn a segment later fits an i64,
-- and the end of the segment fits a u64, recovery succeeds, and the log goes on right behind what was read, or at
-- the segment that follows where a message header has no room.
pub advance_snapshot-resumes :
    (entries : List Entry) (s s1 : Snapshot) (n base segment_size m : ℕ)
    → AllReplayable s.stable_lsn entries
    → replay entries s ≡ ok s1
    → All IsSeen s1.pt
    → seg_header_len ≤ n % segment_size
    → 0 < segment_size
    → lsn_or s.stable_lsn (pos 0) ≡ pos m
    → m ≤ n
    → segment_size ≤ 2 ^ 24
    → n + segment_size < 2 ^ 63
    → base + segment_size ≤ 2 ^ 64
    → (s' : Snapshot) × (advance_snapshot entries (some (pos n)) (some base) s segment_size ≡ ok s')
      × (recovered_coords s' segment_size ≡ (
          if leb segment_size (n % segment_size + max_msg_header_len)
          then ok (none, some (pos (n / segment_size * segment_size + segment_size)))
          else ok (some (base + n % segment_size), some (pos n))))
unfolding advance_snapshot
advance_snapshot-resumes entries s s1 n base segment_size m replayable replayed seen header h e
      above small fits inside =
    let same : s1.stable_lsn ≡ s.stable_lsn = replay-stable_lsn entries s s1 replayable replayed in
    let old : lsn_or s1.stable_lsn (pos 0) ≡ pos m = ap (λ o. lsn_or o (pos 0)) same ∙ e in
    let (s', done, coords', stable) =
      choose_tip_lem s1 n base segment_size m header h old above small fits inside seen in
    let kept : before s'.stable_lsn s.stable_lsn ≡ false =
      ap (λ o. before o s.stable_lsn) stable
      ∙ not_before (tip (pos n) (some base) segment_size).0 s.stable_lsn m e
          (tip_above n base segment_size h small fits m above) in
    (s', rw (replayed, done, kept) refl, coords')
