-- ===== src/Pagecache/Snapshot.antt =====
-- `Snapshot::apply`, the replay loop of `advance_snapshot`, and the coordinates from which the log
-- goes on (src/pagecache/snapshot.rs).
pub mod Pages
pub mod Replay
use sled.Prelude.{
  ℕ, ◌+◌, ◌-◌, ◌*◌, ◌/◌, ◌%◌, Option, none, some, Bool, true, false, List, [], ◌∷◌, ◌++◌, length,
  get_elem?, set, replicate, if◌then◌else◌, ltb, leb, ◌==◌, not,
}
use sled.Prelude.Int.{ℤ, pos, negsuc, ltb_ℤ}
use sled.Prelude.Outcome.{Outcome, ok, err, panic, corruption, ◌>>=◌}
use sled.Pagecache.DiskPtr.{DiskPtr}
use sled.Pagecache.Message
use sled.Pagecache.Message.{LogKind}
use sled.Pagecache.PageState.{PageState, Snapshot, present, free, uninitialized, push}

-- `self.pt.resize(pid + 1, PageState::Uninitialized)` where `self.pt.len() <= pid`, and whether it
-- was done.
unfoldable pub grow : List PageState → ℕ → List PageState × Bool
grow pt pid =
    if leb (length pt) pid
    then (pt ++ replicate (pid + 1 - length pt) uninitialized, true)
    else (pt, false)

-- `self.pt.pop()` gives the last page and what is before it.
unfoldable pub pop : List PageState → Option (PageState × List PageState)
pop [] = none
pop (page ∷ []) = some (page, [])
pop (page ∷ next ∷ pt) = elim (pop (next ∷ pt)) [
  | none ↦ none
  | some (last, front) ↦ some (last, page ∷ front)
]

abbrev is_uninitialized : PageState → Bool
is_uninitialized uninitialized = true
is_uninitialized _ = false

-- A link to a page that has no base yet: the page that `grow` appended is taken off again.
unfoldable pub skip_link : List PageState → Bool → Outcome (List PageState)
unfolding pop
skip_link pt false = ok pt
skip_link pt true = elim (pop pt) [
  | none ↦ panic
  | some (old, front) ↦ if is_uninitialized old then ok front else err corruption
]

unfoldable pub apply_link : List PageState → Bool → ℕ → ℤ → DiskPtr → ℕ → Outcome (List PageState)
unfolding skip_link
apply_link pt pushed pid lsn ptr sz = elim (get_elem? pt pid) [
  | some (present base frags) ↦
      push (present base frags) (lsn, ptr, sz) >>= λ page. ok (set pt pid page)
  | _ ↦ skip_link pt pushed
]

-- The match on the kind of the log entry, on the grown table.
unfoldable pub apply_kind :
    LogKind → List PageState → Bool → ℕ → ℤ → DiskPtr → ℕ → Outcome (List PageState)
apply_kind LogKind.replace pt pushed pid lsn ptr sz = ok (set pt pid (present (lsn, ptr, sz) []))
apply_kind LogKind.link pt pushed pid lsn ptr sz = apply_link pt pushed pid lsn ptr sz
apply_kind LogKind.free pt pushed pid lsn ptr sz = ok (set pt pid (free lsn ptr))
apply_kind LogKind.skip pt pushed pid lsn ptr sz = err corruption
apply_kind LogKind.corrupted pt pushed pid lsn ptr sz = err corruption

-- What `LogIter::next` gives: a kind, a page, an lsn, where the entry is, and its size.
pub record Entry : Type 0 where
  pub kind : LogKind
  pub pid : ℕ
  pub lsn : ℤ
  pub ptr : DiskPtr
  pub sz : ℕ

unfoldable pub apply : Snapshot → Entry → Outcome Snapshot
apply s e =
    let (pt, pushed) = grow s.pt e.pid in
    apply_kind e.kind pt pushed e.pid e.lsn e.ptr e.sz >>= λ pt'. ok (record s { pt = pt' })

-- `snapshot.stable_lsn.unwrap_or(-1)`
abbrev pub lsn_or : Option ℤ → ℤ → ℤ
lsn_or none d = d
lsn_or (some lsn) d = lsn

-- `lsn < snapshot.stable_lsn.unwrap_or(-1)`: the entry is in the snapshot already.
abbrev pub is_old : Option ℤ → Entry → Bool
is_old stable_lsn e = ltb_ℤ e.lsn (lsn_or stable_lsn (negsuc 0))

-- The body of the `while let` loop.
unfoldable pub replay_entry : Snapshot → Entry → Outcome Snapshot
replay_entry s e = if is_old s.stable_lsn e then ok s else apply s e

-- The loop, over the entries that the iterator gives.
unfoldable pub replay : List Entry → Snapshot → Outcome Snapshot
replay [] s = ok s
replay (e ∷ entries) s = replay_entry s e >>= λ s'. replay entries s'
