-- ===== src/Pagecache/Segment/Drain.antt =====
-- From an active segment to a free one (src/pagecache/segment.rs).
use sled.Prelude.{
  ℕ, ◌+◌, ◌≤◌, ◌≡◌, ◌∙◌, arith, true, false, List, [], ◌∷◌, length, ltb, leb, ◌==◌, All, some,
}
use sled.Prelude.Int.{ℤ, ltb_ℤ, leb_ℤ}
use sled.Prelude.Outcome.{Outcome, ok, ◌>>=◌}
use sled.Prelude.Sorted.{
  difference, same_key, ltb-StrictOrder, Ascending-Distinct, length-difference,
}
use sled.Pagecache.Segment.{
  Segment, Active, Draining, active, draining, free, active_to_inactive, inactive_to_draining,
  draining_to_free, remove_pid, can_free, later,
}
use sled.Pagecache.Segment.Counts.{IsActive}

-- The replacement of a page: the page, the lsn of the replacement, and the size of the old one.
abbrev pub Move : Type 0
Move = ℕ × ℤ × ℕ

unfoldable pub remove_all : List Move → Segment → Outcome Segment
unfolding remove_pid
remove_all [] s = ok s
remove_all (m ∷ moves) s = remove_pid s m.0 m.1 m.2 >>= λ s'. remove_all moves s'

unfoldable pub latest : List Move → ℤ → ℤ
latest [] lsn = lsn
latest (m ∷ moves) lsn = latest moves (later m.1 lsn)

-- Replacements of a draining segment's pages count up one by one.
remove_all-draining :
    (moves : List Move) (d : Draining)
    → All (λ m. ltb_ℤ d.lsn m.1 ≡ true) moves
    → remove_all moves (draining d)
      ≡ ok (
          draining (record d {
            replaced_pids = d.replaced_pids + length moves;
            latest_replacement_lsn = latest moves d.latest_replacement_lsn;
          }))
unfolding remove_all latest remove_pid
remove_all-draining [] d h = ground arith
remove_all-draining (m ∷ moves) d h =
    let newer : leb_ℤ d.lsn m.1 ≡ true = ground (arith, h.0) in
    let other : same_key ltb_ℤ m.1 d.lsn ≡ false = ground (arith, h.0) in
    rw (newer, other)
      (remove_all-draining moves
          (record d {
            replaced_pids = d.replaced_pids + 1;
            latest_replacement_lsn = later m.1 d.latest_replacement_lsn;
          })
          h.1
        ∙ ground arith)

-- The pages of an active segment that have not been replaced.
abbrev pub resident : Active → List ℕ
resident a = difference ltb a.pids a.deferred_replaced_pids

-- Deactivating a segment, draining it, and replacing pages of it, the outcome of which is the
-- segment and the pages that `inactive_to_draining` reports.
unfoldable pub retire : Segment → ℤ → List Move → Outcome (Segment × List ℕ)
unfolding active_to_inactive inactive_to_draining remove_all
retire s lsn moves = active_to_inactive s lsn >>= λ i.
    inactive_to_draining i.0 lsn >>= λ d. remove_all moves d.0 >>= λ s'. ok (s', d.1)

-- An active segment can be retired: the pages that are reported are those not replaced before,
-- and after any replacements it can be freed exactly when there have been as many as pages were
-- reported; freeing it then gives the latest lsn of all its replacements.
pub retire-can_free :
    (a : Active) (lsn : ℤ) (moves : List Move)
    → IsActive a
    → a.deferred_replaced_rss ≤ a.rss
    → leb_ℤ a.lsn lsn ≡ true
    → All (λ m. ltb_ℤ a.lsn m.1 ≡ true) moves
    → (s : Segment) × (retire (active a) lsn moves ≡ ok (s, resident a))
      × (can_free s ≡ (length moves == length (resident a)))
      × (draining_to_free s lsn ≡ ok (free (some a.lsn), latest moves a.latest_replacement_lsn))
unfolding retire active_to_inactive inactive_to_draining draining_to_free can_free
retire-can_free a lsn moves v rss after newer = (
  draining (record start {
    replaced_pids = start.replaced_pids + length moves;
    latest_replacement_lsn = latest moves a.latest_replacement_lsn;
  }),
  ground (arith, after, enough, remove_all-draining moves start newer),
  ground (arith, counted),
  rw after,
)
  where
    start : Draining
    start = record {
      lsn = a.lsn;
      max_pids = length a.pids;
      replaced_pids = length a.deferred_replaced_pids;
      latest_replacement_lsn = a.latest_replacement_lsn;
    }

    enough : leb a.deferred_replaced_rss a.rss ≡ true
    enough = ground arith

    counted : length (resident a) + length a.deferred_replaced_pids ≡ length a.pids
    counted =
        length-difference ltb-StrictOrder a.pids a.deferred_replaced_pids
          (Ascending-Distinct ltb-StrictOrder a.pids v.pids)
          (Ascending-Distinct ltb-StrictOrder a.deferred_replaced_pids v.deferred) v.covered
