-- ===== src/Pagecache/Segment/Counts.antt =====
-- What an active segment records of its pages (src/pagecache/segment.rs).
use sled.Prelude.{
  ℕ, ◌+◌, ◌≡◌, arith, Bool, true, false, Option, List, [], ◌∷◌, ltb, not, ◌&&◌, ◌||◌, if◌then◌else◌,
  Bool-cases, inl, inr, refl,
}
use sled.Prelude.Int.{ℤ, pos, leb_ℤ, ltb_ℤ}
use sled.Prelude.Outcome.{Outcome, ok, panic, ◌>>=◌}
use sled.Prelude.Sorted.{
  insert_set, same_key, contains, Ascending, ltb-StrictOrder, contains-insert_set,
  insert_set-Ascending,
}
use sled.Pagecache.Segment.{
  Segment, Active, active, free, free_to_active, insert_pid, remove_pid, later,
}

abbrev pub IsAscending : List ℕ → Type 0
IsAscending s = Ascending ltb-StrictOrder s

-- The replaced pages are among those that were written.
pub record IsActive (a : Active) : Type 0 where
  pub pids : IsAscending a.pids
  pub deferred : IsAscending a.deferred_replaced_pids
  pub covered :
      (j : ℕ) → contains ltb j a.deferred_replaced_pids ≡ true → contains ltb j a.pids ≡ true

-- What happens to a page of a segment: it is written there, or replaced by a newer one; with the lsn
-- and the size.
pub data Event : Type 0 where
  page_written page_replaced : (pid : ℕ) → ℤ → (size : ℕ) → Event

unfoldable pub happen : Event → Segment → Outcome Segment
unfolding insert_pid remove_pid
happen (page_written pid lsn size) s = insert_pid s pid lsn size
happen (page_replaced pid lsn size) s = remove_pid s pid lsn size

unfoldable pub run : List Event → Segment → Outcome Segment
run [] s = ok s
run (e ∷ es) s = happen e s >>= λ s'. run es s'

-- The segment takes pages at its own lsn, and replacements at its own lsn or a later one.
abbrev pub is_taken : ℤ → Event → Bool
is_taken own (page_written pid lsn size) = same_key ltb_ℤ lsn own
is_taken own (page_replaced pid lsn size) = leb_ℤ own lsn

abbrev pub all_taken : ℤ → List Event → Bool
all_taken own [] = true
all_taken own (e ∷ es) = is_taken own e && all_taken own es

-- The sums and sets that a history makes, read off its events.
abbrev pub was_written : ℕ → List Event → Bool
was_written j [] = false
was_written j (page_written pid lsn size ∷ es) = same_key ltb j pid || was_written j es
was_written j (page_replaced pid lsn size ∷ es) = was_written j es

abbrev pub was_replaced : ℤ → ℕ → List Event → Bool
was_replaced own j [] = false
was_replaced own j (page_written pid lsn size ∷ es) = was_replaced own j es
was_replaced own j (page_replaced pid lsn size ∷ es) =
    (not (same_key ltb_ℤ lsn own) && same_key ltb j pid) || was_replaced own j es

abbrev pub bytes_written : List Event → ℕ
bytes_written [] = 0
bytes_written (page_written pid lsn size ∷ es) = size + bytes_written es
bytes_written (page_replaced pid lsn size ∷ es) = bytes_written es

abbrev pub bytes_replaced : List Event → ℕ
bytes_replaced [] = 0
bytes_replaced (page_written pid lsn size ∷ es) = bytes_replaced es
bytes_replaced (page_replaced pid lsn size ∷ es) = size + bytes_replaced es

abbrev pub last_replacement : List Event → ℤ → ℤ
last_replacement [] latest = latest
last_replacement (page_written pid lsn size ∷ es) latest = last_replacement es latest
last_replacement (page_replaced pid lsn size ∷ es) latest = last_replacement es (later lsn latest)

-- What `after` records on top of `a`.
pub record Recorded (es : List Event) (a after : Active) : Type 0 where
  pub own : after.lsn ≡ a.lsn
  pub written : (j : ℕ) → contains ltb j after.pids ≡ (was_written j es || contains ltb j a.pids)
  pub replaced :
      (j : ℕ)
      → contains ltb j after.deferred_replaced_pids
        ≡ (was_replaced a.lsn j es || contains ltb j a.deferred_replaced_pids)
  pub size : after.rss ≡ bytes_written es + a.rss
  pub replaced_size : after.deferred_replaced_rss ≡ bytes_replaced es + a.deferred_replaced_rss
  pub latest : after.latest_replacement_lsn ≡ last_replacement es a.latest_replacement_lsn
  pub sound : IsAscending after.pids × IsAscending after.deferred_replaced_pids

taken : Event → Active → Active
taken (page_written pid lsn size) a = record a {
  pids = insert_set ltb pid a.pids;
  rss = a.rss + size;
}
taken (page_replaced pid lsn size) a = record a {
  deferred_replaced_pids =
      if same_key ltb_ℤ lsn a.lsn
      then a.deferred_replaced_pids
      else insert_set ltb pid a.deferred_replaced_pids;
  deferred_replaced_rss = a.deferred_replaced_rss + size;
  latest_replacement_lsn = later lsn a.latest_replacement_lsn;
}

happen_lem :
    (e : Event) (a : Active)
    → happen e (active a) ≡ (if is_taken a.lsn e then ok (active (taken e a)) else panic)
unfolding happen taken insert_pid remove_pid
happen_lem (page_written pid lsn size) a = elim (Bool-cases (same_key ltb_ℤ lsn a.lsn)) [
  | inl h ↦ rw h refl
  | inr h ↦ rw h refl
]
happen_lem (page_replaced pid lsn size) a = elim (Bool-cases (leb_ℤ a.lsn lsn)) [
  | inl h ↦ rw h refl
  | inr h ↦ rw h refl
]

-- One event more in front.
Recorded-cons :
    (e : Event) (es : List Event) (a after : Active)
    → Recorded es (taken e a) after
    → Recorded (e ∷ es) a after
unfolding taken
Recorded-cons (page_written pid lsn size) es a after r = record {
  own = r.own;
  written = λ j. ground (arith, r.written j, contains-insert_set ltb-StrictOrder pid j a.pids);
  replaced = r.replaced;
  size = omega (arith, r.size);
  replaced_size = r.replaced_size;
  latest = r.latest;
  sound = r.sound;
}
Recorded-cons (page_replaced pid lsn size) es a after r = record {
  own = r.own;
  written = r.written;
  replaced = λ j.
      ground
        (arith, r.replaced j, contains-insert_set ltb-StrictOrder pid j a.deferred_replaced_pids);
  size = r.size;
  replaced_size = omega (arith, r.replaced_size);
  latest = r.latest;
  sound = r.sound;
}

taken-Ascending :
    (e : Event) (a : Active)
    → IsAscending a.pids × IsAscending a.deferred_replaced_pids
    → IsAscending (taken e a).pids × IsAscending (taken e a).deferred_replaced_pids
unfolding taken
taken-Ascending (page_written pid lsn size) a h =
    (insert_set-Ascending ltb-StrictOrder pid a.pids h.0, h.1)
taken-Ascending (page_replaced pid lsn size) a h = (
  h.0,
  elim (Bool-cases (same_key ltb_ℤ lsn a.lsn)) [
    | inl q ↦ rw q h.1
    | inr q ↦ rw q (insert_set-Ascending ltb-StrictOrder pid a.deferred_replaced_pids h.1)
  ],
)

run_from :
    (es : List Event) (a : Active)
    → IsAscending a.pids × IsAscending a.deferred_replaced_pids
    → (after : Active) × (run es (active a)
        ≡ (if all_taken a.lsn es then ok (active after) else panic))
      × Recorded es a after
unfolding run taken
run_from [] a h = (
  a,
  refl,
  record {
    own = refl;
    written = λ j. refl;
    replaced = λ j. refl;
    size = omega arith;
    replaced_size = omega arith;
    latest = refl;
    sound = h;
  },
)
run_from (e ∷ es) a h =
    let (after, f, r) = run_from es (taken e a) (taken-Ascending e a h) in
    (after, rw (happen_lem e a) (step e after f), Recorded-cons e es a after r)
  where
    step :
        (e : Event) (after : Active)
        → run es (active (taken e a))
          ≡ (if all_taken (taken e a).lsn es then ok (active after) else panic)
        → ((if is_taken a.lsn e then ok (active (taken e a)) else panic) >>= λ s. run es s)
          ≡ (if is_taken a.lsn e && all_taken a.lsn es then ok (active after) else panic)
    step (page_written pid lsn size) after f = elim (Bool-cases (same_key ltb_ℤ lsn a.lsn)) [
      | inl h ↦ rw h f
      | inr h ↦ rw h refl
    ]
    step (page_replaced pid lsn size) after f = elim (Bool-cases (leb_ℤ a.lsn lsn)) [
      | inl h ↦ rw h f
      | inr h ↦ rw h refl
    ]

-- The record of a segment that was just handed out.
abbrev pub handed_out : ℤ → Active
handed_out own = record {
  lsn = own;
  rss = 0;
  deferred_replaced_rss = 0;
  deferred_replaced_pids = [];
  pids = [];
  latest_replacement_lsn = pos 0;
  can_free_upon_deactivation = [];
  deferred_heap_removals = [];
}

-- A free segment is made active and sees a history of written and replaced pages: it panics exactly
-- where a page is written under another lsn than its own or replaced before it. Else its pages are those
-- written, the deferred replacements are the pages replaced at a later lsn, both sizes are the sums of
-- the history, the latest replacement is the greatest lsn of one or zero, and both sets stay sound.
pub run-Recorded :
    (previous_lsn : Option ℤ) (own : ℤ) (es : List Event)
    → (after : Active) × ((free_to_active (free previous_lsn) own >>= run es)
        ≡ (if all_taken own es then ok (active after) else panic))
      × Recorded es (handed_out own) after
unfolding free_to_active
run-Recorded previous_lsn own es = run_from es (handed_out own) (tt, tt)
