-- ===== src/Pagecache/Snapshot/Replay.antt =====
-- The replay loop of `advance_snapshot`, page by page (src/pagecache/snapshot.rs).
use sled.Prelude.{
  ℕ, ◌≡◌, refl, sym, ap, subst, ◌∙◌, arith, Bool, true, false, Option, List, [], ◌∷◌, ◌++◌, All,
  if◌then◌else◌, ◌==◌, Bool-cases, inl, inr, ◌||◌,
}
use sled.Prelude.Int.{ℤ, ltb_ℤ}
use sled.Prelude.Outcome.{ok, err, corruption}
use sled.Pagecache.PageState.{PageState, Item, Snapshot, present, free, uninitialized, last_lsn}
use sled.Pagecache.Message.{LogKind}
use sled.Pagecache.Snapshot.{Entry, is_old, replay_entry, replay}
use sled.Pagecache.Snapshot.Pages.{page_at, is_page_kind, step_page, apply-pages, apply-corrupt}

-- One page under one entry of the log: an entry that the snapshot has already, or that is about
-- another page, leaves it.
abbrev pub step_entry : Option ℤ → ℕ → Entry → PageState → PageState
step_entry stable_lsn q e page =
    if is_old stable_lsn e
    then page
    else if q == e.pid
    then step_page e.kind (e.lsn, e.ptr, e.sz) page
    else page

-- What page `q` becomes under a log.
unfoldable pub history : Option ℤ → ℕ → List Entry → PageState → PageState
history stable_lsn q [] page = page
history stable_lsn q (e ∷ entries) page =
    history stable_lsn q entries (step_entry stable_lsn q e page)

-- The loop passes over the entry, or the snapshot takes it.
abbrev pub is_replayable : Option ℤ → Entry → Bool
is_replayable stable_lsn e = is_old stable_lsn e || is_page_kind e.kind

abbrev pub AllReplayable : Option ℤ → List Entry → Type 0
AllReplayable stable_lsn = All (λ e. is_replayable stable_lsn e ≡ true)

-- One round of the loop on an entry that it can replay.
replay_round :
    (stable_lsn : Option ℤ) (s : Snapshot) (e : Entry)
    → s.stable_lsn ≡ stable_lsn
    → is_replayable stable_lsn e ≡ true
    → (s' : Snapshot) × (replay_entry s e ≡ ok s')
      × ((q : ℕ) → page_at s'.pt q ≡ step_entry stable_lsn q e (page_at s.pt q))
      × (s'.stable_lsn ≡ stable_lsn)
unfolding replay_entry
replay_round stable_lsn s e same h = elim (Bool-cases (is_old stable_lsn e)) [
  | inl old ↦ (s, rw (ap (λ l. is_old l e) same ∙ old), λ q. rw old, same)
  | inr new ↦
      let (s', done, pages, stable, active) = apply-pages s e (ground (arith, new)) in
      (
        s',
        rw (ap (λ l. is_old l e) same ∙ new) done,
        λ q. rw new (ground (arith, pages q)),
        stable ∙ same,
      )
]

-- On any other entry the round fails.
replay_round_corrupt :
    (stable_lsn : Option ℤ) (s : Snapshot) (e : Entry)
    → s.stable_lsn ≡ stable_lsn
    → is_replayable stable_lsn e ≡ false
    → replay_entry s e ≡ err corruption
unfolding replay_entry
replay_round_corrupt stable_lsn s e same h =
    let new : is_old stable_lsn e ≡ false = ground arith in
    let wrong : is_page_kind e.kind ≡ false = ground (arith, new) in
    rw (ap (λ l. is_old l e) same ∙ new) (apply-corrupt s e wrong)

pub replay_from :
    (entries : List Entry) (stable_lsn : Option ℤ) (s : Snapshot)
    → s.stable_lsn ≡ stable_lsn
    → AllReplayable stable_lsn entries
    → (s' : Snapshot) × (replay entries s ≡ ok s')
      × ((q : ℕ) → page_at s'.pt q ≡ history stable_lsn q entries (page_at s.pt q))
      × (s'.stable_lsn ≡ stable_lsn)
unfolding replay history
replay_from [] stable_lsn s e h = (s, refl, λ q. refl, e)
replay_from (x ∷ entries) stable_lsn s e h =
    let (s1, done, pages, stable) = replay_round stable_lsn s x e h.0 in
    let (s2, rest, after, stable') = replay_from entries stable_lsn s1 stable h.1 in
    (s2, rw done rest, λ q. after q ∙ ap (history stable_lsn q entries) (pages q), stable')

-- Where every entry can be replayed, the loop succeeds, and each page becomes what its own entries
-- make of it, in the order of the log.
pub replay-history :
    (entries : List Entry) (s : Snapshot)
    → AllReplayable s.stable_lsn entries
    → (s' : Snapshot) × (replay entries s ≡ ok s')
      × ((q : ℕ) → page_at s'.pt q ≡ history s.stable_lsn q entries (page_at s.pt q))
replay-history entries s h =
    let (s', done, pages, stable) = replay_from entries s.stable_lsn s refl h in (s', done, pages)

replay_corrupt_from :
    (front : List Entry) (bad : Entry) (back : List Entry) (stable_lsn : Option ℤ) (s : Snapshot)
    → s.stable_lsn ≡ stable_lsn
    → AllReplayable stable_lsn front
    → is_replayable stable_lsn bad ≡ false
    → replay (front ++ bad ∷ back) s ≡ err corruption
unfolding replay
replay_corrupt_from [] bad back stable_lsn s e a w = rw (replay_round_corrupt stable_lsn s bad e w)
replay_corrupt_from (x ∷ front) bad back stable_lsn s e a w =
    let (s1, done, pages, stable) = replay_round stable_lsn s x e a.0 in
    rw done (replay_corrupt_from front bad back stable_lsn s1 stable a.1 w)

-- An entry of another kind, newer than the snapshot, stops the loop with corruption, wherever it
-- stands behind entries that can be replayed.
pub replay_corrupt :
    (front : List Entry) (bad : Entry) (back : List Entry) (s : Snapshot)
    → AllReplayable s.stable_lsn front
    → is_replayable s.stable_lsn bad ≡ false
    → replay (front ++ bad ∷ back) s ≡ err corruption
replay_corrupt front bad back s h wrong =
    replay_corrupt_from front bad back s.stable_lsn s refl h wrong

-- The lsns of the fragments rise, from the base on.
abbrev pub Ascending : ℤ → List Item → Type 0
Ascending lsn [] = Unit
Ascending lsn (f ∷ frags) = (ltb_ℤ lsn f.0 ≡ true) × Ascending f.0 frags

abbrev pub IsOrdered : PageState → Type 0
IsOrdered (present base frags) = Ascending base.0 frags
IsOrdered _ = Unit

Ascending-snoc :
    (lsn : ℤ) (frags : List Item) (item : Item)
    → Ascending lsn frags
    → ltb_ℤ (last_lsn lsn frags) item.0 ≡ true
    → Ascending lsn (frags ++ item ∷ [])
unfolding last_lsn
Ascending-snoc lsn [] item h newer = (newer, tt)
Ascending-snoc lsn (f ∷ frags) item h newer = (h.0, Ascending-snoc f.0 frags item h.1 newer)

step_page-IsOrdered :
    (kind : LogKind) (item : Item) (page : PageState)
    → IsOrdered page
    → IsOrdered (step_page kind item page)
step_page-IsOrdered LogKind.link item (present base frags) h =
    elim (Bool-cases (ltb_ℤ (last_lsn base.0 frags) item.0)) [
      | inl newer ↦ rw newer (Ascending-snoc base.0 frags item h newer)
      | inr older ↦ rw older h
    ]
step_page-IsOrdered LogKind.link item (free lsn ptr) h = tt
step_page-IsOrdered LogKind.link item uninitialized h = tt
step_page-IsOrdered LogKind.replace item page h = tt
step_page-IsOrdered LogKind.free item page h = tt
step_page-IsOrdered LogKind.skip item page h = h
step_page-IsOrdered LogKind.corrupted item page h = h

step_entry-IsOrdered :
    (stable_lsn : Option ℤ) (q : ℕ) (e : Entry) (page : PageState)
    → IsOrdered page
    → IsOrdered (step_entry stable_lsn q e page)
step_entry-IsOrdered stable_lsn q e page h = elim (Bool-cases (is_old stable_lsn e)) [
  | inl old ↦ rw old h
  | inr new ↦ rw new (elim (Bool-cases (q == e.pid)) [
    | inl own ↦ rw own (step_page-IsOrdered e.kind (e.lsn, e.ptr, e.sz) page h)
    | inr other ↦ rw other h
  ])
]

history-IsOrdered :
    (stable_lsn : Option ℤ) (q : ℕ) (entries : List Entry) (page : PageState)
    → IsOrdered page
    → IsOrdered (history stable_lsn q entries page)
unfolding history
history-IsOrdered stable_lsn q [] page h = h
history-IsOrdered stable_lsn q (e ∷ entries) page h =
    history-IsOrdered stable_lsn q entries _ (step_entry-IsOrdered stable_lsn q e page h)

-- From a snapshot whose pages hold fragments of rising lsns, the loop leaves such a snapshot,
-- whatever the lsns of the entries are.
pub replay-IsOrdered :
    (entries : List Entry) (s : Snapshot)
    → AllReplayable s.stable_lsn entries
    → ((q : ℕ) → IsOrdered (page_at s.pt q))
    → (s' : Snapshot) × (replay entries s ≡ ok s') × ((q : ℕ) → IsOrdered (page_at s'.pt q))
replay-IsOrdered entries s h ordered =
    let (s', done, pages) = replay-history entries s h in
    (
      s',
      done,
      λ q.
          subst IsOrdered (sym (pages q))
            (history-IsOrdered s.stable_lsn q entries (page_at s.pt q) (ordered q)),
    )
