-- ===== src/Pagecache/Snapshot/Pages.antt =====
-- Replaying the log is, page by page, a small state machine (src/pagecache/snapshot.rs).
use sled.Prelude.{
  ℕ, suc, ◌+◌, ◌-◌, ◌<◌, ◌≡◌, refl, sym, ap, ◌∙◌, arith, Bool, true, false, some, List, [], ◌∷◌,
  ◌++◌, append_assoc, length, length-append, length-replicate, get_elem?, get_or, set, replicate,
  get_or-set, get_or-append_default, get_elem?-get_or, replicate-suc, if◌then◌else◌, leb, ◌==◌,
  Bool-cases, inl, inr,
}
use sled.Prelude.Int.{ltb_ℤ}
use sled.Prelude.Outcome.{ok, err, corruption}
use sled.Pagecache.Message.{LogKind}
use sled.Pagecache.PageState.{
  PageState, Item, Snapshot, present, free, uninitialized, push, last_lsn,
}
use sled.Pagecache.Snapshot.{Entry, grow, pop, skip_link, apply_link, apply_kind, apply}

-- The state of a page: a page that the table does not reach is uninitialized.
abbrev pub page_at : List PageState → ℕ → PageState
page_at pt pid = get_or pt pid uninitialized

-- The kinds of entries that a snapshot takes.
abbrev pub is_page_kind : LogKind → Bool
is_page_kind LogKind.skip = false
is_page_kind LogKind.corrupted = false
is_page_kind _ = true

-- One page under one entry: a base replaces all, a link goes behind newer than the last fragment and
-- only where there is a base, and a free page keeps the entry that freed it.
abbrev pub step_page : LogKind → Item → PageState → PageState
step_page LogKind.replace item page = present item []
step_page LogKind.link item (present base frags) =
    if ltb_ℤ (last_lsn base.0 frags) item.0
    then present base (frags ++ item ∷ [])
    else present base frags
step_page LogKind.link item page = page
step_page LogKind.free item page = free item.0 item.1
step_page _ item page = page

pop-snoc :
    (front : List PageState) (page : PageState) → pop (front ++ page ∷ []) ≡ some (page, front)
unfolding pop
pop-snoc [] page = refl
pop-snoc (x ∷ []) page = refl
pop-snoc (x ∷ y ∷ front) page = rw (pop-snoc (y ∷ front) page)

-- After a skipped link the pages are as before, with the appended page gone or not.
skip_link-pages :
    (pt : List PageState) (pushed : Bool)
    → (pushed ≡ true → (front : List PageState) × (pt ≡ front ++ uninitialized ∷ []))
    → (pt' : List PageState) × (skip_link pt pushed ≡ ok pt')
      × ((q : ℕ) → page_at pt' q ≡ page_at pt q)
unfolding skip_link
skip_link-pages pt false h = (pt, refl, λ q. refl)
skip_link-pages pt true h =
    let (front, e) = h refl in
    (
      front,
      rw (e, skip_link) (rw (pop-snoc front uninitialized)),
      λ q. rw e (sym (get_or-append_default front 1 q uninitialized)),
    )

-- The pages of the new table are those of the old one but for page `pid`.
abbrev Updates : List PageState → ℕ → PageState → List PageState → Type 0
Updates pt pid page pt' = (q : ℕ) → page_at pt' q ≡ (if q == pid then page else page_at pt q)

set-Updates :
    (pt : List PageState) (pid : ℕ) (page : PageState)
    → pid < length pt
    → Updates pt pid page (set pt pid page)
set-Updates pt pid page h q = get_or-set pt pid q page uninitialized h

same-Updates :
    (pt pt' : List PageState) (pid : ℕ) (page : PageState)
    → page_at pt pid ≡ page
    → ((q : ℕ) → page_at pt' q ≡ page_at pt q)
    → Updates pt pid page pt'
same-Updates pt pt' pid page e same q = ground (arith, same q)

apply_link-pages :
    (pt : List PageState) (pushed : Bool) (pid : ℕ) (item : Item) (page : PageState)
    → pid < length pt
    → (pushed ≡ true → (front : List PageState) × (pt ≡ front ++ uninitialized ∷ []))
    → page_at pt pid ≡ page
    → (pt' : List PageState) × (apply_link pt pushed pid item.0 item.1 item.2 ≡ ok pt')
      × Updates pt pid (step_page LogKind.link item page) pt'
unfolding apply_link push
apply_link-pages pt pushed pid item (present base frags) room h e =
    elim (Bool-cases (ltb_ℤ (last_lsn base.0 frags) item.0)) [
      | inl newer ↦ (
        set pt pid (present base (frags ++ item ∷ [])),
        ground (arith, found, newer),
        rw newer (set-Updates pt pid _ room),
      )
      | inr older ↦ (
        set pt pid (present base frags),
        ground (arith, found, older),
        rw older (set-Updates pt pid _ room),
      )
    ]
  where
    found : get_elem? pt pid ≡ some (present base frags)
    found = get_elem?-get_or pt pid uninitialized room ∙ ap some e
apply_link-pages pt pushed pid item (free lsn ptr) room h e =
    let (pt', skipped, same) = skip_link-pages pt pushed h in
    (
      pt',
      ground (arith, get_elem?-get_or pt pid uninitialized room, e, skipped),
      same-Updates pt pt' pid (free lsn ptr) e same,
    )
apply_link-pages pt pushed pid item uninitialized room h e =
    let (pt', skipped, same) = skip_link-pages pt pushed h in
    (
      pt',
      ground (arith, get_elem?-get_or pt pid uninitialized room, e, skipped),
      same-Updates pt pt' pid uninitialized e same,
    )

-- The table that `grow` gives reaches the page, and shows the pages of the old one.
grow_cases :
    (pt : List PageState) (pid : ℕ)
    → (pid < length (grow pt pid).0)
      × ((q : ℕ) → page_at (grow pt pid).0 q ≡ page_at pt q)
      × ((grow pt pid).1 ≡ true
          → (front : List PageState) × ((grow pt pid).0 ≡ front ++ uninitialized ∷ []))
unfolding grow
grow_cases pt pid = elim (Bool-cases (leb (length pt) pid)) [
  | inl short ↦
      let missing : ℕ = pid - length pt in
      let count : pid + 1 - length pt ≡ suc missing = ground arith in
      rw (short, count)
        (
          omega (
            arith,
            length-append pt (replicate (suc missing) uninitialized),
            length-replicate (suc missing) uninitialized,
          ),
          λ q. get_or-append_default pt (suc missing) q uninitialized,
          λ _. (
            pt ++ replicate missing uninitialized,
            ap (λ l. pt ++ l) (replicate-suc missing uninitialized)
                ∙ sym (append_assoc pt (replicate missing uninitialized) (uninitialized ∷ [])),
          ),
        )
  | inr long ↦ rw long (ground arith, λ q. refl, λ p. cc)
]

apply_kind-pages :
    (kind : LogKind) (pt : List PageState) (pushed : Bool) (pid : ℕ) (item : Item)
    (page : PageState)
    → is_page_kind kind ≡ true
    → pid < length pt
    → (pushed ≡ true → (front : List PageState) × (pt ≡ front ++ uninitialized ∷ []))
    → page_at pt pid ≡ page
    → (pt' : List PageState) × (apply_kind kind pt pushed pid item.0 item.1 item.2 ≡ ok pt')
      × Updates pt pid (step_page kind item page) pt'
unfolding apply_kind
apply_kind-pages LogKind.replace pt pushed pid item page k room h e =
    (set pt pid (present item []), refl, set-Updates pt pid _ room)
apply_kind-pages LogKind.link pt pushed pid item page k room h e =
    apply_link-pages pt pushed pid item page room h e
apply_kind-pages LogKind.free pt pushed pid item page k room h e =
    (set pt pid (free item.0 item.1), refl, set-Updates pt pid _ room)
apply_kind-pages LogKind.skip pt pushed pid item page k room h e = cc
apply_kind-pages LogKind.corrupted pt pushed pid item page k room h e = cc

-- On the kinds that a snapshot takes `apply` succeeds, moves one page by `step_page`, and leaves
-- the other pages, the stable lsn and the active segment alone.
pub apply-pages :
    (s : Snapshot) (e : Entry)
    → is_page_kind e.kind ≡ true
    → (s' : Snapshot) × (apply s e ≡ ok s')
      × ((q : ℕ)
          → page_at s'.pt q ≡ (
              if q == e.pid
              then step_page e.kind (e.lsn, e.ptr, e.sz) (page_at s.pt e.pid)
              else page_at s.pt q))
      × (s'.stable_lsn ≡ s.stable_lsn)
      × (s'.active_segment ≡ s.active_segment)
unfolding apply
apply-pages s e h =
    let (room, same, appended) = grow_cases s.pt e.pid in
    let (pt', done, pages) =
      apply_kind-pages e.kind (grow s.pt e.pid).0 (grow s.pt e.pid).1 e.pid (e.lsn, e.ptr, e.sz)
        (page_at s.pt e.pid) h room appended (same e.pid) in
    (record s { pt = pt' }, rw done, λ q. ground (arith, pages q, same q), refl, refl)

-- On the other kinds it reports corruption.
pub apply-corrupt :
    (s : Snapshot) (e : Entry) → is_page_kind e.kind ≡ false → apply s e ≡ err corruption
unfolding apply apply_kind
apply-corrupt s e h = ground arith
