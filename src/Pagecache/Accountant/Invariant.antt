-- ===== src/Pagecache/Accountant/Invariant.antt =====
-- The free segments of the accountant (src/pagecache/segment.rs): what `next` hands out was free, and
-- nothing else changes.
use sled.Prelude.{
  ℕ, ◌+◌, ◌*◌, ◌/◌, ◌%◌, ◌≤◌, ◌<◌, ◌≡◌, inl, inr, refl, ap, sym, subst, ◌∙◌, arith, Bool, true,
  false, List, [], ◌∷◌, length, get_or, ltb, ◌==◌, Bool-cases, if◌then◌else◌,
}
use native.Mathlib.Nat.{mod-add-div', add-mod_right}
use sled.Prelude.Int.{ℤ, pos, ltb_ℤ, leb_ℤ, rem_ℤ}
use sled.Prelude.Outcome.{ok}
use sled.Prelude.Sorted.{
  contains, remove_set, insert, same_key, Ascending, ltb-StrictOrder, contains-remove_set,
  same_key_refl,
}
use sled.Pagecache.Segment.{Segment, default, is_free, free_to_active}
use sled.Pagecache.Accountant.{
  Accountant, segment_of, bump_tip, all_shrink, pick, activate, next, below_only,
}
use sled.Pagecache.Accountant.Layout.{IsLayout, IsAccountant, activate-ok, remove_set-Ascending}

-- `next` succeeds, hands out a segment that was free, and leaves every other segment as it was.
pub record IsNext (a : Accountant) (lsn : ℤ) (a' : Accountant) (lid : ℕ) (from_tip : Bool)
    : Type 0 where
  pub layout_kept : IsAccountant a'
  pub was_free : is_free (segment_of a (lid / a.segment_size)) ≡ true
  pub handed :
      free_to_active (segment_of a (lid / a.segment_size)) lsn
      ≡ ok (segment_of a' (lid / a.segment_size))
  pub others : (i : ℕ) → (i == lid / a.segment_size) ≡ false → segment_of a' i ≡ segment_of a i
  pub unlisted : contains ltb lid a'.free ≡ false
  pub ordered : a'.ordering ≡ insert ltb_ℤ lsn lid a.ordering
  pub fresh : from_tip ≡ (length a.free == 0)

module _ (shrinks : ℕ → Bool) (a : Accountant) (layout : IsAccountant a)
    (positive : 1 ≤ a.segment_size) where
  -- The free list and the tip after a segment was picked: the segment is free, below the new tip, and
  -- no longer listed.
  pub record IsPicked (a' : Accountant) (lid : ℕ) (from_tip : Bool) : Type 0 where
    pub was_free : is_free (segment_of a (lid / a.segment_size)) ≡ true
    pub unlisted : contains ltb lid a'.free ≡ false
    pub under : (lid < a'.tip) × (a.tip ≤ a'.tip) × (lid ≤ a.tip)
    pub multiple : lid % a.segment_size ≡ 0
    pub still_free : (l : ℕ) → contains ltb l a'.free ≡ true → contains ltb l a.free ≡ true
    pub rest :
        (a'.segments ≡ a.segments)
        × (a'.segment_size ≡ a.segment_size)
        × (a'.ordering ≡ a.ordering)
        × Ascending ltb-StrictOrder a'.free
    pub tip_aligned : a'.tip % a.segment_size ≡ 0
    pub fresh : from_tip ≡ (length a.free == 0)

  abbrev bumped : Accountant
  bumped = record a {
    async_truncations = below_only a.tip a.async_truncations;
    tip = a.tip + a.segment_size;
  }

  pick_at_tip :
      a.free ≡ []
      → all_shrink shrinks a.tip a.async_truncations ≡ true
      → pick shrinks a ≡ ok (bumped, a.tip, true)
  unfolding pick bump_tip
  pick_at_tip e h = rw (e, h) refl

  pick_listed :
      (lid : ℕ) (rest : List ℕ)
      → a.free ≡ lid ∷ rest
      → pick shrinks a ≡ ok (record a { free = remove_set ltb lid a.free }, lid, false)
  unfolding pick
  pick_listed lid rest e = rw e refl

  abbrev Picks : Type 0
  Picks =
      (a' : Accountant) × (lid : ℕ) × (from_tip : Bool) × (pick shrinks a ≡ ok (a', lid, from_tip))
      × IsPicked a' lid from_tip

  tip_multiple : a.tip / a.segment_size * a.segment_size ≡ a.tip
  tip_multiple = omega (arith, mod-add-div' a.tip a.segment_size, layout.aligned)

  picks :
      (listing : List ℕ)
      → a.free ≡ listing
      → (a.free ≡ [] → all_shrink shrinks a.tip a.async_truncations ≡ true)
      → Picks
  picks [] e shrunk = (
    bumped,
    a.tip,
    true,
    pick_at_tip e (shrunk e),
    record {
      was_free = layout.beyond (a.tip / a.segment_size) (omega (arith, tip_multiple));
      unlisted = rw e (unfold contains in refl);
      under = (omega arith, omega arith, omega arith);
      multiple = layout.aligned;
      still_free = λ l h. h;
      rest = (refl, refl, refl, layout.ascending);
      tip_aligned = add-mod_right a.tip a.segment_size ∙ layout.aligned;
      fresh = rw e refl;
    },
  )
  picks (lid ∷ listing) e shrunk =
      let listed : contains ltb lid a.free ≡ true =
        rw e (unfold contains in rw (same_key_refl ltb-StrictOrder lid) refl) in
      let (under, was, multiple) = layout.free_ok lid listed in
      (
        record a { free = remove_set ltb lid a.free },
        lid,
        false,
        pick_listed lid listing e,
        record {
          was_free = was;
          unlisted =
              contains-remove_set ltb-StrictOrder lid lid a.free
              ∙ rw (same_key_refl ltb-StrictOrder lid) refl;
          under = (under, omega arith, omega arith);
          multiple = multiple;
          still_free =
              λ l h. kept lid l (sym (contains-remove_set ltb-StrictOrder lid l a.free) ∙ h);
          rest = (refl, refl, refl, remove_set-Ascending lid a.free layout.ascending);
          tip_aligned = layout.aligned;
          fresh = rw e (ground arith);
        },
      )
    where
      kept :
          (lid l : ℕ)
          → (if same_key ltb l lid then false else contains ltb l a.free) ≡ true
          → contains ltb l a.free ≡ true
      kept lid l h = ground arith

  next_runs :
      (lsn : ℤ) (a' a'' : Accountant) (lid : ℕ) (t : Bool)
      → same_key ltb_ℤ (rem_ℤ lsn a.segment_size) (pos 0) ≡ true
      → pick shrinks a ≡ ok (a', lid, t)
      → activate a' lsn lid ≡ ok a''
      → leb_ℤ (pos lid) lsn ≡ true
      → next shrinks a lsn ≡ ok (a'', lid, t)
  unfolding next
  next_runs lsn a' a'' lid t h e f g = rw (h, e, f, g) refl

  IsLayout-of :
      (a' : Accountant) (lid : ℕ) (t : Bool) (segs : List Segment) (handed : Segment)
      → IsPicked a' lid t
      → ((i : ℕ)
          → get_or segs i default ≡ (if i == lid / a.segment_size then handed else segment_of a i))
      → IsLayout a'.segment_size segs a'.free a'.tip
  IsLayout-of a' lid t segs handed picked same =
      subst (λ (z : ℕ). IsLayout z segs a'.free a'.tip) (sym picked.rest.1)
        (record {
          ascending = picked.rest.3;
          free_ok = λ l h.
              let (low, was, multiple) = layout.free_ok l (picked.still_free l h) in
              (
                omega (arith, low, picked.under.1),
                ap is_free (same (l / a.segment_size) ∙ rw (apart l multiple h) refl) ∙ was,
                multiple,
              );
          beyond = λ i h.
              ap is_free (same i ∙ rw (past i h) refl)
              ∙ layout.beyond i (omega (arith, h, picked.under.1));
          aligned = picked.tip_aligned;
        })
    where
      equal : (m n : ℕ) → (m == n) ≡ true → m ≡ n
      equal m n h = ground arith

      whole : (l : ℕ) → l % a.segment_size ≡ 0 → l / a.segment_size * a.segment_size ≡ l
      whole l h = omega (arith, mod-add-div' l a.segment_size, h)

      clash : {b : Bool} → b ≡ true → b ≡ false → ⊥
      clash p q = cc

      apart :
          (l : ℕ)
          → l % a.segment_size ≡ 0
          → contains ltb l a'.free ≡ true
          → (l / a.segment_size == lid / a.segment_size) ≡ false
      apart l m h = elim (Bool-cases (l / a.segment_size == lid / a.segment_size)) [
        | inr e ↦ e
        | inl e ↦ absurd (
            clash h (
              subst (λ (k : ℕ). contains ltb k a'.free ≡ false)
                (sym (whole lid picked.multiple)
                  ∙ ap (λ (q : ℕ). q * a.segment_size) (sym (equal _ _ e))
                  ∙ whole l m)
                picked.unlisted))
      ]

      past : (i : ℕ) → a'.tip ≤ i * a.segment_size → (i == lid / a.segment_size) ≡ false
      past i h = elim (Bool-cases (i == lid / a.segment_size)) [
        | inr e ↦ e
        | inl e ↦ absurd (
            omega (
              arith,
              h,
              picked.under.0,
              whole lid picked.multiple,
              ap (λ (q : ℕ). q * a.segment_size) (equal i (lid / a.segment_size) e),
            ))
      ]

  -- In a sound layout of segments that are not empty, an lsn at the start of a segment and not below
  -- the tip gets a segment that was free: it is made active, no other segment changes, the layout
  -- stays sound, and the segment is not listed as free afterwards; truncations that wait must
  -- succeed where no segment is listed.
  pub next-IsNext :
      (lsn : ℤ)
      → same_key ltb_ℤ (rem_ℤ lsn a.segment_size) (pos 0) ≡ true
      → leb_ℤ (pos a.tip) lsn ≡ true
      → (a.free ≡ [] → all_shrink shrinks a.tip a.async_truncations ≡ true)
      → (a' : Accountant) × (lid : ℕ) × (from_tip : Bool) × (next shrinks a lsn
          ≡ ok (a', lid, from_tip))
        × IsNext a lsn a' lid from_tip
  next-IsNext lsn start high shrunk =
      let (a', lid, t, e, picked) = picks a.free refl shrunk in
      let (segs, handed, f, g, same) =
        activate-ok a' lsn lid (moved a' lid picked.rest.0 picked.rest.1 picked.was_free) in
      let a'' : Accountant = record a' {
        segments = segs;
        ordering = insert ltb_ℤ lsn lid a'.ordering;
      } in
      let (g', same') = back a' lid segs handed picked.rest.0 picked.rest.1 g same in
      (
        a'',
        lid,
        t,
        next_runs lsn a' a'' lid t start e f (below lid lsn picked.under.2 high),
        record {
          layout_kept = IsLayout-of a' lid t segs handed picked same';
          was_free = picked.was_free;
          handed =
              g'
              ∙ ap ok
                  (sym (same' (lid / a.segment_size) ∙ rw (==-refl (lid / a.segment_size)) refl));
          others = λ i h. same' i ∙ rw h refl;
          unlisted = picked.unlisted;
          ordered = ap (insert ltb_ℤ lsn lid) picked.rest.2;
          fresh = picked.fresh;
        },
      )
    where
      ==-refl : (n : ℕ) → (n == n) ≡ true
      ==-refl n = ground arith

      below :
          (lid : ℕ) (lsn : ℤ)
          → lid ≤ a.tip
          → leb_ℤ (pos a.tip) lsn ≡ true
          → leb_ℤ (pos lid) lsn ≡ true
      below lid lsn h k = ground arith

      moved :
          (a' : Accountant) (lid : ℕ)
          → a'.segments ≡ a.segments
          → a'.segment_size ≡ a.segment_size
          → is_free (segment_of a (lid / a.segment_size)) ≡ true
          → is_free (segment_of a' (lid / a'.segment_size)) ≡ true
      moved a' lid e f h = rw (e, f) h

      back :
          (a' : Accountant) (lid : ℕ) (segs : List Segment) (handed : Segment)
          → a'.segments ≡ a.segments
          → a'.segment_size ≡ a.segment_size
          → free_to_active (segment_of a' (lid / a'.segment_size)) lsn ≡ ok handed
          → ((i : ℕ)
              → get_or segs i default
                ≡ (if i == lid / a'.segment_size then handed else segment_of a' i))
          → (free_to_active (segment_of a (lid / a.segment_size)) lsn ≡ ok handed)
            × ((i : ℕ)
                → get_or segs i default
                  ≡ (if i == lid / a.segment_size then handed else segment_of a i))
      back a' lid segs handed e f g same = (
        subst (λ s. free_to_active (get_or s (lid / a.segment_size) default) lsn ≡ ok handed) e
            (subst
              (λ (z : ℕ). free_to_active (get_or a'.segments (lid / z) default) lsn ≡ ok handed) f
              g),
        λ i.
            same i
            ∙ ap (λ (z : ℕ). if i == lid / z then handed else get_or a'.segments i default) f
            ∙ ap (λ s. if i == lid / a.segment_size then handed else get_or s i default) e,
      )
