-- ===== src/Pagecache/Accountant/Shrink.antt =====
-- Freeing a segment, and giving free segments at the end of the file back (src/pagecache/segment.rs).
use sled.Prelude.{
  ℕ, zero, suc, ◌+◌, ◌-◌, ◌/◌, ◌%◌, ◌≤◌, ◌<◌, ◌≡◌, ◌⊎◌, inl, inr, refl, ap, sym, ◌∙◌, arith, true,
  false, not, ◌&&◌, some, List, length, get_or, get_elem?, get_elem?-get_or, ltb, lt→ltb, leb, ◌==◌,
  Bool-cases, if◌then◌else◌,
}
use sled.Prelude.Outcome.{ok}
use sled.Prelude.Sorted.{
  contains, insert_set, remove_set, same_key, Ascending-Distinct, ltb-StrictOrder,
  contains-remove_set, contains-insert_set, insert_set-Ascending, length-insert_set,
  length-remove_set,
}
use sled.Pagecache.Segment.{Segment, default, is_free}
use sled.Pagecache.Cleaner.{remove_pids}
use sled.Pagecache.Accountant.{Accountant, segment_of, segment_id}
use sled.Pagecache.Accountant.Free.{truncate, shrink, free_segment, forget_lsn}
use sled.Pagecache.Accountant.Layout.{IsLayout, IsAccountant, segment_id-grown}
use sled.Pagecache.Accountant.Cut.{
  truncates, cut-Waits, cut-IsAccountant, cut, tip_block, Waits, Shrunk,
}

-- The loop ends before its fuel does. It only gives back free segments.
pub record IsShrunk (a a' : Accountant) : Type 0 where
  pub layout_kept : IsAccountant a'
  pub waits_kept : Waits a'
  pub done : Shrunk a'
  pub lower : a'.tip ≤ a.tip
  pub segments_kept : (a'.segments ≡ a.segments) × (a'.segment_size ≡ a.segment_size)
  pub given_back :
      (l : ℕ) → contains ltb l a.free ≡ true → (contains ltb l a'.free ≡ true) ⊎ (a'.tip ≤ l)

module _ (fuel : ℕ) (a : Accountant) (more : (not (a.tip == 0) && ltb 1 (length a.free)) ≡ true)
    (block : a.segment_size ≤ a.tip) where
  fits : leb a.segment_size a.tip ≡ true
  fits = ground arith

  stop_runs : contains ltb (a.tip - a.segment_size) a.free ≡ false → shrink (suc fuel) a ≡ ok a
  unfolding shrink
  stop_runs f = rw (more, fits, f) refl

  step_runs :
      (c a' : Accountant)
      → contains ltb (a.tip - a.segment_size) a.free ≡ true
      → truncate
          (record a { free = remove_set ltb (a.tip - a.segment_size) a.free })
          (a.tip - a.segment_size)
        ≡ ok c
      → shrink fuel c ≡ ok a'
      → shrink (suc fuel) a ≡ ok a'
  unfolding shrink
  step_runs c a' f t g = rw (more, fits, f, t) g

pub shrink-IsShrunk :
    (fuel : ℕ) (a : Accountant)
    → IsAccountant a
    → Waits a
    → 1 ≤ a.segment_size
    → length a.free < fuel
    → (a' : Accountant) × (shrink fuel a ≡ ok a') × IsShrunk a a'
unfolding shrink
shrink-IsShrunk zero a layout waits positive enough = absurd (omega arith)
shrink-IsShrunk (suc fuel) a layout waits positive enough =
    elim (Bool-cases (not (a.tip == 0) && ltb 1 (length a.free))) [
      | inr e ↦ rw e (
        a,
        refl,
        record {
          layout_kept = layout;
          waits_kept = waits;
          done = inl e;
          lower = omega arith;
          segments_kept = (refl, refl);
          given_back = λ l h. inl h;
        },
      )
      | inl e ↦ elim (Bool-cases (contains ltb (a.tip - a.segment_size) a.free)) [
        | inr f ↦
            let high : 1 ≤ a.tip = ground arith in
            (
              a,
              stop_runs fuel a e (tip_block a layout waits positive high) f,
              record {
                layout_kept = layout;
                waits_kept = waits;
                done = inr f;
                lower = omega arith;
                segments_kept = (refl, refl);
                given_back = λ l h. inl h;
              },
            )
        | inl f ↦
            let high : 1 ≤ a.tip = ground arith in
            let (a', g, s) =
              shrink-IsShrunk fuel (cut a layout waits positive high)
                (cut-IsAccountant a layout waits positive high f)
                (cut-Waits a layout waits positive high f) positive
                (omega (
                  arith,
                  enough,
                  length-remove_set ltb-StrictOrder (a.tip - a.segment_size) a.free
                      (Ascending-Distinct ltb-StrictOrder a.free layout.ascending) f,
                )) in
            (
              a',
              step_runs fuel a e (tip_block a layout waits positive high)
                  (cut a layout waits positive high) a' f (truncates a layout waits positive high f)
                  g,
              record {
                layout_kept = s.layout_kept;
                waits_kept = s.waits_kept;
                done = s.done;
                lower = omega (arith, s.lower);
                segments_kept = s.segments_kept;
                given_back = λ l h. elim (Bool-cases (same_key ltb l (a.tip - a.segment_size))) [
                  | inl q ↦ inr (ground (arith, s.lower))
                  | inr q ↦ s.given_back l (
                      contains-remove_set ltb-StrictOrder (a.tip - a.segment_size) l a.free
                      ∙ rw q h)
                ];
              },
            )
      ]
    ]

-- What `free_segment` asks of a segment, and what it does.
pub record IsFreed (a : Accountant) (lid : ℕ) (a' : Accountant) : Type 0 where
  pub layout_kept : IsAccountant a'
  pub waits_kept : Waits a'
  pub done : Shrunk a'
  pub lower : a'.tip ≤ a.tip
  pub available :
      (l : ℕ)
      → (l ≡ lid) ⊎ (contains ltb l a.free ≡ true)
      → (contains ltb l a'.free ≡ true) ⊎ (a'.tip ≤ l)
  pub states_kept : (i : ℕ) → segment_of a' i ≡ segment_of a i

free_runs :
    (a a' : Accountant) (lid : ℕ) (grown : List Segment) (s : Segment)
    → segment_id (record a { segment_cleaner = remove_pids a.segment_cleaner lid }) lid ≡ (
      record a { segment_cleaner = remove_pids a.segment_cleaner lid; segments = grown },
      lid / a.segment_size,
    )
    → ltb lid a.tip ≡ true
    → get_elem? grown (lid / a.segment_size) ≡ some s
    → is_free s ≡ true
    → contains ltb lid a.free ≡ false
    → shrink (length a.free + 2) (record a {
      segment_cleaner = remove_pids a.segment_cleaner lid;
      segments = grown;
      free = insert_set ltb lid a.free;
      ordering = forget_lsn s a.ordering;
    })
      ≡ ok a'
    → free_segment a lid ≡ ok a'
unfolding free_segment
free_runs a a' lid grown s e t g f c h = rw (e, t, g, f, c) h

-- In a sound layout of segments that are not empty, where the truncations that wait lie past the
-- tip, a free segment that starts at a multiple of the segment size, is below the tip, and is not
-- listed yet can be freed: the loop that gives the end of the file back ends with nothing more to
-- give, the tip is not raised, the segment and all that were listed are listed or past the tip, no
-- segment changes, and the layout stays sound.
pub free_segment-IsFreed :
    (a : Accountant) (lid : ℕ)
    → IsAccountant a
    → Waits a
    → 1 ≤ a.segment_size
    → lid < a.tip
    → lid % a.segment_size ≡ 0
    → is_free (segment_of a (lid / a.segment_size)) ≡ true
    → contains ltb lid a.free ≡ false
    → (a' : Accountant) × (free_segment a lid ≡ ok a') × IsFreed a lid a'
free_segment-IsFreed a lid layout waits positive low multiple was unlisted =
    let (grown, e, long, same) =
      segment_id-grown (record a { segment_cleaner = remove_pids a.segment_cleaner lid }) lid in
    let b : Accountant = record a {
      segment_cleaner = remove_pids a.segment_cleaner lid;
      segments = grown;
      free = insert_set ltb lid a.free;
      ordering = forget_lsn (segment_of a (lid / a.segment_size)) a.ordering;
    } in
    let layout' : IsLayout a.segment_size grown (insert_set ltb lid a.free) a.tip = record {
      ascending = insert_set-Ascending ltb-StrictOrder lid a.free layout.ascending;
      free_ok = λ l h. elim (Bool-cases (same_key ltb l lid)) [
        | inl q ↦ listed_ok grown same l (ground arith)
        | inr q ↦
            old_ok grown same l
              (sym (contains-insert_set ltb-StrictOrder lid l a.free ∙ rw q refl) ∙ h)
      ];
      beyond = λ i h. ap is_free (same i) ∙ layout.beyond i h;
      aligned = layout.aligned;
    } in
    let (a', f, s) =
      shrink-IsShrunk (length a.free + 2) b layout' waits positive
        (omega (arith, length-insert_set ltb-StrictOrder lid a.free unlisted)) in
    (
      a',
      free_runs a a' lid grown (segment_of a (lid / a.segment_size)) e (lt→ltb lid a.tip low)
          (get_elem?-get_or grown (lid / a.segment_size) default long
            ∙ ap some (same (lid / a.segment_size)))
          was unlisted f,
      record {
        layout_kept = s.layout_kept;
        waits_kept = s.waits_kept;
        done = s.done;
        lower = s.lower;
        available =
            λ l h. s.given_back l (contains-insert_set ltb-StrictOrder lid l a.free ∙ there l h);
        states_kept = λ i. ap (λ x. get_or x i default) s.segments_kept.0 ∙ same i;
      },
    )
  where
    there :
        (l : ℕ)
        → (l ≡ lid) ⊎ (contains ltb l a.free ≡ true)
        → (if same_key ltb l lid then true else contains ltb l a.free) ≡ true
    there l h = ground arith

    listed_ok :
        (grown : List Segment)
        → ((i : ℕ) → get_or grown i default ≡ segment_of a i)
        → (l : ℕ) → l ≡ lid
        → (l < a.tip)
          × (is_free (get_or grown (l / a.segment_size) default) ≡ true)
          × (l % a.segment_size ≡ 0)
    listed_ok grown same l e = rw e (low, ap is_free (same (lid / a.segment_size)) ∙ was, multiple)

    old_ok :
        (grown : List Segment)
        → ((i : ℕ) → get_or grown i default ≡ segment_of a i)
        → (l : ℕ) → contains ltb l a.free ≡ true
        → (l < a.tip)
          × (is_free (get_or grown (l / a.segment_size) default) ≡ true)
          × (l % a.segment_size ≡ 0)
    old_ok grown same l h =
        let (b, f, m) = layout.free_ok l h in (b, ap is_free (same (l / a.segment_size)) ∙ f, m)
