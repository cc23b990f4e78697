-- ===== src/Tests/Segments.antt =====
-- Runs of the segment accountant of src/pagecache/segment.rs.
use sled.Prelude.{
  ℕ, zero, suc, ◌*◌, ◌/◌, ◌%◌, ◌≤◌, ◌<◌, ◌≡◌, refl, subst, sym, arith, Bool, true, false, none,
  some, [], ◌∷◌, get_or, ltb,
}
use sled.Prelude.Int.{pos, negsuc}
use sled.Prelude.Outcome.{ok}
use sled.Prelude.Sorted.{contains}
use sled.Pagecache.Segment.{Inactive, inactive, free, default, is_free}
use sled.Pagecache.Accountant.{Accountant, next}
use sled.Pagecache.Accountant.Free.{free_segment}
use sled.Pagecache.Accountant.Invariant.{IsNext, next-IsNext}
use sled.Pagecache.Accountant.Layout.{IsAccountant}
use sled.Pagecache.Accountant.Shrink.{IsFreed, free_segment-IsFreed}
use sled.Pagecache.Accountant.Cut.{Waits}

abbrev written : Inactive
written = record {
  lsn = pos 0;
  rss = 900;
  pids = 1 ∷ 2 ∷ [];
  max_pids = 2;
  replaced_pids = 0;
  latest_replacement_lsn = pos 0;
}

-- Three blocks: one with pages, one that is free, and one that can be freed.
abbrev three : Accountant
three = record {
  segment_size = 1000;
  segments = inactive written ∷ free none ∷ free (some (pos 2000)) ∷ [];
  free = 1000 ∷ [];
  tip = 3000;
  max_stabilized_lsn = negsuc 0;
  segment_cleaner = [];
  ordering = (pos 0, 0) ∷ (pos 2000, 2000) ∷ [];
  async_truncations = [];
  heap_frees = [];
}

only_listed : (l : ℕ) → contains ltb l three.free ≡ true → l ≡ 1000
unfolding contains
only_listed l h = ground (arith, h)

three-IsAccountant : IsAccountant three
three-IsAccountant = record {
  ascending = (tt, tt);
  free_ok = λ l h.
      subst
        (λ (k : ℕ).
          (k < 3000) × (is_free (get_or three.segments (k / 1000) default) ≡ true) × (k % 1000 ≡ 0))
        (sym (only_listed l h)) (omega arith, (unfold is_free in refl), refl);
  beyond = past;
  aligned = refl;
}
  where
    past : (i : ℕ) → 3000 ≤ i * 1000 → is_free (get_or three.segments i default) ≡ true
    past zero h = absurd (omega arith)
    past (suc zero) h = absurd (omega arith)
    past (suc (suc zero)) h = absurd (omega arith)
    past (suc (suc (suc i))) h = unfold is_free in refl

three-Waits : Waits three
unfolding contains
three-Waits t h = absurd (false_true h)
  where
    false_true : false ≡ true → ⊥
    false_true h = cc

next_example :
    (a' : Accountant) × (lid : ℕ) × (from_tip : Bool) × (next (λ at. true) three (pos 4000)
      ≡ ok (a', lid, from_tip))
    × IsNext three (pos 4000) a' lid from_tip
next_example =
    next-IsNext (λ at. true) three three-IsAccountant (omega arith) (pos 4000) refl refl
      (λ e. unfold_listed e)
  where
    unfold_listed : {A : Type 0} → three.free ≡ [] → A
    unfold_listed e = cc

unlisted : contains ltb 2000 three.free ≡ false
unfolding contains
unlisted = refl

freed_before : is_free (get_or three.segments 2 default) ≡ true
unfolding is_free
freed_before = refl

free_segment_example : (a' : Accountant) × (free_segment three 2000 ≡ ok a') × IsFreed three 2000 a'
free_segment_example =
    free_segment-IsFreed three 2000 three-IsAccountant three-Waits (omega arith) (omega arith) refl
      freed_before unlisted
