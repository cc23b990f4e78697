-- ===== src/Pagecache/Heap/Slots.antt =====
-- A slab never hands out a slot that is in use (src/pagecache/heap.rs).
use sled.Prelude.{
  ℕ, ◌+◌, ◌^◌, ◌≤◌, ◌<◌, ◌≡◌, ◌≢◌, arith, Bool, true, false, List, [], ◌∷◌, All, ltb, Bool-cases,
  inl, inr, if◌then◌else◌, ◌==◌,
}
use sled.Pagecache.Heap.{Slab, take_slot, reserve_slot, free_slot}

-- Which slots are in use, as the callers see it.
abbrev pub Usage : Type 0
Usage = ℕ → Bool

abbrev pub mark : Usage → ℕ → Bool → Usage
mark used idx b = λ i. if i == idx then b else used i

abbrev pub Distinct : List ℕ → Type 0
Distinct [] = Unit
Distinct (x ∷ xs) = All (λ y. y ≢ x) xs × Distinct xs

-- The free slots are distinct, lie below the tip and are not in use; what is in use lies below the
-- tip too.
pub record IsSound (used : Usage) (s : Slab) : Type 0 where
  pub free_below : All (λ i. i < s.tip) s.free
  pub free_unused : All (λ i. used i ≡ false) s.free
  pub free_distinct : Distinct s.free
  pub used_below : (i : ℕ) → used i ≡ true → i < s.tip

-- The callers reserve slots while the tip has not reached the last u32, and free what is in use.
pub data Step : Usage → Slab → Usage → Slab → Type 0 where
  reserve :
      (used : Usage) (s : Slab)
      → s.tip + 1 < 2 ^ 32
      → Step used s (mark used (reserve_slot s).0 true) (reserve_slot s).2
  release :
      (used : Usage) (s : Slab) (idx : ℕ)
      → used idx ≡ true
      → Step used s (mark used idx false) (free_slot s idx)

pub data Reach (used : Usage) (s : Slab) : Usage → Slab → Type 0 where
  here : Reach used s used s
  next :
      {u : Usage} {t : Slab} {u' : Usage} {t' : Slab}
      → Reach used s u t
      → Step u t u' t'
      → Reach used s u' t'

All-weaken_below : (m n : ℕ) (xs : List ℕ) → m ≤ n → All (λ i. i < m) xs → All (λ i. i < n) xs
All-weaken_below m n [] h a = tt
All-weaken_below m n (x ∷ xs) h a = (omega arith, All-weaken_below m n xs h a.1)

mark-unused :
    (used : Usage) (idx : ℕ) (xs : List ℕ)
    → All (λ y. y ≢ idx) xs
    → All (λ i. used i ≡ false) xs
    → All (λ i. mark used idx true i ≡ false) xs
mark-unused used idx [] d a = tt
mark-unused used idx (x ∷ xs) d a = (ground (arith, d.0, a.0), mark-unused used idx xs d.1 a.1)

mark_free-unused :
    (used : Usage) (idx : ℕ) (xs : List ℕ)
    → All (λ i. used i ≡ false) xs
    → All (λ i. mark used idx false i ≡ false) xs
mark_free-unused used idx [] a = tt
mark_free-unused used idx (x ∷ xs) a = (ground (arith, a.0), mark_free-unused used idx xs a.1)

unused-ne :
    (used : Usage) (idx : ℕ) (xs : List ℕ)
    → used idx ≡ true
    → All (λ i. used i ≡ false) xs
    → All (λ y. y ≢ idx) xs
unused-ne used idx [] u a = tt
unused-ne used idx (x ∷ xs) u a = (λ e. ground (arith, a.0, u, e), unused-ne used idx xs u a.1)

above_tip : (tip : ℕ) (xs : List ℕ) → All (λ i. i < tip) xs → All (λ y. y ≢ tip) xs
above_tip tip [] a = tt
above_tip tip (x ∷ xs) a = (omega arith, above_tip tip xs a.1)

-- Both ways to take a slot, from the parts of a sound slab.
take_slot-IsSound :
    (used : Usage) (slab_id tip : ℕ) (free : List ℕ)
    → tip + 1 < 2 ^ 32
    → All (λ i. i < tip) free
    → All (λ i. used i ≡ false) free
    → Distinct free
    → ((i : ℕ) → used i ≡ true → i < tip)
    → (used (take_slot slab_id tip free).0 ≡ false)
      × IsSound (mark used (take_slot slab_id tip free).0 true) (take_slot slab_id tip free).2
unfolding take_slot
take_slot-IsSound used slab_id tip (idx ∷ free) room below unused distinct lower = (
  unused.0,
  record {
    free_below = below.1;
    free_unused = mark-unused used idx free distinct.0 unused.1;
    free_distinct = distinct.1;
    used_below = λ i h. ground (arith, h, below.0, lower i);
  },
)
take_slot-IsSound used slab_id tip [] room below unused distinct lower = (
  elim (Bool-cases (used tip)) [
    | inl busy ↦ absurd (omega (arith, lower tip busy))
    | inr idle ↦ idle
  ],
  record {
    free_below = tt;
    free_unused = tt;
    free_distinct = tt;
    used_below = λ i h. ground (arith, h, lower i);
  },
)

Step-IsSound :
    {u : Usage} {s : Slab} {u' : Usage} {s' : Slab} → Step u s u' s' → IsSound u s → IsSound u' s'
unfolding reserve_slot free_slot
Step-IsSound (reserve used s room) v =
    (take_slot-IsSound used s.slab_id s.tip s.free room v.free_below v.free_unused v.free_distinct
      v.used_below).1
Step-IsSound (release used s idx busy) v = record {
  free_below = (v.used_below idx busy, v.free_below);
  free_unused = (ground arith, mark_free-unused used idx s.free v.free_unused);
  free_distinct = (unused-ne used idx s.free busy v.free_unused, v.free_distinct);
  used_below = λ i h. v.used_below i (ground (arith, h));
}

Reach-IsSound :
    {u : Usage} {s : Slab} {u' : Usage} {s' : Slab} → IsSound u s → Reach u s u' s' → IsSound u' s'
Reach-IsSound v here = v
Reach-IsSound v (next r st) = Step-IsSound st (Reach-IsSound v r)

-- After any reservations and releases from a slab that a restart has opened, with every slot below
-- its tip in use, a reservation never returns a slot that is in use.
pub reserve_slot-unused :
    (slab_id tip : ℕ) (used : Usage) (s : Slab)
    → Reach (λ i. ltb i tip) (record { slab_id = slab_id; tip = tip; free = [] }) used s
    → s.tip + 1 < 2 ^ 32
    → used (reserve_slot s).0 ≡ false
unfolding reserve_slot
reserve_slot-unused slab_id tip used s r room =
    (take_slot-IsSound used s.slab_id s.tip s.free room v.free_below v.free_unused v.free_distinct
      v.used_below).0
  where
    v : IsSound used s
    v =
        Reach-IsSound
          (record {
            free_below = tt;
            free_unused = tt;
            free_distinct = tt;
            used_below = λ i h. ground (arith, h);
          })
          r
