-- ===== src/Pagecache/Accountant/Layout.antt =====
-- The layout of the segments (src/pagecache/segment.rs): what is free and what lies past the tip.
use sled.Prelude.{
  ℕ, ◌+◌, ◌-◌, ◌*◌, ◌/◌, ◌%◌, ◌≤◌, ◌<◌, ◌≡◌, inl, inr, refl, ap, ◌∙◌, arith, true, some, List, [],
  ◌∷◌, ◌++◌, length, length-append, length-replicate, get_elem?, get_or, set, get_or-set,
  get_or-append_default, get_elem?-get_or, replicate, All, ltb, leb, ◌==◌, Bool-cases,
  if◌then◌else◌,
}
use sled.Prelude.Int.{ℤ, ltb_ℤ}
use sled.Prelude.Outcome.{ok}
use sled.Prelude.Sorted.{contains, remove_set, insert, same_key, Ascending, ltb-StrictOrder}
use sled.Pagecache.Segment.{Segment, free, default, is_free, free_to_active}
use sled.Pagecache.Accountant.{Accountant, segment_of, segment_id, activate}

-- Free segments lie below the tip, and so does every segment in use.
pub record IsLayout (size : ℕ) (segments : List Segment) (free : List ℕ) (tip : ℕ) : Type 0 where
  pub ascending : Ascending ltb-StrictOrder free
  pub free_ok :
      (lid : ℕ)
      → contains ltb lid free ≡ true
      → (lid < tip) × (is_free (get_or segments (lid / size) default) ≡ true) × (lid % size ≡ 0)
  pub beyond : (i : ℕ) → tip ≤ i * size → is_free (get_or segments i default) ≡ true
  pub aligned : tip % size ≡ 0

abbrev pub IsAccountant : Accountant → Type 0
IsAccountant a = IsLayout a.segment_size a.segments a.free a.tip

le→leb : (a b : ℕ) → a ≤ b → leb a b ≡ true
le→leb a b h = ground arith

-- Growing the list of segments does not change what it says of any.
pub segment_id-grown :
    (a : Accountant) (lid : ℕ)
    → (segments : List Segment) × (segment_id a lid
        ≡ (record a { segments = segments }, lid / a.segment_size))
      × (lid / a.segment_size < length segments)
      × ((i : ℕ) → get_or segments i default ≡ segment_of a i)
unfolding segment_id
segment_id-grown a lid = elim (Bool-cases (ltb (length a.segments) (lid / a.segment_size + 1))) [
  | inl t ↦ rw t (
    a.segments ++ replicate (lid / a.segment_size + 1 - length a.segments) default,
    refl,
    omega (
      arith,
      short t,
      length-append a.segments (replicate (lid / a.segment_size + 1 - length a.segments) default),
      length-replicate (lid / a.segment_size + 1 - length a.segments) default,
    ),
    λ i. get_or-append_default a.segments (lid / a.segment_size + 1 - length a.segments) i default,
  )
  | inr t ↦ rw t (a.segments, refl, ground arith, λ i. refl)
]
  where
    short :
        ltb (length a.segments) (lid / a.segment_size + 1) ≡ true
        → length a.segments < lid / a.segment_size + 1
    short t = ground arith

-- The state of a segment that was handed out.
free_to_active-ok :
    (s : Segment) (lsn : ℤ) → is_free s ≡ true → (s' : Segment) × (free_to_active s lsn ≡ ok s')
unfolding is_free free_to_active
free_to_active-ok (free p) lsn h = (_, refl)
free_to_active-ok (Segment.active x) lsn h = cc
free_to_active-ok (Segment.inactive x) lsn h = cc
free_to_active-ok (Segment.draining x) lsn h = cc

activate_runs :
    (a : Accountant) (lsn : ℤ) (lid : ℕ) (grown : List Segment) (s s' : Segment)
    → segment_id a lid ≡ (record a { segments = grown }, lid / a.segment_size)
    → get_elem? grown (lid / a.segment_size) ≡ some s
    → free_to_active s lsn ≡ ok s'
    → activate a lsn lid
      ≡ ok (record a {
        segments = set grown (lid / a.segment_size) s';
        ordering = insert ltb_ℤ lsn lid a.ordering;
      })
unfolding activate
activate_runs a lsn lid grown s s' e f g = rw (e, f, g) refl

-- A free segment is handed out, and no other changes.
pub activate-ok :
    (a : Accountant) (lsn : ℤ) (lid : ℕ)
    → is_free (segment_of a (lid / a.segment_size)) ≡ true
    → (segments : List Segment) × (handed : Segment) × (activate a lsn lid
        ≡ ok (record a { segments = segments; ordering = insert ltb_ℤ lsn lid a.ordering }))
      × (free_to_active (segment_of a (lid / a.segment_size)) lsn ≡ ok handed)
      × ((i : ℕ)
          → get_or segments i default
            ≡ (if i == lid / a.segment_size then handed else segment_of a i))
activate-ok a lsn lid h =
    let (grown, e, long, same) = segment_id-grown a lid in
    let (handed, f) = free_to_active-ok (segment_of a (lid / a.segment_size)) lsn h in
    (
      set grown (lid / a.segment_size) handed,
      handed,
      activate_runs a lsn lid grown (segment_of a (lid / a.segment_size)) handed e
          (get_elem?-get_or grown (lid / a.segment_size) default long
            ∙ ap some (same (lid / a.segment_size)))
          f,
      f,
      λ i.
          get_or-set grown (lid / a.segment_size) i handed default long
          ∙ ap (λ s. if i == lid / a.segment_size then handed else s) (same i),
    )

remove_set-above :
    (i k : ℕ) (s : List ℕ)
    → All (λ j. ltb i j ≡ true) s
    → All (λ j. ltb i j ≡ true) (remove_set ltb k s)
unfolding remove_set
remove_set-above i k [] h = tt
remove_set-above i k (j ∷ s) h = elim (Bool-cases (same_key ltb k j)) [
  | inl e ↦ rw e (remove_set-above i k s h.1)
  | inr e ↦ rw e (h.0, remove_set-above i k s h.1)
]

pub remove_set-Ascending :
    (k : ℕ) (s : List ℕ)
    → Ascending ltb-StrictOrder s
    → Ascending ltb-StrictOrder (remove_set ltb k s)
unfolding remove_set
remove_set-Ascending k [] h = tt
remove_set-Ascending k (j ∷ s) h = elim (Bool-cases (same_key ltb k j)) [
  | inl e ↦ rw e (remove_set-Ascending k s h.1)
  | inr e ↦ rw e (remove_set-above j k s h.0, remove_set-Ascending k s h.1)
]
