-- ===== src/Pagecache/Stability/Batches.antt =====
-- A batch becomes stable as a whole (src/pagecache/iobuf.rs).
use sled.Prelude.{
  ◌≡◌, refl, ◌∙◌, arith, Bool, true, false, Option, none, some, List, [], ◌∷◌, ◌||◌, inl, inr,
  Bool-cases,
}
use sled.Prelude.Int.{ℤ, pos, negsuc, ltb_ℤ, leb_ℤ, add_ℤ, pred_ℤ}
use sled.Prelude.Outcome.{ok}
use sled.Pagecache.Stability.{
  Interval, StabilityIntervals, push_interval, sort, settle, rises, answer, mark_fsync,
}
use sled.Pagecache.Stability.Ranges.{
  Chain, Apart, is_in, is_fsynced, is_stable, sort_push, raise_lem,
}

-- The batches lie behind the lsn, if there is one, and behind each other.
abbrev pub Batches : Option ℤ → List Interval → Type 0
Batches lsn [] = Unit
Batches lsn (b ∷ batches) =
    (rises lsn b.0 ≡ true) × ((ltb_ℤ b.0 b.1 ≡ true) × Batches (some b.1) batches)

abbrev pub is_up_to : Option ℤ → ℤ → Bool
is_up_to none stable_lsn = true
is_up_to (some lsn) stable_lsn = leb_ℤ lsn stable_lsn

-- The first batch that is left is not stable as a whole.
abbrev pub Unfinished : ℤ → List Interval → Type 0
Unfinished stable_lsn [] = Unit
Unfinished stable_lsn (b ∷ batches) = ltb_ℤ stable_lsn b.1 ≡ true

rises_trans : (o : Option ℤ) (a b : ℤ) → rises o a ≡ true → ltb_ℤ a b ≡ true → rises o b ≡ true
rises_trans none a b h k = refl
rises_trans (some c) a b h k = ground (arith, h, k)

pred-lt : (a : ℤ) → ltb_ℤ (pred_ℤ a) a ≡ true
pred-lt (pos n) = ground arith
pred-lt (negsuc n) = ground arith

pred-le : (a b : ℤ) → leb_ℤ a b ≡ true → leb_ℤ (pred_ℤ a) b ≡ true
pred-le (pos n) b h = ground (arith, h)
pred-le (negsuc n) b h = ground (arith, h)

settle_lem :
    (batches : List Interval) (stable_lsn : ℤ) (lsn : Option ℤ)
    → Batches lsn batches
    → is_up_to lsn stable_lsn ≡ true
    → (out : List Interval × Option ℤ) × (settle batches stable_lsn lsn ≡ ok out)
      × Batches out.1 out.0
      × (is_up_to out.1 stable_lsn ≡ true)
      × Unfinished stable_lsn out.0
unfolding settle
settle_lem [] stable_lsn lsn v h = (([], lsn), refl, tt, h, tt)
settle_lem (b ∷ batches) stable_lsn lsn v h = elim (Bool-cases (leb_ℤ b.1 stable_lsn)) [
  | inl whole ↦
      let (out, done, left, upto, unfinished) =
        settle_lem batches stable_lsn (some b.1) v.1.1 whole in
      (out, rw (v.1.0, whole, rises_trans lsn b.0 b.1 v.0 v.1.0) done, left, upto, unfinished)
  | inr part ↦ elim (Bool-cases (leb_ℤ b.0 stable_lsn)) [
    | inl begun ↦ (
      (b ∷ batches, some (pred_ℤ b.0)),
      rw (v.1.0, part, begun) refl,
      (pred-lt b.0, v.1),
      pred-le b.0 stable_lsn begun,
      ground (arith, part),
    )
    | inr later ↦ ((b ∷ batches, lsn), rw (v.1.0, part, later) refl, v, h, ground (arith, part))
  ]
]

answer-Batches :
    (batches : List Interval) (stable_lsn : ℤ) (lsn : Option ℤ)
    → Batches lsn batches
    → is_up_to lsn stable_lsn ≡ true
    → Batches (answer batches stable_lsn lsn) batches
      × (is_up_to (answer batches stable_lsn lsn) stable_lsn ≡ true)
answer-Batches [] stable_lsn lsn v h = (tt, ground arith)
answer-Batches (b ∷ batches) stable_lsn lsn v h = (v, h)

pub record IsIntervals (s : StabilityIntervals) : Type 0 where
  pub ranges : Chain s.stable_lsn s.fsynced_ranges
  pub batches : Batches none s.batches

weaken : (lsn : Option ℤ) (batches : List Interval) → Batches lsn batches → Batches none batches
weaken lsn [] v = tt
weaken lsn (b ∷ batches) v = (refl, v.1)

-- An interval behind the stable lsn, and apart from what has been fsynced, is taken up. Stable or
-- fsynced is then what was so before, and the interval, and the stable lsn is moved up to the first
-- gap. The answer, if there is one, is not above the stable lsn and below every batch that is left,
-- the first of which is not stable as a whole.
pub mark_fsync-IsIntervals :
    (s : StabilityIntervals) (i : Interval)
    → IsIntervals s
    → ltb_ℤ s.stable_lsn i.0 ≡ true
    → leb_ℤ i.0 i.1 ≡ true
    → Apart i s.fsynced_ranges
    → (lsn : Option ℤ) × (s' : StabilityIntervals) × (mark_fsync s i ≡ ok (lsn, s'))
      × IsIntervals s'
      × (is_fsynced (add_ℤ s'.stable_lsn 1) s'.fsynced_ranges ≡ false)
      × ((x : ℤ)
          → is_stable x s'.stable_lsn s'.fsynced_ranges
            ≡ (is_in x i || is_stable x s.stable_lsn s.fsynced_ranges))
      × Batches lsn s'.batches
      × (is_up_to lsn s'.stable_lsn ≡ true)
      × Unfinished s'.stable_lsn s'.batches
unfolding mark_fsync
mark_fsync-IsIntervals s i v behind proper apart =
    let (sorted, added) = sort_push i s.fsynced_ranges s.stable_lsn behind proper apart v.ranges in
    let (raised, done, chain, gap, same) =
      raise_lem (sort (push_interval i s.fsynced_ranges)) s.stable_lsn sorted in
    let (settled, settles, left, upto, unfinished) =
      settle_lem s.batches raised.1 none v.batches refl in
    (
      answer settled.0 raised.1 settled.1,
      record { fsynced_ranges = raised.0; batches = settled.0; stable_lsn = raised.1 },
      rw (done, settles) refl,
      record { ranges = chain; batches = weaken settled.1 settled.0 left },
      gap,
      λ x.
          same x
          ∙ or_left (leb_ℤ x s.stable_lsn) _ (is_in x i) (is_fsynced x s.fsynced_ranges) (added x),
      (answer-Batches settled.0 raised.1 settled.1 left upto).0,
      (answer-Batches settled.0 raised.1 settled.1 left upto).1,
      unfinished,
    )
  where
    or_left : (a b c d : Bool) → b ≡ (c || d) → (a || b) ≡ (c || (a || d))
    or_left a b c d e = ground (arith, e)
