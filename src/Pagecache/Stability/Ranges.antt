-- ===== src/Pagecache/Stability/Ranges.antt =====
-- The stable lsn is the end of what has been fsynced without a gap (src/pagecache/iobuf.rs).
use sled.Prelude.{
  ◌≡◌, refl, ◌∙◌, arith, Bool, true, false, List, [], ◌∷◌, All, ◌||◌, ◌&&◌, inl, inr, Bool-cases,
}
use sled.Prelude.Int.{ℤ, pos, negsuc, ltb_ℤ, leb_ℤ, add_ℤ}
use sled.Prelude.Sorted.{same_key}
use sled.Prelude.Outcome.{ok}
use sled.Pagecache.Stability.{Interval, push_interval, place, sort, raise}

-- The ranges lie behind the lsn and behind each other.
abbrev pub Chain : ℤ → List Interval → Type 0
Chain lsn [] = Unit
Chain lsn (r ∷ ranges) = (ltb_ℤ lsn r.0 ≡ true) × ((leb_ℤ r.0 r.1 ≡ true) × Chain r.1 ranges)

-- No lsn is in the interval and in one of the ranges.
abbrev pub Apart : Interval → List Interval → Type 0
Apart i ranges = All (λ (r : Interval). (ltb_ℤ i.1 r.0 || ltb_ℤ r.1 i.0) ≡ true) ranges

abbrev pub is_in : ℤ → Interval → Bool
is_in x r = leb_ℤ r.0 x && leb_ℤ x r.1

unfoldable pub is_fsynced : ℤ → List Interval → Bool
is_fsynced x [] = false
is_fsynced x (r ∷ ranges) = is_in x r || is_fsynced x ranges

place-Chain :
    (i : Interval) (ranges : List Interval) (lsn : ℤ)
    → ltb_ℤ lsn i.0 ≡ true
    → leb_ℤ i.0 i.1 ≡ true
    → Apart i ranges
    → Chain lsn ranges
    → Chain lsn (place i ranges)
unfolding place
place-Chain i [] lsn a b c d = (a, (b, tt))
place-Chain i (r ∷ ranges) lsn a b c d =
    ground (arith, a, b, c.0, d.0, d.1.0, d.1.1, place-Chain i ranges r.1)

place-is_fsynced :
    (i : Interval) (ranges : List Interval) (x : ℤ)
    → is_fsynced x (place i ranges) ≡ (is_in x i || is_fsynced x ranges)
unfolding place is_fsynced
place-is_fsynced i [] x = refl
place-is_fsynced i (r ∷ ranges) x = ground (arith, place-is_fsynced i ranges x)

sort-Chain : (ranges : List Interval) (lsn : ℤ) → Chain lsn ranges → sort ranges ≡ ranges
unfolding sort place
sort-Chain [] lsn d = refl
sort-Chain (r ∷ []) lsn d = refl
sort-Chain (r ∷ q ∷ ranges) lsn d =
    rw (sort-Chain (q ∷ ranges) r.1 d.1.1) (ground (arith, d.0, d.1.0, d.1.1.0))

-- Behind the lsn that an interval ends with come the ranges that came behind the range it extends.
Chain-extend :
    (low : ℤ) (i : Interval) (ranges : List Interval)
    → same_key ltb_ℤ (add_ℤ low 1) i.0 ≡ true
    → Apart i ranges
    → Chain low ranges
    → Chain i.1 ranges
Chain-extend low i [] e c d = tt
Chain-extend (pos low) i (r ∷ ranges) e c d = (ground (arith, e, c.0, d.0, d.1.0), d.1)
Chain-extend (negsuc low) i (r ∷ ranges) e c d = (ground (arith, e, c.0, d.0, d.1.0), d.1)

-- The ranges after the sort: a chain again, with the interval's lsns added.
abbrev pub Added : Interval → List Interval → ℤ → List Interval → Type 0
Added i ranges lsn out =
    Chain lsn out × ((x : ℤ) → is_fsynced x out ≡ (is_in x i || is_fsynced x ranges))

is_in-join :
    (x a b c d : ℤ)
    → same_key ltb_ℤ (add_ℤ b 1) c ≡ true
    → leb_ℤ a b ≡ true
    → leb_ℤ c d ≡ true
    → is_in x (a, d) ≡ (is_in x (a, b) || is_in x (c, d))
is_in-join x a (pos b) c d e h k = ground (arith, e, h, k)
is_in-join x a (negsuc b) c d e h k = ground (arith, e, h, k)

or_swap : (a b : Bool) → (a || b) ≡ (b || a)
or_swap a b = ground arith

joined_le :
    (a b c d : ℤ)
    → same_key ltb_ℤ (add_ℤ b 1) c ≡ true
    → leb_ℤ a b ≡ true
    → leb_ℤ c d ≡ true
    → leb_ℤ a d ≡ true
joined_le a (pos b) c d e h k = ground (arith, e, h, k)
joined_le a (negsuc b) c d e h k = ground (arith, e, h, k)

same_key_swap : (a b : ℤ) → same_key ltb_ℤ a b ≡ true → same_key ltb_ℤ b a ≡ true
same_key_swap a b e = ground (arith, e)

-- The interval and the range next to it have become one range.
joined-Added :
    (i r j : Interval) (ranges : List Interval) (lsn : ℤ)
    → Chain lsn (j ∷ ranges)
    → ((x : ℤ) → is_in x j ≡ (is_in x i || is_in x r))
    → Added i (r ∷ ranges) lsn (sort (j ∷ ranges))
unfolding is_fsynced
joined-Added i r j ranges lsn d e = rw (sort-Chain (j ∷ ranges) lsn d) (d, λ x. ground (arith, e x))

pub sort_push :
    (i : Interval) (ranges : List Interval) (lsn : ℤ)
    → ltb_ℤ lsn i.0 ≡ true
    → leb_ℤ i.0 i.1 ≡ true
    → Apart i ranges
    → Chain lsn ranges
    → Added i ranges lsn (sort (push_interval i ranges))
unfolding sort place push_interval is_fsynced
sort_push i [] lsn a b c d = ((a, (b, tt)), λ x. refl)
sort_push i (r ∷ ranges) lsn a b c d = elim (Bool-cases (same_key ltb_ℤ r.0 (add_ℤ i.1 1))) [
  | inl low ↦
      let next : same_key ltb_ℤ (add_ℤ i.1 1) r.0 ≡ true = same_key_swap r.0 (add_ℤ i.1 1) low in
      rw low (
        joined-Added i r (i.0, r.1) ranges lsn (a, (joined_le i.0 i.1 r.0 r.1 next b d.1.0, d.1.1))
          (λ x. is_in-join x i.0 i.1 r.0 r.1 next b d.1.0))
  | inr not_low ↦ elim (Bool-cases (same_key ltb_ℤ (add_ℤ r.1 1) i.0)) [
    | inl high ↦
        rw (not_low, high)
          (joined-Added i r (r.0, i.1) ranges lsn
            (
              d.0,
              (joined_le r.0 r.1 i.0 i.1 high d.1.0 b, Chain-extend r.1 i ranges high c.1 d.1.1),
            )
            (λ x. is_in-join x r.0 r.1 i.0 i.1 high d.1.0 b ∙ or_swap (is_in x r) (is_in x i)))
    | inr apart ↦
        rw (not_low, apart, sort-Chain (r ∷ ranges) lsn d)
          (place-Chain i (r ∷ ranges) lsn a b c d, place-is_fsynced i (r ∷ ranges))
  ]
]

abbrev pub is_stable : ℤ → ℤ → List Interval → Bool
is_stable x lsn ranges = leb_ℤ x lsn || is_fsynced x ranges

Chain-above :
    (x lsn : ℤ) (ranges : List Interval)
    → leb_ℤ x lsn ≡ true
    → Chain lsn ranges
    → is_fsynced x ranges ≡ false
unfolding is_fsynced
Chain-above x lsn [] h d = refl
Chain-above x lsn (r ∷ ranges) h d =
    ground (arith, h, d.0, d.1.0, Chain-above x r.1 ranges (ground (arith, h, d.0, d.1.0)) d.1.1)

le_of_lt_le : (a b c : ℤ) → ltb_ℤ a b ≡ true → leb_ℤ b c ≡ true → leb_ℤ a c ≡ true
le_of_lt_le a b c h k = ground (arith, h, k)

lt-not_ge : (a b : ℤ) → ltb_ℤ a b ≡ true → leb_ℤ b a ≡ false
lt-not_ge a b h = ground (arith, h)

gap_below :
    (lsn : ℤ) (r : Interval)
    → same_key ltb_ℤ (add_ℤ lsn 1) r.0 ≡ false
    → ltb_ℤ lsn r.0 ≡ true
    → ltb_ℤ (add_ℤ lsn 1) r.0 ≡ true
gap_below (pos lsn) r e h = ground (arith, e, h)
gap_below (negsuc lsn) r e h = ground (arith, e, h)

-- The lsn rises over the range that starts right behind it.
join_stable :
    (x lsn : ℤ) (r : Interval) (rest : Bool)
    → same_key ltb_ℤ (add_ℤ lsn 1) r.0 ≡ true
    → leb_ℤ r.0 r.1 ≡ true
    → (leb_ℤ x r.1 || rest) ≡ (leb_ℤ x lsn || (is_in x r || rest))
join_stable x (pos lsn) r rest e h = ground (arith, e, h)
join_stable x (negsuc lsn) r rest e h = ground (arith, e, h)

raise_stop :
    (r : Interval) (ranges : List Interval) (lsn : ℤ)
    → same_key ltb_ℤ (add_ℤ lsn 1) r.0 ≡ false
    → Chain lsn (r ∷ ranges)
    → is_fsynced (add_ℤ lsn 1) (r ∷ ranges) ≡ false
unfolding is_fsynced
raise_stop r ranges lsn e d =
    let below : ltb_ℤ (add_ℤ lsn 1) r.0 ≡ true = gap_below lsn r e d.0 in
    let above : leb_ℤ (add_ℤ lsn 1) r.1 ≡ true = le_of_lt_le (add_ℤ lsn 1) r.0 r.1 below d.1.0 in
    rw (lt-not_ge (add_ℤ lsn 1) r.0 below) (Chain-above (add_ℤ lsn 1) r.1 ranges above d.1.1)

pub raise_lem :
    (ranges : List Interval) (lsn : ℤ)
    → Chain lsn ranges
    → (out : List Interval × ℤ) × (raise ranges lsn ≡ ok out)
      × Chain out.1 out.0
      × (is_fsynced (add_ℤ out.1 1) out.0 ≡ false)
      × ((x : ℤ) → is_stable x out.1 out.0 ≡ is_stable x lsn ranges)
unfolding raise is_fsynced
raise_lem [] lsn d = (([], lsn), refl, tt, refl, λ x. refl)
raise_lem (r ∷ ranges) lsn d = elim (Bool-cases (same_key ltb_ℤ (add_ℤ lsn 1) r.0)) [
  | inl next ↦
      let (out, done, chain, gap, same) = raise_lem ranges r.1 d.1.1 in
      (
        out,
        rw (next, d.0, d.1.0) done,
        chain,
        gap,
        λ x. same x ∙ join_stable x lsn r (is_fsynced x ranges) next d.1.0,
      )
  | inr stop ↦
      ((r ∷ ranges, lsn), rw (stop, d.0, d.1.0) refl, d, raise_stop r ranges lsn stop d, λ x. refl)
]
