-- ===== src/Pagecache/Tip/Coords.antt =====
-- The log goes on where recovery stopped reading (src/pagecache/snapshot.rs).
use native.Mathlib.Nat.{mul-div_cancel, mul-mod_left, lt-div-mul-add, mod-le, mod-lt, mod-add-div'}
use sled.Prelude.{
  ℕ, suc, ◌+◌, ◌*◌, ◌/◌, ◌%◌, ◌^◌, ◌≤◌, ◌<◌, ◌≡◌, refl, subst, ◌&&◌, arith, Option, none, some,
  true, false, List, [], ◌∷◌, All, if◌then◌else◌, leb, Bool-cases, inl, inr,
}
use sled.Prelude.Int.{ℤ, pos, wrap_i64, wrap_i64_small, ltb_ℤ, leb_ℤ}
use sled.Prelude.Outcome.{ok}
use sled.Pagecache.PageState.{
  PageState, Snapshot, present, free, uninitialized, forget_page, forget_pages,
  filter_inner_heap_ids,
}
use sled.Pagecache.Snapshot.{lsn_or}
use sled.Pagecache.Tip.{
  is_none, seg_header_len, max_msg_header_len, recovered_coords, coords, tip, progress_to,
  choose_tip,
}

-- The page has been seen in the log.
abbrev pub IsSeen : PageState → Type 0
IsSeen uninitialized = ⊥
IsSeen _ = Unit

forget_page_some : (p : PageState) → IsSeen p → (p' : PageState) × (forget_page p ≡ ok p')
unfolding forget_page
forget_page_some (present base frags) v = (_, refl)
forget_page_some (free lsn ptr) v = (_, refl)
forget_page_some uninitialized v = absurd v

forget_pages_some :
    (pt : List PageState) → All IsSeen pt → (pt' : List PageState) × (forget_pages pt ≡ ok pt')
unfolding forget_pages
forget_pages_some [] v = ([], refl)
forget_pages_some (p ∷ pt) v =
    let (p', e) = forget_page_some p v.0 in
    let (pt', es) = forget_pages_some pt v.1 in (p' ∷ pt', rw (e, es) refl)

-- The start of the segment that holds an lsn is not above it.
start_below : (n k : ℕ) → n / k * k ≤ n
start_below n k = omega (arith, mod-add-div' n k)

-- The progress in a segment, where the segment has the size that a configuration may have.
progress_small :
    (n k : ℕ)
    → 0 < k
    → k ≤ 2 ^ 24
    → wrap_i64 (pos (n % k + max_msg_header_len)) ≡ pos (n % k + max_msg_header_len)
progress_small n k h small =
    wrap_i64_small (n % k + max_msg_header_len) (omega (arith, h, small, mod-lt n h))

-- Where no segment is active, an lsn at the start of a segment stays.
coords_aligned :
    (q k : ℕ)
    → 0 < k
    → q * k < 2 ^ 63
    → coords (some (pos (q * k))) none k ≡ ok (none, some (pos (q * k)))
unfolding coords
coords_aligned q k h fits =
    let whole : q * k / k ≡ q = mul-div_cancel q h in
    let rest : q * k % k ≡ 0 = mul-mod_left q k in
    let low : q < 2 ^ 63 = grind (arith, h, fits) in
    ground (arith, h, whole, rest, wrap_i64_small q low, wrap_i64_small (q * k) fits)

module _ (n base k : ℕ) (h : 0 < k) (small : k ≤ 2 ^ 24) (fits : n + k < 2 ^ 63) where
  tip_full :
      leb k (n % k + max_msg_header_len) ≡ true
      → tip (pos n) (some base) k ≡ (pos (n / k * k + k), none)
  unfolding tip
  tip_full full =
      rw
        (
          progress_small n k h small,
          wrap_i64_small (n / k * k + k) (omega (arith, start_below n k, fits)),
        )
        (ground (arith, full))

  tip_room :
      leb k (n % k + max_msg_header_len) ≡ false → tip (pos n) (some base) k ≡ (pos n, some base)
  unfolding tip
  tip_room room = rw (progress_small n k h small) (ground (arith, room))

  next_segment : coords (some (pos (n / k * k + k))) none k ≡ ok (none, some (pos (n / k * k + k)))
  next_segment =
      let next : suc (n / k) * k ≡ n / k * k + k = omega arith in
      subst (λ (lsn : ℕ). coords (some (pos lsn)) none k ≡ ok (none, some (pos lsn))) next
        (coords_aligned (suc (n / k)) k h (omega (arith, next, start_below n k, fits)))

  coords-tip :
      base + k ≤ 2 ^ 64
      → coords (some (tip (pos n) (some base) k).0) (tip (pos n) (some base) k).1 k ≡ (
          if leb k (n % k + max_msg_header_len)
          then ok (none, some (pos (n / k * k + k)))
          else ok (some (base + n % k), some (pos n)))
  coords-tip inside = elim (Bool-cases (leb k (n % k + max_msg_header_len))) [
    | inl full ↦ rw (tip_full full, full) next_segment
    | inr room ↦ rw (tip_room room, room) (unfold coords in ground (arith, h, mod-lt n h, inside))
  ]

  -- The lsn of the new snapshot is not below that of the old one.
  pub tip_above : (m : ℕ) → m ≤ n → ltb_ℤ (tip (pos n) (some base) k).0 (pos m) ≡ false
  tip_above m above = elim (Bool-cases (leb k (n % k + max_msg_header_len))) [
    | inl full ↦ rw (tip_full full) (ground (arith, lt-div-mul-add {a = n} {b = k} h, above))
    | inr room ↦ rw (tip_room room) (ground (arith, above))
  ]

-- An iterator that has read a message has made progress from nothing.
progress :
    (o : Option ℤ) (n k : ℕ)
    → seg_header_len ≤ n % k
    → (leb_ℤ (pos n) (lsn_or o (pos 0)) && is_none o) ≡ false
progress none n k h = ground (arith, mod-le n k, h)
progress (some lsn) n k h = ground arith

-- The snapshot that `choose_tip` gives, and where its log goes on.
pub choose_tip_lem :
    (s : Snapshot) (n base segment_size m : ℕ)
    → seg_header_len ≤ n % segment_size
    → 0 < segment_size
    → lsn_or s.stable_lsn (pos 0) ≡ pos m
    → m ≤ n
    → segment_size ≤ 2 ^ 24
    → n + segment_size < 2 ^ 63
    → base + segment_size ≤ 2 ^ 64
    → All IsSeen s.pt
    → (s' : Snapshot) × (choose_tip s (some (pos n)) (some base) segment_size ≡ ok s')
      × (recovered_coords s' segment_size ≡ (
          if leb segment_size (n % segment_size + max_msg_header_len)
          then ok (none, some (pos (n / segment_size * segment_size + segment_size)))
          else ok (some (base + n % segment_size), some (pos n))))
      × (s'.stable_lsn ≡ some (tip (pos n) (some base) segment_size).0)
unfolding choose_tip progress_to recovered_coords filter_inner_heap_ids
choose_tip_lem s n base segment_size m header h e above small fits inside seen =
    let (pt', filtered) = forget_pages_some s.pt seen in
    (
      record {
        stable_lsn = some (tip (pos n) (some base) segment_size).0;
        active_segment = (tip (pos n) (some base) segment_size).1;
        pt = pt';
      },
      rw (progress s.stable_lsn n segment_size header, e)
          (ground (arith, h, header, tip_above n base segment_size h small fits m above, filtered)),
      coords-tip n base segment_size h small fits inside,
      refl,
    )
