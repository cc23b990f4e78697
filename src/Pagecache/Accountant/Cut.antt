-- ===== src/Pagecache/Accountant/Cut.antt =====
-- One round of the loop of `free_segment` (src/pagecache/segment.rs): the last segment is cut off.
use sled.Prelude.{
  ℕ, suc, ◌+◌, ◌-◌, ◌*◌, ◌/◌, ◌%◌, ◌≤◌, ◌<◌, ◌≡◌, ◌⊎◌, inl, inr, refl, ap, sym, subst, ◌∙◌, arith,
  Bool, true, false, not, ◌&&◌, length, ltb, leb, ◌==◌, Bool-cases, if◌then◌else◌,
}
use native.Mathlib.Nat.{
  suc-mul, mul-div_cancel, mod-add-div', mod-eq_of_lt, mul-lt-mul_of_pos_right,
  lt_of_mul-lt-mul_right,
}
use sled.Prelude.Outcome.{ok}
use sled.Prelude.Sorted.{
  contains, insert_set, remove_set, same_key, ltb-StrictOrder, contains-remove_set,
  contains-insert_set, same_key_refl,
}
use sled.Pagecache.Segment.{is_free}
use sled.Pagecache.Accountant.{Accountant, segment_of}
use sled.Pagecache.Accountant.Free.{truncate}
use sled.Pagecache.Accountant.Layout.{IsAccountant, remove_set-Ascending}

-- Truncations that were not waited for are at or above the tip.
abbrev pub Waits : Accountant → Type 0
Waits a = (t : ℕ) → contains ltb t a.async_truncations ≡ true → a.tip ≤ t

-- The loop has nothing more to give back.
abbrev pub Shrunk : Accountant → Type 0
Shrunk a =
    ((not (a.tip == 0) && ltb 1 (length a.free)) ≡ false)
    ⊎ (contains ltb (a.tip - a.segment_size) a.free ≡ false)

module _ (size : ℕ) (positive : 1 ≤ size) where
  whole : (l : ℕ) → l % size ≡ 0 → l / size * size ≡ l
  whole l h = omega (arith, mod-add-div' l size, h)

  -- Multiples are a block apart.
  apart : (l m : ℕ) → l % size ≡ 0 → m % size ≡ 0 → l < m + size → (l ≡ m) ⊎ (l < m)
  apart l m h k b = split (Bool-cases (l / size == m / size))
    where
      below : l / size < suc (m / size)
      below =
          lt_of_mul-lt-mul_right size
            (omega (arith, whole l h, whole m k, b, suc-mul (m / size) size))

      split : ((l / size == m / size) ≡ true) ⊎ ((l / size == m / size) ≡ false) → (l ≡ m) ⊎ (l < m)
      split (inl e) =
          inl
            (sym (whole l h) ∙ ap (λ (q : ℕ). q * size) (equal (l / size) (m / size) e) ∙ whole m k)
        where
          equal : (a b : ℕ) → (a == b) ≡ true → a ≡ b
          equal a b e = ground arith
      split (inr e) = inr (
          omega (
            arith,
            whole l h,
            whole m k,
            mul-lt-mul_of_pos_right (less (l / size) (m / size) e below) positive,
          ))
        where
          less : (a b : ℕ) → (a == b) ≡ false → a < suc b → a < b
          less a b e h = ground arith

  not_false : (b : Bool) → b ≡ true → b ≡ false → ⊥
  not_false b p q = cc

module _ (a : Accountant) (layout : IsAccountant a) (waits : Waits a)
    (positive : 1 ≤ a.segment_size) (high : 1 ≤ a.tip) where
  pub tip_block : a.segment_size ≤ a.tip
  tip_block = elim (Bool-cases (ltb a.tip a.segment_size)) [
    | inl l ↦ absurd (
        omega (
          arith,
          high,
          layout.aligned,
          mod-eq_of_lt {n = a.tip} {m = a.segment_size} (ground arith),
        ))
    | inr e ↦ ground arith
  ]

  abbrev last : ℕ
  last = a.tip - a.segment_size

  abbrev pub cut : Accountant
  cut = record a {
    free = remove_set ltb last a.free;
    tip = last;
    async_truncations = insert_set ltb last a.async_truncations;
  }

  module _ (listed : contains ltb last a.free ≡ true) where
    last_multiple : last % a.segment_size ≡ 0
    last_multiple = (layout.free_ok last listed).2

    unlisted : contains ltb last (remove_set ltb last a.free) ≡ false
    unlisted =
        contains-remove_set ltb-StrictOrder last last a.free
        ∙ rw (same_key_refl ltb-StrictOrder last) refl

    not_waiting : contains ltb last a.async_truncations ≡ false
    not_waiting = elim (Bool-cases (contains ltb last a.async_truncations)) [
      | inl e ↦ absurd (omega (arith, waits last e, positive, tip_block))
      | inr e ↦ e
    ]

    pub truncates : truncate (record a { free = remove_set ltb last a.free }) last ≡ ok cut
    unfolding truncate
    truncates = rw (zero_is (last % a.segment_size) last_multiple, unlisted, not_waiting) refl
      where
        zero_is : (n : ℕ) → n ≡ 0 → (n == 0) ≡ true
        zero_is n h = ground arith

    pub cut-IsAccountant : IsAccountant cut
    cut-IsAccountant = record {
      ascending = remove_set-Ascending last a.free layout.ascending;
      free_ok = λ l h.
          let (other, there) =
            kept l (sym (contains-remove_set ltb-StrictOrder last l a.free) ∙ h) in
          let (low, was, multiple) = layout.free_ok l there in
          (
            elim (apart a.segment_size positive l last multiple last_multiple
                (omega (arith, low, tip_block))) [
                  | inl e ↦ absurd (
                      not_false a.segment_size positive (same_key ltb l last) (ground (arith, e))
                        other)
                  | inr b ↦ b
                ],
            was,
            multiple,
          );
      beyond = λ i h. elim (Bool-cases (leb a.tip (i * a.segment_size))) [
        | inl e ↦ layout.beyond i (ground arith)
        | inr e ↦ freed i h (ground arith)
      ];
      aligned = last_multiple;
    }
      where
        kept :
            (l : ℕ)
            → (if same_key ltb l last then false else contains ltb l a.free) ≡ true
            → (same_key ltb l last ≡ false) × (contains ltb l a.free ≡ true)
        kept l h = ground arith

        freed :
            (i : ℕ)
            → last ≤ i * a.segment_size
            → i * a.segment_size < a.tip
            → is_free (segment_of a i) ≡ true
        freed i h b =
            let back : i * a.segment_size / a.segment_size ≡ i = mul-div_cancel i positive in
            let flat : i * a.segment_size % a.segment_size ≡ 0 = omega (
              arith,
              mod-add-div' (i * a.segment_size) a.segment_size,
              ap (λ (q : ℕ). q * a.segment_size) back,
            ) in
            elim (apart a.segment_size positive (i * a.segment_size) last flat last_multiple
              (omega (arith, b, tip_block))) [
                | inl e ↦
                    subst (λ (k : ℕ). is_free (segment_of a k) ≡ true)
                      (ap (λ (l : ℕ). l / a.segment_size) (sym e) ∙ back)
                      (layout.free_ok last listed).1
                | inr l ↦ absurd (omega (arith, l, h))
              ]

    pub cut-Waits : Waits cut
    cut-Waits t h = elim (Bool-cases (same_key ltb t last)) [
      | inl e ↦ ground arith
      | inr e ↦ omega (
        arith,
        waits t (
            was_there t e
              (sym (contains-insert_set ltb-StrictOrder last t a.async_truncations) ∙ h)),
        tip_block,
      )
    ]
      where
        was_there :
            (t : ℕ)
            → same_key ltb t last ≡ false
            → (if same_key ltb t last then true else contains ltb t a.async_truncations) ≡ true
            → contains ltb t a.async_truncations ≡ true
        was_there t e h = ground arith
