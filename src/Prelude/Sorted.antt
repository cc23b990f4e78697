-- ===== src/Prelude/Sorted.antt =====
-- `BTreeMap` and `BTreeSet` as ascending lists, over a strict order of the keys.
use Prim.Native.Nat.{◌+◌}
use mathlib.Core.Path.{◌≡◌, refl, ap, ◌∙◌}
use mathlib.Core.Bool.{Bool, true, false, not, ◌&&◌}
use mathlib.Core.List.{List, [], ◌∷◌}
use mathlib.Core.Logic.{inl, inr}
use mathlib.Core.Option.{Option, none, some}
use native.Mathlib.Omega.{arith}
use sled.Prelude.Tests.{ltb, if◌then◌else◌, Bool-cases}
use sled.Prelude.Lists.{length, All}
use sled.Prelude.Int.{ltb_ℤ, eq_of_parts}

-- What a key type's `Ord` promises.
pub record StrictOrder {K : Type 0} (lt : K → K → Bool) : Type 0 where
  pub irrefl : (a : K) → lt a a ≡ false
  pub trans : (a b c : K) → lt a b ≡ true → lt b c ≡ true → lt a c ≡ true
  pub total : (a b : K) → lt a b ≡ false → lt b a ≡ false → a ≡ b

pub ltb-StrictOrder : StrictOrder ltb
ltb-StrictOrder = record {
  irrefl = λ a. ground arith;
  trans = λ a b c p q. ground arith;
  total = λ a b p q. ground arith;
}

pub ltb_ℤ-StrictOrder : StrictOrder ltb_ℤ
ltb_ℤ-StrictOrder = record {
  irrefl = λ a. ground arith;
  trans = λ a b c p q. ground arith;
  total = λ a b p q. eq_of_parts a b (ground arith);
}

module _ {K : Type 0} (lt : K → K → Bool) where
  abbrev pub same_key : K → K → Bool
  same_key a b = not (lt a b) && not (lt b a)

  -- sets
  unfoldable pub contains : K → List K → Bool
  contains k [] = false
  contains k (j ∷ s) = let rest = contains k s in if same_key k j then true else rest

  unfoldable pub insert_set : K → List K → List K
  insert_set k [] = k ∷ []
  insert_set k (j ∷ s) =
      let rest = insert_set k s in if lt k j then k ∷ j ∷ s else if lt j k then j ∷ rest else j ∷ s

  unfoldable pub remove_set : K → List K → List K
  remove_set k [] = []
  remove_set k (j ∷ s) = let rest = remove_set k s in if same_key k j then rest else j ∷ rest

  -- `&s - &t`
  unfoldable pub difference : List K → List K → List K
  unfolding contains
  difference [] t = []
  difference (j ∷ s) t = let rest = difference s t in if contains j t then rest else j ∷ rest

module _ {K : Type 0} (lt : K → K → Bool) {V : Type 0} where
  -- maps
  unfoldable pub get : K → List (K × V) → Option V
  get k [] = none
  get k ((j, v) ∷ m) = let rest = get k m in if same_key lt k j then some v else rest

  unfoldable pub insert : K → V → List (K × V) → List (K × V)
  insert k v [] = (k, v) ∷ []
  insert k v ((j, w) ∷ m) =
      let rest = insert k v m in
      if lt k j then (k, v) ∷ (j, w) ∷ m else if lt j k then (j, w) ∷ rest else (k, v) ∷ m

  unfoldable pub remove : K → List (K × V) → List (K × V)
  remove k [] = []
  remove k ((j, v) ∷ m) = let rest = remove k m in if same_key lt k j then rest else (j, v) ∷ rest

module _ {K : Type 0} {lt : K → K → Bool} (o : StrictOrder lt) where
  pub same_key_eq : (a b : K) → same_key lt a b ≡ true → a ≡ b
  same_key_eq a b h = o.total a b (ground arith) (ground arith)

  pub same_key_refl : (a : K) → same_key lt a a ≡ true
  same_key_refl a = rw (o.irrefl a)

  pub contains-insert_set :
      (k j : K) (s : List K)
      → contains lt j (insert_set lt k s) ≡ (if same_key lt j k then true else contains lt j s)
  unfolding contains insert_set
  contains-insert_set k j [] = refl
  contains-insert_set k j (i ∷ s) = ground (arith, o.total k i, contains-insert_set k j s)

  pub contains-remove_set :
      (k j : K) (s : List K)
      → contains lt j (remove_set lt k s) ≡ (if same_key lt j k then false else contains lt j s)
  unfolding contains remove_set
  contains-remove_set k j [] = ground arith
  contains-remove_set k j (i ∷ s) =
      ground (arith, o.total k i, o.total j k, contains-remove_set k j s)

  pub contains-difference :
      (j : K) (s t : List K)
      → contains lt j (difference lt s t) ≡ (if contains lt j t then false else contains lt j s)
  unfolding contains difference
  contains-difference j [] t = ground arith
  contains-difference j (i ∷ s) t = ground (arith, o.total j i, contains-difference j s t)

  -- A new element makes a set larger by one, and an element that is there leaves it as long.
  pub length-insert_set :
      (k : K) (s : List K) → contains lt k s ≡ false → length (insert_set lt k s) ≡ length s + 1
  unfolding contains insert_set
  length-insert_set k [] h = omega arith
  length-insert_set k (i ∷ s) h = ground (arith, length-insert_set k s)

  -- The elements of a set differ.
  abbrev pub Distinct : List K → Type 0
  Distinct [] = Unit
  Distinct (i ∷ s) = (contains lt i s ≡ false) × Distinct s

  pub remove_set-absent : (k : K) (s : List K) → contains lt k s ≡ false → remove_set lt k s ≡ s
  unfolding contains remove_set
  remove_set-absent k [] h = refl
  remove_set-absent k (i ∷ s) h = ground (arith, remove_set-absent k s)

  -- Taking a present element out of a set makes it shorter by one.
  pub length-remove_set :
      (k : K) (s : List K)
      → Distinct s
      → contains lt k s ≡ true
      → length (remove_set lt k s) + 1 ≡ length s
  unfolding contains remove_set
  length-remove_set k [] d h = cc
  length-remove_set k (i ∷ s) d h =
      ground (arith, o.total k i, d.0, remove_set-absent k s, length-remove_set k s d.1)

  pub remove_set-Distinct : (k : K) (s : List K) → Distinct s → Distinct (remove_set lt k s)
  unfolding remove_set
  remove_set-Distinct k [] d = tt
  remove_set-Distinct k (i ∷ s) d =
      ground (arith, contains-remove_set k i s, remove_set-Distinct k s d.1, d.0)

  -- A set is kept in ascending order.
  abbrev pub Ascending : List K → Type 0
  Ascending [] = Unit
  Ascending (i ∷ s) = All (λ j. lt i j ≡ true) s × Ascending s

  pub Ascending-absent : (i : K) (s : List K) → All (λ j. lt i j ≡ true) s → contains lt i s ≡ false
  unfolding contains
  Ascending-absent i [] h = refl
  Ascending-absent i (j ∷ s) h = ground (arith, h.0, Ascending-absent i s h.1)

  pub Ascending-Distinct : (s : List K) → Ascending s → Distinct s
  Ascending-Distinct [] h = tt
  Ascending-Distinct (i ∷ s) h = (Ascending-absent i s h.0, Ascending-Distinct s h.1)

  above_trans :
      (k i : K) (s : List K)
      → lt k i ≡ true
      → All (λ j. lt i j ≡ true) s
      → All (λ j. lt k j ≡ true) s
  above_trans k i [] l h = tt
  above_trans k i (j ∷ s) l h = (o.trans k i j l h.0, above_trans k i s l h.1)

  above-insert_set :
      (i k : K) (s : List K)
      → lt i k ≡ true
      → All (λ j. lt i j ≡ true) s
      → All (λ j. lt i j ≡ true) (insert_set lt k s)
  unfolding insert_set
  above-insert_set i k [] l h = (l, tt)
  above-insert_set i k (j ∷ s) l h = elim (Bool-cases (lt k j)) [
    | inl before ↦ rw before (l, h)
    | inr e ↦ elim (Bool-cases (lt j k)) [
      | inl after ↦ rw (e, after) (h.0, above-insert_set i k s l h.1)
      | inr same ↦ rw (e, same) h
    ]
  ]

  pub insert_set-Ascending : (k : K) (s : List K) → Ascending s → Ascending (insert_set lt k s)
  unfolding insert_set
  insert_set-Ascending k [] d = (tt, tt)
  insert_set-Ascending k (i ∷ s) d = elim (Bool-cases (lt k i)) [
    | inl before ↦ rw before ((before, above_trans k i s before d.0), d)
    | inr e ↦ elim (Bool-cases (lt i k)) [
      | inl after ↦ rw (e, after) (above-insert_set i k s after d.0, insert_set-Ascending k s d.1)
      | inr same ↦ rw (e, same) d
    ]
  ]

  difference-nil : (s : List K) → difference lt s [] ≡ s
  unfolding difference
  difference-nil [] = refl
  difference-nil (j ∷ s) = ap (λ l. j ∷ l) (difference-nil s)

  difference-cons :
      (s : List K) (i : K) (t : List K)
      → difference lt s (i ∷ t) ≡ remove_set lt i (difference lt s t)
  unfolding difference remove_set
  difference-cons [] i t = refl
  difference-cons (j ∷ s) i t = ground (arith, difference-cons s i t)

  pub difference-Distinct : (s t : List K) → Distinct s → Distinct (difference lt s t)
  difference-Distinct s [] d = rw difference-nil d
  difference-Distinct s (i ∷ t) d =
      rw difference-cons (remove_set-Distinct i (difference lt s t) (difference-Distinct s t d))

  -- A set loses with the elements of a part of it as many as these are.
  pub length-difference :
      (s t : List K)
      → Distinct s
      → Distinct t
      → ((j : K) → contains lt j t ≡ true → contains lt j s ≡ true)
      → length (difference lt s t) + length t ≡ length s
  length-difference s [] d e h = rw difference-nil (omega arith)
  length-difference s (i ∷ t) d e h =
      let shorter =
        length-remove_set i (difference lt s t) (difference-Distinct s t d)
          (contains-difference i s t ∙ rw e.0 (h i (first i t))) in
      rw difference-cons
        (omega (arith, shorter, length-difference s t d e.1 (λ j m. h j (later i j t m))))
    where
      first : (k : K) (l : List K) → contains lt k (k ∷ l) ≡ true
      first k l = unfold contains in rw (same_key_refl k)

      later : (k j : K) (l : List K) → contains lt j l ≡ true → contains lt j (k ∷ l) ≡ true
      later k j l m = unfold contains in ground (arith, m)
