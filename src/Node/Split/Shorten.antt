-- ===== src/Node/Split/Shorten.antt =====
-- Longer prefixes and shorter keys (src/node.rs).
use sled.Prelude.{
  ℕ, zero, suc, ◌+◌, ◌≤◌, ◌<◌, min, ◌≡◌, inl, inr, refl, ap, sym, ◌∙◌, arith, Bool, true, false,
  List, [], ◌∷◌, ◌++◌, append_assoc, length, length-take, length-drop, take, drop, take-append-drop,
  All, leb, ◌==◌, Bool-cases,
}
use native.Mathlib.Nat.{zero-add}
use Prim.Native.Nat.add
use sled.Prelude.Outcome.{ok}
use sled.Keys.{Key, ltb_key}
use sled.Keys.Order.{ltb_key_irrefl}
use sled.Node.{Item}
use sled.Node.Sizes.{weight}
use sled.Node.Search.Pairs.{entries}
use sled.Node.Invariant.{full_key}
use sled.Node.Split.{common_len, splitpoint_length, shorten}

pub take_common : (n : ℕ) (a b : Key) → n ≤ common_len a b → take n a ≡ take n b
unfolding common_len
take_common zero a b h = refl
take_common (suc n) [] b h = absurd (omega arith)
take_common (suc n) (x ∷ a) [] h = absurd (omega arith)
take_common (suc n) (x ∷ a) (y ∷ b) h = ground (arith, take_common n a b)

pub common_len-le : (a b : Key) → (common_len a b ≤ length a) × (common_len a b ≤ length b)
unfolding common_len
common_len-le [] b = (omega arith, omega arith)
common_len-le (x ∷ a) [] = (omega arith, omega arith)
common_len-le (x ∷ a) (y ∷ b) =
    let (p, q) = common_len-le a b in (ground (arith, p), ground (arith, q))

le→leb : (a b : ℕ) → a ≤ b → leb a b ≡ true
le→leb a b h = ground arith

pub take_all : (l : Key) → take (length l) l ≡ l
take_all [] = refl
take_all (x ∷ l) = ap (λ k. x ∷ k) (take_all l)

take_nil : (n : ℕ) → take {A = ℕ} n [] ≡ []
take_nil zero = refl
take_nil (suc n) = refl

-- The split key of a leaf: as much of the right key as is above the left one.
truncated :
    (l r : Key)
    → ltb_key l r ≡ true
    → (common_len r l < length r)
      × (ltb_key l (take (suc (common_len r l)) r) ≡ true)
      × (ltb_key r (take (suc (common_len r l)) r) ≡ false)
unfolding common_len ltb_key
truncated l [] h = cc
truncated [] (y ∷ r) h = (omega arith, refl, ground arith)
truncated (x ∷ l) (y ∷ r) h = elim (Bool-cases (y == x)) [
  | inl e ↦
      let (a, b, c) = truncated l r (ground arith) in
      rw e (ground arith, ground arith, ground arith)
  | inr e ↦ rw e (omega arith, ground arith, ground arith)
]

pub splitpoint_length-lem :
    (ix : Bool) (l r : Key)
    → ltb_key l r ≡ true
    → (splitpoint_length ix l r ≤ length r)
      × (ltb_key l (take (splitpoint_length ix l r) r) ≡ true)
      × (ltb_key r (take (splitpoint_length ix l r) r) ≡ false)
unfolding splitpoint_length
splitpoint_length-lem false l r h = let (a, b, c) = truncated l r h in (omega arith, b, c)
splitpoint_length-lem true l r h =
    (omega arith, rw (take_all r) h, rw (take_all r) (ltb_key_irrefl r))

pub take_add : (p a : ℕ) (l : Key) → take (p + a) l ≡ take p l ++ take a (drop p l)
take_add zero a l = ap (λ (n : ℕ). take n l) (zero-add a)
take_add (suc p) a [] =
    ap (λ (n : ℕ). take n []) (add.suc p a) ∙ ap (λ l. [] ++ l) (sym (take_nil a))
take_add (suc p) a (x ∷ l) =
    ap (λ (n : ℕ). take n (x ∷ l)) (add.suc p a) ∙ ap (λ k. x ∷ k) (take_add p a l)

-- Keys that begin as the rest of the bound does lose that beginning to the prefix.
module _ (a p : ℕ) (lo old : Key) (prefix : take p lo ≡ take p old)
    (inside : a ≤ length (drop p lo)) where
  abbrev pub Begins : Item → Type 0
  Begins i = take a i.0 ≡ take a (drop p lo)

  long : (k : Key) → take a k ≡ take a (drop p lo) → leb a (length k) ≡ true
  long k h =
      let e : min a (length k) ≡ min a (length (drop p lo)) =
        sym (length-take a k) ∙ ap length h ∙ length-take a (drop p lo) in
      le→leb a (length k) (omega arith)

  same_full :
      (k : Key) → take a k ≡ take a (drop p lo) → full_key (p + a) lo (drop a k) ≡ full_key p old k
  same_full k h =
      ap (λ l. l ++ drop a k) (take_add p a lo)
      ∙ append_assoc (take p lo) (take a (drop p lo)) (drop a k)
      ∙ ap (λ l. take p lo ++ (l ++ drop a k)) (sym h)
      ∙ ap (λ l. take p lo ++ l) (take-append-drop a k)
      ∙ ap (λ l. l ++ k) prefix

  pub shorten-entries :
      (items : List Item)
      → All Begins items
      → (items' : List Item) × (shorten a items ≡ ok items')
        × (entries (p + a) lo items' ≡ entries p old items)
        × (length items' ≡ length items)
        × (weight items' ≤ weight items)
  unfolding shorten
  shorten-entries [] h = ([], refl, refl, refl, omega arith)
  shorten-entries ((k, v) ∷ items) h =
      let (items', e, f, g, w) = shorten-entries items h.1 in
      (
        (drop a k, v) ∷ items',
        rw (long k h.0, e) refl,
        both (full_key (p + a) lo (drop a k)) (full_key p old k) v (same_full k h.0) f,
        ap suc g,
        omega (arith, length-drop a k),
      )
    where
      both : {x y : List Item} (j k v : Key) → j ≡ k → x ≡ y → (j, v) ∷ x ≡ (k, v) ∷ y
      both j k v e f = rw (e, f) refl
