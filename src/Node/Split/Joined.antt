-- ===== src/Node/Split/Joined.antt =====
-- Two lists of items become one (`receive_merge` of src/node.rs).
use sled.Prelude.{
  ℕ, zero, suc, ◌+◌, ◌*◌, ◌≤◌, ◌≡◌, inl, inr, refl, ap, sym, subst, ◌∙◌, arith, Bool, true, false,
  Option, none, some, List, [], ◌∷◌, ◌++◌, map, length, length-append, length-drop, length-take,
  take, drop, take-append-drop, All, leb, Bool-cases,
}
use native.Mathlib.Nat.{mul-suc}
use sled.Keys.{Key, ltb_key}
use sled.Keys.Order.{ltb_key_trans, ltb_key_total}
use sled.Node.{Item}
use sled.Node.Search.{below_hi}
use sled.Node.Search.Place.{IsSorted, key_of, ltb_key_asym}
use sled.Node.Search.Pairs.{entries}
use sled.Node.Sizes.{weight}
use sled.Node.Invariant.{full_key}
use sled.Node.Split.{reencode, reencode_all}
use sled.Node.Split.Entries.{IsEntries, Between, LeadsFrom}

pub take_shorter : (m p : ℕ) (a b : Key) → m ≤ p → take p a ≡ take p b → take m a ≡ take m b
take_shorter m p a b h e = sym (inner m p a h) ∙ ap (take m) e ∙ inner m p b h
  where
    inner : (m p : ℕ) (a : Key) → m ≤ p → take m (take p a) ≡ take m a
    inner zero p a h = refl
    inner (suc m) zero a h = absurd (omega arith)
    inner (suc m) (suc p) [] h = refl
    inner (suc m) (suc p) (x ∷ a) h = ap (λ l. x ∷ l) (inner m p a (omega arith))

take_prefix : (m p : ℕ) (lo k : Key) → m ≤ p → p ≤ length lo → take m (take p lo ++ k) ≡ take m lo
take_prefix zero p lo k h l = refl
take_prefix (suc m) zero lo k h l = absurd (omega arith)
take_prefix (suc m) (suc p) [] k h l = absurd (omega arith)
take_prefix (suc m) (suc p) (x ∷ lo) k h l =
    ap (λ a. x ∷ a) (take_prefix m p lo k (omega arith) (omega arith))

module _ (m p : ℕ) (lo old : Key) (same : take m lo ≡ take m old) (shorter : m ≤ p)
    (inside : p ≤ length old) (small : p ≤ 255) where
  reencode_full : (k : Key) → full_key m lo (reencode (take p old) k m) ≡ full_key p old k
  reencode_full k =
      ap (λ l. l ++ drop m (take p old ++ k)) (same ∙ sym (take_prefix m p old k shorter inside))
      ∙ take-append-drop m (take p old ++ k)

  pub reencode_all-entries :
      (items : List Item)
      → (entries m lo (reencode_all (take p old) m items) ≡ entries p old items)
        × (length (reencode_all (take p old) m items) ≡ length items)
        × (weight (reencode_all (take p old) m items) ≤ weight items + 255 * length items)
  unfolding reencode_all
  reencode_all-entries [] = (refl, refl, omega arith)
  reencode_all-entries ((k, v) ∷ items) =
      let (e, f, w) = reencode_all-entries items in
      (
        rw (reencode_full k, e) refl,
        ap suc f,
        omega (
          arith,
          length-drop m (take p old ++ k),
          length-append (take p old) k,
          length-take p old,
          mul-suc 255 (length items),
        ),
      )

  pub kept_entries : m ≡ p → (items : List Item) → entries m lo items ≡ entries p old items
  kept_entries e [] = refl
  kept_entries e ((k, v) ∷ items) =
      rw (kept_entries e items, ap (λ l. l ++ k) (same ∙ ap (λ (i : ℕ). take i old) e)) refl

pub le→leb : (a b : ℕ) → a ≤ b → leb a b ≡ true
le→leb a b h = ground arith

pub entries-append :
    (p : ℕ) (lo : Key) (a b : List Item) → entries p lo (a ++ b) ≡ entries p lo a ++ entries p lo b
entries-append p lo [] b = refl
entries-append p lo ((k, v) ∷ a) b = ap (λ l. (full_key p lo k, v) ∷ l) (entries-append p lo a b)

pub weight-append : (a b : List Item) → weight (a ++ b) ≡ weight a + weight b
weight-append [] b = omega arith
weight-append (x ∷ a) b = omega (arith, weight-append a b)

below_not_above : (a b c : Key) → ltb_key a b ≡ true → ltb_key c b ≡ false → ltb_key a c ≡ true
below_not_above a b c h k = elim (Bool-cases (ltb_key b c)) [
  | inl l ↦ ltb_key_trans a b c h l
  | inr e ↦ subst (λ x. ltb_key a x ≡ true) (ltb_key_total b c e k) h
]

-- Two maps, all keys of the one below `mid`, and none of the other.
module _ (lo mid : Key) (hi : Option Key) where
  All-append : (P : Item → Type 0) (a b : List Item) → All P a → All P b → All P (a ++ b)
  All-append P [] b h k = k
  All-append P (x ∷ a) b h k = (h.0, All-append P a b h.1 k)

  above-append :
      (k : Key) (a b : List Item)
      → All (λ j. ltb_key k j ≡ true) (map key_of a)
      → All (λ i. ltb_key k i.0 ≡ true) b
      → All (λ j. ltb_key k j ≡ true) (map key_of (a ++ b))
  above-append k [] [] h g = tt
  above-append k [] ((j, v) ∷ b) h g = (g.0, above-append k [] b tt g.1)
  above-append k ((j, v) ∷ a) b h g = (h.0, above-append k a b h.1 g)

  All-above :
      (k : Key) (b : List Item)
      → ltb_key k mid ≡ true
      → All (λ i. Between mid hi i.0) b
      → All (λ i. ltb_key k i.0 ≡ true) b
  All-above k [] h g = tt
  All-above k ((j, v) ∷ b) h g = (below_not_above k mid j h g.0.0, All-above k b h g.1)

  IsSorted-append :
      (a b : List Item)
      → IsSorted a
      → IsSorted b
      → All (λ i. Between lo (some mid) i.0) a
      → All (λ i. Between mid hi i.0) b
      → IsSorted (a ++ b)
  IsSorted-append [] b s t g h = t
  IsSorted-append ((k, v) ∷ a) b s t g h =
      (above-append k a b s.0 (All-above k b g.0.1 h), IsSorted-append a b s.1 t g.1 h)

  pub joined :
      (ix : Bool) (a b : List Item)
      → ltb_key lo mid ≡ true
      → below_hi mid hi ≡ true
      → IsEntries lo (some mid) ix a
      → IsEntries mid hi ix b
      → IsEntries lo hi ix (a ++ b)
  joined ix a b l h s t = record {
    sorted = IsSorted-append a b s.sorted t.sorted s.ranged t.ranged;
    ranged = All-append (λ i. Between lo hi i.0) a b (lower a s.ranged) (upper b t.ranged);
    leads = first ix a s.leads t.leads;
  }
    where
      below :
          (hi : Option Key) (k : Key)
          → ltb_key k mid ≡ true
          → below_hi mid hi ≡ true
          → below_hi k hi ≡ true
      below none k g h = refl
      below (some hi) k g h = ltb_key_trans k mid hi g h

      lower :
          (a : List Item) → All (λ i. Between lo (some mid) i.0) a → All (λ i. Between lo hi i.0) a
      lower [] r = tt
      lower ((k, v) ∷ a) r = ((r.0.0, below hi k r.0.1 h), lower a r.1)

      upper : (b : List Item) → All (λ i. Between mid hi i.0) b → All (λ i. Between lo hi i.0) b
      upper [] r = tt
      upper ((k, v) ∷ b) r =
          ((ltb_key_asym lo k (below_not_above lo mid k l r.0.0), r.0.1), upper b r.1)

      all_pids :
          (ix : Bool) (b : List Item) → ix ≡ true → LeadsFrom mid ix b → All (λ i. length i.1 ≡ 8) b
      all_pids false b e r = cc
      all_pids true [] e r = elim r [ ]
      all_pids true (x ∷ b) e r = r.1

      first :
          (ix : Bool) (a : List Item)
          → LeadsFrom lo ix a
          → LeadsFrom mid ix b
          → LeadsFrom lo ix (a ++ b)
      first false a r q = tt
      first true [] r q = elim r [ ]
      first true ((k, v) ∷ a) r q =
          (r.0, (r.1.0, All-append (λ i. length i.1 ≡ 8) a b r.1.1 (all_pids true b refl q)))
