-- ===== src/Node/Split/Parts.antt =====
-- A new node from a part of the items of another (src/node.rs).
use sled.Prelude.{
  ℕ, zero, suc, ◌+◌, ◌-◌, ◌^◌, ◌≤◌, ◌<◌, min, ◌≡◌, inl, inr, refl, sym, subst, ◌∙◌, arith, Bool,
  true, false, Option, List, [], ◌∷◌, length, length-drop, take, drop, All, leb, Bool-cases,
}
use sled.Prelude.Outcome.{ok}
use sled.Keys.{Key, ltb_key}
use sled.Keys.Order.{ltb_key_trans, ltb_key_total}
use sled.Node.{Item, Node, children, new}
use sled.Node.Search.Place.{key_at}
use sled.Node.Search.Pairs.{entries}
use sled.Node.Sizes.{weight, total_size, new-IsNew}
use sled.Node.Stitch.{item_size}
use sled.Node.Stitch.Map.{IsBounds-stored_hi, IsIndex-fit}
use sled.Node.Invariant.{IsBounds, IsContent, IsNode}
use sled.Node.Split.{weighted_split_point, common_len, additional_prefix, shorten}
use sled.Node.Split.Entries.{IsEntries, LeadsFrom, IsEntries-IsContent}
use sled.Node.Split.Shorten.{shorten-entries}

-- A node between these bounds, with this map.
pub record IsPart (lo : Key) (hi : Option Key) (is_index : Bool) (next : Option ℕ) (es : List Item)
    (n : Node) : Type 0 where
  pub is_node : IsNode n
  pub map_is : entries n.prefix_len n.lo n.items ≡ es
  pub lo_is : n.lo ≡ lo
  pub hi_is : n.hi ≡ hi
  pub index_is : n.is_index ≡ is_index
  pub next_is : n.next ≡ next

abbrev pub stamped : Node → ℕ → ℕ → Node
stamped n g p = record n { rewrite_generations = g; probation_ops_remaining = p }

pub new-IsPart :
    (p : ℕ) (lo : Key) (hi : Option Key) (ix : Bool) (next : Option ℕ) (items es : List Item)
    → IsContent p lo hi ix items
    → entries p lo items ≡ es
    → weight items + 8 < 2 ^ 48
    → (n : Node) × (new lo hi p ix next items ≡ ok n)
      × ((g o : ℕ) → IsPart lo hi ix next es (stamped n g o))
new-IsPart p lo hi ix next items es content e w =
    let (n, f, made) =
      new-IsNew lo hi p ix next items content.counted (IsIndex-fit p lo ix items content.indexed)
        w in
    (
      n,
      f,
      λ g o. record {
        is_node = (
          rw
              (
                made.prefix_kept,
                made.lo_kept,
                made.hi_kept,
                IsBounds-stored_hi p lo hi content.bounds,
                made.index_kept,
                made.items_kept,
              )
              content,
          subst (λ l. total_size (stamped n g o) l ≤ n.len) (sym made.items_kept)
              (omega (arith, made.roomy, same n g o items)),
        );
        map_is = rw (made.prefix_kept, made.lo_kept, made.items_kept) e;
        lo_is = made.lo_kept;
        hi_is = made.hi_kept ∙ IsBounds-stored_hi p lo hi content.bounds;
        index_is = made.index_kept;
        next_is = made.next_kept;
      },
    )
  where
    one : (n : Node) (g o : ℕ) (x : Item) → item_size (stamped n g o) x ≡ item_size n x
    one n g o x = unfold item_size in refl

    same : (n : Node) (g o : ℕ) (xs : List Item) → total_size (stamped n g o) xs ≡ total_size n xs
    same n g o [] = refl
    same n g o (x ∷ xs) = omega (arith, same n g o xs, one n g o x)

-- Items of a node become a node of their own, between other bounds.
pub part :
    (a p : ℕ) (lo old : Key) (hi : Option Key) (ix : Bool) (next : Option ℕ) (items : List Item)
    → take p lo ≡ take p old
    → p ≤ length lo
    → a ≤ length (drop p lo)
    → p + a ≤ 255
    → IsBounds (p + a) lo hi
    → length items ≤ 65535
    → weight items + 8 < 2 ^ 48
    → All (λ i. take a i.0 ≡ take a (drop p lo)) items
    → IsEntries lo hi ix (entries p old items)
    → (items' : List Item) × (n : Node) × (shorten a items ≡ ok items')
      × (new lo hi (p + a) ix next items' ≡ ok n)
      × ((g o : ℕ) → IsPart lo hi ix next (entries p old items) (stamped n g o))
part a p lo old hi ix next items same low inside small bounds counted w begin es =
    let (items', e, f, g, lighter) = shorten-entries a p lo old same inside items begin in
    let content =
      IsEntries-IsContent (p + a) lo hi ix items' (omega arith)
        (omega (arith, length-drop p lo), small) bounds
        (subst (λ l. IsEntries lo hi ix l) (sym f) es) in
    let (n, h, is_part) =
      new-IsPart (p + a) lo hi ix next items' (entries p old items) content f (omega arith) in
    (items', n, e, h, is_part)

pub additional_prefix_lem :
    (p : ℕ) (a b : Key)
    → p ≤ length a
    → p ≤ length b
    → additional_prefix p a b ≡ ok (min (255 - p) (common_len (drop p a) (drop p b)))
unfolding additional_prefix
additional_prefix_lem p a b h k = rw (le→leb p (length a) h, le→leb p (length b) k) refl
  where
    le→leb : (a b : ℕ) → a ≤ b → leb a b ≡ true
    le→leb a b h = ground arith

pub split_point_inside :
    (n : Node)
    → 2 ≤ children n
    → (1 ≤ weighted_split_point n) × (weighted_split_point n < children n)
unfolding weighted_split_point
split_point_inside n h = ground arith

-- From an item on, an index leads from that item's key.
pub leads_at :
    (lo : Key) (ix : Bool) (key : Key) (es : List Item) (k : ℕ)
    → k < length es
    → (ix ≡ true → key_at es k ≡ key)
    → LeadsFrom lo ix es
    → LeadsFrom key ix (drop k es)
leads_at lo false key es k h e l = tt
leads_at lo true key [] k h e l = elim l [ ]
leads_at lo true key ((j, v) ∷ es) k h e l = from k ((j, v) ∷ es) h (e refl) l.1
  where
    from :
        (k : ℕ) (es : List Item)
        → k < length es
        → key_at es k ≡ key
        → All (λ i. length i.1 ≡ 8) es
        → LeadsFrom key true (drop k es)
    from k [] h e a = elim h [ ]
    from zero ((j, v) ∷ es) h e a = (e, a)
    from (suc k) (x ∷ es) h e a = from k es (omega arith) e a.1

pub weight-take : (k : ℕ) (items : List Item) → weight (take k items) ≤ weight items
weight-take zero items = omega arith
weight-take (suc k) [] = omega arith
weight-take (suc k) (x ∷ items) = omega (arith, weight-take k items)

pub weight-drop : (k : ℕ) (items : List Item) → weight (drop k items) ≤ weight items
weight-drop zero items = omega arith
weight-drop (suc k) [] = omega arith
weight-drop (suc k) (x ∷ items) = omega (arith, weight-drop k items)

pub not_above_trans : (a b c : Key) → ltb_key b a ≡ false → ltb_key b c ≡ true → ltb_key a c ≡ true
not_above_trans a b c h k = elim (Bool-cases (ltb_key a b)) [
  | inl l ↦ ltb_key_trans a b c l k
  | inr e ↦ subst (λ x. ltb_key x c ≡ true) (ltb_key_total b a h e) k
]
