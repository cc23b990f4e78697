-- ===== src/Node/Apply/Effect.antt =====
-- What `apply` makes of a node, link by link (src/node.rs).
use sled.Prelude.{
  ℕ, ◌+◌, ◌≤◌, ◌<◌, ◌≡◌, refl, ap, sym, ◌∙◌, arith, Bool, true, false, not, Option, none, some,
  List, [], ◌∷◌, length, ◌==◌,
}
use sled.Prelude.Int.{ℤ}
use sled.Prelude.Outcome.{Outcome, ok, err, panic, ◌>>=◌, ◌>>◌, assert, unwrap}
use sled.Prelude.Sorted.{insert, remove, get}
use sled.Keys.{Key, ltb_key}
use sled.Keys.Order.{IsMemcmp}
use sled.Link.{Link}
use sled.Node.{Item, Node, children, position_of_pid, can_merge_child}
use sled.Node.Search.Place.{key_at}
use sled.Node.Stitch.{remove_index, item_size}
use sled.Node.Stitch.Edits.{Edited}
use sled.Node.Stitch.Map.{HasRoom, insert-Becomes, replace-Becomes, remove-Becomes}
use sled.Node.Invariant.{IsNode, InRange, Removable}
use sled.Node.Sizes.{total_size}
use sled.Node.Apply.{change, apply, start_merge, confirm_merge}

-- The index of the child that is being merged.
abbrev pub merging_index : Node → Outcome ℕ
merging_index n = unwrap n.merging_child >>= λ pid. position_of_pid pid n.items >>= unwrap

-- What the tree sees to before it applies a link.
abbrev pub Allowed : Node → Link → Type 0
Allowed n (Link.set k v) =
    (n.merging_child ≡ none)
    × (get ltb_key k n.items ≡ none)
    × (length n.items + 1 ≤ 65535)
    × HasRoom n k v
    × InRange n.prefix_len n.lo n.hi k
    × (n.is_index ≡ true → length v ≡ 8)
Allowed n (Link.replace i v) =
    (n.merging_child ≡ none)
    × (i < children n)
    × HasRoom n (key_at n.items i) v
    × (n.is_index ≡ true → length v ≡ 8)
Allowed n (Link.del i) = (i < children n) × Removable n.is_index (key_at n.items i) n.items
Allowed n (Link.parent_merge_intention pid) =
    (can_merge_child n pid ≡ ok true) × ((pid == 0) ≡ false)
Allowed n Link.parent_merge_confirm =
    (n.is_index ≡ true)
    × ((i : ℕ) × (merging_index n ≡ ok i)
        × (i < children n)
        × Removable n.is_index (key_at n.items i) n.items)
Allowed n Link.child_merge_cap = Unit

-- The map of the items after a link.
abbrev pub effect : Node → Link → List Item
effect n (Link.set k v) = insert ltb_key k v n.items
effect n (Link.replace i v) = insert ltb_key (key_at n.items i) v n.items
effect n (Link.del i) = remove ltb_key (key_at n.items i) n.items
effect n (Link.parent_merge_intention pid) = n.items
effect n Link.parent_merge_confirm = elim (merging_index n) [
  | ok i ↦ remove ltb_key (key_at n.items i) n.items
  | _ ↦ n.items
]
effect n Link.child_merge_cap = n.items

-- The child that is being merged after a link, and whether the node itself is.
abbrev pub merging_after : Node → Link → Option ℕ × Bool
merging_after n (Link.parent_merge_intention pid) = (some pid, false)
merging_after n Link.parent_merge_confirm = (none, false)
merging_after n Link.child_merge_cap = (n.merging_child, true)
merging_after n _ = (n.merging_child, false)

-- The node that a link makes.
pub record Applied (n : Node) (link : Link) (n' : Node) : Type 0 where
  pub is_node : IsNode n'
  pub items_changed : n'.items ≡ effect n link
  pub child_changed : n'.merging_child ≡ (merging_after n link).0
  pub merging_changed : n'.merging ≡ (merging_after n link).1
  pub bounds_kept : (n'.lo ≡ n.lo) × (n'.hi ≡ n.hi) × (n'.prefix_len ≡ n.prefix_len)
  pub next_kept : n'.next ≡ n.next

marked :
    (n : Node) (c : Option ℕ) (m : Bool)
    → IsNode n
    → IsNode (record n { merging_child = c; merging = m })
marked n c m h = (h.0, omega (arith, h.1, same n.items))
  where
    one : (x : Item) → item_size (record n { merging_child = c; merging = m }) x ≡ item_size n x
    one x = unfold item_size in refl

    same :
        (xs : List Item)
        → total_size (record n { merging_child = c; merging = m }) xs ≡ total_size n xs
    same [] = refl
    same (x ∷ xs) = omega (arith, same xs, one x)

steps :
    (ix : Bool) (c : Option ℕ) (p : ℕ → Outcome (Option ℕ)) (f : ℕ → Outcome Node)
    → ix ≡ true
    → (unwrap c >>= λ pid. (assert ix >> (p pid >>= λ q. unwrap q >>= f)))
      ≡ ((unwrap c >>= λ pid. p pid >>= unwrap) >>= f)
steps ix none p f h = refl
steps ix (some pid) p f h = rw h (inner (p pid))
  where
    inner : (o : Outcome (Option ℕ)) → (o >>= λ q. unwrap q >>= f) ≡ ((o >>= unwrap) >>= f)
    inner (ok none) = refl
    inner (ok (some i)) = refl
    inner (err e) = refl
    inner panic = refl

idle_runs : (m : Bool) (x : Outcome Node) → m ≡ false → (assert (not m) >> x) ≡ x
idle_runs m x h = rw h refl

module _ (memcmp : Key → Key → ℤ) (libc : IsMemcmp memcmp) (n : Node) (is_node : IsNode n)
    (idle : n.merging ≡ false) where
  edit :
      (link : Link) (n' : Node)
      → Edited n (effect n link) n'
      → IsNode n'
      → (merging_after n link).0 ≡ n.merging_child
      → (merging_after n link).1 ≡ false
      → Applied n link n'
  edit link n' e i c m = record {
    is_node = i;
    items_changed = e.items_changed;
    child_changed = e.child_kept ∙ sym c;
    merging_changed = e.merging_kept ∙ idle ∙ sym m;
    bounds_kept = (e.lo_kept, e.hi_kept, e.prefix_kept);
    next_kept = e.next_kept;
  }

  mark :
      (link : Link) (c : Option ℕ) (m : Bool)
      → effect n link ≡ n.items
      → (merging_after n link).0 ≡ c
      → (merging_after n link).1 ≡ m
      → Applied n link (record n { merging_child = c; merging = m })
  mark link c m e f g = record {
    is_node = marked n c m is_node;
    items_changed = sym e;
    child_changed = sym f;
    merging_changed = sym g;
    bounds_kept = (refl, refl, refl);
    next_kept = refl;
  }

  confirm-Applied :
      Allowed n Link.parent_merge_confirm
      → (n' : Node) × (confirm_merge n ≡ ok n') × Applied n Link.parent_merge_confirm n'
  unfolding confirm_merge
  confirm-Applied (index, rest) =
      let (i, e, inside, removable) = rest in
      let (n', f, b) = remove-Becomes n is_node i inside removable in
      (
        record n' { merging_child = none },
        remove_merged index i n' e f,
        record {
          is_node = marked n' none n'.merging b.1;
          items_changed = b.0.items_changed ∙ rw (effect, e) refl;
          child_changed = refl;
          merging_changed = b.0.merging_kept ∙ idle;
          bounds_kept = (b.0.lo_kept, b.0.hi_kept, b.0.prefix_kept);
          next_kept = b.0.next_kept;
        },
      )
    where
      finish : ℕ → Outcome Node
      finish k = remove_index n k >>= λ ret. ok (record ret { merging_child = none })

      remove_merged :
          n.is_index ≡ true
          → (i : ℕ) (n' : Node) → merging_index n ≡ ok i
          → remove_index n i ≡ ok n'
          → confirm_merge n ≡ ok (record n' { merging_child = none })
      remove_merged index i n' e f =
          steps n.is_index n.merging_child (λ pid. position_of_pid pid n.items) finish index
          ∙ ap (λ o. o >>= finish) e
          ∙ ap (λ (o : Outcome Node). o >>= λ ret. ok (record ret { merging_child = none })) f

  change-Applied :
      (link : Link)
      → Allowed n link
      → (n' : Node) × (change memcmp n link ≡ ok n') × Applied n link n'
  unfolding change start_merge
  change-Applied (Link.set k v) h =
      let (n', e, b) = insert-Becomes n is_node idle h.0 memcmp libc k v h.1 h.2 h.3 h.4 h.5 in
      (n', e, edit (Link.set k v) n' b.0 b.1 refl refl)
  change-Applied (Link.replace i v) h =
      let (n', e, b) = replace-Becomes n is_node idle h.0 i v h.1 h.2 h.3 in
      (n', e, edit (Link.replace i v) n' b.0 b.1 refl refl)
  change-Applied (Link.del i) h =
      let (n', e, b) = remove-Becomes n is_node i h.0 h.1 in
      (n', e, edit (Link.del i) n' b.0 b.1 refl refl)
  change-Applied (Link.parent_merge_intention pid) h = (
    record n { merging_child = some pid },
    rw (h.0, h.1) refl,
    mark (Link.parent_merge_intention pid) (some pid) n.merging refl refl (sym idle),
  )
  change-Applied Link.parent_merge_confirm h = confirm-Applied h
  change-Applied Link.child_merge_cap h =
      (_, refl, mark Link.child_merge_cap n.merging_child true refl refl refl)

  -- A link that the tree allows is applied, to a sound node that is not being merged, without a
  -- panic: the node that it makes is sound, its items are the old map with at most one key set or
  -- removed, the merging marks are those of the link, and bounds, prefix and next are kept.
  pub apply-Applied :
      (link : Link)
      → Allowed n link
      → (n' : Node) × (apply memcmp n link ≡ ok n') × Applied n link n'
  unfolding apply
  apply-Applied link h =
      let (n', e, a) = change-Applied link h in (n', idle_runs n.merging _ idle ∙ e, a)
