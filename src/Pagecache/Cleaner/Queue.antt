-- ===== src/Pagecache/Cleaner/Queue.antt =====
-- Everything that is handed to the cleaner is popped once (src/pagecache/segment.rs).
use sled.Prelude.{
  ℕ, zero, suc, ◌≡◌, refl, arith, true, Option, none, some, List, [], ◌∷◌, ◌++◌, ltb, map, All,
}
use sled.Prelude.Sorted.{
  remove_set, remove, Ascending, ltb-StrictOrder, same_key_refl, Ascending-absent,
  remove_set-absent,
}
use sled.Pagecache.Cleaner.{Cleaner, pop}

-- The offsets ascend, and so do the pages of each segment.
abbrev pub IsCleaner : Cleaner → Type 0
IsCleaner [] = Unit
IsCleaner (e ∷ inner) =
    All (λ f. ltb e.0 f.0 ≡ true) inner × (Ascending ltb-StrictOrder e.1 × IsCleaner inner)

-- What is still to be moved, in the order of the offsets and of the pages.
unfoldable pub pending : Cleaner → List (ℕ × ℕ)
pending [] = []
pending (e ∷ inner) = map (λ pid. (pid, e.0)) e.1 ++ pending inner

abbrev pops_of : List ℕ → ℕ → ℕ
pops_of [] n = n
pops_of (pid ∷ pids) n = suc (pops_of pids n)

-- The pops that empty the cleaner: one for each page, and one for each segment.
unfoldable pub pops : Cleaner → ℕ
pops [] = 0
pops (e ∷ inner) = pops_of e.1 (suc (pops inner))

push_some : Option (ℕ × ℕ) → List (ℕ × ℕ) → List (ℕ × ℕ)
push_some none moves = moves
push_some (some m) moves = m ∷ moves

-- The pages that `n` calls of `pop` give, and what is left.
unfoldable pub pop_all : ℕ → Cleaner → List (ℕ × ℕ) × Cleaner
unfolding pop push_some
pop_all zero inner = ([], inner)
pop_all (suc n) inner =
    let (moves, rest) = pop_all n (pop inner).1 in (push_some (pop inner).0 moves, rest)

remove-above :
    (offset : ℕ) (inner : Cleaner)
    → All (λ f. ltb offset f.0 ≡ true) inner
    → remove ltb offset inner ≡ inner
unfolding remove
remove-above offset [] h = refl
remove-above offset ((o, pids) ∷ inner) h = ground (arith, h.0, remove-above offset inner h.1)

remove-first :
    (offset : ℕ) (inner : Cleaner)
    → All (λ f. ltb offset f.0 ≡ true) inner
    → remove ltb offset ((offset, []) ∷ inner) ≡ inner
remove-first offset inner h =
    unfold remove in rw (same_key_refl ltb-StrictOrder offset) (remove-above offset inner h)

remove_set-first :
    (pid : ℕ) (pids : List ℕ)
    → Ascending ltb-StrictOrder (pid ∷ pids)
    → remove_set ltb pid (pid ∷ pids) ≡ pids
remove_set-first pid pids h =
    unfold remove_set in
    rw (same_key_refl ltb-StrictOrder pid)
      (remove_set-absent ltb-StrictOrder pid pids (Ascending-absent ltb-StrictOrder pid pids h.0))

pop_all-from :
    (offset : ℕ) (pids : List ℕ) (inner : Cleaner)
    → IsCleaner ((offset, pids) ∷ inner)
    → pop_all (pops inner) inner ≡ (pending inner, [])
    → pop_all (pops_of pids (suc (pops inner))) ((offset, pids) ∷ inner)
      ≡ (map (λ pid. (pid, offset)) pids ++ pending inner, [])
unfolding pop_all pop push_some
pop_all-from offset [] inner v rest = rw (remove-first offset inner v.0, rest) refl
pop_all-from offset (pid ∷ pids) inner v rest =
    rw
      (remove_set-first pid pids v.1.0, pop_all-from offset pids inner (v.0, (v.1.0.1, v.1.1)) rest)
      refl

-- From a cleaner that is in order, as many pops as it has pages and segments give each of its pages
-- once, by the offsets of the segments and then by the pages, and leave it empty.
pub pop_all-pending :
    (inner : Cleaner) → IsCleaner inner → pop_all (pops inner) inner ≡ (pending inner, [])
unfolding pop_all pending pops
pop_all-pending [] v = refl
pop_all-pending ((offset, pids) ∷ inner) v =
    pop_all-from offset pids inner v (pop_all-pending inner v.1.1)
