-- ===== src/VectorClock/Join.antt =====
-- `merge` is the join of two clocks: counters, map entries, and the laws of a semilattice.
use zenith_db.Prelude.{
  ℕ, List, [], ◌∷◌, Option, none, some, ◌≡◌, refl, sym, ap, ◌∙◌, max, arith, All,
}
use mathlib.Core.List.{foldr, Perm}
use mathlib.Core.List.Perm
use zenith_db.Bytes.{Bytes, eq_of_cmp}
use zenith_db.OrdMap.{find, insert, IsSorted}
use zenith_db.OrdMap.Laws.{find-insert, insert-IsSorted, find-AllAfter}
use zenith_db.OrdMap.Ext.{eq_of_find}
use zenith_db.VectorClock.{VectorClock, counter, merge}
use zenith_db.VectorClock.Compare.{Below}

-- The entry of a merged map at a node.
abbrev pub join : Option ℕ → Option ℕ → Option ℕ
join o none = o
join none (some m) = some m
join (some n) (some m) = some (max n m)

-- An entry of the merged clock is there if either clock has one, and is the larger.
pub find-merge :
    (a b : VectorClock) → IsSorted b → (q : Bytes) → find q (merge a b) ≡ join (find q a) (find q b)
unfolding merge find
find-merge a [] s q = refl
find-merge a ((k, n) ∷ b) s q = ground (
  arith,
  find-merge (insert k (max (counter a k) n) a) b s.1 q,
  find-insert q k (max (counter a k) n) a,
  find-AllAfter k b s.0,
  eq_of_cmp q k,
)

pub merge-IsSorted : (a b : VectorClock) → IsSorted a → IsSorted (merge a b)
unfolding merge
merge-IsSorted a [] s = s
merge-IsSorted a ((k, n) ∷ b) s =
    merge-IsSorted (insert k (max (counter a k) n) a) b (insert-IsSorted k _ a s)

-- A counter of the merged clock is the larger of the two, at every node, if the other clock is
-- sorted.
pub counter-merge :
    (a b : VectorClock)
    → IsSorted b
    → (q : Bytes) → counter (merge a b) q ≡ max (counter a q) (counter b q)
counter-merge a b s q = ground (arith, find-merge a b s q)

module _ (a b : VectorClock) (sa : IsSorted a) (sb : IsSorted b) where
  -- Merging two sorted clocks in either direction gives the same map, entry for entry.
  pub merge_comm : merge a b ≡ merge b a
  merge_comm =
      eq_of_find _ _ (merge-IsSorted a b sa) (merge-IsSorted b a sb)
        λ q. ground (arith, find-merge a b sb q, find-merge b a sa q)

  -- Merging with a clock that is nowhere greater changes no counter.
  pub merge-Below : Below b a → (q : Bytes) → counter (merge a b) q ≡ counter a q
  merge-Below h q = ground (arith, counter-merge a b sb q, h q)

-- A clock merged with itself stays the same map.
pub merge_self : (a : VectorClock) → IsSorted a → merge a a ≡ a
merge_self a s = eq_of_find _ _ (merge-IsSorted a a s) s λ q. ground (arith, find-merge a a s q)

-- Merging three sorted clocks may be bracketed either way.
pub merge_assoc :
    (a b c : VectorClock)
    → IsSorted a
    → IsSorted b
    → IsSorted c
    → merge (merge a b) c ≡ merge a (merge b c)
merge_assoc a b c sa sb sc =
    eq_of_find _ _ (merge-IsSorted _ c (merge-IsSorted a b sa)) (merge-IsSorted a _ sa) λ q.
      ground (
        arith,
        find-merge (merge a b) c sc q,
        find-merge a b sb q,
        find-merge a (merge b c) (merge-IsSorted b c sb) q,
        find-merge b c sc q,
      )

-- The clock after those that arrive are merged into it in turn.
abbrev pub merge_clocks : VectorClock → List VectorClock → VectorClock
merge_clocks c [] = c
merge_clocks c (x ∷ xs) = merge_clocks (merge c x) xs

merge_clocks-IsSorted :
    (c : VectorClock) (xs : List VectorClock)
    → IsSorted c
    → All IsSorted xs
    → IsSorted (merge_clocks c xs)
merge_clocks-IsSorted c [] s h = s
merge_clocks-IsSorted c (x ∷ xs) s h =
    merge_clocks-IsSorted (merge c x) xs (merge-IsSorted c x s) h.1

join_swap : (p r o : Option ℕ) → join (join o r) p ≡ join (join o p) r
join_swap none r o = refl
join_swap (some n) none o = refl
join_swap (some n) (some m) none = ground arith
join_swap (some n) (some m) (some k) = ground arith

module _ (q : Bytes) where
  -- The entries that several clocks have at a node, joined to one.
  join_at : VectorClock → Option ℕ → Option ℕ
  join_at x o = join o (find q x)

  joined-join :
      (xs : List VectorClock) (o p : Option ℕ)
      → foldr join_at (join o p) xs ≡ join (foldr join_at o xs) p
  unfolding join_at
  joined-join [] o p = refl
  joined-join (x ∷ xs) o p =
      ap (join_at x) (joined-join xs o p) ∙ join_swap (find q x) p (foldr join_at o xs)

  find-merge_clocks :
      (c : VectorClock) (xs : List VectorClock)
      → All IsSorted xs
      → find q (merge_clocks c xs) ≡ foldr join_at (find q c) xs
  unfolding join_at
  find-merge_clocks c [] h = refl
  find-merge_clocks c (x ∷ xs) h =
      find-merge_clocks (merge c x) xs h.1
      ∙ ap (λ o. foldr join_at o xs) (find-merge c x h.0 q)
      ∙ joined-join xs (find q c) (find q x)

  find-merge_clocks-perm :
      (c : VectorClock) (xs ys : List VectorClock)
      → All IsSorted xs
      → All IsSorted ys
      → Perm xs ys
      → find q (merge_clocks c xs) ≡ find q (merge_clocks c ys)
  unfolding join_at
  find-merge_clocks-perm c xs ys hx hy order =
      find-merge_clocks c xs hx
      ∙ Perm.foldr-eq (hlevel) join_at (λ x y o. join_swap (find q x) (find q y) o) order (find q c)
      ∙ sym (find-merge_clocks c ys hy)

-- Merging sorted clocks into a sorted clock one after the other gives the same map in whatever
-- order they come.
pub merge_clocks-perm :
    (c : VectorClock) (xs ys : List VectorClock)
    → IsSorted c
    → All IsSorted xs
    → All IsSorted ys
    → Perm xs ys
    → merge_clocks c xs ≡ merge_clocks c ys
merge_clocks-perm c xs ys s hx hy order =
    eq_of_find _ _ (merge_clocks-IsSorted c xs s hx) (merge_clocks-IsSorted c ys s hy)
      λ q. find-merge_clocks-perm q c xs ys hx hy order
