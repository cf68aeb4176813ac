-- ===== src/VectorClock/Nodes.antt =====
-- The nodes that `compare` runs over hold every key of both clocks.
use mathlib.Core.Path.{subst}
use zenith_db.Prelude.{ℕ, List, [], ◌∷◌, ◌++◌, some, ◌≡◌, sym, inl, inr, arith, All, Bool-cases}
use zenith_db.Bytes.{Bytes, eq_bytes, eq_bytes_iff}
use zenith_db.OrdMap.{find, keys}
use zenith_db.VectorClock.{VectorClock, insert_node, sort_nodes, unique}

module _ (P : Bytes → Type 0) where
  All-insert_node : (n : Bytes) (ms : List Bytes) → All P (insert_node n ms) → P n × All P ms
  unfolding insert_node
  All-insert_node n [] h = (h.0, tt)
  All-insert_node n (m ∷ ms) h = ground (arith, All-insert_node n ms)

  All-sort_nodes : (ns : List Bytes) → All P (sort_nodes ns) → All P ns
  unfolding sort_nodes
  All-sort_nodes [] h = tt
  All-sort_nodes (n ∷ ns) h =
      let (here, rest) = All-insert_node n (sort_nodes ns) h in (here, All-sort_nodes ns rest)

  All-unique : (ns : List Bytes) → All P (unique ns) → All P ns
  unfolding unique
  All-unique [] h = tt
  All-unique (n ∷ []) h = h
  All-unique (n ∷ m ∷ ms) h = elim (Bool-cases (eq_bytes n m)) [
    | inl same ↦
        let rest = All-unique (m ∷ ms) (ground arith) in
        (subst P (sym ((eq_bytes_iff n m).0 same)) rest.0, rest)
    | inr other ↦ (ground arith, All-unique (m ∷ ms) (ground arith))
  ]

  All-of_append : (xs ys : List Bytes) → All P (xs ++ ys) → All P xs × All P ys
  All-of_append [] ys h = (tt, h)
  All-of_append (x ∷ xs) ys h = let (hx, hy) = All-of_append xs ys h.1 in ((h.0, hx), hy)

  -- What holds of all keys holds of a key that is found.
  pub All-keys : (m : VectorClock) (n : Bytes) (c : ℕ) → All P (keys m) → find n m ≡ some c → P n
  unfolding find
  All-keys [] n c h e = cc
  All-keys ((k, v) ∷ m) n c h e = elim (Bool-cases (eq_bytes n k)) [
    | inl same ↦ subst P (sym ((eq_bytes_iff n k).0 same)) h.0
    | inr other ↦ All-keys m n c h.1 (ground arith)
  ]

-- The nodes of the loop hold all keys of both clocks.
abbrev pub nodes : VectorClock → VectorClock → List Bytes
nodes a b = unique (sort_nodes (keys a ++ keys b))

pub All-nodes :
    (P : Bytes → Type 0) (a b : VectorClock) → All P (nodes a b) → All P (keys a) × All P (keys b)
All-nodes P a b h = All-of_append P (keys a) (keys b) (All-sort_nodes P _ (All-unique P _ h))
