-- ===== src/VectorClock.antt =====
-- Vector clocks: src/vector_clock.h.
mod Nodes
pub mod Compare
pub mod Join
pub mod Normal
pub mod Codec
use zenith_db.Prelude.{
  ℕ, zero, suc, ◌+◌, ◌%◌, ◌^◌, List, [], ◌∷◌, ◌++◌, Option, none, some, Bool, true, false, ◌&&◌,
  not, Ordering, if◌then◌else◌, ltb, max, length, take, drop,
}
use zenith_db.Bytes.{Bytes, cmp, eq_bytes}
use zenith_db.Bytes.Words.{le_bytes, le_value}
use zenith_db.OrdMap.{OrdMap, find, insert, keys}

-- `enum class ClockOrder`.
pub data ClockOrder : Type 0 where
  equal happens_before happens_after concurrent : ClockOrder

-- `std::map<NodeID, Counter> clock`.
abbrev pub VectorClock : Type 0
VectorClock = OrdMap ℕ

abbrev pub or_zero : Option ℕ → ℕ
or_zero none = 0
or_zero (some c) = c

-- A node's counter; 0 where the map has none.
abbrev pub counter : VectorClock → Bytes → ℕ
counter c n = or_zero (find n c)

-- `clock[node]++` on a 64-bit counter.
unfoldable pub increment : Bytes → VectorClock → VectorClock
increment node c = insert node ((counter c node + 1) % 2 ^ 64) c

-- The loop of `merge` over the entries of the other clock.
unfoldable pub merge : VectorClock → VectorClock → VectorClock
merge c [] = c
merge c ((node, n) ∷ other) = merge (insert node (max (counter c node) n) c) other

-- `std::sort` on the nodes, as an insertion.
pub insert_node : Bytes → List Bytes → List Bytes
insert_node n [] = n ∷ []
insert_node n (m ∷ ms) =
    let rest = insert_node n ms in elim (cmp n m) [ Ordering.gt ↦ m ∷ rest | _ ↦ n ∷ m ∷ ms ]

pub sort_nodes : List Bytes → List Bytes
unfolding insert_node
sort_nodes [] = []
sort_nodes (n ∷ ns) = insert_node n (sort_nodes ns)

-- `std::unique` and `erase`: drops a node that equals the one before it.
pub unique : List Bytes → List Bytes
unique [] = []
unique (n ∷ []) = n ∷ []
unique (n ∷ m ∷ ms) = let rest = unique (m ∷ ms) in if eq_bytes n m then rest else n ∷ rest

-- The loop of `compare` over the nodes, with its two flags.
compare_loop : VectorClock → VectorClock → List Bytes → Bool → Bool → Bool × Bool
compare_loop a b [] this_has_greater other_has_greater = (this_has_greater, other_has_greater)
compare_loop a b (n ∷ ns) this_has_greater other_has_greater =
    compare_loop a b ns (if ltb (counter b n) (counter a n) then true else this_has_greater)
      (if ltb (counter a n) (counter b n) then true else other_has_greater)

-- The chain of returns at the end of `compare`.
verdict : Bool × Bool → ClockOrder
verdict (this_has_greater, other_has_greater) =
    if not this_has_greater && not other_has_greater
    then equal
    else if this_has_greater && not other_has_greater
    then happens_after
    else if not this_has_greater && other_has_greater
    then happens_before
    else concurrent

unfoldable pub compare_clocks : VectorClock → VectorClock → ClockOrder
unfolding sort_nodes unique compare_loop verdict
compare_clocks a b = verdict (compare_loop a b (unique (sort_nodes (keys a ++ keys b))) false false)

-- `serialize`: the number of entries, then for each the node's length, the node and its counter.
unfoldable pub serialize_entries : VectorClock → Bytes
serialize_entries [] = []
serialize_entries ((node, count) ∷ c) =
    le_bytes 4 (length node) ++ (node ++ (le_bytes 8 count ++ serialize_entries c))

unfoldable pub serialize_clock : VectorClock → Bytes
unfolding serialize_entries
serialize_clock c = le_bytes 4 (length c) ++ serialize_entries c

-- The loop of `deserialize`, over the bytes from `ptr` to the end; a short rest breaks it.
unfoldable pub read_entries : ℕ → Bytes → VectorClock → VectorClock
read_entries zero rest vc = vc
read_entries (suc i) rest vc =
    let nlen = le_value (take 4 rest) in
    let body = drop 4 rest in
    let tail = drop nlen body in
    let next = read_entries i (drop 8 tail) (insert (take nlen body) (le_value (take 8 tail)) vc) in
    if ltb (length rest) 4 then vc else if ltb (length body) (nlen + 8) then vc else next

unfoldable pub deserialize_clock : Bytes → VectorClock
unfolding read_entries
deserialize_clock bytes =
    if ltb (length bytes) 4 then [] else read_entries (le_value (take 4 bytes)) (drop 4 bytes) []
