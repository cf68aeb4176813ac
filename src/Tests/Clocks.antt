-- ===== src/Tests/Clocks.antt =====
-- Vector clocks of two nodes.
use zenith_db.Prelude.{[], ◌∷◌, ◌++◌, ◌≡◌, ◌↔◌, refl, arith}
use zenith_db.Bytes.{Bytes, cmp}
use zenith_db.OrdMap.{find, insert, IsSorted}
use zenith_db.VectorClock.{
  VectorClock, equal, happens_before, happens_after, concurrent, increment, merge, compare_clocks,
  serialize_clock, deserialize_clock,
}
use zenith_db.VectorClock.Compare
use zenith_db.VectorClock.Compare.{Relates, flip}
use zenith_db.VectorClock.Join
use zenith_db.VectorClock.Join.{merge_clocks}
use mathlib.Core.List.Perm
use zenith_db.VectorClock.Normal.{IsNormal}
use zenith_db.VectorClock.Codec
use zenith_db.VectorClock.Codec.{Fits}

abbrev pub node_a : Bytes
node_a = 97 ∷ []

abbrev pub node_b : Bytes
node_b = 98 ∷ []

-- {a: 1}, {a: 2}, {b: 1} and {a: 1, b: 2}.
abbrev pub clock_a : VectorClock
clock_a = (node_a, 1) ∷ []

abbrev pub clock_a2 : VectorClock
clock_a2 = (node_a, 2) ∷ []

abbrev pub clock_b : VectorClock
clock_b = (node_b, 1) ∷ []

abbrev pub clock_ab : VectorClock
clock_ab = (node_a, 1) ∷ (node_b, 2) ∷ []

compare_runs :
    (compare_clocks clock_a clock_b ≡ concurrent)
    × (compare_clocks clock_a clock_ab ≡ happens_before)
    × (compare_clocks clock_ab clock_b ≡ happens_after)
    × (compare_clocks clock_ab clock_ab ≡ equal)
unfolding compare_clocks find cmp
compare_runs = (refl, refl, refl, refl)

write_runs :
    (increment node_b clock_a ≡ (node_a, 1) ∷ (node_b, 1) ∷ [])
    × (merge clock_a2 clock_ab ≡ (node_a, 2) ∷ (node_b, 2) ∷ [])
unfolding increment merge find insert cmp
write_runs = (refl, refl)

pub IsSorted-ab : IsSorted clock_ab
unfolding cmp
IsSorted-ab = ((refl, tt), (tt, tt))

pub IsNormal-ab : IsNormal clock_ab
IsNormal-ab = record { sorted = IsSorted-ab; positive = omega arith }

pub IsNormal-a : IsNormal clock_a
IsNormal-a = record { sorted = (tt, tt); positive = omega arith }

pub IsNormal-a2 : IsNormal clock_a2
IsNormal-a2 = record { sorted = (tt, tt); positive = omega arith }

pub IsNormal-b : IsNormal clock_b
IsNormal-b = record { sorted = (tt, tt); positive = omega arith }

pub Fits-ab : Fits clock_ab
Fits-ab = record { sorted = IsSorted-ab; size = omega arith; entries = omega arith }

compare_clocks_iff_example :
    (compare_clocks clock_a clock_ab ≡ happens_before) ↔ Relates happens_before clock_a clock_ab
compare_clocks_iff_example = Compare.compare_clocks_iff happens_before clock_a clock_ab

merge_comm_example : merge clock_a2 clock_ab ≡ merge clock_ab clock_a2
merge_comm_example = Join.merge_comm clock_a2 clock_ab (tt, tt) IsSorted-ab

merge_clocks-perm_example :
    merge_clocks clock_a2 (clock_ab ∷ clock_b ∷ clock_a ∷ [])
    ≡ merge_clocks clock_a2 (clock_b ∷ clock_ab ∷ clock_a ∷ [])
merge_clocks-perm_example =
    Join.merge_clocks-perm clock_a2 (clock_ab ∷ clock_b ∷ clock_a ∷ [])
      (clock_b ∷ clock_ab ∷ clock_a ∷ []) (tt, tt) (IsSorted-ab, ((tt, tt), ((tt, tt), tt)))
      ((tt, tt), (IsSorted-ab, ((tt, tt), tt))) (Perm.swap clock_b clock_ab (clock_a ∷ []))

deserialize_clock-serialize_clock_example :
    deserialize_clock (serialize_clock clock_ab ++ 7 ∷ []) ≡ clock_ab
deserialize_clock-serialize_clock_example =
    Codec.deserialize_clock-serialize_clock clock_ab (7 ∷ []) Fits-ab
