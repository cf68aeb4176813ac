-- ===== src/Tests/Registers.antt =====
-- Registers written at two nodes.
use zenith_db.Prelude.{
  ◌⊎◌, ◌++◌, ◌+◌, ◌^◌, ◌≤◌, ◌<◌, [], ◌∷◌, some, ◌≡◌, ◌≢◌, ◌↔◌, inl, inr, refl, arith, length, take,
}
use zenith_db.Bytes.{Bytes, cmp}
use zenith_db.Bytes.Words.{le_bytes, le_value}
use zenith_db.OrdMap.{find}
use zenith_db.VectorClock.{equal, happens_before, compare_clocks, serialize_clock}
use zenith_db.VectorClock.Compare.{compare_clocks_iff}
use zenith_db.Crdt.{
  LwwRegister, merge, serialize, deserialize, register, length_error, past_end, decode,
  clock_within,
}
use zenith_db.Crdt.Merge
use zenith_db.Crdt.Delivery
use zenith_db.Crdt.Delivery.{merge_all, put_all, IsFork, IsSeen}
use zenith_db.Crdt.Codec
use zenith_db.Tests.Clocks.{
  node_a, node_b, clock_a, clock_a2, clock_b, clock_ab, IsNormal-ab, IsNormal-a, IsNormal-a2,
  IsNormal-b, Fits-ab,
}

program : Unit {0}
unfolding compare_clocks find cmp merge serialize deserialize decode clock_within serialize_clock
    le_bytes le_value
program = tt

-- "c" at {a: 1}, "b" at {b: 1}, "a" at {a: 2}, and "d" at {a: 1, b: 2}.
abbrev pub first : LwwRegister
first = record { value = 99 ∷ []; clock = clock_a }

abbrev pub other : LwwRegister
other = record { value = 98 ∷ []; clock = clock_b }

abbrev pub second : LwwRegister
second = record { value = 97 ∷ []; clock = clock_a2 }

abbrev pub latest : LwwRegister
latest = record { value = 100 ∷ []; clock = clock_ab }

merge_comm_lem_example : merge first other ≡ merge other first
unfolding program
merge_comm_lem_example = Merge.merge_comm_lem first other IsNormal-a IsNormal-b (λ e. absurd (cc))

IsSeen-first : IsSeen latest node_b first
unfolding program
IsSeen-first = record {
  normal = IsNormal-a;
  below = ((compare_clocks_iff happens_before clock_a clock_ab).0 refl).0;
  less = omega arith;
}

IsSeen-other : IsSeen latest node_b other
unfolding program
IsSeen-other = record {
  normal = IsNormal-b;
  below = ((compare_clocks_iff happens_before clock_b clock_ab).0 refl).0;
  less = omega arith;
}

merge_all_dominant_example : merge_all first (other ∷ latest ∷ first ∷ latest ∷ []) ≡ latest
merge_all_dominant_example =
    Delivery.merge_all_dominant latest node_b IsNormal-ab first (other ∷ []) (first ∷ latest ∷ [])
      (inr IsSeen-first) (inr IsSeen-other, tt) (inr IsSeen-first, (inl refl, tt))

fork : IsFork first other second node_a
unfolding program
fork = record {
  normal_x = IsNormal-a;
  normal_y = IsNormal-b;
  normal_w = IsNormal-a2;
  overwritten = ((compare_clocks_iff happens_before clock_a clock_a2).0 refl).0;
  beyond_x = omega arith;
  beyond_y = omega arith;
  x_apart = (node_a, omega arith);
  y_apart = (node_b, omega arith);
  least = refl;
  middle = refl;
}

put_all_diverges_example :
    ((put_all first (other ∷ second ∷ [])).value ≡ 99 ∷ [])
    × ((put_all second (first ∷ other ∷ [])).value ≡ 98 ∷ [])
    × (first.value ≢ other.value)
    × (compare_clocks
          (put_all first (other ∷ second ∷ [])).clock
          (put_all second (first ∷ other ∷ [])).clock
        ≡ equal)
put_all_diverges_example = Delivery.put_all_diverges first other second node_a fork

deserialize-serialize_example : deserialize (serialize latest) ≡ some latest
unfolding program
deserialize-serialize_example = Codec.deserialize-serialize latest Fits-ab (omega arith)

-- A length that wraps the sum, in front of a clock that claims no entry, and of nothing.
abbrev wrapping_length : Bytes
wrapping_length = 255 ∷ 255 ∷ 255 ∷ 255 ∷ []

abbrev no_entries : Bytes
no_entries = 0 ∷ 0 ∷ 0 ∷ 0 ∷ []

error_runs :
    (decode (wrapping_length ++ no_entries) ≡ length_error) × (decode wrapping_length ≡ past_end)
unfolding program
error_runs = (refl, refl)

-- A clock that claims 5 entries and holds none, behind its length.
abbrev broken : Bytes
broken = 4 ∷ 0 ∷ 0 ∷ 0 ∷ 5 ∷ 0 ∷ 0 ∷ 0 ∷ 7 ∷ []

decode_iff_example : ((r : LwwRegister) × (decode broken ≡ register r)) ↔ (
    (length broken < 4)
    ⊎ ((4 + le_value (take 4 broken) < 2 ^ 32) ⊎ (4 + le_value (take 4 broken) ≤ length broken)))
unfolding program
decode_iff_example = Codec.decode_iff broken (omega arith)
