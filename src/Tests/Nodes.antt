-- ===== src/Tests/Nodes.antt =====
-- Two nodes over databases with one table file.
use zenith_db.Prelude.{[], ◌∷◌, map, some, ◌≡◌, arith, All, refl}
use zenith_db.Bytes.{cmp}
use zenith_db.Bytes.Words.{le_bytes}
use zenith_db.OrdMap
use zenith_db.OrdMap.{find}
use zenith_db.VectorClock
use zenith_db.VectorClock.{increment, compare_clocks, serialize_clock}
use zenith_db.Crdt
use zenith_db.Database.Read.{get_crdt}
use zenith_db.Database.Reads.{ClockFits, local_register, winner}
use zenith_db.Transport.{put_message}
use zenith_db.Node.{Node, message_of, put}
use zenith_db.Node.Replication
use zenith_db.Node.Replication.{Received}
use zenith_db.Tests.Memory.{bump}
use zenith_db.Tests.Tables.{rand, garbage, key_d, empty_table}
use zenith_db.Tests.Clocks.{node_a, node_b}
use zenith_db.Tests.Databases.{db, old_reg, finds_old, local_fits}

abbrev writer : Node
writer = record { node_id = node_a; db = db; peers = node_b ∷ [] }

abbrev replica : Node
replica = record { node_id = node_b; db = record db { node_id = node_b }; peers = [] }

replica_finds : get_crdt 20 replica.db key_d ≡ some (some old_reg)
unfolding get_crdt
replica_finds = finds_old

wins : ClockFits (winner (local_register db (7 ∷ [])) (some old_reg))
unfolding Crdt.merge VectorClock.merge compare_clocks increment find OrdMap.insert cmp
    serialize_clock le_bytes
wins = (
  record { sorted = ((refl, tt), (tt, tt)); size = omega arith; entries = omega arith },
  omega arith,
)

put-Received_example :
    (after : Node) × (put bump rand garbage 20 writer key_d (7 ∷ [])
      ≡ some (
        after,
        map (message_of put_message writer key_d (local_register db (7 ∷ []))) (node_b ∷ []),
      ))
    × (get_crdt 20 after.db key_d ≡ some (some (local_register db (7 ∷ []))))
    × All
        (Received bump rand garbage 20 replica key_d key_d
          (local_register db (7 ∷ []))
          (some old_reg))
        (map (message_of put_message writer key_d (local_register db (7 ∷ []))) (node_b ∷ []))
put-Received_example =
    Replication.put-Received bump rand garbage 20 writer [] empty_table.models (omega arith) replica
      [] empty_table.models (omega arith) key_d (7 ∷ []) (omega arith) (some old_reg) replica_finds
      (local_fits (7 ∷ [])) wins key_d
