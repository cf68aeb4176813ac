-- ===== src/Wal/Table.antt =====
-- What the log asks of a table that it replays into, and the memtable as such a table.
use zenith_db.Prelude.{ℕ, ◌≤◌, [], Option, some, ◌≡◌, length}
use zenith_db.Bytes.{Bytes}
use zenith_db.OrdMap
use zenith_db.OrdMap.{OrdMap}

pub record TableOps (T : Type 0) : Type 0 where
  pub put : Bytes → Bytes → T → Option T
  pub remove : Bytes → T → Option T

-- The table after a call, and the map that it stands for.
pub record Yields {T : Type 0} (Models : T → OrdMap Bytes → Type 0) (result : Option T)
    (map : OrdMap Bytes) : Type 0 where
  pub after : T
  pub returns : result ≡ some after
  pub models : Models after map

-- Up to a number of entries the operations are those of a sorted map.
pub record TableLaws {T : Type 0} (ops : TableOps T) : Type 1 where
  pub Models : T → OrdMap Bytes → Type 0
  pub limit : ℕ
  pub put_lem :
      (t : T) (map : OrdMap Bytes) (key value : Bytes)
      → Models t map
      → length map ≤ limit
      → Yields Models (ops.put key value t) (OrdMap.insert key value map)
  pub remove_lem :
      (t : T) (map : OrdMap Bytes) (key : Bytes)
      → Models t map
      → length map ≤ limit
      → Yields Models (ops.remove key t) (OrdMap.insert key [] map)
