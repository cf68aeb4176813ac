-- ===== src/MemTable/Contract.antt =====
-- What a memtable promises: it is a sorted map with a range that covers its keys.
use zenith_db.Prelude.{List, Option, some, true, false, ◌≡◌, All}
use zenith_db.Bytes.{Bytes, lt_bytes}
use zenith_db.OrdMap.{OrdMap}
use zenith_db.SkipList.Chain.{Entry}
use zenith_db.SkipList.View.{view}
use zenith_db.SkipList.Invariant.{IsChain}
use zenith_db.MemTable.{MemTable}

-- A key within the recorded range.
abbrev pub InRange : MemTable → Bytes → Type 0
InRange m k = (m.has_range ≡ true) × (lt_bytes k m.min_key ≡ false) × (lt_bytes m.max_key k ≡ false)

pub record IsMemTable (m : MemTable) (order : List Entry) : Type 0 where
  pub chain : IsChain m.table order
  pub covered : All (λ (e : Bytes × Bytes). InRange m e.0) (view order)

-- The memtable stands for the map.
pub record Models (m : MemTable) (map : OrdMap Bytes) : Type 0 where
  pub order : List Entry
  pub valid : IsMemTable m order
  pub view_eq : view order ≡ map

-- A call that returns a memtable which stands for the map.
pub record Leaves (result : Option MemTable) (map : OrdMap Bytes) : Type 0 where
  pub after : MemTable
  pub returns : result ≡ some after
  pub models : Models after map
