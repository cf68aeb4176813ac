-- ===== src/MemTable.antt =====
-- The memtable: src/memtable.h and src/memtable.cpp. The arena is that of the skip list.
pub mod Contract
pub mod Scan
pub mod Refines
use zenith_db.Prelude.{
  ℕ, zero, suc, List, [], ◌∷◌, Option, none, some, Bool, true, false, ◌>>=◌, if◌then◌else◌,
}
use zenith_db.Bytes.{Bytes, lt_bytes}
use zenith_db.Arena.{Allocator, new_arena}
use zenith_db.SkipList
use zenith_db.SkipList.{SkipList, Heap, next_of, new_skip_list}
use zenith_db.SkipList.Iterator.{seek, seek_to_first}

pub record MemTable : Type 0 where
  pub table : SkipList
  pub has_range : Bool
  pub min_key : Bytes
  pub max_key : Bytes

abbrev pub Rows : Type 0
Rows = List (Bytes × Bytes)

unfoldable pub update_range : MemTable → Bytes → MemTable
update_range m key =
    if m.has_range
    then record m {
      min_key = if lt_bytes key m.min_key then key else m.min_key;
      max_key = if lt_bytes m.max_key key then key else m.max_key;
    }
    else record m { has_range = true; min_key = key; max_key = key }

-- `approximate_size`.
abbrev pub approximate_size : MemTable → ℕ
approximate_size m = m.table.arena.memory_usage

unfoldable pub get : ℕ → MemTable → Bytes → Option (Option Bytes)
get fuel m key = SkipList.get fuel m.table key

-- The loop of `scan` from where the iterator stands, on fuel.
unfoldable pub scan_loop : ℕ → Heap → Bytes → Option ℕ → Option Rows
scan_loop fuel heap end none = some []
scan_loop zero heap end (some x) = none
scan_loop (suc fuel) heap end (some x) = elim (heap x) [
  | none ↦ none
  | some node ↦
      let rest = do
        after ← next_of heap x 0
        rows ← scan_loop fuel heap end after
        some ((node.key, node.value) ∷ rows)
      in if lt_bytes end node.key then some [] else rest
]

unfoldable pub scan : ℕ → MemTable → Bytes → Bytes → Option Rows
unfolding seek scan_loop
scan fuel m start end =
    if lt_bytes end start
    then some []
    else (seek fuel m.table start) >>= λ x. scan_loop fuel m.table.heap end x

-- The loop of `sorted_entries`, on fuel.
unfoldable pub entries_loop : ℕ → Heap → Option ℕ → Option Rows
entries_loop fuel heap none = some []
entries_loop zero heap (some x) = none
entries_loop (suc fuel) heap (some x) = do
  node ← heap x
  after ← next_of heap x 0
  rows ← entries_loop fuel heap after
  some ((node.key, node.value) ∷ rows)

unfoldable pub sorted_entries : ℕ → MemTable → Option Rows
unfolding seek_to_first entries_loop
sorted_entries fuel m = do x ← seek_to_first m.table; entries_loop fuel m.table.heap x

module _ (env : Allocator) (garbage : ℕ → Option ℕ) where
  -- The constructor.
  unfoldable pub new_mem_table : ℕ → Option MemTable
  new_mem_table draws = do
    table ← new_skip_list env garbage new_arena draws
    some (record { table = table; has_range = false; min_key = []; max_key = [] })

module _ (env : Allocator) (rand : ℕ → ℕ) (garbage : ℕ → Option ℕ) where
  unfoldable pub put : ℕ → MemTable → Bytes → Bytes → Option MemTable
  unfolding update_range
  put fuel m key value = do
    table ← SkipList.insert env rand garbage fuel m.table key value
    some (update_range (record m { table = table }) key)

  -- A tombstone: the empty value.
  unfoldable pub remove : ℕ → MemTable → Bytes → Option MemTable
  unfolding update_range
  remove fuel m key = do
    table ← SkipList.insert env rand garbage fuel m.table key []
    some (update_range (record m { table = table }) key)
