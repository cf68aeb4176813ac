-- ===== src/Database/Read.antt =====
-- `get_crdt`, `get`, `scan_crdt` and `scan`. A fault or an
-- exception in what they call is `none`.
use zenith_db.Prelude.{
  ℕ, List, [], ◌∷◌, ◌++◌, Option, none, some, ◌&&◌, not, ◌==◌, length, get_elem?, if◌then◌else◌,
  ◌>>=◌,
}
use zenith_db.Bytes.{Bytes, lt_bytes}
use zenith_db.Crdt
use zenith_db.Crdt.{LwwRegister}
use zenith_db.MemTable
use zenith_db.MemTable.{MemTable}
use zenith_db.Compaction.{FileEntry, merge_sorted, live_rows, value_rows}
use zenith_db.SsTable.{Rows}
use zenith_db.SsTable.Read
use zenith_db.SsTable.Read.{SsTable, is_outside}
use zenith_db.Database.{ImmNode, ZenithDb}

-- A value that is not empty.
unfoldable pub not_empty : Option Bytes → Option Bytes
not_empty none = none
not_empty (some []) = none
not_empty (some (b ∷ bs)) = some (b ∷ bs)

-- What was found, or else what the rest of the search finds.
abbrev pub or_else : Option Bytes → Option (Option Bytes) → Option (Option Bytes)
or_else none rest = rest
or_else (some v) rest = some (some v)

-- A memtable, whose range is tested first.
unfoldable pub search_mem : ℕ → Bytes → MemTable → Option (Option Bytes)
unfolding not_empty
search_mem fuel key m =
    if m.has_range && (not (lt_bytes key m.min_key) && not (lt_bytes m.max_key key))
    then (MemTable.get fuel m key >>= λ v. some (not_empty v))
    else some none

-- The loop over the frozen memtables.
unfoldable pub search_frozen : ℕ → Bytes → List ImmNode → Option (Option Bytes)
unfolding search_mem
search_frozen fuel key [] = some none
search_frozen fuel key (node ∷ nodes) =
    search_mem fuel key node.mt >>= λ found. or_else found (search_frozen fuel key nodes)

-- `std::lower_bound` over a level, which the test has to divide in two: the entries from the first
-- that may hold the key on.
unfoldable pub lower_bound : Bytes → List FileEntry → List FileEntry
lower_bound key [] = []
lower_bound key (fe ∷ fes) =
    if not (length fe.max_key == 0) && lt_bytes fe.max_key key
    then lower_bound key fes
    else fe ∷ fes

-- The loop over the entries of a level.
unfoldable pub search_level : List SsTable → Bytes → List FileEntry → Option (Option Bytes)
unfolding not_empty
search_level tables key [] = some none
search_level tables key (fe ∷ fes) =
    let rest = search_level tables key fes in
    elim fe.sst [
      | none ↦ rest
      | some s ↦
          if not (length fe.min_key == 0) && lt_bytes key fe.min_key
          then some none
          else (get_elem? tables s >>= λ t. Read.get t key >>= λ v. or_else (not_empty v) rest)
    ]

-- The loop over the levels.
unfoldable pub search_levels : List SsTable → Bytes → List (List FileEntry) → Option (Option Bytes)
unfolding lower_bound search_level
search_levels tables key [] = some none
search_levels tables key (level_vec ∷ levels) =
    search_level tables key (lower_bound key level_vec) >>= λ found.
    or_else found (search_levels tables key levels)

-- The bytes that `get_crdt` finds.
unfoldable pub find_raw : ℕ → ZenithDb → Bytes → Option (Option Bytes)
unfolding search_mem search_frozen search_levels
find_raw fuel db key = search_mem fuel key db.active_mem >>= λ in_active. or_else in_active (
    search_frozen fuel key db.immut_head >>= λ in_frozen.
    or_else in_frozen (search_levels db.tables key db.layout))

-- A register whose value is not empty.
abbrev pub readable : LwwRegister → Option LwwRegister
readable reg = elim reg.value [ [] ↦ none | b ∷ bs ↦ some reg ]

-- What `get_crdt` makes of the bytes that it found.
unfoldable pub read_register : Option Bytes → Option (Option LwwRegister)
read_register none = some none
read_register (some raw) = Crdt.deserialize raw >>= λ reg. some (readable reg)

-- `get_crdt`.
unfoldable pub get_crdt : ℕ → ZenithDb → Bytes → Option (Option LwwRegister)
unfolding find_raw read_register
get_crdt fuel db key = find_raw fuel db key >>= λ found. read_register found

-- `get`.
unfoldable pub get : ℕ → ZenithDb → Bytes → Option (Option Bytes)
unfolding get_crdt
get fuel db key =
    get_crdt fuel db key >>= λ crdt. some (elim crdt [ none ↦ none | some reg ↦ some reg.value ])

-- The rows of the frozen memtables.
unfoldable pub scan_frozen : ℕ → Bytes → Bytes → List ImmNode → Option Rows
scan_frozen fuel start end [] = some []
scan_frozen fuel start end (node ∷ nodes) = do
  part ← MemTable.scan fuel node.mt start end
  rows ← scan_frozen fuel start end nodes
  some (part ++ rows)

-- The rows of the table files of a level.
unfoldable pub scan_level : List SsTable → Bytes → Bytes → List FileEntry → Option Rows
unfolding is_outside
scan_level tables start end [] = some []
scan_level tables start end (fe ∷ fes) =
    let rest = scan_level tables start end fes in
    elim fe.sst [
      | none ↦ rest
      | some s ↦ get_elem? tables s >>= λ t.
          if is_outside t.meta start end
          then rest
          else (Read.scan t start end >>= λ part. rest >>= λ rows. some (part ++ rows))
    ]

unfoldable pub scan_levels : List SsTable → Bytes → Bytes → List (List FileEntry) → Option Rows
unfolding scan_level
scan_levels tables start end [] = some []
scan_levels tables start end (level_vec ∷ levels) = do
  part ← scan_level tables start end level_vec
  rows ← scan_levels tables start end levels
  some (part ++ rows)

-- All rows in the range, as `scan_crdt` collects them.
unfoldable pub raw_rows : ℕ → ZenithDb → Bytes → Bytes → Option Rows
unfolding scan_frozen scan_levels
raw_rows fuel db start end = do
  in_active ← MemTable.scan fuel db.active_mem start end
  in_frozen ← scan_frozen fuel start end db.immut_head
  in_tables ← scan_levels db.tables start end db.layout
  some (in_active ++ (in_frozen ++ in_tables))

-- `std::sort` of rows by their keys leaves open how equal keys stand, so it is a parameter.
module _ (sort : Rows → Rows) where
  -- `scan_crdt`.
  unfoldable pub scan_crdt : ℕ → ZenithDb → Bytes → Bytes → Option (List (Bytes × LwwRegister))
  unfolding raw_rows merge_sorted live_rows
  scan_crdt fuel db start end =
      if lt_bytes end start
      then some []
      else (raw_rows fuel db start end >>= λ raw.
          merge_sorted (sort raw) >>= λ final_raw. live_rows final_raw)

  -- `scan`.
  unfoldable pub scan : ℕ → ZenithDb → Bytes → Bytes → Option Rows
  unfolding scan_crdt value_rows
  scan fuel db start end = scan_crdt fuel db start end >>= λ rows. some (value_rows rows)
