-- ===== src/Tests/Databases.antt =====
-- A database with an empty memtable and one table file.
use zenith_db.Prelude.{
  [], ◌∷◌, none, some, false, ◌≡◌, refl, arith, length, ◌<◌, ◌^◌, if◌then◌else◌,
}
use zenith_db.Bytes.{Bytes, cmp, eq_bytes}
use zenith_db.Bytes.Words.{le_bytes, le_value}
use zenith_db.OrdMap
use zenith_db.OrdMap.{OrdMap, find}
use zenith_db.VectorClock
use zenith_db.VectorClock.{increment, compare_clocks, serialize_clock, deserialize_clock}
use zenith_db.Crdt
use zenith_db.Crdt.{LwwRegister}
use zenith_db.Bloom.{bloom_of, may_contain}
use zenith_db.SsTable.{Rows}
use zenith_db.SsTable.Create.{create, create_blocks, entry_bytes}
use zenith_db.SsTable.Read
use zenith_db.SsTable.Read.{SsTable}
use zenith_db.SsTable.Open.{set_index}
use zenith_db.SsTable.Entries.{rows_bytes}
use zenith_db.SsTable.Blocks.{ClosesAll}
use zenith_db.SsTable.FewRows.{few_rows-ClosesAll}
use zenith_db.SsTable.File.{bare_table, index_of}
use zenith_db.Database.{ZenithDb, ImmNode}
use zenith_db.Database.Read.{get_crdt, readable, search_frozen, not_empty}
use zenith_db.Database.Write.{put, put_crdt, remove}
use zenith_db.Database.Flush.{flush_node, flush}
use zenith_db.Database.FlushKeeps
use zenith_db.Database.FlushKeeps.{CanFlush, in_memory}
use zenith_db.Database.Flushed
use zenith_db.Database.Flushed.{FlushedTo}
use zenith_db.Database.Reads
use zenith_db.Database.Reads.{ClockFits, local_register, winner}
use zenith_db.Database.Search.{search_mem_lem}
use zenith_db.Tests.Memory.{bump}
use zenith_db.Tests.Tables.{rand, garbage, key_d, empty_table, table_d, models_d}
use zenith_db.Tests.Clocks.{node_a, clock_b, clock_ab, Fits-ab, IsSorted-ab}

-- The register in the file, and one that a replica sends.
abbrev pub old_reg : LwwRegister
old_reg = record { value = 5 ∷ []; clock = clock_b }

abbrev sent_reg : LwwRegister
sent_reg = record { value = 6 ∷ []; clock = clock_ab }

abbrev pub rows : Rows
rows = (key_d, Crdt.serialize old_reg) ∷ []

abbrev pub table_file : SsTable
table_file = set_index (bare_table rows) (index_of rows)

abbrev pub db : ZenithDb
db = record {
  node_id = node_a;
  local_clock = clock_b;
  active_mem = empty_table.after;
  immut_head = [];
  layout = (record { sst = some 0; min_key = key_d; max_key = [] } ∷ []) ∷ [];
  tables = table_file ∷ [];
  levels_meta = [] ∷ [];
  manifest = [];
  wal = [];
  files = [];
  named = 0;
}

pub finds_old : get_crdt 20 db key_d ≡ some (some old_reg)
unfolding get_crdt find cmp set_index create create_blocks le_bytes le_value bloom_of may_contain
    Crdt.serialize Crdt.deserialize Crdt.decode Crdt.clock_within serialize_clock deserialize_clock
    Read.get OrdMap.insert
finds_old = rw (search_mem_lem empty_table.after [] empty_table.models 20 (omega arith) key_d) refl

pub local_fits : (value : Bytes) → ClockFits (local_register db value)
unfolding increment find OrdMap.insert cmp serialize_clock le_bytes
local_fits value = (
  record { sorted = ((refl, tt), (tt, tt)); size = omega arith; entries = omega arith },
  omega arith,
)

sent_fits : ClockFits sent_reg
unfolding serialize_clock le_bytes
sent_fits = (Fits-ab, omega arith)

old_fits : ClockFits old_reg
unfolding serialize_clock le_bytes
old_fits = (record { sorted = (tt, tt); size = omega arith; entries = omega arith }, omega arith)

winner_fits : ClockFits (winner sent_reg (some old_reg))
unfolding Crdt.merge VectorClock.merge compare_clocks find OrdMap.insert cmp serialize_clock
    le_bytes
winner_fits =
    (record { sorted = IsSorted-ab; size = omega arith; entries = omega arith }, omega arith)

put_lem_example :
    (after : ZenithDb) × (put bump rand garbage 20 db key_d (7 ∷ []) ≡ some after)
    × (get_crdt 20 after key_d ≡ (
        if eq_bytes key_d key_d
        then some (readable (local_register db (7 ∷ [])))
        else get_crdt 20 db key_d))
put_lem_example =
    Reads.put_lem bump rand garbage 20 db [] empty_table.models (omega arith) key_d (7 ∷ [])
      (local_fits (7 ∷ [])) key_d

put_crdt_lem_example :
    (after : ZenithDb) × (put_crdt bump rand garbage 20 db key_d sent_reg ≡ some after)
    × (get_crdt 20 after key_d ≡ (
        if eq_bytes key_d key_d
        then some (readable (winner sent_reg (some old_reg)))
        else get_crdt 20 db key_d))
put_crdt_lem_example =
    Reads.put_crdt_lem bump rand garbage 20 db [] empty_table.models (omega arith) key_d sent_reg
      (some old_reg) finds_old winner_fits key_d

put_crdt-remove_example :
    (removed : ZenithDb) × (after : ZenithDb) × (remove bump rand garbage 20 db key_d
      ≡ some removed)
    × (get_crdt 20 removed key_d ≡ some none)
    × (put_crdt bump rand garbage 20 removed key_d old_reg ≡ some after)
    × (get_crdt 20 after key_d ≡ some (readable old_reg))
put_crdt-remove_example =
    Reads.put_crdt-remove bump rand garbage 20 db [] empty_table.models (omega arith) key_d old_reg
      (local_fits []) old_fits

-- A frozen memtable with one row.
abbrev one_row : Rows
one_row = (key_d, 1 ∷ []) ∷ []

abbrev frozen : ImmNode
frozen = record { mt = table_d.after; flushed = false }

one_file_small : length (create one_row) < 2 ^ 63
unfolding create create_blocks le_bytes bloom_of
one_file_small = omega arith

one_row_small : length (rows_bytes one_row) < 2 ^ 29
unfolding rows_bytes entry_bytes le_bytes
one_row_small = omega arith

one-ClosesAll : ClosesAll (length one_row) one_row
one-ClosesAll =
    few_rows-ClosesAll (length one_row) one_row (omega arith) (omega (arith, one_row_small))

flush_node-FlushedTo_example :
    FlushedTo 20
      (λ name. b'/' ∷ name)
      db
      frozen
      one_row
      (flush_node (λ n. n) (λ name. b'/' ∷ name) (λ fes. fes) 20 db frozen)
flush_node-FlushedTo_example =
    Flushed.flush_node-FlushedTo (λ n. n) (λ name. b'/' ∷ name) (λ fes. fes) 20 db frozen
      (key_d, 1 ∷ []) [] refl models_d (omega arith) ((omega arith, omega arith), tt) one_row_small
      one_file_small one-ClosesAll

abbrev frozen_db : ZenithDb
frozen_db = record db { immut_head = frozen ∷ [] }

frozen-CanFlush : CanFlush 20 frozen
frozen-CanFlush = record {
  rows = one_row;
  models = models_d;
  enough = omega arith;
  fits = ((omega arith, omega arith), tt);
  small = one_row_small;
  file_small = one_file_small;
  closes = one-ClosesAll;
}

finds_frozen : in_memory 20 frozen_db key_d ≡ some (some (1 ∷ []))
unfolding search_frozen find cmp not_empty
finds_frozen =
    rw
      (
        search_mem_lem empty_table.after [] empty_table.models 20 (omega arith) key_d,
        search_mem_lem table_d.after one_row models_d 20 (omega arith) key_d,
      )
      refl

flush-in_memory_example :
    (after : ZenithDb) × (flush (λ n. n) (λ name. b'/' ∷ name) (λ fes. fes) 20 frozen_db
      ≡ some after)
    × (get_crdt 20 after key_d ≡ get_crdt 20 frozen_db key_d)
flush-in_memory_example =
    FlushKeeps.flush-in_memory (λ n. n) (λ name. b'/' ∷ name) (λ fes. fes) 20 frozen_db
      (frozen-CanFlush, tt) key_d (1 ∷ []) finds_frozen
