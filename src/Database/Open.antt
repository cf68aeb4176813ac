-- ===== src/Database/Open.antt =====
-- The constructor of the database, on the bytes of the log and of the manifest. Both files are there,
-- as the members open them for appending.
use zenith_db.Prelude.{
  ℕ, suc, List, [], ◌∷◌, ◌++◌, Option, none, some, length, if◌then◌else◌, ◌>>=◌,
}
use zenith_db.Bytes.{Bytes}
use zenith_db.Arena.{Allocator}
use zenith_db.MemTable.{MemTable, new_mem_table}
use zenith_db.Wal.{replay}
use zenith_db.Wal.Recovery.{memtable_ops}
use zenith_db.MockEnv.{Files, read_loop, file_exists, new_random_access_file}
use zenith_db.Manifest.Load.{load}
use zenith_db.Compaction.{FileEntry}
use zenith_db.SsTable.Read.{SsTable}
use zenith_db.SsTable.Open.{Opened, opened, too_small, bad_magic, faulted, open_table}
use zenith_db.Database.{ZenithDb}
use zenith_db.Database.Flush.{sort_all_levels}

-- The entry of a table that was opened, and the tables with it; an error is printed.
unfoldable pub push_opened :
    Opened → List FileEntry → List SsTable → Option (List FileEntry × List SsTable)
push_opened (opened t) fes tables =
    let fe : FileEntry = record {
      sst = some (length tables);
      min_key = t.meta.min_key;
      max_key = t.meta.max_key;
    } in
    some (fes ++ fe ∷ [], tables ++ t ∷ [])
push_opened too_small fes tables = some (fes, tables)
push_opened bad_magic fes tables = some (fes, tables)
push_opened faulted fes tables = none

-- `Manifest::load`, in reads of 4096 bytes.
unfoldable pub load_levels : Bytes → Option (List (List Bytes))
load_levels manifest =
    read_loop (suc (length manifest)) 4096 (record { content = manifest; pos = 0 }) >>= λ reads.
    some (load (some reads))

-- The files of a level, by the path of each name; those that are not there are passed over.
unfoldable pub open_level :
    (Bytes → Bytes)
    → Files
    → List Bytes
    → List FileEntry
    → List SsTable
    → Option (List FileEntry × List SsTable)
unfolding push_opened
open_level path_of files [] fes tables = some (fes, tables)
open_level path_of files (name ∷ names) fes tables =
    if file_exists (path_of name) files
    then (new_random_access_file (path_of name) files >>= λ content.
        push_opened (open_table content) fes tables >>= λ r. open_level path_of files names r.0 r.1)
    else open_level path_of files names fes tables

unfoldable pub open_levels :
    (Bytes → Bytes)
    → Files
    → List (List Bytes)
    → List SsTable
    → Option (List (List FileEntry) × List SsTable)
unfolding open_level
open_levels path_of files [] tables = some ([], tables)
open_levels path_of files (names ∷ levels) tables = do
  level ← open_level path_of files names [] tables
  more ← open_levels path_of files levels level.1
  some (level.0 ∷ more.0, more.1)

module _ (env : Allocator) (rand : ℕ → ℕ) (garbage : ℕ → Option ℕ) (limit draws : ℕ) where
  -- `WAL::replay` into a fresh memtable, in reads of 8192 bytes.
  unfoldable pub replay_log : Bytes → Option MemTable
  replay_log wal = do
    mem ← new_mem_table env garbage draws
    reads ← read_loop (suc (length wal)) 8192 (record { content = wal; pos = 0 })
    replay (memtable_ops env rand garbage limit) (some reads) mem

  -- The constructor, over `std::sort` of entries by their first keys; `load` returns 7 levels.
  unfoldable pub open_db :
      (Bytes → Bytes)
      → (List FileEntry → List FileEntry)
      → Files
      → Bytes
      → Bytes
      → Bytes
      → ℕ
      → Option ZenithDb
  unfolding replay_log load_levels open_levels
  open_db path_of sort files node_id manifest wal named = do
    mem ← replay_log wal
    loaded ← load_levels manifest
    layout ← open_levels path_of files loaded []
    some (record {
      node_id = node_id;
      local_clock = [];
      active_mem = mem;
      immut_head = [];
      layout = sort_all_levels sort layout.0;
      tables = layout.1;
      levels_meta = loaded;
      manifest = manifest;
      wal = wal;
      files = files;
      named = named;
    })
