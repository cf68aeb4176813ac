-- ===== src/Database/Restart.antt =====
-- What the constructor of the database restores.
use zenith_db.Prelude.{
  ℕ, suc, ◌+◌, ◌≤◌, List, [], map, Option, some, ◌≡◌, refl, sym, ap, ◌∙◌, arith, length, All,
  append-nil, replicate,
}
use zenith_db.Bytes.{Bytes}
use zenith_db.OrdMap.{OrdMap, find}
use zenith_db.Arena.{Allocator}
use zenith_db.MemTable.{MemTable}
use zenith_db.MemTable.Contract.{Models}
use zenith_db.MemTable.Refines.{new_mem_table-Leaves}
use zenith_db.Wal.Recovery.{
  LogRecord, append_all, IsPlain, records_effect, memtable_ops, memtable_laws, replay-append_all,
}
use zenith_db.MockEnv.{Files, SequentialFile}
use zenith_db.MockEnv.Reading.{read_loop_lem}
use zenith_db.Manifest.Recovery.{Call, CallFits, write_calls, added, load-write_calls}
use zenith_db.Compaction.{FileEntry}
use zenith_db.Database.{ZenithDb}
use zenith_db.SsTable.{Rows}
use zenith_db.Database.Levels.{IsOpened}
use zenith_db.Database.Read.{not_empty, or_else, search_frozen, search_levels, find_raw}
use zenith_db.Database.Open.{replay_log, load_levels, open_db}
use zenith_db.Database.Reopened.{AnswersAll, NameHolds, open_levels_lem, LevelsOpened-answers}
use zenith_db.Database.Stored.{find_raw_lem}

-- The database that the constructor leaves, over the map that the log stands for, the names of the
-- levels and the rows of their files.
pub record Restored (fuel : ℕ) (sort : List FileEntry → List FileEntry)
    (contents : Bytes → Option Rows) (logged : OrdMap Bytes) (levels : List (List Bytes))
    (result : Option ZenithDb) : Type 0 where
  pub after : ZenithDb
  pub returns : result ≡ some after
  pub models : Models after.active_mem logged
  pub levels_eq : after.levels_meta ≡ levels
  pub opened : List (List FileEntry)
  pub layout_eq : after.layout ≡ map sort opened
  pub answers : AnswersAll after.tables contents opened levels
  pub each_opened : All (All IsOpened) opened
  pub finds :
      (key : Bytes)
      → find_raw fuel after key
        ≡ or_else (not_empty (find key logged)) (search_levels after.tables key (map sort opened))
  pub clock_eq : after.local_clock ≡ []

load_levels_lem :
    (calls : List Call)
    → All CallFits calls
    → load_levels (write_calls calls []) ≡ some (added calls (replicate 7 []))
unfolding load_levels
load_levels_lem calls fits =
    let content = write_calls calls [] in
    let start : SequentialFile = record { content = content; pos = 0 } in
    let r =
      read_loop_lem (suc (length content)) 4096 start (omega arith) (omega arith) (omega arith) in
    rw r.returns (ap some (load-write_calls calls r.reads fits r.some_bytes r.whole))

module _ (env : Allocator) (rand : ℕ → ℕ) (garbage : ℕ → Option ℕ) (limit draws : ℕ) where
  record Replayed (map : OrdMap Bytes) (result : Option MemTable) : Type 0 where
    after : MemTable
    returns : result ≡ some after
    models : Models after map

  replay_log_lem :
      (rs : List LogRecord)
      → All IsPlain rs
      → length rs ≤ limit
      → Replayed (records_effect rs []) (replay_log env rand garbage limit draws (append_all rs []))
  unfolding replay_log
  replay_log_lem rs plain q =
      let content = append_all rs [] in
      let start : SequentialFile = record { content = content; pos = 0 } in
      let r =
        read_loop_lem (suc (length content)) 8192 start (omega arith) (omega arith) (omega arith) in
      let m = new_mem_table-Leaves env rand garbage draws in
      let y =
        replay-append_all (memtable_ops env rand garbage limit)
          (memtable_laws env rand garbage limit) m.after [] m.models rs [] r.reads plain tt
          r.some_bytes (r.whole ∙ sym (append-nil content)) (omega (arith, q)) in
      record { after = y.after; returns = rw (m.returns, r.returns) y.returns; models = y.models }

  -- The constructor returns a database whose memtable stands for the map after the records of the
  -- log and whose levels are those that the manifest adds; its clock is empty. Its layout has,
  -- level by level and each level as `sort` leaves it, one entry for each file that holds rows,
  -- in the order of the names, and of each entry, which names no last key, a search answers for
  -- every key what the rows of that file hold; a file that is missing or refused has none. A
  -- reader finds a key in the log or else in that layout. The log holds plain records, no more
  -- than its fuel is made for, and the reader has fuel for its keys and 12 levels; the manifest
  -- holds what fitting calls wrote; each file was made by `create` of sorted rows within the size
  -- bounds of the format, no block of them but the last ending behind a multiple of 16 entries,
  -- or it is missing, too small or of a wrong magic number.
  pub open_db-Restored :
      (path_of : Bytes → Bytes) (sort : List FileEntry → List FileEntry) (files : Files)
      (node_id : Bytes) (named : ℕ) (calls : List Call) (rs : List LogRecord)
      (contents : Bytes → Option Rows) (fuel : ℕ)
      → All CallFits calls
      → All IsPlain rs
      → length rs ≤ limit
      → length (records_effect rs []) + 12 ≤ fuel
      → All (All (NameHolds files path_of contents)) (added calls (replicate 7 []))
      → Restored fuel sort contents (records_effect rs []) (added calls (replicate 7 [])) (
          open_db env rand garbage limit draws path_of sort files node_id
            (write_calls calls [])
            (append_all rs [])
            named)
  unfolding open_db search_frozen
  open_db-Restored path_of sort files node_id named calls rs contents fuel fits plain q enough
        holds =
      let levels = added calls (replicate 7 []) in
      let m = replay_log_lem rs plain q in
      let l = open_levels_lem files path_of contents levels holds [] in
      let db : ZenithDb = record {
        node_id = node_id;
        local_clock = [];
        active_mem = m.after;
        immut_head = [];
        layout = map sort l.layout;
        tables = l.after;
        levels_meta = levels;
        manifest = write_calls calls [];
        wal = append_all rs [];
        files = files;
        named = named;
      } in
      record {
        after = db;
        returns = rw (m.returns, load_levels_lem calls fits, l.returns) refl;
        models = m.models;
        levels_eq = refl;
        opened = l.layout;
        layout_eq = refl;
        each_opened = l.each_opened;
        answers = LevelsOpened-answers files path_of contents levels l;
        finds = find_raw_lem fuel db (records_effect rs []) m.models enough;
        clock_eq = refl;
      }
