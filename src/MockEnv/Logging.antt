-- ===== src/MockEnv/Logging.antt =====
-- A log that is written to a file in memory, and replayed from it.
use zenith_db.Prelude.{
  ℕ, suc, ◌≤◌, List, [], ◌∷◌, ◌++◌, Option, none, some, true, ◌≡◌, refl, sym, ◌∙◌, if◌then◌else◌,
  arith, All, length, ◌>>=◌, append-nil,
}
use zenith_db.Bytes.{Bytes}
use zenith_db.OrdMap
use zenith_db.OrdMap.{find}
use zenith_db.OrdMap.Laws.{find-insert_self}
use zenith_db.Arena.{Allocator}
use zenith_db.MemTable.{MemTable, new_mem_table}
use zenith_db.MemTable.Contract.{Leaves}
use zenith_db.MemTable.Refines.{new_mem_table-Leaves}
use zenith_db.Wal.{newline, append, replay}
use zenith_db.Wal.Recovery.{
  LogRecord, text_of, append_all, IsPlain, records_effect, memtable_ops, memtable_laws,
  replay-append_all,
}
use zenith_db.MockEnv.{
  Files, SequentialFile, new_appendable_file, append_to, new_sequential_file, file_exists,
  read_loop, file_at,
}
use zenith_db.MockEnv.Reading.{read_loop_lem}

-- `WAL::append`, to the file of the log.
unfoldable pub log_record : Bytes → Bytes → Files → Option Files
unfolding append_to append
log_record path record_bytes files = append_to path (record_bytes ++ newline ∷ []) files

unfoldable pub log_records : Bytes → List LogRecord → Files → Option Files
log_records path [] files = some files
log_records path (r ∷ rs) files =
    log_record path (text_of r) files >>= λ files'. log_records path rs files'

-- `WAL()`.
unfoldable pub open_log : Bytes → Files → Files
open_log path files = new_appendable_file path files

-- `WAL::replay` into a fresh memtable, with reads of 8192 bytes.
module _ (env : Allocator) (rand : ℕ → ℕ) (garbage : ℕ → Option ℕ) (limit draws : ℕ) where
  unfoldable pub recover : Bytes → Files → Option MemTable
  recover path files = new_mem_table env garbage draws >>= λ m.
      if file_exists path files
      then (let f = (new_sequential_file path files).0 in
          read_loop (suc (length f.content)) 8192 f >>= λ reads.
          replay (memtable_ops env rand garbage limit) (some reads) m)
      else replay (memtable_ops env rand garbage limit) none m

-- The files after a log was written.
record Logged (path content : Bytes) (result : Option Files) : Type 0 where
  files : Files
  returns : result ≡ some files
  logged : find path files ≡ some content

log_records_lem :
    (path : Bytes) (rs : List LogRecord) (files : Files) (log : Bytes)
    → find path files ≡ some log
    → Logged path (append_all rs log) (log_records path rs files)
unfolding log_records log_record append append_to
log_records_lem path [] files log h = record { files = files; returns = refl; logged = h }
log_records_lem path (r ∷ rs) files log h =
    let next = OrdMap.insert path (log ++ (text_of r ++ newline ∷ [])) files in
    let rest =
      log_records_lem path rs next (append log (text_of r))
        (find-insert_self path (log ++ (text_of r ++ newline ∷ [])) files) in
    record {
      files = rest.files;
      returns = rw (h, log_records, log_record, append_to) rest.returns;
      logged = rest.logged;
    }

open_log_lem :
    (path : Bytes) (files : Files)
    → find path files ≡ none
    → find path (open_log path files) ≡ some []
unfolding open_log new_appendable_file file_at
open_log_lem path files h =
    rw (h, open_log, new_appendable_file, file_at) (find-insert_self path [] files)

file_exists_lem :
    (path content : Bytes) (files : Files)
    → find path files ≡ some content
    → file_exists path files ≡ true
unfolding file_exists
file_exists_lem path content files h = rw (h, file_exists) refl

new_sequential_file_lem :
    (path content : Bytes) (files : Files)
    → find path files ≡ some content
    → (new_sequential_file path files).0 ≡ record { content = content; pos = 0 }
unfolding new_sequential_file file_at
new_sequential_file_lem path content files h = rw (h, new_sequential_file, file_at) refl

module _ (env : Allocator) (rand : ℕ → ℕ) (garbage : ℕ → Option ℕ) (limit draws : ℕ) where
  -- A log is opened where no file is, and plain records are written to it. Replayed from its file
  -- into a fresh memtable, in reads of 8192 bytes, it leaves a memtable that stands for the map
  -- after those records, if they are no more than the limit that the fuel is made for.
  pub recover_logged :
      (path : Bytes) (files : Files) (rs : List LogRecord)
      → find path files ≡ none
      → All IsPlain rs
      → length rs ≤ limit
      → Leaves
          (log_records path rs (open_log path files) >>= λ written.
            recover env rand garbage limit draws path written)
          (records_effect rs [])
  unfolding recover
  recover_logged path files rs h plain q =
      let l = log_records_lem path rs (open_log path files) [] (open_log_lem path files h) in
      let content = append_all rs [] in
      let start : SequentialFile = record { content = content; pos = 0 } in
      let r =
        read_loop_lem (suc (length content)) 8192 start (omega arith) (omega arith) (omega arith) in
      let m = new_mem_table-Leaves env rand garbage draws in
      let y =
        replay-append_all (memtable_ops env rand garbage limit)
          (memtable_laws env rand garbage limit) m.after [] m.models rs [] r.reads plain tt
          r.some_bytes (r.whole ∙ sym (append-nil content)) (omega (arith, q)) in
      record {
        after = y.after;
        returns =
            rw
              (
                l.returns,
                m.returns,
                file_exists_lem path content l.files l.logged,
                new_sequential_file_lem path content l.files l.logged,
                r.returns,
              )
              y.returns;
        models = y.models;
      }
