-- ===== src/Database/Compact.antt =====
-- The second half of `background_worker`, with `execute_compaction` and `apply_compaction` on the
-- database. Neither half leaves the writer mutex between reading a state and storing the next,
-- except while a compaction reads its inputs and writes its file; here nothing comes in between.
use zenith_db.Prelude.{
  ℕ, ◌+◌, ◌%◌, ◌^◌, List, [], ◌∷◌, ◌++◌, Option, none, some, length, get_elem?, ◌>>=◌,
}
use zenith_db.Bytes.{Bytes}
use zenith_db.MockEnv.{new_writable_file, append_to, new_random_access_file}
use zenith_db.Compaction.{
  FileEntry, CompactionTask, plan_compaction, merge_inputs, log_compaction, apply_to_names,
  apply_to_layout,
}
use zenith_db.SsTable.{Rows}
use zenith_db.SsTable.Create.{create}
use zenith_db.SsTable.Read
use zenith_db.SsTable.Read.{SsTable}
use zenith_db.SsTable.Open.{Opened, opened, too_small, bad_magic, faulted, open_table}
use zenith_db.Database.{ZenithDb}
use zenith_db.Database.Flush.{new_filename, sort_all_levels, flush}

-- The rows of the inputs.
unfoldable pub scan_inputs : List SsTable → List ℕ → Option (List Rows)
scan_inputs tables [] = some []
scan_inputs tables (s ∷ ssts) = do
  t ← get_elem? tables s
  rows ← Read.scan t [] (255 ∷ 255 ∷ 255 ∷ 255 ∷ [])
  more ← scan_inputs tables ssts
  some (rows ∷ more)

-- The task with its output, and the tables; an error of the constructor is caught.
unfoldable pub set_output :
    CompactionTask → Opened → List SsTable → Option (CompactionTask × List SsTable)
set_output task (opened t) tables =
    let fe : FileEntry = record {
      sst = some (length tables);
      min_key = t.meta.min_key;
      max_key = t.meta.max_key;
    } in
    some (record task { output_sst = some fe }, tables ++ t ∷ [])
set_output task too_small tables = some (task, tables)
set_output task bad_magic tables = some (task, tables)
set_output task faulted tables = none

module _ (time : ℕ → ℕ) (path_of : Bytes → Bytes) (sort : List FileEntry → List FileEntry) where
  -- `execute_compaction`.
  unfoldable pub execute_compaction : CompactionTask → ZenithDb → Option (CompactionTask × ZenithDb)
  unfolding scan_inputs set_output
  execute_compaction task db = scan_inputs db.tables task.input_ssts >>= λ inputs.
      merge_inputs inputs [] >>= λ merged. elim merged [
        | [] ↦ some (task, db)
        | e ∷ es ↦ do
          let path = path_of task.output_filename
          files ← append_to path (create (e ∷ es)) (new_writable_file path db.files)
          content ← new_random_access_file path files
          done ← set_output task (open_table content) db.tables
          some (done.0, record db { files = files; tables = done.1 })
      ]

  -- `apply_compaction`, and the sort behind it.
  unfoldable pub apply_compaction : CompactionTask → ZenithDb → ZenithDb
  apply_compaction task db = record db {
    manifest = log_compaction task db.manifest;
    levels_meta = apply_to_names task db.levels_meta;
    layout = sort_all_levels sort (apply_to_layout task db.layout);
  }

  -- A round of the loop.
  unfoldable pub worker_round : ℕ → ZenithDb → Option ZenithDb
  unfolding flush execute_compaction apply_compaction
  worker_round fuel db = flush time path_of sort fuel db >>= λ flushed.
      plan_compaction (λ level. new_filename (time flushed.named) level flushed.named)
        flushed.levels_meta flushed.layout
      >>= λ planned. elim planned [
        | none ↦ some flushed
        | some task ↦
            execute_compaction task (record flushed { named = (flushed.named + 1) % 2 ^ 64 })
            >>= λ done. some (apply_compaction done.0 done.1)
      ]
