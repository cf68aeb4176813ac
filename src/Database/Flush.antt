-- ===== src/Database/Flush.antt =====
-- The part of `background_worker` that writes frozen memtables to table files, with `new_filename`
-- and `sort_all_levels_by_min_key`. It holds the writer mutex, and readers see its state at the end.
use zenith_db.Prelude.{
  ℕ, ◌+◌, ◌%◌, ◌^◌, List, [], ◌∷◌, ◌++◌, map, Option, none, some, Bool, true, false, length,
  if◌then◌else◌, ◌>>=◌,
}
use zenith_db.Bytes.{Bytes}
use zenith_db.MemTable.{sorted_entries}
use zenith_db.MockEnv.{new_writable_file, append_to, new_random_access_file}
use zenith_db.Manifest.{to_string, add_sstable}
use zenith_db.Compaction.{FileEntry, change_at, resize}
use zenith_db.SsTable.{Rows}
use zenith_db.SsTable.Create.{create}
use zenith_db.SsTable.Read.{SsTable}
use zenith_db.SsTable.Open.{Opened, opened, too_small, bad_magic, faulted, open_table}
use zenith_db.Database.{ImmNode, ZenithDb}

-- `new_filename`, at a time, as the call of a number.
unfoldable pub new_filename : ℕ → ℕ → ℕ → Bytes
unfolding to_string
new_filename time level id =
    b'L'
    ∷ (to_string level
        ++ (b'_' ∷ (to_string time ++ (b'_' ∷ (to_string id ++ b'.' ∷ b's' ∷ b's' ∷ b't' ∷ [])))))

-- A table that was opened, behind those of level 0.
unfoldable pub add_table : ZenithDb → SsTable → ZenithDb
unfolding resize change_at
add_table db t =
    let fe : FileEntry = record {
      sst = some (length db.tables);
      min_key = t.meta.min_key;
      max_key = t.meta.max_key;
    } in
    record db {
      tables = db.tables ++ t ∷ [];
      layout = change_at 0 (λ v. v ++ fe ∷ []) (resize (length db.levels_meta) db.layout);
    }

-- What the constructor of the table ended in; its errors are caught.
unfoldable pub add_opened : ZenithDb → Opened → Option ZenithDb
unfolding add_table
add_opened db (opened t) = some (add_table db t)
add_opened db too_small = some db
add_opened db bad_magic = some db
add_opened db faulted = none

-- The loop over the nodes looks for one that is not flushed.
unfoldable pub needs_flush : List ImmNode → Bool
needs_flush [] = false
needs_flush (node ∷ nodes) = if node.flushed then needs_flush nodes else true

-- `sort_all_levels_by_min_key`, by `std::sort`.
abbrev pub sort_all_levels :
    (List FileEntry → List FileEntry) → List (List FileEntry) → List (List FileEntry)
sort_all_levels sort layout = map sort layout

-- The time at each call of `new_filename`, the path of a name in the directory of the database, and
-- `std::sort` by the first keys, which leaves open how equal ones stand.
module _ (time : ℕ → ℕ) (path_of : Bytes → Bytes) (sort : List FileEntry → List FileEntry) where
  -- The new file, its name, and the table that is opened from it.
  unfoldable pub write_table : ZenithDb → Rows → Option ZenithDb
  unfolding new_filename add_opened change_at new_writable_file append_to new_random_access_file
  write_table db entries = do
    let filename = new_filename (time db.named) 0 db.named
    let path = path_of filename
    files ← append_to path (create entries) (new_writable_file path db.files)
    content ← new_random_access_file path files
    let written = record db {
      files = files;
      named = (db.named + 1) % 2 ^ 64;
      levels_meta = change_at 0 (λ names. names ++ filename ∷ []) db.levels_meta;
      manifest = add_sstable 0 filename db.manifest;
    }
    add_opened written (open_table content)

  -- One node of the list.
  unfoldable pub flush_node : ℕ → ZenithDb → ImmNode → Option (ZenithDb × ImmNode)
  unfolding write_table
  flush_node fuel db node =
      if node.flushed
      then some (db, node)
      else (sorted_entries fuel node.mt >>= λ entries. elim entries [
        | [] ↦ some (db, record node { flushed = true })
        | e ∷ es ↦
            write_table db (e ∷ es) >>= λ written. some (written, record node { flushed = true })
      ])

  unfoldable pub flush_nodes : ℕ → ZenithDb → List ImmNode → Option (ZenithDb × List ImmNode)
  unfolding flush_node
  flush_nodes fuel db [] = some (db, [])
  flush_nodes fuel db (node ∷ nodes) = do
    first ← flush_node fuel db node
    others ← flush_nodes fuel first.0 nodes
    some (others.0, first.1 ∷ others.1)

  -- The flush.
  unfoldable pub flush : ℕ → ZenithDb → Option ZenithDb
  unfolding needs_flush flush_nodes
  flush fuel db =
      if needs_flush db.immut_head
      then (flush_nodes fuel db db.immut_head >>= λ r.
          some (record r.0 { immut_head = r.1; layout = sort_all_levels sort r.0.layout }))
      else some db
