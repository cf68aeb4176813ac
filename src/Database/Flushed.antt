-- ===== src/Database/Flushed.antt =====
-- A table file holds what the memtable held that it was written from.
use zenith_db.Prelude.{
  ℕ, ◌+◌, ◌^◌, ◌%◌, ◌<◌, ◌≤◌, List, [], ◌∷◌, ◌++◌, Option, none, some, true, false, ◌≡◌, refl, ap,
  sym, ◌∙◌, arith, length, All, get_elem?, Bool-cases, inl, inr, ◌&&◌, not, ◌==◌,
}
use mathlib.Core.Path.{subst}
use zenith_db.Bytes.{Bytes, lt_bytes}
use zenith_db.OrdMap
use zenith_db.OrdMap.{OrdMap, find, IsSorted}
use zenith_db.OrdMap.Laws.{find-insert_self, find-AllAfter, AllAfter-trans}
use zenith_db.SkipList.View.{view-IsSorted}
use zenith_db.MemTable.{MemTable}
use zenith_db.MemTable.Contract.{Models}
use zenith_db.MemTable.Refines.{sorted_entries_lem}
use zenith_db.MockEnv.{Files, append_to, new_writable_file, new_random_access_file}
use zenith_db.Manifest.{add_sstable}
use zenith_db.Compaction.{FileEntry, change_at, resize}
use zenith_db.SsTable.{Rows}
use zenith_db.SsTable.Create.{create}
use zenith_db.SsTable.Read.{SsTable}
use zenith_db.SsTable.Entries.{rows_bytes, RowFits}
use zenith_db.SsTable.Blocks.{ClosesAll}
use zenith_db.SsTable.Contract.{BeginsAt, Written, written}
use zenith_db.Database.{ImmNode, ZenithDb}
use zenith_db.Database.Read.{not_empty, or_else, search_mem, search_level}
use zenith_db.Database.Flush.{new_filename, add_table, add_opened, write_table, flush_node}
use zenith_db.Database.Search.{search_mem_lem}

get_elem?-last {ℓ} :
    {A : Type ℓ} (xs : List A) (y : A) → get_elem? (xs ++ y ∷ []) (length xs) ≡ some y
get_elem?-last [] y = refl
get_elem?-last (x ∷ xs) y = get_elem?-last xs y

pub Models-IsSorted : {m : MemTable} {map : OrdMap Bytes} → Models m map → IsSorted map
Models-IsSorted h = subst IsSorted h.view_eq (view-IsSorted h.order h.valid.chain.ascends)

-- The entry that `add_table` puts into the layout.
abbrev entry_of : ZenithDb → SsTable → FileEntry
entry_of db t = record {
  sst = some (length db.tables);
  min_key = t.meta.min_key;
  max_key = t.meta.max_key;
}

-- In front of the first key of a table there is nothing.
find-in_front :
    (entries : Rows) (min_key key : Bytes)
    → IsSorted entries
    → BeginsAt min_key entries
    → lt_bytes key min_key ≡ true
    → find key entries ≡ none
unfolding find
find-in_front [] min_key key sorted begins early = refl
find-in_front (e ∷ entries) min_key key sorted begins early =
    let early' : lt_bytes key e.0 ≡ true = ap (lt_bytes key) (sym begins) ∙ early in
    ground (
      arith,
      early',
      find-AllAfter key entries (AllAfter-trans key e.0 entries (ground (arith, early')) sorted.0),
    )

-- The new entry is searched as the map of its rows.
pub search_entry :
    (tables : List SsTable) (s : ℕ) (entries : Rows) (w : Written entries) (max_key key : Bytes)
    → get_elem? tables s ≡ some w.table
    → IsSorted entries
    → search_level tables key
        (record { sst = some s; min_key = w.table.meta.min_key; max_key = max_key } ∷ [])
      ≡ some (not_empty (find key entries))
unfolding search_level not_empty
search_entry tables s entries w max_key key found sorted =
    elim (Bool-cases
      (not (length w.table.meta.min_key == 0) && lt_bytes key w.table.meta.min_key)) [
        | inl early ↦
            rw
              (
                early,
                find-in_front entries w.table.meta.min_key key sorted w.first_key
                    (ground (arith, early)),
              )
              refl
        | inr within ↦ rw (within, found, w.gets key) (ends (not_empty (find key entries)))
      ]
  where
    ends : (x : Option Bytes) → or_else x (some none) ≡ some x
    ends none = refl
    ends (some v) = refl

append-new_file :
    (path content : Bytes) (files : Files)
    → append_to path content (new_writable_file path files)
      ≡ some (OrdMap.insert path content (OrdMap.insert path [] files))
unfolding append_to new_writable_file
append-new_file path content files = rw (find-insert_self path [] files, append_to) refl

read-insert :
    (path content : Bytes) (files : Files)
    → new_random_access_file path (OrdMap.insert path content files) ≡ some content
unfolding new_random_access_file
read-insert path content files = find-insert_self path content files

-- What a flush of a memtable with some rows leaves.
pub record FlushedTo (fuel : ℕ) (path_of : Bytes → Bytes) (db : ZenithDb) (node : ImmNode)
    (entries : Rows) (result : Option (ZenithDb × ImmNode)) : Type 0 where
  pub after : ZenithDb
  pub name : Bytes
  pub entry : FileEntry
  pub returns : result ≡ some (after, record node { flushed = true })
  pub file_eq : new_random_access_file (path_of name) after.files ≡ some (create entries)
  pub manifest_eq : after.manifest ≡ add_sstable 0 name db.manifest
  pub layout_eq :
      after.layout
      ≡ change_at 0 (λ v. v ++ entry ∷ []) (resize (length after.levels_meta) db.layout)
  pub searched :
      (key : Bytes) → search_level after.tables key (entry ∷ []) ≡ search_mem fuel key node.mt

module _ (time : ℕ → ℕ) (path_of : Bytes → Bytes) (sort : List FileEntry → List FileEntry) where
  -- The database when the file is written and before the table is added.
  abbrev pub named_in : ZenithDb → Rows → ZenithDb
  named_in db entries =
      let name = new_filename (time db.named) 0 db.named in
      record db {
        files =
            OrdMap.insert (path_of name) (create entries)
              (OrdMap.insert (path_of name) [] db.files);
        named = (db.named + 1) % 2 ^ 64;
        levels_meta = change_at 0 (λ names. names ++ name ∷ []) db.levels_meta;
        manifest = add_sstable 0 name db.manifest;
      }

  pub write_table_lem :
      (db : ZenithDb) (entries : Rows) (w : Written entries)
      → write_table time path_of sort db entries ≡ some (add_table (named_in db entries) w.table)
  unfolding write_table add_opened
  write_table_lem db entries w =
      let path = path_of (new_filename (time db.named) 0 db.named) in
      rw
        (
          append-new_file path (create entries) db.files,
          read-insert path (create entries) (OrdMap.insert path [] db.files),
          write_table,
        )
        (ap (add_opened (named_in db entries)) w.opens)

  -- Flushing a memtable that is not flushed and stands for some rows returns; the file of the new
  -- name holds what `create` makes of them, the manifest and level 0 have one entry more, and a
  -- search of that entry answers for every key what a search of the memtable does. There is fuel
  -- for the rows and 12 levels. The entries are sorted, together take less than 2^29 bytes in the
  -- file, each key and value fits a 32-bit length, the file is below 2^63 bytes, and no block but
  -- the last ends behind a multiple of 16 entries.
  pub flush_node-FlushedTo :
      (fuel : ℕ) (db : ZenithDb) (node : ImmNode) (e : Bytes × Bytes) (es : Rows)
      → node.flushed ≡ false
      → Models node.mt (e ∷ es)
      → length (e ∷ es) + 12 ≤ fuel
      → All RowFits (e ∷ es)
      → length (rows_bytes (e ∷ es)) < 2 ^ 29
      → length (create (e ∷ es)) < 2 ^ 63
      → ClosesAll (length (e ∷ es)) (e ∷ es)
      → FlushedTo fuel path_of db node (e ∷ es) (flush_node time path_of sort fuel db node)
  unfolding flush_node add_table
  flush_node-FlushedTo fuel db node e es pending h enough fits small file_small closes =
      let entries = e ∷ es in
      let sorted = Models-IsSorted h in
      let w = written entries fits sorted small file_small closes in
      let name = new_filename (time db.named) 0 db.named in
      let path = path_of name in
      let result = add_table (named_in db entries) w.table in
      record {
        after = result;
        name = name;
        entry = entry_of db w.table;
        returns =
            rw
              (
                pending,
                sorted_entries_lem node.mt entries h fuel enough,
                write_table_lem db entries w,
              )
              refl;
        file_eq = read-insert path (create entries) (OrdMap.insert path [] db.files);
        manifest_eq = refl;
        layout_eq = refl;
        searched = λ key.
            search_entry (db.tables ++ w.table ∷ []) (length db.tables) entries w
              w.table.meta.max_key key (get_elem?-last db.tables w.table) sorted
            ∙ sym (search_mem_lem node.mt entries h fuel enough key);
      }
