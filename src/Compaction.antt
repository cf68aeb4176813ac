-- ===== src/Compaction.antt =====
-- Compaction: src/compaction.cpp, and the merge of rows in `scan_crdt` of src/db.cpp. Files are
-- their names, as in `levels_meta_`; a table file is an object in memory, and stands here by a
-- number.
pub mod Plan
use zenith_db.Prelude.{
  ℕ, zero, suc, ◌+◌, List, [], ◌∷◌, ◌++◌, Option, none, some, Bool, true, false, leb, ◌==◌, length,
  get_elem?, if◌then◌else◌, ◌>>=◌,
}
use zenith_db.Bytes.{Bytes, eq_bytes}
use zenith_db.OrdMap
use zenith_db.OrdMap.{OrdMap, find}
use zenith_db.Manifest.{add_sstable, replace}
use zenith_db.Crdt
use zenith_db.Crdt.{LwwRegister}

abbrev pub Rows : Type 0
Rows = List (Bytes × Bytes)

-- `Layout::FileEntry`; an `sst` that is nullptr is `none`.
pub record FileEntry : Type 0 where
  pub sst : Option ℕ
  pub min_key : Bytes
  pub max_key : Bytes

pub record CompactionTask : Type 0 where
  pub level : ℕ
  pub input_filenames : List Bytes
  pub input_ssts : List ℕ
  pub output_filename : Bytes
  pub output_sst : Option FileEntry

abbrev pub threshold : ℕ → ℕ
threshold lvl = if lvl == 0 then 3 else 4

-- The table files of a level that are there.
unfoldable pub present : List FileEntry → List ℕ
present [] = []
present (fe ∷ fes) = elim fe.sst [ none ↦ present fes | some s ↦ s ∷ present fes ]

-- The loop of `plan_compaction` over the levels from `lvl` on, of which the last is left out.
unfoldable pub plan_loop : ℕ → List (List Bytes) → Option (ℕ × List Bytes)
plan_loop lvl [] = none
plan_loop lvl (files ∷ []) = none
plan_loop lvl (files ∷ next ∷ more) =
    let rest = plan_loop (lvl + 1) (next ∷ more) in
    if leb (threshold lvl) (length files) then some (lvl, files) else rest

-- `plan_compaction`, by the names that `new_filename` gives; an outer `none` is a read outside of
-- the layout.
unfoldable pub plan_compaction :
    (ℕ → Bytes) → List (List Bytes) → List (List FileEntry) → Option (Option CompactionTask)
unfolding plan_loop present
plan_compaction new_filename levels_meta layout = elim (plan_loop 0 levels_meta) [
  | none ↦ some none
  | some (lvl, files) ↦ elim (get_elem? layout lvl) [
    | none ↦ none
    | some level_vec ↦ some (
        some (record {
          level = lvl;
          input_filenames = files;
          input_ssts = present level_vec;
          output_filename = new_filename (lvl + 1);
          output_sst = none;
        }))
  ]
]

-- The rows of one table file, into the map `merged`; `none` where a register is
-- not read.
unfoldable pub merge_rows : Rows → OrdMap Bytes → Option (OrdMap Bytes)
merge_rows [] merged = some merged
merge_rows ((k, v) ∷ rows) merged = do
  incoming ← Crdt.deserialize v
  next ← elim (find k merged) [
    | none ↦ some (OrdMap.insert k v merged)
    | some old ↦ Crdt.deserialize old >>= λ existing.
        some (OrdMap.insert k (Crdt.serialize (Crdt.merge existing incoming)) merged)
  ]
  merge_rows rows next

-- The loop over the inputs, by the rows that the scans of them give; what it returns is written to
-- the new file.
unfoldable pub merge_inputs : List Rows → OrdMap Bytes → Option (OrdMap Bytes)
unfolding merge_rows
merge_inputs [] merged = some merged
merge_inputs (rows ∷ more) merged = merge_rows rows merged >>= λ next. merge_inputs more next

-- `scan_crdt`, the loop over the sorted rows: equal keys that stand side by side are merged. The
-- last row of the result is held apart.
unfoldable pub merge_adjacent : Rows → Bytes × Bytes → Option Rows
merge_adjacent [] last = some (last ∷ [])
merge_adjacent ((k, v) ∷ rows) (j, raw) =
    if eq_bytes j k
    then (Crdt.deserialize raw >>= λ existing. Crdt.deserialize v >>= λ incoming.
        merge_adjacent rows (j, Crdt.serialize (Crdt.merge existing incoming)))
    else (merge_adjacent rows (k, v) >>= λ out. some ((j, raw) ∷ out))

-- Whether the name is among the inputs.
unfoldable pub is_input : List Bytes → Bytes → Bool
is_input [] f = false
is_input (done ∷ more) f = if eq_bytes f done then true else is_input more f

-- The files that were not inputs.
unfoldable pub remaining : List Bytes → List Bytes → List Bytes
unfolding is_input
remaining inputs [] = []
remaining inputs (f ∷ files) =
    let rest = remaining inputs files in if is_input inputs f then rest else f ∷ rest

-- A change of one element; out of range nothing is changed.
unfoldable pub change_at {ℓ} : {A : Type ℓ} → ℕ → (A → A) → List A → List A
change_at i f [] = []
change_at zero f (x ∷ xs) = f x ∷ xs
change_at (suc i) f (x ∷ xs) = x ∷ change_at i f xs

-- `apply_compaction`, on the names of the levels.
unfoldable pub apply_to_names : CompactionTask → List (List Bytes) → List (List Bytes)
unfolding remaining change_at
apply_to_names task levels_meta =
    let emptied = change_at task.level (remaining task.input_filenames) levels_meta in
    elim task.output_sst [
      | none ↦ emptied
      | some _ ↦ change_at (task.level + 1) (λ files. files ++ task.output_filename ∷ []) emptied
    ]

-- Whether the table file is among the inputs; nullptr is not.
unfoldable pub is_input_sst : List ℕ → Option ℕ → Bool
is_input_sst inputs none = false
is_input_sst [] (some s) = false
is_input_sst (i ∷ inputs) (some s) = if s == i then true else is_input_sst inputs (some s)

unfoldable pub kept_entries : List ℕ → List FileEntry → List FileEntry
unfolding is_input_sst
kept_entries inputs [] = []
kept_entries inputs (fe ∷ fes) =
    let rest = kept_entries inputs fes in if is_input_sst inputs fe.sst then rest else fe ∷ rest

-- `resize`, which adds empty levels up to the size.
unfoldable pub resize : ℕ → List (List FileEntry) → List (List FileEntry)
resize zero levels = levels
resize (suc n) [] = [] ∷ resize n []
resize (suc n) (l ∷ levels) = l ∷ resize n levels

-- `apply_compaction`, on the layout that the readers see.
unfoldable pub apply_to_layout : CompactionTask → List (List FileEntry) → List (List FileEntry)
unfolding kept_entries change_at resize
apply_to_layout task layout =
    let emptied = change_at task.level (kept_entries task.input_ssts) layout in
    elim task.output_sst [
      | none ↦ emptied
      | some fe ↦
          change_at (task.level + 1) (λ fes. fes ++ fe ∷ []) (resize (task.level + 2) emptied)
    ]

-- The calls of the manifest that `apply_compaction` begins with, on the bytes of its file.
unfoldable pub log_compaction : CompactionTask → Bytes → Bytes
unfolding add_sstable replace
log_compaction task file =
    let added : Bytes = elim task.output_sst [
      | none ↦ file
      | some _ ↦ add_sstable (task.level + 1) task.output_filename file
    ] in
    replace task.level task.input_filenames [] added

-- `scan_crdt`: the merge of all sorted rows, and the rows that are left once tombstones are gone.
unfoldable pub merge_sorted : Rows → Option Rows
unfolding merge_adjacent
merge_sorted [] = some []
merge_sorted (kv ∷ rows) = merge_adjacent rows kv

unfoldable pub live_rows : Rows → Option (List (Bytes × LwwRegister))
live_rows [] = some []
live_rows ((k, v) ∷ rows) = do
  reg ← Crdt.deserialize v
  out ← live_rows rows
  some (elim reg.value [ [] ↦ out | b ∷ bs ↦ (k, reg) ∷ out ])

-- `scan` of the database: the values of the registers.
unfoldable pub value_rows : List (Bytes × LwwRegister) → Rows
value_rows [] = []
value_rows ((k, reg) ∷ rows) = (k, reg.value) ∷ value_rows rows
