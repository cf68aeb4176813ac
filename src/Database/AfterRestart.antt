-- ===== src/Database/AfterRestart.antt =====
-- What readers find after a restart.
use zenith_db.Prelude.{
  ℕ, ◌+◌, ◌≤◌, List, [], ◌∷◌, Option, none, some, ◌≡◌, ◌∙◌, ap, length, All, ◌⊎◌, inl, inr,
  replicate, map,
}
use zenith_db.Bytes.{Bytes}
use zenith_db.OrdMap.{find}
use zenith_db.Arena.{Allocator}
use zenith_db.Wal.Recovery.{LogRecord, append_all, IsPlain, records_effect}
use zenith_db.MockEnv.{Files}
use zenith_db.Manifest.Recovery.{Call, CallFits, write_calls, added}
use zenith_db.Compaction.{FileEntry}
use zenith_db.SsTable.{Rows}
use zenith_db.SsTable.Read.{SsTable}
use zenith_db.Database.{ZenithDb}
use zenith_db.Database.Levels.{Finds, FindsOnly, Sorts, search_levels_lem}
use zenith_db.Database.Read.{not_empty, or_else, search_levels, find_raw}
use zenith_db.Database.Open.{open_db}
use zenith_db.Database.Reopened.{Answers, AnswersAll, NameHolds, rows_of}
use zenith_db.Database.Restart.{open_db-Restored}

module _ (key : Bytes) where
  -- Rows that hold nothing for the key.
  abbrev pub Lacks : Rows → Type 0
  Lacks rows = not_empty (find key rows) ≡ none

  -- A file without rows counts as one that holds nothing.
  abbrev pub LacksAt : Option Rows → Type 0
  LacksAt none = Unit
  LacksAt (some rows) = Lacks rows

  rows_lack :
      (contents : Bytes → Option Rows) (names : List Bytes)
      → All Lacks (rows_of contents names)
      → All (λ name. LacksAt (contents name)) names
  rows_lack contents [] h = tt
  rows_lack contents (name ∷ names) h = step (contents name) h (rows_lack contents names)
    where
      step :
          (o : Option Rows)
          → All Lacks
              (elim o [ none ↦ rows_of contents names | some rows ↦ rows ∷ rows_of contents names ])
          → (All Lacks (rows_of contents names) → All (λ n. LacksAt (contents n)) names)
          → LacksAt o × All (λ n. LacksAt (contents n)) names
      step none h rest = (tt, rest h)
      step (some rows) h rest = (h.0, rest h.1)

  entries_lack :
      (tables : List SsTable) (fes : List FileEntry) (held : List Rows)
      → Answers tables fes held
      → All (Finds tables key none) fes
      → All Lacks held
  entries_lack tables [] [] a h = tt
  entries_lack tables [] (rows ∷ held) a h = absurd a
  entries_lack tables (fe ∷ fes) [] a h = absurd a
  entries_lack tables (fe ∷ fes) (rows ∷ held) a h =
      (cc (a.0 key, h.0), entries_lack tables fes held a.1 h.1)

  levels_lack :
      (tables : List SsTable) (contents : Bytes → Option Rows) (opened : List (List FileEntry))
      (levels : List (List Bytes))
      → AnswersAll tables contents opened levels
      → All (All (Finds tables key none)) opened
      → All (All (λ name. LacksAt (contents name))) levels
  levels_lack tables contents [] [] a h = tt
  levels_lack tables contents [] (names ∷ levels) a h = absurd a
  levels_lack tables contents (fes ∷ opened) [] a h = absurd a
  levels_lack tables contents (fes ∷ opened) (names ∷ levels) a h = (
    rows_lack contents names (entries_lack tables fes (rows_of contents names) a.0 h.0),
    levels_lack tables contents opened levels a.1 h.1,
  )

  module _ (v : Bytes) where
    -- Rows that hold nothing for the key but the value.
    abbrev pub HoldsOnly : Rows → Type 0
    HoldsOnly rows = Lacks rows ⊎ (not_empty (find key rows) ≡ some v)

    abbrev pub HoldsOnlyAt : Option Rows → Type 0
    HoldsOnlyAt none = Unit
    HoldsOnlyAt (some rows) = HoldsOnly rows

    rows_hold :
        (contents : Bytes → Option Rows) (names : List Bytes)
        → All (λ name. HoldsOnlyAt (contents name)) names
        → All HoldsOnly (rows_of contents names)
    rows_hold contents [] h = tt
    rows_hold contents (name ∷ names) h = step (contents name) h.0 (rows_hold contents names h.1)
      where
        step :
            (o : Option Rows)
            → HoldsOnlyAt o
            → All HoldsOnly (rows_of contents names)
            → All HoldsOnly (elim o [
              | none ↦ rows_of contents names
              | some rows ↦ rows ∷ rows_of contents names
            ])
        step none h rest = rest
        step (some rows) h rest = (h, rest)

    entries_hold :
        (tables : List SsTable) (fes : List FileEntry) (held : List Rows)
        → Answers tables fes held
        → All HoldsOnly held
        → All (FindsOnly tables key v) fes
    entries_hold tables [] [] a h = tt
    entries_hold tables [] (rows ∷ held) a h = absurd a
    entries_hold tables (fe ∷ fes) [] a h = absurd a
    entries_hold tables (fe ∷ fes) (rows ∷ held) a h = (
      elim h.0 [
        | inl lacks ↦ inl (a.0 key ∙ ap some lacks)
        | inr holds ↦ inr (a.0 key ∙ ap some holds)
      ],
      entries_hold tables fes held a.1 h.1,
    )

    levels_hold :
        (tables : List SsTable) (contents : Bytes → Option Rows) (opened : List (List FileEntry))
        (levels : List (List Bytes))
        → AnswersAll tables contents opened levels
        → All (All (λ name. HoldsOnlyAt (contents name))) levels
        → All (All (FindsOnly tables key v)) opened
    levels_hold tables contents [] [] a h = tt
    levels_hold tables contents [] (names ∷ levels) a h = absurd a
    levels_hold tables contents (fes ∷ opened) [] a h = absurd a
    levels_hold tables contents (fes ∷ opened) (names ∷ levels) a h = (
      entries_hold tables fes (rows_of contents names) a.0 (rows_hold contents names h.0),
      levels_hold tables contents opened levels a.1 h.1,
    )

-- After the constructor has returned, a reader finds the value of a key that the log does not
-- hold, if some file of the levels holds that value for it and no file holds another one that is
-- not empty; an empty value counts as none. `sort` orders the entries by their first keys and
-- keeps them all. The log holds plain records, no more than its fuel is made for, and the reader
-- has fuel for its keys and 12 levels; the manifest holds what fitting calls wrote; each file was
-- made by `create` of sorted rows within the size bounds of the format, no block of them but the
-- last ending behind a multiple of 16 entries, or it is missing, too small or of a wrong magic
-- number.
pub open_db-find_raw :
    (env : Allocator) (rand : ℕ → ℕ) (garbage : ℕ → Option ℕ) (limit draws : ℕ)
    (path_of : Bytes → Bytes) (sort : List FileEntry → List FileEntry) (files : Files)
    (node_id : Bytes) (named : ℕ) (calls : List Call) (rs : List LogRecord)
    (contents : Bytes → Option Rows) (fuel : ℕ)
    → All CallFits calls
    → All IsPlain rs
    → length rs ≤ limit
    → length (records_effect rs []) + 12 ≤ fuel
    → All (All (NameHolds files path_of contents)) (added calls (replicate 7 []))
    → Sorts sort
    → (key v : Bytes) → not_empty (find key (records_effect rs [])) ≡ none
    → All (All (λ name. HoldsOnlyAt key v (contents name))) (added calls (replicate 7 []))
    → (¬ All (All (λ name. LacksAt key (contents name))) (added calls (replicate 7 [])))
    → (after : ZenithDb) × (open_db env rand garbage limit draws path_of sort files node_id
          (write_calls calls [])
          (append_all rs [])
          named
        ≡ some after)
      × (find_raw fuel after key ≡ some (some v))
open_db-find_raw env rand garbage limit draws path_of sort files node_id named calls rs contents
      fuel fits plain q enough holds law key v unlogged only somewhere =
    let levels = added calls (replicate 7 []) in
    let r =
      open_db-Restored env rand garbage limit draws path_of sort files node_id named calls rs
        contents fuel fits plain q enough holds in
    let found =
      search_levels_lem r.after.tables key v sort law r.opened r.each_opened
        (levels_hold key v r.after.tables contents r.opened levels r.answers only) in
    (
      r.after,
      r.returns,
      r.finds key
          ∙ ap (λ o. or_else o (search_levels r.after.tables key (map sort r.opened))) unlogged
          ∙ elim found [
            | inl absent ↦ absurd (
                somewhere
                  (levels_lack key r.after.tables contents r.opened levels r.answers absent.1))
            | inr there ↦ there
          ],
    )
