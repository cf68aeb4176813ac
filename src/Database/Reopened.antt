-- ===== src/Database/Reopened.antt =====
-- Opening the table files of the levels again, in the constructor of the database.
use zenith_db.Prelude.{
  ◌^◌, ◌<◌, List, [], ◌∷◌, ◌++◌, Option, none, some, true, false, ◌≡◌, refl, sym, ap, ◌∙◌, length,
  All, get_elem?, append-nil, append_assoc, ◌⊎◌, inl, inr,
}
use zenith_db.Bytes.{Bytes}
use zenith_db.OrdMap.{find, IsSorted}
use zenith_db.MockEnv.{Files, file_exists, new_random_access_file}
use zenith_db.Compaction.{FileEntry}
use zenith_db.SsTable.{Rows}
use zenith_db.SsTable.Create.{create}
use zenith_db.SsTable.Read.{SsTable}
use zenith_db.SsTable.Open.{too_small, bad_magic, open_table}
use zenith_db.SsTable.Entries.{rows_bytes, RowFits}
use zenith_db.SsTable.Blocks.{ClosesAll}
use zenith_db.SsTable.Contract.{written}
use zenith_db.Database.Levels.{IsOpened}
use zenith_db.Database.Read.{not_empty, search_level}
use zenith_db.Database.Open.{push_opened, open_level, open_levels}
use zenith_db.Database.Flushed.{search_entry}

-- Rows whose file is read back.
pub record MakesFile (rows : Rows) : Type 0 where
  pub sorted : IsSorted rows
  pub fits : All RowFits rows
  pub small : length (rows_bytes rows) < 2 ^ 29
  pub file_small : length (create rows) < 2 ^ 63
  pub closes : ClosesAll (length rows) rows

-- The file of a path: `create` wrote it from the rows; or it is not there, or the constructor of
-- the table refuses it.
abbrev pub FileHolds : Files → Bytes → Option Rows → Type 0
FileHolds files path (some rows) =
    MakesFile rows × (new_random_access_file path files ≡ some (create rows))
FileHolds files path none =
    (file_exists path files ≡ false)
    ⊎ ((content : Bytes) × (new_random_access_file path files ≡ some content)
        × ((open_table content ≡ too_small) ⊎ (open_table content ≡ bad_magic)))

-- The rows of the files of a level that hold some.
abbrev pub rows_of : (Bytes → Option Rows) → List Bytes → List Rows
rows_of contents [] = []
rows_of contents (name ∷ names) =
    let rest = rows_of contents names in
    elim (contents name) [ none ↦ rest | some rows ↦ rows ∷ rest ]

-- The entries of a level are those of the files, in order: of each, a search answers for every key
-- what the rows of its file hold.
abbrev pub Answers : List SsTable → List FileEntry → List Rows → Type 0
Answers tables [] [] = Unit
Answers tables [] (rows ∷ more) = ⊥
Answers tables (fe ∷ fes) [] = ⊥
Answers tables (fe ∷ fes) (rows ∷ more) =
    ((key : Bytes) → search_level tables key (fe ∷ []) ≡ some (not_empty (find key rows)))
    × Answers tables fes more

abbrev pub AnswersAll :
    List SsTable → (Bytes → Option Rows) → List (List FileEntry) → List (List Bytes) → Type 0
AnswersAll tables contents [] [] = Unit
AnswersAll tables contents [] (names ∷ levels) = ⊥
AnswersAll tables contents (fes ∷ layout) [] = ⊥
AnswersAll tables contents (fes ∷ layout) (names ∷ levels) =
    Answers tables fes (rows_of contents names) × AnswersAll tables contents layout levels

-- Tables are only added, at the end.
abbrev Extends : List SsTable → List SsTable → Type 0
Extends ts more = (rest : List SsTable) × (more ≡ ts ++ rest)

Extends-trans : (a b c : List SsTable) → Extends a b → Extends b c → Extends a c
Extends-trans a b c (x, e) (y, f) = (x ++ y, f ∙ ap (λ l. l ++ y) e ∙ append_assoc a x y)

get_elem?-middle :
    (ts : List SsTable) (t : SsTable) (rest : List SsTable)
    → get_elem? ((ts ++ t ∷ []) ++ rest) (length ts) ≡ some t
get_elem?-middle [] t rest = refl
get_elem?-middle (x ∷ ts) t rest = get_elem?-middle ts t rest

-- A level whose files were opened behind some entries and tables.
record LevelOpened (contents : Bytes → Option Rows) (names : List Bytes) (fes : List FileEntry)
    (tables : List SsTable) (result : Option (List FileEntry × List SsTable)) : Type 0 where
  entries : List FileEntry
  after : List SsTable
  returns : result ≡ some (fes ++ entries, after)
  extends : Extends tables after
  answers : (ts : List SsTable) → Extends after ts → Answers ts entries (rows_of contents names)
  all_opened : All IsOpened entries

module _ (files : Files) (path_of : Bytes → Bytes) (contents : Bytes → Option Rows) where
  abbrev pub NameHolds : Bytes → Type 0
  NameHolds name = FileHolds files (path_of name) (contents name)

  file_is_there :
      (path content : Bytes)
      → new_random_access_file path files ≡ some content
      → file_exists path files ≡ true
  unfolding file_exists new_random_access_file
  file_is_there path content found = rw (found, file_exists) refl

  Opens : List Bytes → List FileEntry → List SsTable → Type 0
  Opens names fes tables =
      LevelOpened contents names fes tables (open_level path_of files names fes tables)

  module _ (name : Bytes) (names : List Bytes)
      (rest : (fes : List FileEntry) (tables : List SsTable) → Opens names fes tables)
      (fes : List FileEntry) (tables : List SsTable) where
    open_level-passed :
        contents name ≡ none
        → open_level path_of files (name ∷ names) fes tables
          ≡ open_level path_of files names fes tables
        → Opens (name ∷ names) fes tables
    unfolding Opens
    open_level-passed e skip =
        let r = rest fes tables in
        record {
          entries = r.entries;
          after = r.after;
          returns = skip ∙ r.returns;
          extends = r.extends;
          answers = rw (e, rows_of) r.answers;
          all_opened = r.all_opened;
        }

    -- A file is opened or passed over, and then the rest of the level.
    open_level-cons :
        (o : Option Rows)
        → contents name ≡ o
        → FileHolds files (path_of name) o
        → Opens (name ∷ names) fes tables
    unfolding open_level push_opened Opens
    open_level-cons none e (inl missing) = open_level-passed e (rw missing refl)
    open_level-cons none e (inr (content, found, inl refused)) =
        open_level-passed e (rw (file_is_there (path_of name) content found, found, refused) refl)
    open_level-cons none e (inr (content, found, inr refused)) =
        open_level-passed e (rw (file_is_there (path_of name) content found, found, refused) refl)
    open_level-cons (some rows) e (makes, found) =
        let w = written rows makes.fits makes.sorted makes.small makes.file_small makes.closes in
        let fe : FileEntry = record {
          sst = some (length tables);
          min_key = w.table.meta.min_key;
          max_key = w.table.meta.max_key;
        } in
        let r = rest (fes ++ fe ∷ []) (tables ++ w.table ∷ []) in
        record {
          entries = fe ∷ r.entries;
          after = r.after;
          returns =
              rw (file_is_there (path_of name) (create rows) found, found, w.opens)
                (r.returns ∙ ap (λ l. some (l, r.after)) (append_assoc fes (fe ∷ []) r.entries));
          extends = Extends-trans tables _ r.after (w.table ∷ [], refl) r.extends;
          all_opened = (
            record { object_number = length tables; sst_eq = refl; max_key_eq = w.no_last_key },
            r.all_opened,
          );
          answers = λ ts more.
              let (rest', all) = Extends-trans _ r.after ts r.extends more in
              rw (e, rows_of)
                (
                  λ key.
                      search_entry ts (length tables) rows w w.table.meta.max_key key
                        (ap (λ l. get_elem? l (length tables)) all
                          ∙ get_elem?-middle tables w.table rest')
                        makes.sorted,
                  r.answers ts more,
                );
        }

  open_level_lem :
      (names : List Bytes)
      → All NameHolds names
      → (fes : List FileEntry) (tables : List SsTable) → Opens names fes tables
  unfolding open_level Opens
  open_level_lem [] holds fes tables = record {
    entries = [];
    after = tables;
    returns = rw (append-nil fes) refl;
    extends = ([], sym (append-nil tables));
    answers = λ ts e. tt;
    all_opened = tt;
  }
  open_level_lem (name ∷ names) holds fes tables =
      open_level-cons name names (open_level_lem names holds.1) fes tables (contents name) refl
        holds.0

  -- All levels, opened behind some tables.
  pub record LevelsOpened (levels : List (List Bytes)) (tables : List SsTable)
      (result : Option (List (List FileEntry) × List SsTable)) : Type 0 where
    pub layout : List (List FileEntry)
    pub after : List SsTable
    pub returns : result ≡ some (layout, after)
    extends : Extends tables after
    answers_more : (ts : List SsTable) → Extends after ts → AnswersAll ts contents layout levels
    pub each_opened : All (All IsOpened) layout

  pub open_levels_lem :
      (levels : List (List Bytes))
      → All (All NameHolds) levels
      → (tables : List SsTable)
      → LevelsOpened levels tables (open_levels path_of files levels tables)
  unfolding open_levels Opens
  open_levels_lem [] holds tables = record {
    layout = [];
    after = tables;
    returns = refl;
    extends = ([], sym (append-nil tables));
    answers_more = λ ts e. tt;
    each_opened = tt;
  }
  open_levels_lem (names ∷ levels) holds tables =
      let first = open_level_lem names holds.0 [] tables in
      let r = open_levels_lem levels holds.1 first.after in
      record {
        layout = first.entries ∷ r.layout;
        after = r.after;
        returns = rw (first.returns, r.returns) refl;
        extends = Extends-trans tables first.after r.after first.extends r.extends;
        each_opened = (first.all_opened, r.each_opened);
        answers_more = λ ts more. (
          first.answers ts (Extends-trans first.after r.after ts r.extends more),
          r.answers_more ts more,
        );
      }

  pub LevelsOpened-answers :
      (levels : List (List Bytes))
      (r : LevelsOpened levels [] (open_levels path_of files levels []))
      → AnswersAll r.after contents r.layout levels
  LevelsOpened-answers levels r = r.answers_more r.after ([], sym (append-nil r.after))
