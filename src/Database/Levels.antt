-- ===== src/Database/Levels.antt =====
-- Searching levels whose entries stand by their first keys, as the constructor of the database
-- leaves them.
use zenith_db.Prelude.{
  ℕ, List, [], ◌∷◌, map, Option, none, some, true, false, ◌&&◌, not, ◌==◌, ◌≡◌, refl, sym, ◌∙◌,
  arith, length, All, get_elem?, Bool-cases, ◌⊎◌, inl, inr, ◌>>=◌,
}
use mathlib.Core.Path.{subst}
use zenith_db.Bytes.{Bytes, Before, cmp, lt_bytes, cmp_swap, eq_of_cmp, Before-trans}
use zenith_db.Compaction.{FileEntry}
use zenith_db.SsTable.Read
use zenith_db.SsTable.Read.{SsTable}
use zenith_db.Database.Read.{not_empty, or_else, lower_bound, search_level, search_levels}

-- An entry of a table, whose largest key is left empty, as the constructor of the table does.
pub record IsOpened (fe : FileEntry) : Type 0 where
  pub object_number : ℕ
  pub sst_eq : fe.sst ≡ some object_number
  pub max_key_eq : fe.max_key ≡ []

-- The first keys do not descend.
abbrev pub Ascends : List FileEntry → Type 0
Ascends [] = Unit
Ascends (fe ∷ fes) = All (λ g. lt_bytes g.min_key fe.min_key ≡ false) fes × Ascends fes

-- What `std::sort` by the first keys does: the same entries, in order.
pub record Sorts (sort : List FileEntry → List FileEntry) : Type 1 where
  pub keeps : (P : FileEntry → Type 0) (fes : List FileEntry) → All P fes → All P (sort fes)
  pub adds_none : (P : FileEntry → Type 0) (fes : List FileEntry) → All P (sort fes) → All P fes
  pub ascends : (fes : List FileEntry) → Ascends (sort fes)

or_else_rest :
    (y o : Option Bytes) (rest : Option (Option Bytes))
    → or_else y (some none) ≡ some o
    → or_else y rest ≡ or_else o rest
or_else_rest none none rest h = refl
or_else_rest none (some v) rest h = absurd (cc h)
or_else_rest (some v) none rest h = absurd (cc h)
or_else_rest (some v) (some w) rest h = cc h

get_rest :
    (m : Option (Option Bytes)) (o : Option Bytes) (rest : Option (Option Bytes))
    → (m >>= λ x. or_else (not_empty x) (some none)) ≡ some o
    → (m >>= λ x. or_else (not_empty x) rest) ≡ or_else o rest
get_rest none o rest h = absurd (cc h)
get_rest (some x) o rest h = or_else_rest (not_empty x) o rest h

table_rest :
    (m : Option SsTable) (key : Bytes) (o : Option Bytes) (rest : Option (Option Bytes))
    → (m >>= λ t. Read.get t key >>= λ x. or_else (not_empty x) (some none)) ≡ some o
    → (m >>= λ t. Read.get t key >>= λ x. or_else (not_empty x) rest) ≡ or_else o rest
table_rest none key o rest h = absurd (cc h)
table_rest (some t) key o rest h = get_rest (Read.get t key) o rest h

-- The search of a level stops at an entry.
abbrev Stops : Bytes → Bytes → Type 0
Stops key min_key = (not (length min_key == 0) && lt_bytes key min_key) ≡ true

Before-Stops : (key m : Bytes) → Before key m → Stops key m
unfolding cmp
Before-Stops [] [] h = absurd (cc h)
Before-Stops (x ∷ xs) [] h = absurd (cc h)
Before-Stops key (y ∷ ys) h = ground (arith, h)

Stops-later : (key m n : Bytes) → Stops key m → lt_bytes n m ≡ false → Stops key n
Stops-later key m n h later =
    let early : Before key m = ground (arith, h) in
    Before-Stops key n (elim (cmp_swap n m) [
      | inl less ↦ absurd (ground (arith, later, less.0))
      | inr (inl same) ↦ subst (Before key) (sym (eq_of_cmp n m same.0)) early
      | inr (inr more) ↦ Before-trans key m n early more.1
    ])

module _ (tables : List SsTable) (key : Bytes) where
  -- What a search of one entry finds.
  abbrev pub Finds : Option Bytes → FileEntry → Type 0
  Finds o fe = search_level tables key (fe ∷ []) ≡ some o

  searched_none : search_level tables key [] ≡ some none
  unfolding search_level
  searched_none = refl

  stopped :
      (fe : FileEntry) (fes : List FileEntry)
      → IsOpened fe
      → Stops key fe.min_key
      → search_level tables key (fe ∷ fes) ≡ some none
  unfolding search_level
  stopped fe fes h stop = rw (h.sst_eq, search_level, stop) refl

  later_found :
      (fe : FileEntry) (gs : List FileEntry)
      → All IsOpened gs
      → All (λ g. lt_bytes g.min_key fe.min_key ≡ false) gs
      → Stops key fe.min_key
      → All (Finds none) gs
  later_found fe [] h later stop = tt
  later_found fe (g ∷ gs) h later stop = (
    stopped g [] h.0 (Stops-later key fe.min_key g.min_key stop later.0),
    later_found fe gs h.1 later.1 stop,
  )

  went_on :
      (fe : FileEntry) (fes : List FileEntry) (o : Option Bytes)
      → IsOpened fe
      → (not (length fe.min_key == 0) && lt_bytes key fe.min_key) ≡ false
      → Finds o fe
      → search_level tables key (fe ∷ fes) ≡ or_else o (search_level tables key fes)
  unfolding search_level
  went_on fe fes o h on found =
      let found' = rw (h.sst_eq, on, search_level) at found in
      rw (h.sst_eq, on, search_level)
        (table_rest (get_elem? tables h.object_number) key o (search_level tables key fes) found')

  lower_bound_lem : (fes : List FileEntry) → All IsOpened fes → lower_bound key fes ≡ fes
  unfolding lower_bound
  lower_bound_lem [] h = refl
  lower_bound_lem (fe ∷ fes) h = rw (h.0.max_key_eq) refl

  module _ (v : Bytes) where
    abbrev pub FindsOnly : FileEntry → Type 0
    FindsOnly fe = Finds none fe ⊎ Finds (some v) fe

    -- A level in order, whose entries hold no other value for the key, is searched to the end, and
    -- the value is found if one of them holds it.
    search_level_lem :
        (fes : List FileEntry)
        → All IsOpened fes
        → Ascends fes
        → All FindsOnly fes
        → ((search_level tables key fes ≡ some none) × All (Finds none) fes)
          ⊎ (search_level tables key fes ≡ some (some v))
    search_level_lem [] opened order only = inl (searched_none, tt)
    search_level_lem (fe ∷ fes) opened order only =
        elim (Bool-cases (not (length fe.min_key == 0) && lt_bytes key fe.min_key)) [
          | inl stop ↦ inl (
            stopped fe fes opened.0 stop,
            (stopped fe [] opened.0 stop, later_found fe fes opened.1 order.0 stop),
          )
          | inr on ↦ elim only.0 [
            | inl absent ↦ elim (search_level_lem fes opened.1 order.1 only.1) [
              | inl none_there ↦
                  inl
                    (went_on fe fes none opened.0 on absent ∙ none_there.0, (absent, none_there.1))
              | inr there ↦ inr (went_on fe fes none opened.0 on absent ∙ there)
            ]
            | inr present ↦ inr (went_on fe fes (some v) opened.0 on present)
          ]
        ]

    module _ (sort : List FileEntry → List FileEntry) (law : Sorts sort) where
      search_sorted :
          (fes : List FileEntry)
          → All IsOpened fes
          → All FindsOnly fes
          → ((search_level tables key (lower_bound key (sort fes)) ≡ some none)
              × All (Finds none) fes)
            ⊎ (search_level tables key (lower_bound key (sort fes)) ≡ some (some v))
      search_sorted fes opened only =
          let opened' = law.keeps IsOpened fes opened in
          rw (lower_bound_lem (sort fes) opened')
            (elim (search_level_lem (sort fes) opened' (law.ascends fes)
              (law.keeps FindsOnly fes only)) [
                | inl absent ↦ inl (absent.0, law.adds_none (Finds none) fes absent.1)
                | inr there ↦ inr there
              ])

      -- Over all levels: the value is found, unless no entry has it.
      pub search_levels_lem :
          (opened : List (List FileEntry))
          → All (All IsOpened) opened
          → All (All FindsOnly) opened
          → ((search_levels tables key (map sort opened) ≡ some none)
              × All (All (Finds none)) opened)
            ⊎ (search_levels tables key (map sort opened) ≡ some (some v))
      unfolding search_levels
      search_levels_lem [] h only = inl (refl, tt)
      search_levels_lem (fes ∷ opened) h only = elim (search_sorted fes h.0 only.0) [
        | inl absent ↦ elim (search_levels_lem opened h.1 only.1) [
          | inl none_there ↦ inl (rw absent.0 none_there.0, (absent.1, none_there.1))
          | inr there ↦ inr (rw absent.0 there)
        ]
        | inr there ↦ inr (rw there refl)
      ]
