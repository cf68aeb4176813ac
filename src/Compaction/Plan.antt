-- ===== src/Compaction/Plan.antt =====
-- Which level is compacted, and what the levels hold afterwards.
use zenith_db.Prelude.{
  ℕ, zero, suc, ◌+◌, ◌≤◌, ◌<◌, List, [], ◌∷◌, ◌++◌, Option, none, some, true, leb, leb→le, ◌≡◌,
  refl, ap, sym, ◌∙◌, arith, length, length-append, append_assoc, Option-cases, ◌⊎◌, get_elem?,
  Bool-cases, inl, inr,
}
use mathlib.Core.Path.{subst}
use zenith_db.Bytes.{Bytes, cmp_refl}
use zenith_db.Compaction.{
  CompactionTask, threshold, plan_loop, is_input, remaining, change_at, apply_to_names, FileEntry,
  plan_compaction, present,
}

is_input-append : (front back : List Bytes) (f : Bytes) → is_input (front ++ f ∷ back) f ≡ true
unfolding is_input
is_input-append [] back f = ground (arith, cmp_refl f)
is_input-append (g ∷ front) back f = ground (arith, is_input-append front back f)

-- All files of the inputs are dropped.
remaining_none : (front files : List Bytes) → remaining (front ++ files) files ≡ []
unfolding remaining
remaining_none front [] = refl
remaining_none front (f ∷ files) = rw (is_input-append front files f) (
    subst (λ l. remaining l files ≡ []) (append_assoc front (f ∷ []) files)
      (remaining_none (front ++ f ∷ []) files))

change_at-append :
    {A : Type 0} (f : A → A) (front back : List A) (x : A) (i : ℕ)
    → i ≡ length front
    → change_at i f (front ++ x ∷ back) ≡ front ++ f x ∷ back
unfolding change_at
change_at-append f [] back x zero h = refl
change_at-append f [] back x (suc i) h = absurd (omega arith)
change_at-append f (y ∷ front) back x zero h = absurd (omega arith)
change_at-append f (y ∷ front) back x (suc i) h =
    ap (λ l. y ∷ l) (change_at-append f front back x i (omega arith))

get_elem?_outside {ℓ} : {A : Type ℓ} (xs : List A) (i : ℕ) → get_elem? xs i ≡ none → length xs ≤ i
get_elem?_outside [] i h = omega arith
get_elem?_outside (x ∷ xs) zero h = absurd (ground arith)
get_elem?_outside (x ∷ xs) (suc i) h = omega (arith, get_elem?_outside xs i h)

-- No level but the last has reached its threshold.
abbrev pub NoneFull : ℕ → List (List Bytes) → Type 0
NoneFull lvl [] = Unit
NoneFull lvl (files ∷ []) = Unit
NoneFull lvl (files ∷ next ∷ more) =
    (length files < threshold lvl) × NoneFull (lvl + 1) (next ∷ more)

-- The first level that has reached its threshold, with one behind it.
record FirstFull (lvl : ℕ) (levels : List (List Bytes)) : Type 0 where
  before : List (List Bytes)
  files : List Bytes
  next : List Bytes
  after : List (List Bytes)
  parts : levels ≡ before ++ files ∷ next ∷ after
  found : plan_loop lvl levels ≡ some (lvl + length before, files)
  full : threshold (lvl + length before) ≤ length files

plan_loop_cases :
    (lvl : ℕ) (levels : List (List Bytes))
    → ((plan_loop lvl levels ≡ none) × NoneFull lvl levels) ⊎ FirstFull lvl levels
unfolding plan_loop
plan_loop_cases lvl [] = inl (refl, tt)
plan_loop_cases lvl (files ∷ []) = inl (refl, tt)
plan_loop_cases lvl (files ∷ next ∷ more) = elim (Bool-cases (leb (threshold lvl) (length files))) [
  | inl full ↦
      let here : lvl + 0 ≡ lvl = omega arith in
      inr (record {
        before = [];
        files = files;
        next = next;
        after = more;
        parts = refl;
        found = rw (full, here) refl;
        full = rw here (leb→le _ _ full);
      })
  | inr short ↦ elim (plan_loop_cases (lvl + 1) (next ∷ more)) [
    | inl (none_found, rest) ↦ inl (rw short none_found, (ground arith, rest))
    | inr r ↦
        let there : lvl + 1 + length r.before ≡ lvl + suc (length r.before) = omega arith in
        inr (record {
          before = files ∷ r.before;
          files = r.files;
          next = r.next;
          after = r.after;
          parts = ap (λ l. files ∷ l) r.parts;
          found = rw short (r.found ∙ ap (λ n. some (n, r.files)) there);
          full = subst (λ n. threshold n ≤ length r.files) there r.full;
        })
  ]
]

-- A plan of which the new file, once it is written, takes the place of the files of a full level.
pub record Compacts (levels : List (List Bytes)) (result : Option (Option CompactionTask))
    : Type 0 where
  pub task : CompactionTask
  pub before : List (List Bytes)
  pub files : List Bytes
  pub next : List Bytes
  pub after : List (List Bytes)
  pub returns : result ≡ some (some task)
  pub parts : levels ≡ before ++ files ∷ next ∷ after
  pub full : threshold (length before) ≤ length files
  pub moves :
      (fe : FileEntry)
      → apply_to_names (record task { output_sst = some fe }) levels
        ≡ before ++ [] ∷ (next ++ task.output_filename ∷ []) ∷ after

moved :
    (before after : List (List Bytes)) (files next : List Bytes) (task : CompactionTask)
    (fe : FileEntry)
    → task.level ≡ length before
    → task.input_filenames ≡ files
    → apply_to_names (record task { output_sst = some fe }) (before ++ files ∷ next ∷ after)
      ≡ before ++ [] ∷ (next ++ task.output_filename ∷ []) ∷ after
unfolding apply_to_names
moved before after files next task fe at inputs =
    let drop = remaining task.input_filenames in
    let add = λ (fs : List Bytes). fs ++ task.output_filename ∷ [] in
    ap (change_at (task.level + 1) add) (
      change_at-append drop before (next ∷ after) files task.level at
      ∙ ap (λ l. before ++ l ∷ next ∷ after)
          (ap (λ l. remaining l files) inputs ∙ remaining_none [] files)
      ∙ sym (append_assoc before ([] ∷ []) (next ∷ after)))
    ∙ change_at-append add (before ++ [] ∷ []) after next (task.level + 1)
        (omega (arith, length-append before ([] ∷ []), at))
    ∙ append_assoc before ([] ∷ []) ((next ++ task.output_filename ∷ []) ∷ after)

-- Of a layout with as many levels as there are lists of names, `plan_compaction` either finds no
-- task, and then no level but the last has reached its threshold, or it plans a level that has
-- reached it. Once the new file is written, applying that task to the names leaves the level
-- empty, with the new file behind those of the next level, and all other levels as they were.
pub plan_compaction_cases :
    (new_filename : ℕ → Bytes) (levels : List (List Bytes)) (layout : List (List FileEntry))
    → length levels ≤ length layout
    → ((plan_compaction new_filename levels layout ≡ some none) × NoneFull 0 levels)
      ⊎ Compacts levels (plan_compaction new_filename levels layout)
unfolding plan_compaction
plan_compaction_cases new_filename levels layout wide = elim (plan_loop_cases 0 levels) [
  | inl (none_found, short) ↦ inl (rw (none_found, plan_compaction) refl, short)
  | inr r ↦ elim (Option-cases (get_elem? layout (0 + length r.before))) [
    | inl outside ↦ absurd (
        omega (
          arith,
          wide,
          get_elem?_outside layout (0 + length r.before) outside,
          ap length r.parts,
          length-append r.before (r.files ∷ r.next ∷ r.after),
        ))
    | inr (level_vec, inside) ↦
        let task : CompactionTask = record {
          level = 0 + length r.before;
          input_filenames = r.files;
          input_ssts = present level_vec;
          output_filename = new_filename (0 + length r.before + 1);
          output_sst = none;
        } in
        inr (record {
          task = task;
          before = r.before;
          files = r.files;
          next = r.next;
          after = r.after;
          returns = rw (r.found, inside, plan_compaction) refl;
          parts = r.parts;
          full = subst (λ n. threshold n ≤ length r.files) (omega arith) r.full;
          moves = λ fe.
              ap (apply_to_names (record task { output_sst = some fe })) r.parts
              ∙ moved r.before r.after r.files r.next task fe (omega arith) refl;
        })
  ]
]
