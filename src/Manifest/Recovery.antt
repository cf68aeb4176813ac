-- ===== src/Manifest/Recovery.antt =====
-- What `load` makes of a file that the calls of the manifest wrote.
use zenith_db.Prelude.{
  ℕ, ◌+◌, ◌<◌, List, [], ◌∷◌, ◌++◌, some, false, ◌≡◌, refl, ap, ◌∙◌, arith, All, ◌==◌, replicate,
}
use mathlib.Core.Path.{subst}
use zenith_db.Bytes.{Bytes}
use zenith_db.Wal.{newline}
use zenith_db.Wal.Lines.{lines_of, lines_of_line, lines_of-append, in_front, Without}
use zenith_db.Wal.Replay.{NonEmpty, joined}
use zenith_db.Compaction.{change_at}
use zenith_db.Manifest.{
  to_string, add_record, del_record, add_sstable, del_files, add_files, replace,
}
use zenith_db.Manifest.Load.{is_space, load_line, load}
use zenith_db.Manifest.Lines.{load_lines, load_lines-append, load_reads}
use zenith_db.Manifest.Parsing.{
  IsName, to_string_digit, add_line, load_line_add, del_line, load_line_del,
}

-- What the calls of the manifest write.
pub data Call : Type 0 where
  add_call : ℕ → Bytes → Call
  replace_call : ℕ → List Bytes → List Bytes → Call

abbrev pub write_calls : List Call → Bytes → Bytes
write_calls [] file = file
write_calls (add_call level f ∷ calls) file = write_calls calls (add_sstable level f file)
write_calls (replace_call level old_files new_files ∷ calls) file =
    write_calls calls (replace level old_files new_files file)

-- The files that they add, level by level.
abbrev pub add_names : ℕ → List Bytes → List (List Bytes) → List (List Bytes)
add_names level [] levels = levels
add_names level (f ∷ fs) levels =
    add_names level fs (change_at level (λ files. files ++ f ∷ []) levels)

abbrev pub added : List Call → List (List Bytes) → List (List Bytes)
added [] levels = levels
added (add_call level f ∷ calls) levels =
    added calls (change_at level (λ files. files ++ f ∷ []) levels)
added (replace_call level old_files new_files ∷ calls) levels =
    added calls (add_names level new_files levels)

-- Levels of one digit, and names without spaces; a name that is taken away has no newline.
abbrev pub CallFits : Call → Type 0
CallFits (add_call level f) = (level < 10) × IsName f
CallFits (replace_call level old_files new_files) =
    (level < 10) × All (Without newline) old_files × All IsName new_files

-- A file that ends with a line, and the levels that its lines leave.
record Leaves (file : Bytes) (levels : List (List Bytes)) : Type 0 where
  whole : (lines_of file).1 ≡ []
  loads : load_lines (lines_of file).0 (replicate 7 []) ≡ levels

Leaves-append :
    (file line : Bytes) (levels : List (List Bytes))
    → Leaves file levels
    → Without newline line
    → Leaves (file ++ (line ++ newline ∷ [])) (load_line line levels)
unfolding lines_of
Leaves-append file line levels h clean =
    let one = lines_of_line line [] clean in
    let shape : lines_of (file ++ (line ++ newline ∷ [])) ≡ ((lines_of file).0 ++ line ∷ [], []) =
      lines_of-append file (line ++ newline ∷ [])
      ∙ ap (λ p. in_front (lines_of file).0 (lines_of (p ++ (line ++ newline ∷ [])))) h.whole
      ∙ ap (in_front (lines_of file).0) one in
    record {
      whole = ap (λ (r : List Bytes × Bytes). r.1) shape;
      loads =
          ap (λ (r : List Bytes × Bytes). load_lines r.0 (replicate 7 [])) shape
          ∙ load_lines-append (lines_of file).0 (line ∷ []) (replicate 7 [])
          ∙ ap (load_line line) h.loads;
    }

name_clean : (f : Bytes) → All (λ c. is_space c ≡ false) f → Without newline f
unfolding is_space
name_clean [] h = tt
name_clean (c ∷ f) h = (ground (arith, h.0), name_clean f h.1)

digit_clean : (level : ℕ) → level < 10 → ((b'0' + level) == newline) ≡ false
digit_clean level h = ground arith

add_record_line :
    (level : ℕ) (f : Bytes) → level < 10 → add_line level f ++ newline ∷ [] ≡ add_record level f
unfolding add_record
add_record_line level f h = rw (to_string_digit level h) refl

del_record_line :
    (level : ℕ) (f : Bytes) → level < 10 → del_line level f ++ newline ∷ [] ≡ del_record level f
unfolding del_record
del_record_line level f h = rw (to_string_digit level h) refl

Leaves-add :
    (file : Bytes) (levels : List (List Bytes)) (level : ℕ) (f : Bytes)
    → Leaves file levels
    → level < 10
    → IsName f
    → Leaves (file ++ add_record level f) (change_at level (λ files. files ++ f ∷ []) levels)
Leaves-add file levels level f h small name =
    subst (Leaves (file ++ add_record level f)) (load_line_add level f levels small name) (
      subst (λ r. Leaves (file ++ r) (load_line (add_line level f) levels))
        (add_record_line level f small)
        (Leaves-append file (add_line level f) levels h (
          refl,
          (refl, (refl, (refl, (digit_clean level small, (refl, name_clean f name.no_space))))),
        )))

Leaves-del :
    (file : Bytes) (levels : List (List Bytes)) (level : ℕ) (f : Bytes)
    → Leaves file levels
    → level < 10
    → Without newline f
    → Leaves (file ++ del_record level f) levels
Leaves-del file levels level f h small clean =
    subst (Leaves (file ++ del_record level f)) (load_line_del level f levels) (
      subst (λ r. Leaves (file ++ r) (load_line (del_line level f) levels))
        (del_record_line level f small)
        (Leaves-append file (del_line level f) levels h (del_clean (to_string_digit level small))))
  where
    del_clean : to_string level ≡ (b'0' + level) ∷ [] → Without newline (del_line level f)
    del_clean e = rw e (refl, (refl, (refl, (refl, (digit_clean level small, (refl, clean))))))

Leaves-del_files :
    (level : ℕ) (fs : List Bytes) (file : Bytes) (levels : List (List Bytes))
    → Leaves file levels
    → level < 10
    → All (Without newline) fs
    → Leaves (del_files level fs file) levels
unfolding del_files
Leaves-del_files level [] file levels h small clean = h
Leaves-del_files level (f ∷ fs) file levels h small clean =
    Leaves-del_files level fs (file ++ del_record level f) levels
      (Leaves-del file levels level f h small clean.0) small clean.1

Leaves-add_files :
    (level : ℕ) (fs : List Bytes) (file : Bytes) (levels : List (List Bytes))
    → Leaves file levels
    → level < 10
    → All IsName fs
    → Leaves (add_files level fs file) (add_names level fs levels)
unfolding add_files
Leaves-add_files level [] file levels h small names = h
Leaves-add_files level (f ∷ fs) file levels h small names =
    Leaves-add_files level fs (file ++ add_record level f)
      (change_at level (λ files. files ++ f ∷ []) levels)
      (Leaves-add file levels level f h small names.0) small names.1

Leaves-calls :
    (calls : List Call) (file : Bytes) (levels : List (List Bytes))
    → Leaves file levels
    → All CallFits calls
    → Leaves (write_calls calls file) (added calls levels)
unfolding add_sstable replace
Leaves-calls [] file levels h fits = h
Leaves-calls (add_call level f ∷ calls) file levels h fits =
    Leaves-calls calls (file ++ add_record level f)
      (change_at level (λ files. files ++ f ∷ []) levels)
      (Leaves-add file levels level f h fits.0.0 fits.0.1) fits.1
Leaves-calls (replace_call level old_files new_files ∷ calls) file levels h fits =
    Leaves-calls calls (replace level old_files new_files file) (add_names level new_files levels)
      (Leaves-add_files level new_files (del_files level old_files file) levels
        (Leaves-del_files level old_files file levels h fits.0.0 fits.0.1) fits.0.0 fits.0.2)
      fits.1

-- From a file that holds what calls of `add_sstable` and `replace` wrote, `load` returns for each
-- level the files that they added, in order, however non-empty reads divide the file; what
-- `replace` takes away is there still. Levels have one digit, added names are not empty and have
-- no spaces, and names taken away have no newline.
pub load-write_calls :
    (calls : List Call) (reads : List Bytes)
    → All CallFits calls
    → All NonEmpty reads
    → joined reads ≡ write_calls calls []
    → load (some reads) ≡ added calls (replicate 7 [])
unfolding lines_of
load-write_calls calls reads fits ok e =
    load_reads reads ok
    ∙ ap (λ x. load_lines (lines_of x).0 (replicate 7 [])) e
    ∙ (Leaves-calls calls [] (replicate 7 []) (record { whole = refl; loads = refl }) fits).loads
