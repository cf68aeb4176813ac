-- ===== src/Manifest/Lines.antt =====
-- `load` takes the lines of the file in turn.
use zenith_db.Prelude.{
  ℕ, zero, suc, ◌+◌, ◌<◌, List, [], ◌∷◌, ◌++◌, some, ◌≡◌, refl, sym, ap, ◌∙◌, arith, length,
  length-append, append_assoc, append-nil, All, replicate, inl, inr,
}
use zenith_db.Bytes.{Bytes}
use zenith_db.Wal.{newline}
use zenith_db.Wal.Lines.{
  lines_of, cut_cases, lines_of_clean, lines_of_line, lines_of-append, in_front, partial_clean,
  Without,
}
use zenith_db.Wal.Replay.{NonEmpty, joined}
use zenith_db.Manifest.Load.{load_line, drain, load_loop, load}

abbrev pub load_lines : List Bytes → List (List Bytes) → List (List Bytes)
load_lines [] levels = levels
load_lines (l ∷ ls) levels = load_lines ls (load_line l levels)

pub load_lines-append :
    (ls ms : List Bytes) (levels : List (List Bytes))
    → load_lines (ls ++ ms) levels ≡ load_lines ms (load_lines ls levels)
load_lines-append [] ms levels = refl
load_lines-append (l ∷ ls) ms levels = load_lines-append ls ms (load_line l levels)

drain_lem :
    (fuel : ℕ) (text : Bytes) (levels : List (List Bytes))
    → length text < fuel
    → drain fuel text levels ≡ (load_lines (lines_of text).0 levels, (lines_of text).1)
unfolding drain
drain_lem zero text levels q = absurd (omega arith)
drain_lem (suc fuel) text levels q = elim (cut_cases newline text) [
  | inl (absent, clean) ↦ rw (absent, lines_of_clean text clean, drain) refl
  | inr c ↦
      let shape : lines_of text ≡ (c.item ∷ (lines_of c.rest).0, (lines_of c.rest).1) =
        ap lines_of c.text_eq ∙ lines_of_line c.item c.rest c.clean in
      let size : length text ≡ length c.item + suc (length c.rest) =
        ap length c.text_eq ∙ length-append c.item (newline ∷ c.rest) in
      rw (c.returns, shape, drain) (drain_lem fuel c.rest (load_line c.item levels) (omega arith))
]

load_loop_lem :
    (reads : List Bytes) (leftover : Bytes) (levels : List (List Bytes))
    → All NonEmpty reads
    → Without newline leftover
    → load_loop reads leftover levels ≡ load_lines (lines_of (leftover ++ joined reads)).0 levels
unfolding load_loop
load_loop_lem [] leftover levels ok clean =
    rw (append-nil leftover) (rw (lines_of_clean leftover clean) refl)
load_loop_lem ([] ∷ reads) leftover levels ok clean = absurd (omega (arith, ok.0))
load_loop_lem ((b ∷ bs) ∷ reads) leftover levels ok clean =
    let text = leftover ++ (b ∷ bs) in
    let shape : lines_of (leftover ++ (b ∷ bs ++ joined reads))
        ≡ in_front (lines_of text).0 (lines_of ((lines_of text).1 ++ joined reads)) =
      ap lines_of (sym (append_assoc leftover (b ∷ bs) (joined reads)))
      ∙ lines_of-append text (joined reads) in
    rw (drain_lem (suc (length text)) text levels (omega arith)) (
      load_loop_lem reads (lines_of text).1 (load_lines (lines_of text).0 levels) ok.1
        (partial_clean text)
      ∙ sym (
          load_lines-append (lines_of text).0 (lines_of ((lines_of text).1 ++ joined reads)).0
            levels)
      ∙ ap (λ (r : List Bytes × Bytes). load_lines r.0 levels) (sym shape))

-- However non-empty reads divide the file, `load` takes its whole lines in turn.
pub load_reads :
    (reads : List Bytes)
    → All NonEmpty reads
    → load (some reads) ≡ load_lines (lines_of (joined reads)).0 (replicate 7 [])
unfolding load
load_reads reads ok = load_loop_lem reads [] (replicate 7 []) ok tt
