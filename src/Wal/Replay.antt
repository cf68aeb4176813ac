-- ===== src/Wal/Replay.antt =====
-- Replaying a log: the whole lines take effect in their order, whatever reads the file gives.
use zenith_db.Prelude.{
  ℕ, zero, suc, ◌+◌, ◌≤◌, ◌<◌, List, [], ◌∷◌, ◌++◌, Option, some, ◌≡◌, refl, sym, ap, ◌∙◌,
  if◌then◌else◌, arith, length, length-append, All, append_assoc, append-nil, inl, inr, Bool-cases,
  ◌>>=◌,
}
use zenith_db.Bytes.{Bytes, eq_bytes}
use zenith_db.OrdMap
use zenith_db.OrdMap.Laws.{length-insert}
use zenith_db.OrdMap.{OrdMap}
use zenith_db.Wal.{
  newline, bar, word_put, word_del, split, apply_parts, apply_line, drain, replay_loop, replay,
}
use zenith_db.Wal.Table.{TableOps, TableLaws, Yields}
use zenith_db.Wal.Lines.{
  lines_of, Without, cut_cases, in_front, lines_of_clean, lines_of_line, lines_of-append,
  partial_clean,
}

-- What a line does to the map: three parts of which the first is PUT, or two of which it is DEL.
abbrev pub parts_effect : List Bytes → OrdMap Bytes → OrdMap Bytes
parts_effect (verb ∷ key ∷ value ∷ []) map =
    if eq_bytes verb word_put then OrdMap.insert key value map else map
parts_effect (verb ∷ key ∷ []) map =
    if eq_bytes verb word_del then OrdMap.insert key [] map else map
parts_effect _ map = map

abbrev pub line_effect : Bytes → OrdMap Bytes → OrdMap Bytes
line_effect [] map = map
line_effect (c ∷ cs) map = parts_effect (split (c ∷ cs) bar) map

abbrev pub lines_effect : List Bytes → OrdMap Bytes → OrdMap Bytes
lines_effect [] map = map
lines_effect (l ∷ ls) map = lines_effect ls (line_effect l map)

abbrev pub joined : List Bytes → Bytes
joined [] = []
joined (b ∷ bs) = b ++ joined bs

abbrev pub NonEmpty : Bytes → Type 0
NonEmpty b = 0 < length b

lines_effect-append :
    (ls ms : List Bytes) (map : OrdMap Bytes)
    → lines_effect (ls ++ ms) map ≡ lines_effect ms (lines_effect ls map)
lines_effect-append [] ms map = refl
lines_effect-append (l ∷ ls) ms map = lines_effect-append ls ms (line_effect l map)

length-parts_effect :
    (parts : List Bytes) (map : OrdMap Bytes) → length (parts_effect parts map) ≤ suc (length map)
length-parts_effect [] map = omega arith
length-parts_effect (a ∷ []) map = omega arith
length-parts_effect (a ∷ b ∷ []) map = ground (arith, length-insert b [] map)
length-parts_effect (a ∷ b ∷ c ∷ []) map = ground (arith, length-insert b c map)
length-parts_effect (a ∷ b ∷ c ∷ d ∷ ds) map = omega arith

length-line_effect :
    (line : Bytes) (map : OrdMap Bytes) → length (line_effect line map) ≤ suc (length map)
length-line_effect [] map = omega arith
length-line_effect (c ∷ cs) map = length-parts_effect (split (c ∷ cs) bar) map

length-lines_effect :
    (lines : List Bytes) (map : OrdMap Bytes)
    → length (lines_effect lines map) ≤ length map + length lines
length-lines_effect [] map = omega arith
length-lines_effect (l ∷ ls) map =
    omega (arith, length-line_effect l map, length-lines_effect ls (line_effect l map))

module _ {T : Type 0} (ops : TableOps T) (laws : TableLaws ops) where
  apply_parts_lem :
      (parts : List Bytes) (t : T) (map : OrdMap Bytes)
      → laws.Models t map
      → length map ≤ laws.limit
      → Yields laws.Models (apply_parts ops parts t) (parts_effect parts map)
  unfolding apply_parts
  apply_parts_lem [] t map h q = record { after = t; returns = refl; models = h }
  apply_parts_lem (a ∷ []) t map h q = record { after = t; returns = refl; models = h }
  apply_parts_lem (a ∷ b ∷ []) t map h q = elim (Bool-cases (eq_bytes a word_del)) [
    | inl e ↦ rw e (laws.remove_lem t map b h q)
    | inr e ↦ rw e (record { after = t; returns = refl; models = h })
  ]
  apply_parts_lem (a ∷ b ∷ c ∷ []) t map h q = elim (Bool-cases (eq_bytes a word_put)) [
    | inl e ↦ rw e (laws.put_lem t map b c h q)
    | inr e ↦ rw e (record { after = t; returns = refl; models = h })
  ]
  apply_parts_lem (a ∷ b ∷ c ∷ d ∷ ds) t map h q = record { after = t; returns = refl; models = h }

  apply_line_lem :
      (line : Bytes) (t : T) (map : OrdMap Bytes)
      → laws.Models t map
      → length map ≤ laws.limit
      → Yields laws.Models (apply_line ops line t) (line_effect line map)
  unfolding apply_line
  apply_line_lem [] t map h q = record { after = t; returns = refl; models = h }
  apply_line_lem (c ∷ cs) t map h q = apply_parts_lem (split (c ∷ cs) bar) t map h q

  record Drained (text : Bytes) (map : OrdMap Bytes) (result : Option (T × Bytes)) : Type 0 where
    after : T
    returns : result ≡ some (after, (lines_of text).1)
    models : laws.Models after (lines_effect (lines_of text).0 map)

  drain_lem :
      (fuel : ℕ) (text : Bytes) (t : T) (map : OrdMap Bytes)
      → length text < fuel
      → laws.Models t map
      → length map + length (lines_of text).0 ≤ laws.limit
      → Drained text map (drain ops fuel text t)
  unfolding drain
  drain_lem zero text t map fit h q = absurd (omega arith)
  drain_lem (suc fuel) text t map fit h q = elim (cut_cases newline text) [
    | inl (absent, clean) ↦ record {
      after = t;
      returns = unfold drain in rw (absent, lines_of_clean text clean, drain) refl;
      models = rw (lines_of_clean text clean) h;
    }
    | inr c ↦
        let shape : lines_of text ≡ (c.item ∷ (lines_of c.rest).0, (lines_of c.rest).1) =
          ap lines_of c.text_eq ∙ lines_of_line c.item c.rest c.clean in
        let count : length (lines_of text).0 ≡ suc (length (lines_of c.rest).0) =
          ap (λ (r : List Bytes × Bytes). length r.0) shape in
        let size : length text ≡ length c.item + suc (length c.rest) =
          ap length c.text_eq ∙ length-append c.item (newline ∷ c.rest) in
        let first = apply_line_lem c.item t map h (omega arith) in
        let rest =
          drain_lem fuel c.rest first.after (line_effect c.item map) (omega arith) first.models
            (omega (arith, length-line_effect c.item map)) in
        record {
          after = rest.after;
          returns = rw (c.returns, first.returns, shape, drain) rest.returns;
          models = rw shape rest.models;
        }
  ]

  replay_loop_lem :
      (reads : List Bytes) (leftover : Bytes) (t : T) (map : OrdMap Bytes)
      → All NonEmpty reads
      → Without newline leftover
      → laws.Models t map
      → length map + length (lines_of (leftover ++ joined reads)).0 ≤ laws.limit
      → Yields laws.Models
          (replay_loop ops reads leftover t)
          (lines_effect (lines_of (leftover ++ joined reads)).0 map)
  unfolding replay_loop
  replay_loop_lem [] leftover t map ok clean h q =
      rw (append-nil leftover)
        (rw (lines_of_clean leftover clean) (record { after = t; returns = refl; models = h }))
  replay_loop_lem ([] ∷ reads) leftover t map ok clean h q = absurd (omega (arith, ok.0))
  replay_loop_lem ((b ∷ bs) ∷ reads) leftover t map ok clean h q =
      let text = leftover ++ (b ∷ bs) in
      let shape : lines_of (leftover ++ (b ∷ bs ++ joined reads))
          ≡ in_front (lines_of text).0 (lines_of ((lines_of text).1 ++ joined reads)) =
        ap lines_of (sym (append_assoc leftover (b ∷ bs) (joined reads)))
        ∙ lines_of-append text (joined reads) in
      let count =
        length-append (lines_of text).0 (lines_of ((lines_of text).1 ++ joined reads)).0 in
      let total = ap (λ (r : List Bytes × Bytes). length r.0) shape in
      let first = drain_lem (suc (length text)) text t map (omega arith) h (omega arith) in
      let mid = lines_effect (lines_of text).0 map in
      let rest =
        replay_loop_lem reads (lines_of text).1 first.after mid ok.1 (partial_clean text)
          first.models (omega (arith, length-lines_effect (lines_of text).0 map)) in
      record {
        after = rest.after;
        returns =
            ap (λ (r : Option (T × Bytes)). r >>= λ p. replay_loop ops reads p.1 p.0) first.returns
            ∙ rest.returns;
        models =
            rw
              (
                shape,
                lines_effect-append (lines_of text).0
                    (lines_of ((lines_of text).1 ++ joined reads)).0 map,
              )
              rest.models;
      }

  -- Replaying non-empty reads of a log faults nowhere, and leaves the table that stands for the
  -- map after the whole lines of all reads together; a line cut off at the end has no effect. The
  -- table keeps the laws of a sorted map up to a limit that leaves room for an entry per line.
  pub replay_lines :
      (reads : List Bytes) (t : T) (map : OrdMap Bytes)
      → All NonEmpty reads
      → laws.Models t map
      → length map + length (lines_of (joined reads)).0 ≤ laws.limit
      → Yields laws.Models
          (replay ops (some reads) t)
          (lines_effect (lines_of (joined reads)).0 map)
  unfolding replay
  replay_lines reads t map ok h q = replay_loop_lem reads [] t map ok tt h q
