-- ===== src/SsTable/FewRows.antt =====
-- Files of few rows, of which no block is closed behind its 16th.
use zenith_db.Prelude.{
  ℕ, zero, suc, ◌+◌, ◌^◌, ◌<◌, ◌≤◌, [], ◌∷◌, ◌≡◌, refl, ap, ◌∙◌, inl, inr, arith, length,
  length-append,
}
use zenith_db.SsTable.{Rows}
use zenith_db.SsTable.Create.{Filled, new_block}
use zenith_db.SsTable.Entries.{rows_bytes, rows_bytes-append}
use zenith_db.SsTable.Fill.{ClosesWell, FilledWith, new_block_lem}
use zenith_db.SsTable.Blocks.{ClosesAll}

few_rows-ClosesWell : (all : Rows) (f : Filled) → FilledWith all f → length all ≤ 16 → ClosesWell f
few_rows-ClosesWell all f h few = go f.rest refl
  where
    go : (rest : Rows) → f.rest ≡ rest → ClosesWell f
    go [] e = inl e
    go (kv ∷ rest) e = inr (
        omega (
          arith,
          ap length h.parts,
          length-append h.taken f.rest,
          ap length e,
          h.count,
          h.some_taken,
          few,
        ))

-- Sixteen entries at most meet the condition on the ends of blocks.
pub few_rows-ClosesAll :
    (fuel : ℕ) (entries : Rows)
    → length entries ≤ 16
    → length (rows_bytes entries) + 8 < 2 ^ 32
    → ClosesAll fuel entries
few_rows-ClosesAll zero entries few small = tt
few_rows-ClosesAll (suc fuel) [] few small = tt
few_rows-ClosesAll (suc fuel) (kv ∷ entries) few small =
    let f = new_block (kv ∷ entries) in
    let h = new_block_lem kv entries (omega arith) small in
    let count = length-append h.taken f.rest in
    let bytes = length-append (rows_bytes h.taken) (rows_bytes f.rest) in
    (
      few_rows-ClosesWell (kv ∷ entries) f h few,
      few_rows-ClosesAll fuel f.rest (omega (arith, ap length h.parts, count, few)) (
          omega (
            arith,
            ap length (ap rows_bytes h.parts ∙ rows_bytes-append h.taken f.rest),
            bytes,
            small,
          )),
    )
