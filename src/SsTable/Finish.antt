-- ===== src/SsTable/Finish.antt =====
-- The block that `create` makes of the entries in the buffer.
use zenith_db.Prelude.{
  ◌+◌, ◌*◌, ◌^◌, ◌<◌, ◌++◌, ◌≡◌, sym, ap, ◌∙◌, arith, length, length-append, append_assoc, All,
  replicate, drop,
}
use mathlib.Core.Path.{subst}
use zenith_db.Bytes.{Bytes}
use zenith_db.Bytes.Words.{le_bytes, length-le_bytes}
use zenith_db.Bytes.Slices.{At, At-append}
use zenith_db.OrdMap.{IsSorted}
use zenith_db.SsTable.{Rows}
use zenith_db.SsTable.Create.{Filled, words_bytes, finish_block}
use zenith_db.SsTable.Entries.{rows_bytes, RowFits}
use zenith_db.SsTable.Search.{length-words_bytes}
use zenith_db.SsTable.Block.{IsBlock, length-rows_bytes}
use zenith_db.SsTable.Fill.{ClosesWell, FilledWith}

module _ (f : Filled) (taken : Rows) (buffer : f.data_buf ≡ replicate 8 0 ++ rows_bytes taken) where
  -- The bytes behind the header.
  pub body : Bytes
  body = rows_bytes taken ++ (words_bytes f.restarts ++ le_bytes 4 (length f.restarts))

  unfinished :
      f.data_buf ++ (words_bytes f.restarts ++ le_bytes 4 (length f.restarts))
      ≡ replicate 8 0 ++ body
  unfolding body
  unfinished =
      ap (λ x. x ++ (words_bytes f.restarts ++ le_bytes 4 (length f.restarts))) buffer
      ∙ append_assoc (replicate 8 0) (rows_bytes taken)
          (words_bytes f.restarts ++ le_bytes 4 (length f.restarts))

  pub length-body : length body ≡ length (rows_bytes taken) + 4 * length f.restarts + 4
  unfolding body
  length-body = omega (
    arith,
    length-append (rows_bytes taken) (words_bytes f.restarts ++ le_bytes 4 (length f.restarts)),
    length-append (words_bytes f.restarts) (le_bytes 4 (length f.restarts)),
    length-words_bytes f.restarts,
    length-le_bytes 4 (length f.restarts),
  )

  -- The header in front of them.
  pub finish_block_parts :
      finish_block f ≡ le_bytes 4 f.num_entries ++ (le_bytes 4 (8 + length body) ++ body)
  unfolding finish_block
  finish_block_parts =
      ap (λ x. le_bytes 4 f.num_entries ++ (le_bytes 4 (length x) ++ drop 8 x)) unfinished
      ∙ ap (λ n. le_bytes 4 f.num_entries ++ (le_bytes 4 n ++ body))
          (length-append (replicate 8 0) body)

  pub length-finish_block : length (finish_block f) ≡ 8 + length body
  length-finish_block =
      ap length finish_block_parts
      ∙ omega (
        arith,
        length-append (le_bytes 4 f.num_entries) (le_bytes 4 (8 + length body) ++ body),
        length-append (le_bytes 4 (8 + length body)) body,
        length-le_bytes 4 f.num_entries,
        length-le_bytes 4 (8 + length body),
      )

  pub at_body : At (finish_block f) 8 body
  at_body =
      subst (λ x. At x 8 body)
        (append_assoc (le_bytes 4 f.num_entries) (le_bytes 4 (8 + length body)) body
          ∙ sym finish_block_parts)
        (At-append (le_bytes 4 f.num_entries ++ le_bytes 4 (8 + length body)) body 8 (
          omega (
            arith,
            length-append (le_bytes 4 f.num_entries) (le_bytes 4 (8 + length body)),
            length-le_bytes 4 f.num_entries,
            length-le_bytes 4 (8 + length body),
          )))

-- A block that closes well is searched right.
pub finish_block-IsBlock :
    (all : Rows) (f : Filled) (h : FilledWith all f)
    → ClosesWell f
    → All RowFits h.taken
    → IsSorted h.taken
    → length (rows_bytes h.taken) < 2 ^ 29
    → IsBlock (finish_block f) h.taken f.restarts
unfolding body
finish_block-IsBlock all f h closes fits sorted small = record {
  at = at_body f h.taken h.buffer;
  fits = fits;
  sorted = sorted;
  first = h.first;
  some_restart = h.some_restart;
  points = h.points closes;
  few = omega (arith, h.few, length-rows_bytes h.taken, small);
  small = omega (arith, small);
}
