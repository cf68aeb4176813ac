-- ===== src/SsTable/Blocks.antt =====
-- The blocks that `create` writes hold the entries in turn.
use zenith_db.Prelude.{
  ℕ, zero, suc, ◌+◌, ◌-◌, ◌^◌, ◌%◌, ◌<◌, ◌≤◌, min, List, [], ◌∷◌, ◌++◌, some, false, ◌≡◌, refl, sym,
  ap, ◌∙◌, arith, length, length-append, append_assoc, append-nil, All, leb, le→ltb, take-append,
}
use mathlib.Core.Path.{subst}
use zenith_db.Bytes.{Bytes}
use zenith_db.Bytes.Words.{le_bytes, length-le_bytes}
use zenith_db.Bytes.Slices.{word_at, At, At-append, At-step, At-eq, At-word}
use zenith_db.MockEnv.{read_at}
use zenith_db.OrdMap.{find, IsSorted}
use zenith_db.OrdMap.Window.{between}
use zenith_db.SsTable.{Rows, IndexEntry}
use zenith_db.SsTable.Create.{Filled, finish_block, new_block, create_blocks}
use zenith_db.SsTable.Read.{SsTable, find_in_block, scan_block}
use zenith_db.SsTable.Entries.{rows_bytes, rows_bytes-append, RowFits}
use zenith_db.SsTable.Block.{
  find_block_lem, scan_block_lem, All-front, All-behind, IsSorted-front, IsSorted-behind,
  length-rows_bytes,
}
use zenith_db.SsTable.Fill.{ClosesWell, FilledWith, new_block_lem}
use zenith_db.SsTable.Finish.{
  body, length-body, finish_block_parts, length-finish_block, finish_block-IsBlock,
}
use zenith_db.SsTable.Chunks.{Chunks}

-- A read of bytes that a file holds.
pub At-read_at :
    (file x rest : Bytes) (p n : ℕ)
    → At file p (x ++ rest)
    → n ≡ length x
    → 0 < n
    → read_at p n file ≡ x
unfolding read_at
At-read_at file x rest p n h e pos =
    let total = length-append x rest in
    let inside : leb (length file) p ≡ false = ground (arith, h.size, total, e, pos) in
    let size : min n (length file - p) ≡ n = omega (arith, h.size, total, e) in
    rw (inside, size, h.behind, take-append n x rest (sym e)) refl

-- A block that closes well, in a file.
module _ (t : SsTable) (all : Rows) (f : Filled) (h : FilledWith all f) (offset : ℕ) (rest : Bytes)
    (closes : ClosesWell f) (fits : All RowFits h.taken) (sorted : IsSorted h.taken)
    (small : length (rows_bytes h.taken) < 2 ^ 29) (at : At t.file offset (finish_block f ++ rest))
    (inside : offset + length (finish_block f) ≤ t.data_end) (end_small : t.data_end < 2 ^ 63) where
  content : Bytes
  content = body f h.taken h.buffer

  size_lt : 8 + length content < 2 ^ 32
  unfolding content
  size_lt = omega (arith, length-body f h.taken h.buffer, h.few, length-rows_bytes h.taken, small)

  size_eq : 8 + length content ≡ length (finish_block f)
  unfolding content
  size_eq = sym (length-finish_block f h.taken h.buffer)

  header : Bytes
  header = le_bytes 4 f.num_entries ++ le_bytes 4 (8 + length content)

  length-header : 8 ≡ length header
  unfolding header
  length-header = omega (
    arith,
    length-append (le_bytes 4 f.num_entries) (le_bytes 4 (8 + length content)),
    length-le_bytes 4 f.num_entries,
    length-le_bytes 4 (8 + length content),
  )

  read_header : read_at offset 8 t.file ≡ header
  unfolding header content
  read_header =
      At-read_at t.file header (content ++ rest) offset 8
        (At-eq t.file _ _ offset at (
          ap (λ x. x ++ rest)
            (finish_block_parts f h.taken h.buffer
              ∙ sym (
                  append_assoc (le_bytes 4 f.num_entries) (le_bytes 4 (8 + length content))
                    content))
          ∙ append_assoc header content rest))
        length-header (omega arith)

  read_size : word_at 4 4 header ≡ some (length (finish_block f))
  unfolding header
  read_size =
      At-word 4 (8 + length content) header [] 4
        (At-eq header _ _ 4
          (At-append (le_bytes 4 f.num_entries) (le_bytes 4 (8 + length content)) 4
            (sym (length-le_bytes 4 f.num_entries)))
          (sym (append-nil (le_bytes 4 (8 + length content)))))
        size_lt
      ∙ ap some size_eq

  read_block : read_at offset (length (finish_block f)) t.file ≡ finish_block f
  read_block =
      At-read_at t.file (finish_block f) rest offset (length (finish_block f)) at refl
        (omega (arith, size_eq))

  -- `find_in_block` finds what the entries of the block hold.
  find_in_block_lem : (key : Bytes) → find_in_block t offset key ≡ some (find key h.taken)
  unfolding find_in_block
  find_in_block_lem key =
      rw
        (
          le→ltb t.data_end ((offset + 8) % 2 ^ 64) (omega (arith, size_eq, inside, end_small)),
          read_header,
          read_size,
          le→ltb t.data_end ((offset + length (finish_block f)) % 2 ^ 64)
              (omega (arith, inside, end_small)),
          read_block,
        )
        (find_block_lem (finish_block f) h.taken f.restarts
          (finish_block-IsBlock all f h closes fits sorted small) key)

  -- `scan_block` returns the entries of the block in the range.
  scan_in_block_lem :
      (start end : Bytes) → scan_block t offset start end ≡ some (between start end h.taken)
  unfolding scan_block
  scan_in_block_lem start end =
      rw
        (
          le→ltb t.data_end ((offset + 8) % 2 ^ 64) (omega (arith, size_eq, inside, end_small)),
          read_header,
          read_size,
          read_block,
        )
        (scan_block_lem (finish_block f) h.taken f.restarts
          (finish_block-IsBlock all f h closes fits sorted small) start end)

-- No block but the last ends behind a multiple of 16 entries.
abbrev pub ClosesAll : ℕ → Rows → Type 0
ClosesAll zero entries = Unit
ClosesAll (suc fuel) [] = Unit
ClosesAll (suc fuel) (kv ∷ entries) =
    ClosesWell (new_block (kv ∷ entries)) × ClosesAll fuel (new_block (kv ∷ entries)).rest

-- A block in front of others.
chunk :
    (t : SsTable) (kv : Bytes × Bytes) (entries : Rows) (offset : ℕ) (index : List IndexEntry)
    (taken rest : Rows)
    → kv ∷ entries ≡ taken ++ rest
    → 0 < length taken
    → ((key : Bytes) → find_in_block t offset key ≡ some (find key taken))
    → ((start end : Bytes) → scan_block t offset start end ≡ some (between start end taken))
    → Chunks t index rest
    → Chunks t (record { min_key = kv.0; offset = offset } ∷ index) (kv ∷ entries)
chunk t kv entries offset index [] rest parts some_taken finds scans more = absurd (omega arith)
chunk t kv entries offset index (row ∷ taken) rest parts some_taken finds scans more = (
  record {
    row = row;
    more = taken;
    rest = rest;
    parts = parts;
    min_key_eq = cc parts;
    finds = finds;
    scans = scans;
  },
  more,
)

pub create_blocks-Chunks :
    (t : SsTable) (tail : Bytes) (fuel : ℕ) (entries : Rows) (offset : ℕ)
    → t.data_end < 2 ^ 63
    → length entries ≤ fuel
    → At t.file offset ((create_blocks fuel entries offset).0 ++ tail)
    → offset + length (create_blocks fuel entries offset).0 ≤ t.data_end
    → All RowFits entries
    → IsSorted entries
    → length (rows_bytes entries) < 2 ^ 29
    → ClosesAll fuel entries
    → Chunks t (create_blocks fuel entries offset).1 entries
unfolding create_blocks
create_blocks-Chunks t tail zero [] offset end_small enough at inside fits sorted small closes =
    refl
create_blocks-Chunks t tail zero (kv ∷ entries) offset end_small enough at inside fits sorted small
      closes =
    absurd (omega arith)
create_blocks-Chunks t tail (suc fuel) [] offset end_small enough at inside fits sorted small
      closes =
    refl
create_blocks-Chunks t tail (suc fuel) (kv ∷ entries) offset end_small enough at inside fits sorted
      small closes =
    let count = length-rows_bytes (kv ∷ entries) in
    let f = new_block (kv ∷ entries) in
    let h = new_block_lem kv entries (omega (arith, count, small)) (omega (arith, small)) in
    let offset' = (offset + length (finish_block f)) % 2 ^ 64 in
    let more = create_blocks fuel f.rest offset' in
    let size = length-append (finish_block f) more.0 in
    let next : offset' ≡ offset + length (finish_block f) =
      omega (arith, size, inside, end_small) in
    let at' = At-eq t.file _ _ offset at (append_assoc (finish_block f) more.0 tail) in
    let bytes =
      ap length (ap rows_bytes h.parts ∙ rows_bytes-append h.taken f.rest)
      ∙ length-append (rows_bytes h.taken) (rows_bytes f.rest) in
    let fits' = subst (All RowFits) h.parts fits in
    let sorted' = subst IsSorted h.parts sorted in
    let taken_small : length (rows_bytes h.taken) < 2 ^ 29 = omega (arith, bytes, small) in
    let fits_taken = All-front RowFits h.taken f.rest fits' in
    let sorted_taken = IsSorted-front h.taken f.rest sorted' in
    let block_inside : offset + length (finish_block f) ≤ t.data_end =
      omega (arith, size, inside) in
    chunk t kv entries offset more.1 h.taken f.rest h.parts h.some_taken
      (find_in_block_lem t (kv ∷ entries) f h offset (more.0 ++ tail) closes.0 fits_taken
        sorted_taken taken_small at' block_inside end_small)
      (scan_in_block_lem t (kv ∷ entries) f h offset (more.0 ++ tail) closes.0 fits_taken
        sorted_taken taken_small at' block_inside end_small)
      (create_blocks-Chunks t tail fuel f.rest offset' end_small
        (omega (arith, ap length h.parts, length-append h.taken f.rest, h.some_taken))
        (At-step t.file (finish_block f) (more.0 ++ tail) offset offset' at' next)
        (omega (arith, size, next, inside)) (All-behind RowFits h.taken f.rest fits')
        (IsSorted-behind h.taken f.rest sorted') (omega (arith, bytes, small)) closes.1)
