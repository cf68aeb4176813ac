-- ===== src/SsTable/File.antt =====
-- A file that `create` writes is opened.
use zenith_db.Prelude.{
  ℕ, zero, suc, ◌+◌, ◌-◌, ◌*◌, ◌^◌, ◌%◌, ◌<◌, ◌≤◌, List, [], ◌∷◌, ◌++◌, some, false, ◌≡◌, refl, sym,
  ap, arith, length, length-append, append-nil, All, le→ltb, lt→ltb, ◌==◌,
}
use mathlib.Core.Path.{subst}
use zenith_db.Bytes.{Bytes}
use zenith_db.Bytes.Words.{le_bytes, length-le_bytes}
use zenith_db.Bytes.Slices.{word_at, At, At-append, At-step, At-eq, At-slice, At-word}
use zenith_db.Bloom.{bloom_of}
use zenith_db.Bloom.Filter.{length-bloom_of}
use zenith_db.MockEnv.{read_at}
use zenith_db.OrdMap.{IsSorted}
use zenith_db.SsTable.{Rows, IndexEntry, footer_size}
use zenith_db.SsTable.Create.{
  new_block, finish_block, create_blocks, index_entries_bytes, index_bytes, footer_bytes, create,
}
use zenith_db.SsTable.Read.{SsTable}
use zenith_db.SsTable.Open.{
  opened, open_table, load_parts, load_bloom, load_index, set_index, read_index,
}
use zenith_db.SsTable.Entries.{rows_bytes, RowFits}
use zenith_db.SsTable.Block.{length-rows_bytes, All-behind}
use zenith_db.SsTable.Chunks.{Chunks}
use zenith_db.SsTable.Blocks.{ClosesAll, create_blocks-Chunks, At-read_at}
use zenith_db.SsTable.Index.{IndexFits, Footer, read_index_lem, footer_bytes_lem}

abbrev pub blocks_of : Rows → Bytes
blocks_of entries = (create_blocks (length entries) entries 0).0

abbrev pub index_of : Rows → List IndexEntry
index_of entries = (create_blocks (length entries) entries 0).1

-- The table in front of the index.
abbrev pub bare_table : Rows → SsTable
bare_table entries = record {
  file = create entries;
  meta = record {
    min_key = [];
    max_key = [];
    file_size = length (create entries);
    entry_count = 0;
  };
  data_end = length (blocks_of entries);
  bloom_offset = length (blocks_of entries);
  index_offset = (length (blocks_of entries) + length (bloom_of entries)) % 2 ^ 64;
  index = [];
  bloom_filter = bloom_of entries;
}

create_blocks-offset :
    (fuel : ℕ) (entries : Rows) (offset : ℕ)
    → offset < 2 ^ 64
    → All (λ (ie : IndexEntry). ie.offset < 2 ^ 64) (create_blocks fuel entries offset).1
unfolding create_blocks
create_blocks-offset zero entries offset h = tt
create_blocks-offset (suc fuel) [] offset h = tt
create_blocks-offset (suc fuel) (kv ∷ entries) offset h =
    let f = new_block (kv ∷ entries) in
    (
      h,
      create_blocks-offset fuel f.rest ((offset + length (finish_block f)) % 2 ^ 64) (omega arith),
    )

-- Each block begins with an entry.
Chunks-keys :
    (t : SsTable) (index : List IndexEntry) (entries : Rows)
    → Chunks t index entries
    → All RowFits entries
    → All (λ (ie : IndexEntry). ie.offset < 2 ^ 64) index
    → All IndexFits index × (length index ≤ length entries)
Chunks-keys t [] entries chunks fits offsets = (tt, omega arith)
Chunks-keys t (ie ∷ index) entries (c, cs) fits offsets =
    let fits' = subst (All RowFits) c.parts fits in
    let more = Chunks-keys t index c.rest cs (All-behind RowFits c.more c.rest fits'.1) offsets.1 in
    (
      ((omega (arith, ap length c.min_key_eq, fits'.0.0), offsets.0), more.0),
      omega (arith, ap length c.parts, length-append c.more c.rest, more.1),
    )

module _ (entries : Rows) (fits : All RowFits entries) (sorted : IsSorted entries)
    (small : length (rows_bytes entries) < 2 ^ 29) (file_small : length (create entries) < 2 ^ 63)
    (closes : ClosesAll (length entries) entries) where
  abbrev bloom : Bytes
  bloom = bloom_of entries

  abbrev blocks_size : ℕ
  blocks_size = length (blocks_of entries)

  abbrev index_offset : ℕ
  index_offset = (blocks_size + length (bloom_of entries)) % 2 ^ 64

  abbrev footer : Bytes
  footer = footer_bytes blocks_size blocks_size index_offset

  abbrev index_part : Bytes
  index_part = index_bytes (index_of entries)

  -- The parts of the file.
  record Layout : Type 0 where
    at_blocks : At (create entries) 0 (blocks_of entries ++ (bloom ++ (index_part ++ footer)))
    at_bloom : At (create entries) blocks_size (bloom ++ (index_part ++ footer))
    at_index : At (create entries) index_offset (index_part ++ footer)
    at_footer : At (create entries) (length (create entries) - footer_size) (footer ++ [])
    some_bloom : 0 < length bloom
    footer_is : Footer footer blocks_size blocks_size index_offset
    bloom_end : index_offset ≡ blocks_size + length bloom
    total : length (create entries) ≡ blocks_size + (length bloom + (length index_part + 32))
    index_size : length index_part ≡ 4 + length (index_entries_bytes (index_of entries))

  layout : Layout
  unfolding create index_bytes
  layout =
      let few : length entries * 10 + 8 < 2 ^ 64 =
        omega (arith, small, length-rows_bytes entries) in
      let rest = index_part ++ footer in
      let at_blocks = At-append [] (create entries) 0 refl in
      let at_bloom = At-append (blocks_of entries) (bloom ++ rest) blocks_size refl in
      let size1 = at_bloom.size in
      let size2 = length-append bloom rest in
      let bloom_end : index_offset ≡ blocks_size + length bloom =
        omega (arith, file_small, size1, size2) in
      let at_index =
        At-step (create entries) bloom rest blocks_size index_offset at_bloom bloom_end in
      let footer_is =
        footer_bytes_lem blocks_size blocks_size index_offset (omega (arith, file_small, size1))
          (omega (arith, file_small, size1)) (omega arith) in
      let size3 = length-append index_part footer in
      let at_footer =
        At-step (create entries) index_part footer index_offset
          (length (create entries) - footer_size) at_index
          (omega (arith, at_index.size, size3, footer_is.size)) in
      record {
        at_blocks = at_blocks;
        at_bloom = at_bloom;
        at_index = at_index;
        at_footer = At-eq (create entries) _ _ _ at_footer (sym (append-nil footer));
        some_bloom = (length-bloom_of entries few).0;
        footer_is = footer_is;
        bloom_end = bloom_end;
        total = omega (arith, size1, size2, size3, footer_is.size);
        index_size = omega (
          arith,
          length-append (le_bytes 4 (length (index_of entries)))
              (index_entries_bytes (index_of entries)),
          length-le_bytes 4 (length (index_of entries)),
        );
      }

  read_footer :
      read_at (length (create entries) - footer_size) footer_size (create entries) ≡ footer
  read_footer =
      At-read_at (create entries) footer [] (length (create entries) - footer_size) footer_size
        layout.at_footer (sym layout.footer_is.size) (omega arith)

  load_bloom_lem : load_bloom (create entries) blocks_size index_offset ≡ some bloom
  unfolding load_bloom
  load_bloom_lem =
      let e : index_offset - blocks_size ≡ length bloom = omega (arith, layout.bloom_end) in
      rw
        (
          lt→ltb blocks_size index_offset (omega (arith, layout.bloom_end, layout.some_bloom)),
          e,
          At-read_at (create entries) bloom (index_part ++ footer) blocks_size (length bloom)
              layout.at_bloom refl layout.some_bloom,
        )
        (At-slice bloom bloom [] 0 (length bloom)
          (At-eq bloom bloom (bloom ++ []) 0 (At-append [] bloom 0 refl) (sym (append-nil bloom)))
          refl)

  pub bare_chunks : Chunks (bare_table entries) (index_of entries) entries
  bare_chunks =
      create_blocks-Chunks (bare_table entries) (bloom ++ (index_part ++ footer)) (length entries)
        entries 0 (omega (arith, layout.total, file_small)) (omega arith) layout.at_blocks
        (omega arith) fits sorted small closes

  read_index_part :
      (word_at 4 0 index_part ≡ some (length (index_of entries)))
      × (read_index (length (index_of entries)) 4 index_part ≡ some (index_of entries))
  unfolding index_bytes
  read_index_part =
      let index = index_of entries in
      let (index_fits, few) =
        Chunks-keys (bare_table entries) index entries bare_chunks fits
          (create_blocks-offset (length entries) entries 0 (omega arith)) in
      let at = At-append [] index_part 0 refl in
      let at4 =
        At-step index_part (le_bytes 4 (length index)) (index_entries_bytes index) 0 4 at
          (omega (arith, length-le_bytes 4 (length index))) in
      (
        At-word 4 (length index) index_part (index_entries_bytes index) 0 at
            (omega (arith, few, small, length-rows_bytes entries)),
        read_index_lem index 4 index_part []
            (At-eq index_part _ _ 4 at4 (sym (append-nil (index_entries_bytes index)))) index_fits,
      )

  load_index_lem :
      load_index (bare_table entries) ≡ some (set_index (bare_table entries) (index_of entries))
  unfolding load_index
  load_index_lem =
      let n = length (create entries) - footer_size in
      let apart : (index_offset == n) ≡ false =
        ground (arith, layout.total, layout.bloom_end, layout.index_size) in
      let count : (n + 2 ^ 64 - index_offset) % 2 ^ 64 ≡ length index_part =
        omega (arith, layout.total, layout.bloom_end, file_small) in
      rw
        (
          apart,
          count,
          At-read_at (create entries) index_part footer index_offset (length index_part)
              layout.at_index refl (omega (arith, layout.index_size)),
          read_index_part.0,
          read_index_part.1,
        )
        refl

  pub open_table-create :
      open_table (create entries) ≡ opened (set_index (bare_table entries) (index_of entries))
  unfolding open_table load_parts
  open_table-create =
      rw
        (
          le→ltb (length (create entries)) footer_size (omega (arith, layout.total)),
          read_footer,
          layout.footer_is.magic_word,
          read_footer,
          layout.footer_is.end_word,
          layout.footer_is.bloom_word,
          layout.footer_is.index_word,
          load_bloom_lem,
          load_index_lem,
        )
        refl
