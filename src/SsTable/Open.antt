-- ===== src/SsTable/Open.antt =====
-- The constructor of a table, with `parse_footer_and_index`.
use zenith_db.Prelude.{
  ℕ, zero, suc, ◌+◌, ◌-◌, ◌^◌, ◌%◌, List, [], ◌∷◌, Option, none, some, ◌==◌, ltb, length,
  if◌then◌else◌, ◌>>=◌,
}
use zenith_db.Bytes.{Bytes}
use zenith_db.Bytes.Slices.{slice, word_at}
use zenith_db.MockEnv.{read_at}
use zenith_db.SsTable.{Rows, IndexEntry, magic, footer_size}
use zenith_db.SsTable.Read.{Meta, SsTable, scan}

-- The loop that loads the index, from the pointer on.
unfoldable pub read_index : ℕ → ℕ → Bytes → Option (List IndexEntry)
unfolding slice word_at
read_index zero p buffer = some []
read_index (suc n) p buffer = do
  key_len ← word_at 4 p buffer
  min_key ← slice (p + 4) key_len buffer
  off ← word_at 8 (p + 4 + key_len) buffer
  more ← read_index n (p + 4 + key_len + 8) buffer
  some (record { min_key = min_key; offset = off } ∷ more)

-- What the constructor ends in: a table, one of its two errors, or a read outside of a buffer.
pub data Opened : Type 0 where
  opened : SsTable → Opened
  too_small : Opened
  bad_magic : Opened
  faulted : Opened

abbrev pub or_fault : Option SsTable → Opened
or_fault none = faulted
or_fault (some t) = opened t

-- The filter, which the file holds between two offsets.
unfoldable pub load_bloom : Bytes → ℕ → ℕ → Option Bytes
load_bloom file bloom_offset index_offset =
    if ltb bloom_offset index_offset
    then slice 0 (index_offset - bloom_offset)
        (read_at bloom_offset (index_offset - bloom_offset) file)
    else some []

-- The keys at the ends of all rows.
abbrev pub last_key : Bytes × Bytes → Rows → Bytes
last_key e [] = e.0
last_key e (d ∷ rows) = last_key d rows

unfoldable pub meta_of_rows : Meta → Rows → Meta
meta_of_rows meta [] = meta
meta_of_rows meta (e ∷ rows) = record meta {
  min_key = e.0;
  max_key = last_key e rows;
  entry_count = length (e ∷ rows);
}

-- The index that was loaded, with the first key.
unfoldable pub set_index : SsTable → List IndexEntry → SsTable
set_index t [] = t
set_index t (ie ∷ index) = record t {
  index = ie ∷ index;
  meta = record t.meta { min_key = ie.min_key; entry_count = 1 };
}

-- The part of `parse_footer_and_index` behind the filter.
unfoldable pub load_index : SsTable → Option SsTable
unfolding read_index scan meta_of_rows set_index
load_index t =
    let footer_at = t.meta.file_size - footer_size in
    if t.index_offset == footer_at
    then (scan t [] (255 ∷ 255 ∷ []) >>= λ all. some (record t { meta = meta_of_rows t.meta all }))
    else (let index_data =
          read_at t.index_offset ((footer_at + 2 ^ 64 - t.index_offset) % 2 ^ 64) t.file in
        word_at 4 0 index_data >>= λ block_count.
        read_index block_count 4 index_data >>= λ index. some (set_index t index))

-- `parse_footer_and_index`, by the four words of the footer.
unfoldable pub load_parts : Bytes → ℕ → ℕ → ℕ → Option SsTable
unfolding load_bloom load_index
load_parts file data_end bloom_offset index_offset =
    load_bloom file bloom_offset index_offset >>= λ bloom. load_index (record {
      file = file;
      meta = record { min_key = []; max_key = []; file_size = length file; entry_count = 0 };
      data_end = data_end;
      bloom_offset = bloom_offset;
      index_offset = index_offset;
      index = [];
      bloom_filter = bloom;
    })

-- The constructor.
unfoldable pub open_table : Bytes → Opened
unfolding load_parts word_at slice
open_table file =
    if ltb (length file) footer_size
    then too_small
    else (let footer = read_at (length file - footer_size) footer_size file in
        elim (word_at 8 24 footer) [
          | none ↦ faulted
          | some m ↦
              if m == magic
              then or_fault (
                  word_at 8 0 footer >>= λ data_end. word_at 8 8 footer >>= λ bloom_offset.
                  word_at 8 16 footer >>= λ index_offset.
                  load_parts file data_end bloom_offset index_offset)
              else bad_magic
        ])
