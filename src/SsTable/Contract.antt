-- ===== src/SsTable/Contract.antt =====
-- What a table file promises: it holds the entries that `create` was given.
use zenith_db.Prelude.{
  ◌+◌, ◌*◌, ◌^◌, ◌<◌, List, [], ◌∷◌, some, ◌≡◌, refl, ap, ◌∙◌, arith, length, All, Bool-cases, inl,
  inr,
}
use zenith_db.Bytes.{Bytes, lt_bytes}
use zenith_db.Bloom.Filter.{find-bloom_of, bloom_of-total}
use zenith_db.OrdMap.{find, IsSorted}
use zenith_db.OrdMap.Window.{between}
use zenith_db.SsTable.{Rows, IndexEntry}
use zenith_db.SsTable.Create.{create_blocks, create}
use zenith_db.SsTable.Read
use zenith_db.SsTable.Read.{SsTable, get, scan, find_in_block, scan_block, is_outside}
use zenith_db.SsTable.Open.{opened, open_table, set_index}
use zenith_db.SsTable.Entries.{rows_bytes, RowFits}
use zenith_db.SsTable.Block.{length-rows_bytes}
use zenith_db.SsTable.Chunks.{Chunks}
use zenith_db.SsTable.Blocks.{ClosesAll}
use zenith_db.SsTable.File.{index_of, bare_table, bare_chunks, open_table-create}
use zenith_db.SsTable.Lookup.{get_lem, scan_lem}

-- Blocks read the file and the end of its data, which the index does not change.
Chunks-set_index :
    (t : SsTable) (index chunks : List IndexEntry) (entries : Rows)
    → Chunks t chunks entries
    → Chunks (set_index t index) chunks entries
unfolding set_index find_in_block scan_block
Chunks-set_index t [] chunks entries h = h
Chunks-set_index t (ie ∷ index) [] entries h = h
Chunks-set_index t (ie ∷ index) (je ∷ chunks) entries (c, cs) = (
  record {
    row = c.row;
    more = c.more;
    rest = c.rest;
    parts = c.parts;
    min_key_eq = c.min_key_eq;
    finds = c.finds;
    scans = c.scans;
  },
  Chunks-set_index t (ie ∷ index) chunks c.rest cs,
)

module _ (entries : Rows) (fits : All RowFits entries) (sorted : IsSorted entries)
    (small : length (rows_bytes entries) < 2 ^ 29) (file_small : length (create entries) < 2 ^ 63)
    (closes : ClosesAll (length entries) entries) where
  few : length entries * 10 + 8 < 2 ^ 64
  few = omega (arith, small, length-rows_bytes entries)

  set_chunks :
      (index : List IndexEntry)
      → Chunks (set_index (bare_table entries) index) (index_of entries) entries
  set_chunks index =
      Chunks-set_index (bare_table entries) index (index_of entries) entries
        (bare_chunks entries fits sorted small file_small closes)

get_opened :
    (entries : Rows)
    → All RowFits entries
    → IsSorted entries
    → length (rows_bytes entries) < 2 ^ 29
    → length (create entries) < 2 ^ 63
    → ClosesAll (length entries) entries
    → (key : Bytes)
    → get (set_index (bare_table entries) (index_of entries)) key ≡ some (find key entries)
unfolding get set_index create_blocks find_in_block find
get_opened [] fits sorted small file_small closes key =
    let (may, answer) = bloom_of-total [] key (omega arith) in
    elim (Bool-cases may) [
      | inl let_in ↦ rw (answer, let_in, get) refl
      | inr kept_out ↦ rw (answer, kept_out, get) refl
    ]
get_opened (kv ∷ entries) fits sorted small file_small closes key =
    let all = kv ∷ entries in
    let (may, answer) = bloom_of-total all key (few all fits sorted small file_small closes) in
    get_lem (set_index (bare_table all) (index_of all)) all _ _ refl
      (set_chunks all fits sorted small file_small closes (index_of all)) sorted key may answer
      (λ out.
        find-bloom_of all key (few all fits sorted small file_small closes) (answer ∙ ap some out))

scan_opened :
    (entries : Rows)
    → All RowFits entries
    → IsSorted entries
    → length (rows_bytes entries) < 2 ^ 29
    → length (create entries) < 2 ^ 63
    → ClosesAll (length entries) entries
    → (start end : Bytes)
    → scan (set_index (bare_table entries) (index_of entries)) start end
      ≡ some (between start end entries)
unfolding scan set_index create_blocks scan_block is_outside
scan_opened [] fits sorted small file_small closes start end =
    elim (Bool-cases (lt_bytes end start)) [
      | inl swapped ↦ rw (swapped, scan) refl
      | inr ordered ↦ rw (ordered, scan) refl
    ]
scan_opened (kv ∷ entries) fits sorted small file_small closes start end =
    let all = kv ∷ entries in
    scan_lem (set_index (bare_table all) (index_of all)) all _ _ refl
      (set_chunks all fits sorted small file_small closes (index_of all)) sorted start end refl refl

abbrev pub BeginsAt : Bytes → Rows → Type 0
BeginsAt k [] = Unit
BeginsAt k (e ∷ entries) = k ≡ e.0

-- The table that the constructor makes of a file that `create` wrote.
pub record Written (entries : Rows) : Type 0 where
  pub table : SsTable
  pub opens : open_table (create entries) ≡ opened table
  pub gets : (key : Bytes) → Read.get table key ≡ some (find key entries)
  pub scans : (start end : Bytes) → Read.scan table start end ≡ some (between start end entries)
  pub first_key : BeginsAt table.meta.min_key entries
  pub no_last_key : table.meta.max_key ≡ []

min_key_opened :
    (entries : Rows)
    → BeginsAt (set_index (bare_table entries) (index_of entries)).meta.min_key entries
unfolding set_index create_blocks
min_key_opened [] = tt
min_key_opened (e ∷ es) = refl

max_key_opened :
    (entries : Rows) → (set_index (bare_table entries) (index_of entries)).meta.max_key ≡ []
unfolding set_index create_blocks
max_key_opened [] = refl
max_key_opened (e ∷ es) = refl

pub written :
    (entries : Rows)
    → All RowFits entries
    → IsSorted entries
    → length (rows_bytes entries) < 2 ^ 29
    → length (create entries) < 2 ^ 63
    → ClosesAll (length entries) entries
    → Written entries
written entries fits sorted small file_small closes = record {
  table = set_index (bare_table entries) (index_of entries);
  opens = open_table-create entries fits sorted small file_small closes;
  gets = get_opened entries fits sorted small file_small closes;
  scans = scan_opened entries fits sorted small file_small closes;
  first_key = min_key_opened entries;
  no_last_key = max_key_opened entries;
}

-- A file that `create` writes is opened, and `get` of the table faults nowhere and returns what
-- the entries hold for the key, whether it is there or not. The entries are sorted, together take
-- less than 2^29 bytes in the file, each key and value fits a 32-bit length, the file is below
-- 2^63 bytes, and no block but the last ends behind a multiple of 16 entries.
pub get-open_table :
    (entries : Rows)
    → All RowFits entries
    → IsSorted entries
    → length (rows_bytes entries) < 2 ^ 29
    → length (create entries) < 2 ^ 63
    → ClosesAll (length entries) entries
    → (key : Bytes)
    → (t : SsTable) × (open_table (create entries) ≡ opened t)
      × (get t key ≡ some (find key entries))
get-open_table entries fits sorted small file_small closes key =
    let w = written entries fits sorted small file_small closes in (w.table, w.opens, w.gets key)

-- A file that `create` writes is opened, and `scan` of the table faults nowhere and returns the
-- entries from `start` to `end`, both included, in order. The entries are sorted, together take
-- less than 2^29 bytes in the file, each key and value fits a 32-bit length, the file is below
-- 2^63 bytes, and no block but the last ends behind a multiple of 16 entries.
pub scan-open_table :
    (entries : Rows)
    → All RowFits entries
    → IsSorted entries
    → length (rows_bytes entries) < 2 ^ 29
    → length (create entries) < 2 ^ 63
    → ClosesAll (length entries) entries
    → (start end : Bytes)
    → (t : SsTable) × (open_table (create entries) ≡ opened t)
      × (scan t start end ≡ some (between start end entries))
scan-open_table entries fits sorted small file_small closes start end =
    let w = written entries fits sorted small file_small closes in
    (w.table, w.opens, w.scans start end)
