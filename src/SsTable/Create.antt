-- ===== src/SsTable/Create.antt =====
-- `SSTable::create`: what it appends to the new file.
use zenith_db.Prelude.{
  ℕ, zero, suc, ◌+◌, ◌*◌, ◌^◌, ◌%◌, List, [], ◌∷◌, ◌++◌, Bool, ◌&&◌, ◌==◌, ltb, length, drop,
  replicate, if◌then◌else◌,
}
use zenith_db.Bytes.{Bytes}
use zenith_db.Bytes.Words.{le_bytes}
use zenith_db.Bloom.{bloom_of}
use zenith_db.SsTable.{Rows, IndexEntry, block_target_bytes, restart_interval, magic}

-- A key and its value, each behind its length.
unfoldable pub entry_bytes : Bytes × Bytes → Bytes
entry_bytes kv = le_bytes 4 (length kv.0) ++ (kv.0 ++ (le_bytes 4 (length kv.1) ++ kv.1))

-- The state of the inner loop where it ends, with the entries that are left.
pub record Filled : Type 0 where
  pub data_buf : Bytes
  pub restarts : List ℕ
  pub num_entries : ℕ
  pub rest : Rows

-- A restart in front of each 16th entry.
unfoldable pub push_restart : List ℕ → ℕ → Bytes → List ℕ
push_restart restarts num_entries data_buf =
    if ltb 0 num_entries && (num_entries % restart_interval == 0)
    then restarts ++ (length data_buf % 2 ^ 32) ∷ []
    else restarts

-- Whether the block is closed in front of the entry.
unfoldable pub is_full : List ℕ → ℕ → Bytes → Bytes × Bytes → Bool
is_full restarts num_entries data_buf kv =
    ltb 0 num_entries
    && ltb block_target_bytes
        (length data_buf + 8 + length kv.0 % 2 ^ 32 + length kv.1 % 2 ^ 32 + length restarts * 4)

-- The inner loop.
unfoldable pub fill_block : Rows → Bytes → List ℕ → ℕ → Filled
unfolding entry_bytes push_restart is_full
fill_block [] data_buf restarts num_entries = record {
  data_buf = data_buf;
  restarts = restarts;
  num_entries = num_entries;
  rest = [];
}
fill_block (kv ∷ entries) data_buf restarts num_entries =
    let restarts' = push_restart restarts num_entries data_buf in
    let more =
      fill_block entries (data_buf ++ entry_bytes kv) restarts' ((num_entries + 1) % 2 ^ 32) in
    if is_full restarts' num_entries data_buf kv
    then record {
      data_buf = data_buf;
      restarts = restarts';
      num_entries = num_entries;
      rest = kv ∷ entries;
    }
    else more

unfoldable pub words_bytes : List ℕ → Bytes
words_bytes [] = []
words_bytes (w ∷ ws) = le_bytes 4 w ++ words_bytes ws

-- The restarts and their number behind the entries, and the header over the first 8 bytes.
unfoldable pub finish_block : Filled → Bytes
unfolding words_bytes
finish_block f =
    let block = f.data_buf ++ (words_bytes f.restarts ++ le_bytes 4 (length f.restarts)) in
    le_bytes 4 f.num_entries ++ (le_bytes 4 (length block) ++ drop 8 block)

-- A new block with the first entries.
unfoldable pub new_block : Rows → Filled
unfolding fill_block
new_block entries = fill_block entries (replicate 8 0) (8 ∷ []) 0

-- The outer loop: each block takes an entry at least, so the fuel is the number of entries.
unfoldable pub create_blocks : ℕ → Rows → ℕ → Bytes × List IndexEntry
unfolding new_block finish_block
create_blocks zero entries current_offset = ([], [])
create_blocks (suc fuel) [] current_offset = ([], [])
create_blocks (suc fuel) (kv ∷ entries) current_offset =
    let f = new_block (kv ∷ entries) in
    let block = finish_block f in
    let more = create_blocks fuel f.rest ((current_offset + length block) % 2 ^ 64) in
    (block ++ more.0, record { min_key = kv.0; offset = current_offset } ∷ more.1)

unfoldable pub index_entries_bytes : List IndexEntry → Bytes
index_entries_bytes [] = []
index_entries_bytes (ie ∷ index) =
    le_bytes 4 (length ie.min_key)
    ++ (ie.min_key ++ (le_bytes 8 ie.offset ++ index_entries_bytes index))

unfoldable pub index_bytes : List IndexEntry → Bytes
unfolding index_entries_bytes
index_bytes index = le_bytes 4 (length index) ++ index_entries_bytes index

unfoldable pub footer_bytes : ℕ → ℕ → ℕ → Bytes
footer_bytes data_end bloom_offset index_offset =
    le_bytes 8 data_end
    ++ (le_bytes 8 bloom_offset ++ (le_bytes 8 index_offset ++ le_bytes 8 magic))

-- The bytes of the file.
unfoldable pub create : Rows → Bytes
unfolding create_blocks index_bytes footer_bytes
create entries =
    let (blocks, index) = create_blocks (length entries) entries 0 in
    let bloom_str = bloom_of entries in
    let bloom_offset = length blocks in
    let index_offset = (bloom_offset + length bloom_str) % 2 ^ 64 in
    blocks
    ++ (bloom_str ++ (index_bytes index ++ footer_bytes (length blocks) bloom_offset index_offset))
