-- ===== src/SsTable.antt =====
-- The table file: src/sstable.cpp and src/sstable.h. A file is its bytes. Create holds the writer,
-- Read the reader; the other children hold their proofs.
pub mod Create
pub mod Read
pub mod Open
pub mod Entries
pub mod Search
pub mod Block
pub mod Fill
pub mod Finish
pub mod Chunks
pub mod Blocks
pub mod FewRows
pub mod Index
pub mod Lookup
pub mod File
pub mod Contract
pub mod Opening
use zenith_db.Prelude.{ℕ, List}
use zenith_db.Bytes.{Bytes}

abbrev pub Rows : Type 0
Rows = List (Bytes × Bytes)

abbrev pub block_target_bytes : ℕ
block_target_bytes = 4096

abbrev pub restart_interval : ℕ
restart_interval = 16

abbrev pub magic : ℕ
magic = 0xDB55CA1E

abbrev pub footer_size : ℕ
footer_size = 32

-- A block's first key, and where the block begins.
pub record IndexEntry : Type 0 where
  pub min_key : Bytes
  pub offset : ℕ
