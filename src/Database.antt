-- ===== src/Database.antt =====
-- The database: src/db.cpp and src/db.h. The object is its state between two holds of the writer
-- mutex; a reader sees such a state.
pub mod Read
pub mod Write
pub mod Flush
pub mod Flushed
pub mod FlushKeeps
pub mod Search
pub mod Open
pub mod Levels
pub mod Reopened
pub mod Restart
pub mod AfterRestart
pub mod Compact
pub mod Stored
pub mod Reads
use zenith_db.Prelude.{ℕ, ◌*◌, List, Bool}
use zenith_db.Bytes.{Bytes}
use zenith_db.VectorClock.{VectorClock}
use zenith_db.MemTable.{MemTable}
use zenith_db.MockEnv.{Files}
use zenith_db.Compaction.{FileEntry}
use zenith_db.SsTable.Read.{SsTable}

abbrev pub memtable_limit : ℕ
memtable_limit = 50 * 1024

-- A frozen memtable, and whether a table file holds its entries. `next` is the list.
pub record ImmNode : Type 0 where
  pub mt : MemTable
  pub flushed : Bool

-- `tables` are the objects that the entries of the layout point at, each by its number; the log
-- and the manifest are the bytes of their files, and `named` counts the calls of `new_filename`.
pub record ZenithDb : Type 0 where
  pub node_id : Bytes
  pub local_clock : VectorClock
  pub active_mem : MemTable
  pub immut_head : List ImmNode
  pub layout : List (List FileEntry)
  pub tables : List SsTable
  pub levels_meta : List (List Bytes)
  pub manifest : Bytes
  pub wal : Bytes
  pub files : Files
  pub named : ℕ
