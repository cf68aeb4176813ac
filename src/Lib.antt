-- ===== src/Lib.antt =====
-- Verification library of ZenithDB, a replicated key-value store on a log-structured merge tree.
--
-- The program. A node (src/node.cpp) owns a database (src/db.cpp) and a transport (src/transport.h).
-- A write goes to the memtable, which is a skip list in an arena, and to the write-ahead log; full
-- memtables become table files with a Bloom filter and are merged by compaction. A value is a
-- last-writer-wins register with a vector clock, which replicas merge as messages arrive.
--
-- Which file models what:
--   * VectorClock: src/vector_clock.h. A clock is the map of its counters, OrdMap stands for
--     std::map, Bytes for std::string. `compare`, `serialize` and `deserialize` are compare_clocks,
--     serialize_clock and deserialize_clock.
--   * Crdt: the register of src/crdt.h. `deserialize` is decode, which tells the exception and the read
--     past the end apart; for its callers, deserialize makes both of them `none`.
--   * Arena: src/arena.h. Addresses are numbers. `new char[]` is a parameter, the Allocator, whose
--     laws are that a block overlaps no other, is aligned to 8 bytes and is not null.
--   * SkipList: src/skiplist.h. Nodes live in a heap from addresses to nodes; a load through a
--     pointer that is null or points at nothing is `none`. `rand` and what fresh memory holds are
--     parameters. Chain, Find, Splice, Link, Place and the like carry the proof of Insert.
--   * MemTable: src/memtable.cpp and src/memtable.h, over the skip list. Contract says what a
--     memtable stands for, Refines that its operations are those of the map.
--   * Wal: src/wal.cpp and `split` of src/utils.h. The log is replayed into any table that keeps
--     the laws of Wal.Table; Recovery makes the memtable one.
--   * MockEnv: src/mock_env.h, and in Logging the log over such a file.
--   * BlockCache: src/block_cache.h. The index of the cache is the recency list itself.
--   * Bloom: the hash and the filter of src/sstable.cpp.
--   * SsTable: the rest of src/sstable.cpp and src/sstable.h. Create is what `create` appends,
--     Open the constructor, Read `get` and `scan`; a pointer into a buffer is an offset
--     (Bytes.Slices), and a read outside of the buffer is `none`. Entries, Search, Block, Fill,
--     Finish, Blocks, FewRows and Chunks carry the proofs from an entry up to the index, File and
--     Contract those on the whole file.
--   * Database: src/db.cpp and src/db.h. Open is the constructor, Write both `put`s and `remove`
--     with the freezing of a memtable, Read `get_crdt` and `scan_crdt`, Flush and Compact a round of
--     `background_worker`. Each is one step, as writers and the worker hold the writer mutex; a
--     compaction is taken as one step too. Search, Stored, Reads, Flushed, FlushKeeps, Levels,
--     Reopened, Restart and AfterRestart are proofs.
--   * Node: src/node.cpp and src/node.h. A call returns the messages that it sends.
--   * Transport: src/transport.h. A callback is a step on the state of the program that may send.
--   * Compaction: src/compaction.cpp over the names and entries of the levels, with the merge of
--     rows in src/db.cpp; Manifest: src/manifest.cpp, with `load` in Load.
--   * Prelude holds the shared tests and lists, Bytes the order of strings and words in memory,
--     OrdMap the map. Tests holds runs, and each theorem at a concrete input.
--
-- Bounds and fuel. Words wrap as in the source, at 2^32 and 2^64. The walks over the skip list run
-- on fuel; the number of entries and 12 levels are enough, as the theorems show. The loops of the
-- log, of the readers, of the table files and of the cache take their fuel from the length of what
-- they consume.
--
-- Not modelled: the orderings of concurrent readers and writes during a compaction (each call is one
-- step), the file system of the operating system, the loop and the threads of the worker, and the
-- console.
mod Prelude
pub mod Bytes
pub mod OrdMap
pub mod VectorClock
pub mod Crdt
pub mod Database
pub mod Arena
pub mod SkipList
pub mod MemTable
pub mod Wal
pub mod SsTable
pub mod Manifest
pub mod Compaction
pub mod Transport
pub mod MockEnv
pub mod Node
pub mod Bloom
pub mod BlockCache
mod Tests
