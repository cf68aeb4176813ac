-- ===== src/Database/Write.antt =====
-- Both `put`s and `remove`. Each holds the writer mutex to its end, so it is one step; `sync`
-- changes no bytes of the log.
use zenith_db.Prelude.{ℕ, ◌*◌, [], ◌∷◌, ◌++◌, Option, none, some, false, ltb, if◌then◌else◌, ◌>>=◌}
use zenith_db.Bytes.{Bytes}
use zenith_db.VectorClock
use zenith_db.VectorClock.{increment}
use zenith_db.Crdt
use zenith_db.Crdt.{LwwRegister}
use zenith_db.Arena.{Allocator}
use zenith_db.MemTable
use zenith_db.MemTable.{MemTable, approximate_size, new_mem_table}
use zenith_db.Wal.{append, word_put, bar}
use zenith_db.Database.{ZenithDb, memtable_limit}
use zenith_db.Database.Read.{get_crdt}

-- The record of the log.
unfoldable pub put_record : Bytes → Bytes → Bytes
put_record key serialized = word_put ++ bar ∷ (key ++ bar ∷ serialized)

module _ (env : Allocator) (rand : ℕ → ℕ) (garbage : ℕ → Option ℕ) where
  -- The end of both `put`s: a memtable that has grown past the limit is frozen.
  unfoldable pub freeze : ZenithDb → MemTable → Option ZenithDb
  freeze db mem =
      if ltb (2 * memtable_limit) (approximate_size mem)
      then (new_mem_table env garbage mem.table.draws >>= λ fresh. some (record db {
        active_mem = fresh;
        immut_head = record { mt = mem; flushed = false } ∷ db.immut_head;
      }))
      else some (record db { active_mem = mem })

  -- What both `put`s do with the register.
  unfoldable pub store : ℕ → ZenithDb → Bytes → LwwRegister → Option ZenithDb
  unfolding freeze put_record
  store fuel db key reg =
      let serialized = Crdt.serialize reg in
      MemTable.put env rand garbage fuel db.active_mem key serialized >>= λ mem.
      freeze (record db { wal = append db.wal (put_record key serialized) }) mem

  -- `put` of a value.
  unfoldable pub put : ℕ → ZenithDb → Bytes → Bytes → Option ZenithDb
  unfolding store
  put fuel db key value =
      let clock = increment db.node_id db.local_clock in
      store fuel (record db { local_clock = clock }) key (record { value = value; clock = clock })

  -- `put` of a register that another replica sent.
  unfoldable pub put_crdt : ℕ → ZenithDb → Bytes → LwwRegister → Option ZenithDb
  unfolding store get_crdt
  put_crdt fuel db key incoming_crdt =
      let local_clock = VectorClock.merge db.local_clock incoming_crdt.clock in
      get_crdt fuel db key >>= λ existing_opt.
      store fuel (record db { local_clock = local_clock }) key
        (elim existing_opt [
          | none ↦ incoming_crdt
          | some existing ↦ Crdt.merge incoming_crdt existing
        ])

  -- `remove`.
  unfoldable pub remove : ℕ → ZenithDb → Bytes → Option ZenithDb
  unfolding put
  remove fuel db key = put fuel db key []
