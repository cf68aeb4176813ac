-- ===== src/Database/Reads.antt =====
-- What readers see after a write.
use zenith_db.Prelude.{
  ℕ, suc, ◌+◌, ◌^◌, ◌<◌, ◌≤◌, [], Option, none, some, true, ◌≡◌, refl, ◌∙◌, arith, length,
  Bool-cases, inl, inr, if◌then◌else◌,
}
use zenith_db.Bytes.{Bytes, eq_bytes, cmp_refl}
use zenith_db.OrdMap.{OrdMap}
use zenith_db.VectorClock
use zenith_db.VectorClock.{increment, serialize_clock}
use zenith_db.VectorClock.Codec.{Fits}
use zenith_db.Crdt
use zenith_db.Crdt.{LwwRegister}
use zenith_db.Crdt.Codec.{deserialize-serialize}
use zenith_db.Arena.{Allocator}
use zenith_db.MemTable.Contract.{Models}
use zenith_db.Database.{ZenithDb}
use zenith_db.Database.Read.{find_raw, readable, read_register, get_crdt}
use zenith_db.Database.Write.{put, put_crdt, remove}
use zenith_db.Database.Stored.{Stored, store_lem}

-- A register whose clock fits the format.
abbrev pub ClockFits : LwwRegister → Type 0
ClockFits reg = Fits reg.clock × (length (serialize_clock reg.clock) + 4 < 2 ^ 32)

-- The register of a local write.
abbrev pub local_register : ZenithDb → Bytes → LwwRegister
local_register db value = record { value = value; clock = increment db.node_id db.local_clock }

-- The winner of an incoming register.
abbrev pub winner : LwwRegister → Option LwwRegister → LwwRegister
winner incoming none = incoming
winner incoming (some existing) = Crdt.merge incoming existing

-- A reader of the stored register.
Stored-reads :
    (fuel : ℕ) (db : ZenithDb) (clock : VectorClock.VectorClock) (key : Bytes) (reg : LwwRegister)
    (size : ℕ) (result : Option ZenithDb)
    → ClockFits reg
    → (s : Stored fuel (record db { local_clock = clock }) key (Crdt.serialize reg) size result)
    → (q : Bytes)
    → get_crdt fuel s.after q ≡ (if eq_bytes q key then some (readable reg) else get_crdt fuel db q)
unfolding get_crdt find_raw read_register
Stored-reads fuel db clock key reg size result fits s q =
    let finds = s.finds q in
    elim (Bool-cases (eq_bytes q key)) [
      | inl same ↦
          let found : find_raw fuel s.after q ≡ some (some (Crdt.serialize reg)) =
            finds ∙ rw same refl in
          rw (same, found, deserialize-serialize reg fits.0 fits.1) refl
      | inr other ↦
          let found : find_raw fuel s.after q ≡ find_raw fuel db q = finds ∙ rw other refl in
          rw (other, found) refl
    ]

module _ (env : Allocator) (rand : ℕ → ℕ) (garbage : ℕ → Option ℕ) where
  -- Of a database whose active memtable stands for a map, with fuel for its entries, one more and
  -- 12 levels, `put` returns, and then a reader of any key gets the new register under the key,
  -- or nothing if its value is empty, and under every other key what it got before, whether or
  -- not the memtable was frozen. The clock of the new register fits the format.
  pub put_lem :
      (fuel : ℕ) (db : ZenithDb) (map : OrdMap Bytes)
      → Models db.active_mem map
      → length map + 13 ≤ fuel
      → (key value : Bytes) → ClockFits (local_register db value)
      → (q : Bytes)
      → (after : ZenithDb) × (put env rand garbage fuel db key value ≡ some after)
        × (get_crdt fuel after q ≡ (
            if eq_bytes q key
            then some (readable (local_register db value))
            else get_crdt fuel db q))
  unfolding put
  put_lem fuel db map h enough key value fits q =
      let reg = local_register db value in
      let s =
        store_lem env rand garbage fuel (record db { local_clock = reg.clock }) map h enough key
          reg in
      (s.after, s.returns, Stored-reads fuel db reg.clock key reg _ _ fits s q)

  put_crdt-Stored :
      (fuel : ℕ) (db : ZenithDb) (map : OrdMap Bytes)
      → Models db.active_mem map
      → length map + 13 ≤ fuel
      → (key : Bytes) (incoming : LwwRegister) (existing : Option LwwRegister)
      → get_crdt fuel db key ≡ some existing
      → Stored fuel
          (record db { local_clock = VectorClock.merge db.local_clock incoming.clock })
          key
          (Crdt.serialize (winner incoming existing))
          (suc (length map))
          (put_crdt env rand garbage fuel db key incoming)
  unfolding put_crdt
  put_crdt-Stored fuel db map h enough key incoming none found = rw found (
      store_lem env rand garbage fuel
        (record db { local_clock = VectorClock.merge db.local_clock incoming.clock }) map h enough
        key incoming)
  put_crdt-Stored fuel db map h enough key incoming (some existing) found = rw found (
      store_lem env rand garbage fuel
        (record db { local_clock = VectorClock.merge db.local_clock incoming.clock }) map h enough
        key (Crdt.merge incoming existing))

  -- Of a database whose active memtable stands for a map, with fuel for its entries, one more and
  -- 12 levels, where a reader of the key gets a register or nothing, `put` of an incoming
  -- register returns, and then a reader of any key gets the merge of both, or the incoming one
  -- where there was none, under the key, unless its value is empty, and under every other key
  -- what it got before. The clock of the winner fits the format.
  pub put_crdt_lem :
      (fuel : ℕ) (db : ZenithDb) (map : OrdMap Bytes)
      → Models db.active_mem map
      → length map + 13 ≤ fuel
      → (key : Bytes) (incoming : LwwRegister) (existing : Option LwwRegister)
      → get_crdt fuel db key ≡ some existing
      → ClockFits (winner incoming existing)
      → (q : Bytes)
      → (after : ZenithDb) × (put_crdt env rand garbage fuel db key incoming ≡ some after)
        × (get_crdt fuel after q ≡ (
            if eq_bytes q key
            then some (readable (winner incoming existing))
            else get_crdt fuel db q))
  put_crdt_lem fuel db map h enough key incoming existing found fits q =
      let s = put_crdt-Stored fuel db map h enough key incoming existing found in
      (s.after, s.returns, Stored-reads fuel db _ key (winner incoming existing) _ _ fits s q)

  -- After a key was removed, a reader gets nothing, and an incoming register for the key takes
  -- effect as it is, whatever its clock, even one older than the removal. The active memtable
  -- stands for a map, with fuel for its entries, two more and 12 levels, and the clocks of the
  -- tombstone and of the incoming register fit the format.
  pub put_crdt-remove :
      (fuel : ℕ) (db : ZenithDb) (map : OrdMap Bytes)
      → Models db.active_mem map
      → length map + 14 ≤ fuel
      → (key : Bytes) (incoming : LwwRegister) → ClockFits (local_register db [])
      → ClockFits incoming
      → (removed : ZenithDb) × (after : ZenithDb) × (remove env rand garbage fuel db key
          ≡ some removed)
        × (get_crdt fuel removed key ≡ some none)
        × (put_crdt env rand garbage fuel removed key incoming ≡ some after)
        × (get_crdt fuel after key ≡ some (readable incoming))
  unfolding remove put
  put_crdt-remove fuel db map h enough key incoming tomb fits =
      let reg = local_register db [] in
      let own : eq_bytes key key ≡ true = ground (arith, cmp_refl key) in
      let s =
        store_lem env rand garbage fuel (record db { local_clock = reg.clock }) map h (omega arith)
          key reg in
      let gone : get_crdt fuel s.after key ≡ some none =
        Stored-reads fuel db reg.clock key reg _ _ tomb s key ∙ rw own refl in
      let t =
        put_crdt-Stored fuel s.after s.map s.models (omega (arith, s.small)) key incoming none
          gone in
      (
        s.after,
        t.after,
        s.returns,
        gone,
        t.returns,
        Stored-reads fuel s.after _ key incoming _ _ fits t key ∙ rw own refl,
      )
