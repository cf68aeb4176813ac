-- ===== src/Database/Stored.antt =====
-- What the search finds after a register was stored.
use zenith_db.Prelude.{
  ℕ, suc, ◌+◌, ◌*◌, ◌≤◌, [], ◌∷◌, Option, none, some, false, ◌≡◌, refl, sym, ◌∙◌, arith, length,
  Bool-cases, inl, inr, ltb, if◌then◌else◌, ◌>>=◌,
}
use zenith_db.Bytes.{Bytes, eq_bytes}
use zenith_db.Bytes.Words.{le_bytes}
use zenith_db.OrdMap
use zenith_db.OrdMap.{OrdMap, find}
use zenith_db.OrdMap.Laws.{find-insert, length-insert}
use zenith_db.Crdt
use zenith_db.Crdt.{LwwRegister}
use zenith_db.Arena.{Allocator}
use zenith_db.MemTable.{MemTable, approximate_size}
use zenith_db.MemTable.Contract.{Models}
use zenith_db.MemTable.Refines.{new_mem_table-Leaves, put-Leaves}
use zenith_db.Database.{ZenithDb, memtable_limit}
use zenith_db.Database.Read.{not_empty, or_else, search_frozen, search_levels, find_raw}
use zenith_db.Wal.{append}
use zenith_db.Database.Write.{put_record, freeze, store}
use zenith_db.Database.Search.{search_mem_lem}

-- The search behind the active memtable.
abbrev pub behind_active : ℕ → ZenithDb → Bytes → Option (Option Bytes)
behind_active fuel db q = search_frozen fuel q db.immut_head >>= λ in_frozen.
    or_else in_frozen (search_levels db.tables q db.layout)

pub or_else_assoc :
    (x : Option Bytes) (a b : Option (Option Bytes))
    → (or_else x a >>= λ f. or_else f b) ≡ or_else x (a >>= λ f. or_else f b)
or_else_assoc none a b = refl
or_else_assoc (some v) a b = refl

pub find_raw_lem :
    (fuel : ℕ) (db : ZenithDb) (map : OrdMap Bytes)
    → Models db.active_mem map
    → length map + 12 ≤ fuel
    → (q : Bytes) → find_raw fuel db q ≡ or_else (not_empty (find q map)) (behind_active fuel db q)
unfolding find_raw
find_raw_lem fuel db map h enough q = rw (search_mem_lem db.active_mem map h fuel enough q) refl

some_bytes : (reg : LwwRegister) → not_empty (some (Crdt.serialize reg)) ≡ some (Crdt.serialize reg)
unfolding not_empty Crdt.serialize le_bytes
some_bytes reg = refl

-- A write into the active memtable hides what stood under the key, and nothing else.
insert_finds :
    (fuel : ℕ) (db : ZenithDb) (map : OrdMap Bytes)
    → Models db.active_mem map
    → length map + 12 ≤ fuel
    → (key raw : Bytes) → not_empty (some raw) ≡ some raw
    → (q : Bytes)
    → or_else (not_empty (find q (OrdMap.insert key raw map))) (behind_active fuel db q)
      ≡ (if eq_bytes q key then some (some raw) else find_raw fuel db q)
insert_finds fuel db map h enough key raw whole q =
    rw (find-insert q key raw map) (elim (Bool-cases (eq_bytes q key)) [
      | inl same ↦ rw (same, whole) refl
      | inr other ↦ rw other (sym (find_raw_lem fuel db map h enough q))
    ])

-- A memtable that was just frozen is searched as it was when it was active.
frozen_lem :
    (fuel : ℕ) (db : ZenithDb) (mem : MemTable) (map : OrdMap Bytes)
    → Models mem map
    → length map + 12 ≤ fuel
    → (q : Bytes)
    → (search_frozen fuel q (record { mt = mem; flushed = false } ∷ db.immut_head) >>= λ in_frozen.
        or_else in_frozen (search_levels db.tables q db.layout))
      ≡ or_else (not_empty (find q map)) (behind_active fuel db q)
unfolding search_frozen
frozen_lem fuel db mem map h enough q = rw (search_mem_lem mem map h fuel enough q) (
    or_else_assoc (not_empty (find q map)) (search_frozen fuel q db.immut_head)
      (search_levels db.tables q db.layout))

-- A database that finds the bytes under the key, and everything else as before.
pub record Stored (fuel : ℕ) (db : ZenithDb) (key raw : Bytes) (size : ℕ) (result : Option ZenithDb)
    : Type 0 where
  pub after : ZenithDb
  pub returns : result ≡ some after
  pub map : OrdMap Bytes
  pub models : Models after.active_mem map
  pub small : length map ≤ size
  pub finds :
      (q : Bytes)
      → find_raw fuel after q ≡ (if eq_bytes q key then some (some raw) else find_raw fuel db q)

module _ (env : Allocator) (rand : ℕ → ℕ) (garbage : ℕ → Option ℕ) where
  freeze_lem :
      (fuel : ℕ) (db old : ZenithDb) (mem : MemTable) (map : OrdMap Bytes) (key raw : Bytes)
      → Models mem map
      → length map + 12 ≤ fuel
      → ((q : Bytes)
          → or_else (not_empty (find q map)) (behind_active fuel db q)
            ≡ (if eq_bytes q key then some (some raw) else find_raw fuel old q))
      → Stored fuel old key raw (length map) (freeze env rand garbage db mem)
  unfolding freeze not_empty find
  freeze_lem fuel db old mem map key raw h enough finds =
      elim (Bool-cases (ltb (2 * memtable_limit) (approximate_size mem))) [
        | inr stays ↦ rw stays (record {
          after = record db { active_mem = mem };
          returns = refl;
          map = map;
          models = h;
          small = omega arith;
          finds = λ q. find_raw_lem fuel (record db { active_mem = mem }) map h enough q ∙ finds q;
        })
        | inl frozen ↦
            let fresh = new_mem_table-Leaves env rand garbage mem.table.draws in
            let db' = record db {
              active_mem = fresh.after;
              immut_head = record { mt = mem; flushed = false } ∷ db.immut_head;
            } in
            rw (frozen, fresh.returns)
              (record {
                after = db';
                returns = refl;
                map = [];
                models = fresh.models;
                small = omega arith;
                finds = λ q.
                    find_raw_lem fuel db' [] fresh.models (omega arith) q
                    ∙ frozen_lem fuel db mem map h enough q
                    ∙ finds q;
              })
      ]

  pub store_lem :
      (fuel : ℕ) (db : ZenithDb) (map : OrdMap Bytes)
      → Models db.active_mem map
      → length map + 13 ≤ fuel
      → (key : Bytes) (reg : LwwRegister)
      → Stored fuel db key
          (Crdt.serialize reg)
          (suc (length map))
          (store env rand garbage fuel db key reg)
  unfolding store
  store_lem fuel db map h enough key reg =
      let raw = Crdt.serialize reg in
      let w = put-Leaves env rand garbage db.active_mem map h fuel (omega arith) key raw in
      let size = length-insert key raw map in
      let s =
        freeze_lem fuel (record db { wal = append db.wal (put_record key raw) }) db w.after
          (OrdMap.insert key raw map) key raw w.models (omega (arith, size, enough))
          (insert_finds fuel db map h (omega arith) key raw (some_bytes reg)) in
      rw w.returns (record {
        after = s.after;
        returns = s.returns;
        map = s.map;
        models = s.models;
        small = omega (arith, s.small, size);
        finds = s.finds;
      })
