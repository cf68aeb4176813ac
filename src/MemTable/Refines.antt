-- ===== src/MemTable/Refines.antt =====
-- The operations of a memtable are those of the map that it stands for.
use zenith_db.Prelude.{
  ℕ, suc, ◌+◌, ◌≤◌, List, [], ◌∷◌, Option, some, false, ◌≡◌, refl, ap, sym, ◌∙◌, ◌⊎◌, arith, All,
  All-map, length, ◌>>=◌, Bool-cases, inl, inr,
}
use mathlib.Core.Path.{subst}
use zenith_db.Bytes.{Bytes, lt_bytes, cmp_refl, cmp_swap, Before-trans}
use zenith_db.OrdMap
use zenith_db.OrdMap.{OrdMap, find}
use zenith_db.OrdMap.Laws.{All-insert}
use zenith_db.Arena.{Allocator, new_arena}
use zenith_db.Arena.Safety.{new_arena-IsSound}
use zenith_db.SkipList.{insert}
use zenith_db.SkipList.Chain.{Entry}
use zenith_db.SkipList.Find.{next_of_lem}
use zenith_db.SkipList.View.{view, view-IsSorted}
use zenith_db.SkipList.Invariant.{head_entry, get_lem, find_lem}
use zenith_db.SkipList.Insert.{insert_lem}
use zenith_db.SkipList.New.{new_skip_list-IsChain}
use zenith_db.MemTable.{
  MemTable, update_range, get, scan, sorted_entries, new_mem_table, put, remove,
}
use zenith_db.MemTable.Contract.{InRange, Models, Leaves}
use zenith_db.OrdMap.Window.{between, upto-from, between_empty}
use zenith_db.MemTable.Scan.{entries_loop_lem, scan_from_bound}

pub length-view : (order : List Entry) → length (view order) ≡ length order
length-view [] = refl
length-view (e ∷ order) = ap suc (length-view order)

module _ (m : MemTable) (map : OrdMap Bytes) (h : Models m map) (fuel : ℕ)
    (enough : length map + 12 ≤ fuel) where
  -- The map has an entry for each node.
  enough_order : length h.order + 12 ≤ fuel
  enough_order = omega (arith, length-view h.order, ap length h.view_eq)

  -- Of a memtable that stands for a sorted map, with fuel for its entries and 12 levels, `get`
  -- faults nowhere and returns what the map holds for the key.
  pub get-find : (key : Bytes) → get fuel m key ≡ some (find key map)
  unfolding get
  get-find key =
      get_lem m.table h.order h.valid.chain fuel key enough_order
      ∙ ap (λ (x : OrdMap Bytes). some (find key x)) h.view_eq

  -- Of a memtable that stands for a sorted map, with fuel for its entries and 12 levels,
  -- `sorted_entries` faults nowhere and returns all entries of the map, in order.
  pub sorted_entries_lem : sorted_entries fuel m ≡ some map
  unfolding sorted_entries
  sorted_entries_lem =
      let c = h.valid.chain in
      rw
        (
          next_of_lem m.table.heap (head_entry m.table) h.order 0 c.linked.0 (omega arith),
          entries_loop_lem m.table.heap fuel h.order c.linked.1 c.has_link
              (omega (arith, enough_order)),
        )
        (ap some h.view_eq)

  -- Of a memtable that stands for a sorted map, with fuel for its entries and 12 levels, `scan`
  -- faults nowhere and returns the entries of the map from `start` to `end`, both included, in
  -- order.
  pub scan_lem : (start end : Bytes) → scan fuel m start end ≡ some (between start end map)
  unfolding scan
  scan_lem start end = elim (Bool-cases (lt_bytes end start)) [
    | inl empty ↦ rw empty (ap some (sym (between_empty start end map (ground arith))))
    | inr ordered ↦
        let c = h.valid.chain in
        let f = find_lem m.table h.order c fuel start enough_order in
        let all =
          scan_from_bound m.table.heap fuel start end h.order c.linked.1 c.has_link
            (omega (arith, enough_order)) in
        rw (ordered, f.returns, all)
          (ap some (
            upto-from start end (view h.order) (view-IsSorted h.order c.ascends)
            ∙ ap (between start end) h.view_eq))
  ]

-- The range covers the new key and all that it covered.
update_range-InRange :
    (m : MemTable) (key k : Bytes) → (InRange m k) ⊎ (k ≡ key) → InRange (update_range m key) k
unfolding update_range
update_range-InRange m key k (inr e) =
    subst (λ x. InRange (update_range m key) x) (sym e)
      (ground (arith, cmp_refl key, cmp_swap key m.min_key, cmp_swap key m.max_key))
update_range-InRange m key k (inl h) =
    ground (arith, Before-trans k key m.min_key, Before-trans m.max_key key k)

table-update_range : (m : MemTable) (key : Bytes) → (update_range m key).table ≡ m.table
unfolding update_range
table-update_range m key = ground arith

-- The range after a write covers all keys of the map after it.
insert-covered :
    (m : MemTable) (key value : Bytes) (map : OrdMap Bytes)
    → All (λ (e : Bytes × Bytes). InRange m e.0) map
    → All (λ (e : Bytes × Bytes). InRange (update_range m key) e.0) (OrdMap.insert key value map)
insert-covered m key value map h =
    All-insert (λ e. InRange (update_range m key) e.0) key value map
      (update_range-InRange m key key (inr refl))
      (All-map (λ (e : Bytes × Bytes). InRange m e.0)
        (λ (e : Bytes × Bytes). InRange (update_range m key) e.0) map
        (λ e q. update_range-InRange m key e.0 (inl q)) h)

module _ (env : Allocator) (rand : ℕ → ℕ) (garbage : ℕ → Option ℕ) where
  -- The constructor returns a memtable that stands for the empty map.
  pub new_mem_table-Leaves : (draws : ℕ) → Leaves (new_mem_table env garbage draws) []
  unfolding new_mem_table
  new_mem_table-Leaves draws =
      let r = new_skip_list-IsChain env garbage new_arena [] draws new_arena-IsSound in
      record {
        after = record { table = r.table; has_range = false; min_key = []; max_key = [] };
        returns = rw r.returns;
        models = record {
          order = [];
          valid = record { chain = r.chain; covered = tt };
          view_eq = refl;
        };
      }

  module _ (m : MemTable) (map : OrdMap Bytes) (h : Models m map) (fuel : ℕ)
      (enough : length map + 12 ≤ fuel) (key : Bytes) where
    insert_leaves :
        (value : Bytes)
        → Leaves
            (insert env rand garbage fuel m.table key value >>= λ table.
              some (update_range (record m { table = table }) key))
            (OrdMap.insert key value map)
    insert_leaves value =
        let r =
          insert_lem env rand garbage m.table h.order h.valid.chain fuel key value
            (enough_order m map h fuel enough) in
        let m' : MemTable = record m { table = r.after } in
        let covered =
          subst (All (λ (e : Bytes × Bytes). InRange (update_range m' key) e.0)) (sym r.inserts)
            (insert-covered m' key value (view h.order) h.valid.covered) in
        record {
          after = update_range (record m { table = r.after }) key;
          returns = rw r.returns;
          models = record {
            order = r.order';
            valid = record { chain = rw (table-update_range m' key) r.chain; covered = covered };
            view_eq = r.inserts ∙ ap (OrdMap.insert key value) h.view_eq;
          };
        }

    -- Of a memtable that stands for a sorted map, with fuel for its entries and 12 levels, `put`
    -- returns a memtable that stands for the map with the key set to the value, whatever the
    -- allocator, `rand` and uninitialised memory give.
    pub put-Leaves :
        (value : Bytes)
        → Leaves (put env rand garbage fuel m key value) (OrdMap.insert key value map)
    unfolding put
    put-Leaves value = insert_leaves value

    -- Of a memtable that stands for a sorted map, with fuel for its entries and 12 levels,
    -- `remove` returns a memtable that stands for the map with the key set to the empty value.
    pub remove-Leaves : Leaves (remove env rand garbage fuel m key) (OrdMap.insert key [] map)
    unfolding remove
    remove-Leaves = insert_leaves []
