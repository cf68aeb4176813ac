-- ===== src/Tests/Tables.antt =====
-- A memtable with three keys, of which one was written again.
use zenith_db.Prelude.{ℕ, ◌+◌, [], ◌∷◌, Option, none, some, ◌≡◌, refl, ap, arith, length, ◌>>=◌}
use zenith_db.Bytes.{Bytes, cmp}
use zenith_db.OrdMap
use zenith_db.OrdMap.{OrdMap, find}
use zenith_db.Arena.{new_arena, allocate, allocate_aligned}
use zenith_db.Arena.Safety.{new_arena-IsSound}
use zenith_db.SkipList.{key_is_after_node, insert, new_skip_list}
use zenith_db.SkipList.New
use zenith_db.SkipList.New.{MadeEmpty}
use zenith_db.SkipList.Insert
use zenith_db.SkipList.Insert.{Inserted}
use zenith_db.MemTable
use zenith_db.MemTable.{MemTable, scan, sorted_entries, new_mem_table}
use zenith_db.MemTable.Contract.{Models, Leaves}
use zenith_db.MemTable.Refines
use zenith_db.OrdMap.Window.{between}
use zenith_db.Tests.Memory.{bump}

-- Heights 2, 1, 1, and so on; nodes hold no pointers before they are set.
abbrev pub rand : ℕ → ℕ
rand n = n + 4

abbrev pub garbage : ℕ → Option ℕ
garbage n = none

abbrev pub key_b : Bytes
key_b = 98 ∷ []

abbrev pub key_d : Bytes
key_d = 100 ∷ []

-- Runs of the code itself.
abbrev run : Option MemTable
run = new_mem_table bump garbage 0 >>= λ a.
    MemTable.put bump rand garbage 20 a key_d (1 ∷ []) >>= λ b.
    MemTable.put bump rand garbage 20 b key_b (2 ∷ []) >>= λ c.
    MemTable.put bump rand garbage 20 c key_d (3 ∷ [])

scan_runs : (run >>= λ m. scan 20 m (99 ∷ []) key_d) ≡ some ((key_d, 3 ∷ []) ∷ [])
unfolding MemTable.put new_mem_table scan insert new_skip_list cmp allocate_aligned
    key_is_after_node allocate
scan_runs = refl

-- The list after each write.
abbrev made : MadeEmpty (new_skip_list bump garbage new_arena 0)
made = New.new_skip_list-IsChain bump garbage new_arena [] 0 new_arena-IsSound

abbrev first : Inserted [] key_d (1 ∷ []) (insert bump rand garbage 20 made.table key_d (1 ∷ []))
first = Insert.insert_lem bump rand garbage made.table [] made.chain 20 key_d (1 ∷ []) (omega arith)

one_entry : length first.order' ≡ 1
unfolding OrdMap.insert
one_entry = omega (arith, Refines.length-view first.order', ap length first.inserts)

insert_lem_example :
    Inserted first.order' key_b (2 ∷ []) (insert bump rand garbage 20 first.after key_b (2 ∷ []))
insert_lem_example =
    Insert.insert_lem bump rand garbage first.after first.order' first.chain 20 key_b (2 ∷ [])
      (omega (arith, one_entry))

-- The memtable after each write, by the theorems.
abbrev pub empty_table : Leaves (new_mem_table bump garbage 0) []
empty_table = Refines.new_mem_table-Leaves bump rand garbage 0

abbrev pub map_d : OrdMap Bytes
map_d = (key_d, 1 ∷ []) ∷ []

abbrev pub table_d :
    Leaves
      (MemTable.put bump rand garbage 20 empty_table.after key_d (1 ∷ []))
      (OrdMap.insert key_d (1 ∷ []) [])
table_d =
    Refines.put-Leaves bump rand garbage empty_table.after [] empty_table.models 20 (omega arith)
      key_d (1 ∷ [])

pub models_d : Models table_d.after map_d
unfolding OrdMap.insert
models_d = table_d.models

put-Leaves_example :
    Leaves
      (MemTable.put bump rand garbage 20 table_d.after key_b (2 ∷ []))
      (OrdMap.insert key_b (2 ∷ []) map_d)
put-Leaves_example =
    Refines.put-Leaves bump rand garbage table_d.after map_d models_d 20 (omega arith) key_b
      (2 ∷ [])

remove-Leaves_example :
    Leaves (MemTable.remove bump rand garbage 20 table_d.after key_d) (OrdMap.insert key_d [] map_d)
remove-Leaves_example =
    Refines.remove-Leaves bump rand garbage table_d.after map_d models_d 20 (omega arith) key_d

get-find_example : MemTable.get 20 table_d.after key_d ≡ some (some (1 ∷ []))
unfolding find cmp
get-find_example = Refines.get-find table_d.after map_d models_d 20 (omega arith) key_d

scan_lem_example : scan 20 table_d.after key_b key_d ≡ some (between key_b key_d map_d)
scan_lem_example = Refines.scan_lem table_d.after map_d models_d 20 (omega arith) key_b key_d

sorted_entries_lem_example : sorted_entries 20 table_d.after ≡ some map_d
sorted_entries_lem_example =
    Refines.sorted_entries_lem table_d.after map_d models_d 20 (omega arith)
