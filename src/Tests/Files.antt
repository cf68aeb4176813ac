-- ===== src/Tests/Files.antt =====
-- Table files of three and of seventeen rows.
use zenith_db.Prelude.{
  ℕ, zero, suc, ◌+◌, [], ◌∷◌, Option, none, some, ◌≡◌, refl, replicate, All, ◌<◌, ◌≤◌, ◌↔◌, ◌≢◌,
  drop, ◌^◌, length, get_elem?, ◌-◌, ◌++◌, arith,
}
use zenith_db.Bytes.{Bytes, cmp}
use zenith_db.Bytes.Words.{le_bytes, le_value}
use zenith_db.Bloom.{may_contain, bloom_of}
use zenith_db.SsTable.{Rows}
use zenith_db.SsTable.Create.{create, Filled, entry_bytes}
use zenith_db.SsTable.Read.{get, scan, SsTable}
use zenith_db.SsTable.Open.{Opened, opened, too_small, bad_magic, open_table}
use zenith_db.SsTable.Create.{new_block}
use zenith_db.SsTable.Entries.{rows_bytes, RowFits}
use zenith_db.SsTable.Fill
use zenith_db.SsTable.Opening
use zenith_db.SsTable.Contract
use zenith_db.SsTable.Blocks.{ClosesAll}
use zenith_db.SsTable.FewRows.{few_rows-ClosesAll}
use zenith_db.OrdMap.{IsSorted, find}
use zenith_db.OrdMap.Window.{between}

abbrev lookup : Bytes → Opened → Option (Option Bytes)
lookup key (Opened.opened t) = get t key
lookup key _ = none

abbrev rows_of : Bytes → Bytes → Opened → Option Rows
rows_of start end (Opened.opened t) = scan t start end
rows_of start end _ = none

abbrev three : Rows
three = (97 ∷ [], 1 ∷ 2 ∷ []) ∷ (99 ∷ [], []) ∷ (99 ∷ 1 ∷ [], 3 ∷ []) ∷ []

lookup_runs : lookup (99 ∷ 1 ∷ []) (open_table (create three)) ≡ some (some (3 ∷ []))
unfolding create open_table get cmp le_bytes le_value bloom_of may_contain
lookup_runs = refl

scan_runs : rows_of (98 ∷ []) (99 ∷ []) (open_table (create three)) ≡ some ((99 ∷ [], []) ∷ [])
unfolding create open_table scan cmp le_bytes le_value bloom_of
scan_runs = refl

-- Sixteen rows, and one that does not fit their block.
abbrev rows_from : ℕ → ℕ → Rows
rows_from zero k = (k ∷ [], replicate 300 7) ∷ []
rows_from (suc n) k = (k ∷ [], replicate 231 7) ∷ rows_from n (k + 1)

-- The restart behind the sixteenth row points at no entry, and the row of the key is not found.
lost_runs : lookup (111 ∷ []) (open_table (create (rows_from 16 97))) ≡ some none
unfolding create open_table get cmp le_bytes le_value bloom_of may_contain
lost_runs = refl

three-RowFits : All RowFits three
three-RowFits =
    ((omega arith, omega arith), ((omega arith, omega arith), ((omega arith, omega arith), tt)))

three-IsSorted : IsSorted three
unfolding cmp
three-IsSorted = ((refl, (refl, tt)), ((refl, tt), (tt, tt)))

three_small : length (rows_bytes three) < 2 ^ 29
unfolding rows_bytes entry_bytes le_bytes
three_small = omega arith

three_file_small : length (create three) < 2 ^ 63
unfolding create le_bytes bloom_of
three_file_small = omega arith

three-ClosesAll : ClosesAll (length three) three
three-ClosesAll = few_rows-ClosesAll (length three) three (omega arith) (omega (arith, three_small))

get-open_table_example :
    (t : SsTable) × (open_table (create three) ≡ opened t)
    × (get t (99 ∷ []) ≡ some (find (99 ∷ []) three))
get-open_table_example =
    Contract.get-open_table three three-RowFits three-IsSorted three_small three_file_small
      three-ClosesAll (99 ∷ [])

scan-open_table_example :
    (t : SsTable) × (open_table (create three) ≡ opened t)
    × (scan t (98 ∷ []) (99 ∷ []) ≡ some (between (98 ∷ []) (99 ∷ []) three))
scan-open_table_example =
    Contract.scan-open_table three three-RowFits three-IsSorted three_small three_file_small
      three-ClosesAll (98 ∷ []) (99 ∷ [])

abbrev full : Filled
full = new_block (rows_from 16 97)

new_block-stale_example :
    (taken : Rows) × (rows_from 16 97 ≡ taken ++ full.rest)
    × (get_elem? full.restarts (length full.restarts - 1) ≡ some (8 + length (rows_bytes taken)))
unfolding new_block rows_bytes entry_bytes le_bytes
new_block-stale_example =
    Fill.new_block-stale (97 ∷ [], replicate 231 7) (rows_from 15 98) (omega arith) (omega arith)
      (omega arith) refl

open_table-errors_example :
    ((open_table (7 ∷ 7 ∷ []) ≡ too_small) ↔ (2 < 32))
    × ((open_table (7 ∷ 7 ∷ []) ≡ bad_magic)
        ↔ ((32 ≤ 2) × (le_value (drop (2 - 8) (7 ∷ 7 ∷ [])) ≢ 0xDB55CA1E)))
open_table-errors_example = Opening.open_table-errors (7 ∷ 7 ∷ [])
