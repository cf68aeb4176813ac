-- ===== src/Tests/Restarts.antt =====
-- A database that is opened again, with a log of one record and a manifest of two calls.
use zenith_db.Prelude.{
  inr, none, List, [], ◌∷◌, Option, some, length, ◌≡◌, refl, arith, replicate, All, append-nil,
}
use zenith_db.Bytes.{Bytes, cmp}
use zenith_db.Bytes.Words.{le_bytes}
use zenith_db.OrdMap
use zenith_db.OrdMap.{find}
use zenith_db.VectorClock.{serialize_clock}
use zenith_db.Crdt
use zenith_db.Bloom.{bloom_of}
use zenith_db.Wal.Recovery.{LogRecord, write, append_all, IsPlain, records_effect}
use zenith_db.MockEnv.{Files, new_random_access_file}
use zenith_db.Manifest.{add_sstable, replace}
use zenith_db.Manifest.Recovery
use zenith_db.Manifest.Recovery.{Call, add_call, replace_call, CallFits, write_calls, added}
use zenith_db.Manifest.Load.{load, is_space}
use zenith_db.Compaction.{change_at}
use zenith_db.SsTable.Create.{create, create_blocks, entry_bytes}
use zenith_db.Database.Open.{open_db}
use zenith_db.Database.Reopened.{MakesFile, NameHolds}
use zenith_db.SsTable.{Rows}
use zenith_db.SsTable.FewRows.{few_rows-ClosesAll}
use zenith_db.Database.Restart
use zenith_db.Database.AfterRestart
use zenith_db.Database.AfterRestart.{HoldsOnlyAt, LacksAt}
use zenith_db.Database.Read.{not_empty, find_raw}
use zenith_db.Database.{ZenithDb}
use zenith_db.Tests.Sorting.{sort_entries, Sorts-sort_entries}
use zenith_db.OrdMap.{find}
use zenith_db.Database.Restart.{Restored}
use zenith_db.Tests.Memory.{bump}
use zenith_db.Tests.Tables.{rand, garbage, key_b, key_d}
use zenith_db.Tests.Clocks.{node_a}
use zenith_db.Tests.Databases.{rows, old_reg}
use zenith_db.Wal.Replay.{NonEmpty}

abbrev name : Bytes
name = b'f' ∷ []

-- The file was added to level 1, and then moved to level 2; both hold it after a restart.
abbrev calls : List Call
calls = add_call 1 name ∷ replace_call 2 [] (name ∷ []) ∷ replace_call 1 (name ∷ []) [] ∷ []

calls-CallFits : All CallFits calls
unfolding is_space
calls-CallFits = (
  (omega arith, record { some_bytes = omega arith; no_space = (refl, tt) }),
  (
    (omega arith, tt, (record { some_bytes = omega arith; no_space = (refl, tt) }, tt)),
    ((omega arith, ((refl, tt), tt), tt), tt),
  ),
)

abbrev log_of_one : List LogRecord
log_of_one = write key_b (1 ∷ []) ∷ []

plain : All IsPlain log_of_one
plain = ((((refl, tt), (refl, tt)), ((refl, tt), (refl, tt)), omega arith), tt)

abbrev text : Bytes
text = write_calls calls []

text-NonEmpty : All NonEmpty (text ∷ [])
unfolding add_sstable replace
text-NonEmpty = (omega arith, tt)

load-write_calls_example : load (some (text ∷ [])) ≡ added calls (replicate 7 [])
load-write_calls_example =
    Recovery.load-write_calls calls (text ∷ []) calls-CallFits text-NonEmpty (append-nil text)

abbrev stored_files : Files
stored_files = (b'/' ∷ name, create rows) ∷ []

rows-MakesFile : MakesFile rows
unfolding create create_blocks le_bytes bloom_of Crdt.serialize serialize_clock entry_bytes
rows-MakesFile = record {
  sorted = (tt, tt);
  fits = ((omega arith, omega arith), tt);
  small = omega arith;
  file_small = omega arith;
  closes = few_rows-ClosesAll (length rows) rows (omega arith) (omega arith);
}

abbrev contents : Bytes → Option Rows
contents n = some rows

stored : NameHolds stored_files (λ n. b'/' ∷ n) contents name
unfolding new_random_access_file find cmp
stored = (rows-MakesFile, refl)

files_hold :
    All (All (NameHolds stored_files (λ n. b'/' ∷ n) contents)) (added calls (replicate 7 []))
unfolding change_at
files_hold = (tt, ((stored, tt), ((stored, tt), (tt, (tt, (tt, (tt, tt)))))))

open_db-Restored_example :
    Restored 20
      (λ fes. fes)
      contents
      (records_effect log_of_one [])
      (added calls (replicate 7 []))
      (open_db bump rand garbage 20 0
        (λ n. b'/' ∷ n)
        (λ fes. fes)
        stored_files
        node_a
        (write_calls calls [])
        (append_all log_of_one [])
        0)
unfolding OrdMap.insert
open_db-Restored_example =
    Restart.open_db-Restored bump rand garbage 20 0 (λ n. b'/' ∷ n) (λ fes. fes) stored_files node_a
      0 calls log_of_one contents 20 calls-CallFits plain (omega arith) (omega arith) files_hold

unlogged : not_empty (find key_d (records_effect log_of_one [])) ≡ none
unfolding not_empty find cmp OrdMap.insert
unlogged = refl

abbrev held : Bytes
held = Crdt.serialize old_reg

only_held : All (All (λ n. HoldsOnlyAt key_d held (contents n))) (added calls (replicate 7 []))
unfolding change_at not_empty find cmp Crdt.serialize le_bytes
only_held = (tt, ((inr refl, tt), ((inr refl, tt), (tt, (tt, (tt, (tt, tt)))))))

held_somewhere : ¬ All (All (λ n. LacksAt key_d (contents n))) (added calls (replicate 7 []))
unfolding change_at not_empty find cmp Crdt.serialize le_bytes
held_somewhere h = absurd (cc (h.1.0.0))

open_db-find_raw_example :
    (after : ZenithDb) × (open_db bump rand garbage 20 0
        (λ n. b'/' ∷ n)
        sort_entries
        stored_files
        node_a
        (write_calls calls [])
        (append_all log_of_one [])
        0
      ≡ some after)
    × (find_raw 20 after key_d ≡ some (some held))
unfolding OrdMap.insert
open_db-find_raw_example =
    AfterRestart.open_db-find_raw bump rand garbage 20 0 (λ n. b'/' ∷ n) sort_entries stored_files
      node_a 0 calls log_of_one contents 20 calls-CallFits plain (omega arith) (omega arith)
      files_hold Sorts-sort_entries key_d held unlogged only_held held_somewhere
