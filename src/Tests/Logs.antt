-- ===== src/Tests/Logs.antt =====
-- A log of two writes and a removal, with a write torn off behind them.
use zenith_db.Prelude.{List, [], ◌∷◌, some, ◌≡◌, refl, arith, ◌>>=◌}
use zenith_db.Bytes.{Bytes}
use zenith_db.OrdMap
use zenith_db.OrdMap.{find}
use zenith_db.MemTable.Contract.{Models, Leaves}
use zenith_db.Wal.{append, replay}
use zenith_db.Wal.Table.{Yields}
use zenith_db.Wal.Lines.{lines_of}
use zenith_db.Wal.Replay
use zenith_db.Wal.Replay.{lines_effect, joined}
use zenith_db.Wal.Recovery
use zenith_db.Wal.Recovery.{
  LogRecord, write, removal, text_of, append_all, records_effect, memtable_ops, memtable_laws,
}
use zenith_db.MockEnv.{SequentialFile, read_loop}
use zenith_db.MockEnv.Reading
use zenith_db.MockEnv.Reading.{ReadOut}
use zenith_db.MockEnv.Logging
use zenith_db.MockEnv.Logging.{recover, log_records, open_log}
use zenith_db.Tests.Memory.{bump}
use zenith_db.Tests.Tables.{rand, garbage, key_b, key_d, empty_table}

abbrev records : List LogRecord
records = write key_d (1 ∷ []) ∷ write key_b (2 ∷ 3 ∷ []) ∷ removal key_d ∷ []

-- `P`, `U`: a record that a crash cut off.
abbrev torn : Bytes
torn = 80 ∷ 85 ∷ []

-- Two reads, cut in the middle of the first record.
abbrev reads : List Bytes
reads =
    (80 ∷ 85 ∷ 84 ∷ 124 ∷ [])
    ∷ (100 ∷ 124 ∷ 1 ∷ 10 ∷ 80 ∷ 85 ∷ 84 ∷ 124 ∷ 98 ∷ 124 ∷ 2 ∷ 3 ∷ 10 ∷ 68 ∷ 69 ∷ 76 ∷ 124 ∷ 100
        ∷ 10 ∷ 80 ∷ 85 ∷ [])
    ∷ []

replay_lines_example :
    Yields Models
      (replay (memtable_ops bump rand garbage 8) (some reads) empty_table.after)
      (lines_effect (lines_of (joined reads)).0 [])
unfolding lines_of
replay_lines_example =
    Replay.replay_lines (memtable_ops bump rand garbage 8) (memtable_laws bump rand garbage 8) reads
      empty_table.after [] (omega arith, (omega arith, tt)) empty_table.models (omega arith)

replay-append_all_example :
    Yields Models
      (replay (memtable_ops bump rand garbage 8) (some reads) empty_table.after)
      (records_effect records [])
unfolding append
replay-append_all_example =
    Recovery.replay-append_all (memtable_ops bump rand garbage 8)
      (memtable_laws bump rand garbage 8) empty_table.after [] empty_table.models records torn reads
      (
        (((refl, tt), (refl, tt)), ((refl, tt), (refl, tt)), omega arith),
        (
          (((refl, tt), (refl, tt)), ((refl, (refl, tt)), (refl, (refl, tt))), omega arith),
          (((refl, tt), (refl, tt), omega arith), tt),
        ),
      )
      (refl, (refl, tt)) (omega arith, (omega arith, tt)) refl (omega arith)

-- The value 1, newline, 2, as one read.
abbrev cut_reads : List Bytes
cut_reads = (80 ∷ 85 ∷ 84 ∷ 124 ∷ 100 ∷ 124 ∷ 1 ∷ 10 ∷ 2 ∷ 10 ∷ []) ∷ []

replay_cuts_value_example :
    Yields Models
      (replay (memtable_ops bump rand garbage 8) (some cut_reads) empty_table.after)
      (OrdMap.insert key_d (1 ∷ []) [])
unfolding append
replay_cuts_value_example =
    Recovery.replay_cuts_value (memtable_ops bump rand garbage 8)
      (memtable_laws bump rand garbage 8) empty_table.after [] empty_table.models key_d (1 ∷ [])
      (2 ∷ []) cut_reads (((refl, tt), (refl, tt)), ((refl, tt), (refl, tt)), omega arith)
      (refl, tt) (refl, tt) (omega arith, tt) refl (omega arith)

-- A file of seven bytes, from the third on, three bytes at a time.
abbrev seven : SequentialFile
seven = record { content = 1 ∷ 2 ∷ 3 ∷ 4 ∷ 5 ∷ 6 ∷ 7 ∷ []; pos = 2 }

read_loop_runs : read_loop 6 3 seven ≡ some ((3 ∷ 4 ∷ 5 ∷ []) ∷ (6 ∷ 7 ∷ []) ∷ [])
unfolding read_loop
read_loop_runs = refl

read_loop_lem_example : ReadOut (3 ∷ 4 ∷ 5 ∷ 6 ∷ 7 ∷ []) (read_loop 6 3 seven)
read_loop_lem_example = Reading.read_loop_lem 6 3 seven (omega arith) (omega arith) (omega arith)

abbrev path : Bytes
path = 119 ∷ []

recover_logged_example :
    Leaves
      (log_records path records (open_log path []) >>= λ written.
        recover bump rand garbage 8 0 path written)
      (records_effect records [])
unfolding find
recover_logged_example =
    Logging.recover_logged bump rand garbage 8 0 path [] records refl
      (
        (((refl, tt), (refl, tt)), ((refl, tt), (refl, tt)), omega arith),
        (
          (((refl, tt), (refl, tt)), ((refl, (refl, tt)), (refl, (refl, tt))), omega arith),
          (((refl, tt), (refl, tt), omega arith), tt),
        ),
      )
      (omega arith)
