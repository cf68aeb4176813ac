-- ===== src/Wal/Recovery.antt =====
-- What a log of records recovers to, and when a record is lost.
use zenith_db.Prelude.{
  ℕ, suc, ◌+◌, ◌≤◌, ◌<◌, List, [], ◌∷◌, ◌++◌, Option, some, ◌≡◌, refl, sym, ap, ◌∙◌, arith, length,
  All, All-append, append_assoc, append-nil,
}
use mathlib.Core.Path.{subst}
use zenith_db.Bytes.{Bytes, cmp}
use zenith_db.OrdMap
use zenith_db.OrdMap.{OrdMap}
use zenith_db.Arena.{Allocator}
use zenith_db.MemTable.{MemTable, put, remove}
use zenith_db.MemTable.Contract.{Models, Leaves}
use zenith_db.MemTable.Refines.{put-Leaves, remove-Leaves}
use zenith_db.Wal.{newline, bar, word_put, word_del, split, split_loop, replay, append}
use zenith_db.Wal.Table.{TableOps, TableLaws, Yields}
use zenith_db.Wal.Lines.{
  lines_of, Without, cut_clean, cut-append, in_front, lines_of_clean, lines_of_line,
}
use zenith_db.Wal.Replay.{line_effect, parts_effect, lines_effect, joined, NonEmpty, replay_lines}

-- The memtable as a table to replay into, with fuel for `limit` entries and the levels.
module _ (env : Allocator) (rand : ℕ → ℕ) (garbage : ℕ → Option ℕ) (limit : ℕ) where
  abbrev pub memtable_ops : TableOps MemTable
  memtable_ops = record {
    put = λ key value m. put env rand garbage (limit + 12) m key value;
    remove = λ key m. remove env rand garbage (limit + 12) m key;
  }

  abbrev pub Leaves-Yields :
      (result : Option MemTable) (map : OrdMap Bytes) → Leaves result map → Yields Models result map
  Leaves-Yields result map l = record { after = l.after; returns = l.returns; models = l.models }

  abbrev pub memtable_laws : TableLaws memtable_ops
  memtable_laws = record {
    Models = Models;
    limit = limit;
    put_lem = λ m map key value h q.
        Leaves-Yields _ _
          (put-Leaves env rand garbage m map h (limit + 12) (omega arith) key value);
    remove_lem = λ m map key h q.
        Leaves-Yields _ _ (remove-Leaves env rand garbage m map h (limit + 12) (omega arith) key);
  }

-- A record that the log can hold: a write or a removal.
pub data LogRecord : Type 0 where
  write : Bytes → Bytes → LogRecord
  removal : Bytes → LogRecord

abbrev pub text_of : LogRecord → Bytes
text_of (write key value) = word_put ++ bar ∷ (key ++ bar ∷ value)
text_of (removal key) = word_del ++ bar ∷ key

abbrev pub record_effect : LogRecord → OrdMap Bytes → OrdMap Bytes
record_effect (write key value) map = OrdMap.insert key value map
record_effect (removal key) map = OrdMap.insert key [] map

abbrev pub records_effect : List LogRecord → OrdMap Bytes → OrdMap Bytes
records_effect [] map = map
records_effect (r ∷ rs) map = records_effect rs (record_effect r map)

-- The log after the records were appended to it.
abbrev pub append_all : List LogRecord → Bytes → Bytes
append_all [] log = log
append_all (r ∷ rs) log = append_all rs (append log (text_of r))

-- Neither a newline nor a bar occurs in a key or a value, and what stands last is not empty.
abbrev pub IsPlain : LogRecord → Type 0
IsPlain (write key value) =
    (Without newline key × Without bar key)
    × (Without newline value × Without bar value)
    × (0 < length value)
IsPlain (removal key) = Without newline key × Without bar key × (0 < length key)

split_loop-item :
    (fuel : ℕ) (item rest : Bytes)
    → Without bar item
    → split_loop (suc fuel) bar (item ++ bar ∷ rest) ≡ item ∷ split_loop fuel bar rest
unfolding split_loop
split_loop-item fuel [] rest h = rw (cut-append bar [] rest h, split_loop) refl
split_loop-item fuel (c ∷ cs) rest h = rw (cut-append bar (c ∷ cs) rest h, split_loop) refl

split_loop-last :
    (fuel : ℕ) (item : Bytes)
    → Without bar item
    → 0 < length item
    → split_loop (suc fuel) bar item ≡ item ∷ []
unfolding split_loop
split_loop-last fuel [] h q = absurd (omega arith)
split_loop-last fuel (c ∷ cs) h q = rw (cut_clean bar (c ∷ cs) h, split_loop) refl

split-write :
    (key value : Bytes)
    → Without bar key
    → Without bar value
    → 0 < length value
    → split (text_of (write key value)) bar ≡ word_put ∷ key ∷ value ∷ []
unfolding split
split-write key value hk hv q =
    split_loop-item (suc (suc (suc (length (key ++ bar ∷ value))))) word_put (key ++ bar ∷ value)
      (refl, (refl, (refl, tt)))
    ∙ ap (λ x. word_put ∷ x)
        (split_loop-item (suc (suc (length (key ++ bar ∷ value)))) key value hk
          ∙ ap (λ x. key ∷ x) (split_loop-last (suc (length (key ++ bar ∷ value))) value hv q))

split-removal :
    (key : Bytes)
    → Without bar key
    → 0 < length key
    → split (text_of (removal key)) bar ≡ word_del ∷ key ∷ []
unfolding split
split-removal key hk q =
    split_loop-item (suc (suc (suc (length key)))) word_del key (refl, (refl, (refl, tt)))
    ∙ ap (λ x. word_del ∷ x) (split_loop-last (suc (suc (length key))) key hk q)

text_of_effect :
    (r : LogRecord) (map : OrdMap Bytes)
    → IsPlain r
    → line_effect (text_of r) map ≡ record_effect r map
unfolding cmp
text_of_effect (write key value) map h =
    ap (λ parts. parts_effect parts map) (split-write key value h.0.1 h.1.1 h.2)
text_of_effect (removal key) map h =
    ap (λ parts. parts_effect parts map) (split-removal key h.1 h.2)

Without-text_of : (r : LogRecord) → IsPlain r → Without newline (text_of r)
Without-text_of (write key value) h =
    (refl, (refl, (refl, (refl, All-append _ key (bar ∷ value) h.0.0 (refl, h.1.0)))))
Without-text_of (removal key) h = (refl, (refl, (refl, (refl, h.0))))

-- The lines of a log that was appended to, in front of what was torn off.
abbrev texts : List LogRecord → List Bytes
texts [] = []
texts (r ∷ rs) = text_of r ∷ texts rs

log_bytes : List LogRecord → Bytes
log_bytes [] = []
log_bytes (r ∷ rs) = text_of r ++ newline ∷ log_bytes rs

append_all_bytes : (rs : List LogRecord) (log : Bytes) → append_all rs log ≡ log ++ log_bytes rs
unfolding append log_bytes
append_all_bytes [] log = sym (append-nil log)
append_all_bytes (r ∷ rs) log =
    append_all_bytes rs (append log (text_of r))
    ∙ append_assoc log (text_of r ++ newline ∷ []) (log_bytes rs)
    ∙ ap (λ x. log ++ x) (append_assoc (text_of r) (newline ∷ []) (log_bytes rs))

lines_of-log_bytes :
    (rs : List LogRecord) (torn : Bytes)
    → All IsPlain rs
    → Without newline torn
    → lines_of (log_bytes rs ++ torn) ≡ (texts rs, torn)
unfolding log_bytes
lines_of-log_bytes [] torn h clean = lines_of_clean torn clean
lines_of-log_bytes (r ∷ rs) torn h clean =
    ap lines_of (append_assoc (text_of r) (newline ∷ log_bytes rs) torn)
    ∙ lines_of_line (text_of r) (log_bytes rs ++ torn) (Without-text_of r h.0)
    ∙ ap (in_front (text_of r ∷ [])) (lines_of-log_bytes rs torn h.1 clean)

lines_effect-texts :
    (rs : List LogRecord) (map : OrdMap Bytes)
    → All IsPlain rs
    → lines_effect (texts rs) map ≡ records_effect rs map
lines_effect-texts [] map h = refl
lines_effect-texts (r ∷ rs) map h =
    ap (lines_effect (texts rs)) (text_of_effect r map h.0)
    ∙ lines_effect-texts rs (record_effect r map) h.1

length-texts : (rs : List LogRecord) → length (texts rs) ≡ length rs
length-texts [] = refl
length-texts (r ∷ rs) = ap suc (length-texts rs)

-- What `Yields` says, at lines that are known.
replay_known :
    {T : Type 0} (ops : TableOps T) (laws : TableLaws ops) (reads : List Bytes) (t : T)
    (map : OrdMap Bytes) (r : List Bytes × Bytes)
    → lines_of (joined reads) ≡ r
    → All NonEmpty reads
    → laws.Models t map
    → length map + length r.0 ≤ laws.limit
    → Yields laws.Models (replay ops (some reads) t) (lines_effect r.0 map)
replay_known ops laws reads t map r e ok h q =
    subst
      (λ (x : List Bytes × Bytes).
        length map + length x.0 ≤ laws.limit
        → Yields laws.Models (replay ops (some reads) t) (lines_effect x.0 map))
      e (replay_lines ops laws reads t map ok h) q

-- A line without a bar has no effect.
line_effect_no_bar :
    (line : Bytes) (map : OrdMap Bytes) → Without bar line → line_effect line map ≡ map
unfolding split
line_effect_no_bar [] map h = refl
line_effect_no_bar (c ∷ cs) map h =
    ap (λ parts. parts_effect parts map) (split_loop-last (length cs) (c ∷ cs) h (omega arith))

cut_lines :
    (key front back : Bytes)
    → IsPlain (write key front)
    → Without newline back
    → lines_of (append [] (text_of (write key (front ++ newline ∷ back))))
      ≡ (text_of (write key front) ∷ back ∷ [], [])
unfolding append lines_of
cut_lines key front back plain clean =
    ap (λ x. lines_of ((word_put ++ bar ∷ x) ++ newline ∷ []))
      (sym (append_assoc key (bar ∷ front) (newline ∷ back)))
    ∙ ap lines_of (append_assoc (text_of (write key front)) (newline ∷ back) (newline ∷ []))
    ∙ lines_of_line (text_of (write key front)) (back ++ newline ∷ [])
        (Without-text_of (write key front) plain)
    ∙ ap (in_front (text_of (write key front) ∷ [])) (lines_of_line back [] clean)

module _ {T : Type 0} (ops : TableOps T) (laws : TableLaws ops) (t : T) (map : OrdMap Bytes)
    (h : laws.Models t map) where
  -- Plain records are appended to an empty log, and a crash leaves bytes without a newline behind
  -- them. However non-empty reads divide the file, replaying it leaves a table that stands for
  -- the map after exactly those records, if the table keeps the laws of a sorted map up to a
  -- limit that leaves room for an entry per record.
  pub replay-append_all :
      (rs : List LogRecord) (torn : Bytes) (reads : List Bytes)
      → All IsPlain rs
      → Without newline torn
      → All NonEmpty reads
      → joined reads ≡ append_all rs [] ++ torn
      → length map + length rs ≤ laws.limit
      → Yields laws.Models (replay ops (some reads) t) (records_effect rs map)
  replay-append_all rs torn reads plain clean ok e q =
      let shape : lines_of (joined reads) ≡ (texts rs, torn) =
        ap lines_of (e ∙ ap (λ x. x ++ torn) (append_all_bytes rs []))
        ∙ lines_of-log_bytes rs torn plain clean in
      subst (Yields laws.Models (replay ops (some reads) t)) (lines_effect-texts rs map plain) (
        replay_known ops laws reads t map (texts rs, torn) shape ok h
          (omega (arith, length-texts rs)))

  -- A value with a newline in it is cut off there: a log that holds only the write of `front ++
  -- newline ∷ back`, where key and `front` are plain and `back` has neither bar nor newline,
  -- replays to the write of `front`, into a table that keeps the laws of a sorted map and has
  -- room for two entries.
  pub replay_cuts_value :
      (key front back : Bytes) (reads : List Bytes)
      → IsPlain (write key front)
      → Without newline back
      → Without bar back
      → All NonEmpty reads
      → joined reads ≡ append [] (text_of (write key (front ++ newline ∷ back)))
      → length map + 2 ≤ laws.limit
      → Yields laws.Models (replay ops (some reads) t) (OrdMap.insert key front map)
  replay_cuts_value key front back reads plain clean no_bar ok e q =
      subst (Yields laws.Models (replay ops (some reads) t))
        (line_effect_no_bar back _ no_bar ∙ text_of_effect (write key front) map plain)
        (replay_known ops laws reads t map (text_of (write key front) ∷ back ∷ [], [])
          (ap lines_of e ∙ cut_lines key front back plain clean) ok h (omega (arith, q)))
