-- ===== src/Wal.antt =====
-- The write-ahead log: src/wal.cpp, with `split` of src/utils.h. The log is the bytes of the file
-- `wal.log`; `sync` changes none of them.
pub mod Table
pub mod Lines
pub mod Replay
pub mod Recovery
use zenith_db.Prelude.{
  ℕ, zero, suc, List, [], ◌∷◌, ◌++◌, Option, none, some, Bool, true, false, ◌||◌, not, ◌==◌, ◌>>=◌,
  if◌then◌else◌, take, drop, length,
}
use zenith_db.Bytes.{Bytes, eq_bytes}
use Table.{TableOps}

abbrev pub newline : ℕ
newline = b'\n'

abbrev pub bar : ℕ
bar = b'|'

abbrev pub word_put : Bytes
word_put = b'P' ∷ b'U' ∷ b'T' ∷ []

abbrev pub word_del : Bytes
word_del = b'D' ∷ b'E' ∷ b'L' ∷ []

-- The bytes in front of the first `d`, and those behind it; `none` if there is no `d`.
unfoldable pub cut : ℕ → Bytes → Option (Bytes × Bytes)
cut d [] = none
cut d (c ∷ cs) =
    let rest = cut d cs in
    if c == d then some ([], cs) else elim rest [ none ↦ none | some (a, b) ↦ some (c ∷ a, b) ]

-- `append`.
unfoldable pub append : Bytes → Bytes → Bytes
append log record_bytes = log ++ (record_bytes ++ newline ∷ [])

-- The loop of `split` with `std::getline`: at the end of the text there is no further item, and
-- an item that the text ends is kept. The fuel is the length of the text.
unfoldable pub split_loop : ℕ → ℕ → Bytes → List Bytes
split_loop zero delim text = []
split_loop (suc fuel) delim [] = []
split_loop (suc fuel) delim (c ∷ cs) = elim (cut delim (c ∷ cs)) [
  | none ↦ (c ∷ cs) ∷ []
  | some (item, rest) ↦
      let items = split_loop fuel delim rest in
      elim item [ [] ↦ (if delim == 0 then items else [] ∷ items) | b ∷ bs ↦ (b ∷ bs) ∷ items ]
]

-- `split`.
unfoldable pub split : Bytes → ℕ → List Bytes
unfolding split_loop
split text delim = split_loop (length text) delim text

-- A line of the log, applied to the table.
module _ {T : Type 0} (ops : TableOps T) where
  unfoldable pub apply_parts : List Bytes → T → Option T
  apply_parts (verb ∷ key ∷ value ∷ []) t =
      if eq_bytes verb word_put then ops.put key value t else some t
  apply_parts (verb ∷ key ∷ []) t = if eq_bytes verb word_del then ops.remove key t else some t
  apply_parts _ t = some t

  unfoldable pub apply_line : Bytes → T → Option T
  unfolding apply_parts split
  apply_line [] t = some t
  apply_line (c ∷ cs) t = apply_parts (split (c ∷ cs) bar) t

  -- The inner loop: the table after all whole lines, and the bytes that are left over. Each round
  -- takes a newline away, so the fuel is one more than the length of the bytes.
  unfoldable pub drain : ℕ → Bytes → T → Option (T × Bytes)
  drain zero leftover t = none
  drain (suc fuel) leftover t = elim (cut newline leftover) [
    | none ↦ some (t, leftover)
    | some (line, rest) ↦ apply_line line t >>= λ t'. drain fuel rest t'
  ]

  -- The outer loop, over the reads of the file; an empty read ends it.
  unfoldable pub replay_loop : List Bytes → Bytes → T → Option T
  unfolding drain
  replay_loop [] leftover t = some t
  replay_loop ([] ∷ reads) leftover t = some t
  replay_loop ((b ∷ bs) ∷ reads) leftover t =
      let text = leftover ++ (b ∷ bs) in
      drain (suc (length text)) text t >>= λ r. replay_loop reads r.1 r.0

  -- `replay`, of the reads that the file gives; `none` where it does not exist.
  unfoldable pub replay : Option (List Bytes) → T → Option T
  unfolding replay_loop
  replay none t = some t
  replay (some reads) t = replay_loop reads [] t
