-- ===== src/Manifest/Load.antt =====
-- `load` of src/manifest.cpp. `>>` of a string and of an int skip spaces first; an int that is not
-- there or does not fit fails.
use zenith_db.Prelude.{
  ℕ, zero, suc, ◌+◌, ◌-◌, ◌*◌, ◌^◌, List, [], ◌∷◌, ◌++◌, Option, none, some, Bool, true, false,
  ◌&&◌, ◌||◌, ◌==◌, ltb, leb, length, replicate, if◌then◌else◌, ◌>>=◌,
}
use zenith_db.Bytes.{Bytes, eq_bytes}
use zenith_db.Wal.{newline, cut}
use zenith_db.Compaction.{change_at}

unfoldable pub is_space : ℕ → Bool
is_space c = (c == b' ') || (leb 9 c && leb c 13)

unfoldable pub is_digit : ℕ → Bool
is_digit c = leb b'0' c && leb c b'9'

unfoldable pub skip_space : Bytes → Bytes
skip_space [] = []
skip_space (c ∷ cs) = if is_space c then skip_space cs else c ∷ cs

-- The bytes up to the first that fails the test, and the rest.
unfoldable pub span : (ℕ → Bool) → Bytes → Bytes × Bytes
span test [] = ([], [])
span test (c ∷ cs) =
    let rest = span test cs in if test c then (c ∷ rest.0, rest.1) else ([], c ∷ cs)

-- `iss >> word`, with what is left of the line.
unfoldable pub read_word : Bytes → Option (Bytes × Bytes)
unfolding skip_space span is_space
read_word text = elim (skip_space text) [
  | [] ↦ none
  | c ∷ cs ↦ some (span (λ b. if is_space b then false else true) (c ∷ cs))
]

unfoldable pub number : ℕ → Bytes → ℕ
number acc [] = acc
number acc (d ∷ ds) = number (acc * 10 + (d - b'0')) ds

-- The digits of a number up to a limit.
unfoldable pub read_digits : ℕ → Bytes → Option (ℕ × Bytes)
unfolding span is_digit number
read_digits limit text =
    let (digits, rest) = span is_digit text in
    elim digits [
      | [] ↦ none
      | d ∷ ds ↦ if ltb limit (number 0 (d ∷ ds)) then none else some (number 0 (d ∷ ds), rest)
    ]

-- `iss >> lvl`: the level, or `none` for one below 0, and what is left.
unfoldable pub read_level : Bytes → Option (Option ℕ × Bytes)
unfolding skip_space read_digits
read_level text = elim (skip_space text) [
  | [] ↦ none
  | c ∷ cs ↦
      if c == b'-'
      then (read_digits (2 ^ 31) cs >>= λ r. some (if r.0 == 0 then some 0 else none, r.1))
      else (read_digits (2 ^ 31 - 1) (if c == b'+' then cs else c ∷ cs) >>= λ r.
          some (some r.0, r.1))
]

abbrev pub word_add : Bytes
word_add = b'A' ∷ b'D' ∷ b'D' ∷ []

-- The level and the file of a record that adds one.
unfoldable pub parse_add : Bytes → Option (ℕ × Bytes)
unfolding read_word read_level
parse_add line = do
  op ← read_word line
  lvl ← read_level op.1
  elim (eq_bytes op.0 word_add) [
    | true ↦ read_word lvl.1 >>= λ file. lvl.0 >>= λ l. some (l, file.0)
    | false ↦ none
  ]

-- A line of the file. A level that is not there is passed over.
unfoldable pub load_line : Bytes → List (List Bytes) → List (List Bytes)
unfolding parse_add change_at
load_line [] levels = levels
load_line (c ∷ cs) levels = elim (parse_add (c ∷ cs)) [
  | none ↦ levels
  | some (lvl, file) ↦ change_at lvl (λ files. files ++ file ∷ []) levels
]

-- The inner loop, on fuel for the newlines: the levels, and the bytes that are left over.
unfoldable pub drain : ℕ → Bytes → List (List Bytes) → List (List Bytes) × Bytes
unfolding load_line
drain zero leftover levels = (levels, leftover)
drain (suc fuel) leftover levels = elim (cut newline leftover) [
  | none ↦ (levels, leftover)
  | some (line, rest) ↦ drain fuel rest (load_line line levels)
]

-- The outer loop, over the reads of the file.
unfoldable pub load_loop : List Bytes → Bytes → List (List Bytes) → List (List Bytes)
unfolding drain
load_loop [] leftover levels = levels
load_loop ([] ∷ reads) leftover levels = levels
load_loop ((b ∷ bs) ∷ reads) leftover levels =
    let text = leftover ++ (b ∷ bs) in
    let (levels', leftover') = drain (suc (length text)) text levels in
    load_loop reads leftover' levels'

-- `load`, of the reads that the file gives; `none` where it does not exist.
unfoldable pub load : Option (List Bytes) → List (List Bytes)
unfolding load_loop
load none = replicate 7 []
load (some reads) = load_loop reads [] (replicate 7 [])
