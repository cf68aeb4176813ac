-- ===== src/SsTable/Read.antt =====
-- The reader of a table file: `find_in_block`, `scan_block`, `get` and `scan`. A read outside of a buffer is `none`. Memory never runs out.
use zenith_db.Prelude.{
  ℕ, zero, suc, ◌+◌, ◌-◌, ◌*◌, ◌/◌, ◌^◌, ◌%◌, List, [], ◌∷◌, ◌++◌, Option, none, some, Bool, true,
  false, Ordering, ◌==◌, ltb, leb, length, drop, get_elem?, if◌then◌else◌, ◌>>=◌, ◌&&◌, not,
}
use zenith_db.Bytes.{Bytes, cmp, lt_bytes}
use zenith_db.Bytes.Slices.{slice, word_at}
use zenith_db.MockEnv.{read_at}
use zenith_db.Bloom.{may_contain}
use zenith_db.SsTable.{Rows, IndexEntry}

pub record Meta : Type 0 where
  pub min_key : Bytes
  pub max_key : Bytes
  pub file_size : ℕ
  pub entry_count : ℕ

pub record SsTable : Type 0 where
  pub file : Bytes
  pub meta : Meta
  pub data_end : ℕ
  pub bloom_offset : ℕ
  pub index_offset : ℕ
  pub index : List IndexEntry
  pub bloom_filter : Bytes

-- `a - b` on pointers into one buffer, which may not leave it.
unfoldable pub back : ℕ → ℕ → Option ℕ
back a b = if leb b a then some (a - b) else none

-- The binary search over the restarts, on fuel for the rounds: the first restart whose key is not
-- less than `key`.
unfoldable pub search_loop : ℕ → Bytes → ℕ → Bytes → ℕ → ℕ → Option ℕ
unfolding slice word_at
search_loop zero block restarts_ptr key left right = none
search_loop (suc fuel) block restarts_ptr key left right = elim (ltb left right) [
  | false ↦ some left
  | true ↦ do
    let mid = (left + right) % 2 ^ 32 / 2
    restart_off ← word_at 4 (restarts_ptr + mid * 4 % 2 ^ 32) block
    klen ← word_at 4 restart_off block
    mid_key ← slice (restart_off + 4) klen block
    elim (lt_bytes mid_key key) [
      | true ↦ search_loop fuel block restarts_ptr key (mid + 1) right
      | false ↦ search_loop fuel block restarts_ptr key left mid
    ]
]

-- An entry, and the pointer behind it.
unfoldable pub entry_at : ℕ → Bytes → Option (Bytes × Bytes × ℕ)
unfolding slice word_at
entry_at ptr block = do
  klen ← word_at 4 ptr block
  key ← slice (ptr + 4) klen block
  vlen ← word_at 4 (ptr + 4 + klen) block
  value ← slice (ptr + 4 + klen + 4) vlen block
  some (key, value, ptr + 4 + klen + 4 + vlen)

-- The loop of `find_in_block` over the entries, on fuel.
unfoldable pub find_entries : ℕ → Bytes → ℕ → ℕ → Bytes → Option (Option Bytes)
unfolding entry_at
find_entries zero block ptr limit key = none
find_entries (suc fuel) block ptr limit key = elim (ltb ptr limit) [
  | false ↦ some none
  | true ↦ entry_at ptr block >>= λ e. elim (cmp e.0 key) [
    | Ordering.eq ↦ some (some e.1)
    | Ordering.gt ↦ some none
    | Ordering.lt ↦ find_entries fuel block e.2 limit key
  ]
]

-- The loop of `scan_block` over the entries, on fuel.
unfoldable pub scan_entries : ℕ → Bytes → ℕ → ℕ → Bytes → Bytes → Option Rows
unfolding entry_at
scan_entries zero block ptr limit start end = none
scan_entries (suc fuel) block ptr limit start end = elim (ltb ptr limit) [
  | false ↦ some []
  | true ↦ entry_at ptr block >>= λ e. elim (lt_bytes end e.0) [
    | true ↦ some []
    | false ↦ scan_entries fuel block e.2 limit start end >>= λ rows.
        some (if lt_bytes e.0 start then rows else (e.0, e.1) ∷ rows)
  ]
]

-- Where the restarts begin, and at which entry the loop starts: `left - 1`, or the first.
unfoldable pub start_of : Bytes → ℕ → Bytes → Option (ℕ × ℕ)
unfolding search_loop back
start_of block block_size key = do
  count_ptr ← back block_size 4
  num_restarts ← word_at 4 count_ptr block
  restarts_ptr ← back count_ptr (num_restarts * 4 % 2 ^ 32)
  left ← search_loop (suc num_restarts) block restarts_ptr key 0 num_restarts
  ptr ← word_at 4 (restarts_ptr + (if ltb 0 left then left - 1 else 0) * 4 % 2 ^ 32) block
  some (restarts_ptr, ptr)

-- `find_in_block`.
unfoldable pub find_in_block : SsTable → ℕ → Bytes → Option (Option Bytes)
unfolding start_of find_entries read_at
find_in_block t offset key =
    if ltb t.data_end ((offset + 8) % 2 ^ 64)
    then some none
    else (word_at 4 4 (read_at offset 8 t.file) >>= λ block_size.
        if ltb t.data_end ((offset + block_size) % 2 ^ 64)
        then some none
        else (let block = read_at offset block_size t.file in
            start_of block block_size key >>= λ s.
            find_entries (suc (length block)) block s.1 s.0 key))

-- `scan_block`.
unfoldable pub scan_block : SsTable → ℕ → Bytes → Bytes → Option Rows
unfolding start_of scan_entries read_at
scan_block t offset start end =
    if ltb t.data_end ((offset + 8) % 2 ^ 64)
    then some []
    else (word_at 4 4 (read_at offset 8 t.file) >>= λ block_size.
        let block = read_at offset block_size t.file in
        start_of block block_size start >>= λ s.
        scan_entries (suc (length block)) block s.1 s.0 start end)

-- `std::upper_bound` over the index: how many entries do not stand behind the key.
unfoldable pub upper_bound : Bytes → List IndexEntry → ℕ
upper_bound key [] = 0
upper_bound key (ie ∷ index) =
    let more = upper_bound key index in if lt_bytes key ie.min_key then 0 else suc more

-- `get`.
unfoldable pub get : SsTable → Bytes → Option (Option Bytes)
unfolding find_in_block upper_bound
get t key = may_contain t.bloom_filter key >>= λ may. if not may then some none else elim t.index [
  | [] ↦ find_in_block t 0 key
  | front ∷ index ↦
      let it = upper_bound key (front ∷ index) in
      if it == 0
      then find_in_block t front.offset key
      else (get_elem? (front ∷ index) (it - 1) >>= λ ie. find_in_block t ie.offset key)
]

-- The loop of `scan` over the blocks.
unfoldable pub scan_blocks : SsTable → List IndexEntry → Bytes → Bytes → Option Rows
unfolding scan_block
scan_blocks t [] start end = some []
scan_blocks t (ie ∷ index) start end = elim (lt_bytes end ie.min_key) [
  | true ↦ some []
  | false ↦ do
    rows ← scan_block t ie.offset start end
    more ← scan_blocks t index start end
    some (rows ++ more)
]

-- A bound of the file that is known and does not fit the range.
unfoldable pub is_outside : Meta → Bytes → Bytes → Bool
is_outside meta start end =
    if (not (length meta.max_key == 0)) && lt_bytes meta.max_key start
    then true
    else (not (length meta.min_key == 0)) && lt_bytes end meta.min_key

-- `scan`.
unfoldable pub scan : SsTable → Bytes → Bytes → Option Rows
unfolding scan_blocks upper_bound is_outside
scan t start end =
    if lt_bytes end start
    then some []
    else if is_outside t.meta start end
    then some []
    else elim t.index [
      | [] ↦ scan_block t 0 start end
      | front ∷ index ↦
          scan_blocks t (drop (upper_bound start (front ∷ index) - 1) (front ∷ index)) start end
    ]
