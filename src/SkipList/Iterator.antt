-- ===== src/SkipList/Iterator.antt =====
-- `SkipList::Iterator`: a list and the address of a node, or null.
use zenith_db.Prelude.{
  ℕ, zero, suc, ◌-◌, Option, none, some, Bool, true, false, ◌>>=◌, ◌==◌, if◌then◌else◌,
}
use zenith_db.Bytes.{Bytes}
use zenith_db.SkipList.{SkipList, Heap, next_of, key_is_after_node, find_greater_or_equal}

-- The loop of `FindLessThan`, on fuel: right while the next key is less, else down.
unfoldable pub less_loop : ℕ → Heap → Bytes → ℕ → ℕ → Option ℕ
less_loop zero heap key x level = none
less_loop (suc fuel) heap key x level = elim (next_of heap x level) [
  | none ↦ none
  | some next ↦ elim (key_is_after_node heap key next) [
    | none ↦ none
    | some true ↦ elim next [ none ↦ none | some y ↦ less_loop fuel heap key y level ]
    | some false ↦ elim level [ zero ↦ some x | suc l ↦ less_loop fuel heap key x l ]
  ]
]

unfoldable pub find_less_than : ℕ → SkipList → Bytes → Option ℕ
unfolding less_loop
find_less_than fuel s key = less_loop fuel s.heap key s.head (s.max_height - 1)

-- The loop of `FindLast`, on fuel.
unfoldable pub last_loop : ℕ → Heap → ℕ → ℕ → Option ℕ
last_loop zero heap x level = none
last_loop (suc fuel) heap x level = elim (next_of heap x level) [
  | none ↦ none
  | some none ↦ elim level [ zero ↦ some x | suc l ↦ last_loop fuel heap x l ]
  | some (some y) ↦ last_loop fuel heap y level
]

unfoldable pub find_last : ℕ → SkipList → Option ℕ
unfolding last_loop
find_last fuel s = last_loop fuel s.heap s.head (s.max_height - 1)

-- Null where the head was found.
abbrev not_head : SkipList → ℕ → Option ℕ
not_head s x = if x == s.head then none else some x

-- `Seek`, `SeekToFirst` and `SeekToLast`: where the iterator stands after the call.
unfoldable pub seek : ℕ → SkipList → Bytes → Option (Option ℕ)
unfolding find_greater_or_equal
seek fuel s target = do (x, _) ← find_greater_or_equal fuel s target; some x

unfoldable pub seek_to_first : SkipList → Option (Option ℕ)
seek_to_first s = next_of s.heap s.head 0

unfoldable pub seek_to_last : ℕ → SkipList → Option (Option ℕ)
unfolding find_last
seek_to_last fuel s = do x ← find_last fuel s; some (not_head s x)

-- `Next` and `Prev` of an iterator that is valid.
unfoldable pub next : SkipList → ℕ → Option (Option ℕ)
next s x = next_of s.heap x 0

unfoldable pub prev : ℕ → SkipList → ℕ → Option (Option ℕ)
unfolding find_less_than
prev fuel s x = do node ← s.heap x; y ← find_less_than fuel s node.key; some (not_head s y)

-- `Valid`, and `key` and `value` of where the iterator stands, which has to be valid.
unfoldable pub valid : Option ℕ → Bool
valid none = false
valid (some x) = true

unfoldable pub key_at : Heap → Option ℕ → Option Bytes
key_at heap node = do x ← node; n ← heap x; some n.key

unfoldable pub value_at : Heap → Option ℕ → Option Bytes
value_at heap node = do x ← node; n ← heap x; some n.value
