-- ===== src/BlockCache.antt =====
-- The cache of files: src/block_cache.h. A block is its bytes; the calls hold the mutex for their
-- whole length, so each is one step.
pub mod Recency
pub mod Capacity
use zenith_db.Prelude.{
  ℕ, zero, suc, ◌+◌, ◌-◌, ◌*◌, ◌^◌, ◌%◌, List, [], ◌∷◌, Option, none, some, Bool, true, false, ltb,
  leb, length, if◌then◌else◌,
}
use zenith_db.Bytes.{Bytes, eq_bytes}

-- `lru_`, the most recently used in front. `map_` holds a place in the list for each key of it, so
-- a key is looked up in the list; a block that is not there is nullptr.
abbrev pub Lru : Type 0
Lru = List (Bytes × Bytes)

pub record BlockCache : Type 0 where
  pub lru : Lru
  pub capacity_bytes : ℕ
  pub current_bytes : ℕ

-- `BlockCache()`.
abbrev pub new_block_cache : BlockCache
new_block_cache = record { lru = []; capacity_bytes = 16 * 1024 * 1024; current_bytes = 0 }

-- `map_.find`.
unfoldable pub lookup : Bytes → Lru → Option Bytes
lookup key [] = none
lookup key ((k, block) ∷ lru) = if eq_bytes key k then some block else lookup key lru

-- The list without the first entry of the key, as `splice` leaves it behind the entry it moves.
unfoldable pub without : Bytes → Lru → Lru
without key [] = []
without key ((k, block) ∷ lru) =
    let rest = without key lru in if eq_bytes key k then lru else (k, block) ∷ rest

-- The size of a `std::string`, in a `std::size_t`.
abbrev pub size_sub : ℕ → ℕ → ℕ
size_sub a b = (a + 2 ^ 64 - b) % 2 ^ 64

-- `lru_.back()` and the list that `pop_back` leaves.
unfoldable pub pop_back : Lru → Option ((Bytes × Bytes) × Lru)
pop_back [] = none
pop_back (e ∷ lru) = elim (pop_back lru) [
  | none ↦ some (e, [])
  | some (b, rest) ↦ some (b, e ∷ rest)
]

-- The loop of `evict_if_needed`; each round pops an entry, so the fuel is the length of the list.
unfoldable pub evict_loop : ℕ → BlockCache → BlockCache
evict_loop zero c = c
evict_loop (suc fuel) c =
    if ltb c.capacity_bytes c.current_bytes
    then elim (pop_back c.lru) [
      | none ↦ c
      | some (back, rest) ↦
          evict_loop fuel
            (record c { lru = rest; current_bytes = size_sub c.current_bytes (length back.1) })
    ]
    else c

unfoldable pub evict_if_needed : BlockCache → BlockCache
unfolding evict_loop
evict_if_needed c = evict_loop (length c.lru) c

-- `get`.
unfoldable pub get : BlockCache → Bytes → Option Bytes × BlockCache
unfolding lookup without
get c key = elim (lookup key c.lru) [
  | none ↦ (none, c)
  | some block ↦ (some block, record c { lru = (key, block) ∷ without key c.lru })
]

-- `put`; a null pointer is `none`.
unfoldable pub put : BlockCache → Bytes → Option Bytes → BlockCache
unfolding lookup without evict_if_needed
put c key none = c
put c key (some value) = elim (lookup key c.lru) [
  | some old ↦ evict_if_needed (record c {
    lru = (key, value) ∷ without key c.lru;
    current_bytes = (size_sub c.current_bytes (length old) + length value) % 2 ^ 64;
  })
  | none ↦ evict_if_needed (record c {
    lru = (key, value) ∷ c.lru;
    current_bytes = (c.current_bytes + length value) % 2 ^ 64;
  })
]

-- `set_capacity`.
unfoldable pub set_capacity : BlockCache → ℕ → BlockCache
unfolding evict_if_needed
set_capacity c bytes = evict_if_needed (record c { capacity_bytes = bytes })
