-- ===== src/Tests/Caches.antt =====
-- A cache of 10 bytes with three files, and the filter of two keys.
use zenith_db.Prelude.{List, [], ◌∷◌, some, true, ◌≡◌, refl, arith, All}
use zenith_db.Bytes.{Bytes, cmp}
use zenith_db.BlockCache
use zenith_db.BlockCache.{BlockCache, lookup, without}
use zenith_db.BlockCache.Capacity
use zenith_db.BlockCache.Capacity.{IsCache, Evicted}
use zenith_db.Bloom.{may_contain, bloom_of}
use zenith_db.Bloom.Filter

abbrev file_a : Bytes
file_a = 97 ∷ []

abbrev file_b : Bytes
file_b = 98 ∷ []

abbrev file_c : Bytes
file_c = 99 ∷ []

abbrev cache : BlockCache
cache = record {
  lru = (file_a, 1 ∷ 2 ∷ 3 ∷ []) ∷ (file_b, 4 ∷ 5 ∷ []) ∷ (file_c, 6 ∷ 7 ∷ 8 ∷ 9 ∷ []) ∷ [];
  capacity_bytes = 10;
  current_bytes = 9;
}

valid : IsCache cache
unfolding lookup cmp
valid = record { counted = refl; in_word = omega arith; unique = (refl, (refl, (refl, tt))) }

-- A file of 5 bytes drives the last one out.
put_runs :
    (BlockCache.put cache file_b (some (1 ∷ 1 ∷ 1 ∷ 1 ∷ 1 ∷ []))).lru
    ≡ (file_b, 1 ∷ 1 ∷ 1 ∷ 1 ∷ 1 ∷ []) ∷ (file_a, 1 ∷ 2 ∷ 3 ∷ []) ∷ []
unfolding BlockCache.put cmp BlockCache.pop_back
put_runs = refl

put_fits_example :
    Evicted 10
      ((file_b, 1 ∷ 1 ∷ 1 ∷ 1 ∷ 1 ∷ []) ∷ without file_b cache.lru)
      (BlockCache.put cache file_b (some (1 ∷ 1 ∷ 1 ∷ 1 ∷ 1 ∷ [])))
put_fits_example = Capacity.put_fits cache valid file_b (1 ∷ 1 ∷ 1 ∷ 1 ∷ 1 ∷ []) (omega arith)

set_capacity_fits_example : Evicted 5 cache.lru (BlockCache.set_capacity cache 5)
set_capacity_fits_example = Capacity.set_capacity_fits cache valid 5

abbrev two_rows : List (Bytes × Bytes)
two_rows = (file_a, 1 ∷ []) ∷ (file_b, 2 ∷ []) ∷ []

may_contain-bloom_of_example :
    All (λ (kv : Bytes × Bytes). may_contain (bloom_of two_rows) kv.0 ≡ some true) two_rows
may_contain-bloom_of_example = Filter.may_contain-bloom_of two_rows (omega arith)
