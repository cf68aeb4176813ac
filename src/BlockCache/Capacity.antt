-- ===== src/BlockCache/Capacity.antt =====
-- The cache keeps the most recently used files that fit its capacity.
use zenith_db.Prelude.{
  ℕ, zero, suc, ◌+◌, ◌^◌, ◌≤◌, ◌<◌, [], ◌∷◌, some, ◌≡◌, refl, sym, ap, ◌∙◌, arith, length,
  length-append, ltb, ltb→lt, ltb→le, inl, inr, Bool-cases, Option-cases,
}
use mathlib.Core.Path.{subst}
use zenith_db.Bytes.{Bytes, eq_bytes, eq_bytes_iff}
use zenith_db.BlockCache.{
  BlockCache, Lru, lookup, without, pop_back, evict_loop, evict_if_needed, get, put, set_capacity,
  size_sub, new_block_cache,
}
use zenith_db.BlockCache.Recency.{
  total, fit, Unique, total-fit, total-fit-le, fit-whole, fit-append, total-append, pop_back_lem,
  lookup-without, lookup-without_self, without-Unique, fit-Unique, total-without, without_absent,
}

-- The counter is the bytes of the list, within a machine word, and no file is cached twice.
pub record IsCache (c : BlockCache) : Type 0 where
  pub counted : c.current_bytes ≡ total c.lru
  pub in_word : total c.lru < 2 ^ 64
  pub unique : Unique c.lru

-- The cache of a list whose bytes are counted.
abbrev pub cache_of : ℕ → Lru → BlockCache
cache_of capacity lru = record { lru = lru; capacity_bytes = capacity; current_bytes = total lru }

evict_loop_lem :
    (fuel capacity : ℕ) (lru : Lru)
    → length lru ≤ fuel
    → total lru < 2 ^ 64
    → evict_loop fuel (cache_of capacity lru) ≡ cache_of capacity (fit capacity lru)
unfolding evict_loop
evict_loop_lem zero capacity [] q w = unfold fit in refl
evict_loop_lem zero capacity (e ∷ lru) q w = absurd (omega arith)
evict_loop_lem (suc fuel) capacity [] q w = unfold fit pop_back in ground arith
evict_loop_lem (suc fuel) capacity (e ∷ lru) q w =
    elim (Bool-cases (ltb capacity (total (e ∷ lru)))) [
      | inl over ↦
          let p = pop_back_lem e lru in
          let count = ap length p.parts ∙ length-append p.before (p.last ∷ []) in
          let size : total (e ∷ lru) ≡ total p.before + (length p.last.1 + 0) =
            ap total p.parts ∙ total-append p.before (p.last ∷ []) in
          let left : size_sub (total (e ∷ lru)) (length p.last.1) ≡ total p.before =
            omega (arith, size, w) in
          let rest =
            evict_loop_lem fuel capacity p.before (omega (arith, count, q))
              (omega (arith, size, w)) in
          rw (over, p.returns, left)
            (rest
              ∙ ap (cache_of capacity) (
                  sym (
                    ap (fit capacity) p.parts
                    ∙ fit-append capacity p.before p.last
                        (omega (arith, ltb→lt _ _ over, ap total p.parts)))))
      | inr within ↦
          rw within
            (ap (cache_of capacity) (sym (fit-whole capacity (e ∷ lru) (ltb→le _ _ within))))
    ]

-- What an eviction leaves of a cache that holds `lru`: the front part that fits, counted.
pub record Evicted (capacity : ℕ) (lru : Lru) (c : BlockCache) : Type 0 where
  pub kept : c.lru ≡ fit capacity lru
  pub same_capacity : c.capacity_bytes ≡ capacity
  pub bounded : c.current_bytes ≤ capacity
  pub valid : IsCache c

evict_if_needed_lem :
    (c : BlockCache)
    → c.current_bytes ≡ total c.lru
    → total c.lru < 2 ^ 64
    → Unique c.lru
    → Evicted c.capacity_bytes c.lru (evict_if_needed c)
unfolding evict_if_needed
evict_if_needed_lem c e w u =
    let final =
      ap (λ n. evict_loop (length c.lru) (record c { current_bytes = n })) e
      ∙ evict_loop_lem (length c.lru) c.capacity_bytes c.lru (omega arith) w in
    subst (Evicted c.capacity_bytes c.lru) (sym final) (record {
      kept = refl;
      same_capacity = refl;
      bounded = total-fit c.capacity_bytes c.lru;
      valid = record {
        counted = refl;
        in_word = omega (arith, total-fit-le c.capacity_bytes c.lru);
        unique = fit-Unique c.capacity_bytes c.lru u;
      };
    })

pub new_block_cache-IsCache : IsCache new_block_cache
new_block_cache-IsCache = record { counted = refl; in_word = omega arith; unique = tt }

module _ (c : BlockCache) (h : IsCache c) where
  -- A valid cache stays valid under `put`, and then holds the new file in front of the others, of
  -- which the least recently used are dropped until all that is left fits; no more are dropped
  -- than have to be. The bytes with the new file stay below 2^64.
  pub put_fits :
      (key value : Bytes)
      → total c.lru + length value < 2 ^ 64
      → Evicted c.capacity_bytes ((key, value) ∷ without key c.lru) (put c key (some value))
  unfolding put
  put_fits key value w = elim (Option-cases (lookup key c.lru)) [
    | inl absent ↦
        let same = without_absent key c.lru absent in
        rw (absent, same, put)
          (evict_if_needed_lem _ (omega (arith, h.counted, w)) (omega (arith, w))
            (absent, h.unique))
    | inr (old, present) ↦
        let size = total-without key old c.lru present in
        rw (present, put)
          (evict_if_needed_lem _ (omega (arith, h.counted, w, size)) (omega (arith, w, size))
            (lookup-without_self key c.lru h.unique, without-Unique key c.lru h.unique))
  ]

  -- Of a valid cache, `set_capacity` drops the least recently used files until the rest fits, and
  -- no more, and leaves the cache valid.
  pub set_capacity_fits : (bytes : ℕ) → Evicted bytes c.lru (set_capacity c bytes)
  unfolding set_capacity
  set_capacity_fits bytes =
      evict_if_needed_lem (record c { capacity_bytes = bytes }) h.counted h.in_word h.unique

  moved :
      (key k old : Bytes)
      → lookup key c.lru ≡ some old
      → lookup k ((key, old) ∷ without key c.lru) ≡ lookup k c.lru
  unfolding lookup
  moved key k old present = elim (Bool-cases (eq_bytes k key)) [
    | inl same ↦ rw (same, (eq_bytes_iff k key).0 same) (sym present)
    | inr other ↦ rw other (lookup-without key k c.lru other)
  ]

  -- Of a valid cache, `get` returns the file of the key, leaves the cache valid and of the same
  -- size, and changes for no key which file the cache holds.
  pub get_keeps :
      (key : Bytes)
      → ((get c key).0 ≡ lookup key c.lru)
        × IsCache (get c key).1
        × ((get c key).1.current_bytes ≡ c.current_bytes)
        × ((k : Bytes) → lookup k (get c key).1.lru ≡ lookup k c.lru)
  unfolding get
  get_keeps key = elim (Option-cases (lookup key c.lru)) [
    | inl absent ↦ rw (absent, get) (refl, h, refl, λ k. refl)
    | inr (old, present) ↦
        let size = total-without key old c.lru present in
        rw (present, get)
          (
            refl,
            record {
              counted = omega (arith, h.counted, size);
              in_word = omega (arith, h.in_word, size);
              unique = (lookup-without_self key c.lru h.unique, without-Unique key c.lru h.unique);
            },
            refl,
            λ k. moved key k old present,
          )
  ]
