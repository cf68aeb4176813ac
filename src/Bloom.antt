-- ===== src/Bloom.antt =====
-- The Bloom filter of a table file: `bloom_hash_core`, `bloom_hash` and `may_contain` of
-- src/sstable.cpp, and the part of `create` that fills the filter. Words are numbers below 2^64.
pub mod Bits
pub mod Filter
use zenith_db.Prelude.{
  ℕ, zero, suc, ◌+◌, ◌-◌, ◌*◌, ◌^◌, ◌%◌, ◌/◌, max, List, [], ◌∷◌, Option, none, some, Bool, true,
  false, ◌==◌, length, replicate, get_elem?, if◌then◌else◌,
}
use zenith_db.Bytes.{Bytes}

-- `a ^ b` on numbers of `width` bits.
unfoldable pub xor_bits : ℕ → ℕ → ℕ → ℕ
xor_bits zero a b = 0
xor_bits (suc width) a b = (a + b) % 2 + 2 * xor_bits width (a / 2) (b / 2)

-- `b | (1 << k)`.
unfoldable pub or_bit : ℕ → ℕ → ℕ
or_bit zero b = b / 2 * 2 + 1
or_bit (suc k) b = b % 2 + 2 * or_bit k (b / 2)

-- `(b & (1 << k)) != 0`.
unfoldable pub bit_of : ℕ → ℕ → Bool
bit_of zero b = b % 2 == 1
bit_of (suc k) b = bit_of k (b / 2)

abbrev pub bloom_bits_per_key : ℕ
bloom_bits_per_key = 10

abbrev pub bloom_hashes : ℕ
bloom_hashes = 7

-- The loop of `bloom_hash_core`.
unfoldable pub hash_loop : Bytes → ℕ → ℕ
unfolding xor_bits
hash_loop [] h = h
hash_loop (c ∷ k) h = hash_loop k (xor_bits 64 h c * 1099511628211 % 2 ^ 64)

unfoldable pub bloom_hash_core : Bytes → ℕ
unfolding hash_loop
bloom_hash_core k = hash_loop k 1469598103934665603

unfoldable pub bloom_hash : Bytes → ℕ → ℕ
unfolding bloom_hash_core
bloom_hash k i = (bloom_hash_core k + i * 11400714819323198485 % 2 ^ 64) % 2 ^ 64

-- The loop of `may_contain`, from hash `i` on; `none` is a read outside the filter.
unfoldable pub may_contain_loop : ℕ → ℕ → ℕ → Bytes → Bytes → Option Bool
unfolding bloom_hash bit_of
may_contain_loop zero i bloom_bits filter key = some true
may_contain_loop (suc n) i bloom_bits filter key =
    let rest = may_contain_loop n (i + 1) bloom_bits filter key in
    let bit = bloom_hash key i % bloom_bits in
    elim (get_elem? filter (bit / 8)) [
      | none ↦ none
      | some byte ↦ if bit_of (bit % 8) byte then rest else some false
    ]

-- `may_contain`.
unfoldable pub may_contain : Bytes → Bytes → Option Bool
unfolding may_contain_loop
may_contain [] key = some true
may_contain (b ∷ bs) key =
    may_contain_loop bloom_hashes 0 (length (b ∷ bs) * 8 % 2 ^ 64) (b ∷ bs) key

-- `bloom[i] |= (1 << k)`; outside the filter nothing is written.
unfoldable pub set_bit : ℕ → ℕ → Bytes → Bytes
unfolding or_bit
set_bit i k [] = []
set_bit zero k (b ∷ bs) = or_bit k b ∷ bs
set_bit (suc i) k (b ∷ bs) = b ∷ set_bit i k bs

-- The loop over the hashes of a key, from hash `i` on.
unfoldable pub add_hashes : ℕ → ℕ → ℕ → Bytes → Bytes → Bytes
unfolding set_bit bloom_hash
add_hashes zero i bloom_bits key bloom = bloom
add_hashes (suc n) i bloom_bits key bloom =
    let bit = bloom_hash key i % bloom_bits in
    add_hashes n (i + 1) bloom_bits key (set_bit (bit / 8) (bit % 8) bloom)

-- The loop over the entries.
unfoldable pub add_entries : ℕ → List (Bytes × Bytes) → Bytes → Bytes
unfolding add_hashes
add_entries bloom_bits [] bloom = bloom
add_entries bloom_bits (kv ∷ entries) bloom =
    add_entries bloom_bits entries (add_hashes bloom_hashes 0 bloom_bits kv.0 bloom)

-- The filter that `create` writes.
unfoldable pub bloom_of : List (Bytes × Bytes) → Bytes
unfolding add_entries
bloom_of entries =
    let raw_bits = max (length entries * bloom_bits_per_key % 2 ^ 64) 8 in
    let bloom_bytes = (raw_bits + 7) % 2 ^ 64 / 8 in
    let bloom_bits = bloom_bytes * 8 % 2 ^ 64 in
    add_entries bloom_bits entries (replicate bloom_bytes 0)
