-- ===== src/Bloom/Filter.antt =====
-- The filter has no false negatives.
use zenith_db.Prelude.{
  ℕ, zero, suc, ◌+◌, ◌*◌, ◌^◌, ◌%◌, ◌/◌, ◌<◌, max, List, [], ◌∷◌, some, true, ◌≡◌, refl, sym, ◌∙◌,
  arith, length, replicate, All, All-map, ap, get_elem?, Bool, false, none, Bool-cases, inl, inr,
}
use mathlib.Core.Path.{subst}
use native.Mathlib.Nat.{mod-lt}
use zenith_db.Bytes.{Bytes, eq_bytes, eq_bytes_iff}
use zenith_db.OrdMap.{find}
use zenith_db.Bloom.{
  set_bit, bit_of, bloom_hash, bloom_hashes, bloom_bits_per_key, may_contain_loop, may_contain,
  add_hashes, add_entries, bloom_of,
}
use zenith_db.Bloom.Bits.{lit, lit-set_bit, set_bit-keeps, length-set_bit, lit_byte}

-- The bits of the hashes `i` to `i + n` of the key are set.
abbrev pub AllLit : ℕ → ℕ → ℕ → Bytes → Bytes → Type 0
AllLit zero i bits key bloom = Unit
AllLit (suc n) i bits key bloom =
    (lit bloom (bloom_hash key i % bits / 8) (bloom_hash key i % bits % 8) ≡ true)
    × AllLit n (i + 1) bits key bloom

length-add_hashes :
    (n i bits : ℕ) (key bloom : Bytes) → length (add_hashes n i bits key bloom) ≡ length bloom
unfolding add_hashes
length-add_hashes zero i bits key bloom = refl
length-add_hashes (suc n) i bits key bloom =
    let bit = bloom_hash key i % bits in
    length-add_hashes n (i + 1) bits key (set_bit (bit / 8) (bit % 8) bloom)
    ∙ length-set_bit (bit / 8) (bit % 8) bloom

length-add_entries :
    (bits : ℕ) (entries : List (Bytes × Bytes)) (bloom : Bytes)
    → length (add_entries bits entries bloom) ≡ length bloom
unfolding add_entries
length-add_entries bits [] bloom = refl
length-add_entries bits (e ∷ entries) bloom =
    length-add_entries bits entries (add_hashes bloom_hashes 0 bits e.0 bloom)
    ∙ length-add_hashes bloom_hashes 0 bits e.0 bloom

add_hashes-keeps :
    (n i bits : ℕ) (key bloom : Bytes) (j l : ℕ)
    → lit bloom j l ≡ true
    → lit (add_hashes n i bits key bloom) j l ≡ true
unfolding add_hashes
add_hashes-keeps zero i bits key bloom j l h = h
add_hashes-keeps (suc n) i bits key bloom j l h =
    let bit = bloom_hash key i % bits in
    add_hashes-keeps n (i + 1) bits key (set_bit (bit / 8) (bit % 8) bloom) j l
      (set_bit-keeps (bit / 8) (bit % 8) j l bloom h)

add_entries-keeps :
    (bits : ℕ) (entries : List (Bytes × Bytes)) (bloom : Bytes) (j l : ℕ)
    → lit bloom j l ≡ true
    → lit (add_entries bits entries bloom) j l ≡ true
unfolding add_entries
add_entries-keeps bits [] bloom j l h = h
add_entries-keeps bits (e ∷ entries) bloom j l h =
    add_entries-keeps bits entries (add_hashes bloom_hashes 0 bits e.0 bloom) j l
      (add_hashes-keeps bloom_hashes 0 bits e.0 bloom j l h)

AllLit-add_entries :
    (n i bits : ℕ) (key : Bytes) (entries : List (Bytes × Bytes)) (bloom : Bytes)
    → AllLit n i bits key bloom
    → AllLit n i bits key (add_entries bits entries bloom)
AllLit-add_entries zero i bits key entries bloom h = tt
AllLit-add_entries (suc n) i bits key entries bloom h = (
  add_entries-keeps bits entries bloom (bloom_hash key i % bits / 8) (bloom_hash key i % bits % 8)
      h.0,
  AllLit-add_entries n (i + 1) bits key entries bloom h.1,
)

-- Where the bits of the filter are counted right, the hashes of a key that was added are set.
add_hashes-AllLit :
    (n i bits : ℕ) (key bloom : Bytes)
    → bits ≡ length bloom * 8
    → 0 < bits
    → AllLit n i bits key (add_hashes n i bits key bloom)
unfolding add_hashes
add_hashes-AllLit zero i bits key bloom e pos = tt
add_hashes-AllLit (suc n) i bits key bloom e pos =
    let bit = bloom_hash key i % bits in
    let here : bit / 8 < length bloom = omega (arith, mod-lt (bloom_hash key i) pos, e) in
    let next = set_bit (bit / 8) (bit % 8) bloom in
    (
      add_hashes-keeps n (i + 1) bits key next (bit / 8) (bit % 8)
          (lit-set_bit (bit / 8) (bit % 8) bloom here),
      add_hashes-AllLit n (i + 1) bits key next
          (e ∙ ap (λ x. x * 8) (sym (length-set_bit (bit / 8) (bit % 8) bloom))) pos,
    )

may_contain_loop_lem :
    (n i bits : ℕ) (filter key : Bytes)
    → AllLit n i bits key filter
    → may_contain_loop n i bits filter key ≡ some true
unfolding may_contain_loop
may_contain_loop_lem zero i bits filter key h = refl
may_contain_loop_lem (suc n) i bits filter key h =
    let r = lit_byte filter (bloom_hash key i % bits / 8) (bloom_hash key i % bits % 8) h.0 in
    rw (r.found, r.set, may_contain_loop) (may_contain_loop_lem n (i + 1) bits filter key h.1)

add_entries-AllLit :
    (bits : ℕ) (entries : List (Bytes × Bytes)) (bloom : Bytes)
    → bits ≡ length bloom * 8
    → 0 < bits
    → All
        (λ (kv : Bytes × Bytes). AllLit bloom_hashes 0 bits kv.0 (add_entries bits entries bloom))
        entries
unfolding add_entries
add_entries-AllLit bits [] bloom e pos = tt
add_entries-AllLit bits (kv ∷ entries) bloom e pos =
    let next = add_hashes bloom_hashes 0 bits kv.0 bloom in
    (
      AllLit-add_entries bloom_hashes 0 bits kv.0 entries next
          (add_hashes-AllLit bloom_hashes 0 bits kv.0 bloom e pos),
      add_entries-AllLit bits entries next
          (e ∙ ap (λ x. x * 8) (sym (length-add_hashes bloom_hashes 0 bits kv.0 bloom))) pos,
    )

may_contain_lem :
    (filter key : Bytes)
    → 0 < length filter
    → length filter * 8 < 2 ^ 64
    → AllLit bloom_hashes 0 (length filter * 8) key filter
    → may_contain filter key ≡ some true
unfolding may_contain
may_contain_lem [] key pos w h = refl
may_contain_lem (b ∷ bs) key pos w h =
    let e : length (b ∷ bs) * 8 % 2 ^ 64 ≡ length (b ∷ bs) * 8 = omega arith in
    rw e (may_contain_loop_lem bloom_hashes 0 (length (b ∷ bs) * 8) (b ∷ bs) key h)

get_elem?-inside : (xs : Bytes) (i : ℕ) → i < length xs → (b : ℕ) × (get_elem? xs i ≡ some b)
get_elem?-inside [] i h = absurd (omega arith)
get_elem?-inside (x ∷ xs) zero h = (x, refl)
get_elem?-inside (x ∷ xs) (suc i) h = get_elem?-inside xs i (omega arith)

-- Whatever the key, no read falls outside of a filter whose bits are counted right.
may_contain_loop-total :
    (n i bits : ℕ) (filter key : Bytes)
    → bits ≡ length filter * 8
    → 0 < bits
    → (may : Bool) × (may_contain_loop n i bits filter key ≡ some may)
unfolding may_contain_loop
may_contain_loop-total zero i bits filter key e pos = (true, refl)
may_contain_loop-total (suc n) i bits filter key e pos =
    let bit = bloom_hash key i % bits in
    let inside : bit / 8 < length filter = omega (arith, mod-lt (bloom_hash key i) pos, e) in
    let (byte, found) = get_elem?-inside filter (bit / 8) inside in
    let (may, rest) = may_contain_loop-total n (i + 1) bits filter key e pos in
    elim (Bool-cases (bit_of (bit % 8) byte)) [
      | inl set ↦ (may, rw (found, set, may_contain_loop) rest)
      | inr clear ↦ (false, rw (found, clear, may_contain_loop) refl)
    ]

may_contain-total :
    (filter key : Bytes)
    → length filter * 8 < 2 ^ 64
    → (may : Bool) × (may_contain filter key ≡ some may)
unfolding may_contain
may_contain-total [] key w = (true, refl)
may_contain-total (b ∷ bs) key w =
    let e : length (b ∷ bs) * 8 % 2 ^ 64 ≡ length (b ∷ bs) * 8 = omega arith in
    rw e
      (may_contain_loop-total bloom_hashes 0 (length (b ∷ bs) * 8) (b ∷ bs) key refl (omega arith))

length-replicate : (n b : ℕ) → length (replicate n b) ≡ n
length-replicate zero b = refl
length-replicate (suc n) b = ap suc (length-replicate n b)

-- The filter that `create` writes for its entries lets every key of them through, and no read
-- falls outside of it. The bits for all entries, and a byte more, are counted in a machine word.
pub may_contain-bloom_of :
    (entries : List (Bytes × Bytes))
    → length entries * 10 + 8 < 2 ^ 64
    → All (λ (kv : Bytes × Bytes). may_contain (bloom_of entries) kv.0 ≡ some true) entries
unfolding bloom_of
may_contain-bloom_of entries w =
    let raw_bits = max (length entries * bloom_bits_per_key % 2 ^ 64) 8 in
    let bytes = (raw_bits + 7) % 2 ^ 64 / 8 in
    let small : bytes * 8 < 2 ^ 64 = omega arith in
    let some_bytes : 0 < bytes = omega arith in
    let bits_eq : bytes * 8 % 2 ^ 64 ≡ bytes * 8 = omega arith in
    let size =
      length-add_entries (bytes * 8) entries (replicate bytes 0) ∙ length-replicate bytes 0 in
    let lit =
      add_entries-AllLit (bytes * 8) entries (replicate bytes 0)
        (ap (λ x. x * 8) (sym (length-replicate bytes 0))) (omega arith) in
    let filter = add_entries (bytes * 8) entries (replicate bytes 0) in
    rw bits_eq (
      All-map (λ (kv : Bytes × Bytes). AllLit bloom_hashes 0 (bytes * 8) kv.0 filter)
        (λ (kv : Bytes × Bytes). may_contain filter kv.0 ≡ some true) entries
        (λ kv h.
          may_contain_lem filter kv.0 (omega (arith, size)) (omega (arith, size, small))
            (subst (λ n. AllLit bloom_hashes 0 (n * 8) kv.0 filter) (sym size) h))
        lit)

-- The filter has at least a byte, and its bits are few enough for a machine word.
pub length-bloom_of :
    (entries : List (Bytes × Bytes))
    → length entries * 10 + 8 < 2 ^ 64
    → (0 < length (bloom_of entries)) × (length (bloom_of entries) * 8 < 2 ^ 64)
unfolding bloom_of
length-bloom_of entries w =
    let raw_bits = max (length entries * bloom_bits_per_key % 2 ^ 64) 8 in
    let bytes = (raw_bits + 7) % 2 ^ 64 / 8 in
    let bloom_bits = bytes * 8 % 2 ^ 64 in
    let size =
      length-add_entries bloom_bits entries (replicate bytes 0) ∙ length-replicate bytes 0 in
    (omega (arith, size), omega (arith, size))

-- Entries whose keys a filter lets through hold no key that it does not let through.
find-filtered :
    (filter key : Bytes) (entries : List (Bytes × Bytes))
    → may_contain filter key ≡ some false
    → All (λ (kv : Bytes × Bytes). may_contain filter kv.0 ≡ some true) entries
    → find key entries ≡ none
unfolding find
find-filtered filter key [] out h = refl
find-filtered filter key (e ∷ entries) out h = elim (Bool-cases (eq_bytes key e.0)) [
  | inl same ↦ absurd (grind (arith, out, h.0, (eq_bytes_iff key e.0).0 same))
  | inr other ↦ ground (arith, other, find-filtered filter key entries out h.1)
]

-- A key that the filter of entries does not let through is in none of them.
pub find-bloom_of :
    (entries : List (Bytes × Bytes)) (key : Bytes)
    → length entries * 10 + 8 < 2 ^ 64
    → may_contain (bloom_of entries) key ≡ some false
    → find key entries ≡ none
find-bloom_of entries key w out =
    find-filtered (bloom_of entries) key entries out (may_contain-bloom_of entries w)

-- The filter of entries answers for each key.
pub bloom_of-total :
    (entries : List (Bytes × Bytes)) (key : Bytes)
    → length entries * 10 + 8 < 2 ^ 64
    → (may : Bool) × (may_contain (bloom_of entries) key ≡ some may)
bloom_of-total entries key w =
    may_contain-total (bloom_of entries) key (length-bloom_of entries w).1
