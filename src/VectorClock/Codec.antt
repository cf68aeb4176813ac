-- ===== src/VectorClock/Codec.antt =====
-- `deserialize` after `serialize` gives the clock back.
use zenith_db.Prelude.{
  ℕ, suc, ◌+◌, ◌^◌, ◌<◌, [], ◌∷◌, ◌++◌, ◌≡◌, refl, sym, ◌∙◌, arith, length, All, All-append,
  append_assoc, append-nil, length-append, take-append, drop-append, le→ltb,
}
use zenith_db.Bytes.{Bytes, Before}
use zenith_db.Bytes.Words.{le_bytes, read_word, length_word, drop-le_bytes}
use zenith_db.OrdMap.{insert, AllAfter, IsSorted}
use zenith_db.OrdMap.Laws.{insert_last}
use zenith_db.VectorClock.{
  VectorClock, serialize_entries, serialize_clock, read_entries, deserialize_clock,
}

-- An entry whose node and counter fit the widths of the format.
abbrev pub EntryFits : Bytes × ℕ → Type 0
EntryFits e = (length e.0 < 2 ^ 32) × (e.1 < 2 ^ 64)

-- A clock that the format can hold.
pub record Fits (c : VectorClock) : Type 0 where
  pub sorted : IsSorted c
  pub size : length c < 2 ^ 32
  pub entries : All EntryFits c

-- One round of the loop on an entry that was written.
read_entry :
    (i : ℕ) (node : Bytes) (count : ℕ) (rest : Bytes) (vc : VectorClock)
    → EntryFits (node, count)
    → read_entries (suc i) (le_bytes 4 (length node) ++ (node ++ (le_bytes 8 count ++ rest))) vc
      ≡ read_entries i rest (insert node count vc)
unfolding read_entries
read_entry i node count rest vc h =
    let tail = le_bytes 8 count ++ rest in
    rw (
      read_word 4 (length node) (node ++ tail) h.0,
      drop-le_bytes 4 (length node) (node ++ tail),
      take-append (length node) node tail refl,
      drop-append (length node) node tail refl,
      read_word 8 count rest h.1,
      drop-le_bytes 8 count rest,
      le→ltb (length (le_bytes 4 (length node) ++ (node ++ tail))) 4
          (omega (arith, length_word 4 (length node) (node ++ tail))),
      le→ltb (length (node ++ tail)) (length node + 8)
          (omega (arith, length-append node tail, length_word 8 count rest)),
    )

-- The loop adds the entries in turn.
abbrev insert_all : VectorClock → VectorClock → VectorClock
insert_all vc [] = vc
insert_all vc ((node, count) ∷ c) = insert_all (insert node count vc) c

read_entries-serialize :
    (c vc : VectorClock) (rest : Bytes)
    → All EntryFits c
    → read_entries (length c) (serialize_entries c ++ rest) vc ≡ insert_all vc c
unfolding serialize_entries
read_entries-serialize [] vc rest h = unfold read_entries in refl
read_entries-serialize ((node, count) ∷ c) vc rest h =
    rw
      (
        append_assoc (le_bytes 4 (length node)) (node ++ (le_bytes 8 count ++ serialize_entries c))
            rest,
        append_assoc node (le_bytes 8 count ++ serialize_entries c) rest,
        append_assoc (le_bytes 8 count) (serialize_entries c) rest,
        read_entry (length c) node count (serialize_entries c ++ rest) vc h.0,
      )
      (read_entries-serialize c (insert node count vc) rest h.1)

-- All keys of the first map stand in front of those of the second.
abbrev Apart : VectorClock → VectorClock → Type 0
Apart vc c = All (λ (e : Bytes × ℕ). All (λ (d : Bytes × ℕ). Before d.0 e.0) vc) c

Apart-append :
    (k : Bytes) (n : ℕ) (vc c : VectorClock)
    → AllAfter k c
    → Apart vc c
    → Apart (vc ++ (k, n) ∷ []) c
Apart-append k n vc [] s a = tt
Apart-append k n vc (e ∷ c) s a = (
  All-append (λ (d : Bytes × ℕ). Before d.0 e.0) vc ((k, n) ∷ []) a.0 (s.0, tt),
  Apart-append k n vc c s.1 a.1,
)

insert_all-append : (vc c : VectorClock) → IsSorted c → Apart vc c → insert_all vc c ≡ vc ++ c
insert_all-append vc [] s a = sym (append-nil vc)
insert_all-append vc ((k, n) ∷ c) s a = rw (insert_last k n vc a.0) (
    insert_all-append (vc ++ (k, n) ∷ []) c s.1 (Apart-append k n vc c s.0 a.1)
    ∙ append_assoc vc ((k, n) ∷ []) c)

Apart-nil : (c : VectorClock) → Apart [] c
Apart-nil [] = tt
Apart-nil (e ∷ c) = (tt, Apart-nil c)

-- Every sorted clock whose sizes and counters fit the words of the format is read back as it was
-- written, whatever bytes follow.
pub deserialize_clock-serialize_clock :
    (c : VectorClock) (rest : Bytes) → Fits c → deserialize_clock (serialize_clock c ++ rest) ≡ c
unfolding deserialize_clock serialize_clock
deserialize_clock-serialize_clock c rest h =
    let tail = serialize_entries c ++ rest in
    rw
      (
        append_assoc (le_bytes 4 (length c)) (serialize_entries c) rest,
        le→ltb (length (le_bytes 4 (length c) ++ tail)) 4
            (omega (arith, length_word 4 (length c) tail)),
        read_word 4 (length c) tail h.size,
        drop-le_bytes 4 (length c) tail,
        read_entries-serialize c [] rest h.entries,
      )
      (insert_all-append [] c h.sorted (Apart-nil c))
