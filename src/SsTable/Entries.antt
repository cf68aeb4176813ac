-- ===== src/SsTable/Entries.antt =====
-- The entries of a block, one behind the other, and the loops that walk over them.
use zenith_db.Prelude.{
  ℕ, zero, suc, ◌+◌, ◌^◌, ◌<◌, [], ◌∷◌, ◌++◌, some, ◌≡◌, inl, inr, refl, sym, ap, ◌∙◌, arith,
  length, length-append, append_assoc, All, le→ltb, lt→ltb, Bool-cases,
}
use zenith_db.Bytes.{Bytes, lt_bytes, cmp_swap}
use zenith_db.Bytes.Words.{le_bytes, length-le_bytes}
use zenith_db.Bytes.Slices.{slice, word_at, At, At-step, At-eq, At-slice, At-word}
use zenith_db.OrdMap.{find, IsSorted}
use zenith_db.OrdMap.Laws.{find-AllAfter, AllAfter-trans}
use zenith_db.OrdMap.Window.{between, past_end, All-after}
use zenith_db.SsTable.{Rows}
use zenith_db.SsTable.Create.{entry_bytes}
use zenith_db.SsTable.Read.{entry_at, find_entries, scan_entries}

abbrev pub rows_bytes : Rows → Bytes
rows_bytes [] = []
rows_bytes (kv ∷ rows) = entry_bytes kv ++ rows_bytes rows

-- Key and value have lengths that fit a word.
abbrev pub RowFits : Bytes × Bytes → Type 0
RowFits kv = (length kv.0 < 2 ^ 32) × (length kv.1 < 2 ^ 32)

pub rows_bytes-append : (a b : Rows) → rows_bytes (a ++ b) ≡ rows_bytes a ++ rows_bytes b
rows_bytes-append [] b = refl
rows_bytes-append (kv ∷ a) b =
    ap (λ x. entry_bytes kv ++ x) (rows_bytes-append a b)
    ∙ sym (append_assoc (entry_bytes kv) (rows_bytes a) (rows_bytes b))

pub length-entry_bytes :
    (kv : Bytes × Bytes) → length (entry_bytes kv) ≡ 8 + length kv.0 + length kv.1
unfolding entry_bytes
length-entry_bytes kv = omega (
  arith,
  length-append (le_bytes 4 (length kv.0)) (kv.0 ++ (le_bytes 4 (length kv.1) ++ kv.1)),
  length-append kv.0 (le_bytes 4 (length kv.1) ++ kv.1),
  length-append (le_bytes 4 (length kv.1)) kv.1,
  length-le_bytes 4 (length kv.0),
  length-le_bytes 4 (length kv.1),
)

entry_bytes-append :
    (kv : Bytes × Bytes) (rest : Bytes)
    → entry_bytes kv ++ rest
      ≡ le_bytes 4 (length kv.0) ++ (kv.0 ++ (le_bytes 4 (length kv.1) ++ (kv.1 ++ rest)))
unfolding entry_bytes
entry_bytes-append kv rest =
    append_assoc (le_bytes 4 (length kv.0)) (kv.0 ++ (le_bytes 4 (length kv.1) ++ kv.1)) rest
    ∙ ap (λ x. le_bytes 4 (length kv.0) ++ x)
        (append_assoc kv.0 (le_bytes 4 (length kv.1) ++ kv.1) rest
          ∙ ap (λ x. kv.0 ++ x) (append_assoc (le_bytes 4 (length kv.1)) kv.1 rest))

-- The length and the key of the entry behind a pointer.
pub record KeyRead (block : Bytes) (ptr : ℕ) (key : Bytes) : Type 0 where
  pub klen : word_at 4 ptr block ≡ some (length key)
  pub read_key : slice (ptr + 4) (length key) block ≡ some key

module _ (block : Bytes) (ptr : ℕ) (kv : Bytes × Bytes) (rest : Bytes) (fits : RowFits kv)
    (at : At block ptr (entry_bytes kv ++ rest)) where
  parts :
      At block ptr
        (le_bytes 4 (length kv.0) ++ (kv.0 ++ (le_bytes 4 (length kv.1) ++ (kv.1 ++ rest))))
  parts = At-eq block _ _ ptr at (entry_bytes-append kv rest)

  at_key : At block (ptr + 4) (kv.0 ++ (le_bytes 4 (length kv.1) ++ (kv.1 ++ rest)))
  at_key =
      At-step block (le_bytes 4 (length kv.0)) _ ptr (ptr + 4) parts
        (omega (arith, length-le_bytes 4 (length kv.0)))

  at_vlen : At block (ptr + 4 + length kv.0) (le_bytes 4 (length kv.1) ++ (kv.1 ++ rest))
  at_vlen = At-step block kv.0 _ (ptr + 4) (ptr + 4 + length kv.0) at_key refl

  at_value : At block (ptr + 4 + length kv.0 + 4) (kv.1 ++ rest)
  at_value =
      At-step block (le_bytes 4 (length kv.1)) _ (ptr + 4 + length kv.0) (ptr + 4 + length kv.0 + 4)
        at_vlen (omega (arith, length-le_bytes 4 (length kv.1)))

  pub key_read : KeyRead block ptr kv.0
  key_read = record {
    klen = At-word 4 (length kv.0) block _ ptr parts fits.0;
    read_key = At-slice block kv.0 _ (ptr + 4) (length kv.0) at_key refl;
  }

  pub entry_at_lem : entry_at ptr block ≡ some (kv.0, kv.1, ptr + 4 + length kv.0 + 4 + length kv.1)
  unfolding entry_at
  entry_at_lem =
      rw
        (
          At-word 4 (length kv.0) block _ ptr parts fits.0,
          At-slice block kv.0 _ (ptr + 4) (length kv.0) at_key refl,
          At-word 4 (length kv.1) block _ (ptr + 4 + length kv.0) at_vlen fits.1,
          At-slice block kv.1 rest (ptr + 4 + length kv.0 + 4) (length kv.1) at_value refl,
        )
        refl

  pub at_next : At block (ptr + 4 + length kv.0 + 4 + length kv.1) rest
  at_next = At-step block kv.1 rest (ptr + 4 + length kv.0 + 4) _ at_value refl

-- Over sorted entries the loop finds what they hold for the key.
pub find_entries_lem :
    (fuel : ℕ) (block : Bytes) (ptr limit : ℕ) (key : Bytes) (rows : Rows) (rest : Bytes)
    → At block ptr (rows_bytes rows ++ rest)
    → limit ≡ ptr + length (rows_bytes rows)
    → All RowFits rows
    → IsSorted rows
    → length rows < fuel
    → find_entries fuel block ptr limit key ≡ some (find key rows)
unfolding find_entries find
find_entries_lem zero block ptr limit key rows rest at e fits sorted q = absurd (omega arith)
find_entries_lem (suc fuel) block ptr limit key [] rest at e fits sorted q =
    rw (le→ltb ptr limit (omega arith), find_entries) refl
find_entries_lem (suc fuel) block ptr limit key (kv ∷ rows) rest at e fits sorted q =
    let at' = At-eq block _ _ ptr at (append_assoc (entry_bytes kv) (rows_bytes rows) rest) in
    let size = length-entry_bytes kv in
    let total = length-append (entry_bytes kv) (rows_bytes rows) in
    let more =
      find_entries_lem fuel block (ptr + 4 + length kv.0 + 4 + length kv.1) limit key rows rest
        (at_next block ptr kv (rows_bytes rows ++ rest) fits.0 at') (omega (arith, size, total, e))
        fits.1 sorted.1 (omega arith) in
    rw
      (
        lt→ltb ptr limit (omega (arith, size, total, e)),
        entry_at_lem block ptr kv (rows_bytes rows ++ rest) fits.0 at',
        find_entries,
      )
      (elim (cmp_swap kv.0 key) [
        | inl (before, after) ↦ ground (arith, before, after, more)
        | inr (inl (same, same')) ↦ ground (arith, same, same')
        | inr (inr (after, before)) ↦ ground (
          arith,
          after,
          before,
          find-AllAfter key rows (AllAfter-trans key kv.0 rows before sorted.0),
        )
      ])

-- Over sorted entries the scan returns those in the range.
pub scan_entries_lem :
    (fuel : ℕ) (block : Bytes) (ptr limit : ℕ) (start end : Bytes) (rows : Rows) (rest : Bytes)
    → At block ptr (rows_bytes rows ++ rest)
    → limit ≡ ptr + length (rows_bytes rows)
    → All RowFits rows
    → IsSorted rows
    → length rows < fuel
    → scan_entries fuel block ptr limit start end ≡ some (between start end rows)
unfolding scan_entries
scan_entries_lem zero block ptr limit start end rows rest at e fits sorted q = absurd (omega arith)
scan_entries_lem (suc fuel) block ptr limit start end [] rest at e fits sorted q =
    rw (le→ltb ptr limit (omega arith), scan_entries) refl
scan_entries_lem (suc fuel) block ptr limit start end (kv ∷ rows) rest at e fits sorted q =
    let at' = At-eq block _ _ ptr at (append_assoc (entry_bytes kv) (rows_bytes rows) rest) in
    let size = length-entry_bytes kv in
    let total = length-append (entry_bytes kv) (rows_bytes rows) in
    let more =
      scan_entries_lem fuel block (ptr + 4 + length kv.0 + 4 + length kv.1) limit start end rows
        rest (at_next block ptr kv (rows_bytes rows ++ rest) fits.0 at')
        (omega (arith, size, total, e)) fits.1 sorted.1 (omega arith) in
    rw
      (
        lt→ltb ptr limit (omega (arith, size, total, e)),
        entry_at_lem block ptr kv (rows_bytes rows ++ rest) fits.0 at',
        scan_entries,
      )
      (elim (Bool-cases (lt_bytes end kv.0)) [
        | inl past ↦
            ground (
              arith,
              past,
              past_end start end rows (All-after end kv.0 rows (ground arith) sorted.0),
            )
        | inr within ↦ ground (arith, within, more)
      ])
