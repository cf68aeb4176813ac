-- ===== src/SsTable/Block.antt =====
-- A block whose restarts all point at entries is searched and scanned right.
use zenith_db.Prelude.{
  ℕ, suc, ◌+◌, ◌*◌, ◌^◌, ◌<◌, ◌≤◌, List, [], ◌∷◌, ◌++◌, Option, some, ◌≡◌, inl, inr, refl, sym, ap,
  ◌∙◌, arith, length, length-append, append_assoc, get_elem?, All, ◌>>=◌,
}
use mathlib.Core.Path.{subst}
use zenith_db.Bytes.{Bytes, Before, cmp_swap, Before-trans}
use zenith_db.Bytes.Words.{le_bytes}
use zenith_db.Bytes.Slices.{At, At-step, At-eq}
use zenith_db.OrdMap.{find, IsSorted, AllAfter}
use zenith_db.OrdMap.Window.{between}
use zenith_db.SsTable.{Rows}
use zenith_db.SsTable.Create.{words_bytes, entry_bytes}
use zenith_db.SsTable.Read.{find_entries, scan_entries, start_of}
use zenith_db.SsTable.Entries.{
  rows_bytes, rows_bytes-append, RowFits, length-entry_bytes, key_read, find_entries_lem,
  scan_entries_lem,
}
use zenith_db.SsTable.Search.{RestartKey, Started, start_of_lem}

-- The restart of a number is the place of an entry.
pub record Points (rows : Rows) (restarts : List ℕ) (i : ℕ) : Type 0 where
  pub before : Rows
  pub row : Bytes × Bytes
  pub after : Rows
  pub parts : rows ≡ before ++ row ∷ after
  pub found : get_elem? restarts i ≡ some (8 + length (rows_bytes before))

pub record IsBlock (block : Bytes) (rows : Rows) (restarts : List ℕ) : Type 0 where
  pub at : At block 8 (rows_bytes rows ++ (words_bytes restarts ++ le_bytes 4 (length restarts)))
  pub fits : All RowFits rows
  pub sorted : IsSorted rows
  pub first : get_elem? restarts 0 ≡ some 8
  pub some_restart : 0 < length restarts
  pub points : (i : ℕ) → i < length restarts → Points rows restarts i
  pub few : length restarts * 4 < 2 ^ 32
  pub small : 8 + length (rows_bytes rows) < 2 ^ 32

pub All-behind {ℓ κ} :
    {A : Type ℓ} (P : A → Type κ) (before after : List A) → All P (before ++ after) → All P after
All-behind P [] after h = h
All-behind P (x ∷ before) after h = All-behind P before after h.1

pub All-front {ℓ κ} :
    {A : Type ℓ} (P : A → Type κ) (before after : List A) → All P (before ++ after) → All P before
All-front P [] after h = tt
All-front P (x ∷ before) after h = (h.0, All-front P before after h.1)

pub AllAfter-front :
    (k : Bytes) (before after : Rows) → AllAfter k (before ++ after) → AllAfter k before
AllAfter-front k = All-front (λ e. Before k e.0)

pub IsSorted-front : (before after : Rows) → IsSorted (before ++ after) → IsSorted before
IsSorted-front [] after h = tt
IsSorted-front (e ∷ before) after h =
    (AllAfter-front e.0 before after h.0, IsSorted-front before after h.1)

pub AllAfter-behind :
    (k : Bytes) (before : Rows) (row : Bytes × Bytes) (after : Rows)
    → AllAfter k (before ++ row ∷ after)
    → Before k row.0
AllAfter-behind k [] row after h = h.0
AllAfter-behind k (e ∷ before) row after h = AllAfter-behind k before row after h.1

pub IsSorted-behind : (before after : Rows) → IsSorted (before ++ after) → IsSorted after
IsSorted-behind [] after h = h
IsSorted-behind (e ∷ before) after h = IsSorted-behind before after h.1

-- Entries in front of one with a smaller key do not matter.
find-behind :
    (key : Bytes) (before : Rows) (row : Bytes × Bytes) (after : Rows)
    → IsSorted (before ++ row ∷ after)
    → Before row.0 key
    → find key (before ++ row ∷ after) ≡ find key (row ∷ after)
unfolding find
find-behind key [] row after sorted less = refl
find-behind key (e ∷ before) row after sorted less = ground (
  arith,
  find-behind key before row after sorted.1 less,
  cmp_swap e.0 key,
  Before-trans e.0 row.0 key (AllAfter-behind e.0 before row after sorted.0) less,
)

between-behind :
    (start end : Bytes) (before : Rows) (row : Bytes × Bytes) (after : Rows)
    → IsSorted (before ++ row ∷ after)
    → Before row.0 start
    → between start end (before ++ row ∷ after) ≡ between start end (row ∷ after)
between-behind start end [] row after sorted less = refl
between-behind start end (e ∷ before) row after sorted less = ground (
  arith,
  between-behind start end before row after sorted.1 less,
  Before-trans e.0 row.0 start (AllAfter-behind e.0 before row after sorted.0) less,
)

pub length-rows_bytes : (rows : Rows) → 8 * length rows ≤ length (rows_bytes rows)
length-rows_bytes [] = omega arith
length-rows_bytes (kv ∷ rows) = omega (
  arith,
  length-append (entry_bytes kv) (rows_bytes rows),
  length-entry_bytes kv,
  length-rows_bytes rows,
)

module _ (block : Bytes) (rows : Rows) (restarts : List ℕ) (h : IsBlock block rows restarts) where
  restarts_at :
      At block (8 + length (rows_bytes rows)) (words_bytes restarts ++ le_bytes 4 (length restarts))
  restarts_at = At-step block (rows_bytes rows) _ 8 _ h.at refl

  -- The entries behind a point, in the block.
  record Behind (ptr : ℕ) (suffix : Rows) : Type 0 where
    at : At block ptr (rows_bytes suffix ++ (words_bytes restarts ++ le_bytes 4 (length restarts)))
    limit : 8 + length (rows_bytes rows) ≡ ptr + length (rows_bytes suffix)
    fits : All RowFits suffix
    sorted : IsSorted suffix
    enough : length suffix < suc (length block)

  behind :
      (before suffix : Rows)
      → rows ≡ before ++ suffix
      → Behind (8 + length (rows_bytes before)) suffix
  behind before suffix e =
      let split = ap rows_bytes e ∙ rows_bytes-append before suffix in
      let count = ap length split ∙ length-append (rows_bytes before) (rows_bytes suffix) in
      let at' =
        At-step block (rows_bytes before)
          (rows_bytes suffix ++ (words_bytes restarts ++ le_bytes 4 (length restarts))) 8
          (8 + length (rows_bytes before))
          (At-eq block _ _ 8 h.at (
            ap (λ x. x ++ (words_bytes restarts ++ le_bytes 4 (length restarts))) split
            ∙ append_assoc (rows_bytes before) (rows_bytes suffix)
                (words_bytes restarts ++ le_bytes 4 (length restarts))))
          refl in
      record {
        at = at';
        limit = omega (arith, count);
        fits = All-behind RowFits before suffix (subst (All RowFits) e h.fits);
        sorted = IsSorted-behind before suffix (subst IsSorted e h.sorted);
        enough = omega (
          arith,
          length-rows_bytes suffix,
          at'.size,
          length-append (rows_bytes suffix) (words_bytes restarts ++ le_bytes 4 (length restarts)),
        );
      }

  keys : (i : ℕ) → i < length restarts → RestartKey block restarts i
  keys i inside =
      let p = h.points i inside in
      let b = behind p.before (p.row ∷ p.after) p.parts in
      let size =
        ap length (ap rows_bytes p.parts ∙ rows_bytes-append p.before (p.row ∷ p.after))
        ∙ length-append (rows_bytes p.before) (rows_bytes (p.row ∷ p.after)) in
      record {
        offset = 8 + length (rows_bytes p.before);
        key = p.row.0;
        found = p.found;
        small = omega (arith, h.small, size);
        read =
            key_read block (8 + length (rows_bytes p.before)) p.row
              (rows_bytes p.after ++ (words_bytes restarts ++ le_bytes 4 (length restarts)))
              b.fits.0
              (At-eq block _ _ _ b.at (
                append_assoc (entry_bytes p.row) (rows_bytes p.after)
                  (words_bytes restarts ++ le_bytes 4 (length restarts))));
      }

  started :
      (key : Bytes)
      → Started block
          (8 + length (rows_bytes rows))
          restarts
          (le_bytes 4 (length restarts))
          key
          restarts_at
          keys
          h.few
          (start_of block (length block) key)
  started key =
      start_of_lem block (8 + length (rows_bytes rows)) restarts (le_bytes 4 (length restarts)) key
        restarts_at keys h.few refl h.some_restart

  -- The loops start at entries that hold all that is looked for.
  record Suffix (key : Bytes) (ptr : ℕ) : Type 0 where
    suffix : Rows
    stands : Behind ptr suffix
    same_find : find key rows ≡ find key suffix
    same_between : (end : Bytes) → between key end rows ≡ between key end suffix

  suffix_of : (key : Bytes) → Suffix key (started key).ptr
  unfolding keys
  suffix_of key = elim (started key).from_restart [
    | inl first ↦
        let e : 8 + 0 ≡ (started key).ptr = grind (arith, first, h.first) in
        record {
          suffix = rows;
          stands = subst (λ p. Behind p rows) e (behind [] rows refl);
          same_find = refl;
          same_between = λ end. refl;
        }
    | inr (i, inside, ptr_eq, less) ↦
        let p = h.points i inside in
        let sorted = subst IsSorted p.parts h.sorted in
        record {
          suffix = p.row ∷ p.after;
          stands =
              subst (λ q. Behind q (p.row ∷ p.after)) (sym ptr_eq)
                (behind p.before (p.row ∷ p.after) p.parts);
          same_find =
              ap (find key) p.parts ∙ find-behind key p.before p.row p.after sorted (ground arith);
          same_between = λ end.
              ap (between key end) p.parts
              ∙ between-behind key end p.before p.row p.after sorted (ground arith);
        }
  ]

  -- The search and the loop of `find_in_block`.
  pub find_block_lem :
      (key : Bytes)
      → (start_of block (length block) key >>= λ s.
          find_entries (suc (length block)) block s.1 s.0 key)
        ≡ some (find key rows)
  find_block_lem key =
      let s = started key in
      let x = suffix_of key in
      ap (λ (r : Option (ℕ × ℕ)). r >>= λ s. find_entries (suc (length block)) block s.1 s.0 key)
        s.returns
      ∙ find_entries_lem (suc (length block)) block s.ptr (8 + length (rows_bytes rows)) key
          x.suffix (words_bytes restarts ++ le_bytes 4 (length restarts)) x.stands.at x.stands.limit
          x.stands.fits x.stands.sorted x.stands.enough
      ∙ ap some (sym x.same_find)

  -- The search and the loop of `scan_block`.
  pub scan_block_lem :
      (start end : Bytes)
      → (start_of block (length block) start >>= λ s.
          scan_entries (suc (length block)) block s.1 s.0 start end)
        ≡ some (between start end rows)
  scan_block_lem start end =
      let s = started start in
      let x = suffix_of start in
      ap
        (λ (r : Option (ℕ × ℕ)).
          r >>= λ s. scan_entries (suc (length block)) block s.1 s.0 start end)
        s.returns
      ∙ scan_entries_lem (suc (length block)) block s.ptr (8 + length (rows_bytes rows)) start end
          x.suffix (words_bytes restarts ++ le_bytes 4 (length restarts)) x.stands.at x.stands.limit
          x.stands.fits x.stands.sorted x.stands.enough
      ∙ ap some (sym (x.same_between end))
