-- ===== src/SsTable/Fill.antt =====
-- What the inner loop of `create` puts into a block.
use zenith_db.Prelude.{
  ℕ, zero, suc, ◌+◌, ◌-◌, ◌^◌, ◌%◌, ◌<◌, ◌≤◌, List, [], ◌∷◌, ◌++◌, some, ◌≡◌, ◌⊎◌, inl, inr, refl,
  sym, ap, ◌∙◌, arith, length, length-append, append_assoc, append-nil, get_elem?, ◌&&◌, ◌==◌, ltb,
  Bool-cases, ltb→lt, ltb→le, replicate,
}
use mathlib.Core.Path.{subst}
use zenith_db.Bytes.{Bytes}
use zenith_db.SsTable.{Rows, restart_interval}
use zenith_db.SsTable.Create.{entry_bytes, Filled, push_restart, is_full, fill_block, new_block}
use zenith_db.SsTable.Entries.{rows_bytes, rows_bytes-append}
use zenith_db.SsTable.Block.{Points}

get_elem?-append_front {ℓ} :
    {A : Type ℓ} (xs ys : List A) (i : ℕ) → i < length xs → get_elem? (xs ++ ys) i ≡ get_elem? xs i
get_elem?-append_front [] ys i h = absurd (omega arith)
get_elem?-append_front (x ∷ xs) ys zero h = refl
get_elem?-append_front (x ∷ xs) ys (suc i) h = get_elem?-append_front xs ys i (omega arith)

get_elem?-append_last {ℓ} :
    {A : Type ℓ} (xs : List A) (y : A) (i : ℕ) → i ≡ length xs → get_elem? (xs ++ y ∷ []) i ≡ some y
get_elem?-append_last [] y zero h = refl
get_elem?-append_last [] y (suc i) h = absurd (omega arith)
get_elem?-append_last (x ∷ xs) y zero h = absurd (omega arith)
get_elem?-append_last (x ∷ xs) y (suc i) h = get_elem?-append_last xs y i (omega arith)

-- A block that is not closed in front of a 17th, 33rd, ... entry.
abbrev pub ClosesWell : Filled → Type 0
ClosesWell f = (f.rest ≡ []) ⊎ (0 < f.num_entries % restart_interval)

-- The block holds the first entries, and each restart points at one of them if it closes well.
pub record FilledWith (all : Rows) (f : Filled) : Type 0 where
  pub taken : Rows
  pub parts : all ≡ taken ++ f.rest
  pub buffer : f.data_buf ≡ replicate 8 0 ++ rows_bytes taken
  pub count : f.num_entries ≡ length taken
  pub some_taken : 0 < length taken
  pub first : get_elem? f.restarts 0 ≡ some 8
  pub some_restart : 0 < length f.restarts
  pub few : length f.restarts ≤ suc (length taken)
  pub points : ClosesWell f → (i : ℕ) → i < length f.restarts → Points taken f.restarts i
  pub stale :
      0 < length f.rest
      → f.num_entries % restart_interval ≡ 0
      → get_elem? f.restarts (length f.restarts - 1) ≡ some (8 + length (rows_bytes taken))

-- What the loop has put into the buffer so far.
record Filling (done : Rows) (data_buf : Bytes) (restarts : List ℕ) (n : ℕ) : Type 0 where
  buffer : data_buf ≡ replicate 8 0 ++ rows_bytes done
  count : n ≡ length done
  some_done : 0 < n
  first : get_elem? restarts 0 ≡ some 8
  some_restart : 0 < length restarts
  few : length restarts ≤ length done
  points : (i : ℕ) → i < length restarts → Points done restarts i

Points-append :
    (done more : Rows) (restarts ws : List ℕ) (i : ℕ)
    → i < length restarts
    → Points done restarts i
    → Points (done ++ more) (restarts ++ ws) i
Points-append done more restarts ws i inside p = record {
  before = p.before;
  row = p.row;
  after = p.after ++ more;
  parts = ap (λ x. x ++ more) p.parts ∙ append_assoc p.before (p.row ∷ p.after) more;
  found = get_elem?-append_front restarts ws i inside ∙ p.found;
}

module _ (done : Rows) (data_buf : Bytes) (restarts : List ℕ) (n : ℕ)
    (h : Filling done data_buf restarts n) (kv : Bytes × Bytes)
    (small : length (rows_bytes done) + 8 < 2 ^ 32) where
  size_buf : length data_buf ≡ 8 + length (rows_bytes done)
  size_buf = ap length h.buffer ∙ length-append (replicate 8 0) (rows_bytes done)

  -- The restarts before the entry, if it is added.
  pushed :
      Filling
        (done ++ kv ∷ [])
        (data_buf ++ entry_bytes kv)
        (push_restart restarts n data_buf)
        (n + 1)
  unfolding push_restart
  pushed =
      let buffer' : data_buf ++ entry_bytes kv ≡ replicate 8 0 ++ rows_bytes (done ++ kv ∷ []) =
        ap (λ x. x ++ entry_bytes kv) h.buffer
        ∙ append_assoc (replicate 8 0) (rows_bytes done) (entry_bytes kv)
        ∙ ap (λ x. replicate 8 0 ++ (rows_bytes done ++ x)) (sym (append-nil (entry_bytes kv)))
        ∙ ap (λ x. replicate 8 0 ++ x) (sym (rows_bytes-append done (kv ∷ []))) in
      let count' = length-append done (kv ∷ []) in
      elim (Bool-cases (ltb 0 n && (n % restart_interval == 0))) [
        | inr keep ↦ rw keep (record {
          buffer = buffer';
          count = omega (arith, h.count, count');
          some_done = omega arith;
          first = h.first;
          some_restart = h.some_restart;
          few = omega (arith, h.few, count');
          points = λ i inside.
              subst (λ rs. Points (done ++ kv ∷ []) rs i) (append-nil restarts)
                (Points-append done (kv ∷ []) restarts [] i inside (h.points i inside));
        })
        | inl push ↦
            let w = length data_buf % 2 ^ 32 in
            let place : w ≡ 8 + length (rows_bytes done) = omega (arith, size_buf, small) in
            let grown = length-append restarts (w ∷ []) in
            rw push (record {
              buffer = buffer';
              count = omega (arith, h.count, count');
              some_done = omega arith;
              first = get_elem?-append_front restarts (w ∷ []) 0 h.some_restart ∙ h.first;
              some_restart = omega (arith, grown);
              few = omega (arith, h.few, count', grown);
              points = λ i inside. elim (Bool-cases (ltb i (length restarts))) [
                | inl old ↦
                    let lt = ltb→lt i (length restarts) old in
                    Points-append done (kv ∷ []) restarts (w ∷ []) i lt (h.points i lt)
                | inr new ↦ record {
                  before = done;
                  row = kv;
                  after = [];
                  parts = refl;
                  found =
                      get_elem?-append_last restarts w i
                        (omega (arith, ltb→le i (length restarts) new, inside, grown))
                      ∙ ap some place;
                }
              ];
            })
      ]

-- A block that is closed in front of an entry, with the restart that was pushed for it.
closed_lem :
    (done : Rows) (data_buf : Bytes) (restarts : List ℕ) (n : ℕ)
    → Filling done data_buf restarts n
    → length (rows_bytes done) + 8 < 2 ^ 32
    → (kv : Bytes × Bytes) (entries : Rows)
    → FilledWith (done ++ kv ∷ entries) (record {
      data_buf = data_buf;
      restarts = push_restart restarts n data_buf;
      num_entries = n;
      rest = kv ∷ entries;
    })
unfolding push_restart
closed_lem done data_buf restarts n h small kv entries =
    elim (Bool-cases (ltb 0 n && (n % restart_interval == 0))) [
      | inr keep ↦ rw keep (record {
        taken = done;
        parts = refl;
        buffer = h.buffer;
        count = h.count;
        some_taken = omega (arith, h.count, h.some_done);
        first = h.first;
        some_restart = h.some_restart;
        few = omega (arith, h.few);
        points = λ c. h.points;
        stale = λ more even. absurd (ground (arith, keep, even, h.some_done));
      })
      | inl push ↦
          let w = length data_buf % 2 ^ 32 in
          let grown = length-append restarts (w ∷ []) in
          let place : w ≡ 8 + length (rows_bytes done) =
            omega (arith, size_buf done data_buf restarts n h kv small, small) in
          rw push (record {
            taken = done;
            parts = refl;
            buffer = h.buffer;
            count = h.count;
            some_taken = omega (arith, h.count, h.some_done);
            first = get_elem?-append_front restarts (w ∷ []) 0 h.some_restart ∙ h.first;
            some_restart = omega (arith, grown);
            few = omega (arith, h.few, grown);
            points = λ c i inside. elim c [
              | inl none_left ↦ absurd (ground (arith, none_left))
              | inr apart ↦ absurd (ground (arith, push, apart))
            ];
            stale = λ more even.
                get_elem?-append_last restarts w (length (restarts ++ w ∷ []) - 1)
                  (omega (arith, grown))
                ∙ ap some place;
          })
    ]

fill_block_lem :
    (entries done : Rows) (data_buf : Bytes) (restarts : List ℕ) (n : ℕ)
    → Filling done data_buf restarts n
    → n + length entries < 2 ^ 32
    → length (rows_bytes (done ++ entries)) + 8 < 2 ^ 32
    → FilledWith (done ++ entries) (fill_block entries data_buf restarts n)
unfolding fill_block
fill_block_lem [] done data_buf restarts n h few small = record {
  taken = done;
  parts = refl;
  buffer = h.buffer;
  count = h.count;
  some_taken = omega (arith, h.count, h.some_done);
  first = h.first;
  some_restart = h.some_restart;
  few = omega (arith, h.few);
  points = λ c. h.points;
  stale = λ more even. absurd (omega (arith, more));
}
fill_block_lem (kv ∷ entries) done data_buf restarts n h few small =
    let size =
      ap length (rows_bytes-append done (kv ∷ entries))
      ∙ length-append (rows_bytes done) (rows_bytes (kv ∷ entries)) in
    elim (Bool-cases (is_full (push_restart restarts n data_buf) n data_buf kv)) [
      | inl full ↦
          rw full (closed_lem done data_buf restarts n h (omega (arith, small, size)) kv entries)
      | inr open_block ↦
          let one : (n + 1) % 2 ^ 32 ≡ n + 1 = omega arith in
          let assoc = append_assoc done (kv ∷ []) entries in
          rw (open_block, one)
            (subst
              (λ all. FilledWith all (
                fill_block entries (data_buf ++ entry_bytes kv) (push_restart restarts n data_buf)
                  (n + 1)))
              assoc
              (fill_block_lem entries (done ++ kv ∷ []) (data_buf ++ entry_bytes kv)
                (push_restart restarts n data_buf) (n + 1)
                (pushed done data_buf restarts n h kv (omega (arith, small, size))) (omega arith)
                (omega (arith, small, ap (λ x. length (rows_bytes x)) assoc))))
    ]

-- A block begins with the first entry, and with a restart at it.
pub new_block_lem :
    (kv : Bytes × Bytes) (entries : Rows)
    → length (kv ∷ entries) < 2 ^ 32
    → length (rows_bytes (kv ∷ entries)) + 8 < 2 ^ 32
    → FilledWith (kv ∷ entries) (new_block (kv ∷ entries))
unfolding new_block fill_block push_restart is_full
new_block_lem kv entries few small =
    fill_block_lem entries (kv ∷ []) (replicate 8 0 ++ entry_bytes kv) (8 ∷ []) 1
      (record {
        buffer = ap (λ x. replicate 8 0 ++ x) (sym (append-nil (entry_bytes kv)));
        count = refl;
        some_done = omega arith;
        first = refl;
        some_restart = omega arith;
        few = omega arith;
        points = λ i inside. record {
          before = [];
          row = kv;
          after = [];
          parts = refl;
          found = let e : i ≡ 0 = omega (arith, inside) in rw e refl;
        };
      })
      (omega (arith, few)) small

-- Where a block ends behind a multiple of 16 entries and entries are left, its last restart
-- points behind all of its entries, at the restarts. The entries are fewer than 2^32 and take
-- less than 2^32 bytes with the header.
pub new_block-stale :
    (kv : Bytes × Bytes) (entries : Rows)
    → length (kv ∷ entries) < 2 ^ 32
    → length (rows_bytes (kv ∷ entries)) + 8 < 2 ^ 32
    → 0 < length (new_block (kv ∷ entries)).rest
    → (new_block (kv ∷ entries)).num_entries % restart_interval ≡ 0
    → (taken : Rows) × (kv ∷ entries ≡ taken ++ (new_block (kv ∷ entries)).rest)
      × (get_elem?
            (new_block (kv ∷ entries)).restarts
            (length (new_block (kv ∷ entries)).restarts - 1)
          ≡ some (8 + length (rows_bytes taken)))
new_block-stale kv entries few small more even =
    let h = new_block_lem kv entries few small in (h.taken, h.parts, h.stale more even)
