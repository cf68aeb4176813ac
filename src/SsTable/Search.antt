-- ===== src/SsTable/Search.antt =====
-- The binary search over the restarts of a block.
use zenith_db.Prelude.{
  ℕ, zero, suc, ◌+◌, ◌-◌, ◌*◌, ◌/◌, ◌^◌, ◌%◌, ◌<◌, ◌≤◌, List, [], ◌∷◌, ◌++◌, Option, some, true,
  ◌≡◌, ◌⊎◌, inl, inr, refl, sym, ap, ◌∙◌, arith, length, length-append, append_assoc, get_elem?,
  ltb, lt→ltb, ltb→lt, Bool-cases, le→leb, append-nil,
}
use zenith_db.Bytes.{Bytes, lt_bytes}
use zenith_db.Bytes.Words.{le_bytes, length-le_bytes}
use zenith_db.Bytes.Slices.{word_at, At, At-step, At-eq, At-word}
use zenith_db.SsTable.Create.{words_bytes}
use zenith_db.SsTable.Read.{back, search_loop, start_of}
use zenith_db.SsTable.Entries.{KeyRead}

pub length-words_bytes : (ws : List ℕ) → length (words_bytes ws) ≡ 4 * length ws
unfolding words_bytes
length-words_bytes [] = omega arith
length-words_bytes (w ∷ ws) = omega (
  arith,
  length-append (le_bytes 4 w) (words_bytes ws),
  length-le_bytes 4 w,
  length-words_bytes ws,
)

-- The restart of a number, and the key that it points at.
pub record RestartKey (block : Bytes) (restarts : List ℕ) (i : ℕ) : Type 0 where
  pub offset : ℕ
  pub key : Bytes
  pub found : get_elem? restarts i ≡ some offset
  pub small : offset < 2 ^ 32
  pub read : KeyRead block offset key

pub words_bytes-word_at :
    (block : Bytes) (p q : ℕ) (ws : List ℕ) (rest : Bytes) (i w : ℕ)
    → At block p (words_bytes ws ++ rest)
    → get_elem? ws i ≡ some w
    → w < 2 ^ 32
    → q ≡ p + i * 4
    → word_at 4 q block ≡ some w
unfolding words_bytes
words_bytes-word_at block p q [] rest i w at found small e = absurd (ground arith)
words_bytes-word_at block p q (v ∷ ws) rest zero w at found small e =
    let same : v ≡ w = grind (arith, found) in
    let here : q ≡ p = omega (arith, e) in
    rw here (
      At-word 4 w block (words_bytes ws ++ rest) p
        (At-eq block _ _ p at (
          append_assoc (le_bytes 4 v) (words_bytes ws) rest
          ∙ ap (λ u. le_bytes 4 u ++ (words_bytes ws ++ rest)) same))
        small)
words_bytes-word_at block p q (v ∷ ws) rest (suc i) w at found small e =
    words_bytes-word_at block (p + 4) q ws rest i w
      (At-step block (le_bytes 4 v) (words_bytes ws ++ rest) p (p + 4)
        (At-eq block _ _ p at (append_assoc (le_bytes 4 v) (words_bytes ws) rest))
        (omega (arith, length-le_bytes 4 v)))
      found small (omega arith)

module _ (block : Bytes) (restarts_ptr : ℕ) (restarts : List ℕ) (rest key : Bytes)
    (at : At block restarts_ptr (words_bytes restarts ++ rest))
    (keys : (i : ℕ) → i < length restarts → RestartKey block restarts i)
    (few : length restarts * 4 < 2 ^ 32) where
  -- Nothing stands in front, or the restart in front has a key less than the one that is searched.
  abbrev pub LessBefore : ℕ → Type 0
  LessBefore left =
      (left ≡ 0)
      ⊎ ((i : ℕ) × (inside : i < length restarts) × (left ≡ suc i)
          × (lt_bytes (keys i inside).key key ≡ true))

  pub record Searched (result : Option ℕ) : Type 0 where
    pub left : ℕ
    pub returns : result ≡ some left
    pub within : left ≤ length restarts
    pub before : LessBefore left

  pub search_loop_lem :
      (fuel left right : ℕ)
      → right < left + fuel
      → left ≤ right
      → right ≤ length restarts
      → LessBefore left
      → Searched (search_loop fuel block restarts_ptr key left right)
  unfolding search_loop
  search_loop_lem zero left right q le in_range less = absurd (omega arith)
  search_loop_lem (suc fuel) left right q le in_range less = elim (Bool-cases (ltb left right)) [
    | inr done ↦ record {
      left = left;
      returns = rw (done, search_loop) refl;
      within = omega arith;
      before = less;
    }
    | inl more ↦
        let lt = ltb→lt left right more in
        let mid = (left + right) % 2 ^ 32 / 2 in
        let inside : mid < length restarts = omega (arith, lt) in
        let r = keys mid inside in
        let at_mid =
          words_bytes-word_at block restarts_ptr (restarts_ptr + mid * 4 % 2 ^ 32) restarts rest mid
            r.offset at r.found r.small (omega (arith, few, inside)) in
        elim (Bool-cases (lt_bytes r.key key)) [
          | inl below ↦
              let s =
                search_loop_lem fuel (mid + 1) right (omega (arith, lt)) (omega (arith, lt))
                  in_range (inr (mid, inside, omega arith, below)) in
              record {
                left = s.left;
                returns =
                    ground (arith, more, at_mid, r.read.klen, r.read.read_key, below, s.returns);
                within = s.within;
                before = s.before;
              }
          | inr above ↦
              let s =
                search_loop_lem fuel left mid (omega (arith, lt)) (omega (arith, lt))
                  (omega (arith, lt, inside)) less in
              record {
                left = s.left;
                returns =
                    ground (arith, more, at_mid, r.read.klen, r.read.read_key, above, s.returns);
                within = s.within;
                before = s.before;
              }
        ]
  ]

  -- Where the loop over the entries starts: at the first restart, or at one whose key is less.
  pub record Started (result : Option (ℕ × ℕ)) : Type 0 where
    pub ptr : ℕ
    pub returns : result ≡ some (restarts_ptr, ptr)
    pub from_restart :
        (get_elem? restarts 0 ≡ some ptr)
        ⊎ ((i : ℕ) × (inside : i < length restarts) × (ptr ≡ (keys i inside).offset)
            × (lt_bytes (keys i inside).key key ≡ true))

  pub start_of_lem :
      rest ≡ le_bytes 4 (length restarts)
      → 0 < length restarts
      → Started (start_of block (length block) key)
  unfolding start_of back
  start_of_lem e some_restart =
      let size = length-words_bytes restarts in
      let total = length-append (words_bytes restarts) rest in
      let four = ap length e ∙ length-le_bytes 4 (length restarts) in
      let count_ptr : length block - 4 ≡ restarts_ptr + 4 * length restarts =
        omega (arith, at.size, size, total, four) in
      let at_count =
        At-step block (words_bytes restarts) rest restarts_ptr (length block - 4) at
          (omega (arith, count_ptr, size)) in
      let count =
        At-word 4 (length restarts) block [] (length block - 4)
          (At-eq block _ _ _ at_count (e ∙ sym (append-nil (le_bytes 4 (length restarts)))))
          (omega (arith, few)) in
      let s =
        search_loop_lem (suc (length restarts)) 0 (length restarts) (omega arith) (omega arith)
          (omega arith) (inl refl) in
      let le1 = le→leb 4 (length block) (omega (arith, at.size, total, four)) in
      let le2 =
        le→leb (length restarts * 4 % 2 ^ 32) (length block - 4) (omega (arith, few, count_ptr)) in
      let ptr_eq : length block - 4 - length restarts * 4 % 2 ^ 32 ≡ restarts_ptr =
        omega (arith, few, count_ptr) in
      elim s.before [
        | inl none_before ↦
            let r = keys 0 some_restart in
            let read =
              words_bytes-word_at block restarts_ptr (restarts_ptr + 0 * 4 % 2 ^ 32) restarts rest 0
                r.offset at r.found r.small (omega arith) in
            record {
              ptr = r.offset;
              returns = rw (le1, count, le2, ptr_eq, s.returns, none_before, read) refl;
              from_restart = inl r.found;
            }
        | inr (i, inside, left_eq, below) ↦
            let r = keys i inside in
            let read =
              words_bytes-word_at block restarts_ptr (restarts_ptr + (suc i - 1) * 4 % 2 ^ 32)
                restarts rest i r.offset at r.found r.small (omega (arith, few, inside)) in
            let pos = lt→ltb 0 (suc i) (omega arith) in
            record {
              ptr = r.offset;
              returns = rw (le1, count, le2, ptr_eq, s.returns, left_eq, pos, read) refl;
              from_restart = inr (i, inside, refl, below);
            }
      ]
