-- ===== src/SsTable/Chunks.antt =====
-- A table whose blocks hold the entries in turn: `get` and `scan` go to the right blocks.
use zenith_db.Prelude.{
  suc, ◌-◌, List, [], ◌∷◌, ◌++◌, some, true, false, ◌≡◌, inl, inr, refl, sym, ap, ◌∙◌, arith,
  append-nil, get_elem?, Bool-cases, if◌then◌else◌, drop,
}
use mathlib.Core.Path.{subst}
use zenith_db.Bytes.{Bytes, lt_bytes, Before, cmp_swap, eq_of_cmp, Before-trans}
use zenith_db.OrdMap.{find, IsSorted}
use zenith_db.OrdMap.Laws.{find-AllAfter, AllAfter-trans}
use zenith_db.OrdMap.Window.{between, past_end, All-after}
use zenith_db.SsTable.{Rows, IndexEntry}
use zenith_db.SsTable.Read.{SsTable, find_in_block, scan_block, upper_bound, scan_blocks}
use zenith_db.SsTable.Block.{AllAfter-behind, AllAfter-front, IsSorted-behind, IsSorted-front}

-- Sorted entries that are split in front of a row.
module _ (row : Bytes × Bytes) (after : Rows) where
  find-late :
      (key : Bytes) (before : Rows)
      → IsSorted (before ++ row ∷ after)
      → lt_bytes key row.0 ≡ false
      → find key (before ++ row ∷ after) ≡ find key (row ∷ after)
  unfolding find
  find-late key [] sorted late = refl
  find-late key (e ∷ before) sorted late = ground (
    arith,
    find-late key before sorted.1 late,
    eq_of_cmp key e.0,
    late,
    AllAfter-behind e.0 before row after sorted.0,
  )

  find-early :
      (key : Bytes) (before : Rows)
      → IsSorted (before ++ row ∷ after)
      → lt_bytes key row.0 ≡ true
      → find key (before ++ row ∷ after) ≡ find key before
  unfolding find
  find-early key [] sorted early = ground (
    arith,
    early,
    find-AllAfter key after (AllAfter-trans key row.0 after (ground (arith, early)) sorted.0),
  )
  find-early key (e ∷ before) sorted early = ground (arith, find-early key before sorted.1 early)

  between-late :
      (start end : Bytes) (before : Rows)
      → IsSorted (before ++ row ∷ after)
      → lt_bytes start row.0 ≡ false
      → between start end (before ++ row ∷ after) ≡ between start end (row ∷ after)
  between-late start end [] sorted late = refl
  between-late start end (e ∷ before) sorted late = ground (
    arith,
    between-late start end before sorted.1 late,
    late,
    AllAfter-behind e.0 before row after sorted.0,
    Before-trans e.0 row.0 start,
    cmp_swap start row.0,
    eq_of_cmp start row.0,
  )

between-append :
    (start end : Bytes) (a b : Rows)
    → between start end (a ++ b) ≡ between start end a ++ between start end b
between-append start end [] b = refl
between-append start end (e ∷ a) b = ground (arith, between-append start end a b)

-- A block that holds the first entries.
pub record Chunk (t : SsTable) (ie : IndexEntry) (entries : Rows) : Type 0 where
  pub row : Bytes × Bytes
  pub more : Rows
  pub rest : Rows
  pub parts : entries ≡ row ∷ (more ++ rest)
  pub min_key_eq : ie.min_key ≡ row.0
  pub finds : (key : Bytes) → find_in_block t ie.offset key ≡ some (find key (row ∷ more))
  pub scans :
      (start end : Bytes) → scan_block t ie.offset start end ≡ some (between start end (row ∷ more))

-- The blocks of the index hold the entries.
abbrev pub Chunks : SsTable → List IndexEntry → Rows → Type 0
Chunks t [] entries = entries ≡ []
Chunks t (ie ∷ index) entries = (c : Chunk t ie entries) × Chunks t index c.rest

-- The last block whose first key does not stand behind the key, or the first block.
abbrev pub nearest : Bytes → IndexEntry → List IndexEntry → IndexEntry
nearest key ie [] = ie
nearest key ie (next ∷ index) = if lt_bytes key next.min_key then ie else nearest key next index

module _ (t : SsTable) where
  pub find-nearest :
      (key : Bytes) (ie : IndexEntry) (index : List IndexEntry) (entries : Rows)
      → Chunks t (ie ∷ index) entries
      → IsSorted entries
      → find_in_block t (nearest key ie index).offset key ≡ some (find key entries)
  find-nearest key ie [] entries (c, done) sorted =
      c.finds key
      ∙ ap some (
          ap (λ r. find key (c.row ∷ r))
            (sym (append-nil c.more) ∙ ap (λ r. c.more ++ r) (sym done))
          ∙ ap (find key) (sym c.parts))
  find-nearest key ie (next ∷ index) entries (c, (d, ds)) sorted =
      let split = c.parts ∙ ap (λ r. c.row ∷ (c.more ++ r)) d.parts in
      let sorted' = subst IsSorted split sorted in
      let rest_sorted =
        subst IsSorted (sym d.parts)
          (IsSorted-behind (c.row ∷ c.more) (d.row ∷ (d.more ++ d.rest)) sorted') in
      elim (Bool-cases (lt_bytes key next.min_key)) [
        | inl early ↦ rw early (
            c.finds key
            ∙ ap some (
                sym (
                  ap (find key) split
                  ∙ find-early d.row (d.more ++ d.rest) key (c.row ∷ c.more) sorted'
                      (ap (lt_bytes key) (sym d.min_key_eq) ∙ early))))
        | inr late ↦ rw late (
            find-nearest key next index c.rest (d, ds) rest_sorted
            ∙ ap some (
                ap (find key) d.parts
                ∙ sym (
                    ap (find key) split
                    ∙ find-late d.row (d.more ++ d.rest) key (c.row ∷ c.more) sorted'
                        (ap (lt_bytes key) (sym d.min_key_eq) ∙ late))))
      ]

  -- In front of all entries there is nothing to find.
  pub find_front :
      (key : Bytes) (ie : IndexEntry) (index : List IndexEntry) (entries : Rows)
      → Chunks t (ie ∷ index) entries
      → IsSorted entries
      → lt_bytes key ie.min_key ≡ true
      → find_in_block t ie.offset key ≡ some (find key entries)
  find_front key ie index entries (c, cs) sorted early =
      let sorted' = subst IsSorted c.parts sorted in
      let early' = ap (lt_bytes key) (sym c.min_key_eq) ∙ early in
      let sorted_block : IsSorted (c.row ∷ c.more) =
        (AllAfter-front c.row.0 c.more c.rest sorted'.0, IsSorted-front c.more c.rest sorted'.1) in
      c.finds key
      ∙ ap some (
          find-early c.row c.more key [] sorted_block early'
          ∙ sym (ap (find key) c.parts ∙ find-early c.row (c.more ++ c.rest) key [] sorted' early'))

  -- The entry in front of the upper bound is the nearest one.
  pub get_elem?-upper_bound :
      (key : Bytes) (ie : IndexEntry) (index : List IndexEntry)
      → lt_bytes key ie.min_key ≡ false
      → get_elem? (ie ∷ index) (upper_bound key index) ≡ some (nearest key ie index)
  unfolding upper_bound
  get_elem?-upper_bound key ie [] h = refl
  get_elem?-upper_bound key ie (next ∷ index) h = elim (Bool-cases (lt_bytes key next.min_key)) [
    | inl early ↦ rw early refl
    | inr late ↦ rw late (get_elem?-upper_bound key next index late)
  ]

  scan_all :
      (start end : Bytes) (index : List IndexEntry) (entries : Rows)
      → Chunks t index entries
      → IsSorted entries
      → scan_blocks t index start end ≡ some (between start end entries)
  unfolding scan_blocks
  scan_all start end [] entries done sorted = ap (λ r. some (between start end r)) (sym done)
  scan_all start end (ie ∷ index) entries (c, cs) sorted =
      let sorted' = subst IsSorted c.parts sorted in
      let more =
        scan_all start end index c.rest cs (IsSorted-behind (c.row ∷ c.more) c.rest sorted') in
      elim (Bool-cases (lt_bytes end ie.min_key)) [
        | inl past ↦
            let before : Before end c.row.0 =
              subst (Before end) c.min_key_eq (ground (arith, past)) in
            rw (past, scan_blocks)
              (ap some (
                sym (
                  ap (between start end) c.parts
                  ∙ past_end start end (c.row ∷ (c.more ++ c.rest))
                      (before, All-after end c.row.0 (c.more ++ c.rest) before sorted'.0))))
        | inr within ↦
            rw (within, c.scans start end, more, scan_blocks)
              (ap some (
                sym (
                  ap (between start end) c.parts
                  ∙ between-append start end (c.row ∷ c.more) c.rest)))
      ]

  scan_past :
      (start end : Bytes) (ie : IndexEntry) (index : List IndexEntry) (entries : Rows)
      → Chunks t (ie ∷ index) entries
      → IsSorted entries
      → lt_bytes start ie.min_key ≡ false
      → scan_blocks t (drop (upper_bound start index) (ie ∷ index)) start end
        ≡ some (between start end entries)
  unfolding upper_bound
  scan_past start end ie [] entries cs sorted h = scan_all start end (ie ∷ []) entries cs sorted
  scan_past start end ie (next ∷ index) entries (c, (d, ds)) sorted h =
      elim (Bool-cases (lt_bytes start next.min_key)) [
        | inl early ↦ rw early (scan_all start end (ie ∷ next ∷ index) entries (c, (d, ds)) sorted)
        | inr late ↦
            let split = c.parts ∙ ap (λ r. c.row ∷ (c.more ++ r)) d.parts in
            let sorted' = subst IsSorted split sorted in
            let rest_sorted =
              subst IsSorted (sym d.parts)
                (IsSorted-behind (c.row ∷ c.more) (d.row ∷ (d.more ++ d.rest)) sorted') in
            rw late (
              scan_past start end next index c.rest (d, ds) rest_sorted late
              ∙ ap some (
                  ap (between start end) d.parts
                  ∙ sym (
                      ap (between start end) split
                      ∙ between-late d.row (d.more ++ d.rest) start end (c.row ∷ c.more) sorted'
                          (ap (lt_bytes start) (sym d.min_key_eq) ∙ late))))
      ]

  pub scan_from :
      (start end : Bytes) (ie : IndexEntry) (index : List IndexEntry) (entries : Rows)
      → Chunks t (ie ∷ index) entries
      → IsSorted entries
      → scan_blocks t (drop (upper_bound start (ie ∷ index) - 1) (ie ∷ index)) start end
        ≡ some (between start end entries)
  unfolding upper_bound
  scan_from start end ie index entries cs sorted = elim (Bool-cases (lt_bytes start ie.min_key)) [
    | inl early ↦ rw early (scan_all start end (ie ∷ index) entries cs sorted)
    | inr late ↦
        let e : suc (upper_bound start index) - 1 ≡ upper_bound start index = omega arith in
        rw (late, e) (scan_past start end ie index entries cs sorted late)
  ]
