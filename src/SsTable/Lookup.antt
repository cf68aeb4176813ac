-- ===== src/SsTable/Lookup.antt =====
-- `get` and `scan` of a table whose index leads to its entries.
use zenith_db.Prelude.{
  suc, ◌-◌, List, [], ◌∷◌, ◌++◌, none, some, Bool, true, false, ◌≡◌, inl, inr, refl, sym, ap, ◌∙◌,
  arith, length, Bool-cases, ◌==◌,
}
use mathlib.Core.Path.{subst}
use zenith_db.Bytes.{Bytes, lt_bytes, Before}
use zenith_db.Bloom.{may_contain}
use zenith_db.OrdMap.{find, IsSorted}
use zenith_db.OrdMap.Window.{between, between_empty, past_end, All-after}
use zenith_db.SsTable.{Rows, IndexEntry}
use zenith_db.SsTable.Read.{SsTable, upper_bound, is_outside, get, scan}
use zenith_db.SsTable.Chunks.{Chunks, find_front, find-nearest, get_elem?-upper_bound, scan_from}

module _ (t : SsTable) (entries : Rows) (ie : IndexEntry) (index : List IndexEntry)
    (index_eq : t.index ≡ ie ∷ index) (chunks : Chunks t (ie ∷ index) entries)
    (sorted : IsSorted entries) where
  pub get_lem :
      (key : Bytes) (may : Bool)
      → may_contain t.bloom_filter key ≡ some may
      → (may ≡ false → find key entries ≡ none)
      → get t key ≡ some (find key entries)
  unfolding get upper_bound
  get_lem key false filter out = rw filter (ap some (sym (out refl)))
  get_lem key true filter out = elim (Bool-cases (lt_bytes key ie.min_key)) [
    | inl early ↦
        rw (filter, index_eq, early, get) (find_front t key ie index entries chunks sorted early)
    | inr late ↦
        let before : suc (upper_bound key index) - 1 ≡ upper_bound key index = omega arith in
        let nonzero : (suc (upper_bound key index) == 0) ≡ false = ground arith in
        rw (filter, index_eq, late, nonzero, before, get_elem?-upper_bound t key ie index late, get)
          (find-nearest t key ie index entries chunks sorted)
  ]

  outside :
      (start end : Bytes)
      → length t.meta.max_key ≡ 0
      → t.meta.min_key ≡ ie.min_key
      → is_outside t.meta start end ≡ true
      → [] ≡ between start end entries
  unfolding is_outside
  outside start end no_max min_eq h =
      let (c, cs) = chunks in
      let before : Before end ie.min_key = ground (arith, no_max, min_eq, h) in
      let before' = subst (Before end) c.min_key_eq before in
      sym (
        ap (between start end) c.parts
        ∙ past_end start end (c.row ∷ (c.more ++ c.rest)) (
          before',
          All-after end c.row.0 (c.more ++ c.rest) before' (subst IsSorted c.parts sorted).0,
        ))

  pub scan_lem :
      (start end : Bytes)
      → length t.meta.max_key ≡ 0
      → t.meta.min_key ≡ ie.min_key
      → scan t start end ≡ some (between start end entries)
  unfolding scan
  scan_lem start end no_max min_eq = elim (Bool-cases (lt_bytes end start)) [
    | inl swapped ↦
        rw swapped (ap some (sym (between_empty start end entries (ground (arith, swapped)))))
    | inr ordered ↦ elim (Bool-cases (is_outside t.meta start end)) [
      | inl out ↦ rw (ordered, out) (ap some (outside start end no_max min_eq out))
      | inr in_range ↦
          rw (ordered, in_range, index_eq, scan)
            (scan_from t start end ie index entries chunks sorted)
    ]
  ]
