-- ===== src/Database/Search.antt =====
-- The search of a memtable, behind the test of its range.
use zenith_db.Prelude.{
  ℕ, ◌+◌, ◌≤◌, [], ◌∷◌, none, some, ◌≡◌, refl, sym, arith, length, All, Bool-cases, inl, inr, ◌&&◌,
  not,
}
use mathlib.Core.Path.{subst}
use zenith_db.Bytes.{Bytes, lt_bytes, eq_bytes, eq_bytes_iff}
use zenith_db.OrdMap.{OrdMap, find}
use zenith_db.MemTable.{MemTable}
use zenith_db.MemTable.Contract.{InRange, Models}
use zenith_db.MemTable.Refines.{get-find}
use zenith_db.Database.Read.{not_empty, search_mem}

-- A key that no entry has is not found.
find-apart :
    (P : Bytes → Type 0) (key : Bytes) (map : OrdMap Bytes)
    → (¬ P key)
    → All (λ (e : Bytes × Bytes). P e.0) map
    → find key map ≡ none
unfolding find
find-apart P key [] apart h = refl
find-apart P key (e ∷ map) apart h = elim (Bool-cases (eq_bytes key e.0)) [
  | inl same ↦ absurd (apart (subst P (sym ((eq_bytes_iff key e.0).0 same)) h.0))
  | inr other ↦ ground (arith, other, find-apart P key map apart h.1)
]

module _ (m : MemTable) (map : OrdMap Bytes) (h : Models m map) (fuel : ℕ)
    (enough : length map + 12 ≤ fuel) where
  -- The test of the range loses nothing.
  pub search_mem_lem : (key : Bytes) → search_mem fuel key m ≡ some (not_empty (find key map))
  unfolding search_mem
  search_mem_lem key =
      elim (Bool-cases
        (m.has_range && (not (lt_bytes key m.min_key) && not (lt_bytes m.max_key key)))) [
          | inl within ↦ rw (within, get-find m map h fuel enough key) refl
          | inr outside ↦
              let covered =
                subst (All (λ (e : Bytes × Bytes). InRange m e.0)) h.view_eq h.valid.covered in
              let absent =
                find-apart (InRange m) key map
                  (λ r. absurd (ground (arith, outside, r.0, r.1, r.2))) covered in
              rw (outside, absent) refl
        ]
