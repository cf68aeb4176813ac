-- ===== src/MemTable/Scan.antt =====
-- The loops over level 0 return the entries of the map.
use zenith_db.Prelude.{
  ℕ, zero, suc, ◌≤◌, List, [], ◌∷◌, some, ◌≡◌, refl, arith, All, length, Bool-cases, inl, inr,
}
use zenith_db.Bytes.{Bytes, lt_bytes}
use zenith_db.SkipList.{Heap}
use zenith_db.SkipList.Chain.{Entry, first_tall, Linked, HasLink, lower_bound}
use zenith_db.SkipList.Find.{next_of_lem}
use zenith_db.SkipList.View.{view}
use zenith_db.MemTable.{scan_loop, entries_loop}
use zenith_db.OrdMap.Window.{upto, from}

module _ (heap : Heap) where
  -- Where an iterator stands in front of the rest of the list.
  first_entry :
      (x : Entry) (after : List Entry) → HasLink x → first_tall 0 (x ∷ after) ≡ some x.addr
  first_entry x after h = ground arith

  pub entries_loop_lem :
      (fuel : ℕ) (todo : List Entry)
      → Linked heap todo
      → All HasLink todo
      → length todo ≤ fuel
      → entries_loop fuel heap (first_tall 0 todo) ≡ some (view todo)
  unfolding entries_loop
  entries_loop_lem zero [] l h f = refl
  entries_loop_lem (suc fuel) [] l h f = refl
  entries_loop_lem zero (x ∷ todo) l h f = absurd (omega arith)
  entries_loop_lem (suc fuel) (x ∷ todo) l h f =
      let n = l.0 in
      rw
        (
          first_entry x todo h.0,
          n.at,
          next_of_lem heap x todo 0 n h.0,
          entries_loop_lem fuel todo l.1 h.1 (omega arith),
        )
        (ground (arith, n.key, n.value))

  pub scan_loop_lem :
      (fuel : ℕ) (end : Bytes) (todo : List Entry)
      → Linked heap todo
      → All HasLink todo
      → length todo ≤ fuel
      → scan_loop fuel heap end (first_tall 0 todo) ≡ some (upto end (view todo))
  unfolding scan_loop
  scan_loop_lem zero end [] l h f = refl
  scan_loop_lem (suc fuel) end [] l h f = refl
  scan_loop_lem zero end (x ∷ todo) l h f = absurd (omega arith)
  scan_loop_lem (suc fuel) end (x ∷ todo) l h f =
      let n = l.0 in
      ground (
        arith,
        first_entry x todo h.0,
        n.at,
        next_of_lem heap x todo 0 n h.0,
        scan_loop_lem fuel end todo l.1 h.1,
        n.key,
        n.value,
      )

  -- From the lower bound on.
  pub scan_from_bound :
      (fuel : ℕ) (start end : Bytes) (order : List Entry)
      → Linked heap order
      → All HasLink order
      → length order ≤ fuel
      → scan_loop fuel heap end (lower_bound start order)
        ≡ some (upto end (from start (view order)))
  scan_from_bound fuel start end [] l h f = scan_loop_lem fuel end [] l h f
  scan_from_bound fuel start end (x ∷ order) l h f = elim (Bool-cases (lt_bytes x.key start)) [
    | inl low ↦ rw low (scan_from_bound fuel start end order l.1 h.1 (omega arith))
    | inr at ↦ rw at (rw (← first_entry x order h.0) (scan_loop_lem fuel end (x ∷ order) l h f))
  ]
