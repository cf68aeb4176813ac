-- ===== src/SkipList/Invariant.antt =====
-- The invariant of a skip list, and what lookups return under it.
use zenith_db.Prelude.{
  ℕ, ◌+◌, ◌-◌, ◌≤◌, List, [], ◌∷◌, none, some, true, false, ◌≡◌, arith, All, length, inl, inr,
  Option-cases,
}
use zenith_db.Bytes.{Bytes}
use zenith_db.OrdMap.{find}
use zenith_db.Arena.Ranges.{Range}
use zenith_db.Arena.Safety.{IsSound}
use zenith_db.SkipList.{SkipList, no_prev, find_loop, get, contains}
use zenith_db.SkipList.Chain.{Entry, Linked, Ascends, HasLink}
use zenith_db.SkipList.Find.{FindsFrom, find_loop_lem}
use zenith_db.SkipList.Splice.{Distinct}
use zenith_db.SkipList.Place.{Occupied}
use zenith_db.SkipList.View.{view, lookup_entry, find-view, match_absent, Match-present}

-- The head, which has all levels and no key.
abbrev pub head_entry : SkipList → Entry
head_entry s = record { addr = s.head; key = []; value = []; height = 12 }

-- The entries of the list in order. The heap links them at each level, the walk begins at a level
-- that covers all heights, and every node lies in memory that the arena has handed out.
pub record IsChain (s : SkipList) (order : List Entry) : Type 0 where
  pub linked : Linked s.heap (head_entry s ∷ order)
  pub ascends : Ascends order
  pub has_link : All HasLink order
  pub capped : All (λ (e : Entry). e.height ≤ s.max_height) order
  pub distinct : Distinct (head_entry s ∷ order)
  pub levels : (1 ≤ s.max_height) × (s.max_height ≤ 12)
  pub live : List Range
  pub sound : IsSound s.arena live
  pub placed : All (λ (e : Entry). Occupied live e.addr) (head_entry s ∷ order)

module _ (s : SkipList) (order : List Entry) (h : IsChain s order) (fuel : ℕ) (key : Bytes)
    (enough : length order + 12 ≤ fuel) where
  pub find_lem :
      FindsFrom s.heap key
        (head_entry s)
        order
        (s.max_height - 1)
        no_prev
        (find_loop fuel s.heap key s.head (s.max_height - 1) no_prev)
  find_lem =
      find_loop_lem s.heap key fuel (head_entry s) order (s.max_height - 1) no_prev h.linked
        h.ascends h.has_link (omega (arith, h.levels.0, h.levels.1))
        (omega (arith, h.levels.0, h.levels.1))

  -- On a skip list that satisfies the invariant, with fuel for the entries and 12 levels, `Get`
  -- faults nowhere, and returns the value that the list holds for the key, or that there is none.
  pub get_lem : get fuel s key ≡ some (find key (view order))
  unfolding get
  get_lem =
      let f = find_lem in
      elim (Option-cases (lookup_entry key order)) [
        | inl absent ↦
            rw (f.returns, match_absent s.heap key order h.linked.1 absent)
              (ground (arith, find-view key order, absent))
        | inr (y, present) ↦
            let m = Match-present s.heap key order y h.linked.1 h.ascends present in
            rw (f.returns, m.returns) (ground (arith, find-view key order, present, m.value))
      ]

  -- On a skip list that satisfies the invariant, with fuel for the entries and 12 levels,
  -- `Contains` faults nowhere, and tells whether the list holds a value for the key.
  pub contains_lem :
      contains fuel s key ≡ some (elim (find key (view order)) [ none ↦ false | some _ ↦ true ])
  unfolding contains
  contains_lem =
      let f = find_lem in
      elim (Option-cases (lookup_entry key order)) [
        | inl absent ↦
            rw (f.returns, match_absent s.heap key order h.linked.1 absent)
              (ground (arith, find-view key order, absent))
        | inr (y, present) ↦
            let m = Match-present s.heap key order y h.linked.1 h.ascends present in
            rw (f.returns, m.returns) (ground (arith, find-view key order, present))
      ]
