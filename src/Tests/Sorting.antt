-- ===== src/Tests/Sorting.antt =====
-- An insertion sort of entries by their first keys.
use zenith_db.Prelude.{List, [], ◌∷◌, false, ◌≡◌, arith, if◌then◌else◌, All, Bool-cases, inl, inr}
use zenith_db.Bytes.{Bytes, lt_bytes, cmp_swap, eq_of_cmp, Before-trans}
use zenith_db.Compaction.{FileEntry}
use zenith_db.Database.Levels.{Ascends, Sorts}

insert_entry : FileEntry → List FileEntry → List FileEntry
insert_entry f [] = f ∷ []
insert_entry f (g ∷ gs) =
    let rest = insert_entry f gs in if lt_bytes g.min_key f.min_key then g ∷ rest else f ∷ g ∷ gs

unfoldable pub sort_entries : List FileEntry → List FileEntry
unfolding insert_entry
sort_entries [] = []
sort_entries (f ∷ fs) = insert_entry f (sort_entries fs)

module _ (P : FileEntry → Type 0) where
  insert_entry-keeps :
      (f : FileEntry) (gs : List FileEntry) → P f → All P gs → All P (insert_entry f gs)
  unfolding insert_entry
  insert_entry-keeps f [] h hs = (h, tt)
  insert_entry-keeps f (g ∷ gs) h hs = elim (Bool-cases (lt_bytes g.min_key f.min_key)) [
    | inl less ↦ rw less (hs.0, insert_entry-keeps f gs h hs.1)
    | inr more ↦ rw more (h, hs)
  ]

  insert_entry-adds_none :
      (f : FileEntry) (gs : List FileEntry) → All P (insert_entry f gs) → P f × All P gs
  unfolding insert_entry
  insert_entry-adds_none f [] hs = hs
  insert_entry-adds_none f (g ∷ gs) hs = elim (Bool-cases (lt_bytes g.min_key f.min_key)) [
    | inl less ↦
        let hs' = rw (insert_entry, less) at hs in
        let r = insert_entry-adds_none f gs hs'.1 in (r.0, (hs'.0, r.1))
    | inr more ↦ let hs' = rw (insert_entry, more) at hs in hs'
  ]

  keeps : (fs : List FileEntry) → All P fs → All P (sort_entries fs)
  unfolding sort_entries
  keeps [] h = tt
  keeps (f ∷ fs) h = insert_entry-keeps f (sort_entries fs) h.0 (keeps fs h.1)

  adds_none : (fs : List FileEntry) → All P (sort_entries fs) → All P fs
  unfolding sort_entries
  adds_none [] h = tt
  adds_none (f ∷ fs) h =
      let r = insert_entry-adds_none f (sort_entries fs) h in (r.0, adds_none fs r.1)

-- At or behind the first key of an entry.
abbrev NotBelow : Bytes → FileEntry → Type 0
NotBelow k g = lt_bytes g.min_key k ≡ false

NotBelow-trans :
    (a b c : Bytes) → lt_bytes b a ≡ false → lt_bytes c b ≡ false → lt_bytes c a ≡ false
NotBelow-trans a b c h k = elim (cmp_swap c a) [
  | inl less ↦ elim (cmp_swap b a) [
    | inl u ↦ absurd (ground (arith, h, u.0))
    | inr (inl u) ↦ absurd (ground (arith, k, less.0, eq_of_cmp b a u.0))
    | inr (inr u) ↦ absurd (ground (arith, k, Before-trans c a b less.0 u.1))
  ]
  | inr (inl same) ↦ ground (arith, same.0)
  | inr (inr more) ↦ ground (arith, more.0)
]

lower_bound_moves :
    (a b : Bytes) (gs : List FileEntry)
    → lt_bytes b a ≡ false
    → All (NotBelow b) gs
    → All (NotBelow a) gs
lower_bound_moves a b [] h hs = tt
lower_bound_moves a b (g ∷ gs) h hs =
    (NotBelow-trans a b g.min_key h hs.0, lower_bound_moves a b gs h hs.1)

insert_entry-Ascends :
    (f : FileEntry) (gs : List FileEntry) → Ascends gs → Ascends (insert_entry f gs)
unfolding insert_entry
insert_entry-Ascends f [] h = (tt, tt)
insert_entry-Ascends f (g ∷ gs) h = elim (Bool-cases (lt_bytes g.min_key f.min_key)) [
  | inl less ↦ rw less (
    insert_entry-keeps (NotBelow g.min_key) f gs
        (ground (arith, less, cmp_swap f.min_key g.min_key)) h.0,
    insert_entry-Ascends f gs h.1,
  )
  | inr more ↦ rw more ((more, lower_bound_moves f.min_key g.min_key gs more h.0), h)
]

ascends : (fs : List FileEntry) → Ascends (sort_entries fs)
unfolding sort_entries
ascends [] = tt
ascends (f ∷ fs) = insert_entry-Ascends f (sort_entries fs) (ascends fs)

pub Sorts-sort_entries : Sorts sort_entries
Sorts-sort_entries = record { keeps = keeps; adds_none = adds_none; ascends = ascends }
