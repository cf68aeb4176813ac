-- ===== src/Tests/Memory.antt =====
-- An allocator that takes each block behind all others, and an arena over it.
use zenith_db.Prelude.{ℕ, ◌+◌, ◌*◌, ◌%◌, ◌≤◌, List, [], ◌∷◌, ◌≡◌, refl, arith, All, All-map, inr}
use zenith_db.Arena.{Allocator, Arena, allocate, allocate_aligned, new_arena}
use zenith_db.Arena.Ranges.{Range, Apart}
use zenith_db.Arena.Safety
use zenith_db.Arena.Safety.{IsSound, new_arena-IsSound}

-- A number above all ends of the ranges.
abbrev pub above : List Range → ℕ
above [] = 1
above (b ∷ bs) = b.0 + b.1 + above bs

pub above_ends : (blocks : List Range) → All (λ (b : Range). b.0 + b.1 ≤ above blocks) blocks
above_ends [] = tt
above_ends (b ∷ bs) = (
  omega arith,
  All-map (λ (c : Range). c.0 + c.1 ≤ above bs) (λ (c : Range). c.0 + c.1 ≤ b.0 + b.1 + above bs) bs
      (λ c le. omega arith) (above_ends bs),
)

pub above_pos : (blocks : List Range) → 1 ≤ above blocks
above_pos [] = omega arith
above_pos (b ∷ bs) = omega (arith, above_pos bs)

abbrev pub bump : Allocator
bump = record {
  new_char = λ blocks n. 8 * above blocks;
  fresh = λ blocks n.
      All-map (λ (b : Range). b.0 + b.1 ≤ above blocks) (Apart (8 * above blocks, n)) blocks
        (λ b le. inr (omega arith)) (above_ends blocks);
  aligned = λ blocks n. omega arith;
  not_null = λ blocks n. omega (arith, above_pos blocks);
}

-- The arena after one request for 100 bytes, which lie at its first block.
abbrev used_arena : Arena
used_arena = (allocate bump 100 new_arena).1

used_arena-IsSound : IsSound used_arena ((8, 100) ∷ [])
unfolding allocate
used_arena-IsSound = Safety.allocate-IsSound bump new_arena [] new_arena-IsSound 100 (omega arith)

-- 7 bytes behind the 100; then the gap to the multiple of 8.
allocate_runs :
    ((allocate bump 7 used_arena).0 ≡ 108) × ((allocate_aligned bump 7 used_arena).0 ≡ 112)
unfolding allocate allocate_aligned
allocate_runs = (refl, refl)

allocate-IsSound_example :
    IsSound (allocate bump 7 used_arena).1 (((allocate bump 7 used_arena).0, 7) ∷ (8, 100) ∷ [])
allocate-IsSound_example =
    Safety.allocate-IsSound bump used_arena ((8, 100) ∷ []) used_arena-IsSound 7 (omega arith)

allocate_aligned-IsSound_example :
    IsSound
      (allocate_aligned bump 7 used_arena).1
      (((allocate_aligned bump 7 used_arena).0, 7) ∷ (8, 100) ∷ [])
    × ((allocate_aligned bump 7 used_arena).0 % 8 ≡ 0)
allocate_aligned-IsSound_example =
    Safety.allocate_aligned-IsSound bump used_arena ((8, 100) ∷ []) used_arena-IsSound 7
      (omega arith) (omega arith)
