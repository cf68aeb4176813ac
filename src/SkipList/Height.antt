-- ===== src/SkipList/Height.antt =====
-- `RandomHeight` stays in range.
use zenith_db.Prelude.{ℕ, zero, suc, ◌+◌, ◌≤◌, arith}
use zenith_db.SkipList.{random_loop, random_height, k_max_height}

random_loop_bounds :
    (rand : ℕ → ℕ) (left height draws : ℕ)
    → (height ≤ (random_loop rand left height draws).0)
      × ((random_loop rand left height draws).0 ≤ height + left)
unfolding random_loop
random_loop_bounds rand zero height draws = omega arith
random_loop_bounds rand (suc left) height draws =
    ground (arith, random_loop_bounds rand left (height + 1) (draws + 1))

-- Whatever `rand` returns, the height of a node is at least 1 and at most 12.
pub random_height_bounds :
    (rand : ℕ → ℕ) (draws : ℕ)
    → (1 ≤ (random_height rand draws).0) × ((random_height rand draws).0 ≤ k_max_height)
unfolding random_height
random_height_bounds rand draws = random_loop_bounds rand 11 1 draws
