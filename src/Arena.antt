-- ===== src/Arena.antt =====
-- The bump allocator: src/arena.h. Addresses are numbers; nullptr is 0.
pub mod Ranges
pub mod Safety
use zenith_db.Prelude.{
  ℕ, ◌+◌, ◌-◌, ◌*◌, ◌%◌, ◌^◌, ◌/◌, ◌≤◌, ◌<◌, List, [], ◌∷◌, ◌++◌, ◌≡◌, ltb, leb, ◌==◌, All,
  if◌then◌else◌,
}
use Ranges.{Range, Apart}

-- `new char[n]`, by the blocks that are out already: what it returns overlaps none of them, is
-- aligned for every fundamental type, and is not null.
pub record Allocator : Type 0 where
  pub new_char : List Range → ℕ → ℕ
  pub fresh : (blocks : List Range) (n : ℕ) → All (Apart (new_char blocks n, n)) blocks
  pub aligned : (blocks : List Range) (n : ℕ) → new_char blocks n % 8 ≡ 0
  pub not_null : (blocks : List Range) (n : ℕ) → 0 < new_char blocks n

-- `blocks_` holds the pointers; each stands here with the length that was asked for.
pub record Arena : Type 0 where
  pub alloc_ptr : ℕ
  pub alloc_bytes_remaining : ℕ
  pub blocks : List Range
  pub memory_usage : ℕ

-- `Arena()`.
abbrev pub new_arena : Arena
new_arena = record { alloc_ptr = 0; alloc_bytes_remaining = 0; blocks = []; memory_usage = 0 }

abbrev pub block_size : ℕ
block_size = 4096

module _ (env : Allocator) where
  unfoldable pub allocate_new_block : ℕ → Arena → ℕ × Arena
  allocate_new_block block_bytes a =
      let result = env.new_char a.blocks block_bytes in
      (
        result,
        record a {
          blocks = (result, block_bytes) ∷ a.blocks;
          memory_usage = (a.memory_usage + (block_bytes + 8)) % 2 ^ 64;
        },
      )

  -- A dedicated block if the request is large, else a fresh block of the common size.
  unfoldable pub allocate_fallback : ℕ → Arena → ℕ × Arena
  unfolding allocate_new_block
  allocate_fallback bytes a =
      if ltb (block_size / 4) bytes
      then allocate_new_block bytes a
      else let (ptr, b) = allocate_new_block block_size a in
        (ptr, record b { alloc_ptr = ptr + bytes; alloc_bytes_remaining = block_size - bytes })

  unfoldable pub allocate : ℕ → Arena → ℕ × Arena
  unfolding allocate_fallback
  allocate bytes a =
      if leb bytes a.alloc_bytes_remaining
      then (
        a.alloc_ptr,
        record a {
          alloc_ptr = a.alloc_ptr + bytes;
          alloc_bytes_remaining = a.alloc_bytes_remaining - bytes;
        },
      )
      else allocate_fallback bytes a

  -- The second half of `AllocateAligned`: behind a gap of `slop` bytes, if that fits.
  unfoldable pub allocate_behind : ℕ → ℕ → Arena → ℕ × Arena
  unfolding allocate_fallback
  allocate_behind slop bytes a =
      let needed = (bytes + slop) % 2 ^ 64 in
      if leb needed a.alloc_bytes_remaining
      then (
        a.alloc_ptr + slop,
        record a {
          alloc_ptr = a.alloc_ptr + needed;
          alloc_bytes_remaining = a.alloc_bytes_remaining - needed;
        },
      )
      else allocate_fallback bytes a

  -- `align` is 8; `x & 7` is `x % 8`.
  unfoldable pub allocate_aligned : ℕ → Arena → ℕ × Arena
  unfolding allocate_behind
  allocate_aligned bytes a =
      let current_mod = a.alloc_ptr % 8 in
      allocate_behind (if current_mod == 0 then 0 else 8 - current_mod) bytes a
