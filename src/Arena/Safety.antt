-- ===== src/Arena/Safety.antt =====
-- What is handed out lies in the arena's blocks, and no two ranges overlap.
use zenith_db.Prelude.{
  ℕ, ◌+◌, ◌-◌, ◌%◌, ◌^◌, ◌/◌, ◌≤◌, ◌<◌, ◌⊎◌, inl, inr, List, [], ◌∷◌, ◌≡◌, refl, arith, All, ltb,
  leb, ◌==◌, Bool-cases, if◌then◌else◌, leb→le, ltb→le,
}
use zenith_db.Arena.{
  Allocator, Arena, allocate_new_block, allocate_fallback, allocate, allocate_behind,
  allocate_aligned, block_size, new_arena,
}
use zenith_db.Arena.Ranges.{
  Range, Apart, Within, Inside, Apart-Inside, Apart-swap, All-Apart-Inside, All-Apart-Within,
  All-Inside-cons, Inside-Within,
}

-- Pairwise apart.
abbrev pub Disjoint : List Range → Type 0
Disjoint [] = Unit
Disjoint (r ∷ rs) = All (Apart r) rs × Disjoint rs

-- The bytes of the blocks, with a pointer for each.
abbrev pub footprint : List Range → ℕ
footprint [] = 0
footprint (b ∷ bs) = b.1 + 8 + footprint bs

abbrev window : Arena → Range
window a = (a.alloc_ptr, a.alloc_bytes_remaining)

-- The arena, with the ranges that it has handed out.
pub record IsSound (a : Arena) (live : List Range) : Type 0 where
  pub inside : All (λ r. Inside r a.blocks) live
  pub disjoint : Disjoint live
  pub free : All (Apart (window a)) live
  pub backed : ((a.alloc_ptr ≡ 0) × (a.alloc_bytes_remaining ≡ 0)) ⊎ Inside (window a) a.blocks
  pub usage : a.memory_usage ≡ footprint a.blocks % 2 ^ 64

pub new_arena-IsSound : IsSound new_arena []
new_arena-IsSound = record {
  inside = tt;
  disjoint = tt;
  free = tt;
  backed = inl (refl, refl);
  usage = omega arith;
}

-- Bytes at the front of the window, behind a gap, are handed out.
take_window :
    (a : Arena) (live : List Range) (gap bytes ptr next left : ℕ)
    → 0 < bytes
    → gap + bytes ≤ a.alloc_bytes_remaining
    → ptr ≡ a.alloc_ptr + gap
    → next ≡ ptr + bytes
    → left ≡ a.alloc_bytes_remaining - (gap + bytes)
    → IsSound a live
    → IsSound (record a { alloc_ptr = next; alloc_bytes_remaining = left }) ((ptr, bytes) ∷ live)
take_window a live gap bytes ptr next left pos fit ep en el h =
    let in_block : Inside (window a) a.blocks = elim h.backed [
      | inl e ↦ absurd (omega arith)
      | inr i ↦ i
    ] in
    let taken_in : Within (ptr, bytes) (window a) = omega arith in
    let rest_in : Within (next, left) (window a) = omega arith in
    record {
      inside = (Inside-Within (ptr, bytes) (window a) a.blocks taken_in in_block, h.inside);
      disjoint = (All-Apart-Within (ptr, bytes) (window a) live taken_in h.free, h.disjoint);
      free = (inr (omega arith), All-Apart-Within (next, left) (window a) live rest_in h.free);
      backed = inr (Inside-Within (next, left) (window a) a.blocks rest_in in_block);
      usage = h.usage;
    }

module _ (env : Allocator) (a : Arena) (live : List Range) (h : IsSound a live) where
  -- A large request gets a block of its own, and the window stays.
  dedicated-IsSound :
      (bytes : ℕ)
      → IsSound
          (allocate_new_block env bytes a).1
          (((allocate_new_block env bytes a).0, bytes) ∷ live)
  unfolding allocate_new_block
  dedicated-IsSound bytes =
      let p = env.new_char a.blocks bytes in
      let fresh = env.fresh a.blocks bytes in
      let block : Range = (p, bytes) in
      let window_apart : Apart (window a) block = elim h.backed [
        | inl e ↦ inl (omega arith)
        | inr i ↦ Apart-swap block (window a) (Apart-Inside block (window a) a.blocks fresh i)
      ] in
      record {
        inside = (inl (omega arith), All-Inside-cons block live a.blocks h.inside);
        disjoint = (All-Apart-Inside block live a.blocks fresh h.inside, h.disjoint);
        free = (window_apart, h.free);
        backed = elim h.backed [ inl e ↦ inl e | inr i ↦ inr (inr i) ];
        usage = omega (arith, h.usage);
      }

  -- A fresh block becomes the window; what was left of the old one is given up.
  open_block :
      (n : ℕ)
      → IsSound
          (record (allocate_new_block env n a).1 {
            alloc_ptr = (allocate_new_block env n a).0;
            alloc_bytes_remaining = n;
          })
          live
  unfolding allocate_new_block
  open_block n =
      let p = env.new_char a.blocks n in
      let fresh = env.fresh a.blocks n in
      let block : Range = (p, n) in
      record {
        inside = All-Inside-cons block live a.blocks h.inside;
        disjoint = h.disjoint;
        free = All-Apart-Inside block live a.blocks fresh h.inside;
        backed = inr (inl (omega arith));
        usage = omega (arith, h.usage);
      }

  fallback-IsSound :
      (bytes : ℕ)
      → 0 < bytes
      → IsSound
          (allocate_fallback env bytes a).1
          (((allocate_fallback env bytes a).0, bytes) ∷ live)
  unfolding allocate_fallback
  fallback-IsSound bytes pos = elim (Bool-cases (ltb (block_size / 4) bytes)) [
    | inl large ↦ rw large (dedicated-IsSound bytes)
    | inr small ↦
        let p = env.new_char a.blocks block_size in
        rw small (
          take_window
            (record a {
              alloc_ptr = p;
              alloc_bytes_remaining = block_size;
              blocks = (p, block_size) ∷ a.blocks;
              memory_usage = (a.memory_usage + (block_size + 8)) % 2 ^ 64;
            })
            live 0 bytes p (p + bytes) (block_size - bytes) pos (omega (arith, ltb→le _ _ small))
            (omega arith) refl (omega arith) (open_block block_size))
  ]

  -- Of a sound arena, `Allocate` of at least one byte hands out bytes that lie in a block of the
  -- arena and overlap nothing handed out before, and the usage counts every block with its
  -- pointer.
  pub allocate-IsSound :
      (bytes : ℕ)
      → 0 < bytes
      → IsSound (allocate env bytes a).1 (((allocate env bytes a).0, bytes) ∷ live)
  unfolding allocate
  allocate-IsSound bytes pos = elim (Bool-cases (leb bytes a.alloc_bytes_remaining)) [
    | inl fits ↦ rw fits (
        take_window a live 0 bytes a.alloc_ptr (a.alloc_ptr + bytes)
          (a.alloc_bytes_remaining - bytes) pos (omega (arith, leb→le _ _ fits)) (omega arith) refl
          (omega arith) h)
    | inr full ↦ rw full (fallback-IsSound bytes pos)
  ]

  aligned_in_window :
      (bytes slop : ℕ)
      → 0 < bytes
      → bytes + slop < 2 ^ 64
      → (bytes + slop) % 2 ^ 64 ≤ a.alloc_bytes_remaining
      → IsSound
          (record a {
            alloc_ptr = a.alloc_ptr + (bytes + slop) % 2 ^ 64;
            alloc_bytes_remaining = a.alloc_bytes_remaining - (bytes + slop) % 2 ^ 64;
          })
          ((a.alloc_ptr + slop, bytes) ∷ live)
  aligned_in_window bytes slop pos small fits =
      take_window a live slop bytes (a.alloc_ptr + slop) (a.alloc_ptr + (bytes + slop) % 2 ^ 64)
        (a.alloc_bytes_remaining - (bytes + slop) % 2 ^ 64) pos (omega arith) refl (omega arith)
        (omega arith) h

  fallback_aligned : (bytes : ℕ) → (allocate_fallback env bytes a).0 % 8 ≡ 0
  unfolding allocate_fallback
  fallback_aligned bytes =
      ground (arith, env.aligned a.blocks bytes, env.aligned a.blocks block_size)

  behind-IsSound :
      (bytes slop : ℕ)
      → 0 < bytes
      → bytes + slop < 2 ^ 64
      → (a.alloc_ptr + slop) % 8 ≡ 0
      → IsSound
          (allocate_behind env slop bytes a).1
          (((allocate_behind env slop bytes a).0, bytes) ∷ live)
        × ((allocate_behind env slop bytes a).0 % 8 ≡ 0)
  unfolding allocate_behind
  behind-IsSound bytes slop pos small even =
      elim (Bool-cases (leb ((bytes + slop) % 2 ^ 64) a.alloc_bytes_remaining)) [
        | inl fits ↦ rw fits (aligned_in_window bytes slop pos small (leb→le _ _ fits), even)
        | inr full ↦ rw full (fallback-IsSound bytes pos, fallback_aligned bytes)
      ]

  -- Of a sound arena, `AllocateAligned` of between 1 and 2^64 - 9 bytes hands out bytes that lie
  -- in a block of the arena and overlap nothing handed out before, keeps the usage the sum over
  -- all blocks, and the address is a multiple of 8.
  pub allocate_aligned-IsSound :
      (bytes : ℕ)
      → 0 < bytes
      → bytes + 8 < 2 ^ 64
      → IsSound (allocate_aligned env bytes a).1 (((allocate_aligned env bytes a).0, bytes) ∷ live)
        × ((allocate_aligned env bytes a).0 % 8 ≡ 0)
  unfolding allocate_aligned
  allocate_aligned-IsSound bytes pos small =
      let slop : ℕ = if a.alloc_ptr % 8 == 0 then 0 else 8 - a.alloc_ptr % 8 in
      behind-IsSound bytes slop pos (ground arith) (ground arith)
