-- ===== src/Arena/Ranges.antt =====
-- Ranges of addresses.
use zenith_db.Prelude.{ℕ, ◌+◌, ◌≤◌, ◌⊎◌, inl, inr, List, [], ◌∷◌, arith, All}

-- A start and a length.
abbrev pub Range : Type 0
Range = ℕ × ℕ

-- No address is in both.
abbrev pub Apart : Range → Range → Type 0
Apart r s = (r.0 + r.1 ≤ s.0) ⊎ (s.0 + s.1 ≤ r.0)

abbrev pub Within : Range → Range → Type 0
Within r s = (s.0 ≤ r.0) × (r.0 + r.1 ≤ s.0 + s.1)

-- Some block of the list holds the whole range.
abbrev pub Inside : Range → List Range → Type 0
Inside r [] = ⊥
Inside r (b ∷ bs) = Within r b ⊎ Inside r bs

pub Apart-Inside :
    (n r : Range) (blocks : List Range) → All (Apart n) blocks → Inside r blocks → Apart n r
Apart-Inside n r [] a h = absurd h
Apart-Inside n r (b ∷ bs) a (inl w) = outside n r b a.0 w
  where
    outside : (n r b : Range) → Apart n b → Within r b → Apart n r
    outside n r b (inl p) w = inl (omega arith)
    outside n r b (inr p) w = inr (omega arith)
Apart-Inside n r (b ∷ bs) a (inr i) = Apart-Inside n r bs a.1 i

-- A range is apart from all that lie in blocks from which it is apart.
pub All-Apart-Inside :
    (n : Range) (live blocks : List Range)
    → All (Apart n) blocks
    → All (λ r. Inside r blocks) live
    → All (Apart n) live
All-Apart-Inside n [] blocks a h = tt
All-Apart-Inside n (r ∷ live) blocks a h =
    (Apart-Inside n r blocks a h.0, All-Apart-Inside n live blocks a h.1)

-- A smaller range in the same place is apart from what the larger one is apart from.
pub All-Apart-Within :
    (n m : Range) (live : List Range) → Within n m → All (Apart m) live → All (Apart n) live
All-Apart-Within n m [] w a = tt
All-Apart-Within n m (r ∷ live) w (inl p, rest) =
    (inl (omega arith), All-Apart-Within n m live w rest)
All-Apart-Within n m (r ∷ live) w (inr p, rest) =
    (inr (omega arith), All-Apart-Within n m live w rest)

pub All-Inside-cons :
    (b : Range) (live blocks : List Range)
    → All (λ r. Inside r blocks) live
    → All (λ r. Inside r (b ∷ blocks)) live
All-Inside-cons b [] blocks h = tt
All-Inside-cons b (r ∷ live) blocks h = (inr h.0, All-Inside-cons b live blocks h.1)

pub Inside-Within :
    (n m : Range) (blocks : List Range) → Within n m → Inside m blocks → Inside n blocks
Inside-Within n m [] w i = i
Inside-Within n m (b ∷ bs) w (inl v) = inl (omega arith, omega arith)
Inside-Within n m (b ∷ bs) w (inr i) = inr (Inside-Within n m bs w i)

pub Apart-swap : (r s : Range) → Apart r s → Apart s r
Apart-swap r s (inl p) = inr p
Apart-swap r s (inr p) = inl p
