-- ===== src/Bytes/Order.antt =====
-- The order of std::string: the first byte that differs decides, as unsigned, then the length.
use zenith_db.Prelude.{
  ℕ, List, [], ◌∷◌, ◌≡◌, refl, ◌↔◌, Bool, true, false, Ordering, compare, arith, ◌⊎◌, inl, inr,
}

abbrev pub Bytes : Type 0
Bytes = List ℕ

-- `a.compare(b)`.
unfoldable pub cmp : Bytes → Bytes → Ordering
cmp [] [] = Ordering.eq
cmp [] (y ∷ ys) = Ordering.lt
cmp (x ∷ xs) [] = Ordering.gt
cmp (x ∷ xs) (y ∷ ys) = elim (compare x y) [
  | Ordering.lt ↦ Ordering.lt
  | Ordering.eq ↦ cmp xs ys
  | Ordering.gt ↦ Ordering.gt
]

-- `a < b`, `a <= b` and `a == b` on strings.
abbrev pub lt_bytes : Bytes → Bytes → Bool
lt_bytes a b = elim (cmp a b) [ Ordering.lt ↦ true | _ ↦ false ]

abbrev pub eq_bytes : Bytes → Bytes → Bool
eq_bytes a b = elim (cmp a b) [ Ordering.eq ↦ true | _ ↦ false ]

abbrev pub Before : Bytes → Bytes → Type 0
Before a b = cmp a b ≡ Ordering.lt

pub cmp_refl : (a : Bytes) → cmp a a ≡ Ordering.eq
unfolding cmp
cmp_refl [] = refl
cmp_refl (x ∷ xs) = ground (arith, cmp_refl xs)

pub eq_of_cmp : (a b : Bytes) → cmp a b ≡ Ordering.eq → a ≡ b
unfolding cmp
eq_of_cmp [] [] h = refl
eq_of_cmp [] (y ∷ ys) h = cc
eq_of_cmp (x ∷ xs) [] h = cc
eq_of_cmp (x ∷ xs) (y ∷ ys) h = ground (arith, eq_of_cmp xs ys)

-- Both directions of the order at once.
pub cmp_swap :
    (a b : Bytes)
    → ((cmp a b ≡ Ordering.lt) × (cmp b a ≡ Ordering.gt))
      ⊎ (((cmp a b ≡ Ordering.eq) × (cmp b a ≡ Ordering.eq))
          ⊎ ((cmp a b ≡ Ordering.gt) × (cmp b a ≡ Ordering.lt)))
unfolding cmp
cmp_swap [] [] = inr (inl (refl, refl))
cmp_swap [] (y ∷ ys) = inl (refl, refl)
cmp_swap (x ∷ xs) [] = inr (inr (refl, refl))
cmp_swap (x ∷ xs) (y ∷ ys) = ground (arith, cmp_swap xs ys)

pub Before-trans : (a b c : Bytes) → Before a b → Before b c → Before a c
unfolding cmp
Before-trans [] [] c h k = cc
Before-trans [] (y ∷ ys) [] h k = cc
Before-trans [] (y ∷ ys) (z ∷ zs) h k = refl
Before-trans (x ∷ xs) [] c h k = cc
Before-trans (x ∷ xs) (y ∷ ys) [] h k = cc
Before-trans (x ∷ xs) (y ∷ ys) (z ∷ zs) h k = ground (arith, Before-trans xs ys zs)

pub eq_bytes_iff : (a b : Bytes) → (eq_bytes a b ≡ true) ↔ (a ≡ b)
eq_bytes_iff a b = (λ h. eq_of_cmp a b (ground arith), λ e. ground (arith, cmp_refl a))
