-- ===== src/BlockCache/Recency.antt =====
-- Lookups in the recency list, and the longest part of it that fits a capacity.
use zenith_db.Prelude.{
  ℕ, ◌+◌, ◌-◌, ◌≤◌, ◌<◌, [], ◌∷◌, ◌++◌, none, some, false, ◌≡◌, ◌⊎◌, refl, ap, arith, length, leb,
  if◌then◌else◌, inl, inr, Bool-cases,
}
use zenith_db.Bytes.{Bytes, eq_bytes, eq_bytes_iff}
use zenith_db.BlockCache.{Lru, lookup, without, pop_back}

-- The bytes that the list holds.
abbrev pub total : Lru → ℕ
total [] = 0
total (e ∷ lru) = length e.1 + total lru

-- The longest front part of the list whose bytes fit the capacity.
unfoldable pub fit : ℕ → Lru → Lru
fit capacity [] = []
fit capacity (e ∷ lru) =
    let rest = fit (capacity - length e.1) lru in if leb (length e.1) capacity then e ∷ rest else []

-- No key stands in the list twice.
abbrev pub Unique : Lru → Type 0
Unique [] = Unit
Unique (e ∷ lru) = (lookup e.0 lru ≡ none) × Unique lru

pub total-fit : (capacity : ℕ) (lru : Lru) → total (fit capacity lru) ≤ capacity
unfolding fit
total-fit capacity [] = omega arith
total-fit capacity (e ∷ lru) = ground (arith, total-fit (capacity - length e.1) lru)

pub total-fit-le : (capacity : ℕ) (lru : Lru) → total (fit capacity lru) ≤ total lru
unfolding fit
total-fit-le capacity [] = omega arith
total-fit-le capacity (e ∷ lru) = ground (arith, total-fit-le (capacity - length e.1) lru)

pub fit-whole : (capacity : ℕ) (lru : Lru) → total lru ≤ capacity → fit capacity lru ≡ lru
unfolding fit
fit-whole capacity [] h = refl
fit-whole capacity (e ∷ lru) h = ground (arith, fit-whole (capacity - length e.1) lru)

pub total-append : (xs ys : Lru) → total (xs ++ ys) ≡ total xs + total ys
total-append [] ys = omega arith
total-append (e ∷ xs) ys = omega (arith, total-append xs ys)

-- What does not fit with its last entry loses it.
pub fit-append :
    (capacity : ℕ) (lru : Lru) (e : Bytes × Bytes)
    → capacity < total (lru ++ e ∷ [])
    → fit capacity (lru ++ e ∷ []) ≡ fit capacity lru
unfolding fit
fit-append capacity [] e h = ground arith
fit-append capacity (d ∷ lru) e h = ground (arith, fit-append (capacity - length d.1) lru e)

-- The last entry, with what stands before it.
pub record LastOf (lru : Lru) : Type 0 where
  pub last : Bytes × Bytes
  pub before : Lru
  pub returns : pop_back lru ≡ some (last, before)
  pub parts : lru ≡ before ++ last ∷ []

pub pop_back_lem : (e : Bytes × Bytes) (lru : Lru) → LastOf (e ∷ lru)
unfolding pop_back
pop_back_lem e [] = record { last = e; before = []; returns = refl; parts = refl }
pop_back_lem e (d ∷ lru) =
    let r = pop_back_lem d lru in
    record {
      last = r.last;
      before = e ∷ r.before;
      returns = rw (r.returns, pop_back) refl;
      parts = ap (λ x. e ∷ x) r.parts;
    }

pub lookup-without :
    (key k : Bytes) (lru : Lru) → eq_bytes k key ≡ false → lookup k (without key lru) ≡ lookup k lru
unfolding lookup without
lookup-without key k [] h = refl
lookup-without key k ((j, b) ∷ lru) h =
    ground (arith, lookup-without key k lru h, eq_bytes_iff key j)

pub lookup-without_self :
    (key : Bytes) (lru : Lru) → Unique lru → lookup key (without key lru) ≡ none
unfolding lookup without
lookup-without_self key [] u = refl
lookup-without_self key ((j, b) ∷ lru) u =
    ground (arith, lookup-without_self key lru u.1, eq_bytes_iff key j, u.0)

lookup-without-none :
    (key k : Bytes) (lru : Lru) → lookup k lru ≡ none → lookup k (without key lru) ≡ none
unfolding lookup without
lookup-without-none key k [] h = refl
lookup-without-none key k ((j, b) ∷ lru) h = ground (arith, lookup-without-none key k lru)

pub without-Unique : (key : Bytes) (lru : Lru) → Unique lru → Unique (without key lru)
unfolding without
without-Unique key [] u = tt
without-Unique key ((j, b) ∷ lru) u = elim (Bool-cases (eq_bytes key j)) [
  | inl same ↦ rw same u.1
  | inr other ↦ rw other (lookup-without-none key j lru u.0, without-Unique key lru u.1)
]

-- What fits holds nothing else than the list does.
pub lookup-fit :
    (capacity : ℕ) (k : Bytes) (lru : Lru)
    → (lookup k (fit capacity lru) ≡ none) ⊎ (lookup k (fit capacity lru) ≡ lookup k lru)
unfolding lookup fit
lookup-fit capacity k [] = inl refl
lookup-fit capacity k (e ∷ lru) = ground (arith, lookup-fit (capacity - length e.1) k lru)

pub fit-Unique : (capacity : ℕ) (lru : Lru) → Unique lru → Unique (fit capacity lru)
unfolding fit
fit-Unique capacity [] u = tt
fit-Unique capacity (e ∷ lru) u = elim (Bool-cases (leb (length e.1) capacity)) [
  | inl fits ↦ rw fits (
    ground (arith, lookup-fit (capacity - length e.1) e.0 lru, u.0),
    fit-Unique (capacity - length e.1) lru u.1,
  )
  | inr big ↦ rw big tt
]

pub total-without :
    (key old : Bytes) (lru : Lru)
    → lookup key lru ≡ some old
    → total lru ≡ total (without key lru) + length old
unfolding lookup without
total-without key old [] h = absurd (ground arith)
total-without key old ((j, b) ∷ lru) h = elim (Bool-cases (eq_bytes key j)) [
  | inl same ↦ rw same (grind (arith, h, same))
  | inr other ↦ rw other (omega (arith, total-without key old lru (grind (arith, h, other))))
]

pub without_absent : (key : Bytes) (lru : Lru) → lookup key lru ≡ none → without key lru ≡ lru
unfolding lookup without
without_absent key [] h = refl
without_absent key ((j, b) ∷ lru) h = ground (arith, without_absent key lru, h)
