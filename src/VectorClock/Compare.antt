-- ===== src/VectorClock/Compare.antt =====
-- `compare` against the pointwise order of the counters.
use zenith_db.Prelude.{
  ◌≤◌, ◌<◌, List, [], ◌∷◌, Bool, true, false, ◌≡◌, refl, ◌⊎◌, ◌↔◌, inl, inr, arith, ltb, ltb→lt,
  All, Bool-cases, Option-cases,
}
use mathlib.Core.Path.{subst}
use zenith_db.Bytes.{Bytes}
use zenith_db.OrdMap.{find, keys}
use zenith_db.VectorClock.Nodes.{All-keys, All-nodes, nodes}
use zenith_db.VectorClock.{
  VectorClock, ClockOrder, equal, happens_before, happens_after, concurrent, counter, compare_loop,
  verdict, compare_clocks,
}

-- No counter of `a` is greater than that of `b`.
abbrev pub Below : VectorClock → VectorClock → Type 0
Below a b = (n : Bytes) → counter a n ≤ counter b n

-- Some counter of `a` is greater than that of `b`.
abbrev pub Exceeds : VectorClock → VectorClock → Type 0
Exceeds a b = (n : Bytes) × (counter b n < counter a n)

-- What each result says of two clocks.
abbrev pub Relates : ClockOrder → VectorClock → VectorClock → Type 0
Relates equal a b = Below a b × Below b a
Relates happens_before a b = Below a b × Exceeds b a
Relates happens_after a b = Below b a × Exceeds a b
Relates concurrent a b = Exceeds a b × Exceeds b a

module _ (a b : VectorClock) where
  -- A flag that is up at the end was up before, or was raised at a node.
  raised_this :
      (ns : List Bytes) (f g : Bool) → (compare_loop a b ns f g).0 ≡ true → (f ≡ true) ⊎ Exceeds a b
  unfolding compare_loop
  raised_this [] f g h = inl h
  raised_this (n ∷ ns) f g h = elim (Bool-cases (ltb (counter b n) (counter a n))) [
    | inl more ↦ inr (n, ltb→lt _ _ more)
    | inr less ↦ elim (raised_this ns _ _ h) [ inl up ↦ inl (ground arith) | inr at ↦ inr at ]
  ]

  raised_other :
      (ns : List Bytes) (f g : Bool) → (compare_loop a b ns f g).1 ≡ true → (g ≡ true) ⊎ Exceeds b a
  unfolding compare_loop
  raised_other [] f g h = inl h
  raised_other (n ∷ ns) f g h = elim (Bool-cases (ltb (counter a n) (counter b n))) [
    | inl more ↦ inr (n, ltb→lt _ _ more)
    | inr less ↦ elim (raised_other ns _ _ h) [ inl up ↦ inl (ground arith) | inr at ↦ inr at ]
  ]

  -- A flag that is down at the end was raised at no node.
  lowered_this :
      (ns : List Bytes) (f g : Bool)
      → (compare_loop a b ns f g).0 ≡ false
      → (f ≡ false) × All (λ n. counter a n ≤ counter b n) ns
  unfolding compare_loop
  lowered_this [] f g h = (h, tt)
  lowered_this (n ∷ ns) f g h =
      let (down, rest) = lowered_this ns _ _ h in (ground arith, (ground arith, rest))

  lowered_other :
      (ns : List Bytes) (f g : Bool)
      → (compare_loop a b ns f g).1 ≡ false
      → (g ≡ false) × All (λ n. counter b n ≤ counter a n) ns
  unfolding compare_loop
  lowered_other [] f g h = (h, tt)
  lowered_other (n ∷ ns) f g h =
      let (down, rest) = lowered_other ns _ _ h in (ground arith, (ground arith, rest))

-- A node that the first clock lacks counts 0 there.
Below-of_keys : (a b : VectorClock) → All (λ n. counter a n ≤ counter b n) (keys a) → Below a b
Below-of_keys a b h n = elim (Option-cases (find n a)) [
  | inl absent ↦ ground arith
  | inr (c, found) ↦ All-keys (λ n. counter a n ≤ counter b n) a n c h found
]

module _ (a b : VectorClock) where
  flags_this :
      ((compare_loop a b (nodes a b) false false).0 ≡ true → Exceeds a b)
      × ((compare_loop a b (nodes a b) false false).0 ≡ false → Below a b)
  flags_this = (
    λ h. elim (raised_this a b _ _ _ h) [ inl up ↦ cc | inr at ↦ at ],
    λ h. Below-of_keys a b (All-nodes _ a b (lowered_this a b _ _ _ h).1).0,
  )

  flags_other :
      ((compare_loop a b (nodes a b) false false).1 ≡ true → Exceeds b a)
      × ((compare_loop a b (nodes a b) false false).1 ≡ false → Below b a)
  flags_other = (
    λ h. elim (raised_other a b _ _ _ h) [ inl up ↦ cc | inr at ↦ at ],
    λ h. Below-of_keys b a (All-nodes _ a b (lowered_other a b _ _ _ h).1).1,
  )

  verdict-Relates :
      (flags : Bool × Bool)
      → (flags.0 ≡ true → Exceeds a b) × (flags.0 ≡ false → Below a b)
      → (flags.1 ≡ true → Exceeds b a) × (flags.1 ≡ false → Below b a)
      → Relates (verdict flags) a b
  unfolding verdict
  verdict-Relates (true, true) h k = (h.0 refl, k.0 refl)
  verdict-Relates (true, false) h k = (k.1 refl, h.0 refl)
  verdict-Relates (false, true) h k = (h.1 refl, k.0 refl)
  verdict-Relates (false, false) h k = (h.1 refl, k.1 refl)

  -- The result of `compare` is true of the counters of all nodes: equal, below with some counter
  -- less, above with some counter greater, or each with a counter greater than the other's.
  pub compare_clocks-Relates : Relates (compare_clocks a b) a b
  unfolding compare_clocks
  compare_clocks-Relates = verdict-Relates _ flags_this flags_other

-- A clock that exceeds another is not below it.
not_both : (a b : VectorClock) → Below a b → Exceeds a b → ⊥
not_both a b h (n, more) = omega (arith, h n)

Relates-unique : (o p : ClockOrder) (a b : VectorClock) → Relates o a b → Relates p a b → o ≡ p
Relates-unique equal equal a b h k = refl
Relates-unique equal happens_before a b h k = absurd (not_both b a h.1 k.1)
Relates-unique equal happens_after a b h k = absurd (not_both a b h.0 k.1)
Relates-unique equal concurrent a b h k = absurd (not_both a b h.0 k.0)
Relates-unique happens_before equal a b h k = absurd (not_both b a k.1 h.1)
Relates-unique happens_before happens_before a b h k = refl
Relates-unique happens_before happens_after a b h k = absurd (not_both a b h.0 k.1)
Relates-unique happens_before concurrent a b h k = absurd (not_both a b h.0 k.0)
Relates-unique happens_after equal a b h k = absurd (not_both a b k.0 h.1)
Relates-unique happens_after happens_before a b h k = absurd (not_both a b k.0 h.1)
Relates-unique happens_after happens_after a b h k = refl
Relates-unique happens_after concurrent a b h k = absurd (not_both b a h.0 k.1)
Relates-unique concurrent equal a b h k = absurd (not_both a b k.0 h.0)
Relates-unique concurrent happens_before a b h k = absurd (not_both a b k.0 h.0)
Relates-unique concurrent happens_after a b h k = absurd (not_both b a k.0 h.1)
Relates-unique concurrent concurrent a b h k = refl

-- `compare` answers `o` exactly when `o` is true of the counters of all nodes: equal, below with
-- some counter less, above with some counter greater, or each with a counter greater than the
-- other's.
pub compare_clocks_iff :
    (o : ClockOrder) (a b : VectorClock) → (compare_clocks a b ≡ o) ↔ Relates o a b
compare_clocks_iff o a b = (
  λ e. subst (λ p. Relates p a b) e (compare_clocks-Relates a b),
  λ h. Relates-unique (compare_clocks a b) o a b (compare_clocks-Relates a b) h,
)

-- The order seen from the other side.
abbrev pub flip : ClockOrder → ClockOrder
flip equal = equal
flip happens_before = happens_after
flip happens_after = happens_before
flip concurrent = concurrent

flip-Relates : (o : ClockOrder) (a b : VectorClock) → Relates o a b → Relates (flip o) b a
flip-Relates equal a b h = (h.1, h.0)
flip-Relates happens_before a b h = h
flip-Relates happens_after a b h = h
flip-Relates concurrent a b h = (h.1, h.0)

-- Two nodes that compare the same two clocks agree on their order: swapping the clocks turns the
-- answer around.
pub compare_clocks_swap : (a b : VectorClock) → compare_clocks b a ≡ flip (compare_clocks a b)
compare_clocks_swap a b =
    (compare_clocks_iff _ b a).1 (flip-Relates _ a b (compare_clocks-Relates a b))
