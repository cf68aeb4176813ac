-- ===== src/OrdMap/Window.antt =====
-- The entries of a map between two keys.
use zenith_db.Prelude.{
  [], ◌∷◌, false, ◌&&◌, not, ◌≡◌, refl, ap, ◌∙◌, arith, All, if◌then◌else◌, Bool-cases, inl, inr,
}
use zenith_db.Bytes.{Bytes, lt_bytes, Before, cmp_swap, eq_of_cmp, Before-trans}
use zenith_db.OrdMap.{OrdMap, IsSorted, AllAfter}

module _ {ℓ} {V : Type ℓ} where
  -- Keys at or behind `start`, and at or in front of `end`.
  abbrev pub between : Bytes → Bytes → OrdMap V → OrdMap V
  between start end [] = []
  between start end ((k, v) ∷ m) =
      if not (lt_bytes k start) && not (lt_bytes end k)
      then (k, v) ∷ between start end m
      else between start end m

  abbrev pub upto : Bytes → OrdMap V → OrdMap V
  upto end [] = []
  upto end ((k, v) ∷ m) = if lt_bytes end k then [] else (k, v) ∷ upto end m

  abbrev pub from : Bytes → OrdMap V → OrdMap V
  from start [] = []
  from start ((k, v) ∷ m) = if lt_bytes k start then from start m else (k, v) ∷ m

  pub past_end :
      (start end : Bytes) (m : OrdMap V)
      → All (λ (e : Bytes × V). Before end e.0) m
      → between start end m ≡ []
  past_end start end [] h = refl
  past_end start end (e ∷ m) h = ground (arith, h.0, past_end start end m h.1)

  pub All-after :
      (end k : Bytes) (m : OrdMap V)
      → Before end k
      → AllAfter k m
      → All (λ (e : Bytes × V). Before end e.0) m
  All-after end k [] b h = tt
  All-after end k (e ∷ m) b h = (Before-trans end k e.0 b h.0, All-after end k m b h.1)

  -- Behind `start`, only the end is left to test.
  upto-between :
      (start end : Bytes) (m : OrdMap V)
      → IsSorted m
      → All (λ (e : Bytes × V). lt_bytes e.0 start ≡ false) m
      → upto end m ≡ between start end m
  upto-between start end [] s h = refl
  upto-between start end ((k, v) ∷ m) s h = elim (Bool-cases (lt_bytes end k)) [
    | inl over ↦
        ground (arith, over, h.0, past_end start end m (All-after end k m (ground arith) s.0))
    | inr in_range ↦ ground (arith, in_range, h.0, upto-between start end m s.1 h.1)
  ]

  All-not_before :
      (start k : Bytes) (m : OrdMap V)
      → lt_bytes k start ≡ false
      → AllAfter k m
      → All (λ (e : Bytes × V). lt_bytes e.0 start ≡ false) m
  All-not_before start k [] b h = tt
  All-not_before start k (e ∷ m) b h = (
    ground (
      arith,
      cmp_swap k start,
      eq_of_cmp k start,
      h.0,
      cmp_swap e.0 start,
      Before-trans k e.0 start,
    ),
    All-not_before start k m b h.1,
  )

  -- The scan order: skip to the start, stop behind the end.
  pub upto-from :
      (start end : Bytes) (m : OrdMap V)
      → IsSorted m
      → upto end (from start m) ≡ between start end m
  upto-from start end [] s = refl
  upto-from start end ((k, v) ∷ m) s = elim (Bool-cases (lt_bytes k start)) [
    | inl low ↦ ground (arith, low, upto-from start end m s.1)
    | inr at ↦
        let here : from start ((k, v) ∷ m) ≡ (k, v) ∷ m = rw at in
        ap (upto end) here
        ∙ upto-between start end ((k, v) ∷ m) s (at, All-not_before start k m at s.0)
  ]

  -- No key is between two keys in the wrong order.
  pub between_empty :
      (start end : Bytes) (m : OrdMap V) → Before end start → between start end m ≡ []
  between_empty start end [] b = refl
  between_empty start end ((k, v) ∷ m) b = ground (
    arith,
    between_empty start end m b,
    cmp_swap k start,
    eq_of_cmp k start,
    Before-trans end start k b,
  )
