-- ===== src/Crdt/Merge.antt =====
-- The laws of `merge` on registers: what it keeps, and where it is a semilattice.
use zenith_db.Prelude.{◌≡◌, refl, ap, ◌⊎◌, inl, inr, max, arith, if◌then◌else◌}
use zenith_db.Bytes.{Bytes, lt_bytes, cmp_swap, eq_of_cmp}
use zenith_db.OrdMap.{IsSorted}
use zenith_db.VectorClock
use zenith_db.VectorClock.{
  VectorClock, ClockOrder, equal, happens_before, happens_after, concurrent, counter,
  compare_clocks,
}
use zenith_db.VectorClock.Compare.{
  Below, Exceeds, Relates, compare_clocks-Relates, compare_clocks_iff, compare_clocks_swap,
}
use zenith_db.VectorClock.Join.{counter-merge, merge_comm, merge_self}
use zenith_db.VectorClock.Normal.{IsNormal, merge-IsNormal, merge_absorbs}
use zenith_db.Crdt.{LwwRegister, merge}

-- Which result `compare` had, with what it says of the counters.
pub order_cases :
    (a b : VectorClock)
    → ((compare_clocks a b ≡ equal) × Below a b × Below b a)
      ⊎ (((compare_clocks a b ≡ happens_before) × Below a b × Exceeds b a)
          ⊎ (((compare_clocks a b ≡ happens_after) × Below b a × Exceeds a b)
              ⊎ ((compare_clocks a b ≡ concurrent) × Exceeds a b × Exceeds b a)))
order_cases a b = go (compare_clocks a b) refl (compare_clocks-Relates a b)
  where
    go :
        (o : ClockOrder)
        → compare_clocks a b ≡ o
        → Relates o a b
        → ((compare_clocks a b ≡ equal) × Below a b × Below b a)
          ⊎ (((compare_clocks a b ≡ happens_before) × Below a b × Exceeds b a)
              ⊎ (((compare_clocks a b ≡ happens_after) × Below b a × Exceeds a b)
                  ⊎ ((compare_clocks a b ≡ concurrent) × Exceeds a b × Exceeds b a)))
    go equal e r = inl (e, r.0, r.1)
    go happens_before e r = inr (inl (e, r.0, r.1))
    go happens_after e r = inr (inr (inl (e, r.0, r.1)))
    go concurrent e r = inr (inr (inr (e, r.0, r.1)))

module _ (a b : LwwRegister) where
  pub merge_equal :
      compare_clocks a.clock b.clock ≡ equal
      → merge a b ≡ record a { clock = VectorClock.merge a.clock b.clock }
  unfolding merge
  merge_equal e = rw (merge, e)

  pub merge_older : compare_clocks a.clock b.clock ≡ happens_before → merge a b ≡ b
  unfolding merge
  merge_older e = rw (merge, e)

  pub merge_newer :
      compare_clocks a.clock b.clock ≡ happens_after
      → merge a b ≡ record a { clock = VectorClock.merge a.clock b.clock }
  unfolding merge
  merge_newer e = rw (merge, e)

  pub merge_concurrent :
      compare_clocks a.clock b.clock ≡ concurrent
      → merge a b ≡ record {
        value = if lt_bytes a.value b.value then b.value else a.value;
        clock = VectorClock.merge a.clock b.clock;
      }
  unfolding merge
  merge_concurrent e = rw (merge, e)

-- In every case each counter of the merged register is the larger of the two, if the other clock
-- is sorted.
pub counter-clock-merge :
    (a b : LwwRegister)
    → IsSorted b.clock
    → (q : Bytes) → counter (merge a b).clock q ≡ max (counter a.clock q) (counter b.clock q)
counter-clock-merge a b s q = elim (order_cases a.clock b.clock) [
  | inl (e, le, ge) ↦ rw (merge_equal a b e) (counter-merge a.clock b.clock s q)
  | inr (inl (e, le, ex)) ↦ rw (merge_older a b e) (omega (arith, le q))
  | inr (inr (inl (e, ge, ex))) ↦ rw (merge_newer a b e) (counter-merge a.clock b.clock s q)
  | inr (inr (inr (e, ex, ey))) ↦ rw (merge_concurrent a b e) (counter-merge a.clock b.clock s q)
]

pub merge-IsNormal_clock :
    (a b : LwwRegister) → IsNormal a.clock → IsNormal b.clock → IsNormal (merge a b).clock
unfolding merge
merge-IsNormal_clock a b ha hb = ground (arith, merge-IsNormal a.clock b.clock ha hb)

abbrev value_of : LwwRegister → Bytes
value_of r = r.value

-- The merged register holds one of the two values, and one whose clock is strictly older never
-- wins.
pub value-merge :
    (a b : LwwRegister)
    → (((merge a b).value ≡ a.value) ⊎ ((merge a b).value ≡ b.value))
      × (compare_clocks a.clock b.clock ≡ happens_before → (merge a b).value ≡ b.value)
      × (compare_clocks a.clock b.clock ≡ happens_after → (merge a b).value ≡ a.value)
value-merge a b = elim (order_cases a.clock b.clock) [
  | inl (e, r, r2) ↦
      let p = merge_equal a b e in (inl (ap value_of p), λ h. absurd (cc), λ h. ap value_of p)
  | inr (inl (e, r, r2)) ↦
      let p = merge_older a b e in (inr (ap value_of p), λ h. ap value_of p, λ h. absurd (cc))
  | inr (inr (inl (e, r, r2))) ↦
      let p = merge_newer a b e in (inl (ap value_of p), λ h. absurd (cc), λ h. ap value_of p)
  | inr (inr (inr (e, r, r2))) ↦
      let p = merge_concurrent a b e in (ground arith, λ h. absurd (cc), λ h. absurd (cc))
]

-- Merging a register with itself changes nothing.
pub merge_idem : (a : LwwRegister) → IsSorted a.clock → merge a a ≡ a
merge_idem a s =
    let e : compare_clocks a.clock a.clock ≡ equal =
      (compare_clocks_iff equal a.clock a.clock).1 (λ q. omega arith, λ q. omega arith) in
    ground (arith, merge_equal a a e, merge_self a.clock s)

module _ (a b : LwwRegister) (ha : IsNormal a.clock) (hb : IsNormal b.clock) where
  -- A register with a strictly newer clock absorbs the older one.
  pub merge_newer_absorbs : compare_clocks a.clock b.clock ≡ happens_after → merge a b ≡ a
  merge_newer_absorbs e =
      let r = (compare_clocks_iff happens_after a.clock b.clock).0 e in
      ground (arith, merge_newer a b e, merge_absorbs a.clock b.clock ha hb r.0)

-- The larger value wins on either side.
larger_comm : (v w : Bytes) → (if lt_bytes v w then w else v) ≡ (if lt_bytes w v then v else w)
larger_comm v w = ground (arith, cmp_swap v w, eq_of_cmp v w)

module _ (a b : LwwRegister) (ha : IsNormal a.clock) (hb : IsNormal b.clock) where
  -- Two registers of normal clocks merge to the same register on either side, if their values are
  -- equal where their clocks compare as equal.
  pub merge_comm_lem :
      (compare_clocks a.clock b.clock ≡ equal → a.value ≡ b.value) → merge a b ≡ merge b a
  merge_comm_lem tie =
      let swap = compare_clocks_swap a.clock b.clock in
      let clocks = merge_comm a.clock b.clock ha.sorted hb.sorted in
      elim (order_cases a.clock b.clock) [
        | inl (e, r, r2) ↦
            ground (arith, tie e, merge_equal a b e, merge_equal b a (rw e at swap), clocks)
        | inr (inl (e, r, r2)) ↦
            cc (merge_older a b e, merge_newer_absorbs b a hb ha (rw e at swap))
        | inr (inr (inl (e, r, r2))) ↦
            cc (merge_older b a (rw e at swap), merge_newer_absorbs a b ha hb e)
        | inr (inr (inr (e, r, r2))) ↦ cc (
          merge_concurrent a b e,
          merge_concurrent b a (rw e at swap),
          clocks,
          larger_comm a.value b.value,
        )
      ]
