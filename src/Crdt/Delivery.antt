-- ===== src/Crdt/Delivery.antt =====
-- Merging the writes that a replica receives, in the order in which they arrive.
use zenith_db.Prelude.{
  ◌<◌, List, [], ◌∷◌, ◌++◌, ◌≡◌, ◌≢◌, refl, sym, ap, ◌∙◌, ◌⊎◌, inl, inr, arith, All,
}
use zenith_db.Bytes.{Bytes, cmp, Before, cmp_swap, cmp_refl, Before-trans}
use zenith_db.VectorClock.{
  equal, happens_before, happens_after, concurrent, counter, compare_clocks,
}
use zenith_db.VectorClock.Compare.{Below, Exceeds, compare_clocks_iff}
use zenith_db.VectorClock.Normal.{IsNormal}
use zenith_db.Crdt.{LwwRegister, merge}
use zenith_db.Crdt.Merge.{
  counter-clock-merge, merge-IsNormal_clock, merge_idem, merge_older, merge_newer_absorbs,
  merge_concurrent, merge_comm_lem,
}

-- The state of a key after the registers that arrive are merged into it in turn.
abbrev pub merge_all : LwwRegister → List LwwRegister → LwwRegister
merge_all r [] = r
merge_all r (x ∷ xs) = merge_all (merge r x) xs

module _ (top : LwwRegister) (node : Bytes) where
  -- A register that `top` has seen: below it everywhere, and less at `node`.
  pub record IsSeen (x : LwwRegister) : Type 0 where
    pub normal : IsNormal x.clock
    pub below : Below x.clock top.clock
    pub less : counter x.clock node < counter top.clock node

  abbrev pub TopOrSeen : LwwRegister → Type 0
  TopOrSeen x = (x ≡ top) ⊎ IsSeen x

  seen_older : (x : LwwRegister) → IsSeen x → compare_clocks x.clock top.clock ≡ happens_before
  seen_older x h = (compare_clocks_iff happens_before x.clock top.clock).1 (h.below, (node, h.less))

  seen_newer : (x : LwwRegister) → IsSeen x → compare_clocks top.clock x.clock ≡ happens_after
  seen_newer x h = (compare_clocks_iff happens_after top.clock x.clock).1 (h.below, (node, h.less))

  module _ (normal : IsNormal top.clock) where
    merge-top : (x : LwwRegister) → TopOrSeen x → merge x top ≡ top
    merge-top x (inl e) = rw e (merge_idem top normal.sorted)
    merge-top x (inr h) = merge_older x top (seen_older x h)

    top-merge : (x : LwwRegister) → TopOrSeen x → merge top x ≡ top
    top-merge x (inl e) = rw e (merge_idem top normal.sorted)
    top-merge x (inr h) = merge_newer_absorbs top x normal h.normal (seen_newer x h)

    merge-TopOrSeen : (a x : LwwRegister) → TopOrSeen a → TopOrSeen x → TopOrSeen (merge a x)
    merge-TopOrSeen a x (inl e) hx = inl (rw e (top-merge x hx))
    merge-TopOrSeen a x (inr ha) (inl e) = inl (rw e (merge-top a (inr ha)))
    merge-TopOrSeen a x (inr ha) (inr hx) = inr (record {
      normal = merge-IsNormal_clock a x ha.normal hx.normal;
      below =
          λ q. omega (arith, counter-clock-merge a x hx.normal.sorted q, ha.below q, hx.below q);
      less = omega (arith, counter-clock-merge a x hx.normal.sorted node, ha.less, hx.less);
    })

    merge_all-TopOrSeen :
        (a : LwwRegister) (xs : List LwwRegister)
        → TopOrSeen a
        → All TopOrSeen xs
        → TopOrSeen (merge_all a xs)
    merge_all-TopOrSeen a [] ha hs = ha
    merge_all-TopOrSeen a (x ∷ xs) ha hs =
        merge_all-TopOrSeen (merge a x) xs (merge-TopOrSeen a x ha hs.0) hs.1

    merge_all-top : (xs : List LwwRegister) → All TopOrSeen xs → merge_all top xs ≡ top
    merge_all-top [] hs = refl
    merge_all-top (x ∷ xs) hs = rw (top-merge x hs.0) (merge_all-top xs hs.1)

    -- Of normal clocks, a write that has seen all others wins: among writes whose clocks are
    -- below it, and less at one given node, it is the register that is left, clock and all,
    -- wherever it arrives among them and however often each arrives.
    pub merge_all_dominant :
        (a : LwwRegister) (before after : List LwwRegister)
        → TopOrSeen a
        → All TopOrSeen before
        → All TopOrSeen after
        → merge_all a (before ++ top ∷ after) ≡ top
    merge_all_dominant a [] after ha hb hc =
        ap (λ r. merge_all r after) (merge-top a ha) ∙ merge_all-top after hc
    merge_all_dominant a (x ∷ before) after ha hb hc =
        merge_all_dominant (merge a x) before after (merge-TopOrSeen a x ha hb.0) hb.1 hc

-- The same with the sides that `put_crdt` has where the value that is there is not empty: what
-- arrives is merged with what is there.
abbrev pub put_all : LwwRegister → List LwwRegister → LwwRegister
put_all r [] = r
put_all r (x ∷ xs) = put_all (merge x r) xs

-- Three writes: `w` overwrites `x`, and `y` was made at another node that had seen neither. The
-- values descend from `x` over `y` to `w`.
pub record IsFork (x y w : LwwRegister) (node : Bytes) : Type 0 where
  pub normal_x : IsNormal x.clock
  pub normal_y : IsNormal y.clock
  pub normal_w : IsNormal w.clock
  pub overwritten : Below x.clock w.clock
  pub beyond_x : counter x.clock node < counter w.clock node
  pub beyond_y : counter y.clock node < counter w.clock node
  pub x_apart : Exceeds x.clock y.clock
  pub y_apart : Exceeds y.clock w.clock
  pub least : Before w.value y.value
  pub middle : Before y.value x.value

module _ (x y w : LwwRegister) (node : Bytes) (h : IsFork x y w node) where
  fork_apart : compare_clocks x.clock y.clock ≡ concurrent
  fork_apart =
      let (n, more) = h.y_apart in
      (compare_clocks_iff concurrent x.clock y.clock).1
        (h.x_apart, (n, omega (arith, h.overwritten n)))

  -- `x` and `y` merge to the value of `x`, which is larger.
  fork_first : (merge x y).value ≡ x.value
  fork_first = ground (arith, merge_concurrent x y fork_apart, cmp_swap x.value y.value, h.middle)

  -- The merged clock has seen neither all of `w`, nor `w` all of it.
  fork_second : compare_clocks (merge x y).clock w.clock ≡ concurrent
  fork_second =
      let (n, more) = h.y_apart in
      (compare_clocks_iff concurrent (merge x y).clock w.clock).1 (
        (n, omega (arith, counter-clock-merge x y h.normal_y.sorted n)),
        (
          node,
          omega (arith, counter-clock-merge x y h.normal_y.sorted node, h.beyond_x, h.beyond_y),
        ),
      )

  fork_third : compare_clocks w.clock y.clock ≡ concurrent
  fork_third = (compare_clocks_iff concurrent w.clock y.clock).1 ((node, h.beyond_y), h.y_apart)

  -- What the two orders leave, with the sides of each merge swapped where that changes nothing.
  put_all-stale : put_all x (y ∷ w ∷ []) ≡ merge (merge x y) w
  put_all-stale =
      let normal = merge-IsNormal_clock x y h.normal_x h.normal_y in
      ap (merge w) (sym (merge_comm_lem x y h.normal_x h.normal_y λ e. absurd (cc (e, fork_apart))))
      ∙ sym (merge_comm_lem (merge x y) w normal h.normal_w λ e. absurd (cc (e, fork_second)))

  put_all-fresh : put_all w (x ∷ y ∷ []) ≡ merge w y
  put_all-fresh =
      ap (merge y) (
        merge_older x w (
          (compare_clocks_iff happens_before x.clock w.clock).1
            (h.overwritten, (node, h.beyond_x))))
      ∙ sym (merge_comm_lem w y h.normal_w h.normal_y λ e. absurd (cc (e, fork_third)))

  fork_stale : (merge (merge x y) w).value ≡ x.value
  fork_stale = ground (
    arith,
    fork_first,
    merge_concurrent (merge x y) w fork_second,
    Before-trans w.value y.value x.value h.least h.middle,
    cmp_swap w.value x.value,
  )

  fork_fresh : (merge w y).value ≡ y.value
  fork_fresh = ground (arith, merge_concurrent w y fork_third, h.least)

  fork_counters : (n : Bytes) → counter (merge (merge x y) w).clock n ≡ counter (merge w y).clock n
  fork_counters n = omega (
    arith,
    counter-clock-merge (merge x y) w h.normal_w.sorted n,
    counter-clock-merge x y h.normal_y.sorted n,
    counter-clock-merge w y h.normal_y.sorted n,
    h.overwritten n,
  )

  -- Of three writes `x`, `y` and `w` of normal clocks, where `w` overwrites `x`, `y` is
  -- concurrent to both, the values descend from `x` over `y` to `w`, and `w` counts more than
  -- both at one node, two orders of arrival leave two values, where each write that arrives takes
  -- in what is there (`incoming.merge(existing)`): one replica holds the value of `x`, the other
  -- that of `y`, they differ, and the clocks of the two compare as equal.
  pub put_all_diverges :
      ((put_all x (y ∷ w ∷ [])).value ≡ x.value)
      × ((put_all w (x ∷ y ∷ [])).value ≡ y.value)
      × (x.value ≢ y.value)
      × (compare_clocks (put_all x (y ∷ w ∷ [])).clock (put_all w (x ∷ y ∷ [])).clock ≡ equal)
  put_all_diverges =
      rw (put_all-stale, put_all-fresh)
        (
          fork_stale,
          fork_fresh,
          λ e. ground (arith, h.middle, ap (cmp y.value) e, cmp_refl y.value),
          (compare_clocks_iff equal (merge (merge x y) w).clock (merge w y).clock).1
              (λ n. omega (arith, fork_counters n), λ n. omega (arith, fork_counters n)),
        )
