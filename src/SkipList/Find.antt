-- ===== src/SkipList/Find.antt =====
-- `FindGreaterOrEqual` walks to the lower bound, and records the predecessor at each level.
use zenith_db.Prelude.{
  ℕ, zero, suc, ◌+◌, ◌≤◌, ◌<◌, List, [], ◌∷◌, ◌++◌, Option, none, some, true, false, ◌≡◌, refl, sym,
  ap, ◌∙◌, arith, All, length, length-append, Bool-cases, Option-cases, inl, inr, update,
}
use mathlib.Core.Path.{subst}
use zenith_db.Bytes.{Bytes, lt_bytes, Before}
use zenith_db.SkipList.{Heap, Prev, next_of, key_is_after_node, find_loop}
use zenith_db.SkipList.Chain.{
  Entry, first_tall, Holds, Linked, Ascends, HasLink, lower_bound, pred_at, Found-of_first_tall,
  low_of_none, pred_at_past, lower_bound_past, pred_at_low, pred_at_stop,
}

pub next_of_lem :
    (heap : Heap) (x : Entry) (after : List Entry) (i : ℕ)
    → Holds heap x after
    → i < x.height
    → next_of heap x.addr i ≡ some (first_tall i after)
unfolding next_of
next_of_lem heap x after i h below = ground (arith, h.at, h.height, h.next i)

key_is_after_lem :
    (heap : Heap) (key : Bytes) (y : Entry) (rest : List Entry)
    → Holds heap y rest
    → key_is_after_node heap key (some y.addr) ≡ some (lt_bytes y.key key)
unfolding key_is_after_node
key_is_after_lem heap key y rest h = ground (arith, h.at, h.key)

-- The part of a chain from an entry on.
pub Linked-from :
    (heap : Heap) (mid : List Entry) (y : Entry) (rest : List Entry)
    → Linked heap (mid ++ y ∷ rest)
    → Linked heap (y ∷ rest)
Linked-from heap [] y rest h = h
Linked-from heap (z ∷ mid) y rest h = Linked-from heap mid y rest h.1

Ascends-from :
    (mid : List Entry) (y : Entry) (rest : List Entry) → Ascends (mid ++ y ∷ rest) → Ascends rest
Ascends-from [] y rest h = h.1
Ascends-from (z ∷ mid) y rest h = Ascends-from mid y rest h.1

HasLink-from :
    (mid : List Entry) (y : Entry) (rest : List Entry)
    → All HasLink (mid ++ y ∷ rest)
    → All HasLink rest
HasLink-from [] y rest h = h.1
HasLink-from (z ∷ mid) y rest h = HasLink-from mid y rest h.1

-- What the walk from `x` down to level 0 has to return.
pub record FindsFrom (heap : Heap) (key : Bytes) (x : Entry) (after : List Entry) (level : ℕ)
    (prev : Prev) (result : Option (Option ℕ × Prev)) : Type 0 where
  pub final : Prev
  pub returns : result ≡ some (lower_bound key after, final)
  pub walked : (i : ℕ) → i ≤ level → final i ≡ some (pred_at i key x after)
  pub kept : (i : ℕ) → level < i → final i ≡ prev i

module _ (heap : Heap) (key : Bytes) where
  -- At level 0 the next node is the first entry behind, so a stop there is the lower bound.
  stops_at_bound :
      (mid : List Entry) (y : Entry) (rest : List Entry)
      → All HasLink (mid ++ y ∷ rest)
      → All (λ (z : Entry). z.height ≤ 0) mid
      → lt_bytes y.key key ≡ false
      → lower_bound key (mid ++ y ∷ rest) ≡ some y.addr
  stops_at_bound [] y rest h l b = ground arith
  stops_at_bound (z ∷ mid) y rest h l b = absurd (omega (arith, h.0, l.0))

  none_at_bound :
      (after : List Entry)
      → All HasLink after
      → All (λ (z : Entry). z.height ≤ 0) after
      → lower_bound key after ≡ none
  none_at_bound [] h l = refl
  none_at_bound (z ∷ after) h l = absurd (omega (arith, h.0, l.0))

  abbrev result : ℕ → Entry → ℕ → Prev → Option (Option ℕ × Prev)
  result fuel x level prev = find_loop fuel heap key x.addr level prev

  -- One round that goes down, or stops at level 0.
  down_lem :
      (fuel : ℕ) (x : Entry) (after : List Entry) (level : ℕ) (prev : Prev)
      → next_of heap x.addr level ≡ some (first_tall level after)
      → key_is_after_node heap key (first_tall level after) ≡ some false
      → pred_at level key x after ≡ x.addr
      → (level ≡ 0 → first_tall level after ≡ lower_bound key after)
      → ((l : ℕ) (p : Prev) → level ≡ suc l → FindsFrom heap key x after l p (result fuel x l p))
      → FindsFrom heap key x after level prev (result (suc fuel) x level prev)
  unfolding find_loop
  down_lem fuel x after zero prev en ek ep bound rec = record {
    final = update prev 0 (some x.addr);
    returns = ground (arith, en, ek, bound refl);
    walked = λ i below. ground (arith, ep);
    kept = λ i above. ground arith;
  }
  down_lem fuel x after (suc l) prev en ek ep bound rec =
      let p = update prev (suc l) (some x.addr) in
      let r = rec l p refl in
      record {
        final = r.final;
        returns = ground (arith, en, ek, r.returns);
        walked = λ i below. ground (arith, r.walked i, r.kept i, ep);
        kept = λ i above. ground (arith, r.kept i);
      }

  -- One round that goes right, past entries that are too short for the level.
  right_lem :
      (fuel : ℕ) (x : Entry) (mid : List Entry) (y : Entry) (rest : List Entry) (level : ℕ)
      (prev : Prev)
      → next_of heap x.addr level ≡ some (some y.addr)
      → key_is_after_node heap key (some y.addr) ≡ some true
      → Ascends (mid ++ y ∷ rest)
      → Before y.key key
      → level < y.height
      → FindsFrom heap key y rest level prev (result fuel y level prev)
      → FindsFrom heap key x (mid ++ y ∷ rest) level prev (result (suc fuel) x level prev)
  unfolding find_loop
  right_lem fuel x mid y rest level prev en ek s b t r = record {
    final = r.final;
    returns = ground (arith, en, ek, r.returns, lower_bound_past key mid y rest s b);
    walked = λ i below.
        ground (arith, r.walked i below, pred_at_past key i x mid y rest s b (omega arith));
    kept = r.kept;
  }

  -- A round at which some entry is tall enough: it goes right or down by that entry's key.
  found_lem :
      (fuel : ℕ) (x : Entry) (mid : List Entry) (y : Entry) (rest : List Entry) (level : ℕ)
      (prev : Prev)
      → Linked heap (x ∷ (mid ++ y ∷ rest))
      → Ascends (mid ++ y ∷ rest)
      → All HasLink (mid ++ y ∷ rest)
      → level < x.height
      → first_tall level (mid ++ y ∷ rest) ≡ some y.addr
      → level < y.height
      → All (λ (z : Entry). z.height ≤ level) mid
      → ((l : ℕ) (p : Prev)
          → level ≡ suc l
          → FindsFrom heap key x (mid ++ y ∷ rest) l p (result fuel x l p))
      → FindsFrom heap key y rest level prev (result fuel y level prev)
      → FindsFrom heap key x (mid ++ y ∷ rest) level prev (result (suc fuel) x level prev)
  found_lem fuel x mid y rest level prev h s l t first ty low down right =
      let after = mid ++ y ∷ rest in
      let en = next_of_lem heap x after level h.0 t in
      let ek = key_is_after_lem heap key y rest (Linked-from heap mid y rest h.1).0 in
      elim (Bool-cases (lt_bytes y.key key)) [
        | inl smaller ↦
            right_lem fuel x mid y rest level prev (en ∙ ap some first) (rw smaller at ek) s
              (ground arith) ty right
        | inr stop ↦
            down_lem fuel x after level prev en (rw (first, ek, stop))
              (pred_at_stop key level x mid y rest low stop)
              (λ e.
                first
                ∙ sym (
                    stops_at_bound mid y rest l
                      (subst (λ n. All (λ (z : Entry). z.height ≤ n) mid) e low) stop))
              down
      ]

  -- With fuel for the entries behind and the levels below, the walk ends, and it returns the lower
  -- bound and the predecessor at each level.
  pub find_loop_lem :
      (fuel : ℕ) (x : Entry) (after : List Entry) (level : ℕ) (prev : Prev)
      → Linked heap (x ∷ after)
      → Ascends after
      → All HasLink after
      → level < x.height
      → length after + level < fuel
      → FindsFrom heap key x after level prev (result fuel x level prev)
  find_loop_lem zero x after level prev h s l t f = absurd (omega arith)
  find_loop_lem (suc fuel) x after level prev h s l t f =
      let en = next_of_lem heap x after level h.0 t in
      let down : (k : ℕ) (p : Prev)
          → level ≡ suc k
          → FindsFrom heap key x after k p (result fuel x k p) =
        λ k p e. find_loop_lem fuel x after k p h s l (omega arith) (omega arith) in
      elim (Option-cases (first_tall level after)) [
        | inl end ↦
            let low = low_of_none level after end in
            down_lem fuel x after level prev en (rw end (unfold key_is_after_node in refl))
              (pred_at_low key level x after low)
              (λ e.
                end
                ∙ sym (
                    none_at_bound after l
                      (subst (λ n. All (λ (z : Entry). z.height ≤ n) after) e low)))
              down
        | inr (a, next) ↦
            let g = Found-of_first_tall level a after next in
            let at = subst (λ zs. first_tall level zs ≡ some a) g.split next in
            let h' = subst (λ zs. Linked heap (x ∷ zs)) g.split h in
            let s' = subst Ascends g.split s in
            let l' = subst (All HasLink) g.split l in
            let fits : length after ≡ length g.mid + suc (length g.rest) =
              ap length g.split ∙ length-append g.mid (g.entry ∷ g.rest) in
            subst (λ zs. FindsFrom heap key x zs level prev (result (suc fuel) x level prev))
              (sym g.split)
              (found_lem fuel x g.mid g.entry g.rest level prev h' s' l' t
                (at ∙ ap some (sym g.addr)) g.tall g.low
                (subst
                  (λ zs.
                    (k : ℕ) (p : Prev)
                    → level ≡ suc k
                    → FindsFrom heap key x zs k p (result fuel x k p))
                  g.split down)
                (find_loop_lem fuel g.entry g.rest level prev
                  (Linked-from heap g.mid g.entry g.rest h'.1)
                  (Ascends-from g.mid g.entry g.rest s') (HasLink-from g.mid g.entry g.rest l')
                  g.tall (omega arith)))
      ]
