-- ===== src/OrdMap/Ext.antt =====
-- Two maps in order are one list of entries if all reads agree.
use zenith_db.Prelude.{[], ◌∷◌, none, some, ◌≡◌, refl, sym, arith, inl, inr}
use mathlib.Core.Path.{subst}
use zenith_db.Bytes.{Bytes, Before, cmp_refl, eq_of_cmp, cmp_swap}
use zenith_db.OrdMap.{OrdMap, find, AllAfter, IsSorted}
use zenith_db.OrdMap.Laws.{find-AllAfter, AllAfter-trans}

module _ {ℓ} {V : Type ℓ} where
  -- The first entry is read back.
  pub find_head : (k : Bytes) (v : V) (m : OrdMap V) → find k ((k, v) ∷ m) ≡ some v
  unfolding find
  find_head k v m = ground (arith, cmp_refl k)

  -- A map whose first key stands behind `k` does not hold `k`.
  find-Before :
      (k j : Bytes) (w : V) (m : OrdMap V) → Before k j → AllAfter j m → find k ((j, w) ∷ m) ≡ none
  unfolding find
  find-Before k j w m h a = ground (arith, find-AllAfter k m (AllAfter-trans k j m h a))

  tails_agree :
      (k : Bytes) (v w : V) (a b : OrdMap V)
      → AllAfter k a
      → AllAfter k b
      → ((q : Bytes) → find q ((k, v) ∷ a) ≡ find q ((k, w) ∷ b))
      → (q : Bytes) → find q a ≡ find q b
  unfolding find
  tails_agree k v w a b ha hb h q =
      ground (arith, h q, eq_of_cmp q k, find-AllAfter k a ha, find-AllAfter k b hb)

  heads_agree :
      (k : Bytes) (v w : V) (a b : OrdMap V)
      → ((q : Bytes) → find q ((k, v) ∷ a) ≡ find q ((k, w) ∷ b))
      → v ≡ w
  heads_agree k v w a b h = ground (arith, h k, find_head k v a, find_head k w b)

  find_nil : (q : Bytes) → find {V = V} q [] ≡ none
  unfolding find
  find_nil q = refl

  pub eq_of_find :
      (a b : OrdMap V) → IsSorted a → IsSorted b → ((q : Bytes) → find q a ≡ find q b) → a ≡ b
  eq_of_find [] [] sa sb h = refl
  eq_of_find [] ((j, w) ∷ b) sa sb h = absurd (ground (arith, h j, find_head j w b, find_nil j))
  eq_of_find ((k, v) ∷ a) [] sa sb h = absurd (ground (arith, h k, find_head k v a, find_nil k))
  eq_of_find ((k, v) ∷ a) ((j, w) ∷ b) sa sb h = elim (cmp_swap k j) [
    | inl before ↦ absurd (ground (arith, h k, find_head k v a, find-Before k j w b before.0 sb.0))
    | inr (inr behind) ↦
        absurd (ground (arith, h j, find_head j w b, find-Before j k v a behind.1 sa.0))
    | inr (inl same) ↦
        let e = eq_of_cmp k j same.0 in
        let sb' = subst (λ x. AllAfter x b) (sym e) sb.0 in
        let h' = subst (λ x. (q : Bytes) → find q ((k, v) ∷ a) ≡ find q ((x, w) ∷ b)) (sym e) h in
        cc (
          e,
          heads_agree k v w a b h',
          eq_of_find a b sa.1 sb.1 (tails_agree k v w a b sa.0 sb' h'),
        )
  ]
