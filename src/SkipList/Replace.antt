-- ===== src/SkipList/Replace.antt =====
-- A value replaced in place leaves every link and every other node alone.
use zenith_db.Prelude.{
  ℕ, List, [], ◌∷◌, some, ◌≡◌, ◌≢◌, refl, sym, ◌∙◌, arith, All, Bool-cases, inl, inr, update,
}
use mathlib.Core.Path.{subst}
use zenith_db.Bytes.{Bytes, eq_bytes, Before}
use zenith_db.SkipList.{SkipNode, Heap}
use zenith_db.SkipList.Chain.{Entry, first_tall, Holds, Linked, Ascends}
use zenith_db.SkipList.Splice.{Holds-of_shape, shape_of_Holds, link_of_Holds, OtherAddr, Distinct}
use zenith_db.SkipList.View.{lookup_entry, set_value}

module _ (key v : Bytes) where
  pub first_tall-set_value :
      (i : ℕ) (order : List Entry) → first_tall i (set_value key v order) ≡ first_tall i order
  first_tall-set_value i [] = refl
  first_tall-set_value i (y ∷ ys) = ground (arith, first_tall-set_value i ys)

  -- What holds of all entries holds of the one that is looked up.
  pub All-lookup_entry {κ} :
      (P : Entry → Type κ) (order : List Entry) (y : Entry)
      → All P order
      → lookup_entry key order ≡ some y
      → P y
  All-lookup_entry P [] y h e = absurd (cc)
  All-lookup_entry P (z ∷ ys) y h e = elim (Bool-cases (eq_bytes z.key key)) [
    | inl same ↦ let here : z ≡ y = ground arith in subst P here h.0
    | inr other ↦ All-lookup_entry P ys y h.1 (rw other at e)
  ]

  -- `set_value` keeps a property of entries that does not depend on the value.
  pub All-set_value {κ} :
      (P : Entry → Type κ) (order : List Entry)
      → ((e : Entry) → P e → P (record e { value = v }))
      → All P order
      → All P (set_value key v order)
  All-set_value P [] k h = tt
  All-set_value P (y ∷ ys) k h = elim (Bool-cases (eq_bytes y.key key)) [
    | inl same ↦ rw same (k y h.0, h.1)
    | inr other ↦ rw other (h.0, All-set_value P ys k h.1)
  ]

  pub Ascends-set_value : (order : List Entry) → Ascends order → Ascends (set_value key v order)
  Ascends-set_value [] s = tt
  Ascends-set_value (y ∷ ys) s = elim (Bool-cases (eq_bytes y.key key)) [
    | inl same ↦ rw same s
    | inr other ↦ rw other (
      All-set_value (λ (e : Entry). Before y.key e.key) ys (λ e q. q) s.0,
      Ascends-set_value ys s.1,
    )
  ]

  pub Distinct-set_value : (order : List Entry) → Distinct order → Distinct (set_value key v order)
  Distinct-set_value [] d = tt
  Distinct-set_value (y ∷ ys) d = elim (Bool-cases (eq_bytes y.key key)) [
    | inl same ↦ rw same d
    | inr other ↦
        rw other (All-set_value (OtherAddr y.addr) ys (λ e q. q) d.0, Distinct-set_value ys d.1)
  ]

  module _ (heap : Heap) (a : ℕ) (node : SkipNode) (at : heap a ≡ some node) where
    abbrev heap' : Heap
    heap' = update heap a (some (record node { value = v }))

    -- An entry at another address.
    Holds-other :
        (z : Entry) (after : List Entry)
        → z.addr ≢ a
        → Holds heap z after
        → Holds heap' z (set_value key v after)
    Holds-other z after ne h =
        Holds-of_shape heap' z (set_value key v after) (ground (arith, shape_of_Holds h))
          λ k t. ground (arith, link_of_Holds h k t, first_tall-set_value k after)

    Holds-untouched :
        (z : Entry) (after : List Entry) → z.addr ≢ a → Holds heap z after → Holds heap' z after
    Holds-untouched z after ne h =
        Holds-of_shape heap' z after (ground (arith, shape_of_Holds h))
          λ k t. ground (arith, link_of_Holds h k t)

    Linked-untouched :
        (todo : List Entry) → All (OtherAddr a) todo → Linked heap todo → Linked heap' todo
    Linked-untouched [] o l = tt
    Linked-untouched (z ∷ todo) o l =
        (Holds-untouched z todo o.0 l.0, Linked-untouched todo o.1 l.1)

    Linked-set_value :
        (todo : List Entry) (y : Entry)
        → y.addr ≡ a
        → lookup_entry key todo ≡ some y
        → Distinct todo
        → Linked heap todo
        → Linked heap' (set_value key v todo)
    Linked-set_value [] y e h d l = absurd (cc)
    Linked-set_value (z ∷ todo) y e h d l = elim (Bool-cases (eq_bytes z.key key)) [
      | inl same ↦
          let here : z.addr ≡ a = ground arith in
          rw same (
            Holds-of_shape heap' (record z { value = v }) todo
                (ground (arith, shape_of_Holds l.0, at))
                (λ k t. ground (arith, link_of_Holds l.0 k t, at)),
            Linked-untouched todo (subst (λ b. All (OtherAddr b) todo) here d.0) l.1,
          )
      | inr other ↦
          let rest = rw other at h in
          let ne : z.addr ≢ a =
            λ q. All-lookup_entry (OtherAddr z.addr) todo y d.0 rest (e ∙ sym q) in
          rw other (Holds-other z todo ne l.0, Linked-set_value todo y e rest d.1 l.1)
    ]

    pub Linked-replace :
        (z : Entry) (order : List Entry) (y : Entry)
        → y.addr ≡ a
        → lookup_entry key order ≡ some y
        → Distinct (z ∷ order)
        → Linked heap (z ∷ order)
        → Linked heap' (z ∷ set_value key v order)
    Linked-replace z order y e h d l =
        let ne : z.addr ≢ a = λ q. All-lookup_entry (OtherAddr z.addr) order y d.0 h (e ∙ sym q) in
        (Holds-other z order ne l.0, Linked-set_value order y e h d.1 l.1)
