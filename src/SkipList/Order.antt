-- ===== src/SkipList/Order.antt =====
-- The new entry keeps the order, the addresses apart, and what holds of all entries.
use zenith_db.Prelude.{ℕ, ◌<◌, List, [], ◌∷◌, none, ◌≡◌, sym, arith, All, inl, inr, Bool-cases, ltb}
use zenith_db.Bytes.{Bytes, lt_bytes, Before, cmp_swap}
use zenith_db.SkipList.{Heap}
use zenith_db.SkipList.Chain.{Entry, Linked, Ascends, pred_at}
use zenith_db.SkipList.Link.{shape, height_of}
use zenith_db.SkipList.Splice.{shape_of_Holds, OtherAddr, Distinct, splice}
use zenith_db.SkipList.View.{lookup_entry, All-Before}

-- The predecessor at a level is tall enough for that level.
pub pred_tall :
    (heap : Heap) (key : Bytes) (k : ℕ) (x : Entry) (after : List Entry)
    → Linked heap after
    → k < height_of (shape heap x.addr)
    → k < height_of (shape heap (pred_at k key x after))
pred_tall heap key k x [] l t = t
pred_tall heap key k x (y ∷ ys) l t = elim (Bool-cases (lt_bytes y.key key)) [
  | inr stop ↦ rw stop t
  | inl on ↦ elim (Bool-cases (ltb k y.height)) [
    | inl tall ↦
        rw (on, tall) (pred_tall heap key k y ys l.1 (rw (shape_of_Holds l.0) (ground arith)))
    | inr short ↦ rw (on, short) (pred_tall heap key k x ys l.1 t)
  ]
]

module _ (new : Entry) where
  pub All-splice {κ} :
      (P : Entry → Type κ) (order : List Entry) → P new → All P order → All P (splice new order)
  All-splice P [] n h = (n, tt)
  All-splice P (y ∷ ys) n h = ground (arith, All-splice P ys n h.1)

  pub Distinct-splice :
      (order : List Entry)
      → All (OtherAddr new.addr) order
      → Distinct order
      → Distinct (splice new order)
  Distinct-splice [] o d = (tt, tt)
  Distinct-splice (y ∷ ys) o d = elim (Bool-cases (lt_bytes y.key new.key)) [
    | inl on ↦
        rw on (All-splice (OtherAddr y.addr) ys (λ e. o.0 (sym e)) d.0, Distinct-splice ys o.1 d.1)
    | inr off ↦ rw off (o, d)
  ]

  pub Ascends-splice :
      (order : List Entry)
      → lookup_entry new.key order ≡ none
      → Ascends order
      → Ascends (splice new order)
  Ascends-splice [] h s = (tt, tt)
  Ascends-splice (y ∷ ys) h s = elim (Bool-cases (lt_bytes y.key new.key)) [
    | inl on ↦ rw on (
      All-splice (λ (e : Entry). Before y.key e.key) ys (ground arith) s.0,
      Ascends-splice ys (ground (arith, cmp_swap y.key new.key)) s.1,
    )
    | inr off ↦
        let b : Before new.key y.key = ground (arith, cmp_swap y.key new.key) in
        rw off ((b, All-Before new.key y.key ys b s.0), s)
  ]
