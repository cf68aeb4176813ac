-- ===== src/SkipList/Splice.antt =====
-- A new node between its neighbours: the chain of the heap that the linking leaves.
use zenith_db.Prelude.{
  ℕ, ◌≤◌, ◌<◌, List, [], ◌∷◌, Option, none, some, true, ◌&&◌, ◌≡◌, ◌≢◌, refl, sym, ◌∙◌, arith, All,
  if◌then◌else◌, ltb, ltb→lt, lt→ltb, ◌==◌, Bool-cases, inl, inr,
}
use mathlib.Core.Path.{subst}
use zenith_db.Bytes.{Bytes, lt_bytes}
use zenith_db.SkipList.{SkipNode, Heap}
use zenith_db.SkipList.Chain.{Entry, first_tall, Holds, Linked, pred_at}
use zenith_db.SkipList.Link.{shape, shape_of, link_at, link_of}

-- `Holds`, by shape and links.
pub Holds-of_shape :
    (heap : Heap) (x : Entry) (after : List Entry)
    → shape heap x.addr ≡ some (x.key, x.value, x.height)
    → ((k : ℕ) → k < x.height → link_at heap x.addr k ≡ first_tall k after)
    → Holds heap x after
Holds-of_shape heap x after es el = go (heap x.addr) refl es el
  where
    go :
        (o : Option SkipNode)
        → heap x.addr ≡ o
        → shape_of o ≡ some (x.key, x.value, x.height)
        → ((k : ℕ) → k < x.height → link_of o k ≡ first_tall k after)
        → Holds heap x after
    go none e es el = absurd (cc)
    go (some n) e es el = record {
      node = n;
      at = e;
      key = ground arith;
      value = ground arith;
      height = ground arith;
      next = el;
    }

pub shape_of_Holds :
    {heap : Heap} {x : Entry} {after : List Entry}
    → Holds heap x after
    → shape heap x.addr ≡ some (x.key, x.value, x.height)
shape_of_Holds h = ground (arith, h.at, h.key, h.value, h.height)

pub link_of_Holds :
    {heap : Heap} {x : Entry} {after : List Entry}
    → Holds heap x after
    → (k : ℕ) → k < x.height
    → link_at heap x.addr k ≡ first_tall k after
link_of_Holds h k t = ground (arith, h.at, h.next k)

abbrev pub OtherAddr : ℕ → Entry → Type 0
OtherAddr a e = e.addr ≢ a

-- Every address occurs once.
abbrev pub Distinct : List Entry → Type 0
Distinct [] = Unit
Distinct (x ∷ xs) = All (OtherAddr x.addr) xs × Distinct xs

-- The list with the new entry in front of the first that is not less.
abbrev pub splice : Entry → List Entry → List Entry
splice new [] = new ∷ []
splice new (y ∷ ys) = if lt_bytes y.key new.key then y ∷ splice new ys else new ∷ y ∷ ys

-- The predecessor is the entry where the walk begins, or one of those behind it.
pub pred_at_other :
    (i a : ℕ) (key : Bytes) (x : Entry) (after : List Entry)
    → x.addr ≢ a
    → All (OtherAddr a) after
    → pred_at i key x after ≢ a
pred_at_other i a key x [] h d = h
pred_at_other i a key x (y ∷ ys) h d = elim (Bool-cases (lt_bytes y.key key)) [
  | inr stop ↦ rw stop h
  | inl on ↦ elim (Bool-cases (ltb i y.height)) [
    | inl tall ↦ rw (on, tall) (pred_at_other i a key y ys d.0 d.1)
    | inr short ↦ rw (on, short) (pred_at_other i a key x ys h d.1)
  ]
]

module _ (new : Entry) where
  -- The first tall entry behind `z` is the new one just where `z` is its predecessor.
  pub first_tall-splice :
      (i : ℕ) (z : Entry) (after : List Entry)
      → All (OtherAddr z.addr) after
      → first_tall i (splice new after) ≡ (
          if ltb i new.height && pred_at i new.key z after == z.addr
          then some new.addr
          else first_tall i after)
  first_tall-splice i z [] d = ground arith
  first_tall-splice i z (y ∷ ys) d =
      ground (arith, first_tall-splice i z ys d.1, pred_at_other i z.addr new.key y ys d.0 d.1)

  module _ (heap heap' : Heap) (pred : ℕ → ℕ) where
    -- What the linking of the new node has left.
    pub record Spliced : Type 0 where
      pub shapes : (a : ℕ) → a ≢ new.addr → shape heap' a ≡ shape heap a
      pub links :
          (a k : ℕ)
          → a ≢ new.addr
          → (k < new.height → a ≢ pred k)
          → link_at heap' a k ≡ link_at heap a k
      pub pred_links : (k : ℕ) → k < new.height → link_at heap' (pred k) k ≡ some new.addr
      pub new_links : (k : ℕ) → k < new.height → link_at heap' new.addr k ≡ link_at heap (pred k) k
      pub new_shape : shape heap' new.addr ≡ some (new.key, new.value, new.height)

    -- For each level the last entry passed that is tall enough: the predecessor is sought from
    -- there, it is not among the entries to come, and its link leads to the first of these.
    pub record Carrier (c : ℕ → Entry) (todo : List Entry) : Type 0 where
      pub seeks : (k : ℕ) → pred k ≡ pred_at k new.key (c k) todo
      pub passed : (k : ℕ) → All (OtherAddr (c k).addr) todo
      pub leads : (k : ℕ) → k < new.height → link_at heap (c k).addr k ≡ first_tall k todo

    module _ (s : Spliced) where
      -- An entry in front of the new one, or the head.
      Holds-low :
          (z : Entry) (after : List Entry)
          → z.addr ≢ new.addr
          → Holds heap z after
          → All (OtherAddr z.addr) after
          → ((k : ℕ) → k < z.height → pred k ≡ pred_at k new.key z after)
          → Holds heap' z (splice new after)
      Holds-low z after fresh h d p =
          Holds-of_shape heap' z (splice new after) (s.shapes z.addr fresh ∙ shape_of_Holds h)
            λ k t. elim (Bool-cases (ltb k new.height && pred k == z.addr)) [
              | inl here ↦
                  let e : pred k ≡ z.addr = ground arith in
                  let q : k < new.height = ground arith in
                  subst (λ a. link_at heap' a k ≡ first_tall k (splice new after)) e
                    (s.pred_links k q ∙ sym (first_tall-splice k z after d ∙ rw (← p k t, here)))
              | inr there ↦
                  s.links z.addr k fresh (λ q e. ground arith)
                  ∙ (link_of_Holds h k t
                      ∙ sym (first_tall-splice k z after d ∙ rw (← p k t, there)))
            ]

      Linked-high :
          (todo : List Entry)
          → Linked heap todo
          → All (OtherAddr new.addr) todo
          → ((k : ℕ) → k < new.height → All (OtherAddr (pred k)) todo)
          → Linked heap' todo
      Linked-high [] h f o = tt
      Linked-high (z ∷ todo) h f o = (
        Holds-of_shape heap' z todo (s.shapes z.addr f.0 ∙ shape_of_Holds h.0)
            (λ k t. s.links z.addr k f.0 (λ q. (o k q).0) ∙ link_of_Holds h.0 k t),
        Linked-high todo h.1 f.1 (λ k q. (o k q).1),
      )

      -- The carrier after an entry that is passed.
      pass :
          (c : ℕ → Entry) (z : Entry) (todo : List Entry)
          → Carrier c (z ∷ todo)
          → lt_bytes z.key new.key ≡ true
          → Holds heap z todo
          → All (OtherAddr z.addr) todo
          → Carrier (λ k. if ltb k z.height then z else c k) todo
      pass c z todo h b at d = record {
        seeks = λ k. h.seeks k ∙ rw b;
        passed = λ k. elim (Bool-cases (ltb k z.height)) [
          | inl tall ↦ rw tall d
          | inr short ↦ rw short (h.passed k).1
        ];
        leads = λ k q. elim (Bool-cases (ltb k z.height)) [
          | inl tall ↦ rw tall (link_of_Holds at k (ltb→lt _ _ tall))
          | inr short ↦ rw short (h.leads k q ∙ rw short)
        ];
      }

      -- From the first entry that is not passed, the new one stands in front of all others.
      stop :
          (c : ℕ → Entry) (todo : List Entry)
          → Carrier c todo
          → Linked heap todo
          → All (OtherAddr new.addr) todo
          → ((k : ℕ) → pred k ≡ (c k).addr)
          → Linked heap' (new ∷ todo)
      stop c todo h l f p = (
        Holds-of_shape heap' new todo s.new_shape (λ k q. s.new_links k q ∙ rw (p k) (h.leads k q)),
        Linked-high todo l f (λ k q. rw (p k) (h.passed k)),
      )

      -- The chain with the new entry, from any point of the old one on.
      pub Linked-splice :
          (c : ℕ → Entry) (todo : List Entry)
          → Carrier c todo
          → Linked heap todo
          → Distinct todo
          → All (OtherAddr new.addr) todo
          → Linked heap' (splice new todo)
      Linked-splice c [] h l d f = stop c [] h l f h.seeks
      Linked-splice c (y ∷ ys) h l d f = elim (Bool-cases (lt_bytes y.key new.key)) [
        | inl on ↦
            let p : (k : ℕ) → k < y.height → pred k ≡ pred_at k new.key y ys =
              λ k t. h.seeks k ∙ rw (on, lt→ltb _ _ t) in
            rw on (
              Holds-low y ys f.0 l.0 d.0 p,
              Linked-splice (λ k. if ltb k y.height then y else c k) ys (pass c y ys h on l.0 d.0)
                  l.1 d.1 f.1,
            )
        | inr off ↦ rw off (stop c (y ∷ ys) h l f (λ k. h.seeks k ∙ rw off))
      ]

      -- The head and all entries behind it.
      pub Linked-head :
          (z : Entry) (order : List Entry)
          → ((k : ℕ) → pred k ≡ pred_at k new.key z order)
          → new.height ≤ z.height
          → Linked heap (z ∷ order)
          → Distinct (z ∷ order)
          → All (OtherAddr new.addr) (z ∷ order)
          → Linked heap' (z ∷ splice new order)
      Linked-head z order p tall l d f = (
        Holds-low z order f.0 l.0 d.0 (λ k t. p k),
        Linked-splice (λ k. z) order
            (record {
              seeks = p;
              passed = λ k. d.0;
              leads = λ k q. link_of_Holds l.0 k (omega arith);
            })
            l.1 d.1 f.1,
      )
