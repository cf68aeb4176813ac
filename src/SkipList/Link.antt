-- ===== src/SkipList/Link.antt =====
-- What a node is without its links, its links, and what the loop that links a new node writes.
use zenith_db.Prelude.{
  ℕ, zero, suc, ◌+◌, ◌≤◌, ◌<◌, Option, none, some, Bool, true, ◌&&◌, ◌≡◌, ◌≢◌, refl, ◌∙◌, arith,
  if◌then◌else◌, ltb, leb, ◌==◌, ==_iff, update, Bool-cases, inl, inr,
}
use zenith_db.Bytes.{Bytes}
use zenith_db.SkipList.{SkipNode, Heap, Prev, next_of, set_next, link}

-- Key, value and height of the node at an address.
abbrev pub shape_of : Option SkipNode → Option (Bytes × Bytes × ℕ)
shape_of none = none
shape_of (some n) = some (n.key, n.value, n.height)

abbrev pub shape : Heap → ℕ → Option (Bytes × Bytes × ℕ)
shape heap a = shape_of (heap a)

abbrev pub height_of : Option (Bytes × Bytes × ℕ) → ℕ
height_of none = 0
height_of (some s) = s.2

abbrev pub link_of : Option SkipNode → ℕ → Option ℕ
link_of none k = none
link_of (some n) k = n.next k

-- The link of the node at an address, at a level.
abbrev pub link_at : Heap → ℕ → ℕ → Option ℕ
link_at heap a k = link_of (heap a) k

-- One link is written and all else stays.
pub record Wrote (heap : Heap) (x i : ℕ) (v : Option ℕ) (result : Option Heap) : Type 0 where
  pub heap' : Heap
  pub returns : result ≡ some heap'
  pub shapes : (a : ℕ) → shape heap' a ≡ shape heap a
  pub links : (a k : ℕ) → link_at heap' a k ≡ (if a == x && k == i then v else link_at heap a k)

pub set_next_lem :
    (heap : Heap) (x i : ℕ) (v : Option ℕ)
    → i < height_of (shape heap x)
    → Wrote heap x i v (set_next heap x i v)
set_next_lem heap x i v h = go (heap x) refl h
  where
    go :
        (o : Option SkipNode)
        → heap x ≡ o
        → i < height_of (shape_of o)
        → Wrote heap x i v (set_next heap x i v)
    go none e h = absurd (omega arith)
    go (some n) e h = record {
      heap' = update heap x (some (record n { next = update n.next i v }));
      returns = unfold set_next in rw e (ground arith);
      shapes = λ a. ground (arith, e);
      links = λ a k. ground (arith, e);
    }

pub next_of-link_at :
    (heap : Heap) (x i : ℕ)
    → i < height_of (shape heap x)
    → next_of heap x i ≡ some (link_at heap x i)
unfolding next_of
next_of-link_at heap x i h = ground arith

-- The levels of the loop.
abbrev pub in_range : ℕ → ℕ → ℕ → Bool
in_range i n k = leb i k && ltb k (i + n)

-- The new node takes over its predecessor's link at each level of the loop, and the predecessor
-- leads to it.
pub record LinkedIn (i n : ℕ) (pred : ℕ → ℕ) (x : ℕ) (heap : Heap) (result : Option Heap)
    : Type 0 where
  pub heap' : Heap
  pub returns : result ≡ some heap'
  pub shapes : (a : ℕ) → shape heap' a ≡ shape heap a
  pub new_links : (k : ℕ) → in_range i n k ≡ true → link_at heap' x k ≡ link_at heap (pred k) k
  pub pred_links : (k : ℕ) → in_range i n k ≡ true → link_at heap' (pred k) k ≡ some x
  pub other_links :
      (a k : ℕ)
      → (in_range i n k ≡ true → (a ≢ x) × (a ≢ pred k))
      → link_at heap' a k ≡ link_at heap a k

module _ (prev : Prev) (pred : ℕ → ℕ) (x : ℕ) where
  -- What the loop needs of the levels that it runs over.
  pub record CanLink (i n : ℕ) (heap : Heap) : Type 0 where
    pub set : (k : ℕ) → in_range i n k ≡ true → prev k ≡ some (pred k)
    pub other : (k : ℕ) → in_range i n k ≡ true → pred k ≢ x
    pub tall : (k : ℕ) → in_range i n k ≡ true → k < height_of (shape heap (pred k))
    pub room : i + n ≤ height_of (shape heap x)

  -- The first round in front of the others.
  link_step :
      (n i : ℕ) (heap : Heap) (one two rest all : Option Heap)
      (w : Wrote heap x i (link_at heap (pred i) i) one) (v : Wrote w.heap' (pred i) i (some x) two)
      (r : LinkedIn (i + 1) n pred x v.heap' rest)
      → all ≡ some r.heap'
      → ((k : ℕ) → in_range i (suc n) k ≡ true → pred k ≢ x)
      → LinkedIn i (suc n) pred x heap all
  link_step n i heap one two rest all w v r e apart = record {
    heap' = r.heap';
    returns = e;
    shapes = λ a. r.shapes a ∙ (v.shapes a ∙ w.shapes a);
    new_links = λ k q. elim (Bool-cases (in_range (i + 1) n k)) [
      | inl later ↦
          ground (arith, r.new_links k later, v.links (pred k) k, w.links (pred k) k, apart k q)
      | inr first ↦
          let here : k ≡ i = ground arith in
          ground
            (arith, here, r.other_links x k (λ h. absurd (cc)), v.links x k, w.links x k, apart k q)
    ];
    pred_links = λ k q. elim (Bool-cases (in_range (i + 1) n k)) [
      | inl later ↦ r.pred_links k later
      | inr first ↦
          let here : k ≡ i = ground arith in
          ground (arith, here, r.other_links (pred k) k (λ h. absurd (cc)), v.links (pred k) k)
    ];
    other_links = λ a k q.
        let later : in_range (i + 1) n k ≡ true → in_range i (suc n) k ≡ true = λ h. ground arith in
        let here : k ≡ i → in_range i (suc n) k ≡ true = λ h. ground arith in
        r.other_links a k (λ h. q (later h)) ∙ other_step a k q here;
  }
    where
      other_step :
          (a k : ℕ)
          → (in_range i (suc n) k ≡ true → (a ≢ x) × (a ≢ pred k))
          → (k ≡ i → in_range i (suc n) k ≡ true)
          → link_at v.heap' a k ≡ link_at heap a k
      other_step a k q here = elim (Bool-cases (k == i)) [
        | inl e ↦
            let e' = (==_iff k i).0 e in
            let (not_new, not_pred) = q (here e') in
            ground (arith, v.links a k, w.links a k, e', not_new, not_pred)
        | inr ne ↦ ground (arith, v.links a k, w.links a k)
      ]

  pub link_lem :
      (n i : ℕ) (heap : Heap) → CanLink i n heap → LinkedIn i n pred x heap (link n i prev x heap)
  unfolding link
  link_lem zero i heap h = record {
    heap' = heap;
    returns = refl;
    shapes = λ a. refl;
    new_links = λ k r. absurd (ground arith);
    pred_links = λ k r. absurd (ground arith);
    other_links = λ a k r. refl;
  }
  link_lem (suc n) i heap h =
      let here : in_range i (suc n) i ≡ true = ground arith in
      let w = set_next_lem heap x i (link_at heap (pred i) i) (omega (arith, h.room)) in
      let v = set_next_lem w.heap' (pred i) i (some x) (rw (w.shapes (pred i)) (h.tall i here)) in
      let later : (k : ℕ) → in_range (i + 1) n k ≡ true → in_range i (suc n) k ≡ true =
        λ k r. ground arith in
      let shapes : (a : ℕ) → shape v.heap' a ≡ shape heap a = λ a. v.shapes a ∙ w.shapes a in
      let r = link_lem n (i + 1) v.heap' (record {
        set = λ k r. h.set k (later k r);
        other = λ k r. h.other k (later k r);
        tall = λ k r. rw (shapes (pred k)) (h.tall k (later k r));
        room = rw (shapes x) (omega (arith, h.room));
      }) in
      let reads = next_of-link_at heap (pred i) i (h.tall i here) in
      link_step n i heap _ _ _ _ w v r (rw (h.set i here, reads, w.returns, v.returns) r.returns)
        h.other
