-- ===== src/SkipList/NewNode.antt =====
-- The heap after a new node is linked in.
use zenith_db.Prelude.{
  ℕ, ◌≤◌, ◌<◌, List, ◌∷◌, Option, some, true, ◌≡◌, ◌≢◌, refl, ◌∙◌, arith, All, update,
}
use zenith_db.Bytes.{Bytes}
use zenith_db.Arena.{Allocator}
use zenith_db.SkipList.{Heap, SkipList, Prev, link}
use zenith_db.SkipList.Chain.{Entry, Linked, pred_at}
use zenith_db.SkipList.Link.{shape, link_at, in_range, CanLink, LinkedIn, link_lem}
use zenith_db.SkipList.Order.{pred_tall}
use zenith_db.SkipList.Splice.{
  shape_of_Holds, OtherAddr, splice, Spliced, Linked-head, pred_at_other,
}
use zenith_db.SkipList.Invariant.{IsChain, head_entry}

module _ (env : Allocator) (garbage : ℕ → Option ℕ) (s : SkipList) (order : List Entry)
    (h : IsChain s order) (key value : Bytes) where
  -- The predecessor of the key at a level.
  abbrev pub pred : ℕ → ℕ
  pred k = pred_at k key (head_entry s) order

  module _ (height p : ℕ) (bounds : (1 ≤ height) × (height ≤ 12))
      (fresh : All (OtherAddr p) (head_entry s ∷ order)) where
    abbrev pub new_entry : Entry
    new_entry = record { addr = p; key = key; value = value; height = height }

    -- The heap with the new node, before it is linked.
    abbrev pub with_node : Heap
    with_node =
        update s.heap p
          (some (record { key = key; value = value; height = height; next = garbage }))

    pred-ne : (k : ℕ) → pred k ≢ p
    pred-ne k = pred_at_other k p key (head_entry s) order fresh.0 fresh.1

    other_shape : (a : ℕ) → a ≢ p → shape with_node a ≡ shape s.heap a
    other_shape a ne = ground arith

    other_link : (a k : ℕ) → a ≢ p → link_at with_node a k ≡ link_at s.heap a k
    other_link a k ne = ground arith

    new_shape : shape with_node p ≡ some (key, value, height)
    new_shape = ground arith

    can_link :
        (prev : Prev)
        → ((k : ℕ) → k < height → prev k ≡ some (pred k))
        → CanLink prev pred p 0 height with_node
    can_link prev set = record {
      set = λ k r. set k (ground arith);
      other = λ k r. pred-ne k;
      tall = λ k r. rw (other_shape (pred k) (pred-ne k)) (
          pred_tall s.heap key k (head_entry s) order h.linked.1
            (rw (shape_of_Holds h.linked.0) (ground arith)));
      room = rw new_shape (omega arith);
    }

    spliced :
        (result : Option Heap) (r : LinkedIn 0 height pred p with_node result)
        → Spliced new_entry s.heap r.heap' pred
    spliced result r =
        let range : (k : ℕ) → k < height → in_range 0 height k ≡ true = λ k q. ground arith in
        record {
          shapes = λ a ne. r.shapes a ∙ other_shape a ne;
          links = λ a k ne other.
              r.other_links a k (λ q. (ne, other (ground arith))) ∙ other_link a k ne;
          pred_links = λ k q. r.pred_links k (range k q);
          new_links = λ k q. r.new_links k (range k q) ∙ other_link (pred k) k (pred-ne k);
          new_shape = r.shapes p ∙ new_shape;
        }

    -- The loop links the new node, and the heap holds the list with the new entry.
    pub Linked-heap :
        (prev : Prev)
        → ((k : ℕ) → k < height → prev k ≡ some (pred k))
        → (heap' : Heap) × (link height 0 prev p with_node ≡ some heap')
          × Linked heap' (head_entry s ∷ splice new_entry order)
    Linked-heap prev set =
        let r = link_lem prev pred p height 0 with_node (can_link prev set) in
        (
          r.heap',
          r.returns,
          Linked-head new_entry s.heap r.heap' pred (spliced _ r) (head_entry s) order (λ k. refl)
              bounds.1 h.linked h.distinct fresh,
        )
