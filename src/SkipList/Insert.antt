-- ===== src/SkipList/Insert.antt =====
-- `Insert` is the insertion into the map that the list stands for, and keeps the invariant.
use zenith_db.Prelude.{
  ℕ, zero, suc, ◌+◌, ◌-◌, ◌*◌, ◌≤◌, ◌<◌, List, ◌∷◌, Option, none, some, Bool, ◌≡◌, refl, sym, arith,
  All, All-map, length, inl, inr, Option-cases, Bool-cases, update, ltb, ltb→le, if◌then◌else◌,
}
use zenith_db.Bytes.{Bytes}
use zenith_db.OrdMap
use zenith_db.Arena.{Allocator, allocate_aligned}
use zenith_db.SkipList.{
  SkipNode, Heap, SkipList, Prev, no_prev, find_loop, fill_prev, random_height, new_node,
  insert_new, replace_value, insert, store_bytes,
}
use zenith_db.SkipList.Height.{random_height_bounds}
use zenith_db.SkipList.Chain.{Entry, Linked, HasLink, pred_at_low}
use zenith_db.SkipList.Find.{FindsFrom}
use zenith_db.SkipList.Link.{in_range}
use zenith_db.SkipList.Order.{All-splice, Distinct-splice, Ascends-splice}
use zenith_db.SkipList.Splice.{OtherAddr, splice}
use zenith_db.SkipList.Place.{Occupied, Placed, store_bytes-Later, node-Placed}
use zenith_db.SkipList.View.{
  view, lookup_entry, view-splice, view-set_value, match_absent, Match-present,
}
use zenith_db.SkipList.View.{set_value}
use zenith_db.SkipList.Replace.{
  Linked-replace, All-set_value, Ascends-set_value, Distinct-set_value,
}
use zenith_db.SkipList.NewNode.{pred, Linked-heap}
use zenith_db.SkipList.Invariant.{IsChain, head_entry, find_lem}

fill_prev_lem :
    (n lo head : ℕ) (prev : Prev) (k : ℕ)
    → fill_prev n lo head prev k ≡ (if in_range lo n k then some head else prev k)
unfolding fill_prev
fill_prev_lem zero lo head prev k = ground arith
fill_prev_lem (suc n) lo head prev k =
    ground (arith, fill_prev_lem n (lo + 1) head (update prev lo (some head)) k)

-- What an insertion has to return: a list that satisfies the invariant, and stands for the map
-- with the key set to the value.
pub record Inserted (order : List Entry) (key value : Bytes) (result : Option SkipList)
    : Type 0 where
  pub after : SkipList
  pub order' : List Entry
  pub returns : result ≡ some after
  pub chain : IsChain after order'
  pub inserts : view order' ≡ OrdMap.insert key value (view order)

module _ (env : Allocator) (rand : ℕ → ℕ) (garbage : ℕ → Option ℕ) (s : SkipList)
    (order : List Entry) (h : IsChain s order) (key value : Bytes) where
  abbrev height : ℕ
  height = (random_height rand s.draws).0

  abbrev taller : Bool
  taller = ltb s.max_height height

  -- The predecessors above the old levels are the head.
  filled :
      (prev : Prev)
      → ((k : ℕ) → k ≤ s.max_height - 1 → prev k ≡ some (pred env garbage s order h key value k))
      → (k : ℕ) → k < height
      → (if taller then fill_prev (height - s.max_height) s.max_height s.head prev else prev) k
        ≡ some (pred env garbage s order h key value k)
  filled prev walked k q = elim (Bool-cases (ltb k s.max_height)) [
    | inl old ↦ ground (
      arith,
      fill_prev_lem (height - s.max_height) s.max_height s.head prev k,
      walked k,
      h.levels.0,
    )
    | inr above ↦
        let low : All (λ (e : Entry). e.height ≤ k) order =
          All-map (λ (e : Entry). e.height ≤ s.max_height) (λ (e : Entry). e.height ≤ k) order
            (λ e le. omega (arith, ltb→le _ _ above)) h.capped in
        ground (
          arith,
          fill_prev_lem (height - s.max_height) s.max_height s.head prev k,
          pred_at_low key k (head_entry s) order low,
        )
  ]

  abbrev place :
      Placed env h.live
        (allocate_aligned env
          (40 + 8 * (height - 1))
          (store_bytes env value (store_bytes env key s.arena))).0
        (allocate_aligned env
          (40 + 8 * (height - 1))
          (store_bytes env value (store_bytes env key s.arena))).1
  place =
      node-Placed env key value height s.arena h.live (random_height_bounds rand s.draws).1 h.sound

  abbrev new_at : ℕ
  new_at =
      (allocate_aligned env (40 + 8 * (height - 1))
        (store_bytes env value (store_bytes env key s.arena))).0

  fresh : All (OtherAddr new_at) (head_entry s ∷ order)
  fresh =
      All-map (λ (e : Entry). Occupied h.live e.addr) (OtherAddr new_at) (head_entry s ∷ order)
        (λ e o. place.apart e.addr o) h.placed

  abbrev inserted_entry : Entry
  inserted_entry = record { addr = new_at; key = key; value = value; height = height }

  -- The list that `Insert` leaves, over the heap with the node linked.
  abbrev after_insert : Heap → SkipList
  after_insert heap' = record s {
    arena =
        (allocate_aligned env (40 + 8 * (height - 1))
          (store_bytes env value (store_bytes env key s.arena))).1;
    heap = heap';
    max_height = if taller then height else s.max_height;
    draws = (random_height rand s.draws).1;
  }

  after_insert-IsChain :
      (heap' : Heap)
      → Linked heap' (head_entry s ∷ splice inserted_entry order)
      → lookup_entry key order ≡ none
      → IsChain (after_insert heap') (splice inserted_entry order)
  after_insert-IsChain heap' linked absent =
      let bounds = random_height_bounds rand s.draws in
      let new = inserted_entry in
      record {
        linked = linked;
        ascends = Ascends-splice new order absent h.ascends;
        has_link = All-splice new HasLink order (omega (arith, bounds.0)) h.has_link;
        capped =
            All-splice new (λ (e : Entry). e.height ≤ (if taller then height else s.max_height))
              order (ground arith)
              (All-map (λ (e : Entry). e.height ≤ s.max_height)
                (λ (e : Entry). e.height ≤ (if taller then height else s.max_height)) order
                (λ e le. ground arith) h.capped);
        distinct = (
          All-splice new (OtherAddr s.head) order (λ e. fresh.0 (sym e)) h.distinct.0,
          Distinct-splice new order fresh.1 h.distinct.1,
        );
        levels = ground (arith, bounds, h.levels);
        live = place.later.live';
        sound = place.later.sound;
        placed = (
          place.later.kept s.head h.placed.0,
          All-splice new (λ (e : Entry). Occupied place.later.live' e.addr) order place.at
              (All-map (λ (e : Entry). Occupied h.live e.addr)
                (λ (e : Entry). Occupied place.later.live' e.addr) order
                (λ e o. place.later.kept e.addr o) h.placed.1),
        );
      }

  insert_new_lem :
      (prev : Prev)
      → ((k : ℕ) → k ≤ s.max_height - 1 → prev k ≡ some (pred env garbage s order h key value k))
      → lookup_entry key order ≡ none
      → Inserted order key value (insert_new env rand garbage s prev key value)
  unfolding insert_new new_node
  insert_new_lem prev walked absent =
      let (heap', returns, linked) =
        Linked-heap env garbage s order h key value height new_at
          (random_height_bounds rand s.draws) fresh
          (if taller then fill_prev (height - s.max_height) s.max_height s.head prev else prev)
          (filled prev walked) in
      record {
        after = after_insert heap';
        order' = splice inserted_entry order;
        returns = rw returns;
        chain = after_insert-IsChain heap' linked absent;
        inserts = view-splice inserted_entry order absent;
      }

module _ (env : Allocator) (s : SkipList) (order : List Entry) (h : IsChain s order)
    (key value : Bytes) where
  -- The early return: only the value of the entry changes.
  replace_lem :
      (y : Entry) (node : SkipNode)
      → lookup_entry key order ≡ some y
      → s.heap y.addr ≡ some node
      → Inserted order key value (some (replace_value env s y.addr node value))
  unfolding replace_value
  replace_lem y node present at =
      let later = store_bytes-Later env value s.arena h.live h.sound in
      let keep = λ (P : Entry → Type 0). All-set_value key value P order in
      record {
        after = _;
        order' = set_value key value order;
        returns = refl;
        chain = record {
          linked =
              Linked-replace key value s.heap y.addr node at (head_entry s) order y refl present
                h.distinct h.linked;
          ascends = Ascends-set_value key value order h.ascends;
          has_link = keep HasLink (λ e q. q) h.has_link;
          capped = keep (λ (e : Entry). e.height ≤ s.max_height) (λ e q. q) h.capped;
          distinct = (
            keep (OtherAddr s.head) (λ e q. q) h.distinct.0,
            Distinct-set_value key value order h.distinct.1,
          );
          levels = h.levels;
          live = later.live';
          sound = later.sound;
          placed = (
            later.kept s.head h.placed.0,
            keep (λ (e : Entry). Occupied later.live' e.addr) (λ e q. q)
                (All-map (λ (e : Entry). Occupied h.live e.addr)
                  (λ (e : Entry). Occupied later.live' e.addr) order (λ e o. later.kept e.addr o)
                  h.placed.1),
          );
        };
        inserts = view-set_value key value order y h.ascends present;
      }

-- On a skip list that satisfies the invariant, with fuel for its entries and 12 levels, `Insert`
-- faults nowhere, keeps the invariant, and sets the key in the map that the list stands for,
-- whatever the allocator, `rand` and uninitialised memory give.
pub insert_lem :
    (env : Allocator) (rand : ℕ → ℕ) (garbage : ℕ → Option ℕ) (s : SkipList) (order : List Entry)
    → IsChain s order
    → (fuel : ℕ) (key value : Bytes) → length order + 12 ≤ fuel
    → Inserted order key value (insert env rand garbage fuel s key value)
insert_lem env rand garbage s order h fuel key value enough =
    elim (Option-cases (lookup_entry key order)) [
      | inl absent ↦
          let r = insert_new_lem env rand garbage s order h key value f.final f.walked absent in
          record {
            after = r.after;
            order' = r.order';
            returns =
                unfold insert in
                rw (f.returns, match_absent s.heap key order h.linked.1 absent) r.returns;
            chain = r.chain;
            inserts = r.inserts;
          }
      | inr (y, present) ↦
          let m = Match-present s.heap key order y h.linked.1 h.ascends present in
          let r = replace_lem env s order h key value y m.node present m.at in
          record {
            after = r.after;
            order' = r.order';
            returns = unfold insert in rw (f.returns, m.returns) r.returns;
            chain = r.chain;
            inserts = r.inserts;
          }
    ]
  where
    f :
        FindsFrom s.heap key
          (head_entry s)
          order
          (s.max_height - 1)
          no_prev
          (find_loop fuel s.heap key s.head (s.max_height - 1) no_prev)
    f = find_lem s order h fuel key enough
