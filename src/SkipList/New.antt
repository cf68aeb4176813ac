-- ===== src/SkipList/New.antt =====
-- The constructor leaves an empty list.
use zenith_db.Prelude.{
  ℕ, zero, suc, ◌+◌, ◌≤◌, List, [], Option, none, some, true, false, ◌≡◌, refl, ◌∙◌, arith, update,
  Bool-cases, inl, inr,
}
use zenith_db.Arena.{Allocator, Arena, allocate_aligned}
use zenith_db.Arena.Ranges.{Range}
use zenith_db.Arena.Safety.{IsSound}
use zenith_db.SkipList.{Heap, SkipList, clear_links, new_skip_list, new_node, store_bytes}
use zenith_db.SkipList.Link.{shape, height_of, link_at, in_range, set_next_lem}
use zenith_db.SkipList.Splice.{Holds-of_shape}
use zenith_db.SkipList.Place.{node-Placed}
use zenith_db.SkipList.Invariant.{IsChain}

-- The links of a range of levels are cleared and nothing else changes.
record Cleared (n i x : ℕ) (heap : Heap) (result : Option Heap) : Type 0 where
  heap' : Heap
  returns : result ≡ some heap'
  shapes : (a : ℕ) → shape heap' a ≡ shape heap a
  cleared : (k : ℕ) → in_range i n k ≡ true → link_at heap' x k ≡ none
  others : (k : ℕ) → in_range i n k ≡ false → link_at heap' x k ≡ link_at heap x k

clear_links_lem :
    (n i x : ℕ) (heap : Heap)
    → i + n ≤ height_of (shape heap x)
    → Cleared n i x heap (clear_links n i x heap)
unfolding clear_links
clear_links_lem zero i x heap h = record {
  heap' = heap;
  returns = refl;
  shapes = λ a. refl;
  cleared = λ k r. absurd (ground arith);
  others = λ k r. refl;
}
clear_links_lem (suc n) i x heap h =
    let w = set_next_lem heap x i none (omega arith) in
    let r = clear_links_lem n (i + 1) x w.heap' (rw (w.shapes x) (omega arith)) in
    record {
      heap' = r.heap';
      returns = rw w.returns r.returns;
      shapes = λ a. r.shapes a ∙ w.shapes a;
      cleared = λ k q. elim (Bool-cases (in_range (i + 1) n k)) [
        | inl later ↦ r.cleared k later
        | inr first ↦ ground (arith, r.others k first, w.links x k)
      ];
      others = λ k q. ground (arith, r.others k, w.links x k);
    }

-- A list that was just made, of any arena that is sound, satisfies the invariant with no entries.
pub record MadeEmpty (result : Option SkipList) : Type 0 where
  pub table : SkipList
  pub returns : result ≡ some table
  pub chain : IsChain table []

-- A list that was just made, of any arena that is sound, satisfies the invariant with no entries,
-- whatever uninitialised memory holds.
pub new_skip_list-IsChain :
    (env : Allocator) (garbage : ℕ → Option ℕ) (a : Arena) (live : List Range) (draws : ℕ)
    → IsSound a live
    → MadeEmpty (new_skip_list env garbage a draws)
unfolding new_skip_list new_node store_bytes
new_skip_list-IsChain env garbage a live draws sound =
    let place = node-Placed env [] [] 12 a live (omega arith) sound in
    let p = (allocate_aligned env 128 a).0 in
    let heap : Heap =
      update (λ _. none) p (some (record { key = []; value = []; height = 12; next = garbage })) in
    let c = clear_links_lem 12 0 p heap (ground arith) in
    record {
      table = record {
        arena = (allocate_aligned env 128 a).1;
        heap = c.heap';
        head = p;
        max_height = 1;
        draws = draws;
      };
      returns = rw c.returns;
      chain = record {
        linked = (
          Holds-of_shape c.heap' (record { addr = p; key = []; value = []; height = 12 }) []
              (c.shapes p ∙ ground arith) (λ k t. c.cleared k (ground arith)),
          tt,
        );
        ascends = tt;
        has_link = tt;
        capped = tt;
        distinct = (tt, tt);
        levels = omega arith;
        live = place.later.live';
        sound = place.later.sound;
        placed = (place.at, tt);
      };
    }
