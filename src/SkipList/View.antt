-- ===== src/SkipList/View.antt =====
-- The map that a chain stands for, and the node that a key is matched to.
use zenith_db.Prelude.{
  ℕ, List, [], ◌∷◌, Option, none, some, ◌≡◌, refl, arith, All, map, if◌then◌else◌, Bool-cases, inl,
  inr,
}
use zenith_db.Bytes.{Bytes, lt_bytes, eq_bytes, Before, cmp_swap, eq_of_cmp, Before-trans}
use zenith_db.OrdMap
use zenith_db.OrdMap.{OrdMap, find, IsSorted, AllAfter}
use zenith_db.SkipList.{SkipNode, Heap, match_key}
use zenith_db.SkipList.Chain.{Entry, Linked, Ascends, lower_bound}
use zenith_db.SkipList.Splice.{splice}

-- Keys and values in the order of level 0.
abbrev pub view : List Entry → OrdMap Bytes
view order = map (λ (e : Entry). (e.key, e.value)) order

abbrev pub lookup_entry : Bytes → List Entry → Option Entry
lookup_entry key [] = none
lookup_entry key (y ∷ ys) = if eq_bytes y.key key then some y else lookup_entry key ys

abbrev pub value_of : Option Entry → Option Bytes
value_of none = none
value_of (some e) = some e.value

abbrev pub set_value : Bytes → Bytes → List Entry → List Entry
set_value key v [] = []
set_value key v (y ∷ ys) =
    if eq_bytes y.key key then record y { value = v } ∷ ys else y ∷ set_value key v ys

pub find-view :
    (key : Bytes) (order : List Entry) → find key (view order) ≡ value_of (lookup_entry key order)
unfolding find
find-view key [] = refl
find-view key (y ∷ ys) = ground (arith, cmp_swap y.key key, find-view key ys)

pub view-IsSorted : (order : List Entry) → Ascends order → IsSorted (view order)
view-IsSorted [] s = tt
view-IsSorted (y ∷ ys) s = (after y.key ys s.0, view-IsSorted ys s.1)
  where
    after :
        (k : Bytes) (ys : List Entry)
        → All (λ (e : Entry). Before k e.key) ys
        → AllAfter k (view ys)
    after k [] h = tt
    after k (e ∷ ys) h = (h.0, after k ys h.1)

-- A new entry in the chain is a new key in the map.
pub view-splice :
    (new : Entry) (order : List Entry)
    → lookup_entry new.key order ≡ none
    → view (splice new order) ≡ OrdMap.insert new.key new.value (view order)
unfolding OrdMap.insert
view-splice new [] h = refl
view-splice new (y ∷ ys) h = ground (arith, cmp_swap y.key new.key, view-splice new ys)

-- Keys are not passed over: everything before a match is smaller.
lookup_past :
    (key : Bytes) (ys : List Entry)
    → All (λ (e : Entry). Before key e.key) ys
    → lookup_entry key ys ≡ none
lookup_past key [] h = refl
lookup_past key (y ∷ ys) h = ground (arith, h.0, cmp_swap key y.key, lookup_past key ys h.1)

pub All-Before :
    (key k : Bytes) (ys : List Entry)
    → Before key k
    → All (λ (e : Entry). Before k e.key) ys
    → All (λ (e : Entry). Before key e.key) ys
All-Before key k [] b h = tt
All-Before key k (y ∷ ys) b h = (Before-trans key k y.key b h.0, All-Before key k ys b h.1)

pub view-set_value :
    (key v : Bytes) (order : List Entry) (y : Entry)
    → Ascends order
    → lookup_entry key order ≡ some y
    → view (set_value key v order) ≡ OrdMap.insert key v (view order)
unfolding OrdMap.insert
view-set_value key v [] y s h = absurd (cc)
view-set_value key v (z ∷ ys) y s h = elim (cmp_swap z.key key) [
  | inl below ↦ ground (arith, below, view-set_value key v ys y s.1)
  | inr (inl same) ↦ ground (arith, same, eq_of_cmp z.key key)
  | inr (inr above) ↦
      absurd (ground (arith, above, lookup_past key ys (All-Before key z.key ys above.1 s.0)))
]

module _ (heap : Heap) (key : Bytes) where
  -- The node at the lower bound matches if and only if the key is there.
  pub match_absent :
      (order : List Entry)
      → Linked heap order
      → lookup_entry key order ≡ none
      → match_key heap key (lower_bound key order) ≡ some none
  unfolding match_key
  match_absent [] l h = refl
  match_absent (y ∷ ys) l h = elim (Bool-cases (lt_bytes y.key key)) [
    | inl on ↦ rw on (match_absent ys l.1 (ground arith))
    | inr off ↦ ground (arith, l.0.at, l.0.key)
  ]

  -- What is found for a key that is there.
  pub record Match (y : Entry) (result : Option (Option (ℕ × SkipNode))) : Type 0 where
    pub node : SkipNode
    pub at : heap y.addr ≡ some node
    pub returns : result ≡ some (some (y.addr, node))
    pub value : node.value ≡ y.value

  pub Match-present :
      (order : List Entry) (y : Entry)
      → Linked heap order
      → Ascends order
      → lookup_entry key order ≡ some y
      → Match y (match_key heap key (lower_bound key order))
  unfolding match_key
  Match-present [] y l s h = absurd (cc)
  Match-present (z ∷ ys) y l s h = elim (cmp_swap z.key key) [
    | inl below ↦
        let m = Match-present ys y l.1 s.1 (ground arith) in
        record { node = m.node; at = m.at; returns = ground (arith, m.returns); value = m.value }
    | inr (inl same) ↦
        let e : z ≡ y = ground arith in
        record {
          node = l.0.node;
          at = ground (arith, l.0.at);
          returns = ground (arith, l.0.at, l.0.key);
          value = ground (arith, l.0.value);
        }
    | inr (inr above) ↦
        absurd (ground (arith, above, lookup_past key ys (All-Before key z.key ys above.1 s.0)))
  ]
