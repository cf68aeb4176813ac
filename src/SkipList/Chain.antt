-- ===== src/SkipList/Chain.antt =====
-- The heap as a chain of entries in the order of level 0, and where a search passes through it.
use zenith_db.Prelude.{
  ℕ, ◌≤◌, ◌<◌, List, [], ◌∷◌, ◌++◌, Option, none, some, false, ◌≡◌, refl, arith, All, if◌then◌else◌,
  ltb, Bool-cases, inl, inr, ltb→le, ltb→lt,
}
use zenith_db.Bytes.{Bytes, lt_bytes, Before, Before-trans}
use zenith_db.SkipList.{SkipNode, Heap}

-- A node as the specification sees it.
pub record Entry : Type 0 where
  pub addr : ℕ
  pub key : Bytes
  pub value : Bytes
  pub height : ℕ

-- The first entry that is taller than level `i`.
abbrev pub first_tall : ℕ → List Entry → Option ℕ
first_tall i [] = none
first_tall i (y ∷ ys) = if ltb i y.height then some y.addr else first_tall i ys

-- The heap holds the entry, and each of its links leads to the next entry that is tall enough.
pub record Holds (heap : Heap) (x : Entry) (after : List Entry) : Type 0 where
  pub node : SkipNode
  pub at : heap x.addr ≡ some node
  pub key : node.key ≡ x.key
  pub value : node.value ≡ x.value
  pub height : node.height ≡ x.height
  pub next : (i : ℕ) → i < x.height → node.next i ≡ first_tall i after

abbrev pub Linked : Heap → List Entry → Type 0
Linked heap [] = Unit
Linked heap (x ∷ after) = Holds heap x after × Linked heap after

-- Keys ascend strictly, and every node has a link.
abbrev pub Ascends : List Entry → Type 0
Ascends [] = Unit
Ascends (x ∷ xs) = All (λ (y : Entry). Before x.key y.key) xs × Ascends xs

abbrev pub HasLink : Entry → Type 0
HasLink x = 0 < x.height

-- The address of the first entry whose key is not less.
abbrev pub lower_bound : Bytes → List Entry → Option ℕ
lower_bound key [] = none
lower_bound key (y ∷ ys) = if lt_bytes y.key key then lower_bound key ys else some y.addr

-- The last entry with a smaller key that is taller than level `i`, or `x`.
abbrev pub pred_at : ℕ → Bytes → Entry → List Entry → ℕ
pred_at i key x [] = x.addr
pred_at i key x (y ∷ ys) =
    let rest = pred_at i key (if ltb i y.height then y else x) ys in
    if lt_bytes y.key key then rest else x.addr

-- Where the first tall entry stands.
pub record Found (i a : ℕ) (after : List Entry) : Type 0 where
  pub mid : List Entry
  pub entry : Entry
  pub rest : List Entry
  pub split : after ≡ mid ++ entry ∷ rest
  pub addr : entry.addr ≡ a
  pub tall : i < entry.height
  pub low : All (λ (z : Entry). z.height ≤ i) mid

pub Found-of_first_tall :
    (i a : ℕ) (after : List Entry) → first_tall i after ≡ some a → Found i a after
Found-of_first_tall i a [] h = absurd (cc)
Found-of_first_tall i a (y ∷ ys) h = elim (Bool-cases (ltb i y.height)) [
  | inl tall ↦ record {
    mid = [];
    entry = y;
    rest = ys;
    split = refl;
    addr = ground arith;
    tall = ltb→lt _ _ tall;
    low = tt;
  }
  | inr short ↦
      let f = Found-of_first_tall i a ys (rw short at h) in
      record {
        mid = y ∷ f.mid;
        entry = f.entry;
        rest = f.rest;
        split = cc (f.split);
        addr = f.addr;
        tall = f.tall;
        low = (ltb→le _ _ short, f.low);
      }
]

pub low_of_none :
    (i : ℕ) (after : List Entry)
    → first_tall i after ≡ none
    → All (λ (z : Entry). z.height ≤ i) after
low_of_none i [] h = tt
low_of_none i (y ∷ ys) h = ground (arith, low_of_none i ys)

at_middle {κ} :
    (P : Entry → Type κ) (mid : List Entry) (y : Entry) (rest : List Entry)
    → All P (mid ++ y ∷ rest)
    → P y
at_middle P [] y rest h = h.0
at_middle P (z ∷ mid) y rest h = at_middle P mid y rest h.1

module _ (key : Bytes) where
  -- What stands in front of a smaller key is smaller.
  front-Before :
      (z : Entry) (mid : List Entry) (y : Entry) (rest : List Entry)
      → Ascends (z ∷ (mid ++ y ∷ rest))
      → Before y.key key
      → Before z.key key
  front-Before z mid y rest s b =
      Before-trans z.key y.key key (at_middle (λ (y : Entry). Before z.key y.key) mid y rest s.0) b

  -- A walk past an entry with a smaller key that is tall enough.
  pub pred_at_past :
      (j : ℕ) (x : Entry) (mid : List Entry) (y : Entry) (rest : List Entry)
      → Ascends (mid ++ y ∷ rest)
      → Before y.key key
      → j < y.height
      → pred_at j key x (mid ++ y ∷ rest) ≡ pred_at j key y rest
  pred_at_past j x [] y rest s b t = ground arith
  pred_at_past j x (z ∷ mid) y rest s b t =
      let z_before = front-Before z mid y rest s b in
      ground (arith, pred_at_past j (if ltb j z.height then z else x) mid y rest s.1 b t)

  pub lower_bound_past :
      (mid : List Entry) (y : Entry) (rest : List Entry)
      → Ascends (mid ++ y ∷ rest)
      → Before y.key key
      → lower_bound key (mid ++ y ∷ rest) ≡ lower_bound key rest
  lower_bound_past [] y rest s b = ground arith
  lower_bound_past (z ∷ mid) y rest s b =
      let z_before = front-Before z mid y rest s b in
      ground (arith, lower_bound_past mid y rest s.1 b)

  -- A walk on which no smaller entry is tall enough stays where it is.
  pub pred_at_low :
      (j : ℕ) (x : Entry) (after : List Entry)
      → All (λ (z : Entry). z.height ≤ j) after
      → pred_at j key x after ≡ x.addr
  pred_at_low j x [] l = refl
  pred_at_low j x (z ∷ after) l = ground (arith, pred_at_low j x after l.1)

  pub pred_at_stop :
      (j : ℕ) (x : Entry) (mid : List Entry) (y : Entry) (rest : List Entry)
      → All (λ (z : Entry). z.height ≤ j) mid
      → lt_bytes y.key key ≡ false
      → pred_at j key x (mid ++ y ∷ rest) ≡ x.addr
  pred_at_stop j x [] y rest l b = ground arith
  pred_at_stop j x (z ∷ mid) y rest l b = ground (arith, pred_at_stop j x mid y rest l.1)
