-- ===== src/SkipList.antt =====
-- The skip list: src/skiplist.h. A node's address is the one that the arena gave it; a read at an
-- address that holds no node, or of a link above the node's height, is a fault, `none`.
-- The atomic links are read and written in program order: one writer.
pub mod Height
pub mod Chain
pub mod Find
pub mod Link
pub mod Splice
pub mod View
pub mod Replace
pub mod Place
pub mod Order
pub mod NewNode
pub mod New
pub mod Iterator
pub mod Invariant
pub mod Insert
use zenith_db.Prelude.{
  ℕ, zero, suc, ◌+◌, ◌-◌, ◌*◌, ◌%◌, List, [], ◌∷◌, Option, none, some, Bool, true, false, ◌&&◌,
  if◌then◌else◌, ltb, ◌==◌, length, update, ◌>>=◌,
}
use zenith_db.Bytes.{Bytes, lt_bytes, eq_bytes}
use zenith_db.Arena.{Allocator, Arena, allocate, allocate_aligned}

-- `struct Node`; `height` is the number of links that its memory has room for.
pub record SkipNode : Type 0 where
  pub key : Bytes
  pub value : Bytes
  pub height : ℕ
  pub next : ℕ → Option ℕ

abbrev pub Heap : Type 0
Heap = ℕ → Option SkipNode

pub record SkipList : Type 0 where
  pub arena : Arena
  pub heap : Heap
  pub head : ℕ
  pub max_height : ℕ
  -- How many times `rand` has been called.
  pub draws : ℕ

abbrev pub k_max_height : ℕ
k_max_height = 12

-- `Node::Next`.
unfoldable pub next_of : Heap → ℕ → ℕ → Option (Option ℕ)
next_of heap x i = do node ← heap x; if ltb i node.height then some (node.next i) else none

-- `Node::SetNext`.
unfoldable pub set_next : Heap → ℕ → ℕ → Option ℕ → Option Heap
set_next heap x i v = do
  node ← heap x
  let heap' = update heap x (some (record node { next = update node.next i v }))
  if ltb i node.height then some heap' else none

-- `KeyIsAfterNode`.
unfoldable pub key_is_after_node : Heap → Bytes → Option ℕ → Option Bool
key_is_after_node heap key none = some false
key_is_after_node heap key (some n) = do node ← heap n; some (lt_bytes node.key key)

-- `prev`: an array of which only some elements are set.
abbrev pub Prev : Type 0
Prev = ℕ → Option ℕ

abbrev pub no_prev : Prev
no_prev i = none

-- The loop of `FindGreaterOrEqual`, on fuel.
unfoldable pub find_loop : ℕ → Heap → Bytes → ℕ → ℕ → Prev → Option (Option ℕ × Prev)
find_loop zero heap key x level prev = none
find_loop (suc fuel) heap key x level prev = elim (next_of heap x level) [
  | none ↦ none
  | some next ↦ elim (key_is_after_node heap key next) [
    | none ↦ none
    | some true ↦ elim next [ none ↦ none | some y ↦ find_loop fuel heap key y level prev ]
    | some false ↦ elim level [
      | zero ↦ some (next, update prev zero (some x))
      | suc l ↦ find_loop fuel heap key x l (update prev (suc l) (some x))
    ]
  ]
]

unfoldable pub find_greater_or_equal : ℕ → SkipList → Bytes → Option (Option ℕ × Prev)
unfolding find_loop
find_greater_or_equal fuel s key = find_loop fuel s.heap key s.head (s.max_height - 1) no_prev

-- `x != nullptr && x->key == key`, with the node.
unfoldable pub match_key : Heap → Bytes → Option ℕ → Option (Option (ℕ × SkipNode))
match_key heap key none = some none
match_key heap key (some x) = do
  node ← heap x
  some (if eq_bytes node.key key then some (x, node) else none)

-- `Get`: outside, whether the walk faults; inside, whether the key is there.
unfoldable pub get : ℕ → SkipList → Bytes → Option (Option Bytes)
unfolding find_greater_or_equal match_key
get fuel s key = do
  (x, _) ← find_greater_or_equal fuel s key
  found ← match_key s.heap key x
  some (elim found [ none ↦ none | some (_, node) ↦ some node.value ])

-- `Contains`.
unfoldable pub contains : ℕ → SkipList → Bytes → Option Bool
unfolding find_greater_or_equal match_key
contains fuel s key = do
  (x, _) ← find_greater_or_equal fuel s key
  found ← match_key s.heap key x
  some (elim found [ none ↦ false | some _ ↦ true ])

-- `for (i = lo; i < lo + n; i++) prev[i] = head_`.
unfoldable pub fill_prev : ℕ → ℕ → ℕ → Prev → Prev
fill_prev zero lo head prev = prev
fill_prev (suc n) lo head prev = fill_prev n (lo + 1) head (update prev lo (some head))

-- The last loop of `Insert`: the new node takes over its predecessor's link at each level.
unfoldable pub link : ℕ → ℕ → Prev → ℕ → Heap → Option Heap
unfolding next_of set_next
link zero i prev x heap = some heap
link (suc n) i prev x heap = do
  before ← prev i
  after ← next_of heap before i
  heap ← set_next heap x i after
  heap ← set_next heap before i (some x)
  link n (i + 1) prev x heap

-- `for (i = lo; i < lo + n; ++i) head_->SetNext(i, nullptr)`.
unfoldable pub clear_links : ℕ → ℕ → ℕ → Heap → Option Heap
unfolding set_next
clear_links zero i x heap = some heap
clear_links (suc n) i x heap = do heap ← set_next heap x i none; clear_links n (i + 1) x heap

module _ (rand : ℕ → ℕ) where
  -- The loop of `RandomHeight`: `left` is `kMaxHeight - height`.
  unfoldable pub random_loop : ℕ → ℕ → ℕ → ℕ × ℕ
  random_loop zero height draws = (height, draws)
  random_loop (suc left) height draws =
      let more = random_loop left (height + 1) (draws + 1) in
      if rand draws % 4 == 0 then more else (height, draws + 1)

  unfoldable pub random_height : ℕ → ℕ × ℕ
  unfolding random_loop
  random_height draws = random_loop (k_max_height - 1) 1 draws

module _ (env : Allocator) where
  -- The bytes of a key or a value, if there are any.
  unfoldable pub store_bytes : Bytes → Arena → Arena
  store_bytes [] a = a
  store_bytes (b ∷ bs) a = (allocate env (length (b ∷ bs)) a).1

  -- The early return: the node takes the new value in place.
  unfoldable pub replace_value : SkipList → ℕ → SkipNode → Bytes → SkipList
  unfolding store_bytes
  replace_value s x node value = record s {
    arena = store_bytes value s.arena;
    heap = update s.heap x (some (record node { value = value }));
  }

module _ (env : Allocator) (garbage : ℕ → Option ℕ) where
  -- `NewNode`; `sizeof(Node)` is 40, with one link. The links hold what the memory held.
  unfoldable pub new_node : Bytes → Bytes → ℕ → Arena → Heap → ℕ × Arena × Heap
  unfolding store_bytes
  new_node key value height a heap =
      let (p, b) =
        allocate_aligned env (40 + 8 * (height - 1))
          (store_bytes env value (store_bytes env key a)) in
      (
        p,
        b,
        update heap p (some (record { key = key; value = value; height = height; next = garbage })),
      )

  -- The constructor.
  unfoldable pub new_skip_list : Arena → ℕ → Option SkipList
  unfolding new_node clear_links
  new_skip_list a draws =
      let (p, b, heap) = new_node [] [] k_max_height a (λ _. none) in
      (clear_links k_max_height 0 p heap) >>= λ heap'.
      some (record { arena = b; heap = heap'; head = p; max_height = 1; draws = draws })

module _ (env : Allocator) (rand : ℕ → ℕ) (garbage : ℕ → Option ℕ) where
  -- `Insert` of a key that is not there: the part behind the early return.
  unfoldable pub insert_new : SkipList → Prev → Bytes → Bytes → Option SkipList
  unfolding random_height fill_prev new_node link
  insert_new s prev key value =
      let (height, draws) = random_height rand s.draws in
      let taller = ltb s.max_height height in
      let prev' =
        if taller then fill_prev (height - s.max_height) s.max_height s.head prev else prev in
      let max_height = if taller then height else s.max_height in
      let (p, a, heap) = new_node env garbage key value height s.arena s.heap in
      (link height 0 prev' p heap) >>= λ heap'.
      some (record s { arena = a; heap = heap'; max_height = max_height; draws = draws })

  unfoldable pub insert : ℕ → SkipList → Bytes → Bytes → Option SkipList
  unfolding find_greater_or_equal match_key insert_new replace_value
  insert fuel s key value = do
    (x, prev) ← find_greater_or_equal fuel s key
    found ← match_key s.heap key x
    elim found [
      | none ↦ insert_new s prev key value
      | some (y, node) ↦ some (replace_value env s y node value)
    ]
