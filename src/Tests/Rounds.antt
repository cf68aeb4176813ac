-- ===== src/Tests/Rounds.antt =====
-- Messages to three nodes, and a compaction of the first level.
use zenith_db.Prelude.{
  List, [], ◌∷◌, Option, none, some, true, ◌≡◌, ◌⊎◌, refl, sym, ap, ◌∙◌, arith, Bool-cases, inl,
  inr,
}
use zenith_db.Bytes.{Bytes, cmp, eq_bytes}
use zenith_db.OrdMap.{find}
use zenith_db.Transport.{Message, put_message, MessageCallback, MockTransport, deliver_all}
use zenith_db.Transport.Delivery
use zenith_db.Transport.Delivery.{effects}
use zenith_db.Compaction.{FileEntry, plan_compaction}
use zenith_db.Compaction.Plan
use zenith_db.Compaction.Plan.{NoneFull, Compacts}

-- A node that notes the payloads it gets.
abbrev note : MessageCallback (List Bytes)
note msg w = (msg.payload ∷ w, [])

abbrev to : Bytes → Bytes → Message
to receiver payload = record {
  kind = put_message;
  sender = [];
  receiver = receiver;
  key = [];
  payload = payload;
}

-- Node 1 is reached, node 2 is cut off, and no node 3 is there.
abbrev net : MockTransport (List Bytes)
net = record {
  queue =
      to (1 ∷ []) (7 ∷ [])
      ∷ to (2 ∷ []) (8 ∷ [])
      ∷ to (3 ∷ []) (9 ∷ [])
      ∷ to (1 ∷ []) (6 ∷ [])
      ∷ [];
  callbacks = (1 ∷ [], note) ∷ (2 ∷ [], note) ∷ [];
  partitioned = (2 ∷ [], true) ∷ [];
}

-- What the callback found for a node sends.
abbrev sent : Message → List Bytes → Option (MessageCallback (List Bytes)) → List Message
sent msg w none = []
sent msg w (some cb) = (cb msg w).1

net_sends_nothing :
    (node_id : Bytes) (msg : Message) (w : List Bytes)
    → sent msg w (find node_id net.callbacks) ≡ []
unfolding find
net_sends_nothing node_id msg w = elim (Bool-cases (eq_bytes node_id (1 ∷ []))) [
  | inl e ↦ rw e refl
  | inr e ↦ elim (Bool-cases (eq_bytes node_id (2 ∷ []))) [
    | inl f ↦ rw (e, f) refl
    | inr f ↦ rw (e, f) refl
  ]
]

net-IsQuiet : Delivery.IsQuiet net
net-IsQuiet node_id cb known msg w = sym (ap (sent msg w) known) ∙ net_sends_nothing node_id msg w

deliver_all_lem_example :
    deliver_all 4 [] net ≡ some (effects net net.queue [], record net { queue = [] })
deliver_all_lem_example = Delivery.deliver_all_lem net net-IsQuiet 4 [] (omega arith)

deliver_runs : deliver_all 4 [] net ≡ some ((6 ∷ []) ∷ (7 ∷ []) ∷ [], record net { queue = [] })
unfolding deliver_all find cmp
deliver_runs = refl

-- Three files on the first level, of seven.
abbrev levels : List (List Bytes)
levels = ((1 ∷ []) ∷ (2 ∷ []) ∷ (3 ∷ []) ∷ []) ∷ ((4 ∷ []) ∷ []) ∷ [] ∷ []

abbrev layout : List (List FileEntry)
layout = [] ∷ [] ∷ [] ∷ []

plan_compaction_cases_example :
    ((plan_compaction (λ lvl. lvl ∷ []) levels layout ≡ some none) × NoneFull 0 levels)
    ⊎ Compacts levels (plan_compaction (λ lvl. lvl ∷ []) levels layout)
plan_compaction_cases_example =
    Plan.plan_compaction_cases (λ lvl. lvl ∷ []) levels layout (omega arith)
