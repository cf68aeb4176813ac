-- ===== src/Node.antt =====
-- A node: src/node.cpp and src/node.h. What it sends is the list of messages that its calls hand to
-- the transport, in order.
pub mod Replication
use zenith_db.Prelude.{
  ℕ, List, [], ◌∷◌, ◌++◌, map, Option, none, some, Bool, true, false, if◌then◌else◌, ◌>>=◌,
}
use zenith_db.Bytes.{Bytes, eq_bytes}
use zenith_db.OrdMap
use zenith_db.OrdMap.{OrdMap, find}
use zenith_db.Crdt
use zenith_db.Crdt.{LwwRegister}
use zenith_db.Arena.{Allocator}
use zenith_db.SsTable.{Rows}
use zenith_db.Database.{ZenithDb}
use zenith_db.Database.Read
use zenith_db.Database.Read.{get_crdt, scan_crdt}
use zenith_db.Database.Write
use zenith_db.Database.Write.{put_crdt}
use zenith_db.Transport.{
  MessageType, put_message, gossip_message, Message, MessageCallback, MockTransport, register,
}

-- The transport is apart, as all nodes share it.
pub record Node : Type 0 where
  pub node_id : Bytes
  pub db : ZenithDb
  pub peers : List Bytes

-- `AddPeer`.
unfoldable pub add_peer : Bytes → Node → Node
add_peer peer_id node =
    if eq_bytes peer_id node.node_id
    then node
    else record node { peers = node.peers ++ peer_id ∷ [] }

-- `Get`.
unfoldable pub get : ℕ → Node → Bytes → Option (Option Bytes)
get fuel node key = Read.get fuel node.db key

-- The message about a register.
unfoldable pub message_of : MessageType → Node → Bytes → LwwRegister → Bytes → Message
message_of kind node key crdt receiver = record {
  kind = kind;
  sender = node.node_id;
  receiver = receiver;
  key = key;
  payload = Crdt.serialize crdt;
}

-- `PushToReplicas`.
unfoldable pub push_to_replicas : Node → Bytes → LwwRegister → List Message
unfolding message_of
push_to_replicas node key crdt = map (message_of put_message node key crdt) node.peers

-- The loop of `TriggerAntiEntropy`.
unfoldable pub gossip : Node → Bytes → List (Bytes × LwwRegister) → List Message
unfolding message_of
gossip node target [] = []
gossip node target ((key, crdt) ∷ results) =
    message_of gossip_message node key crdt target ∷ gossip node target results

-- `TriggerAntiEntropy`, over the `std::sort` of the database.
unfoldable pub trigger_anti_entropy : (Rows → Rows) → ℕ → Node → Bytes → Option (List Message)
unfolding gossip scan_crdt
trigger_anti_entropy sort fuel node target =
    scan_crdt sort fuel node.db [] (255 ∷ []) >>= λ results. some (gossip node target results)

module _ (env : Allocator) (rand : ℕ → ℕ) (garbage : ℕ → Option ℕ) where
  -- `Put`: the node after it, and what it pushes.
  unfoldable pub put : ℕ → Node → Bytes → Bytes → Option (Node × List Message)
  unfolding push_to_replicas
  put fuel node key value = Write.put env rand garbage fuel node.db key value >>= λ db.
      get_crdt fuel db key >>= λ crdt_opt. some (
        record node { db = db },
        elim crdt_opt [ none ↦ [] | some crdt ↦ push_to_replicas node key crdt ],
      )

  -- `OnMessage`. The type of a message has no third value.
  unfoldable pub on_message : ℕ → Message → Node → Option Node
  on_message fuel msg node = Crdt.deserialize msg.payload >>= λ incoming.
      put_crdt env rand garbage fuel node.db msg.key incoming >>= λ db.
      some (record node { db = db })

  -- The callback of the node with an id, among all nodes; `none` once one of them has faulted.
  unfoldable pub callback : ℕ → Bytes → MessageCallback (Option (OrdMap Node))
  unfolding on_message
  callback fuel node_id msg nodes = (
    nodes >>= λ all. find node_id all >>= λ node.
        on_message fuel msg node >>= λ node'. some (OrdMap.insert node_id node' all),
    [],
  )

-- The constructor, of a database that is open for the node's id: the node and the transport.
module _ (env : Allocator) (rand : ℕ → ℕ) (garbage : ℕ → Option ℕ) where
  unfoldable pub new_node :
      ℕ
      → ZenithDb
      → MockTransport (Option (OrdMap Node))
      → Node × MockTransport (Option (OrdMap Node))
  unfolding callback register
  new_node fuel db transport = (
    record { node_id = db.node_id; db = db; peers = [] },
    register db.node_id (callback env rand garbage fuel db.node_id) transport,
  )
