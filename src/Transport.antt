-- ===== src/Transport.antt =====
-- Messages between nodes: src/transport.h. A callback acts on the state of the program and may send
-- messages, which the transport appends to its queue.
pub mod Delivery
use zenith_db.Prelude.{ℕ, zero, suc, List, [], ◌∷◌, ◌++◌, Option, none, some, Bool, true, false}
use zenith_db.Bytes.{Bytes}
use zenith_db.OrdMap
use zenith_db.OrdMap.{OrdMap, find}

pub data MessageType : Type 0 where
  put_message : MessageType
  gossip_message : MessageType

pub record Message : Type 0 where
  pub kind : MessageType
  pub sender : Bytes
  pub receiver : Bytes
  pub key : Bytes
  pub payload : Bytes

-- The state after a message, and what was sent.
abbrev pub MessageCallback : Type 0 → Type 0
MessageCallback W = Message → W → W × List Message

pub record MockTransport (W : Type 0) : Type 0 where
  pub queue : List Message
  pub callbacks : OrdMap (MessageCallback W)
  pub partitioned : OrdMap Bool

module _ {W : Type 0} where
  -- `Register`.
  unfoldable pub register : Bytes → MessageCallback W → MockTransport W → MockTransport W
  register node_id cb t = record t { callbacks = OrdMap.insert node_id cb t.callbacks }

  -- `Send`.
  unfoldable pub send : Message → MockTransport W → MockTransport W
  send msg t = record t { queue = t.queue ++ msg ∷ [] }

  -- `Partition`.
  unfoldable pub partition : Bytes → Bool → MockTransport W → MockTransport W
  partition node_id is_partitioned t = record t {
    partitioned = OrdMap.insert node_id is_partitioned t.partitioned;
  }

  -- `partitioned_.count(id) && partitioned_.at(id)`.
  unfoldable pub is_cut_off : Bytes → MockTransport W → Bool
  is_cut_off node_id t = elim (find node_id t.partitioned) [ none ↦ false | some b ↦ b ]

  -- A message that was taken from the queue.
  unfoldable pub deliver : Message → W → MockTransport W → W × MockTransport W
  unfolding is_cut_off
  deliver msg w t = elim (find msg.receiver t.callbacks) [
    | none ↦ (w, t)
    | some cb ↦ elim (is_cut_off msg.receiver t) [
      | true ↦ (w, t)
      | false ↦ ((cb msg w).0, record t { queue = t.queue ++ (cb msg w).1 })
    ]
  ]

  -- `DeliverAll`, on fuel: a message for each unit.
  unfoldable pub deliver_all : ℕ → W → MockTransport W → Option (W × MockTransport W)
  unfolding deliver
  deliver_all zero w t = elim t.queue [ [] ↦ some (w, t) | msg ∷ rest ↦ none ]
  deliver_all (suc fuel) w t = elim t.queue [
    | [] ↦ some (w, t)
    | msg ∷ rest ↦
        let (w', t') = deliver msg w (record t { queue = rest }) in deliver_all fuel w' t'
  ]
