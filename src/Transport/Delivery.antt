-- ===== src/Transport/Delivery.antt =====
-- Every message reaches its receiver once, in the order of sending, unless it is cut off.
use zenith_db.Prelude.{
  ℕ, zero, suc, ◌≤◌, List, [], ◌∷◌, none, some, true, false, ◌≡◌, refl, ap, ◌∙◌, arith, length,
  append-nil, Bool-cases, Option-cases, inl, inr,
}
use zenith_db.Bytes.{Bytes}
use zenith_db.OrdMap.{find}
use zenith_db.Transport.{Message, MessageCallback, MockTransport, is_cut_off, deliver, deliver_all}

module _ {W : Type 0} where
  -- The effect of a message on the state of the program: that of the callback of its receiver, if
  -- there is one and the receiver is not cut off.
  unfoldable pub effect : MockTransport W → Message → W → W
  effect t msg w = elim (find msg.receiver t.callbacks) [
    | none ↦ w
    | some cb ↦ elim (is_cut_off msg.receiver t) [ true ↦ w | false ↦ (cb msg w).0 ]
  ]

  abbrev pub effects : MockTransport W → List Message → W → W
  effects t [] w = w
  effects t (msg ∷ msgs) w = effects t msgs (effect t msg w)

  -- No callback sends anything, as a node that receives a message does not.
  abbrev pub IsQuiet : MockTransport W → Type 0
  IsQuiet t =
      (node_id : Bytes) (cb : MessageCallback W)
      → find node_id t.callbacks ≡ some cb
      → (msg : Message) (w : W) → (cb msg w).1 ≡ []

  deliver_lem :
      (t : MockTransport W)
      → IsQuiet t
      → (msg : Message) (w : W) (rest : List Message)
      → deliver msg w (record t { queue = rest }) ≡ (effect t msg w, record t { queue = rest })
  unfolding deliver effect
  deliver_lem t quiet msg w rest = elim (Option-cases (find msg.receiver t.callbacks)) [
    | inl unknown ↦ rw (unknown, deliver, effect) refl
    | inr (cb, known) ↦ elim (Bool-cases (is_cut_off msg.receiver t)) [
      | inl cut ↦ rw (known, cut, deliver, effect) refl
      | inr reached ↦
          rw (known, reached, deliver, effect)
            (rw (quiet msg.receiver cb known msg w, append-nil rest) refl)
    ]
  ]

  deliver_queue :
      (t : MockTransport W)
      → IsQuiet t
      → (fuel : ℕ) (queue : List Message) (w : W) → length queue ≤ fuel
      → deliver_all fuel w (record t { queue = queue })
        ≡ some (effects t queue w, record t { queue = [] })
  unfolding deliver_all
  deliver_queue t quiet zero [] w enough = refl
  deliver_queue t quiet zero (msg ∷ rest) w enough = absurd (omega arith)
  deliver_queue t quiet (suc fuel) [] w enough = refl
  deliver_queue t quiet (suc fuel) (msg ∷ rest) w enough =
      ap (λ (p : W × MockTransport W). deliver_all fuel p.0 p.1) (deliver_lem t quiet msg w rest)
      ∙ deliver_queue t quiet fuel rest (effect t msg w) (omega arith)

  -- If no callback sends anything itself, and with fuel for the messages of the queue,
  -- `DeliverAll` returns with the queue empty and the rest of the transport as it was, and each
  -- message took effect once, in the order of sending: by the callback of its receiver, unless
  -- there is none or the receiver is cut off.
  pub deliver_all_lem :
      (t : MockTransport W)
      → IsQuiet t
      → (fuel : ℕ) (w : W) → length t.queue ≤ fuel
      → deliver_all fuel w t ≡ some (effects t t.queue w, record t { queue = [] })
  deliver_all_lem t quiet fuel w enough = deliver_queue t quiet fuel t.queue w enough
