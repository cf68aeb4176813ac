-- ===== src/Node/Replication.antt =====
-- A write at one node and its message at another.
use zenith_db.Prelude.{
  ℕ, ◌+◌, ◌≤◌, ◌<◌, List, [], ◌∷◌, map, Option, some, true, ◌≡◌, refl, ap, ◌∙◌, arith, length, All,
  if◌then◌else◌,
}
use zenith_db.Bytes.{Bytes, eq_bytes, cmp_refl}
use zenith_db.OrdMap.{OrdMap}
use zenith_db.Crdt.{LwwRegister}
use zenith_db.Crdt.Codec.{deserialize-serialize}
use zenith_db.Arena.{Allocator}
use zenith_db.MemTable.Contract.{Models}
use zenith_db.Database.Read.{get_crdt, readable}
use zenith_db.Database.Reads.{ClockFits, local_register, winner, put_lem, put_crdt_lem}
use zenith_db.Transport.{Message, put_message}
use zenith_db.Node.{Node, message_of, push_to_replicas, put, on_message}

readable-some : (reg : LwwRegister) → 0 < length reg.value → readable reg ≡ some reg
readable-some reg some_bytes = go reg.value refl
  where
    go : (v : Bytes) → reg.value ≡ v → readable reg ≡ some reg
    go [] e = absurd (omega (arith, ap length e, some_bytes))
    go (b ∷ bs) e = rw e refl

module _ (env : Allocator) (rand : ℕ → ℕ) (garbage : ℕ → Option ℕ) where
  -- The replica after a message.
  pub record Received (fuel : ℕ) (node : Node) (q key : Bytes) (reg : LwwRegister)
      (existing : Option LwwRegister) (msg : Message) : Type 0 where
    pub after : Node
    pub returns : on_message env rand garbage fuel msg node ≡ some after
    pub reads : get_crdt fuel after.db q ≡ (
        if eq_bytes q key then some (readable (winner reg existing)) else get_crdt fuel node.db q)

  on_message_lem :
      (fuel : ℕ) (node sender : Node) (map' : OrdMap Bytes)
      → Models node.db.active_mem map'
      → length map' + 13 ≤ fuel
      → (key : Bytes) (reg : LwwRegister) (existing : Option LwwRegister)
      → get_crdt fuel node.db key ≡ some existing
      → ClockFits reg
      → ClockFits (winner reg existing)
      → (q receiver : Bytes)
      → Received fuel node q key reg existing (message_of put_message sender key reg receiver)
  unfolding on_message message_of
  on_message_lem fuel node sender map' h enough key reg existing found fits wins q receiver =
      let (after, returns, reads) =
        put_crdt_lem env rand garbage fuel node.db map' h enough key reg existing found wins q in
      record {
        after = record node { db = after };
        returns = rw (deserialize-serialize reg fits.0 fits.1, returns) refl;
        reads = reads;
      }

  received-All :
      (P : Message → Type 0) (f : Bytes → Message) (peers : List Bytes)
      → ((peer : Bytes) → P (f peer))
      → All P (map f peers)
  received-All P f [] h = tt
  received-All P f (peer ∷ peers) h = (h peer, received-All P f peers h)

  -- `Put` of a value that is not empty at one node returns, a reader of the key there gets the
  -- new register, and one message with it goes out to each peer, in order. Whichever of these
  -- messages another node receives, `OnMessage` there returns, and then a reader of any key gets
  -- the merge of the new register with the one there, or the new one where there was none, under
  -- the key, unless its value is empty, and under every other key what it got before. Both active
  -- memtables stand for maps with fuel for their entries, one more and 12 levels, a reader of the
  -- key at the receiver gets a register or nothing, and the clocks of the new register and of the
  -- winner fit the format.
  pub put-Received :
      (fuel : ℕ) (node : Node) (map' : OrdMap Bytes)
      → Models node.db.active_mem map'
      → length map' + 13 ≤ fuel
      → (replica : Node) (replica_map : OrdMap Bytes) → Models replica.db.active_mem replica_map
      → length replica_map + 13 ≤ fuel
      → (key value : Bytes) → 0 < length value
      → (existing : Option LwwRegister) → get_crdt fuel replica.db key ≡ some existing
      → ClockFits (local_register node.db value)
      → ClockFits (winner (local_register node.db value) existing)
      → (q : Bytes)
      → (after : Node) × (put env rand garbage fuel node key value
          ≡ some (
            after,
            map (message_of put_message node key (local_register node.db value)) node.peers,
          ))
        × (get_crdt fuel after.db key ≡ some (some (local_register node.db value)))
        × All
            (Received fuel replica q key (local_register node.db value) existing)
            (map (message_of put_message node key (local_register node.db value)) node.peers)
  unfolding put push_to_replicas
  put-Received fuel node map' h enough replica replica_map rh renough key value some_bytes existing
        found fits wins q =
      let reg = local_register node.db value in
      let (db, returns, reads) =
        put_lem env rand garbage fuel node.db map' h enough key value fits key in
      let own : eq_bytes key key ≡ true = ground (arith, cmp_refl key) in
      let own_read : get_crdt fuel db key ≡ some (some reg) =
        reads ∙ rw own (ap some (readable-some reg some_bytes)) in
      (
        record node { db = db },
        rw (returns, own_read) refl,
        own_read,
        received-All (Received fuel replica q key reg existing)
            (message_of put_message node key reg) node.peers
            (on_message_lem fuel replica node replica_map rh renough key reg existing found fits
              wins q),
      )
