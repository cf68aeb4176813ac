-- ===== src/Database/FlushKeeps.antt =====
-- A flush keeps what readers find in memory.
use zenith_db.Prelude.{
  ℕ, ◌+◌, ◌^◌, ◌<◌, ◌≤◌, List, [], ◌∷◌, map, Option, none, some, true, false, ◌≡◌, refl, ap, sym,
  ◌∙◌, length, All, Bool-cases, inl, inr, ◌>>=◌,
}
use zenith_db.Bytes.{Bytes}
use zenith_db.MemTable.Contract.{Models}
use zenith_db.MemTable.Refines.{sorted_entries_lem}
use zenith_db.Compaction.{FileEntry}
use zenith_db.SsTable.{Rows}
use zenith_db.SsTable.Create.{create}
use zenith_db.SsTable.Entries.{rows_bytes, RowFits}
use zenith_db.SsTable.Blocks.{ClosesAll}
use zenith_db.SsTable.Contract.{written}
use zenith_db.Database.{ImmNode, ZenithDb}
use zenith_db.Database.Read.{or_else, search_mem, search_frozen, search_levels, find_raw, get_crdt}
use zenith_db.Database.Flush.{add_table, flush_node, flush_nodes, needs_flush, flush}
use zenith_db.Database.Flushed.{Models-IsSorted, named_in, write_table_lem}
use zenith_db.Database.Stored.{or_else_assoc}

-- A frozen memtable whose rows make a file that is read back.
pub record CanFlush (fuel : ℕ) (node : ImmNode) : Type 0 where
  pub rows : Rows
  pub models : Models node.mt rows
  pub enough : length rows + 12 ≤ fuel
  pub fits : All RowFits rows
  pub small : length (rows_bytes rows) < 2 ^ 29
  pub file_small : length (create rows) < 2 ^ 63
  pub closes : ClosesAll (length rows) rows

-- The node after its flush holds the memtable that it held.
record NodeKept (fuel : ℕ) (db : ZenithDb) (node : ImmNode) (result : Option (ZenithDb × ImmNode))
    : Type 0 where
  after : ZenithDb
  node' : ImmNode
  returns : result ≡ some (after, node')
  same_table : node'.mt ≡ node.mt
  same_active : after.active_mem ≡ db.active_mem

-- The nodes are searched as before.
record NodesKept (fuel : ℕ) (db : ZenithDb) (nodes : List ImmNode)
    (result : Option (ZenithDb × List ImmNode)) : Type 0 where
  after : ZenithDb
  nodes' : List ImmNode
  returns : result ≡ some (after, nodes')
  same_search : (key : Bytes) → search_frozen fuel key nodes' ≡ search_frozen fuel key nodes
  same_active : after.active_mem ≡ db.active_mem

-- What a search of the memtables finds.
abbrev pub in_memory : ℕ → ZenithDb → Bytes → Option (Option Bytes)
in_memory fuel db key = search_mem fuel key db.active_mem >>= λ found.
    or_else found (search_frozen fuel key db.immut_head)

find_raw-in_memory :
    (fuel : ℕ) (db : ZenithDb) (key raw : Bytes)
    → in_memory fuel db key ≡ some (some raw)
    → find_raw fuel db key ≡ some (some raw)
unfolding find_raw
find_raw-in_memory fuel db key raw h = go (search_mem fuel key db.active_mem) h
  where
    go :
        (r : Option (Option Bytes))
        → (r >>= λ found. or_else found (search_frozen fuel key db.immut_head)) ≡ some (some raw)
        → (r >>= λ found. or_else found (
            search_frozen fuel key db.immut_head >>= λ in_frozen.
            or_else in_frozen (search_levels db.tables key db.layout)))
          ≡ some (some raw)
    go none e = absurd (cc)
    go (some x) e =
        sym (
          or_else_assoc x (search_frozen fuel key db.immut_head)
            (search_levels db.tables key db.layout))
        ∙ ap
            (λ (r : Option (Option Bytes)).
              r >>= λ f. or_else f (search_levels db.tables key db.layout))
            e

module _ (time : ℕ → ℕ) (path_of : Bytes → Bytes) (sort : List FileEntry → List FileEntry)
    (fuel : ℕ) where
  kept_rows :
      (db : ZenithDb) (node : ImmNode) (rows : Rows)
      → node.flushed ≡ false
      → Models node.mt rows
      → length rows + 12 ≤ fuel
      → All RowFits rows
      → length (rows_bytes rows) < 2 ^ 29
      → length (create rows) < 2 ^ 63
      → ClosesAll (length rows) rows
      → NodeKept fuel db node (flush_node time path_of sort fuel db node)
  unfolding flush_node add_table
  kept_rows db node [] pending h enough fits small file_small closes = record {
    after = db;
    node' = record node { flushed = true };
    returns = rw (pending, sorted_entries_lem node.mt [] h fuel enough) refl;
    same_table = refl;
    same_active = refl;
  }
  kept_rows db node (e ∷ es) pending h enough fits small file_small closes =
      let w = written (e ∷ es) fits (Models-IsSorted h) small file_small closes in
      record {
        after = add_table (named_in time path_of sort db (e ∷ es)) w.table;
        node' = record node { flushed = true };
        returns =
            rw
              (
                pending,
                sorted_entries_lem node.mt (e ∷ es) h fuel enough,
                write_table_lem time path_of sort db (e ∷ es) w,
              )
              refl;
        same_table = refl;
        same_active = refl;
      }

  kept_node :
      (db : ZenithDb) (node : ImmNode)
      → CanFlush fuel node
      → NodeKept fuel db node (flush_node time path_of sort fuel db node)
  unfolding flush_node
  kept_node db node c = elim (Bool-cases node.flushed) [
    | inl done ↦ record {
      after = db;
      node' = node;
      returns = rw done refl;
      same_table = refl;
      same_active = refl;
    }
    | inr pending ↦
        kept_rows db node c.rows pending c.models c.enough c.fits c.small c.file_small c.closes
  ]

  kept_nodes :
      (db : ZenithDb) (nodes : List ImmNode)
      → All (CanFlush fuel) nodes
      → NodesKept fuel db nodes (flush_nodes time path_of sort fuel db nodes)
  unfolding flush_nodes search_frozen
  kept_nodes db [] can = record {
    after = db;
    nodes' = [];
    returns = refl;
    same_search = λ key. refl;
    same_active = refl;
  }
  kept_nodes db (node ∷ nodes) can =
      let first = kept_node db node can.0 in
      let others = kept_nodes first.after nodes can.1 in
      record {
        after = others.after;
        nodes' = first.node' ∷ others.nodes';
        returns = rw (first.returns, others.returns) refl;
        same_search = λ key. rw (first.same_table, others.same_search key) refl;
        same_active = others.same_active ∙ first.same_active;
      }

  -- Of a database whose frozen memtables each stand for rows that make a file which is read back,
  -- with fuel for the rows and 12 levels, the flush returns, and a reader of a key for which the
  -- search of the memtables finds bytes gets the same before and after it. For each memtable, the
  -- entries together take less than 2^29 bytes in the file, each key and value fits a 32-bit
  -- length, the file is below 2^63 bytes, and no block but the last ends behind a multiple of 16
  -- entries.
  pub flush-in_memory :
      (db : ZenithDb)
      → All (CanFlush fuel) db.immut_head
      → (key raw : Bytes) → in_memory fuel db key ≡ some (some raw)
      → (after : ZenithDb) × (flush time path_of sort fuel db ≡ some after)
        × (get_crdt fuel after key ≡ get_crdt fuel db key)
  unfolding flush get_crdt
  flush-in_memory db can key raw found = elim (Bool-cases (needs_flush db.immut_head)) [
    | inr idle ↦ (db, rw idle refl, refl)
    | inl needed ↦
        let k = kept_nodes db db.immut_head can in
        let after = record k.after { immut_head = k.nodes'; layout = map sort k.after.layout } in
        let same : in_memory fuel after key ≡ some (some raw) =
          ap
            (λ m.
              search_mem fuel key m >>= λ found. or_else found (search_frozen fuel key k.nodes'))
            k.same_active
          ∙ ap (λ r. search_mem fuel key db.active_mem >>= λ found. or_else found r)
              (k.same_search key)
          ∙ found in
        (
          after,
          rw (needed, k.returns) refl,
          rw (find_raw-in_memory fuel after key raw same, find_raw-in_memory fuel db key raw found)
              refl,
        )
  ]
