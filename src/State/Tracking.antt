-- ===== src/State/Tracking.antt =====
-- internal/state/engine.go: the database, with the dirty sets, keeps up with the memory.
use resin.Prelude.{Option, none, some, Key, ◌≡◌, refl, arith, ◌∙◌, string_key}
use resin.Map.{Map, load, Distinct}
use resin.State.Dirty.{DirtyOp, op_upsert, op_delete, DirtySet, merge, load-merge, merge-Distinct}
use resin.State.Writes.{classify_dirty_set, upsert_rows, delete_rows, flushed, load-flush}
use resin.State.Engine.{
  CacheReaders, StateEngine, CacheDb, static_key, dynamic_key, latency_key, lease_row_key,
  sub_node_key, node_latency_key, lease_key, subscription_node_key,
}

module _ {K V : Type 0} ⦃key : Key K⦄ where
  -- The table has what the memory has of each key that is not dirty, and what is marked as deleted
  -- is not in the memory.
  pub record Tracks (dirty : DirtySet K) (table : Map K V) (memory : K → Option V) : Type 0 where
    pub marks_distinct : Distinct dirty
    pub rows_distinct : Distinct table
    pub clean : (k : K) → load k dirty ≡ none → load k table ≡ memory k
    pub gone : (k : K) → load k dirty ≡ some op_delete → memory k ≡ none

  -- From a drain on, the memory changes from `before` to `now` only at keys that are marked since,
  -- and a key that is not marked is read as it was; the marks are as in `Tracks`.
  pub record Since (fresh : DirtySet K) (before read now : K → Option V) (key_of : V → K)
      : Type 0 where
    pub fresh_distinct : Distinct fresh
    pub unmarked : (k : K) → load k fresh ≡ none → now k ≡ before k
    pub unread : (k : K) → load k fresh ≡ none → read k ≡ before k
    pub deleted : (k : K) → load k fresh ≡ some op_delete → now k ≡ none
    pub keyed : (k : K) (v : V) → read k ≡ some v → key_of v ≡ k

  module _ (key_of : V → K) (old fresh : DirtySet K) (table : Map K V)
      (before read now : K → Option V) (t : Tracks old table before)
      (s : Since fresh before read now key_of) where
    pub commit-Tracks :
        let (upserts, deletes) = classify_dirty_set key_of old read in
        Tracks fresh (delete_rows key_of deletes (upsert_rows key_of upserts table)) now
    commit-Tracks =
        let (rows, law) =
          load-flush key_of read s.keyed old table t.marks_distinct t.rows_distinct in
        record {
          marks_distinct = s.fresh_distinct;
          rows_distinct = rows;
          clean = λ k unmarked. law k ∙ row k (load k old) refl unmarked;
          gone = s.deleted;
        }
      where
        row :
            (k : K) (o : Option DirtyOp)
            → load k old ≡ o
            → load k fresh ≡ none
            → flushed key_of (load k old) (read k) (load k table) ≡ now k
        row k none at u = ground (arith, at, t.clean k, s.unmarked k)
        row k (some op_delete) at u = ground (arith, at, t.gone k, s.unmarked k)
        row k (some op_upsert) at u = ground (arith, at, s.unread k, s.unmarked k)

    pub merge-Tracks : Tracks (merge fresh old) table now
    merge-Tracks =
        let law = λ (k : K). load-merge fresh old k t.marks_distinct in
        record {
          marks_distinct = merge-Distinct old fresh s.fresh_distinct;
          rows_distinct = t.rows_distinct;
          clean = λ k u. ground (arith, law k, t.clean k, s.unmarked k);
          gone = λ k m. ground (arith, law k, t.gone k, s.unmarked k, s.deleted k);
        }

-- The same of all five tables.
pub record EngineTracks (e : StateEngine) (db : CacheDb) (memory : CacheReaders) : Type 0 where
  pub static : Tracks e.dirty_nodes_static db.nodes_static memory.read_node_static
  pub dynamic : Tracks e.dirty_nodes_dynamic db.nodes_dynamic memory.read_node_dynamic
  pub latency : Tracks e.dirty_node_latency db.node_latency memory.read_node_latency
  pub leases : Tracks e.dirty_leases db.leases memory.read_lease
  pub sub_nodes :
      Tracks e.dirty_subscription_nodes db.subscription_nodes memory.read_subscription_node

pub record EngineSince (fresh : StateEngine) (before read now : CacheReaders) : Type 0 where
  pub static :
      Since fresh.dirty_nodes_static before.read_node_static read.read_node_static
        now.read_node_static static_key
  pub dynamic :
      Since fresh.dirty_nodes_dynamic before.read_node_dynamic read.read_node_dynamic
        now.read_node_dynamic dynamic_key
  pub latency :
      Since fresh.dirty_node_latency before.read_node_latency read.read_node_latency
        now.read_node_latency latency_key
  pub leases :
      Since fresh.dirty_leases before.read_lease read.read_lease now.read_lease lease_row_key
  pub sub_nodes :
      Since fresh.dirty_subscription_nodes before.read_subscription_node read.read_subscription_node
        now.read_subscription_node sub_node_key
