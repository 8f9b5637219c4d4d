-- ===== src/State/Engine.antt =====
-- internal/state/engine.go, with the rows of internal/model/models.go: the five dirty sets and their
-- flush to the cache database. `CacheRepo.FlushTx` writes the tables in one transaction, which
-- either commits or leaves the database as it was.
use resin.Prelude.{
  ℕ, ◌+◌, String, Bool, true, false, Option, List, [], if◌then◌else◌, Key, string_key,
  String-discrete,
}
use resin.Prelude.Int.{ℤ}
use resin.Map.{Map}
use resin.State.Dirty.{DirtySet, mark_upsert, mark_delete, drain, merge, len}
use resin.State.Writes.{classify_dirty_set, upsert_rows, delete_rows}

pub record NodeStatic : Type 0 where
  pub hash : String
  pub raw_options : String
  pub created_at_ns : ℤ

pub record NodeDynamic : Type 0 where
  pub hash : String
  pub failure_count : ℤ
  pub circuit_open_since : ℤ
  pub egress_ip : String
  pub egress_region : String
  pub egress_updated_at_ns : ℤ
  pub last_latency_probe_attempt_ns : ℤ
  pub last_authority_latency_probe_attempt_ns : ℤ
  pub last_egress_update_attempt_ns : ℤ

pub record NodeLatencyKey : Type 0 where
  pub node_hash : String
  pub domain : String

pub record NodeLatency : Type 0 where
  pub node_hash : String
  pub domain : String
  pub ewma_ns : ℤ
  pub last_updated_ns : ℤ

pub record LeaseKey : Type 0 where
  pub platform_id : String
  pub account : String

pub record LeaseRow : Type 0 where
  pub platform_id : String
  pub account : String
  pub node_hash : String
  pub egress_ip : String
  pub created_at_ns : ℤ
  pub expiry_ns : ℤ
  pub last_accessed_ns : ℤ

pub record SubscriptionNodeKey : Type 0 where
  pub subscription_id : String
  pub node_hash : String

pub record SubscriptionNode : Type 0 where
  pub subscription_id : String
  pub node_hash : String
  pub tags : List String
  pub evicted : Bool

NodeLatencyKey-discrete : Discrete NodeLatencyKey
unfolding String-discrete
NodeLatencyKey-discrete = hlevel String-discrete

LeaseKey-discrete : Discrete LeaseKey
unfolding String-discrete
LeaseKey-discrete = hlevel String-discrete

SubscriptionNodeKey-discrete : Discrete SubscriptionNodeKey
unfolding String-discrete
SubscriptionNodeKey-discrete = hlevel String-discrete

instance unfoldable pub node_latency_key : Key NodeLatencyKey
unfolding NodeLatencyKey-discrete
node_latency_key = record { dec = NodeLatencyKey-discrete }

instance unfoldable pub lease_key : Key LeaseKey
unfolding LeaseKey-discrete
lease_key = record { dec = LeaseKey-discrete }

instance unfoldable pub subscription_node_key : Key SubscriptionNodeKey
unfolding SubscriptionNodeKey-discrete
subscription_node_key = record { dec = SubscriptionNodeKey-discrete }

-- the primary keys of the tables
abbrev pub static_key : NodeStatic → String
static_key v = v.hash

abbrev pub dynamic_key : NodeDynamic → String
dynamic_key v = v.hash

abbrev pub latency_key : NodeLatency → NodeLatencyKey
latency_key v = record { node_hash = v.node_hash; domain = v.domain }

abbrev pub lease_row_key : LeaseRow → LeaseKey
lease_row_key v = record { platform_id = v.platform_id; account = v.account }

abbrev pub sub_node_key : SubscriptionNode → SubscriptionNodeKey
sub_node_key v = record { subscription_id = v.subscription_id; node_hash = v.node_hash }

-- What is in memory, by key.
pub record CacheReaders : Type 0 where
  pub read_node_static : String → Option NodeStatic
  pub read_node_dynamic : String → Option NodeDynamic
  pub read_node_latency : NodeLatencyKey → Option NodeLatency
  pub read_lease : LeaseKey → Option LeaseRow
  pub read_subscription_node : SubscriptionNodeKey → Option SubscriptionNode

pub record StateEngine : Type 0 where
  pub dirty_nodes_static : DirtySet String
  pub dirty_nodes_dynamic : DirtySet String
  pub dirty_node_latency : DirtySet NodeLatencyKey
  pub dirty_leases : DirtySet LeaseKey
  pub dirty_subscription_nodes : DirtySet SubscriptionNodeKey

-- the tables of cache.db
pub record CacheDb : Type 0 where
  pub nodes_static : Map String NodeStatic
  pub nodes_dynamic : Map String NodeDynamic
  pub node_latency : Map NodeLatencyKey NodeLatency
  pub leases : Map LeaseKey LeaseRow
  pub subscription_nodes : Map SubscriptionNodeKey SubscriptionNode

unfoldable pub new_state_engine : StateEngine
new_state_engine = record {
  dirty_nodes_static = [];
  dirty_nodes_dynamic = [];
  dirty_node_latency = [];
  dirty_leases = [];
  dirty_subscription_nodes = [];
}

unfoldable pub mark_lease : StateEngine → String → String → StateEngine
unfolding mark_upsert
mark_lease e platform account = record e {
  dirty_leases = mark_upsert e.dirty_leases (record { platform_id = platform; account = account });
}

unfoldable pub mark_lease_delete : StateEngine → String → String → StateEngine
unfolding mark_delete
mark_lease_delete e platform account = record e {
  dirty_leases = mark_delete e.dirty_leases (record { platform_id = platform; account = account });
}

unfoldable pub mark_node_static : StateEngine → String → StateEngine
unfolding mark_upsert
mark_node_static e hash = record e { dirty_nodes_static = mark_upsert e.dirty_nodes_static hash }

unfoldable pub mark_node_static_delete : StateEngine → String → StateEngine
unfolding mark_delete
mark_node_static_delete e hash = record e {
  dirty_nodes_static = mark_delete e.dirty_nodes_static hash;
}

unfoldable pub dirty_count : StateEngine → ℕ
unfolding len
dirty_count e =
    len e.dirty_nodes_static
    + len e.dirty_nodes_dynamic
    + len e.dirty_node_latency
    + len e.dirty_leases
    + len e.dirty_subscription_nodes

-- what is left, and the snapshots
unfoldable pub drain_all : StateEngine → StateEngine × StateEngine
unfolding drain
drain_all e = (
  record {
    dirty_nodes_static = (drain e.dirty_nodes_static).0;
    dirty_nodes_dynamic = (drain e.dirty_nodes_dynamic).0;
    dirty_node_latency = (drain e.dirty_node_latency).0;
    dirty_leases = (drain e.dirty_leases).0;
    dirty_subscription_nodes = (drain e.dirty_subscription_nodes).0;
  },
  record {
    dirty_nodes_static = (drain e.dirty_nodes_static).1;
    dirty_nodes_dynamic = (drain e.dirty_nodes_dynamic).1;
    dirty_node_latency = (drain e.dirty_node_latency).1;
    dirty_leases = (drain e.dirty_leases).1;
    dirty_subscription_nodes = (drain e.dirty_subscription_nodes).1;
  },
)

unfoldable pub remerge : StateEngine → StateEngine → StateEngine
unfolding merge
remerge e old = record {
  dirty_nodes_static = merge e.dirty_nodes_static old.dirty_nodes_static;
  dirty_nodes_dynamic = merge e.dirty_nodes_dynamic old.dirty_nodes_dynamic;
  dirty_node_latency = merge e.dirty_node_latency old.dirty_node_latency;
  dirty_leases = merge e.dirty_leases old.dirty_leases;
  dirty_subscription_nodes = merge e.dirty_subscription_nodes old.dirty_subscription_nodes;
}

pub record FlushOps : Type 0 where
  pub nodes_static : List NodeStatic × List String
  pub subscription_nodes : List SubscriptionNode × List SubscriptionNodeKey
  pub nodes_dynamic : List NodeDynamic × List String
  pub node_latency : List NodeLatency × List NodeLatencyKey
  pub leases : List LeaseRow × List LeaseKey

unfoldable pub flush_ops : CacheReaders → StateEngine → FlushOps
unfolding classify_dirty_set
flush_ops readers old = record {
  nodes_static = classify_dirty_set static_key old.dirty_nodes_static readers.read_node_static;
  subscription_nodes =
      classify_dirty_set sub_node_key old.dirty_subscription_nodes readers.read_subscription_node;
  nodes_dynamic = classify_dirty_set dynamic_key old.dirty_nodes_dynamic readers.read_node_dynamic;
  node_latency = classify_dirty_set latency_key old.dirty_node_latency readers.read_node_latency;
  leases = classify_dirty_set lease_row_key old.dirty_leases readers.read_lease;
}

-- The tables are independent: each sees its upserts, then its deletes.
unfoldable pub flush_tx : FlushOps → CacheDb → CacheDb
unfolding upsert_rows delete_rows
flush_tx ops db = record {
  nodes_static =
      delete_rows static_key ops.nodes_static.1
        (upsert_rows static_key ops.nodes_static.0 db.nodes_static);
  nodes_dynamic =
      delete_rows dynamic_key ops.nodes_dynamic.1
        (upsert_rows dynamic_key ops.nodes_dynamic.0 db.nodes_dynamic);
  node_latency =
      delete_rows latency_key ops.node_latency.1
        (upsert_rows latency_key ops.node_latency.0 db.node_latency);
  leases =
      delete_rows lease_row_key ops.leases.1 (upsert_rows lease_row_key ops.leases.0 db.leases);
  subscription_nodes =
      delete_rows sub_node_key ops.subscription_nodes.1
        (upsert_rows sub_node_key ops.subscription_nodes.0 db.subscription_nodes);
}

-- `FlushDirtySets` after its drain: `old` has the snapshots, `e` the marks that others made since,
-- `readers` what was read, and `commits` whether the transaction commits; then whether it fails.
unfoldable pub finish_flush :
    CacheReaders → Bool → StateEngine → StateEngine → CacheDb → StateEngine × CacheDb × Bool
unfolding flush_ops flush_tx remerge
finish_flush readers commits old e db =
    if commits then (e, flush_tx (flush_ops readers old) db, false) else (remerge e old, db, true)

-- `FlushDirtySets` with no marks meanwhile
unfoldable pub flush_dirty_sets :
    CacheReaders → Bool → StateEngine → CacheDb → StateEngine × CacheDb × Bool
unfolding drain_all finish_flush
flush_dirty_sets readers commits e db =
    let (left, old) = drain_all e in finish_flush readers commits old left db
