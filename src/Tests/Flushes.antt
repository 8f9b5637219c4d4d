-- ===== src/Tests/Flushes.antt =====
-- internal/state at one lease that is written, and one that is made during a flush.
use resin.Prelude.{String, Bool, Option, none, some, [], ◌==◌, if◌then◌else◌, string_key}
use resin.Prelude.Int.{pos}
use resin.State.Dirty.{DirtyOp, op_upsert}
use resin.State.Engine.{
  LeaseKey, LeaseRow, lease_key, node_latency_key, subscription_node_key, CacheReaders, StateEngine,
  CacheDb, new_state_engine, mark_lease,
}

abbrev nothing : CacheReaders
nothing = record {
  read_node_static = λ _. none;
  read_node_dynamic = λ _. none;
  read_node_latency = λ _. none;
  read_lease = λ _. none;
  read_subscription_node = λ _. none;
}

abbrev empty_db : CacheDb
empty_db = record {
  nodes_static = [];
  nodes_dynamic = [];
  node_latency = [];
  leases = [];
  subscription_nodes = [];
}

abbrev row_of : String → LeaseRow
row_of account = record {
  platform_id = "p2";
  account = account;
  node_hash = "05";
  egress_ip = "7";
  created_at_ns = pos 1;
  expiry_ns = pos 100;
  last_accessed_ns = pos 1;
}

abbrev key_for : String → LeaseKey
key_for account = record { platform_id = "p2"; account = account }

-- the lease of "a", and then that of "b" too
abbrev before : CacheReaders
before = record nothing { read_lease = λ k. if key_for "a" == k then some (row_of "a") else none }

abbrev now : CacheReaders
now = record before {
  read_lease = λ k. if key_for "b" == k then some (row_of "b") else before.read_lease k;
}

abbrev dirty : StateEngine
dirty = mark_lease new_state_engine "p2" "a"

abbrev fresh : StateEngine
fresh = mark_lease new_state_engine "p2" "b"

abbrev marked : Bool → Option DirtyOp
marked hit = if hit then some op_upsert else none
