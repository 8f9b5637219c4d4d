-- ===== src/Tests/Pools.antt =====
-- internal/topology/pool.go at a pool that gets a platform and a node.
use resin.Prelude.{
  String, true, false, none, some, Option, List, [], ◌∷◌, ◌==◌, string_key, nat_key, ◌≡◌, ◌≢◌, ◌↔◌,
  refl, arith, inl,
}
use resin.Prelude.Int.{pos}
use resin.Map.{load}
use resin.Netip.{v4, addr_key}
use resin.Node.Entry.{NodeEntry, member, new_node_entry, get_egress_ip, get_egress_region}
use resin.Platform.{Platform, balanced}
use resin.Platform.View.{RoutableView, new_routable_view, contains}
use resin.Topology.Pool.{
  GlobalNodePool, PoolConfig, new_global_node_pool, add_node_from_sub, rebuild_all_platforms,
  rebuild_platform,
}
use resin.Topology.Pool.Directory.{register_platform, get_platform, get_platform_by_name}
use resin.Topology.Pool.Health.{record_result, record_latency, update_node_egress_ip}
use resin.Topology.Pool.Health.Circuit.{record_failures, record_failures_lem}
use resin.Topology.Pool.Health.Egress.{update_node_egress_ip_lem}
use resin.Topology.Pool.References
use resin.Topology.Pool.References.{
  Call, add, remove, replay, ids_of, is_present, references_refine,
}
use resin.Node.Entry.Subscriptions.{NoRepeats}
use resin.Topology.Pool.Soundness.{new-IsLoaded}
use resin.Topology.Pool.Soundness.Platforms.{allocate}
use resin.Topology.Pool.Soundness.Steps.{
  Run, start, next, builds_late, creates, adds, records_result, records_latency, updates_egress_ip,
  directories_agree,
}
use resin.Outbound.Manager.{ensure_node_outbound}
use resin.Tests.Data.{formulas}

abbrev pub config : PoolConfig
config = record {
  sub_lookup = none;
  geo_lookup = none;
  on_node_added = some (λ raw. inl 1);
  on_node_removed = true;
  on_sub_node_changed = true;
  on_node_dynamic_changed = true;
  on_node_latency_changed = true;
  max_latency_table_entries = 2;
  max_consecutive_failures = pos 2;
  latency_decay_window = none;
  latency_authorities = none;
  extract_domain = λ t. t;
  is_same_authority = λ a b. a == b;
  normalize_region = λ r. r;
  formulas = formulas;
}

abbrev tokyo : Platform RoutableView
tokyo = record {
  id = "p2";
  name = "tokyo";
  regex_filters = record { any = []; must = []; must_not = [] };
  region_filters = "jp" ∷ [];
  sticky_ttl_ns = pos 0;
  reverse_proxy_miss_action = "";
  reverse_proxy_empty_account_behavior = "";
  reverse_proxy_fixed_account_header = "";
  reverse_proxy_fixed_account_headers = [];
  allocation_policy = balanced;
  passive_circuit_breaker_disabled = false;
  max_accounts_per_ip = 0;
  ip_account_window_ns = pos 0;
  view = new_routable_view;
}

empty : GlobalNodePool
unfolding rebuild_all_platforms new_global_node_pool
empty = rebuild_all_platforms config new_global_node_pool

created : GlobalNodePool
unfolding empty register_platform rebuild_platform
created = register_platform (rebuild_platform config (allocate empty 1 tokyo) 1) 1 tokyo

added : GlobalNodePool
unfolding created add_node_from_sub
added = (add_node_from_sub config created 5 "{}" "s1" (pos 10)).0

healthy : GlobalNodePool
unfolding added record_result
healthy = (record_result config added 5 true (pos 20)).0

placed : GlobalNodePool
unfolding healthy update_node_egress_ip
placed = (update_node_egress_ip config healthy 5 (some (v4 7)) (some "jp") (pos 30)).0

measured : GlobalNodePool
unfolding placed record_latency
measured = (record_latency config placed 5 "a.com" (some (pos 4)) (pos 40) (pos 41)).0

built : GlobalNodePool
unfolding measured ensure_node_outbound load nat_key
built = ensure_node_outbound (λ raw. inl 1) measured 9

run : Run config empty config built (9 ∷ [])
unfolding empty created added healthy placed measured built load
run =
    builds_late (λ raw. inl 1) 9
      (next
        (next
          (next
            (next (next start (creates 1 tokyo refl refl refl))
              (adds 5 "{}" "s1" (pos 10) (omega arith)))
            (records_result 5 true (pos 20)))
          (updates_egress_ip 5 (some (v4 7)) (some "jp") (pos 30)))
        (records_latency 5 "a.com" (some (pos 4)) (pos 40) (pos 41)))

platform_of : Option (Platform RoutableView) → Platform RoutableView
platform_of none = tokyo
platform_of (some p) = p

tokyo_now : Platform RoutableView
unfolding platform_of load nat_key built
tokyo_now = platform_of (load 1 built.platforms)

tokyo_routes_5 : contains tokyo_now.view 5 ≡ true
unfolding tokyo_now contains nat_key string_key addr_key new_routable_view
tokyo_routes_5 = refl

found : load 1 built.platforms ≡ some tokyo_now
unfolding tokyo_now nat_key addr_key string_key
found = refl

directories_agree_example :
    ((id : String) → get_platform built id ≡ some 1 → tokyo_now.id ≡ id)
    × ((name : String)
        → get_platform_by_name built name ≡ some 1
        → (tokyo_now.name ≡ name) × (get_platform built tokyo_now.id ≡ some 1))
    × (get_platform built tokyo_now.id ≡ some 1
        → tokyo_now.name ≢ ""
        → get_platform_by_name built tokyo_now.name ≡ some 1)
unfolding empty
directories_agree_example =
    directories_agree config config new_global_node_pool built (9 ∷ []) 1 tokyo_now new-IsLoaded run
      found

-- two refreshes of two subscriptions
abbrev calls : List Call
calls =
    add 5 "{}" "s1" (pos 1)
    ∷ add 5 "{}" "s2" (pos 2)
    ∷ add 7 "{}" "s1" (pos 3)
    ∷ remove 5 "s1"
    ∷ remove 7 "s1"
    ∷ []

references_refine_example :
    let entry = load 5 (References.run config calls new_global_node_pool).nodes in
    let holds = replay calls (λ _ _. false) 5 in
    ((sub : String) → member sub (ids_of entry) ≡ holds sub)
    × NoRepeats (ids_of entry)
    × ((is_present entry ≡ true) ↔ ((sub : String) × (holds sub ≡ true)))
references_refine_example = references_refine config calls 5

-- the node before it has passed a probe, but with a closed circuit
abbrev tested : NodeEntry
tested = record (new_node_entry 5 "{}" (pos 10) 2) { outbound = some 1 }

abbrev tested_pool : GlobalNodePool
tested_pool = record new_global_node_pool { nodes = (5, tested) ∷ [] }

tested_found : load 5 tested_pool.nodes ≡ some tested
unfolding load nat_key
tested_found = refl

record_failures_lem_example :
    let g = record_failures config tested_pool 5 (pos 20 ∷ pos 30 ∷ pos 40 ∷ []) in
    (load 5 g.nodes ≡ some (record tested { failure_count = pos 3; circuit_open_since = pos 30 }))
    × (load 5 (record_result config g 5 true (pos 50)).0.nodes
        ≡ some (record tested { failure_count = pos 0; circuit_open_since = pos 0 }))
unfolding new_node_entry
record_failures_lem_example =
    record_failures_lem config tested_pool 5 tested (pos 20 ∷ pos 30 ∷ pos 40 ∷ []) (pos 50)
      tested_found refl refl (omega arith) (omega arith)

update_node_egress_ip_lem_example :
    let g = (update_node_egress_ip config tested_pool 5 (some (v4 9)) (some "jp") (pos 60)).0 in
    (e : NodeEntry) × (load 5 g.nodes ≡ some e)
    × (get_egress_ip e ≡ v4 9)
    × (get_egress_region e ≡ "jp")
    × (e.last_egress_update ≡ pos 60)
    × (e.last_egress_update_attempt ≡ pos 60)
unfolding new_node_entry get_egress_ip get_egress_region
update_node_egress_ip_lem_example =
    update_node_egress_ip_lem config tested_pool 5 tested (some (v4 9)) (some "jp") (pos 60)
      tested_found refl
