-- ===== src/Tests/Cleanups.antt =====
-- internal/subscription and internal/topology at a subscription of three nodes.
use resin.Prelude.{
  ℕ, String, Bool, true, false, not, ◌&&◌, Option, none, some, List, [], ◌∷◌, ◌==◌, if◌then◌else◌,
  indicator, string_key, nat_key, ◌≡◌, refl,
}
use resin.Prelude.Int.{pos}
use resin.Map.{load, Distinct}
use resin.Node.Hash.{Hash}
use resin.Subscription.{
  ManagedNode, ManagedNodes, Subscription, new_subscription, diff_hashes, load_node,
}
use resin.Subscription.Diff.{times, is_managed, diff_hashes_lem}
use resin.Topology.Pool.{GlobalNodePool, new_global_node_pool}
use resin.Topology.Pool.References.{Holds, run, add, Call, replay, run-Holds, new-Holds}
use resin.Topology.Pool.Lookup.{
  pick_holder, holder_of, managed_holder, keep_first, is_before, smallest_tag,
}
use resin.Topology.Cleanup.{has_hash, cleanup_subscription_nodes, should_evict_entry}
use resin.Topology.Cleanup.Evictions.{
  is_evictable, managed_after, without, cleanup_subscription_nodes_lem,
}
use resin.Tests.Pools.{config}

abbrev live : List String → ManagedNode
live tags = record { tags = tags; evicted = false }

abbrev old_nodes : ManagedNodes
old_nodes = (5, live ("b" ∷ "a" ∷ [])) ∷ (7, live ("c" ∷ [])) ∷ []

abbrev new_nodes : ManagedNodes
new_nodes = (7, live ("c" ∷ [])) ∷ (9, live ("d" ∷ [])) ∷ []

old_nodes-Distinct : Distinct old_nodes
unfolding load nat_key
old_nodes-Distinct = (refl, (refl, tt))

new_nodes-Distinct : Distinct new_nodes
unfolding load nat_key
new_nodes-Distinct = (refl, (refl, tt))

diff_hashes_lem_example :
    let (added, kept, removed) = diff_hashes old_nodes new_nodes in
    (times 7 added ≡ indicator (is_managed new_nodes 7 && not (is_managed old_nodes 7)))
    × (times 7 kept ≡ indicator (is_managed new_nodes 7 && is_managed old_nodes 7))
    × (times 7 removed ≡ indicator (is_managed old_nodes 7 && not (is_managed new_nodes 7)))
diff_hashes_lem_example =
    diff_hashes_lem old_nodes new_nodes 7 old_nodes-Distinct new_nodes-Distinct

abbrev sub : Subscription
sub = record (new_subscription "s1" "tokyo" "" true true) { managed_nodes = old_nodes }

abbrev calls : List Call
calls = add 5 "{}" "s1" (pos 1) ∷ add 7 "{}" "s1" (pos 2) ∷ []

abbrev pool : GlobalNodePool
pool = run config calls new_global_node_pool

abbrev holders : Hash → String → Bool
holders = replay calls (λ _ _. false)

pool-Holds : Holds pool.nodes holders
pool-Holds = run-Holds config calls new_global_node_pool (λ _ _. false) new-Holds

abbrev lookup : String → Option Subscription
lookup id = if id == "s1" then some sub else none

cleanup_subscription_nodes_lem_example :
    let test = should_evict_entry (pos 9) (pos 5) in
    let gone = is_evictable config test sub pool pool old_nodes-Distinct in
    let c = cleanup_subscription_nodes config test sub pool pool in
    ((h : Hash) → has_hash h c.evicted ≡ gone h)
    × ((h : Hash)
        → load h c.sub.managed_nodes
          ≡ managed_after config test sub pool pool old_nodes-Distinct (gone h) (load h old_nodes))
    × Holds c.pool.nodes (without holders "s1" gone)
unfolding new_subscription
cleanup_subscription_nodes_lem_example =
    cleanup_subscription_nodes_lem config (should_evict_entry (pos 9) (pos 5)) sub pool pool
      old_nodes-Distinct holders pool-Holds

-- Three subscriptions of the node 5; the oldest, s3, has it evicted.
abbrev made_at : ℕ → String → ManagedNodes → Subscription
made_at now name nodes = record (new_subscription name name "" true true) {
  created_at_ns = pos now;
  managed_nodes = nodes;
}

abbrev gone_nodes : ManagedNodes
gone_nodes = (5, record (live ("z" ∷ [])) { evicted = true }) ∷ []

abbrev three : String → Option Subscription
three id =
    if id == "s1"
    then some (made_at 2 "tokyo" old_nodes)
    else if id == "s2"
    then some (made_at 1 "osaka" old_nodes)
    else if id == "s3"
    then some (made_at 0 "kyoto" gone_nodes)
    else none

abbrev ids : List String
ids = "s1" ∷ "s2" ∷ "s3" ∷ []

osaka_is_picked :
    pick_holder three 5 true ids none
    ≡ some (record { created_at_ns = pos 1; sub_id = "s2"; sub_name = "osaka"; tag = "a" })
unfolding pick_holder holder_of managed_holder load_node keep_first is_before smallest_tag
    new_subscription string_key nat_key load
osaka_is_picked = refl
