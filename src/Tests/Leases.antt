-- ===== src/Tests/Leases.antt =====
-- internal/routing: leases, sweeps and the choice of nodes at concrete states.
use resin.Prelude.{
  ◌<◌, some, [], ◌∷◌, ◌≡◌, refl, arith, if◌then◌else◌, nat_key, string_key, length, inl,
}
use resin.Prelude.Int.{pos}
use resin.Netip.{addr_key}
use resin.Map.{load, store}
use resin.Node.Hash.{Hash}
use resin.Node.Entry.{get_egress_ip, new_node_entry}
use resin.Platform.View.{range, add, new_routable_view, add_shard, on_shard, all_nodes, shard_for}
use resin.Platform.View.Picks.{Occurs}
use resin.Routing.Lease.Counted.{IsCounted, delete_lease-IsCounted}
use resin.Routing.Lease.{delete_lease}
use resin.Routing.Evaluation.Keeps.{KeepsEntries}
use resin.Routing.Random.{random_route}
use resin.Routing.Random.Choice.{random_route-Occurs}
use resin.Routing.Selection.{select_live_random_route, choose_same_ip_rotation_candidate}
use resin.Routing.Selection.Picks.{Serves, IsRoute, select_live_random_route_lem}
use resin.Routing.Selection.Rotation.{rotation-Serves}
use resin.Routing.Quota.{select_route_for_lease, fallback_quota_route}
use resin.Routing.Quota.Choice.{
  IsSelection, LessExposed, select_route_for_lease_lem, fallback-LessExposed,
}
use resin.Routing.Window.{reserve_if_eligible}
use resin.Routing.Window.Admission.{recent}
use resin.Routing.Cleaner.{sweep_leases}
use resin.Routing.Cleaner.Sweep.{sweep_leases_lem, reaches, unexpired}
use resin.Tests.Data.{
  ip_a, ip_b, three_nodes, plat, reading, floats, draws, one_lease, one_lease-IsCounted,
  one_account,
}
use resin.Tests.Exposure.{one_account-IsWellFormed}

delete_lease-IsCounted_example : IsCounted (delete_lease one_lease "alice").0
delete_lease-IsCounted_example = delete_lease-IsCounted one_lease "alice" one_lease-IsCounted

three_nodes_long : 0 < length plat.view.range
unfolding range add new_routable_view add_shard on_shard all_nodes shard_for load store nat_key
three_nodes_long = omega arith

random_route-Occurs_example :
    let out = random_route floats reading plat one_lease.stats three_nodes "a.com" (draws 0) in
    (h : Hash) × (out.0 ≡ some h) × Occurs h plat.view.range × KeepsEntries three_nodes out.1
random_route-Occurs_example =
    random_route-Occurs floats reading plat one_lease.stats three_nodes "a.com" (draws 0)
      three_nodes_long

select_live_random_route_lem_example :
    let out =
      select_live_random_route floats reading plat one_lease.stats three_nodes "a.com" draws in
    IsRoute plat three_nodes out.0 × KeepsEntries three_nodes out.1
select_live_random_route_lem_example =
    select_live_random_route_lem floats reading plat one_lease.stats three_nodes "a.com" draws

select_route_for_lease_lem_example : IsSelection plat one_account three_nodes (
    select_route_for_lease floats reading plat one_lease.stats one_account three_nodes "bob" "a.com"
      draws)
select_route_for_lease_lem_example =
    select_route_for_lease_lem floats reading plat one_lease.stats one_account three_nodes "bob"
      "a.com" draws

node_7-Serves : Serves plat three_nodes 7 ip_a
unfolding range add new_routable_view add_shard on_shard all_nodes shard_for load store nat_key
    get_egress_ip new_node_entry
node_7-Serves = ((2, refl), refl)

rotated : (choose_same_ip_rotation_candidate reading plat three_nodes ip_a "a.com").0 ≡ some 3
unfolding choose_same_ip_rotation_candidate nat_key addr_key string_key range add new_routable_view
    new_node_entry
rotated = refl

rotation-Serves_example : Serves plat three_nodes 3 ip_a
rotation-Serves_example = rotation-Serves reading plat three_nodes ip_a "a.com" 3 rotated

fell_back :
    (fallback_quota_route plat one_lease.stats one_account three_nodes "bob" (pos 60) (pos 500) 2).0
    ≡ inl (record { hash = 5; ip = ip_b })
unfolding fallback_quota_route nat_key addr_key string_key range add new_routable_view
    reserve_if_eligible new_node_entry
fell_back = refl

fallback-LessExposed_example :
    LessExposed one_lease.stats (λ q. length (recent one_account q (pos 60) (pos 500))) ip_b ip_a
fallback-LessExposed_example =
    fallback-LessExposed plat one_lease.stats three_nodes one_account "bob" (pos 60) (pos 500) 2
      (record { hash = 5; ip = ip_b }) 7 ip_a one_account-IsWellFormed fell_back node_7-Serves refl

sweep_leases_lem_example :
    let t' = (sweep_leases "p1" (pos 2000) ("alice" ∷ []) one_lease).0 in
    IsCounted t'
    × (load "alice" t'.leases ≡ (
        if reaches "p1" (pos 2000) ("alice" ∷ []) "alice"
        then unexpired "p1" (pos 2000) (load "alice" one_lease.leases)
        else load "alice" one_lease.leases))
sweep_leases_lem_example =
    sweep_leases_lem "p1" (pos 2000) ("alice" ∷ []) one_lease "alice" one_lease-IsCounted
