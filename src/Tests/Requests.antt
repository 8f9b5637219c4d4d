-- ===== src/Tests/Requests.antt =====
-- internal/routing/router.go: requests of alice, who holds a lease on node 3, and of bob.
use resin.Prelude.{
  String, length, none, true, false, some, [], ◌∷◌, ◌++◌, ◌≡◌, refl, ◌==◌, nat_key, string_key, inl,
  inr, ◌⊎◌,
}
use resin.Prelude.Int.{pos, ltb_ℤ}
use resin.Netip.{Addr, addr_key, is_valid}
use resin.Map.{load, store, perform}
use resin.Node.Hash.{Hash}
use resin.Node.Entry.{NodeEntry, new_node_entry, get_egress_ip}
use resin.Platform.{effective_ip_account_window_ns}
use resin.Platform.View.{add, contains, new_routable_view}
use resin.Routing.Events.{LeaseEventType, lease_touch, lease_replace, lease_create}
use resin.Routing.Lease.{create_lease, delete_lease}
use resin.Routing.Lease.Counted.{IsCounted}
use resin.Routing.Evaluation.Keeps.{KeepsEntries}
use resin.Routing.Selection.{RouteError}
use resin.Routing.Sticky.{Routed, route_sticky, route_result}
use resin.Routing.Sticky.Outcomes.{given_up, noted}
use resin.Routing.Sticky.Stays.{IsCountedOn, route_sticky_stays}
use resin.Routing.Window.Admission.{IsRequest}
use resin.Routing.Sticky.Leases.{Agrees}
use resin.Routing.Sticky.Requests.{
  shared, Continues, route_sticky-IsCounted, route_sticky-Agrees, route_sticky_others,
  route_sticky-Continues, route_sticky_events,
}
use resin.Routing.Window.{reserve_if_eligible}
use resin.Routing.Window.Counting.{live_entries}
use resin.Routing.Window.Ceiling.{IsBounded}
use resin.Routing.Router.{
  World, resolve_platform, ensure_platform_state, route_request, read_lease, upsert_lease,
  delete_all_leases, delete_all_loop,
}
use resin.Routing.Router.Admin.{AllCounted, upsert_lease-AllCounted}
use resin.Routing.Router.Clearing.{leases_of, removals, delete_all_leases_lem}
use resin.Routing.Load.{get}
use resin.Routing.Router.Requests.{
  IsAnswer, route_request-IsAnswer, Run, start, next, routes, upserts, run_counters,
  empty-AllCounted,
}
use resin.Tests.Data.{
  ip_a, three_nodes, plat, reading, floats, draws, lease_a, one_lease-IsCounted, state, platforms,
  resolvers,
}
use resin.Tests.Exposure.{one_account-IsBounded, one_account-IsWellFormed}

abbrev bob_routed : Routed
bob_routed = route_sticky floats reading plat state three_nodes "bob" "a.com" draws

abbrev alice_routed : Routed
alice_routed = route_sticky floats reading plat state three_nodes "alice" "a.com" draws

route_sticky-IsCounted_example : IsCounted bob_routed.state.table
route_sticky-IsCounted_example =
    route_sticky-IsCounted floats reading plat state three_nodes "bob" "a.com" draws
      one_lease-IsCounted

route_sticky-Agrees_example :
    Agrees plat three_nodes (load "bob" bob_routed.state.table.leases) bob_routed.result
route_sticky-Agrees_example =
    route_sticky-Agrees floats reading plat state three_nodes "bob" "a.com" draws
      one_lease-IsCounted

abbrev bob : String
bob = "bob"

bob_is_not_alice : (bob == "alice") ≡ false
unfolding string_key
bob_is_not_alice = refl

route_sticky_others_example :
    (load "alice" bob_routed.state.table.leases ≡ load "alice" state.table.leases)
    × KeepsEntries three_nodes bob_routed.nodes
    × IsBounded 2 bob_routed.state.ip_window
route_sticky_others_example =
    route_sticky_others floats reading plat state three_nodes "bob" "a.com" draws "alice"
      bob_is_not_alice one_account-IsBounded

found : load "alice" state.table.leases ≡ some lease_a
unfolding load create_lease string_key
found = refl

alive : ltb_ℤ lease_a.expiry_ns (pos 100) ≡ false
alive = refl

routable : plat.view.contains 3 ≡ true
unfolding contains add new_routable_view nat_key
routable = refl

abbrev entry_a : NodeEntry
entry_a = elim (load 3 three_nodes) [ some e ↦ e | none ↦ new_node_entry 3 "{}" (pos 1) 4 ]

there : load 3 three_nodes ≡ some entry_a
unfolding load nat_key
there = refl

on_ip_a : get_egress_ip entry_a ≡ ip_a
unfolding get_egress_ip load nat_key new_node_entry
on_ip_a = refl

alice_asks : IsRequest ip_a "alice"
unfolding string_key
alice_asks = record { valid = refl; named = refl }

counted : IsCountedOn plat "alice" (pos 100) (shared floats reading plat state three_nodes) ip_a
unfolding reserve_if_eligible addr_key string_key effective_ip_account_window_ns live_entries
counted = inr (one_account-IsWellFormed, alice_asks, refl)

route_sticky_stays_example :
    (alice_routed.result ≡ inl (route_result 3 ip_a false))
    × (load "alice" alice_routed.state.table.leases
        ≡ some (record lease_a { last_accessed_ns = pos 100 }))
    × (alice_routed.state.table.stats ≡ state.table.stats)
    × (alice_routed.events ≡ noted plat "alice" lease_touch 3 ip_a (pos 0) ∷ [])
route_sticky_stays_example =
    route_sticky_stays floats reading plat three_nodes "alice" "a.com" draws lease_a entry_a there
      on_ip_a routable alive state found counted

hit : alice_routed.result ≡ inl (route_result 3 ip_a false)
hit =
    (route_sticky_stays floats reading plat three_nodes "alice" "a.com" draws lease_a entry_a there
      on_ip_a routable alive state found counted).0

route_sticky-Continues_example :
    Continues floats reading plat state three_nodes "alice" "a.com" draws
      (load "alice" state.table.leases)
      (load "alice" alice_routed.state.table.leases)
      (route_result 3 ip_a false)
route_sticky-Continues_example =
    route_sticky-Continues floats reading plat state three_nodes "alice" "a.com" draws
      (route_result 3 ip_a false) hit

route_sticky_events_example :
    let out = bob_routed in
    ((h : Hash) × (ip : Addr) × (type : LeaseEventType) × ((type ≡ lease_touch)
        ⊎ (type ≡ lease_replace))
      × (out.result ≡ inl (route_result h ip false))
      × (out.events ≡ noted plat "bob" type h ip (pos 0) ∷ []))
    ⊎ (((h : Hash) × (ip : Addr) × (out.result ≡ inl (route_result h ip true))
          × (out.events
              ≡ given_up floats reading plat "bob" (load "bob" state.table.leases)
                ++ noted plat "bob" lease_create h ip (pos 0) ∷ []))
        ⊎ ((e : RouteError) × (out.result ≡ inr e)
            × (out.events ≡ given_up floats reading plat "bob" (load "bob" state.table.leases))))
route_sticky_events_example =
    route_sticky_events floats reading plat state three_nodes "bob" "a.com" draws

abbrev empty_world : World
empty_world = record { states = []; nodes = three_nodes; events = [] }

abbrev after_upsert : World
after_upsert = upsert_lease platforms empty_world "p1" "alice" lease_a (pos 60)

abbrev after_route : World
after_route =
    (route_request floats reading platforms resolvers after_upsert "main" "bob" "a.com" draws).1

history : Run empty_world after_route
history =
    next (next (start empty_world) (upserts platforms empty_world "p1" "alice" lease_a (pos 60)))
      (routes floats reading platforms resolvers after_upsert "main" "bob" "a.com" draws)

run_counters_example : IsCounted (ensure_platform_state after_route "p1").table
run_counters_example = run_counters three_nodes after_route "p1" history

resolved : resolve_platform platforms "main" ≡ some plat
unfolding resolve_platform load string_key
resolved = refl

bob_is_named : (bob == "") ≡ false
unfolding string_key
bob_is_named = refl

route_request-IsAnswer_example :
    IsAnswer floats reading plat after_upsert.nodes
      (read_lease after_route "p1" "bob")
      (route_request floats reading platforms resolvers after_upsert "main" "bob" "a.com" draws).0
route_request-IsAnswer_example =
    route_request-IsAnswer floats reading platforms resolvers after_upsert "main" "bob" "a.com"
      draws plat
      (upsert_lease-AllCounted platforms empty_world "p1" "alice" lease_a (pos 60) empty-AllCounted)
      bob_is_named resolved

after_upsert-AllCounted : AllCounted after_upsert.states
after_upsert-AllCounted =
    upsert_lease-AllCounted platforms empty_world "p1" "alice" lease_a (pos 60) empty-AllCounted

delete_all_leases_lem_example :
    let had = leases_of (load "p1" after_upsert.states) in
    let (n, w') = delete_all_leases after_upsert "p1" in
    (n ≡ length had)
    × (w'.events ≡ after_upsert.events ++ removals "p1" had)
    × ((account : String) → read_lease w' "p1" account ≡ none)
    × ((ip : Addr)
        → is_valid ip ≡ true
        → get (ensure_platform_state w' "p1").table.stats ip ≡ pos 0)
    × ((other account : String)
        → ("p1" == other) ≡ false
        → read_lease w' other account ≡ read_lease after_upsert other account)
delete_all_leases_lem_example = delete_all_leases_lem after_upsert "p1" after_upsert-AllCounted

one_is_deleted : (delete_all_leases after_upsert "p1").0 ≡ 1
unfolding delete_all_leases delete_all_loop upsert_lease create_lease delete_lease string_key load
    store perform ensure_platform_state
one_is_deleted = refl
