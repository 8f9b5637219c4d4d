-- ===== src/Routing/Router/Requests.antt =====
-- internal/routing/router.go: `RouteRequest`, and runs of the whole router. `Compute` and the mutex
-- of the window make each operation on one account a step, so requests that run at the same time
-- are a sequence of steps; the pool may change its nodes and platforms between any two of them.
use resin.Prelude.{
  ℕ, String, false, Option, none, some, List, [], ◌∷◌, ◌++◌, string_key, nat_key, ◌≡◌, refl, arith,
  Option-cases, Bool-cases, inl, inr, ◌⊎◌, ◌==◌, ◌∙◌,
}
use resin.Prelude.Int.{ℤ}
use resin.Map.{Map, load, store, keys}
use resin.Platform.{Platform}
use resin.Platform.Access.{ReadOnlyView}
use resin.Routing.Events.{LeaseEvent}
use resin.Routing.Lease.{Lease, LeaseTable, PlatformRoutingState, delete_lease}
use resin.Routing.Lease.Counted.{IsCounted, delete_lease-IsCounted}
use resin.Routing.Evaluation.{Nodes}
use resin.Routing.Random.{Floats, Reading}
use resin.Routing.Selection.{RouteError}
use resin.Routing.Selection.Picks.{Serves}
use resin.Routing.Sticky.{RouteResult}
use resin.Routing.Sticky.Leases.{Agrees}
use resin.Routing.Sticky.Requests.{route_sticky-IsCounted, route_sticky-Agrees}
use resin.Routing.Cleaner.{sweep_platform_state}
use resin.Routing.Cleaner.Sweep.{sweep_leases_lem}
use resin.Routing.Router.{
  World, Platforms, Resolvers, resolve_platform, ensure_platform_state, route_on, route_random,
  route_request, with_platform_context, delete_platform_lease, delete_all_loop, delete_all_leases,
  upsert_lease, restore_lease, read_lease, sent,
}
use resin.Routing.Router.Admin.{
  AllCounted, ensure-IsCounted, store-AllCounted, upsert_lease-AllCounted, restore_lease-AllCounted,
  delete_platform_lease-AllCounted, read_lease_lem, read_of-store,
}

read_lease_stored :
    (id account : String) (s : PlatformRoutingState) (m : Map String PlatformRoutingState)
    (nodes : Nodes) (events : List LeaseEvent)
    → read_lease (record { states = store id s m; nodes = nodes; events = events }) id account
      ≡ load account s.table.leases
read_lease_stored id account s m nodes events =
    read_lease_lem (record { states = store id s m; nodes = nodes; events = events }) id account
    ∙ ground (arith, read_of-store id id account s m)

module _ (fl : Floats) (r : Reading) where
  route_on-IsCounted :
      (plat : Platform ReadOnlyView) (s : PlatformRoutingState) (nodes : Nodes)
      (account target : String) (draws : ℕ → ℕ → ℕ)
      → IsCounted s.table
      → IsCounted (route_on fl r plat s nodes account target draws).state.table
  unfolding route_on route_random
  route_on-IsCounted plat s nodes account target draws c = elim (Bool-cases (account == "")) [
    | inl e ↦ rw (e, route_on) c
    | inr e ↦ rw (e, route_on) (route_sticky-IsCounted fl r plat s nodes account target draws c)
  ]

  route_request-AllCounted :
      (ps : Platforms) (x : Resolvers) (w : World) (name account target : String)
      (draws : ℕ → ℕ → ℕ)
      → AllCounted w.states
      → AllCounted (route_request fl r ps x w name account target draws).1.states
  unfolding route_request
  route_request-AllCounted ps x w name account target draws c =
      elim (Option-cases (resolve_platform ps name)) [
        | inl e ↦ rw (e, route_request) c
        | inr (plat, e) ↦
            rw (e, route_request)
              (store-AllCounted w.states plat.id _ c (
                route_on-IsCounted plat (ensure_platform_state w plat.id) w.nodes account _ draws
                  (ensure-IsCounted w plat.id c)))
      ]

  -- The answer is the lease, and an error means that there is none.
  abbrev pub IsAnswer :
      Platform ReadOnlyView → Nodes → Option Lease → RouteResult ⊎ RouteError → Type 0
  IsAnswer plat nodes found (inr e) = found ≡ none
  IsAnswer plat nodes found (inl result) =
      (result.platform_id ≡ plat.id)
      × (l : Lease) × (found ≡ some l)
      × (l.node_hash ≡ result.node_hash)
      × (l.egress_ip ≡ result.egress_ip)
      × Serves plat nodes result.node_hash result.egress_ip

  answered :
      (x : Resolvers) (plat : Platform ReadOnlyView) (nodes : Nodes) (found : Option Lease)
      (o : RouteResult ⊎ RouteError)
      → Agrees plat nodes found o
      → IsAnswer plat nodes found (with_platform_context x plat o)
  answered x plat nodes found (inr e) w = w
  answered x plat nodes found (inl res) w =
      let (l, stored, node, ip, serves) = w in (refl, l, stored, node, ip, serves)

  route_on-Agrees :
      (plat : Platform ReadOnlyView) (s : PlatformRoutingState) (nodes : Nodes)
      (account target : String) (draws : ℕ → ℕ → ℕ)
      → (account == "") ≡ false
      → IsCounted s.table
      → let out = route_on fl r plat s nodes account target draws in
        Agrees plat nodes (load account out.state.table.leases) out.result
  unfolding route_on
  route_on-Agrees plat s nodes account target draws named c =
      rw (named, route_on) (route_sticky-Agrees fl r plat s nodes account target draws c)

  -- With exact counters, a request that names an account of a known platform is answered from the
  -- account's lease: the answer carries the platform's id and names a routable node of the pool
  -- with its egress IP, which the lease then holds; after an error the account has no lease.
  pub route_request-IsAnswer :
      (ps : Platforms) (x : Resolvers) (w : World) (name account target : String)
      (draws : ℕ → ℕ → ℕ) (plat : Platform ReadOnlyView)
      → AllCounted w.states
      → (account == "") ≡ false
      → resolve_platform ps name ≡ some plat
      → let out = route_request fl r ps x w name account target draws in
        IsAnswer plat w.nodes (read_lease out.1 plat.id account) out.0
  unfolding route_request
  route_request-IsAnswer ps x w name account target draws plat c named found =
      let s = ensure_platform_state w plat.id in
      let out = route_on fl r plat s w.nodes account (x.extract_domain target) draws in
      rw (found, route_request)
        (rw
          (read_lease_stored plat.id account out.state w.states out.nodes (w.events ++ out.events))
          (answered x plat w.nodes _ out.result
            (route_on-Agrees plat s w.nodes account _ draws named (ensure-IsCounted w plat.id c))))

delete_all_loop-IsCounted :
    (id : String) (accounts : List String) (t : LeaseTable) (events : List LeaseEvent)
    → IsCounted t
    → IsCounted (delete_all_loop id accounts t events).1
unfolding delete_all_loop
delete_all_loop-IsCounted id [] t events c = c
delete_all_loop-IsCounted id (account ∷ accounts) t events c =
    delete_all_loop-IsCounted id accounts (delete_lease t account).0
      (events ++ sent id account (delete_lease t account).1) (delete_lease-IsCounted t account c)

pub delete_all_leases-AllCounted :
    (w : World) (id : String) → AllCounted w.states → AllCounted (delete_all_leases w id).1.states
unfolding delete_all_leases
delete_all_leases-AllCounted w id c = elim (Option-cases (load id w.states)) [
  | inl e ↦ rw (e, delete_all_leases) c
  | inr (s, e) ↦
      rw (e, delete_all_leases)
        (store-AllCounted w.states id _ c
          (delete_all_loop-IsCounted id (keys s.table.leases) s.table w.events (c id s e)))
]

pub data Step : World → World → Type 1 where
  routes :
      (fl : Floats) (r : Reading) (ps : Platforms) (x : Resolvers) (w : World)
      (name account target : String) (draws : ℕ → ℕ → ℕ)
      → Step w (route_request fl r ps x w name account target draws).1
  upserts :
      (ps : Platforms) (w : World) (id account : String) (lease : Lease) (now : ℤ)
      → Step w (upsert_lease ps w id account lease now)
  restores :
      (ps : Platforms) (w : World) (id account : String) (lease : Lease) (now : ℤ)
      → Step w (restore_lease ps now w id account lease)
  deletes : (w : World) (id account : String) → Step w (delete_platform_lease w id account).1
  deletes_all : (w : World) (id : String) → Step w (delete_all_leases w id).1
  sweeps :
      (w : World) (id : String) (plat : Option (Platform ReadOnlyView)) (accounts : List String)
      (now : ℤ)
      → Step w (record w {
        states =
            store id
              (sweep_platform_state id plat accounts now (ensure_platform_state w id)).0
              w.states;
      })
  nodes_change : (w : World) (nodes : Nodes) → Step w (record w { nodes = nodes })

pub data Run : World → World → Type 1 where
  start : (w : World) → Run w w
  next : {a b c : World} → Run a b → Step b c → Run a c

sweep-IsCounted :
    (id : String) (plat : Option (Platform ReadOnlyView)) (accounts : List String) (now : ℤ)
    (s : PlatformRoutingState)
    → IsCounted s.table
    → IsCounted (sweep_platform_state id plat accounts now s).0.table
unfolding sweep_platform_state
sweep-IsCounted id plat accounts now s c = (sweep_leases_lem id now accounts s.table "" c).0

Step-AllCounted : {a b : World} → Step a b → AllCounted a.states → AllCounted b.states
Step-AllCounted (routes fl r ps x w name account target draws) c =
    route_request-AllCounted fl r ps x w name account target draws c
Step-AllCounted (upserts ps w id account lease now) c =
    upsert_lease-AllCounted ps w id account lease now c
Step-AllCounted (restores ps w id account lease now) c =
    restore_lease-AllCounted ps w id account lease now c
Step-AllCounted (deletes w id account) c = delete_platform_lease-AllCounted w id account c
Step-AllCounted (deletes_all w id) c = delete_all_leases-AllCounted w id c
Step-AllCounted (sweeps w id plat accounts now) c =
    store-AllCounted w.states id _ c
      (sweep-IsCounted id plat accounts now (ensure_platform_state w id) (ensure-IsCounted w id c))
Step-AllCounted (nodes_change w nodes) c = c

pub Run-AllCounted : {a b : World} → Run a b → AllCounted a.states → AllCounted b.states
Run-AllCounted (start w) c = c
Run-AllCounted (next run step) c = Step-AllCounted step (Run-AllCounted run c)

pub empty-AllCounted : AllCounted []
unfolding load
empty-AllCounted id s e = let impossible : ⊥ = ground (arith, e) in elim impossible [ ]

-- Whatever requests, administration, sweeps and pool changes have run since the start, in whatever
-- order, every platform counts its leases exactly: the counter of a valid IP is the number of
-- leases on it, and an account has at most one lease.
pub run_counters :
    (nodes : Nodes) (w : World) (id : String)
    → Run (record { states = []; nodes = nodes; events = [] }) w
    → IsCounted (ensure_platform_state w id).table
run_counters nodes w id run = ensure-IsCounted w id (Run-AllCounted run empty-AllCounted)
