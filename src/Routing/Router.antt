-- ===== src/Routing/Router.antt =====
-- internal/routing/router.go: the router's entry points, over the states of all platforms. The
-- pool's platforms, the domain of a target and the tag of a node are parameters of a request.
pub mod Requests
pub mod Admin
pub mod Clearing
use resin.Prelude.{
  ℕ, ◌+◌, ◌-◌, String, Bool, true, false, not, ◌&&◌, Option, none, some, List, [], ◌∷◌, ◌++◌,
  if◌then◌else◌, string_key, ◌==◌, ◌⊎◌, inl, inr,
}
use resin.Prelude.Int.{ℤ, pos, leb_ℤ, ltb_ℤ, wrap64, ◌-ℤ◌}
use resin.Map.{Map, load, store, keys}
use resin.Node.Hash.{Hash}
use resin.Platform.{Platform, default_platform_id, ip_quota_enabled, effective_ip_account_window_ns}
use resin.Platform.Access.{ReadOnlyView}
use resin.Routing.Events.{LeaseEvent, LeaseEventType, lease_create, lease_replace, lease_remove}
use resin.Routing.Lease.{
  Lease, LeaseTable, PlatformRoutingState, new_platform_routing_state, create_lease, delete_lease,
  get_lease,
}
use resin.Routing.Evaluation.{Nodes}
use resin.Routing.Random.{Floats, Reading}
use resin.Routing.Selection.{RouteError, platform_not_found, select_live_random_route}
use resin.Routing.Sticky.{RouteResult, route_result, Routed, route_sticky, lease_event}
use resin.Routing.Window.{touch}

-- `GetPlatform` and `GetPlatformByName` of the pool.
pub record Platforms : Type 0 where
  pub by_id : Map String (Platform ReadOnlyView)
  pub by_name : Map String (Platform ReadOnlyView)

-- The router's states, the pool's nodes, and the events sent so far.
pub record World : Type 0 where
  pub states : Map String PlatformRoutingState
  pub nodes : Nodes
  pub events : List LeaseEvent

-- netutil.ExtractDomain and `nodeTagResolver`
pub record Resolvers : Type 0 where
  pub extract_domain : String → String
  pub node_tag : Hash → String

unfoldable pub resolve_platform : Platforms → String → Option (Platform ReadOnlyView)
unfolding load
resolve_platform ps name =
    if name == "" then load default_platform_id ps.by_id else load name ps.by_name

-- the state, where a missing one is made
abbrev pub state_or_new : Option PlatformRoutingState → PlatformRoutingState
state_or_new none = new_platform_routing_state
state_or_new (some s) = s

unfoldable pub ensure_platform_state : World → String → PlatformRoutingState
unfolding load
ensure_platform_state w id = state_or_new (load id w.states)

abbrev pub with_platform_context :
    Resolvers → Platform ReadOnlyView → RouteResult ⊎ RouteError → RouteResult ⊎ RouteError
with_platform_context x plat (inr e) = inr e
with_platform_context x plat (inl res) = inl (record res {
  platform_id = plat.id;
  platform_name = plat.name;
  node_tag = x.node_tag res.node_hash;
})

module _ (fl : Floats) (r : Reading) where
  unfoldable pub route_random :
      Platform ReadOnlyView → PlatformRoutingState → Nodes → String → (ℕ → ℕ → ℕ) → Routed
  unfolding select_live_random_route
  route_random plat state nodes target draws =
      let (route, nodes') =
        select_live_random_route fl r plat state.table.stats nodes target draws in
      record {
        state = state;
        nodes = nodes';
        events = [];
        result = elim route [ inl p ↦ inl (route_result p.hash p.ip false) | inr e ↦ inr e ];
      }

  unfoldable pub route_on :
      Platform ReadOnlyView → PlatformRoutingState → Nodes → String → String → (ℕ → ℕ → ℕ) → Routed
  unfolding route_random route_sticky
  route_on plat state nodes account target draws =
      if account == ""
      then route_random plat state nodes target draws
      else route_sticky fl r plat state nodes account target draws

  unfoldable pub route_request :
      Platforms
      → Resolvers
      → World
      → String
      → String
      → String
      → (ℕ → ℕ → ℕ)
      → (RouteResult ⊎ RouteError) × World
  unfolding resolve_platform ensure_platform_state store route_on
  route_request ps x w name account target draws = elim (resolve_platform ps name) [
    | none ↦ (inr platform_not_found, w)
    | some plat ↦
        let out =
          route_on plat (ensure_platform_state w plat.id) w.nodes account (x.extract_domain target)
            draws in
        (
          with_platform_context x plat out.result,
          record {
            states = store plat.id out.state w.states;
            nodes = out.nodes;
            events = w.events ++ out.events;
          },
        )
  ]

-- `DeleteLease`: whether there was a lease
abbrev pub removed_event : String → String → Lease → LeaseEvent
removed_event id account l = record {
  type = lease_remove;
  platform_id = id;
  account = account;
  node_hash = l.node_hash;
  egress_ip = l.egress_ip;
  created_at_ns = l.created_at_ns;
}

abbrev pub sent : String → String → Option Lease → List LeaseEvent
sent id account none = []
sent id account (some l) = removed_event id account l ∷ []

abbrev pub was_some : Option Lease → Bool
was_some none = false
was_some (some l) = true

unfoldable pub delete_platform_lease : World → String → String → Bool × World
unfolding load store delete_lease
delete_platform_lease w id account = elim (load id w.states) [
  | none ↦ (false, w)
  | some s ↦
      let (table, gone) = delete_lease s.table account in
      (
        was_some gone,
        record w {
          states = store id (record s { table = table }) w.states;
          events = w.events ++ sent id account gone;
        },
      )
]

-- the visit of `DeleteAllLeases`, which deletes each account that `Range` names
unfoldable pub delete_all_loop :
    String → List String → LeaseTable → List LeaseEvent → ℕ × LeaseTable × List LeaseEvent
unfolding delete_lease
delete_all_loop id [] t events = (0, t, events)
delete_all_loop id (account ∷ accounts) t events =
    let (table, gone) = delete_lease t account in
    let (n, table1, out) = delete_all_loop id accounts table (events ++ sent id account gone) in
    (if was_some gone then n + 1 else n, table1, out)

unfoldable pub delete_all_leases : World → String → ℕ × World
unfolding load store delete_all_loop
delete_all_leases w id = elim (load id w.states) [
  | none ↦ (0, w)
  | some s ↦
      let (n, table, events) = delete_all_loop id (keys s.table.leases) s.table w.events in
      (n, record w { states = store id (record s { table = table }) w.states; events = events })
]

-- whether the pool has the platform with its quota on
abbrev pub quota_on : Option (Platform ReadOnlyView) → Bool
quota_on none = false
quota_on (some p) = ip_quota_enabled p

-- `UpsertLease` once the fields of its argument are parsed; `now` is read before the `Touch`.
unfoldable pub upsert_lease : Platforms → World → String → String → Lease → ℤ → World
unfolding load store ensure_platform_state create_lease touch ip_quota_enabled
upsert_lease ps w id account lease now =
    let s = ensure_platform_state w id in
    let type : LeaseEventType = elim (load account s.table.leases) [
      | none ↦ lease_create
      | some l ↦ lease_replace
    ] in
    let event : LeaseEvent = record {
      type = type;
      platform_id = id;
      account = account;
      node_hash = lease.node_hash;
      egress_ip = lease.egress_ip;
      created_at_ns = pos 0;
    } in
    let window =
      if quota_on (load id ps.by_id)
      then touch s.ip_window lease.egress_ip account now
      else s.ip_window in
    record w {
      states =
          store id (record { table = create_lease s.table account lease; ip_window = window })
            w.states;
      events = w.events ++ event ∷ [];
    }

-- the time that a restored lease was last active
abbrev pub last_active : Lease → ℤ
last_active l = if leb_ℤ l.last_accessed_ns (pos 0) then l.created_at_ns else l.last_accessed_ns

abbrev pub is_active : Option (Platform ReadOnlyView) → ℤ → ℤ → Bool
is_active none now active = false
is_active (some p) now active =
    ip_quota_enabled p && ltb_ℤ (wrap64 (now -ℤ active)) (effective_ip_account_window_ns p)

-- one lease of `RestoreLeases` that parses
unfoldable pub restore_lease : Platforms → ℤ → World → String → String → Lease → World
unfolding load store ensure_platform_state create_lease touch wrap64 ◌-ℤ◌ ip_quota_enabled
    effective_ip_account_window_ns
restore_lease ps now w id account lease =
    let s = ensure_platform_state w id in
    let window =
      if is_active (load id ps.by_id) now (last_active lease)
      then touch s.ip_window lease.egress_ip account (last_active lease)
      else s.ip_window in
    record w {
      states =
          store id (record { table = create_lease s.table account lease; ip_window = window })
            w.states;
    }

-- `ReadLease`
unfoldable pub read_lease : World → String → String → Option Lease
unfolding load get_lease
read_lease w id account = elim (load id w.states) [
  | none ↦ none
  | some s ↦ get_lease s.table account
]
