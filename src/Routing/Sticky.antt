-- ===== src/Routing/Sticky.antt =====
-- internal/routing/router.go: sticky routing. The function passed to `Compute` decides on one
-- account's lease under the lock of its key; it changes the load counters, the account window and
-- the latency tables on the way and sends events, and its answer is then performed on the table.
pub mod Hits
pub mod Outcomes
pub mod Decisions
pub mod Leases
pub mod Requests
pub mod Stays
use resin.Prelude.{
  ℕ, ◌+◌, zero, suc, String, Bool, true, false, ◌&&◌, ◌||◌, not, Option, none, some, List, [], ◌∷◌,
  ◌++◌, ◌==◌, if◌then◌else◌, nat_key, string_key, ltb, ◌⊎◌, inl, inr,
}
use resin.Prelude.Int.{ℤ, pos, leb_ℤ, ltb_ℤ, wrap64, ◌+ℤ◌}
use resin.Map.{Map, load, ComputeOp, update, delete, cancel, perform}
use resin.Netip.{Addr, addr_key, is_valid}
use resin.Node.Hash.{Hash}
use resin.Node.Entry.{NodeEntry, get_egress_ip}
use resin.Platform.{Platform, ip_quota_enabled, effective_ip_account_window_ns}
use resin.Platform.Access.{ReadOnlyView}
use resin.Routing.Events.{
  LeaseEvent, LeaseEventType, lease_create, lease_touch, lease_replace, lease_remove, lease_expire,
}
use resin.Routing.Load.{IpLoadStats, inc, dec}
use resin.Routing.Lease.{Lease, LeaseTable, PlatformRoutingState, is_expired}
use resin.Routing.Evaluation.{Nodes}
use resin.Routing.Random.{Floats, Reading}
use resin.Routing.Selection.{
  Picked, RouteError, no_available_nodes, is_on_ip, choose_same_ip_rotation_candidate,
}
use resin.Routing.Quota.{Selected, select_route_for_lease}
use resin.Routing.Window.{IpAccountWindow, refresh_on_hit}

pub record RouteResult : Type 0 where
  pub platform_id : String
  pub platform_name : String
  pub node_hash : Hash
  pub egress_ip : Addr
  pub node_tag : String
  pub lease_created : Bool

-- What a decision changes besides the lease of its account; `events` are those sent so far.
pub record Shared : Type 0 where
  pub stats : IpLoadStats
  pub window : IpAccountWindow
  pub nodes : Nodes
  pub events : List LeaseEvent

abbrev pub route_result : Hash → Addr → Bool → RouteResult
route_result h ip created = record {
  platform_id = "";
  platform_name = "";
  node_hash = h;
  egress_ip = ip;
  node_tag = "";
  lease_created = created;
}

unfoldable pub emit : LeaseEvent → Shared → Shared
emit e s = record s { events = s.events ++ e ∷ [] }

pub data Invalidation : Type 0 where
  not_invalid expired removed : Invalidation

-- The quota is off, or it admits the account on the IP; an admission is written to the window.
unfoldable pub admit_hit : Platform ReadOnlyView → Addr → String → ℤ → Shared → Bool × Shared
unfolding ip_quota_enabled effective_ip_account_window_ns refresh_on_hit
admit_hit plat ip account now s =
    let (admitted, window) =
      refresh_on_hit s.window ip account now (effective_ip_account_window_ns plat)
        plat.max_accounts_per_ip in
    if ip_quota_enabled plat then (admitted, record s { window = window }) else (true, s)

abbrev pub lease_event :
    LeaseEventType → Platform ReadOnlyView → String → Hash → Addr → ℤ → LeaseEvent
lease_event type plat account h ip created = record {
  type = type;
  platform_id = plat.id;
  account = account;
  node_hash = h;
  egress_ip = ip;
  created_at_ns = created;
}

-- the guard of `tryLeaseHit`: the node is in the pool and routable and still has the lease's IP
unfoldable pub still_serves : Platform ReadOnlyView → Nodes → Lease → Bool
unfolding load is_on_ip
still_serves plat nodes l =
    is_on_ip l.egress_ip (load l.node_hash nodes) && plat.view.contains l.node_hash

unfoldable pub try_lease_hit :
    Platform ReadOnlyView → String → Lease → ℤ → Shared → Option (Lease × RouteResult) × Shared
unfolding still_serves admit_hit emit
try_lease_hit plat account current now s =
    let (admitted, s') = admit_hit plat current.egress_ip account now s in
    let hit : Option (Lease × RouteResult) = some (
      record current { last_accessed_ns = now },
      route_result current.node_hash current.egress_ip false,
    ) in
    let touch = lease_event lease_touch plat account current.node_hash current.egress_ip (pos 0) in
    if not (still_serves plat s.nodes current)
    then (none, s)
    else if admitted
    then (hit, emit touch s')
    else (none, s')

abbrev pub abort_lease_create : Option Lease → ComputeOp Lease
abort_lease_create none = cancel
abort_lease_create (some l) = delete

-- What the function passed to `Compute` gives.
pub record Decision : Type 0 where
  pub op : ComputeOp Lease
  pub result : RouteResult ⊎ RouteError
  pub shared : Shared

-- A platform's state and what it shares with the rest, after a request.
pub record Routed : Type 0 where
  pub state : PlatformRoutingState
  pub nodes : Nodes
  pub events : List LeaseEvent
  pub result : RouteResult ⊎ RouteError

module _ (fl : Floats) (r : Reading) (plat : Platform ReadOnlyView) where
  unfoldable pub try_lease_same_ip_rotation :
      String → Lease → String → Shared → Option (Lease × RouteResult) × Shared
  unfolding choose_same_ip_rotation_candidate admit_hit emit
  try_lease_same_ip_rotation account current target s =
      let (chosen, nodes) =
        choose_same_ip_rotation_candidate r plat s.nodes current.egress_ip target in
      let s1 = record s { nodes = nodes } in
      elim chosen [
        | none ↦ (none, s1)
        | some h ↦
            let (admitted, s2) = admit_hit plat current.egress_ip account r.now s1 in
            let rotated : Option (Lease × RouteResult) = some (
              record current { node_hash = h; last_accessed_ns = r.now },
              route_result h current.egress_ip false,
            ) in
            let replace = lease_event lease_replace plat account h current.egress_ip (pos 0) in
            if admitted then (rotated, emit replace s2) else (none, s2)
      ]

  -- 24 h where the platform's TTL is not positive
  unfoldable pub lease_ttl : ℤ
  lease_ttl = if leb_ℤ plat.sticky_ttl_ns (pos 0) then pos 86400000000000 else plat.sticky_ttl_ns

  unfoldable pub lease_of : Picked → Lease
  unfolding lease_ttl wrap64 ◌+ℤ◌
  lease_of p = record {
    node_hash = p.hash;
    egress_ip = p.ip;
    created_at_ns = r.now;
    expiry_ns = wrap64 (r.now +ℤ lease_ttl);
    last_accessed_ns = r.now;
  }

  unfoldable pub create_lease :
      String → String → (ℕ → ℕ → ℕ) → Shared → (Lease ⊎ RouteError) × Shared
  unfolding select_route_for_lease lease_of
  create_lease account target draws s =
      let sel = select_route_for_lease fl r plat s.stats s.window s.nodes account target draws in
      let s' = record s { window = sel.window; nodes = sel.nodes } in
      elim sel.outcome [ inl p ↦ (inl (lease_of p), s') | inr e ↦ (inr e, s') ]

  abbrev pub removal_events : Invalidation → String → Lease → List LeaseEvent
  removal_events not_invalid account l = []
  removal_events expired account l =
      lease_event lease_expire plat account l.node_hash l.egress_ip l.created_at_ns ∷ []
  removal_events removed account l =
      lease_event lease_remove plat account l.node_hash l.egress_ip l.created_at_ns ∷ []

  unfoldable pub cleanup_previous_lease : Option Lease → Invalidation → String → Shared → Shared
  unfolding dec
  cleanup_previous_lease none why account s = s
  cleanup_previous_lease (some l) why account s = record s {
    stats = dec s.stats l.egress_ip;
    events = s.events ++ removal_events why account l;
  }

  unfoldable pub create_or_abort_sticky_lease :
      String → String → (ℕ → ℕ → ℕ) → Option Lease → Invalidation → Shared → Decision
  unfolding create_lease cleanup_previous_lease inc emit
  create_or_abort_sticky_lease account target draws previous why s =
      let (created, s1) = create_lease account target draws s in
      let s2 = cleanup_previous_lease previous why account s1 in
      elim created [
        | inr e ↦ record { op = abort_lease_create previous; result = inr e; shared = s2 }
        | inl l ↦
            let create = lease_event lease_create plat account l.node_hash l.egress_ip (pos 0) in
            record {
              op = update l;
              result = inl (route_result l.node_hash l.egress_ip true);
              shared = emit create (record s2 { stats = inc s2.stats l.egress_ip });
            }
      ]

  -- a lease that has not expired: hit, else rotation, else a new one
  unfoldable pub decide_live : String → String → (ℕ → ℕ → ℕ) → Lease → Shared → Decision
  unfolding try_lease_hit try_lease_same_ip_rotation create_or_abort_sticky_lease
  decide_live account target draws current s =
      let (hit, s1) = try_lease_hit plat account current r.now s in
      elim hit [
        | some (l, result) ↦ record { op = update l; result = inl result; shared = s1 }
        | none ↦
            let (rotated, s2) = try_lease_same_ip_rotation account current target s1 in
            elim rotated [
              | some (l, result) ↦ record { op = update l; result = inl result; shared = s2 }
              | none ↦ create_or_abort_sticky_lease account target draws (some current) removed s2
            ]
      ]

  unfoldable pub decide_sticky_lease :
      String → String → (ℕ → ℕ → ℕ) → Option Lease → Shared → Decision
  unfolding decide_live create_or_abort_sticky_lease is_expired
  decide_sticky_lease account target draws none s =
      create_or_abort_sticky_lease account target draws none not_invalid s
  decide_sticky_lease account target draws (some current) s =
      if is_expired current r.now
      then create_or_abort_sticky_lease account target draws (some current) expired s
      else decide_live account target draws current s

  unfoldable pub route_sticky :
      PlatformRoutingState → Nodes → String → String → (ℕ → ℕ → ℕ) → Routed
  unfolding decide_sticky_lease load perform
  route_sticky state nodes account target draws =
      let d = decide_sticky_lease account target draws (load account state.table.leases) (record {
        stats = state.table.stats;
        window = state.ip_window;
        nodes = nodes;
        events = [];
      }) in
      record {
        state = record {
          table = record {
            leases = perform account d.op state.table.leases;
            stats = d.shared.stats;
          };
          ip_window = d.shared.window;
        };
        nodes = d.shared.nodes;
        events = d.shared.events;
        result = d.result;
      }
