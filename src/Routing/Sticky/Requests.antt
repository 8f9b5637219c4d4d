-- ===== src/Routing/Sticky/Requests.antt =====
-- internal/routing/router.go: the promises of `routeSticky` to a client.
use resin.Prelude.{
  ℕ, String, true, false, Option, some, [], ◌∷◌, ◌++◌, ◌≡◌, refl, arith, inl, inr, ◌⊎◌, ◌∙◌, ap,
  sym, nat_key, string_key, ◌==◌,
}
use resin.Prelude.Int.{pos, wrap64, ◌+ℤ◌}
use resin.Map.{load, perform}
use resin.Netip.{Addr, zero_addr}
use resin.Node.Hash.{Hash}
use resin.Platform.{Platform}
use resin.Platform.Access.{ReadOnlyView}
use resin.Routing.Events.{LeaseEventType, lease_touch, lease_replace, lease_create}
use resin.Routing.Lease.{Lease, PlatformRoutingState, is_expired}
use resin.Routing.Lease.Counted.{IsCounted}
use resin.Routing.Evaluation.{Nodes}
use resin.Routing.Evaluation.Keeps.{KeepsEntries}
use resin.Routing.Random.{Floats, Reading}
use resin.Routing.Selection.{RouteError}
use resin.Routing.Sticky.{
  RouteResult, Shared, route_result, lease_ttl, decide_sticky_lease, route_sticky,
}
use resin.Routing.Sticky.Outcomes.{IsDecision, given_up, noted}
use resin.Routing.Sticky.Decisions.{decide_sticky_lease_lem}
use resin.Routing.Sticky.Leases.{Agrees, settled-IsCounted, settled-Agrees, perform-other, stored}
use resin.Routing.Window.Schedule.{Run-IsBounded}
use resin.Routing.Window.Ceiling.{IsBounded}

touched :
    (type : LeaseEventType) (A : Type 0)
    → ((type ≡ lease_touch) × A) ⊎ (type ≡ lease_replace)
    → (type ≡ lease_touch) ⊎ (type ≡ lease_replace)
touched type A (inl (e, a)) = inl e
touched type A (inr e) = inr e

module _ (fl : Floats) (r : Reading) (plat : Platform ReadOnlyView) where
  abbrev pub shared : PlatformRoutingState → Nodes → Shared
  shared state nodes = record {
    stats = state.table.stats;
    window = state.ip_window;
    nodes = nodes;
    events = [];
  }

  module _ (state : PlatformRoutingState) (nodes : Nodes) (account target : String)
      (draws : ℕ → ℕ → ℕ) where
    decided : IsDecision fl r plat account (load account state.table.leases) (shared state nodes) (
        decide_sticky_lease fl r plat account target draws
          (load account state.table.leases)
          (shared state nodes))
    decided =
        decide_sticky_lease_lem fl r plat account target draws (load account state.table.leases)
          (shared state nodes)

    -- The load counters stay exact: per valid IP, the number of leases on it.
    pub route_sticky-IsCounted :
        IsCounted state.table
        → IsCounted (route_sticky fl r plat state nodes account target draws).state.table
    unfolding route_sticky
    route_sticky-IsCounted c =
        settled-IsCounted fl r plat state.table account (shared state nodes) refl _ c decided

    -- The request ends with the lease that its answer names, at a routable node of the pool with
    -- the answer's egress IP; after an error the account has no lease.
    pub route_sticky-Agrees :
        IsCounted state.table
        → let out = route_sticky fl r plat state nodes account target draws in
          Agrees plat nodes (load account out.state.table.leases) out.result
    unfolding route_sticky
    route_sticky-Agrees c =
        settled-Agrees fl r plat state.table account (shared state nodes) refl _ c.distinct decided

    -- The leases of other accounts stay as they are, the entries of the nodes change at
    -- most in their latency tables, and the window keeps its ceiling.
    pub route_sticky_others :
        (other : String)
        → (account == other) ≡ false
        → IsBounded plat.max_accounts_per_ip state.ip_window
        → let out = route_sticky fl r plat state nodes account target draws in
          (load other out.state.table.leases ≡ load other state.table.leases)
          × KeepsEntries nodes out.nodes
          × IsBounded plat.max_accounts_per_ip out.state.ip_window
    unfolding route_sticky
    route_sticky_others other ne b = (
      perform-other account other _ state.table.leases ne,
      decided.keeps,
      Run-IsBounded b decided.run,
    )

    abbrev result_of : RouteResult ⊎ RouteError → RouteResult
    result_of (inl x) = x
    result_of (inr e) = route_result 0 zero_addr false

    same_result : {o : RouteResult ⊎ RouteError} (a b : RouteResult) → o ≡ inl a → o ≡ inl b → a ≡ b
    same_result a b p q = ap result_of (sym p ∙ q)

    -- A kept lease, or a new one.
    abbrev pub Continues : Option Lease → Option Lease → RouteResult → Type 0
    Continues before after result =
        ((result.lease_created ≡ false)
          × (old : Lease) × (l : Lease) × (before ≡ some old)
          × (is_expired old r.now ≡ false)
          × (after ≡ some l)
          × (result.egress_ip ≡ old.egress_ip)
          × (l.egress_ip ≡ old.egress_ip)
          × (l.expiry_ns ≡ old.expiry_ns)
          × (l.last_accessed_ns ≡ r.now))
        ⊎ ((result.lease_created ≡ true)
            × (l : Lease) × (after ≡ some l)
            × (l.created_at_ns ≡ r.now)
            × (l.expiry_ns ≡ wrap64 (r.now +ℤ lease_ttl fl r plat)))

    -- A result without a new lease comes from a lease that has not expired, and keeps its egress IP
    -- and its expiry; any other result has a lease that starts now and ends after the TTL.
    pub route_sticky-Continues :
        (result : RouteResult)
        → let out = route_sticky fl r plat state nodes account target draws in
          out.result ≡ inl result
          → Continues (load account state.table.leases) (load account out.state.table.leases) result
    unfolding route_sticky perform
    route_sticky-Continues result q = elim decided.settles [
      | inl (l, k) ↦
          let same = same_result result _ q (k.answer ∙ ap (λ x. inl x) k.kept.answer) in
          inl (
            ap (λ x. x.lease_created) same,
            k.current,
            l,
            k.found,
            k.alive,
            rw k.op (stored account l state.table.leases),
            ap (λ x. x.egress_ip) same ∙ k.kept.same_ip,
            k.kept.same_ip,
            k.kept.same_expiry,
            k.kept.accessed,
          )
      | inr (inl (l, m)) ↦
          let same = same_result result _ q m.answer in
          inr (
            ap (λ x. x.lease_created) same,
            l,
            rw m.op (stored account l state.table.leases),
            m.created,
            m.expires,
          )
      | inr (inr (e, f)) ↦ let impossible : ⊥ = ground (arith, q, f.answer) in elim impossible [ ]
    ]

    -- The events of a request: touch or replace for a kept lease; else the expiry or removal of the
    -- old lease, then the creation of the new one if there is one.
    pub route_sticky_events :
        let out = route_sticky fl r plat state nodes account target draws in
        ((h : Hash) × (ip : Addr) × (type : LeaseEventType) × ((type ≡ lease_touch)
            ⊎ (type ≡ lease_replace))
          × (out.result ≡ inl (route_result h ip false))
          × (out.events ≡ noted plat account type h ip (pos 0) ∷ []))
        ⊎ (((h : Hash) × (ip : Addr) × (out.result ≡ inl (route_result h ip true))
              × (out.events
                  ≡ given_up fl r plat account (load account state.table.leases)
                    ++ noted plat account lease_create h ip (pos 0) ∷ []))
            ⊎ ((e : RouteError) × (out.result ≡ inr e)
                × (out.events ≡ given_up fl r plat account (load account state.table.leases))))
    unfolding route_sticky
    route_sticky_events = elim decided.settles [
      | inl (l, k) ↦ inl (
        l.node_hash,
        l.egress_ip,
        k.kept.type,
        touched _ _ k.kept.kind,
        k.answer ∙ ap (λ x. inl x) k.kept.answer,
        k.kept.events,
      )
      | inr (inl (l, m)) ↦ inr (inl (l.node_hash, l.egress_ip, m.answer, m.events))
      | inr (inr (e, f)) ↦ inr (inr (e, f.answer, f.events))
    ]
