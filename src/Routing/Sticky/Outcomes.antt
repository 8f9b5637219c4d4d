-- ===== src/Routing/Sticky/Outcomes.antt =====
-- internal/routing/router.go: the ways in which `decideStickyLease` can end.
use resin.Prelude.{
  List, String, true, false, Option, none, some, [], ◌∷◌, ◌++◌, ◌≡◌, Bool-cases, inl, inr, ◌⊎◌,
  nat_key, if◌then◌else◌,
}
use resin.Prelude.Int.{ℤ, pos, wrap64, ◌+ℤ◌, ltb_ℤ}
use resin.Map.{update}
use resin.Netip.{Addr}
use resin.Node.Hash.{Hash}
use resin.Platform.{Platform}
use resin.Platform.Access.{ReadOnlyView}
use resin.Routing.Events.{LeaseEvent, LeaseEventType, lease_create, lease_expire, lease_remove}
use resin.Routing.Load.{inc}
use resin.Routing.Lease.{Lease, is_expired, release}
use resin.Routing.Evaluation.Keeps.{KeepsEntries}
use resin.Routing.Random.{Floats, Reading}
use resin.Routing.Selection.{RouteError}
use resin.Routing.Selection.Picks.{Serves}
use resin.Routing.Window.Schedule.{Run}
use resin.Routing.Sticky.{
  RouteResult, Shared, route_result, lease_event, Decision, Invalidation, not_invalid, expired,
  removed, removal_events, lease_ttl, abort_lease_create,
}
use resin.Routing.Sticky.Hits.{IsKept}

-- The reason why a lease is given up: it has expired, or nothing serves its IP any more.
abbrev pub reason : Option Lease → ℤ → Invalidation
reason none now = not_invalid
reason (some l) now = elim (is_expired l now) [ true ↦ expired | false ↦ removed ]

-- The event for it, from the lease's expiry alone.
abbrev pub ending : ℤ → ℤ → LeaseEventType
ending expiry now = if ltb_ℤ expiry now then lease_expire else lease_remove

pub reason-alive : (l : Lease) (now : ℤ) → is_expired l now ≡ false → reason (some l) now ≡ removed
reason-alive l now alive = rw (alive, reason)

pub reason-old : (l : Lease) (now : ℤ) → is_expired l now ≡ true → reason (some l) now ≡ expired
reason-old l now old = rw (old, reason)

-- An event of an account, written out.
abbrev pub noted : Platform ReadOnlyView → String → LeaseEventType → Hash → Addr → ℤ → LeaseEvent
noted plat account type h ip created = record {
  type = type;
  platform_id = plat.id;
  account = account;
  node_hash = h;
  egress_ip = ip;
  created_at_ns = created;
}

module _ (fl : Floats) (r : Reading) (plat : Platform ReadOnlyView) where
  -- the events of the lease that is given up
  abbrev pub given_up : String → Option Lease → List LeaseEvent
  given_up account none = []
  given_up account (some l) =
      noted plat account (ending l.expiry_ns r.now) l.node_hash l.egress_ip l.created_at_ns ∷ []

  pub removal_events-given_up :
      (account : String) (l : Lease)
      → removal_events fl r plat (reason (some l) r.now) account l ≡ given_up account (some l)
  unfolding is_expired
  removal_events-given_up account l = elim (Bool-cases (ltb_ℤ l.expiry_ns r.now)) [
    | inl e ↦ rw (reason-old l r.now e, e)
    | inr e ↦ rw (reason-alive l r.now e, e)
  ]

  -- A new lease at a node that serves its IP; the counters move from the old IP to the new one.
  pub record IsMade (account : String) (previous : Option Lease) (s : Shared) (l : Lease)
      (d : Decision) : Type 0 where
    pub op : d.op ≡ update l
    pub answer : d.result ≡ inl (route_result l.node_hash l.egress_ip true)
    pub serves : Serves plat s.nodes l.node_hash l.egress_ip
    pub created : l.created_at_ns ≡ r.now
    pub accessed : l.last_accessed_ns ≡ r.now
    pub expires : l.expiry_ns ≡ wrap64 (r.now +ℤ lease_ttl fl r plat)
    pub stats : d.shared.stats ≡ inc (release previous s.stats) l.egress_ip
    pub events :
        d.shared.events
        ≡ (s.events ++ given_up account previous)
          ++ lease_event lease_create plat account l.node_hash l.egress_ip (pos 0) ∷ []

  -- No lease any more: an error, and the old counter goes down.
  pub record IsRefused (account : String) (previous : Option Lease) (s : Shared) (e : RouteError)
      (d : Decision) : Type 0 where
    pub op : d.op ≡ abort_lease_create previous
    pub answer : d.result ≡ inr e
    pub stats : d.shared.stats ≡ release previous s.stats
    pub events : d.shared.events ≡ s.events ++ given_up account previous

  pub record IsStill (account : String) (previous : Option Lease) (s : Shared) (l : Lease)
      (d : Decision) : Type 0 where
    pub current : Lease
    pub result : RouteResult
    pub found : previous ≡ some current
    pub alive : is_expired current r.now ≡ false
    pub op : d.op ≡ update l
    pub answer : d.result ≡ inl result
    pub kept : IsKept plat account r.now current s l result d.shared

  -- Kept, made or refused.
  abbrev pub Settles : String → Option Lease → Shared → Decision → Type 0
  Settles account previous s d =
      ((l : Lease) × IsStill account previous s l d)
      ⊎ (((l : Lease) × IsMade account previous s l d)
          ⊎ ((e : RouteError) × IsRefused account previous s e d))

  pub record IsDecision (account : String) (previous : Option Lease) (s : Shared) (d : Decision)
      : Type 0 where
    pub settles : Settles account previous s d
    pub keeps : KeepsEntries s.nodes d.shared.nodes
    pub run : Run plat.max_accounts_per_ip s.window d.shared.window
