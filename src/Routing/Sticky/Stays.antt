-- ===== src/Routing/Sticky/Stays.antt =====
-- internal/routing/router.go: when `tryLeaseHit` leaves an account where it is.
use resin.Prelude.{
  ℕ, String, true, false, some, [], ◌∷◌, ◌++◌, ◌≡◌, refl, Bool-cases, arith, inl, inr, ◌⊎◌, ap,
  nat_key, string_key,
}
use resin.Prelude.Int.{ℤ, pos, ltb_ℤ}
use resin.Map.{load, perform, update}
use resin.Netip.{Addr, addr_key}
use resin.Node.Entry.{NodeEntry, get_egress_ip}
use resin.Platform.{Platform, ip_quota_enabled, effective_ip_account_window_ns}
use resin.Platform.Access.{ReadOnlyView}
use resin.Routing.Events.{lease_touch}
use resin.Routing.Lease.{Lease, PlatformRoutingState, is_expired}
use resin.Routing.Evaluation.{Nodes}
use resin.Routing.Random.{Floats, Reading}
use resin.Routing.Selection.{is_on_ip}
use resin.Routing.Window.Admission.{recent, has_account, IsRequest}
use resin.Routing.Window.Counting.{IsWellFormed}
use resin.Routing.Window.Quota.{refresh_on_hit_lem}
use resin.Routing.Sticky.{
  Shared, emit, route_result, admit_hit, still_serves, try_lease_hit, decide_live,
  decide_sticky_lease, route_sticky,
}
use resin.Routing.Sticky.Hits.{admit_hit-IsQuiet}
use resin.Routing.Sticky.Leases.{stored}
use resin.Routing.Sticky.Requests.{shared}
use resin.Routing.Sticky.Outcomes.{noted}

module _ (plat : Platform ReadOnlyView) (account : String) (now : ℤ) where
  -- There is no quota, or the IP counts the account within its window.
  abbrev pub IsCountedOn : Shared → Addr → Type 0
  IsCountedOn s ip =
      (plat.max_accounts_per_ip ≡ 0)
      ⊎ (IsWellFormed s.window
          × IsRequest ip account
          × (has_account account (recent s.window ip now (effective_ip_account_window_ns plat))
              ≡ true))

  admit_hit-IsCountedOn :
      (s : Shared) (ip : Addr) → IsCountedOn s ip → (admit_hit plat ip account now s).0 ≡ true
  unfolding admit_hit ip_quota_enabled
  admit_hit-IsCountedOn s ip (inl e) = rw (e, admit_hit)
  admit_hit-IsCountedOn s ip (inr (f, q, counted)) = elim (Bool-cases (ip_quota_enabled plat)) [
    | inl on ↦
        let admitted =
          refresh_on_hit_lem s.window ip account now (effective_ip_account_window_ns plat)
            plat.max_accounts_per_ip f q (ground (arith, on)) in
        rw (on, admit_hit) (ground (arith, admitted.0, counted))
    | inr off ↦ rw (off, admit_hit)
  ]

module _ (fl : Floats) (r : Reading) (plat : Platform ReadOnlyView) (nodes : Nodes)
    (account target : String) (draws : ℕ → ℕ → ℕ) (l : Lease) (e : NodeEntry)
    (there : load l.node_hash nodes ≡ some e) (on_ip : get_egress_ip e ≡ l.egress_ip)
    (routable : plat.view.contains l.node_hash ≡ true)
    (fresh : ltb_ℤ l.expiry_ns r.now ≡ false) where
  serves : still_serves plat nodes l ≡ true
  unfolding still_serves is_on_ip
  serves = rw (there, routable) (ground (arith, on_ip))

  abbrev touch : Shared → Shared
  touch s = record s {
    events = s.events ++ noted plat account lease_touch l.node_hash l.egress_ip (pos 0) ∷ [];
  }

  hits :
      (s : Shared)
      → still_serves plat s.nodes l ≡ true
      → (admit_hit plat l.egress_ip account r.now s).0 ≡ true
      → try_lease_hit plat account l r.now s ≡ (
        some (record l { last_accessed_ns = r.now }, route_result l.node_hash l.egress_ip false),
        touch (admit_hit plat l.egress_ip account r.now s).1,
      )
  unfolding try_lease_hit emit
  hits s there admitted = rw (there, admitted, try_lease_hit)

  decides :
      (s : Shared)
      → still_serves plat s.nodes l ≡ true
      → (admit_hit plat l.egress_ip account r.now s).0 ≡ true
      → decide_sticky_lease fl r plat account target draws (some l) s ≡ record {
        op = update (record l { last_accessed_ns = r.now });
        result = inl (route_result l.node_hash l.egress_ip false);
        shared = touch (admit_hit plat l.egress_ip account r.now s).1;
      }
  unfolding decide_sticky_lease decide_live is_expired
  decides s there admitted =
      let hit = hits s there admitted in
      let kept = record l { last_accessed_ns = r.now } in
      let same = route_result l.node_hash l.egress_ip false in
      rw (decide_sticky_lease, is_expired, fresh, decide_live, hit)
        (ap (λ out. record { op = update kept; result = inl same; shared = out.1 }) hit)

  -- An account stays on its node, with only the access time of its lease moved, one touch event and
  -- the load counters as they were, when: its lease has not expired; the pool has the lease's node,
  -- which is routable and still has the lease's egress IP; and there is no quota, or the window is
  -- well formed, account and IP are valid, and the IP counts the account within the window.
  pub route_sticky_stays :
      (state : PlatformRoutingState)
      → load account state.table.leases ≡ some l
      → IsCountedOn plat account r.now (shared fl r plat state nodes) l.egress_ip
      → let out = route_sticky fl r plat state nodes account target draws in
        (out.result ≡ inl (route_result l.node_hash l.egress_ip false))
        × (load account out.state.table.leases ≡ some (record l { last_accessed_ns = r.now }))
        × (out.state.table.stats ≡ state.table.stats)
        × (out.events ≡ noted plat account lease_touch l.node_hash l.egress_ip (pos 0) ∷ [])
  unfolding route_sticky perform
  route_sticky_stays state found counted =
      let s = shared fl r plat state nodes in
      let admitted = admit_hit-IsCountedOn plat account r.now s l.egress_ip counted in
      let quiet = admit_hit-IsQuiet plat l.egress_ip account r.now s in
      rw (route_sticky, found, decides s serves admitted, perform)
        (
          refl,
          stored account (record l { last_accessed_ns = r.now }) state.table.leases,
          quiet.stats,
          ap (λ es. es ++ noted plat account lease_touch l.node_hash l.egress_ip (pos 0) ∷ [])
              quiet.events,
        )
