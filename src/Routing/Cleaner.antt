-- ===== src/Routing/Cleaner.antt =====
-- internal/routing/lease_cleaner.go: one sweep of a platform's state. `Range` names the accounts to
-- visit; `Compute` then looks at each lease again under the lock of its key. A stop signal ends the
-- visit early, so the accounts that a sweep reaches are a parameter.
pub mod Sweep
use resin.Prelude.{
  ℕ, ◌+◌, String, Bool, true, false, Option, none, some, List, [], ◌∷◌, ◌++◌, if◌then◌else◌,
  string_key,
}
use resin.Prelude.Int.{ℤ, ltb_ℤ}
use resin.Map.{Map, load, keys, perform, ComputeOp, delete, cancel}
use resin.Platform.{Platform, ip_quota_enabled, effective_ip_account_window_ns}
use resin.Platform.Access.{ReadOnlyView}
use resin.Routing.Events.{LeaseEvent, lease_expire}
use resin.Routing.Load.{dec}
use resin.Routing.Lease.{Lease, LeaseTable, PlatformRoutingState, is_expired}
use resin.Routing.Window.{IpAccountWindow, prune}

abbrev pub expire_event : String → String → Lease → LeaseEvent
expire_event id account l = record {
  type = lease_expire;
  platform_id = id;
  account = account;
  node_hash = l.node_hash;
  egress_ip = l.egress_ip;
  created_at_ns = l.created_at_ns;
}

-- the function passed to `Compute` for one account
unfoldable pub expire_lease : String → ℤ → String → LeaseTable → LeaseTable × List LeaseEvent
unfolding load perform dec
expire_lease id now account t = elim (load account t.leases) [
  | none ↦ (t, [])
  | some current ↦
      if ltb_ℤ current.expiry_ns now
      then (
        record { leases = perform account delete t.leases; stats = dec t.stats current.egress_ip },
        expire_event id account current ∷ [],
      )
      else (t, [])
]

unfoldable pub sweep_leases : String → ℤ → List String → LeaseTable → LeaseTable × List LeaseEvent
unfolding expire_lease
sweep_leases id now [] t = (t, [])
sweep_leases id now (account ∷ accounts) t =
    let (t1, events) = expire_lease id now account t in
    let (t2, later) = sweep_leases id now accounts t1 in (t2, events ++ later)

-- `plat` is what the pool has for the id
unfoldable pub sweep_platform_state :
    String
    → Option (Platform ReadOnlyView)
    → List String
    → ℤ
    → PlatformRoutingState
    → PlatformRoutingState × List LeaseEvent
unfolding ip_quota_enabled prune effective_ip_account_window_ns sweep_leases
sweep_platform_state id plat accounts now s =
    let (table, events) = sweep_leases id now accounts s.table in
    let window : IpAccountWindow = elim plat [
      | none ↦ s.ip_window
      | some p ↦
          if ip_quota_enabled p
          then prune s.ip_window now (effective_ip_account_window_ns p)
          else s.ip_window
    ] in
    (record { table = table; ip_window = window }, events)
