-- ===== src/Routing/Lease.antt =====
-- internal/routing/lease.go and state.go: `LeaseTable` and the state of one platform. The table and
-- the platform's state share one `IPLoadStats`; here it lives in the table. `Compute` runs its
-- function under the lock of the key, so a method is one step.
pub mod Counted
use resin.Prelude.{ℕ, String, Bool, true, false, Option, none, some, [], length, string_key}
use resin.Prelude.Int.{ℤ, ltb_ℤ}
use resin.Netip.{Addr}
use resin.Node.Hash.{Hash}
use resin.Map.{Map, load, store, remove, perform, ComputeOp, update, delete, cancel}
use resin.Routing.Load.{IpLoadStats, new_ip_load_stats, inc, dec}
use resin.Routing.Window.{IpAccountWindow, new_ip_account_window}

pub record Lease : Type 0 where
  pub node_hash : Hash
  pub egress_ip : Addr
  pub created_at_ns : ℤ
  pub expiry_ns : ℤ
  pub last_accessed_ns : ℤ

pub record LeaseTable : Type 0 where
  pub leases : Map String Lease
  pub stats : IpLoadStats

pub record PlatformRoutingState : Type 0 where
  pub table : LeaseTable
  pub ip_window : IpAccountWindow

abbrev pub new_lease_table : LeaseTable
new_lease_table = record { leases = []; stats = new_ip_load_stats }

abbrev pub new_platform_routing_state : PlatformRoutingState
new_platform_routing_state = record { table = new_lease_table; ip_window = new_ip_account_window }

-- `l.ExpiryNs < now`
unfoldable pub is_expired : Lease → ℤ → Bool
is_expired l now = ltb_ℤ l.expiry_ns now

unfoldable pub get_lease : LeaseTable → String → Option Lease
unfolding load
get_lease t account = load account t.leases

-- the counter of the lease that is given up, if there is one
unfoldable pub release : Option Lease → IpLoadStats → IpLoadStats
unfolding dec
release none s = s
release (some old) s = dec s old.egress_ip

unfoldable pub create_lease : LeaseTable → String → Lease → LeaseTable
unfolding load perform inc release
create_lease t account lease = record {
  leases = perform account (update lease) t.leases;
  stats = inc (release (load account t.leases) t.stats) lease.egress_ip;
}

unfoldable pub delete_lease : LeaseTable → String → LeaseTable × Option Lease
unfolding load perform release
delete_lease t account = elim (load account t.leases) [
  | none ↦ (record t { leases = perform account cancel t.leases }, none)
  | some old ↦ (
    record { leases = perform account delete t.leases; stats = release (some old) t.stats },
    some old,
  )
]

unfoldable pub size : LeaseTable → ℕ
size t = length t.leases
