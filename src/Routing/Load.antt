-- ===== src/Routing/Load.antt =====
-- internal/routing/lease.go: `IPLoadStats`, the number of leases per egress IP. A counter is an
-- atomic `int64`, which cannot come near its bounds by steps of one, so it is an integer here.
pub mod Reads
use resin.Prelude.{Bool, true, false, not, Option, none, some, [], ◌∷◌, if◌then◌else◌, ◌≡◌, ◌==◌}
use resin.Prelude.Int.{ℤ, pos, ◌+ℤ◌, ◌-ℤ◌, ltb_ℤ}
use resin.Netip.{Addr, addr_key, is_valid}
use resin.Map.{Map, load, store, retain}

pub record IpLoadStats : Type 0 where
  pub counts : Map Addr ℤ

abbrev pub new_ip_load_stats : IpLoadStats
new_ip_load_stats = record { counts = [] }

-- the counter that `LoadOrStore` finds or makes
abbrev pub counter : Option ℤ → ℤ
counter none = pos 0
counter (some n) = n

unfoldable pub inc : IpLoadStats → Addr → IpLoadStats
unfolding load store ◌+ℤ◌
inc s ip =
    if not (is_valid ip)
    then s
    else record { counts = store ip (counter (load ip s.counts) +ℤ pos 1) s.counts }

-- A zero counter stays in the map; a missing one stays missing.
unfoldable pub dec : IpLoadStats → Addr → IpLoadStats
unfolding load store ◌-ℤ◌
dec s ip = if not (is_valid ip) then s else elim (load ip s.counts) [
  | none ↦ s
  | some n ↦ record { counts = store ip (n -ℤ pos 1) s.counts }
]

unfoldable pub get : IpLoadStats → Addr → ℤ
unfolding load
get s ip = if not (is_valid ip) then pos 0 else counter (load ip s.counts)

-- `Snapshot`: the positive counters of the valid IPs
unfoldable pub positive : Map Addr ℤ → Map Addr ℤ
positive [] = []
positive ((ip, n) ∷ m) =
    if is_valid ip
    then (if ltb_ℤ (pos 0) n then (ip, n) ∷ positive m else positive m)
    else positive m

unfoldable pub snapshot : IpLoadStats → Map Addr ℤ
unfolding positive
snapshot s = positive s.counts
