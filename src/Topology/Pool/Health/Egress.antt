-- ===== src/Topology/Pool/Health/Egress.antt =====
-- internal/topology/pool.go: `UpdateNodeEgressIP`, by the rules that its comment states.
use resin.Prelude.{
  String, Option, none, some, ◌==◌, if◌then◌else◌, string_key, nat_key, ◌≡◌, refl, arith,
}
use resin.Prelude.Int.{ℤ}
use resin.Map.{load}
use resin.Netip.{Addr, addr_key}
use resin.Node.Hash.{Hash}
use resin.Node.Entry.{NodeEntry, get_egress_ip, set_egress_ip, get_egress_region, set_egress_region}
use resin.Topology.Pool.{GlobalNodePool, PoolConfig}
use resin.Topology.Pool.Health.{apply_ip, apply_region, apply_egress, update_node_egress_ip}
use resin.Topology.Pool.Health.Circuit.{load-put_entry}

-- The IP that is read after a probe, and the region.
abbrev pub ip_after : Addr → Option Addr → Addr
ip_after old none = old
ip_after old (some ip) = ip

abbrev pub region_after : (String → String) → Addr → String → Option Addr → Option String → String
region_after normalize old_ip old ip (some loc) = normalize loc
region_after normalize old_ip old none none = old
region_after normalize old_ip old (some ip) none = if old_ip == ip then old else ""

abbrev pub sampled_at : ℤ → Option Addr → ℤ → ℤ
sampled_at old none now = old
sampled_at old (some ip) now = now

module _ (x : PoolConfig) (e : NodeEntry) (now : ℤ) where
  get-set_egress_region :
      (r : String) (e' : NodeEntry)
      → get_egress_region (set_egress_region x.normalize_region e' r) ≡ x.normalize_region r
  unfolding get_egress_region set_egress_region
  get-set_egress_region r e' = ground arith

  apply_egress_lem :
      (ip : Option Addr) (loc : Option String)
      → x.normalize_region "" ≡ ""
      → let e' = (apply_egress x e ip loc now).0 in
        (get_egress_ip e' ≡ ip_after (get_egress_ip e) ip)
        × (get_egress_region e'
            ≡ region_after x.normalize_region (get_egress_ip e) (get_egress_region e) ip loc)
        × (e'.last_egress_update ≡ sampled_at e.last_egress_update ip now)
        × (e'.last_egress_update_attempt ≡ now)
  unfolding apply_egress apply_ip apply_region get_egress_ip get_egress_region set_egress_ip
      set_egress_region
  apply_egress_lem none none blank = (refl, refl, refl, refl)
  apply_egress_lem none (some loc) blank = (ground arith, ground arith, ground arith, ground arith)
  apply_egress_lem (some ip) none blank = (ground arith, ground arith, ground arith, ground arith)
  apply_egress_lem (some ip) (some loc) blank =
      (ground arith, ground arith, ground arith, ground arith)

-- A probe of a node of the pool leaves an entry that reads as: the IP of the probe, or the old one
-- without; the normalized location, or without one the old region if there was no IP or it did not
-- change, and no region if the IP changed; the time of the attempt, and of the sample if an IP came.
pub update_node_egress_ip_lem :
    (x : PoolConfig) (g : GlobalNodePool) (h : Hash) (e : NodeEntry) (ip : Option Addr)
    (loc : Option String) (now : ℤ)
    → load h g.nodes ≡ some e
    → x.normalize_region "" ≡ ""
    → (e' : NodeEntry) × (load h (update_node_egress_ip x g h ip loc now).0.nodes ≡ some e')
      × (get_egress_ip e' ≡ ip_after (get_egress_ip e) ip)
      × (get_egress_region e'
          ≡ region_after x.normalize_region (get_egress_ip e) (get_egress_region e) ip loc)
      × (e'.last_egress_update ≡ sampled_at e.last_egress_update ip now)
      × (e'.last_egress_update_attempt ≡ now)
unfolding update_node_egress_ip
update_node_egress_ip_lem x g h e ip loc now found blank =
    let (e', changed) = apply_egress x e ip loc now in
    let (same_ip, same_region, sampled, attempted) = apply_egress_lem x e now ip loc blank in
    (
      e',
      rw (found, update_node_egress_ip) (load-put_entry x g h e' changed),
      same_ip,
      same_region,
      sampled,
      attempted,
    )
