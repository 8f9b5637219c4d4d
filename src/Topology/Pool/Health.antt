-- ===== src/Topology/Pool/Health.antt =====
-- internal/topology/pool.go: what probes and traffic record about a node. The clock's readings are
-- arguments.
pub mod Circuit
pub mod Egress
use resin.Prelude.{
  ℕ, String, Bool, true, false, not, ◌&&◌, ◌||◌, Option, none, some, List, [], ◌∷◌, ◌++◌, ◌==◌,
  if◌then◌else◌, string_key, nat_key,
}
use resin.Prelude.Int.{ℤ, pos, ◌+ℤ◌, ltb_ℤ, leb_ℤ, wrap32, int_key}
use resin.Map.{load, store}
use resin.Netip.{Addr, addr_key}
use resin.Node.Hash.{Hash}
use resin.Node.Latency.{LatencyTable, update_classified}
use resin.Node.Entry.{
  NodeEntry, is_circuit_open, get_egress_ip, set_egress_ip, get_egress_region, set_egress_region,
}
use resin.Topology.Pool.{
  GlobalNodePool, PoolConfig, PoolEvent, node_dynamic_changed, node_latency_changed, fires,
  notify_all_platforms_dirty,
}

module _ (x : PoolConfig) where
  -- the entry after a result; whether its dynamic state changed, and its circuit
  unfoldable pub apply_result : NodeEntry → Bool → ℤ → NodeEntry × Bool × Bool
  unfolding is_circuit_open wrap32 ◌+ℤ◌
  apply_result e true now =
      let open_before = is_circuit_open e in
      (
        record e { failure_count = pos 0; circuit_open_since = pos 0 },
        not (e.failure_count == pos 0) || open_before,
        open_before,
      )
  apply_result e false now =
      let new_count = wrap32 (e.failure_count +ℤ pos 1) in
      let limit = x.max_consecutive_failures in
      let opens = ltb_ℤ (pos 0) limit && leb_ℤ limit new_count && not (is_circuit_open e) in
      (
        record e {
          failure_count = new_count;
          circuit_open_since = if opens then now else e.circuit_open_since;
        },
        true,
        opens,
      )

  -- the entry stored, and the platforms told of it if the test says so
  unfoldable pub put_entry : GlobalNodePool → Hash → NodeEntry → Bool → GlobalNodePool
  unfolding store notify_all_platforms_dirty
  put_entry g h e notify =
      let g' = record g { nodes = store h e g.nodes } in
      if notify then notify_all_platforms_dirty x g' h else g'

  unfoldable pub record_result : GlobalNodePool → Hash → Bool → ℤ → GlobalNodePool × List PoolEvent
  unfolding load apply_result put_entry
  record_result g h success now = elim (load h g.nodes) [
    | none ↦ (g, [])
    | some e ↦
        let (e', dynamic_changed, circuit_changed) = apply_result e success now in
        (
          put_entry g h e' circuit_changed,
          fires (dynamic_changed && x.on_node_dynamic_changed) (node_dynamic_changed h),
        )
  ]

unfoldable pub passive_circuit_breaker_disabled : GlobalNodePool → String → Bool
unfolding load
passive_circuit_breaker_disabled g id =
    if id == "" then false else elim (load id g.platform_by_id) [
      | none ↦ false
      | some r ↦ elim (load r g.platforms) [
        | none ↦ false
        | some p ↦ p.passive_circuit_breaker_disabled
      ]
    ]

unfoldable pub is_listed : (String → String → Bool) → String → List String → Bool
is_listed same domain [] = false
is_listed same domain (authority ∷ rest) = same authority domain || is_listed same domain rest

unfoldable pub probe_attempted : NodeEntry → Bool → ℤ → NodeEntry
probe_attempted e is_authority now = record e {
  last_latency_probe_attempt = now;
  last_authority_latency_probe_attempt =
      if is_authority then now else e.last_authority_latency_probe_attempt;
}

-- the sample to record, if there is one, and the table that takes it
unfoldable pub sample_of : Option ℤ → Option LatencyTable → Option (ℤ × LatencyTable)
sample_of none table = none
sample_of (some latency) none = none
sample_of (some latency) (some t) = if leb_ℤ latency (pos 0) then none else some (latency, t)

abbrev evicted_event : Hash → Option String → List PoolEvent
evicted_event h none = []
evicted_event h (some domain) = node_latency_changed h domain ∷ []

unfoldable pub apply_ip : NodeEntry → Option Addr → ℤ → NodeEntry × Bool
unfolding get_egress_ip set_egress_ip
apply_ip e none now = (e, false)
apply_ip e (some ip) now =
    let e' = record e { last_egress_update = now } in
    if get_egress_ip e == ip then (e', false) else (set_egress_ip e' ip, true)

module _ (x : PoolConfig) where
  unfoldable pub record_passive_result :
      GlobalNodePool → String → Hash → Bool → ℤ → GlobalNodePool × List PoolEvent
  unfolding passive_circuit_breaker_disabled record_result
  record_passive_result g id h success now =
      if success || not (passive_circuit_breaker_disabled g id)
      then record_result x g h success now
      else (g, [])

  unfoldable pub is_authority_domain : String → Bool
  unfolding is_listed
  is_authority_domain domain = if domain == "" then false else elim x.latency_authorities [
    | none ↦ false
    | some authorities ↦ is_listed x.is_same_authority domain authorities
  ]

  -- 30 seconds if it is not set
  unfoldable pub decay_window : ℤ
  decay_window = elim x.latency_decay_window [
    | none ↦ pos 30000000000
    | some w ↦ if leb_ℤ w (pos 0) then pos 30000000000 else w
  ]

  -- `now'` is the table's own reading of the clock.
  unfoldable pub record_latency :
      GlobalNodePool → Hash → String → Option ℤ → ℤ → ℤ → GlobalNodePool × List PoolEvent
  unfolding load is_authority_domain decay_window probe_attempted sample_of update_classified
      put_entry
  record_latency g h raw_target latency now now' = elim (load h g.nodes) [
    | none ↦ (g, [])
    | some e ↦
        let domain = x.extract_domain raw_target in
        let is_authority = is_authority_domain domain in
        let e' = probe_attempted e is_authority now in
        let dynamic = fires x.on_node_dynamic_changed (node_dynamic_changed h) in
        elim (sample_of latency e.latency_table) [
          | none ↦ (put_entry x g h e' false, dynamic)
          | some (sample, t) ↦
              let (t', was_empty, evicted) =
                update_classified x.formulas t domain sample decay_window is_authority now' in
              (
                put_entry x g h (record e' { latency_table = some t' }) was_empty,
                dynamic
                    ++ (if x.on_node_latency_changed
                        then node_latency_changed h domain ∷ evicted_event h evicted
                        else []),
              )
        ]
  ]

  -- the `switch` over the location
  unfoldable pub apply_region : NodeEntry → Option Addr → Option String → Bool → NodeEntry × Bool
  unfolding get_egress_region set_egress_region
  apply_region e ip (some loc) ip_changed =
      let e' = set_egress_region x.normalize_region e loc in
      (e', not (get_egress_region e == get_egress_region e'))
  apply_region e none none ip_changed = (e, false)
  apply_region e (some ip) none ip_changed =
      if not ip_changed || get_egress_region e == ""
      then (e, false)
      else (set_egress_region x.normalize_region e "", true)

  -- the entry after a probe; whether its IP or its region changed
  unfoldable pub apply_egress : NodeEntry → Option Addr → Option String → ℤ → NodeEntry × Bool
  unfolding apply_ip apply_region
  apply_egress e ip loc now =
      let (e', ip_changed) = apply_ip (record e { last_egress_update_attempt = now }) ip now in
      let (e'', region_changed) = apply_region e' ip loc ip_changed in
      (e'', ip_changed || region_changed)

  unfoldable pub update_node_egress_ip :
      GlobalNodePool → Hash → Option Addr → Option String → ℤ → GlobalNodePool × List PoolEvent
  unfolding load apply_egress put_entry
  update_node_egress_ip g h ip loc now = elim (load h g.nodes) [
    | none ↦ (g, [])
    | some e ↦
        let (e', changed) = apply_egress e ip loc now in
        (put_entry x g h e' changed, fires x.on_node_dynamic_changed (node_dynamic_changed h))
  ]
