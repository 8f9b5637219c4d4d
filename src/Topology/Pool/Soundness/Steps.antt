-- ===== src/Topology/Pool/Soundness/Steps.antt =====
-- internal/topology/pool.go: whatever the program does with the pool, in any order. Each operation
-- is one step, an adding or a replacing of a platform with its rebuild too.
use resin.Prelude.{
  ℕ, ◌<◌, String, Bool, true, Option, none, some, ◌≡◌, ◌≢◌, arith, nat_key, string_key,
}
use resin.Prelude.Int.{ℤ}
use resin.Map.{load}
use resin.Netip.{Addr}
use resin.Node.Hash.{Hash}
use resin.Node.Entry.{NodeEntry, is_circuit_open}
use resin.Platform.{Platform}
use resin.Platform.View.{RoutableView, new_routable_view}
use resin.Outbound.Build.{OutboundBuilder}
use resin.Outbound.Manager.{ensure_node_outbound}
use resin.Topology.Pool.{
  GlobalNodePool, PoolConfig, add_node_from_sub, remove_node_from_sub, rebuild_all_platforms,
  rebuild_platform,
}
use resin.Topology.Pool.Directory.{
  register_platform, unregister_platform, replace_platform, get_platform, get_platform_by_name,
}
use resin.Topology.Pool.Health.{
  record_result, record_passive_result, record_latency, update_node_egress_ip,
}
use resin.Probe.Attempts.{
  Fetched, perform_latency_probe, perform_egress_probe, sample_egress, report_egress,
}
use resin.Probe.Trace.{TextCalls, parse_cloudflare_trace}
use resin.Topology.Cleanup.{has_hash}
use resin.Prelude.{if_cases, [], ◌∷◌, false, List, true, false, Bool}
use resin.Prelude.Int.{ltb_ℤ, pos}
use resin.Topology.Pool.{PoolEvent}
use resin.Topology.Pool.Soundness.{IsLoaded, IsSound, rebuild_all-IsSound}
use resin.Topology.Pool.Soundness.Nodes.{
  result-IsSound, passive-IsSound, egress-IsSound, latency-IsSound, add-IsSound, remove-IsSound,
  ensure-IsSound, ensure_late-IsSound,
}
use resin.Topology.Pool.Soundness.Platforms.{
  allocate, unregister-IsSound, create-IsSound, replace-IsSound,
}

-- One operation, under a configuration `x` and on a pool `g`. A latency table has a positive bound,
-- as its constructor demands; a platform object is new, with an empty view; and a platform is created
-- under a name that no registered one has, as the names in the database are unique.
pub data Step (x : PoolConfig) (g : GlobalNodePool) : GlobalNodePool → Type 0 where
  adds :
      (h : Hash) (raw sub : String) (now : ℤ)
      → 0 < x.max_latency_table_entries
      → Step x g (add_node_from_sub x g h raw sub now).0
  removes : (h : Hash) (sub : String) → Step x g (remove_node_from_sub x g h sub).0
  records_result :
      (h : Hash) (success : Bool) (now : ℤ) → Step x g (record_result x g h success now).0
  records_passive_result :
      (id : String) (h : Hash) (success : Bool) (now : ℤ)
      → Step x g (record_passive_result x g id h success now).0
  records_latency :
      (h : Hash) (raw_target : String) (latency : Option ℤ) (now now' : ℤ)
      → Step x g (record_latency x g h raw_target latency now now').0
  updates_egress_ip :
      (h : Hash) (ip : Option Addr) (loc : Option String) (now : ℤ)
      → Step x g (update_node_egress_ip x g h ip loc now).0
  probes_latency :
      (h : Hash) (test_url : String) (fetched : Fetched) (clock : ℕ → ℤ)
      → Step x g (perform_latency_probe x g h test_url fetched clock).0
  probes_egress :
      (t : TextCalls) (h : Hash) (fetched : Fetched) (clock : ℕ → ℤ)
      → Step x g (perform_egress_probe x t g h fetched clock).0.0
  -- for a node that has not passed a probe
  ensures_outbound :
      (build : OutboundBuilder) (h : Hash) (e : NodeEntry)
      → load h g.nodes ≡ some e
      → is_circuit_open e ≡ true
      → Step x g (ensure_node_outbound build g h)
  creates :
      (r : ℕ) (p : Platform RoutableView)
      → load r g.platforms ≡ none
      → p.view ≡ new_routable_view
      → load p.name g.platform_by_name ≡ none
      → Step x g (register_platform (rebuild_platform x (allocate g r p) r) r p)
  unregisters : (id : String) → Step x g (unregister_platform g id)
  replaces :
      (r : ℕ) (p : Platform RoutableView)
      → load r g.platforms ≡ none
      → p.view ≡ new_routable_view
      → Step x g (replace_platform x (allocate g r p) (some (r, p))).0

-- A run with the nodes that are late: those whose outbound was built outside `AddNodeFromSub` while
-- the circuit was closed, which the platforms are not told, since all of them were last rebuilt, as
-- they are when subscriptions change what they say of nodes.
pub data Run (x : PoolConfig) (g : GlobalNodePool)
    : PoolConfig → GlobalNodePool → List Hash → Type 0 where
  start : Run x g x g []
  next :
      {x' : PoolConfig} {g' g'' : GlobalNodePool} {late : List Hash}
      → Run x g x' g' late
      → Step x' g' g''
      → Run x g x' g'' late
  builds_late :
      {x' : PoolConfig} {g' : GlobalNodePool} {late : List Hash} (build : OutboundBuilder)
      (h : Hash)
      → Run x g x' g' late
      → Run x g x' (ensure_node_outbound build g' h) (h ∷ late)
  reconfigures :
      {x' : PoolConfig} {g' : GlobalNodePool} {late : List Hash} (x'' : PoolConfig)
      → Run x g x' g' late
      → Run x g x'' (rebuild_all_platforms x'' g') []

abbrev pub is_late : List Hash → Hash → Bool
is_late late q = has_hash q late

module _ {late : Hash → Bool} (x : PoolConfig) (g : GlobalNodePool) (k : IsSound late x g) where
  latency_probe-IsSound :
      (h : Hash) (test_url : String) (fetched : Fetched) (clock : ℕ → ℤ)
      → IsSound late x (perform_latency_probe x g h test_url fetched clock).0
  unfolding perform_latency_probe
  latency_probe-IsSound h test_url none clock =
      latency-IsSound x _ (result-IsSound x g k h false (clock 0)) h _ none (clock 1) (clock 2)
  latency_probe-IsSound h test_url (some (body, sample)) clock =
      latency-IsSound x _ (result-IsSound x g k h true (clock 0)) h _ (some sample) (clock 1)
        (clock 2)

  sample-IsSound :
      (h : Hash) (sample : ℤ) (clock : ℕ → ℤ) → IsSound late x (sample_egress x g h sample clock).0
  unfolding sample_egress
  sample-IsSound h sample clock =
      if_cases (λ (r : GlobalNodePool × List PoolEvent). IsSound late x r.0) (ltb_ℤ (pos 0) sample)
        (λ _. latency-IsSound x g k h "cloudflare.com" (some sample) (clock 1) (clock 2)) (λ _. k)

  report-IsSound :
      (h : Hash) (parsed : Option (Addr × Option String)) (now : ℤ)
      → IsSound late x (report_egress x g h parsed now).0
  unfolding report_egress
  report-IsSound h none now = egress-IsSound x g k h none none now
  report-IsSound h (some (ip, loc)) now = egress-IsSound x g k h (some ip) loc now

module _ {late : Hash → Bool} (x : PoolConfig) (g : GlobalNodePool) (k : IsSound late x g) where
  egress_probe-IsSound :
      (t : TextCalls) (h : Hash) (fetched : Fetched) (clock : ℕ → ℤ)
      → IsSound late x (perform_egress_probe x t g h fetched clock).0.0
  unfolding perform_egress_probe
  egress_probe-IsSound t h none clock =
      egress-IsSound x _ (result-IsSound x g k h false (clock 0)) h none none (clock 3)
  egress_probe-IsSound t h (some (body, sample)) clock =
      let up = result-IsSound x g k h true (clock 0) in
      report-IsSound x _ (sample-IsSound x _ up h sample clock) h (parse_cloudflare_trace t body)
        (clock 3)

pub Step-IsSound :
    {late : Hash → Bool} {x : PoolConfig} {g g' : GlobalNodePool}
    → Step x g g'
    → IsSound late x g
    → IsSound late x g'
Step-IsSound {x = x} {g = g} (adds h raw sub now room) k = add-IsSound x g k h raw sub now room
Step-IsSound {x = x} {g = g} (removes h sub) k = remove-IsSound x g k h sub
Step-IsSound {x = x} {g = g} (records_result h success now) k = result-IsSound x g k h success now
Step-IsSound {x = x} {g = g} (records_passive_result id h success now) k =
    passive-IsSound x g k id h success now
Step-IsSound {x = x} {g = g} (records_latency h raw_target latency now now') k =
    latency-IsSound x g k h raw_target latency now now'
Step-IsSound {x = x} {g = g} (updates_egress_ip h ip loc now) k = egress-IsSound x g k h ip loc now
Step-IsSound {x = x} {g = g} (probes_latency h test_url fetched clock) k =
    latency_probe-IsSound x g k h test_url fetched clock
Step-IsSound {x = x} {g = g} (probes_egress t h fetched clock) k =
    egress_probe-IsSound x g k t h fetched clock
Step-IsSound {x = x} {g = g} (ensures_outbound build h e found opened) k =
    ensure-IsSound x g k build h e found opened
Step-IsSound {x = x} {g = g} (creates r p free fresh unnamed) k =
    create-IsSound x g k r free p fresh unnamed
Step-IsSound {x = x} {g = g} (unregisters id) k = unregister-IsSound x g k id
Step-IsSound {x = x} {g = g} (replaces r p free fresh) k = replace-IsSound x g k r free p fresh

pub Run-IsSound :
    {x : PoolConfig} {g : GlobalNodePool} {x' : PoolConfig} {g' : GlobalNodePool} {late : List Hash}
    → IsSound (is_late []) x g
    → Run x g x' g' late
    → IsSound (is_late late) x' g'
unfolding has_hash
Run-IsSound k start = k
Run-IsSound k (next r s) = Step-IsSound s (Run-IsSound k r)
Run-IsSound k (builds_late {x'} {g'} build h r) =
    ensure_late-IsSound x' g' (Run-IsSound k r) h
      (λ q on_time. (ground (arith, on_time), ground (arith, on_time))) build
Run-IsSound k (reconfigures {g' = g'} x'' r) =
    rebuild_all-IsSound x'' g' (Run-IsSound k r).loaded (is_late [])

-- From a loaded pool whose platforms were all rebuilt, after any run of the operations, where latency
-- tables have a positive bound, and a platform is new and empty when it comes to the pool and is
-- created under a name that no registered one has, the two directories agree: an ID and a name lead
-- to objects of that ID and that name, a name only to an object that its own ID leads to as well, and
-- a registered object with a name is found by its name.
pub directories_agree :
    (x x' : PoolConfig) (g g' : GlobalNodePool) (late : List Hash) (r : ℕ)
    (p : Platform RoutableView)
    → IsLoaded g
    → Run x (rebuild_all_platforms x g) x' g' late
    → load r g'.platforms ≡ some p
    → ((id : String) → get_platform g' id ≡ some r → p.id ≡ id)
      × ((name : String)
          → get_platform_by_name g' name ≡ some r
          → (p.name ≡ name) × (get_platform g' p.id ≡ some r))
      × (get_platform g' p.id ≡ some r → p.name ≢ "" → get_platform_by_name g' p.name ≡ some r)
unfolding get_platform get_platform_by_name
directories_agree x x' g g' late r p k run found =
    let a = (Run-IsSound (rebuild_all-IsSound x g k (is_late [])) run).loaded.agree in
    (
      λ id at. ground (arith, found, a.by_id id r at),
      λ name at. ground (arith, found, a.by_name name r at),
      λ at named. a.named p.id p.name r at (ground (arith, found)) named,
    )
