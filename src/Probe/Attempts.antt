-- ===== src/Probe/Attempts.antt =====
-- internal/probe/manager.go: which nodes a scan requests, and what a probe reports to the pool.
use resin.Prelude.{
  ℕ, String, Bool, true, false, ◌&&◌, ◌||◌, not, Option, none, some, List, [], ◌∷◌, ◌++◌, ◌==◌,
  if◌then◌else◌,
}
use resin.Prelude.Int.{ℤ, pos, ◌-ℤ◌, ◌+ℤ◌, ltb_ℤ, leb_ℤ, int_key}
use resin.Map.{Map}
use resin.Netip.{Addr}
use resin.Node.Hash.{Hash}
use resin.Node.Entry.{NodeEntry, SubLookup, is_disabled_by_subscriptions, has_outbound}
use resin.Topology.Pool.{GlobalNodePool, PoolConfig, PoolEvent}
use resin.Topology.Pool.Health.{record_result, record_latency, update_node_egress_ip}
use resin.Probe.Queue.{normal}
use resin.Probe.Tasks.{ProbeManager, TaskKind, egress, latency, enqueue_probe}
use resin.Probe.Trace.{TextCalls, parse_cloudflare_trace}

-- 15 seconds
abbrev pub lookahead : ℤ
lookahead = pos 15000000000

-- `now` is not before `last` + `interval` - `lookahead`.
abbrev pub is_over : ℤ → ℤ → ℤ → Bool
is_over now last interval = leb_ℤ ((last +ℤ interval) -ℤ lookahead) now

unfoldable pub is_latency_probe_due : NodeEntry → ℤ → ℤ → ℤ → List String → Bool
is_latency_probe_due e now max_latency max_authority authorities =
    if e.last_latency_probe_attempt == pos 0
    then true
    else if is_over now e.last_latency_probe_attempt max_latency
    then true
    else elim authorities [
      | [] ↦ false
      | a ∷ others ↦
          e.last_authority_latency_probe_attempt == pos 0
          || is_over now e.last_authority_latency_probe_attempt max_authority
    ]

unfoldable pub is_egress_probe_due : NodeEntry → ℤ → ℤ → Bool
is_egress_probe_due e now interval = not (
    ltb_ℤ (pos 0) e.last_egress_update_attempt
    && not (is_over now e.last_egress_update_attempt interval))

-- The loop of a scan over the nodes that it visits before the stop.
unfoldable pub scan_nodes :
    (NodeEntry → Bool) → TaskKind → SubLookup → Map Hash NodeEntry → ProbeManager → ProbeManager
unfolding is_disabled_by_subscriptions has_outbound enqueue_probe
scan_nodes is_due kind lookup [] m = m
scan_nodes is_due kind lookup ((h, e) ∷ visited) m = scan_nodes is_due kind lookup visited (
    if is_disabled_by_subscriptions e (some lookup) || not (has_outbound e) || not (is_due e)
    then m
    else (enqueue_probe m (record { hash = h; kind = kind }) normal).0)

abbrev or_default : Option ℤ → ℤ → ℤ
or_default none d = d
or_default (some interval) d = interval

-- `interval` is what the callback says, if there is one; else 24 hours.
unfoldable pub scan_egress :
    ℤ → Option ℤ → SubLookup → Map Hash NodeEntry → ProbeManager → ProbeManager
unfolding scan_nodes is_egress_probe_due
scan_egress now interval =
    scan_nodes (λ e. is_egress_probe_due e now (or_default interval (pos 86400000000000))) egress

-- The defaults are 1 hour and 3 hours; the list is empty without a callback.
unfoldable pub scan_latency :
    ℤ
    → Option ℤ
    → Option ℤ
    → List String
    → SubLookup
    → Map Hash NodeEntry
    → ProbeManager
    → ProbeManager
unfolding scan_nodes is_latency_probe_due
scan_latency now max_latency max_authority authorities =
    scan_nodes
      (λ e.
        is_latency_probe_due e now (or_default max_latency (pos 3600000000000))
          (or_default max_authority (pos 10800000000000)) authorities)
      latency

-- What a fetch gives: the body and the latency, or an error.
abbrev pub Fetched : Type 0
Fetched = Option (String × ℤ)

module _ (x : PoolConfig) where
  -- The operations of the pool, one after the other.
  abbrev pub then_do :
      GlobalNodePool × List PoolEvent
      → (GlobalNodePool → GlobalNodePool × List PoolEvent)
      → GlobalNodePool × List PoolEvent
  then_do (g, fired) step = let (g', more) = step g in (g', fired ++ more)

  -- `clock` gives the readings of the clock in their order.
  unfoldable pub perform_latency_probe :
      GlobalNodePool → Hash → String → Fetched → (ℕ → ℤ) → GlobalNodePool × List PoolEvent
  unfolding record_result record_latency
  perform_latency_probe g h test_url fetched clock =
      let domain = x.extract_domain test_url in
      elim fetched [
        | none ↦
            then_do (record_result x g h false (clock 0))
              (λ g'. record_latency x g' h domain none (clock 1) (clock 2))
        | some (body, sample) ↦
            then_do (record_result x g h true (clock 0))
              (λ g'. record_latency x g' h domain (some sample) (clock 1) (clock 2))
      ]

  -- after a fetch: the latency, if it is positive
  unfoldable pub sample_egress :
      GlobalNodePool → Hash → ℤ → (ℕ → ℤ) → GlobalNodePool × List PoolEvent
  unfolding record_latency
  sample_egress g h sample clock =
      if ltb_ℤ (pos 0) sample
      then record_latency x g h "cloudflare.com" (some sample) (clock 1) (clock 2)
      else (g, [])

  -- what the trace says, if it could be read
  unfoldable pub report_egress :
      GlobalNodePool → Hash → Option (Addr × Option String) → ℤ → GlobalNodePool × List PoolEvent
  unfolding update_node_egress_ip
  report_egress g h none now = update_node_egress_ip x g h none none now
  report_egress g h (some (ip, loc)) now = update_node_egress_ip x g h (some ip) loc now

  abbrev read_ip : Option (Addr × Option String) → Option Addr
  read_ip none = none
  read_ip (some (ip, loc)) = some ip

  -- the pool after the egress probe, and the IP if it was read
  unfoldable pub perform_egress_probe :
      TextCalls
      → GlobalNodePool
      → Hash
      → Fetched
      → (ℕ → ℤ)
      → (GlobalNodePool × List PoolEvent) × Option Addr
  unfolding record_result sample_egress report_egress update_node_egress_ip parse_cloudflare_trace
  perform_egress_probe t g h none clock = (
    then_do (record_result x g h false (clock 0))
        (λ g'. update_node_egress_ip x g' h none none (clock 3)),
    none,
  )
  perform_egress_probe t g h (some (body, sample)) clock =
      let parsed = parse_cloudflare_trace t body in
      (
        then_do
            (then_do (record_result x g h true (clock 0)) (λ g'. sample_egress g' h sample clock))
            (λ g'. report_egress g' h parsed (clock 3)),
        read_ip parsed,
      )
