-- ===== src/Topology/Pool/Soundness/Alike.antt =====
-- internal/topology/pool.go and internal/platform/platform.go: which records of a node platforms do
-- not look at.
use resin.Prelude.{
  ◌<◌, String, Bool, true, false, not, ◌&&◌, ◌||◌, Option, none, some, ◌==◌, if◌then◌else◌,
  string_key, nat_key, ◌≡◌, refl, arith, Bool-cases, inl, inr, ◌∙◌, sym, ap, subst, length,
}
use resin.Prelude.Int.{ℤ, pos}
use resin.Netip.{Addr, is_valid, addr_key}
use resin.Node.Latency.{LatencyTable, update_classified}
use resin.Node.Latency.Bounds.{update_classified_bounds}
use resin.Node.Entry.{
  NodeEntry, SubLookup, is_nil, is_circuit_open, is_healthy, has_latency, get_egress_ip,
  get_egress_region, is_disabled_by_subscriptions, match_tag_filter, set_egress_ip,
  set_egress_region,
}
use resin.Platform.{Platform}
use resin.Platform.View.{RoutableView}
use resin.Platform.Evaluation.{evaluate_node, match_region_filter}
use resin.Outbound.Build.{OutboundBuilder, with_outbound}
use resin.Topology.Pool.{PoolConfig}
use resin.Topology.Pool.Health.{apply_result, probe_attempted, apply_ip, apply_region, apply_egress}
use resin.Topology.Pool.Soundness.{HasRoom}

-- Two entries that every platform treats alike.
abbrev pub Alike : NodeEntry → NodeEntry → Type 0
Alike e e' =
    (p : Platform RoutableView) (l : Option SubLookup) (geo : Option (Addr → String))
    → evaluate_node p l geo e' ≡ evaluate_node p l geo e

module _ (x : PoolConfig) where
  circuit_shut : (e : NodeEntry) → is_circuit_open e ≡ false → e.circuit_open_since ≡ pos 0
  unfolding is_circuit_open
  circuit_shut e h = ground (arith, h)

  -- A result that leaves the circuit as it is.
  pub apply_result-Alike :
      (success : Bool) (e : NodeEntry) (now : ℤ)
      → (apply_result x e success now).2 ≡ false
      → Alike e (apply_result x e success now).0
  unfolding apply_result evaluate_node
  apply_result-Alike true e now same p l geo =
      ap
        (λ (c : ℤ).
          evaluate_node p l geo (record e { failure_count = pos 0; circuit_open_since = c }))
        (sym (circuit_shut e same))
  apply_result-Alike false e now same p l geo =
      let count = (apply_result x e false now).0.failure_count in
      ap
        (λ (opens : Bool). evaluate_node p l geo (record e {
          failure_count = count;
          circuit_open_since = if opens then now else e.circuit_open_since;
        }))
        same

  pub apply_result-HasRoom :
      (success : Bool) (e : NodeEntry) (now : ℤ)
      → HasRoom e.latency_table
      → HasRoom (apply_result x e success now).0.latency_table
  unfolding apply_result
  apply_result-HasRoom true e now h = h
  apply_result-HasRoom false e now h = h

pub probe_attempted-Alike :
    (e : NodeEntry) (is_authority : Bool) (now : ℤ) → Alike e (probe_attempted e is_authority now)
unfolding probe_attempted evaluate_node
probe_attempted-Alike e is_authority now p l geo = refl

-- A platform's judgement, by what it reads of the entry's egress and of its table.
judge :
    Platform RoutableView
    → Option SubLookup
    → Option (Addr → String)
    → NodeEntry
    → Addr
    → String
    → Bool
    → Bool
unfolding is_disabled_by_subscriptions is_healthy match_tag_filter match_region_filter
judge p l geo e ip region measured =
    not (is_disabled_by_subscriptions e l)
    && is_healthy e
    && match_tag_filter e p.regex_filters l
    && is_valid ip
    && (if is_nil p.region_filters
        then true
        else match_region_filter
            (if not (region == "")
              then region
              else elim geo [ none ↦ "" | some lookup ↦ if is_valid ip then lookup ip else "" ])
            p.region_filters)
    && measured

evaluate_node-judge :
    (p : Platform RoutableView) (l : Option SubLookup) (geo : Option (Addr → String))
    (e : NodeEntry)
    → evaluate_node p l geo e
      ≡ judge p l geo e (get_egress_ip e) (get_egress_region e) (has_latency e)
unfolding evaluate_node judge
evaluate_node-judge p l geo e = refl

-- A region that reads as before.
region-Alike :
    (e : NodeEntry) (o : Option String)
    → elim o [ none ↦ "" | some r ↦ r ] ≡ get_egress_region e
    → Alike e (record e { egress_region = o })
unfolding evaluate_node judge
region-Alike e o h p l geo =
    ap (λ (r : String). judge p l geo e (get_egress_ip e) r (has_latency e)) h

set_egress_region-stores :
    (normalize : String → String) (e : NodeEntry) (region : String)
    → set_egress_region normalize e region ≡ record e {
      egress_region = if normalize region == "" then none else some (normalize region);
    }
unfolding set_egress_region
set_egress_region-stores normalize e region = ground arith

set_egress_region-Alike :
    (normalize : String → String) (e : NodeEntry) (region : String)
    → get_egress_region e ≡ get_egress_region (set_egress_region normalize e region)
    → Alike e (set_egress_region normalize e region)
unfolding get_egress_region
set_egress_region-Alike normalize e region same =
    let stored = set_egress_region-stores normalize e region in
    let o : Option String = (if normalize region == "" then none else some (normalize region)) in
    subst (λ (t : NodeEntry). Alike e t) (sym stored)
      (region-Alike e o (sym (same ∙ ap get_egress_region stored)))

sampled-Alike : (e : NodeEntry) (now : ℤ) → Alike e (record e { last_egress_update = now })
unfolding evaluate_node
sampled-Alike e now p l geo = refl

apply_ip-kept :
    (e : NodeEntry) (ip : Addr) (now : ℤ)
    → (apply_ip e (some ip) now).1 ≡ false
    → record e { last_egress_update = now } ≡ (apply_ip e (some ip) now).0
unfolding apply_ip
apply_ip-kept e ip now same = ground arith

apply_ip-Alike :
    (e : NodeEntry) (ip : Option Addr) (now : ℤ)
    → (apply_ip e ip now).1 ≡ false
    → Alike e (apply_ip e ip now).0
unfolding apply_ip
apply_ip-Alike e none now same = λ p l geo. refl
apply_ip-Alike e (some ip) now same =
    subst (λ (t : NodeEntry). Alike e t) (apply_ip-kept e ip now same) (sampled-Alike e now)

module _ (x : PoolConfig) where
  -- A sample in a table that was not empty.
  pub sample-Alike :
      (e : NodeEntry) (t : LatencyTable) (domain : String) (latency decay now now' : ℤ)
      (is_authority : Bool)
      → let (t', was_empty, _) =
          update_classified x.formulas t domain latency decay is_authority now' in
        e.latency_table ≡ some t
        → 0 < length t.regular
        → was_empty ≡ false
        → Alike e (record (probe_attempted e is_authority now) { latency_table = some t' })
  unfolding probe_attempted evaluate_node judge
  sample-Alike e t domain latency decay now now' is_authority at room more p l geo =
      let b = update_classified_bounds x.formulas t domain latency decay now' is_authority room in
      ap (judge p l geo e (get_egress_ip e) (get_egress_region e)) (ground (arith, b, at, more))

  pub sample-HasRoom :
      (t : LatencyTable) (domain : String) (latency decay now' : ℤ) (is_authority : Bool)
      → let (t', _, _) = update_classified x.formulas t domain latency decay is_authority now' in
        0 < length t.regular → HasRoom (some t')
  sample-HasRoom t domain latency decay now' is_authority room =
      let b = update_classified_bounds x.formulas t domain latency decay now' is_authority room in
      omega (arith, room, b.1)

  apply_region-Alike :
      (e : NodeEntry) (ip : Option Addr) (loc : Option String) (ip_changed : Bool)
      → (apply_region x e ip loc ip_changed).1 ≡ false
      → Alike e (apply_region x e ip loc ip_changed).0
  unfolding apply_region
  apply_region-Alike e ip (some loc) ip_changed same =
      set_egress_region-Alike x.normalize_region e loc (ground arith)
  apply_region-Alike e none none ip_changed same = λ p l geo. refl
  apply_region-Alike e (some ip) none ip_changed same =
      elim (Bool-cases (not ip_changed || get_egress_region e == "")) [
        | inl kept ↦ rw (kept, apply_region) (λ p l geo. refl)
        | inr cleared ↦ absurd (ground (arith, cleared))
      ]

  -- A probe that changes neither the IP nor the region.
  pub apply_egress-Alike :
      (e : NodeEntry) (ip : Option Addr) (loc : Option String) (now : ℤ)
      → (apply_egress x e ip loc now).1 ≡ false
      → Alike e (apply_egress x e ip loc now).0
  unfolding apply_egress evaluate_node
  apply_egress-Alike e ip loc now same p l geo =
      let e1 = record e { last_egress_update_attempt = now } in
      let (e2, moved) = apply_ip e1 ip now in
      apply_region-Alike e2 ip loc moved (ground (arith, same)) p l geo
      ∙ apply_ip-Alike e1 ip now (ground (arith, same)) p l geo

  pub apply_egress-HasRoom :
      (e : NodeEntry) (ip : Option Addr) (loc : Option String) (now : ℤ)
      → HasRoom e.latency_table
      → HasRoom (apply_egress x e ip loc now).0.latency_table
  unfolding apply_egress apply_ip apply_region set_egress_region set_egress_ip
  apply_egress-HasRoom e none none now h = h
  apply_egress-HasRoom e none (some loc) now h = ground arith
  apply_egress-HasRoom e (some ip) none now h = ground arith
  apply_egress-HasRoom e (some ip) (some loc) now h = ground arith

-- No platform takes a node whose circuit is open.
evaluate_node-open :
    (e : NodeEntry) (p : Platform RoutableView) (l : Option SubLookup)
    (geo : Option (Addr → String))
    → is_circuit_open e ≡ true
    → evaluate_node p l geo e ≡ false
unfolding evaluate_node
evaluate_node-open e p l geo opened = elim (Bool-cases (not (is_disabled_by_subscriptions e l))) [
  | inl usable ↦ rw (usable, opened, evaluate_node) refl
  | inr disabled ↦ rw (disabled, evaluate_node) refl
]

is_circuit_open-with_outbound :
    (build : OutboundBuilder) (e : NodeEntry)
    → is_circuit_open (with_outbound build e) ≡ is_circuit_open e
unfolding with_outbound is_circuit_open
is_circuit_open-with_outbound build e = ground arith

pub with_outbound-Alike :
    (build : OutboundBuilder) (e : NodeEntry)
    → is_circuit_open e ≡ true
    → Alike e (with_outbound build e)
with_outbound-Alike build e opened p l geo =
    evaluate_node-open (with_outbound build e) p l geo
      (is_circuit_open-with_outbound build e ∙ opened)
    ∙ sym (evaluate_node-open e p l geo opened)
