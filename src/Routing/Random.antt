-- ===== src/Routing/Random.antt =====
-- internal/routing/random.go: the choice between two random nodes. A request's random numbers are
-- given beforehand: `draws k` is the k-th number that this call draws. Scores are `float64` numbers
-- in the source; their type and operations are a parameter.
pub mod Choice
use resin.Prelude.{
  ℕ, ◌+◌, zero, suc, String, Bool, true, false, ◌&&◌, Option, none, some, List, [], ◌∷◌, ◌==◌,
  if◌then◌else◌, nat_key, ◌≡◌,
}
use resin.Prelude.Int.{ℤ, pos, ◌+ℤ◌, leb_ℤ}
use resin.Map.{load}
use resin.Netip.{is_valid}
use resin.Node.Hash.{Hash}
use resin.Node.Latency.{Formulas}
use resin.Node.Entry.{NodeEntry, get_egress_ip}
use resin.Platform.{Platform, AllocationPolicy, balanced, prefer_low_latency, prefer_idle_ip}
use resin.Platform.Access.{ReadOnlyView}
use resin.Routing.Load.{IpLoadStats, get}
use resin.Routing.Evaluation.{
  Nodes, table_of, lookup_recent_domain_latency, average_comparable_authority_latencies,
}

pub record Floats : Type 1 where
  pub F : Type 0
  -- float64(n)
  pub of_int : ℤ → F
  pub mul : F → F → F
  pub less : F → F → Bool

-- What a request reads besides the state: the formulas, the authorities, the window of the
-- comparison, and the time.
pub record Reading : Type 0 where
  pub formulas : Formulas
  pub authorities : List String
  pub window : ℤ
  pub now : ℤ

-- both recent latencies to the target, else both averages, else 0 for both
unfoldable pub best_comparison :
    Option ℤ → Option ℤ → Nodes → Option (ℤ × ℤ) → Nodes → (ℤ × ℤ) × Nodes
best_comparison (some l1) (some l2) read average averaged = ((l1, l2), read)
best_comparison (some l1) none read none averaged = ((pos 0, pos 0), averaged)
best_comparison (some l1) none read (some a) averaged = (a, averaged)
best_comparison none l2 read none averaged = ((pos 0, pos 0), averaged)
best_comparison none l2 read (some a) averaged = (a, averaged)

module _ (r : Reading) where
  -- Both latencies, or 0 for both.
  unfoldable pub compare_latencies : Nodes → Hash → Hash → String → (ℤ × ℤ) × Nodes
  unfolding load table_of lookup_recent_domain_latency best_comparison
      average_comparable_authority_latencies
  compare_latencies nodes h1 h2 target = elim (table_of (load h1 nodes)) [
    | none ↦ ((pos 0, pos 0), nodes)
    | some t1 ↦ elim (table_of (load h2 nodes)) [
      | none ↦ ((pos 0, pos 0), nodes)
      | some t2 ↦
          let (lat1, nodes1) =
            lookup_recent_domain_latency r.formulas r.now r.window nodes h1 target in
          let (lat2, nodes2) =
            lookup_recent_domain_latency r.formulas r.now r.window nodes1 h2 target in
          let (average, nodes3) =
            average_comparable_authority_latencies r.formulas r.now r.window nodes2 h1 h2
              r.authorities in
          best_comparison lat1 lat2 nodes2 average nodes3
    ]
  ]

-- the leases on the node's IP; 0 for a node that is gone or has no IP
unfoldable pub lease_count : Option NodeEntry → IpLoadStats → ℤ
unfolding get_egress_ip
lease_count none stats = pos 0
lease_count (some e) stats =
    if is_valid (get_egress_ip e) then get stats (get_egress_ip e) else pos 0

abbrev pub is_int : ℕ → ℤ → Bool
is_int n (pos m) = m == n
is_int n (ℤ.negsuc m) = false

-- up to `n` more picks for a node other than `h1`
unfoldable pub retry_pick : (ℕ → Option Hash) → Hash → ℕ → ℕ → Hash
retry_pick pick h1 zero k = h1
retry_pick pick h1 (suc n) k =
    let again = retry_pick pick h1 n (suc k) in
    elim (pick k) [ none ↦ h1 | some candidate ↦ if candidate == h1 then again else candidate ]

module _ (fl : Floats) where
  open fl use {F, of_int, mul, less}

  unfoldable pub score_by : AllocationPolicy → ℤ → ℤ → F
  unfolding ◌+ℤ◌
  score_by prefer_low_latency leases latency = of_int latency
  score_by prefer_idle_ip leases latency = of_int leases
  score_by balanced leases latency = mul (of_int (leases +ℤ pos 1)) (of_int latency)

  unfoldable pub calculate_score : Nodes → Hash → ℤ → Platform ReadOnlyView → IpLoadStats → F
  unfolding load lease_count score_by
  calculate_score nodes h latency plat stats =
      let leases = lease_count (load h nodes) stats in
      if leb_ℤ latency (pos 0)
      then of_int leases
      else score_by plat.allocation_policy leases latency

  module _ (r : Reading) where
    -- the lower score; `h2` on a tie
    unfoldable pub better_of :
        Platform ReadOnlyView → IpLoadStats → Nodes → String → Hash → Hash → Hash × Nodes
    unfolding compare_latencies calculate_score
    better_of plat stats nodes target h1 h2 =
        let ((lat1, lat2), nodes') = compare_latencies r nodes h1 h2 target in
        let s1 = calculate_score nodes' h1 lat1 plat stats in
        let s2 = calculate_score nodes' h2 lat2 plat stats in
        (if less s1 s2 then h1 else h2, nodes')

    unfoldable pub compare_picks :
        Platform ReadOnlyView → IpLoadStats → Nodes → String → Hash → Hash → Option Hash × Nodes
    unfolding better_of
    compare_picks plat stats nodes target h1 h2 =
        let (h, nodes') = better_of plat stats nodes target h1 h2 in
        elim (h2 == h1) [ true ↦ (some h1, nodes) | false ↦ (some h, nodes') ]

    -- `none` is ErrNoAvailableNodes
    unfoldable pub random_route :
        Platform ReadOnlyView → IpLoadStats → Nodes → String → (ℕ → ℕ) → Option Hash × Nodes
    unfolding retry_pick compare_picks
    random_route plat stats nodes target draws =
        let pick = λ (k : ℕ). plat.view.random_pick (draws k) in
        if is_int 0 plat.view.size then (none, nodes) else elim (pick 0) [
          | none ↦ (none, nodes)
          | some h1 ↦ if is_int 1 plat.view.size then (some h1, nodes) else elim (pick 1) [
            | none ↦ (some h1, nodes)
            | some h2 ↦
                compare_picks plat stats nodes target h1
                  (if h2 == h1 then retry_pick pick h1 3 2 else h2)
          ]
        ]
