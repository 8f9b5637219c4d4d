-- ===== src/Routing/Selection.antt =====
-- internal/routing/router.go: picking a node that is still in the pool, and the choice of a node
-- with a given egress IP. `draws i k` is the k-th random number of the i-th pick.
pub mod Picks
pub mod Rotation
use resin.Prelude.{
  ℕ, ◌+◌, ◌-◌, ◌⊎◌, inl, inr, zero, suc, String, Bool, true, false, ◌&&◌, not, Option, none, some,
  List, [], ◌∷◌, ◌==◌, if◌then◌else◌, nat_key,
}
use resin.Prelude.Int.{ℤ, pos, ltb_ℤ, int_bound}
use resin.Map.{load}
use resin.Netip.{Addr, addr_key}
use resin.Node.Hash.{Hash, zero_hash}
use resin.Node.Entry.{NodeEntry, get_egress_ip}
use resin.Platform.{Platform}
use resin.Platform.Access.{ReadOnlyView}
use resin.Routing.Load.{IpLoadStats}
use resin.Routing.Evaluation.{Nodes, lookup_recent_domain_latency, average_recent_authority_latency}
use resin.Routing.Random.{Floats, Reading, random_route}

-- ErrNoAvailableNodes, with the node that the last pick named and the pool no longer had
pub data RouteError : Type 0 where
  no_available_nodes : Option Hash → RouteError
  platform_not_found : RouteError

-- A node and the egress IP of its entry.
pub record Picked : Type 0 where
  pub hash : Hash
  pub ip : Addr

pub data LivePick : Type 0 where
  failed : LivePick
  vanished : Hash → LivePick
  live : Picked → LivePick

-- livePickAttempts: first pick and one retry
abbrev pub live_pick_attempts : ℕ
live_pick_attempts = 2

module _ (fl : Floats) (r : Reading) where
  unfoldable pub pick_live_random_route :
      Platform ReadOnlyView → IpLoadStats → Nodes → String → (ℕ → ℕ) → LivePick × Nodes
  unfolding random_route load get_egress_ip
  pick_live_random_route plat stats nodes target draws =
      let (picked, nodes') = random_route fl r plat stats nodes target draws in
      elim picked [
        | none ↦ (failed, nodes')
        | some h ↦ elim (load h nodes') [
          | none ↦ (vanished h, nodes')
          | some e ↦ (live (record { hash = h; ip = get_egress_ip e }), nodes')
        ]
      ]

  -- the rounds left, and `lastMissing`
  unfoldable pub select_live_loop :
      ℕ
      → ℕ
      → Hash
      → Platform ReadOnlyView
      → IpLoadStats
      → Nodes
      → String
      → (ℕ → ℕ → ℕ)
      → (Picked ⊎ RouteError) × Nodes
  unfolding pick_live_random_route
  select_live_loop zero i missing plat stats nodes target draws =
      (inr (no_available_nodes (if missing == zero_hash then none else some missing)), nodes)
  select_live_loop (suc n) i missing plat stats nodes target draws =
      let (pick, nodes') = pick_live_random_route plat stats nodes target (draws i) in
      let again = λ (h : Hash). select_live_loop n (suc i) h plat stats nodes' target draws in
      elim pick [
        | failed ↦ (inr (no_available_nodes none), nodes')
        | vanished h ↦ again h
        | live p ↦ (inl p, nodes')
      ]

  unfoldable pub select_live_random_route :
      Platform ReadOnlyView
      → IpLoadStats
      → Nodes
      → String
      → (ℕ → ℕ → ℕ)
      → (Picked ⊎ RouteError) × Nodes
  unfolding select_live_loop
  select_live_random_route = select_live_loop live_pick_attempts 0 zero_hash

-- bestKnownHash, bestKnownLatency and fallbackHash
pub record Best : Type 0 where
  pub known : Hash
  pub latency : ℤ
  pub fallback : Hash

abbrev pub improve : Best → Hash → Option ℤ → Best
improve b h none = b
improve b h (some l) = if ltb_ℤ l b.latency then record b { known = h; latency = l } else b

abbrev pub fall_back : Best → Hash → Best
fall_back b h = if b.fallback == zero_hash then record b { fallback = h } else b

-- the node has an entry with the target IP
unfoldable pub is_on_ip : Addr → Option NodeEntry → Bool
unfolding get_egress_ip
is_on_ip ip none = false
is_on_ip ip (some e) = get_egress_ip e == ip

module _ (r : Reading) where
  unfoldable pub same_ip_candidate_latency : Nodes → Hash → String → Option ℤ × Nodes
  unfolding lookup_recent_domain_latency average_recent_authority_latency
  same_ip_candidate_latency nodes h target =
      let (latency, nodes') =
        lookup_recent_domain_latency r.formulas r.now r.window nodes h target in
      elim latency [
        | some l ↦ (some l, nodes')
        | none ↦ average_recent_authority_latency r.formulas r.now r.window nodes' h r.authorities
      ]

  unfoldable pub rotation_loop : List Hash → Addr → String → Nodes → Best → Best × Nodes
  unfolding same_ip_candidate_latency load is_on_ip
  rotation_loop [] ip target nodes b = (b, nodes)
  rotation_loop (h ∷ hs) ip target nodes b =
      let (latency, nodes') = same_ip_candidate_latency nodes h target in
      let next : Best × Nodes =
        (if is_on_ip ip (load h nodes)
          then (improve (fall_back b h) h latency, nodes')
          else (b, nodes)) in
      rotation_loop hs ip target next.1 next.0

  unfoldable pub choose_same_ip_rotation_candidate :
      Platform ReadOnlyView → Nodes → Addr → String → Option Hash × Nodes
  unfolding rotation_loop
  choose_same_ip_rotation_candidate plat nodes ip target =
      let start : Best = record {
        known = zero_hash;
        latency = pos (int_bound - 1);
        fallback = zero_hash;
      } in
      let (b, nodes') = rotation_loop plat.view.range ip target nodes start in
      (
        (if not (b.known == zero_hash)
            then some b.known
            else if not (b.fallback == zero_hash)
            then some b.fallback
            else none),
        nodes',
      )
