-- ===== src/Routing/Quota.antt =====
-- internal/routing/router.go: the node for a new lease, under the quota of accounts per IP, and the
-- fallback to the least exposed IP.
pub mod Fallback
pub mod Choice
use resin.Prelude.{
  ℕ, ◌+◌, zero, suc, String, Bool, true, false, ◌&&◌, ◌||◌, not, Option, none, some, List, [], ◌∷◌,
  ◌==◌, if◌then◌else◌, nat_key, ltb, ◌⊎◌, inl, inr,
}
use resin.Prelude.Int.{ℤ, pos, ltb_ℤ}
use resin.Map.{Map, load}
use resin.Netip.{Addr, addr_key, is_valid}
use resin.Node.Hash.{Hash}
use resin.Node.Entry.{NodeEntry, get_egress_ip}
use resin.Platform.{Platform, ip_quota_enabled, effective_ip_account_window_ns}
use resin.Platform.Access.{ReadOnlyView}
use resin.Routing.Load.{IpLoadStats, get}
use resin.Routing.Evaluation.{Nodes}
use resin.Routing.Random.{Floats, Reading}
use resin.Routing.Selection.{
  Picked, RouteError, no_available_nodes, LivePick, failed, vanished, live, pick_live_random_route,
  select_live_random_route,
}
use resin.Routing.Window.{
  IpAccountWindow, counts_by_ip, reserve_if_eligible, reserve_forced_fallback,
}
use resin.Routing.Window.Sweep.{count_of}

-- `ipCandidate`
pub record IpCandidate : Type 0 where
  pub ip : Addr
  pub hash : Hash
  pub count : ℕ
  pub load : ℤ

unfoldable pub is_seen : Addr → List Addr → Bool
is_seen ip [] = false
is_seen ip (x ∷ xs) = x == ip || is_seen ip xs

-- The candidate with fewer accounts, then with fewer leases.
unfoldable pub is_better : IpCandidate → IpCandidate → Bool
is_better c b = ltb c.count b.count || (c.count == b.count && ltb_ℤ c.load b.load)

unfoldable pub keep_best : Option IpCandidate → IpCandidate → Option IpCandidate
unfolding is_better
keep_best none c = some c
keep_best (some b) c = if is_better c b then some c else some b

module _ (counts : Map Addr ℕ) (stats : IpLoadStats) (nodes : Nodes) where
  unfoldable pub candidate : Hash → NodeEntry → IpCandidate
  unfolding count_of get get_egress_ip
  candidate h e =
      let ip = get_egress_ip e in
      record { ip = ip; hash = h; count = count_of counts ip; load = get stats ip }

  -- the visit of the view, with `seen` and `best`
  unfoldable pub fallback_loop : List Hash → List Addr → Option IpCandidate → Option IpCandidate
  unfolding load candidate keep_best is_seen get_egress_ip
  fallback_loop [] seen best = best
  fallback_loop (h ∷ hs) seen best = elim (load h nodes) [
    | none ↦ fallback_loop hs seen best
    | some e ↦
        let ip = get_egress_ip e in
        let skipped = fallback_loop hs seen best in
        let taken = fallback_loop hs (ip ∷ seen) (keep_best best (candidate h e)) in
        if not (is_valid ip) || is_seen ip seen then skipped else taken
  ]

unfoldable pub fallback_quota_route :
    Platform ReadOnlyView
    → IpLoadStats
    → IpAccountWindow
    → Nodes
    → String
    → ℤ
    → ℤ
    → ℕ
    → (Picked ⊎ RouteError) × IpAccountWindow
unfolding counts_by_ip fallback_loop reserve_forced_fallback
fallback_quota_route plat stats win nodes account now window max =
    let (counts, win1) = counts_by_ip win now window in
    elim (fallback_loop counts stats nodes plat.view.range [] none) [
      | none ↦ (inr (no_available_nodes none), win1)
      | some best ↦
          let (reserved, win2) = reserve_forced_fallback win1 best.ip account now window max in
          if reserved
          then (inl (record { hash = best.hash; ip = best.ip }), win2)
          else (inr (no_available_nodes none), win2)
    ]

-- What the selection for a lease leaves: the window and the nodes.
pub record Selected : Type 0 where
  pub outcome : Picked ⊎ RouteError
  pub window : IpAccountWindow
  pub nodes : Nodes

-- quotaPickAttempts
abbrev pub quota_pick_attempts : ℕ
quota_pick_attempts = 8

module _ (fl : Floats) (r : Reading) (plat : Platform ReadOnlyView) (stats : IpLoadStats) where
  abbrev window_ns : ℤ
  window_ns = effective_ip_account_window_ns plat

  unfoldable pub quota_loop :
      ℕ → ℕ → IpAccountWindow → Nodes → String → String → (ℕ → ℕ → ℕ) → Selected
  unfolding pick_live_random_route reserve_if_eligible fallback_quota_route
  quota_loop zero i win nodes account target draws =
      let (outcome, win') =
        fallback_quota_route plat stats win nodes account r.now window_ns
          plat.max_accounts_per_ip in
      record { outcome = outcome; window = win'; nodes = nodes }
  quota_loop (suc n) i win nodes account target draws =
      let (pick, nodes') = pick_live_random_route fl r plat stats nodes target (draws i) in
      elim pick [
        | failed ↦ record { outcome = inr (no_available_nodes none); window = win; nodes = nodes' }
        | vanished h ↦ quota_loop n (suc i) win nodes' account target draws
        | live p ↦
            let (reserved, win') =
              reserve_if_eligible win p.ip account r.now window_ns plat.max_accounts_per_ip in
            let again = quota_loop n (suc i) win' nodes' account target draws in
            if reserved then record { outcome = inl p; window = win'; nodes = nodes' } else again
      ]

  unfoldable pub select_route_for_lease :
      IpAccountWindow → Nodes → String → String → (ℕ → ℕ → ℕ) → Selected
  unfolding quota_loop select_live_random_route
  select_route_for_lease win nodes account target draws =
      let (outcome, nodes') = select_live_random_route fl r plat stats nodes target draws in
      if ip_quota_enabled plat
      then quota_loop quota_pick_attempts 0 win nodes account target draws
      else record { outcome = outcome; window = win; nodes = nodes' }
