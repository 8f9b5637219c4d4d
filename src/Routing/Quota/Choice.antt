-- ===== src/Routing/Quota/Choice.antt =====
-- internal/routing/router.go: what `fallbackQuotaRoute` and `selectRouteForLease` give.
use resin.Prelude.{
  ℕ, ◌<◌, suc, zero, String, true, none, some, [], length, ◌≡◌, refl, arith, Option-cases,
  Bool-cases, inl, inr, ◌⊎◌, subst, nat_key,
}
use resin.Prelude.Int.{ℤ, ◌≤ℤ◌}
use resin.Map.{Map}
use resin.Netip.{Addr, is_valid}
use resin.Node.Hash.{Hash}
use resin.Platform.{Platform, ip_quota_enabled, effective_ip_account_window_ns}
use resin.Platform.Access.{ReadOnlyView}
use resin.Routing.Load.{IpLoadStats, get}
use resin.Routing.Evaluation.{Nodes}
use resin.Routing.Evaluation.Keeps.{KeepsEntries, KeepsEntries-trans}
use resin.Routing.Random.{Floats, Reading}
use resin.Routing.Selection.{Picked, RouteError, pick_live_random_route}
use resin.Routing.Selection.Picks.{
  Serves, Serves-KeepsEntries, LivePick-cases, IsPick, IsRoute, pick_live_random_route_lem,
  select_live_random_route_lem,
}
use resin.Routing.Quota.{
  IpCandidate, fallback_loop, fallback_quota_route, Selected, quota_loop, quota_pick_attempts,
  select_route_for_lease,
}
use resin.Routing.Quota.Fallback.{IsLowest, IsCandidate, Every, fallback_loop_lem}
use resin.Routing.Window.{
  IpAccountWindow, counts_by_ip, reserve_if_eligible, reserve_forced_fallback,
}
use resin.Routing.Window.Counting.{IsWellFormed}
use resin.Routing.Window.Admission.{recent}
use resin.Routing.Window.Sweep.{counts_by_ip_lem, count_of}
use resin.Routing.Window.Schedule.{Run, start, next, reserves, forces, counts_all, Run-trans}

-- Fewer accounts in the window, or as many and at most as many leases.
abbrev pub LessExposed : IpLoadStats → (Addr → ℕ) → Addr → Addr → Type 0
LessExposed stats accounts best ip =
    (accounts best < accounts ip)
    ⊎ ((accounts best ≡ accounts ip) × (get stats best ≤ℤ get stats ip))

abbrev pub IsServed : Platform ReadOnlyView → Nodes → Picked ⊎ RouteError → Type 0
IsServed plat nodes (inl p) = Serves plat nodes p.hash p.ip
IsServed plat nodes (inr e) = Unit

module _ (plat : Platform ReadOnlyView) (stats : IpLoadStats) (nodes : Nodes) where
  fallback_route_run :
      (win : IpAccountWindow) (account : String) (now window : ℤ) (max : ℕ)
      → Run max win (fallback_quota_route plat stats win nodes account now window max).1
  unfolding fallback_quota_route
  fallback_route_run win account now window max =
      let (counts, win1) = counts_by_ip win now window in
      elim (Option-cases (fallback_loop counts stats nodes plat.view.range [] none)) [
        | inl e ↦ rw (e, fallback_quota_route) (next start (counts_all now window))
        | inr (best, e) ↦
            let reserved = (reserve_forced_fallback win1 best.ip account now window max).0 in
            let run =
              next (next start (counts_all now window)) (forces best.ip account now window) in
            elim (Bool-cases reserved) [
              | inl holds ↦ rw (e, holds, fallback_quota_route) run
              | inr fails ↦ rw (e, fails, fallback_quota_route) run
            ]
      ]

  best_exposed :
      (accounts : Addr → ℕ) (counts : Map Addr ℕ) (b : IpCandidate) (h : Hash) (ip : Addr)
      → ((q : Addr) → count_of counts q ≡ accounts q)
      → IsCandidate counts stats nodes plat.view.range b
      → IsLowest counts stats nodes (some b) h
      → Serves plat nodes h ip
      → is_valid ip ≡ true
      → LessExposed stats accounts b.ip ip
  best_exposed accounts counts b h ip exact (o, on, v, n, l) least (o', on') v' =
      elim (least ip on' v') [
        | inl less ↦ inl (ground (arith, exact ip, exact b.ip, n))
        | inr (same, fewer) ↦
            inr (
              ground (arith, exact ip, exact b.ip, n),
              subst (λ load. load ≤ℤ get stats ip) l fewer,
            )
      ]

  -- what a fallback names
  abbrev Beats : (Addr → ℕ) → Addr → Picked ⊎ RouteError → Type 0
  Beats accounts ip (inl p) = LessExposed stats accounts p.ip ip
  Beats accounts ip (inr e) = Unit

  fallback-Beats :
      (win : IpAccountWindow) (account : String) (now window : ℤ) (max : ℕ) (h : Hash) (ip : Addr)
      → IsWellFormed win
      → Serves plat nodes h ip
      → is_valid ip ≡ true
      → Beats
          (λ q. length (recent win q now window))
          ip
          (fallback_quota_route plat stats win nodes account now window max).0
  unfolding fallback_quota_route
  fallback-Beats win account now window max h ip formed serves valid =
      let (counts, win1) = counts_by_ip win now window in
      let accounts : Addr → ℕ = λ q. length (recent win q now window) in
      let (exact, _, _, _) = counts_by_ip_lem now window win formed in
      let (candidate, least) = fallback_loop_lem counts stats nodes plat.view.range in
      elim (Option-cases (fallback_loop counts stats nodes plat.view.range [] none)) [
        | inl e ↦ rw (e, fallback_quota_route) tt
        | inr (best, e) ↦
            let genuine =
              subst (Every counts stats nodes (IsCandidate counts stats nodes plat.view.range)) e
                candidate in
            let lowest = subst (λ out. IsLowest counts stats nodes out h) e (least h serves.0) in
            elim (Bool-cases (reserve_forced_fallback win1 best.ip account now window max).0) [
              | inl holds ↦
                  rw (e, holds, fallback_quota_route)
                    (best_exposed accounts counts best h ip exact genuine lowest serves valid)
              | inr fails ↦ rw (e, fails, fallback_quota_route) tt
            ]
      ]

  -- The IP that the fallback reserves is the least exposed one: against the valid IP of any
  -- routable node of the pool it has fewer accounts in the window, or as many and at most as many
  -- leases.
  pub fallback-LessExposed :
      (win : IpAccountWindow) (account : String) (now window : ℤ) (max : ℕ) (p : Picked) (h : Hash)
      (ip : Addr)
      → IsWellFormed win
      → (fallback_quota_route plat stats win nodes account now window max).0 ≡ inl p
      → Serves plat nodes h ip
      → is_valid ip ≡ true
      → LessExposed stats (λ q. length (recent win q now window)) p.ip ip
  fallback-LessExposed win account now window max p h ip formed e serves valid =
      subst (Beats (λ q. length (recent win q now window)) ip) e
        (fallback-Beats win account now window max h ip formed serves valid)

  fallback-IsServed :
      (win : IpAccountWindow) (account : String) (now window : ℤ) (max : ℕ)
      → IsServed plat nodes (fallback_quota_route plat stats win nodes account now window max).0
  unfolding fallback_quota_route
  fallback-IsServed win account now window max =
      let (counts, win1) = counts_by_ip win now window in
      let (candidate, _) = fallback_loop_lem counts stats nodes plat.view.range in
      elim (Option-cases (fallback_loop counts stats nodes plat.view.range [] none)) [
        | inl e ↦ rw (e, fallback_quota_route) tt
        | inr (best, e) ↦
            let (o, on, _, _, _) =
              subst (Every counts stats nodes (IsCandidate counts stats nodes plat.view.range)) e
                candidate in
            elim (Bool-cases (reserve_forced_fallback win1 best.ip account now window max).0) [
              | inl holds ↦ rw (e, holds, fallback_quota_route) (o, on)
              | inr fails ↦ rw (e, fails, fallback_quota_route) tt
            ]
      ]

-- What a selection for a lease leaves.
pub record IsSelection (plat : Platform ReadOnlyView) (win : IpAccountWindow) (nodes : Nodes)
    (sel : Selected) : Type 0 where
  pub served : IsServed plat nodes sel.outcome
  pub keeps : KeepsEntries nodes sel.nodes
  pub run : Run plat.max_accounts_per_ip win sel.window

module _ (fl : Floats) (r : Reading) (plat : Platform ReadOnlyView) (stats : IpLoadStats) where
  abbrev window_ns : ℤ
  window_ns = effective_ip_account_window_ns plat

  IsServed-KeepsEntries :
      (a b : Nodes) (x : Picked ⊎ RouteError)
      → KeepsEntries a b
      → IsServed plat b x
      → IsServed plat a x
  IsServed-KeepsEntries a b (inl p) keeps w = Serves-KeepsEntries plat a b p.hash p.ip keeps w
  IsServed-KeepsEntries a b (inr e) keeps w = tt

  after :
      (win win' : IpAccountWindow) (nodes nodes' : Nodes) (sel : Selected)
      → KeepsEntries nodes nodes'
      → Run plat.max_accounts_per_ip win win'
      → IsSelection plat win' nodes' sel
      → IsSelection plat win nodes sel
  after win win' nodes nodes' sel keeps run s = record {
    served = IsServed-KeepsEntries nodes nodes' sel.outcome keeps s.served;
    keeps = KeepsEntries-trans _ _ _ keeps s.keeps;
    run = Run-trans run s.run;
  }

  quota_loop-IsSelection :
      (n i : ℕ) (win : IpAccountWindow) (nodes : Nodes) (account target : String)
      (draws : ℕ → ℕ → ℕ)
      → IsSelection plat win nodes (quota_loop fl r plat stats n i win nodes account target draws)
  unfolding quota_loop
  quota_loop-IsSelection zero i win nodes account target draws = record {
    served =
        fallback-IsServed plat stats nodes win account r.now window_ns plat.max_accounts_per_ip;
    keeps = λ q. refl;
    run = fallback_route_run plat stats nodes win account r.now window_ns plat.max_accounts_per_ip;
  }
  quota_loop-IsSelection (suc n) i win nodes account target draws =
      let (ok, keeps) = pick_live_random_route_lem fl r plat stats nodes target (draws i) in
      let nodes' = (pick_live_random_route fl r plat stats nodes target (draws i)).1 in
      elim (LivePick-cases (pick_live_random_route fl r plat stats nodes target (draws i)).0) [
        | inl e ↦ rw (quota_loop, e) (record { served = tt; keeps = keeps; run = start })
        | inr (inl (h, e)) ↦
            rw (quota_loop, e)
              (after win win nodes nodes' _ keeps start
                (quota_loop-IsSelection n (suc i) win nodes' account target draws))
        | inr (inr (p, e)) ↦
            let win' =
              (reserve_if_eligible win p.ip account r.now window_ns plat.max_accounts_per_ip).1 in
            let step = next start (reserves p.ip account r.now window_ns) in
            elim (Bool-cases
              (reserve_if_eligible win p.ip account r.now window_ns plat.max_accounts_per_ip).0) [
                | inl holds ↦
                    rw (quota_loop, e, holds)
                      (record {
                        served = subst (IsPick plat nodes) e ok;
                        keeps = keeps;
                        run = step;
                      })
                | inr fails ↦
                    rw (quota_loop, e, fails)
                      (after win win' nodes nodes' _ keeps step
                        (quota_loop-IsSelection n (suc i) win' nodes' account target draws))
              ]
      ]

  IsRoute-IsServed :
      (nodes : Nodes) (x : Picked ⊎ RouteError) → IsRoute plat nodes x → IsServed plat nodes x
  IsRoute-IsServed nodes (inl p) w = w
  IsRoute-IsServed nodes (inr e) w = tt

  -- With or without the quota, the node of a new lease is routable, in the pool, and has the
  -- lease's IP. Only latency tables change, and the window by locked method calls.
  pub select_route_for_lease_lem :
      (win : IpAccountWindow) (nodes : Nodes) (account target : String) (draws : ℕ → ℕ → ℕ)
      → IsSelection plat win nodes
          (select_route_for_lease fl r plat stats win nodes account target draws)
  unfolding select_route_for_lease
  select_route_for_lease_lem win nodes account target draws =
      elim (Bool-cases (ip_quota_enabled plat)) [
        | inl on ↦
            rw (on, select_route_for_lease)
              (quota_loop-IsSelection quota_pick_attempts 0 win nodes account target draws)
        | inr off ↦
            let (route, keeps) = select_live_random_route_lem fl r plat stats nodes target draws in
            rw (off, select_route_for_lease)
              (record { served = IsRoute-IsServed nodes _ route; keeps = keeps; run = start })
      ]
