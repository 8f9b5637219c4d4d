-- ===== src/Routing/Selection/Picks.antt =====
-- internal/routing/router.go: what `pickLiveRandomRoute` and `selectLiveRandomRoute` give.
use resin.Prelude.{
  ℕ, suc, zero, String, none, some, ◌==◌, nat_key, ◌≡◌, refl, arith, Option-cases, Bool-cases, inl,
  inr, ◌⊎◌, ◌<◌, length, ap, subst, ◌∙◌,
}
use resin.Map.{load}
use resin.Netip.{Addr}
use resin.Node.Hash.{Hash, zero_hash}
use resin.Platform.{Platform}
use resin.Platform.Access.{ReadOnlyView}
use resin.Platform.View.Picks.{Occurs}
use resin.Routing.Load.{IpLoadStats}
use resin.Routing.Evaluation.{Nodes}
use resin.Routing.Evaluation.Keeps.{
  ip_of, without_table, ip_of-kept, KeepsEntries, KeepsEntries-trans,
}
use resin.Routing.Random.{Floats, Reading, random_route}
use resin.Routing.Random.Choice.{random_route_empty, random_route-Occurs}
use resin.Routing.Selection.{
  Picked, RouteError, LivePick, failed, vanished, live, pick_live_random_route, select_live_loop,
  live_pick_attempts, select_live_random_route,
}

pub LivePick-cases :
    (p : LivePick) → (p ≡ failed) ⊎ (((h : Hash) × p ≡ vanished h) ⊎ ((q : Picked) × p ≡ live q))
LivePick-cases failed = inl refl
LivePick-cases (vanished h) = inr (inl (h, refl))
LivePick-cases (live p) = inr (inr (p, refl))

-- The node is routable, in the pool, and has the IP.
abbrev pub Serves : Platform ReadOnlyView → Nodes → Hash → Addr → Type 0
Serves plat nodes h ip = Occurs h plat.view.range × ip_of (load h nodes) ≡ some ip

pub Serves-KeepsEntries :
    (plat : Platform ReadOnlyView) (a b : Nodes) (h : Hash) (ip : Addr)
    → KeepsEntries a b
    → Serves plat b h ip
    → Serves plat a h ip
Serves-KeepsEntries plat a b h ip keeps (o, e) = (o, ground (arith, ip_of-kept a b keeps h))

-- A routable node that the pool no longer has.
abbrev pub IsGone : Platform ReadOnlyView → Nodes → Hash → Type 0
IsGone plat nodes h = Occurs h plat.view.range × ip_of (load h nodes) ≡ none

abbrev pub IsPick : Platform ReadOnlyView → Nodes → LivePick → Type 0
IsPick plat nodes failed = length plat.view.range ≡ 0
IsPick plat nodes (vanished h) = IsGone plat nodes h
IsPick plat nodes (live p) = Serves plat nodes p.hash p.ip

-- A node that serves, or the reason why there is none.
abbrev pub IsRoute : Platform ReadOnlyView → Nodes → Picked ⊎ RouteError → Type 0
IsRoute plat nodes (inl p) = Serves plat nodes p.hash p.ip
IsRoute plat nodes (inr e) = (length plat.view.range ≡ 0) ⊎ ((h : Hash) × IsGone plat nodes h)

module _ (fl : Floats) (r : Reading) (plat : Platform ReadOnlyView) (stats : IpLoadStats) where
  pub pick_live_random_route_lem :
      (nodes : Nodes) (target : String) (draws : ℕ → ℕ)
      → let out = pick_live_random_route fl r plat stats nodes target draws in
        IsPick plat nodes out.0 × KeepsEntries nodes out.1
  unfolding pick_live_random_route
  pick_live_random_route_lem nodes target draws = elim (Bool-cases (length plat.view.range == 0)) [
    | inl e ↦
        let empty : length plat.view.range ≡ 0 = ground arith in
        let same = random_route_empty fl r plat stats nodes target draws empty in
        rw (pick_live_random_route, same)
          (empty, λ q. ap (λ out. without_table (load q out.1)) same)
    | inr e ↦
        let (h, picked, occurs, keeps) =
          random_route-Occurs fl r plat stats nodes target draws (ground arith) in
        let kept = ip_of-kept nodes (random_route fl r plat stats nodes target draws).1 keeps h in
        elim (Option-cases (load h (random_route fl r plat stats nodes target draws).1)) [
          | inl gone ↦
              rw (pick_live_random_route, picked, gone) ((occurs, ground (arith, kept)), keeps)
          | inr (n, there) ↦
              rw (pick_live_random_route, picked, there) ((occurs, ground (arith, kept)), keeps)
        ]
  ]

  IsGone-KeepsEntries :
      (a b : Nodes) (h : Hash) → KeepsEntries a b → IsGone plat b h → IsGone plat a h
  IsGone-KeepsEntries a b h keeps (o, e) = (o, ground (arith, ip_of-kept a b keeps h))

  pub IsRoute-KeepsEntries :
      (a b : Nodes) (x : Picked ⊎ RouteError)
      → KeepsEntries a b
      → IsRoute plat b x
      → IsRoute plat a x
  IsRoute-KeepsEntries a b (inl p) keeps w = Serves-KeepsEntries plat a b p.hash p.ip keeps w
  IsRoute-KeepsEntries a b (inr e) keeps (inl w) = inl w
  IsRoute-KeepsEntries a b (inr e) keeps (inr (h, w)) = inr (h, IsGone-KeepsEntries a b h keeps w)

  select_live_loop_lem :
      (n i : ℕ) (missing : Hash) (nodes : Nodes) (target : String) (draws : ℕ → ℕ → ℕ)
      → ((h : Hash) × IsGone plat nodes h) ⊎ (0 < n)
      → let out = select_live_loop fl r n i missing plat stats nodes target draws in
        IsRoute plat nodes out.0 × KeepsEntries nodes out.1
  unfolding select_live_loop
  select_live_loop_lem zero i missing nodes target draws (inl gone) = (inr gone, λ q. refl)
  select_live_loop_lem zero i missing nodes target draws (inr less) =
      let impossible : ⊥ = omega arith in elim impossible [ ]
  select_live_loop_lem (suc n) i missing nodes target draws w =
      let (ok, keeps) = pick_live_random_route_lem nodes target (draws i) in
      elim (LivePick-cases (pick_live_random_route fl r plat stats nodes target (draws i)).0) [
        | inl e ↦ rw (select_live_loop, e) (inl (subst (IsPick plat nodes) e ok), keeps)
        | inr (inl (h, e)) ↦
            let (o, gone) = subst (IsPick plat nodes) e ok in
            let nodes' = (pick_live_random_route fl r plat stats nodes target (draws i)).1 in
            let (route, keeps') =
              select_live_loop_lem n (suc i) h nodes' target draws
                (inl (h, (o, ip_of-kept nodes nodes' keeps h ∙ gone))) in
            rw (select_live_loop, e)
              (
                IsRoute-KeepsEntries nodes nodes' _ keeps route,
                KeepsEntries-trans _ _ _ keeps keeps',
              )
        | inr (inr (p, e)) ↦ rw (select_live_loop, e) (subst (IsPick plat nodes) e ok, keeps)
      ]

  -- The node of a route is routable, is in the pool, and has the route's egress IP; where there is
  -- no route, the view is empty or names a node that has left the pool. Only latency tables change.
  pub select_live_random_route_lem :
      (nodes : Nodes) (target : String) (draws : ℕ → ℕ → ℕ)
      → let out = select_live_random_route fl r plat stats nodes target draws in
        IsRoute plat nodes out.0 × KeepsEntries nodes out.1
  unfolding select_live_random_route
  select_live_random_route_lem nodes target draws =
      select_live_loop_lem live_pick_attempts 0 zero_hash nodes target draws (inr (omega arith))
