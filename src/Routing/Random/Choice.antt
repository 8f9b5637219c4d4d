-- ===== src/Routing/Random/Choice.antt =====
-- internal/routing/random.go: what `randomRoute` chooses.
use resin.Prelude.{
  ℕ, suc, zero, String, true, false, Option, none, some, List, ◌==◌, nat_key, ◌≡◌, refl, arith,
  Option-cases, Bool-cases, inl, inr, if_both, get_elem?_in_range, ◌<◌, length, ◌%◌,
}
use resin.Prelude.Int.{ℤ}
use resin.Map.{load}
use resin.Node.Hash.{Hash}
use resin.Platform.{Platform}
use resin.Platform.Access.{ReadOnlyView}
use resin.Platform.View.Picks.{Occurs}
use resin.Routing.Load.{IpLoadStats}
use resin.Routing.Evaluation.{Nodes, table_of}
use resin.Routing.Evaluation.Keeps.{
  KeepsEntries, KeepsEntries-trans, lookup-KeepsEntries, average_comparable-KeepsEntries,
}
use resin.Routing.Random.{
  Floats, Reading, compare_latencies, best_comparison, retry_pick, better_of, compare_picks,
  random_route, is_int,
}

best_comparison-KeepsEntries :
    (nodes read averaged : Nodes) (l1 l2 : Option ℤ) (average : Option (ℤ × ℤ))
    → KeepsEntries nodes read
    → KeepsEntries nodes averaged
    → KeepsEntries nodes (best_comparison l1 l2 read average averaged).1
unfolding best_comparison
best_comparison-KeepsEntries nodes read averaged (some l1) (some l2) average p q = p
best_comparison-KeepsEntries nodes read averaged (some l1) none none p q = q
best_comparison-KeepsEntries nodes read averaged (some l1) none (some a) p q = q
best_comparison-KeepsEntries nodes read averaged none l2 none p q = q
best_comparison-KeepsEntries nodes read averaged none l2 (some a) p q = q

module _ (r : Reading) where
  compare_latencies-KeepsEntries :
      (nodes : Nodes) (h1 h2 : Hash) (target : String)
      → KeepsEntries nodes (compare_latencies r nodes h1 h2 target).1
  unfolding compare_latencies
  compare_latencies-KeepsEntries nodes h1 h2 target =
      elim (Option-cases (table_of (load h1 nodes))) [
        | inl e ↦ λ q. rw (e, compare_latencies)
        | inr (t1, e1) ↦ elim (Option-cases (table_of (load h2 nodes))) [
          | inl e ↦ λ q. rw (e1, e, compare_latencies)
          | inr (t2, e2) ↦ λ q.
              rw (e1, e2, compare_latencies)
                (let first = lookup-KeepsEntries r.formulas r.now r.window nodes h1 target in
                  let both =
                    KeepsEntries-trans _ _ _ first
                      (lookup-KeepsEntries r.formulas r.now r.window _ h2 target) in
                  best_comparison-KeepsEntries nodes _ _ _ _ _ both
                    (KeepsEntries-trans _ _ _ both (
                      average_comparable-KeepsEntries r.formulas r.now r.window _ h1 h2
                        r.authorities))
                    q)
        ]
      ]

-- A pick of the view is one of its hashes.
pick-Occurs :
    (v : ReadOnlyView) (draw : ℕ) (h : Hash) → v.random_pick draw ≡ some h → Occurs h v.range
pick-Occurs v draw h e = (draw % length v.range, ground (arith, v.pick_law draw))

retry_pick-cases :
    (P : Hash → Type 0) (pick : ℕ → Option Hash) (h1 : Hash) (n k : ℕ)
    → P h1
    → ((k : ℕ) (h : Hash) → pick k ≡ some h → P h)
    → P (retry_pick pick h1 n k)
unfolding retry_pick
retry_pick-cases P pick h1 zero k p1 ps = p1
retry_pick-cases P pick h1 (suc n) k p1 ps = elim (Option-cases (pick k)) [
  | inl e ↦ rw (e, retry_pick) p1
  | inr (c, e) ↦ elim (Bool-cases (c == h1)) [
    | inl same ↦ rw (e, retry_pick, same) (retry_pick-cases P pick h1 n (suc k) p1 ps)
    | inr other ↦ rw (e, retry_pick, other) (ps k c e)
  ]
]

module _ (fl : Floats) (r : Reading) (plat : Platform ReadOnlyView) (stats : IpLoadStats) where
  better_of-KeepsEntries :
      (nodes : Nodes) (target : String) (h1 h2 : Hash)
      → KeepsEntries nodes (better_of fl r plat stats nodes target h1 h2).1
  unfolding better_of
  better_of-KeepsEntries nodes target h1 h2 = compare_latencies-KeepsEntries r nodes h1 h2 target

  -- A route of the choice between `h1` and `h2`: one of the two, and the IPs stay.
  compare_picks-cases :
      (P : Hash → Type 0) (nodes : Nodes) (target : String) (h1 h2 : Hash)
      → P h1
      → P h2
      → (h : Hash) × ((compare_picks fl r plat stats nodes target h1 h2).0 ≡ some h)
        × P h
        × KeepsEntries nodes (compare_picks fl r plat stats nodes target h1 h2).1
  unfolding compare_picks better_of
  compare_picks-cases P nodes target h1 h2 p1 p2 = elim (Bool-cases (h2 == h1)) [
    | inl same ↦ rw (same, compare_picks) (h1, refl, p1, λ q. refl)
    | inr other ↦
        rw (other, compare_picks)
          (
            (better_of fl r plat stats nodes target h1 h2).0,
            refl,
            if_both P _ p1 p2,
            better_of-KeepsEntries nodes target h1 h2,
          )
  ]

  abbrev hashes : List Hash
  hashes = plat.view.range

  some_pick :
      (draw : ℕ)
      → 0 < length hashes
      → (h : Hash) × (plat.view.random_pick draw ≡ some h) × Occurs h hashes
  some_pick draw n =
      let (h, e) = get_elem?_in_range hashes (draw % length hashes) (omega arith) in
      (h, ground (arith, plat.view.pick_law draw), (draw % length hashes, e))

  is_int-size : (n : ℕ) → is_int n plat.view.size ≡ (length hashes == n)
  unfolding nat_key
  is_int-size n = rw plat.view.size_law refl

  -- An empty view gives no route and reads nothing.
  pub random_route_empty :
      (nodes : Nodes) (target : String) (draws : ℕ → ℕ)
      → length hashes ≡ 0
      → random_route fl r plat stats nodes target draws ≡ (none, nodes)
  unfolding random_route nat_key
  random_route_empty nodes target draws e =
      let empty : is_int 0 plat.view.size ≡ true = ground (arith, is_int-size 0) in
      rw (random_route, empty)

  route_of_picks :
      (P : Hash → Type 0) (nodes : Nodes) (target : String) (draws : ℕ → ℕ) (h1 h2 : Hash)
      → is_int 0 plat.view.size ≡ false
      → plat.view.random_pick (draws 0) ≡ some h1
      → plat.view.random_pick (draws 1) ≡ some h2
      → P h1
      → P h2
      → ((k : ℕ) (h : Hash) → plat.view.random_pick (draws k) ≡ some h → P h)
      → let out = random_route fl r plat stats nodes target draws in
        (h : Hash) × (out.0 ≡ some h) × P h × KeepsEntries nodes out.1
  unfolding random_route
  route_of_picks P nodes target draws h1 h2 full e1 e2 p1 p2 ps =
      elim (Bool-cases (is_int 1 plat.view.size)) [
        | inl one ↦ rw (random_route, full, e1, one) (h1, refl, p1, λ q. refl)
        | inr more ↦
            rw (random_route, full, e1, more, e2)
              (compare_picks-cases P nodes target h1 _ p1 (
                if_both P (h2 == h1)
                  (retry_pick-cases P (λ k. plat.view.random_pick (draws k)) h1 3 2 p1 ps) p2))
      ]

  -- On any other view the choice never fails, whatever the random numbers: it is a hash of the
  -- view, and the entries of the nodes change at most in their latency tables.
  pub random_route-Occurs :
      (nodes : Nodes) (target : String) (draws : ℕ → ℕ)
      → 0 < length hashes
      → let out = random_route fl r plat stats nodes target draws in
        (h : Hash) × (out.0 ≡ some h) × Occurs h hashes × KeepsEntries nodes out.1
  unfolding nat_key
  random_route-Occurs nodes target draws n =
      let (h1, e1, o1) = some_pick (draws 0) n in
      let (h2, e2, o2) = some_pick (draws 1) n in
      let full : is_int 0 plat.view.size ≡ false = ground (arith, is_int-size 0) in
      route_of_picks (λ h. Occurs h hashes) nodes target draws h1 h2 full e1 e2 o1 o2
        (λ k h e. pick-Occurs plat.view (draws k) h e)
