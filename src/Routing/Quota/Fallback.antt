-- ===== src/Routing/Quota/Fallback.antt =====
-- internal/routing/router.go: the loop of `fallbackQuotaRoute` over the routable nodes.
use resin.Prelude.{
  ℕ, ◌<◌, suc, true, false, ◌||◌, not, Option, none, some, List, [], ◌∷◌, ◌==◌, nat_key, ltb, ◌≡◌,
  refl, arith, Option-cases, Bool-cases, inl, inr, ◌⊎◌, subst,
}
use resin.Prelude.Int.{ℤ, ◌≤ℤ◌}
use resin.Map.{Map, load}
use resin.Netip.{Addr, addr_key, is_valid}
use resin.Node.Hash.{Hash}
use resin.Node.Entry.{NodeEntry, get_egress_ip}
use resin.Platform.View.Picks.{Occurs, each}
use resin.Routing.Load.{IpLoadStats, get}
use resin.Routing.Evaluation.{Nodes}
use resin.Routing.Evaluation.Keeps.{ip_of}
use resin.Routing.Quota.{IpCandidate, is_seen, is_better, keep_best, candidate, fallback_loop}
use resin.Routing.Window.Sweep.{count_of}

-- Fewer accounts, or as many and at most as many leases.
abbrev pub NotAbove : IpCandidate → ℕ → ℤ → Type 0
NotAbove b n l = (b.count < n) ⊎ ((b.count ≡ n) × (b.load ≤ℤ l))

abbrev Least : Option IpCandidate → ℕ → ℤ → Type 0
Least none n l = ⊥
Least (some b) n l = NotAbove b n l

worse-NotAbove : (b c : IpCandidate) → is_better c b ≡ false → NotAbove b c.count c.load
unfolding is_better nat_key
worse-NotAbove b c h = elim (Bool-cases (ltb b.count c.count)) [
  | inl less ↦ inl (ground arith)
  | inr more ↦ inr (ground arith, ground arith)
]

better-NotAbove :
    (b c : IpCandidate) (n : ℕ) (l : ℤ) → is_better c b ≡ true → NotAbove b n l → NotAbove c n l
unfolding is_better nat_key
better-NotAbove b c n l h w = elim (Bool-cases (ltb c.count n)) [
  | inl less ↦ inl (ground arith)
  | inr more ↦ inr (ground (arith, w), ground (arith, w))
]

keep_best-Least_new :
    (b : Option IpCandidate) (c : IpCandidate) → Least (keep_best b c) c.count c.load
unfolding keep_best
keep_best-Least_new none c = inr (refl, omega arith)
keep_best-Least_new (some b) c = elim (Bool-cases (is_better c b)) [
  | inl e ↦ rw (e, keep_best) (inr (refl, omega arith))
  | inr e ↦ rw (e, keep_best) (worse-NotAbove b c e)
]

keep_best-Least_old :
    (b : Option IpCandidate) (c : IpCandidate) (n : ℕ) (l : ℤ)
    → Least b n l
    → Least (keep_best b c) n l
unfolding keep_best
keep_best-Least_old none c n l w = elim w [ ]
keep_best-Least_old (some b) c n l w = elim (Bool-cases (is_better c b)) [
  | inl e ↦ rw (e, keep_best) (better-NotAbove b c n l e w)
  | inr e ↦ rw (e, keep_best) w
]

module _ (counts : Map Addr ℕ) (stats : IpLoadStats) (nodes : Nodes) where
  abbrev pub Lowest : Option IpCandidate → Addr → Type 0
  Lowest out ip = Least out (count_of counts ip) (get stats ip)

  -- The candidate stands no higher than the IP of the node.
  abbrev pub IsLowest : Option IpCandidate → Hash → Type 0
  IsLowest out h = (ip : Addr) → ip_of (load h nodes) ≡ some ip → is_valid ip ≡ true → Lowest out ip

  -- What the loop has done for the IPs it has seen and the nodes it has visited.
  abbrev Covers : List Hash → List Addr → Option IpCandidate → Type 0
  Covers hs seen out =
      ((ip : Addr) → is_seen ip seen ≡ true → Lowest out ip)
      × ((h : Hash) → Occurs h hs → IsLowest out h)

  loop : List Hash → List Addr → Option IpCandidate → Option IpCandidate
  loop = fallback_loop counts stats nodes

  seen_next :
      (seen : List Addr) (best : Option IpCandidate) (h : Hash) (e : NodeEntry)
      → ((k : Addr) → is_seen k seen ≡ true → Lowest best k)
      → (q : Addr) → is_seen q (get_egress_ip e ∷ seen) ≡ true
      → Lowest (keep_best best (candidate counts stats nodes h e)) q
  unfolding is_seen candidate addr_key
  seen_next seen best h e w q s = elim (Bool-cases (get_egress_ip e == q)) [
    | inl same ↦
        subst (Lowest (keep_best best (candidate counts stats nodes h e))) (ground (arith, same))
          (keep_best-Least_new best (candidate counts stats nodes h e))
    | inr other ↦
        keep_best-Least_old best (candidate counts stats nodes h e) _ _ (w q (ground (arith, s)))
  ]

  fallback_loop-Covers :
      (hs : List Hash) (seen : List Addr) (best : Option IpCandidate)
      → ((ip : Addr) → is_seen ip seen ≡ true → Lowest best ip)
      → Covers hs seen (fallback_loop counts stats nodes hs seen best)
  unfolding fallback_loop get_egress_ip is_seen addr_key
  fallback_loop-Covers [] seen best w =
      (w, λ h o. let impossible : ⊥ = ground (arith, o) in elim impossible [ ])
  fallback_loop-Covers (h ∷ hs) seen best w = elim (Option-cases (load h nodes)) [
    | inl gone ↦
        let out = fallback_loop counts stats nodes hs seen best in
        let (before, after) = fallback_loop-Covers hs seen best w in
        rw (gone, fallback_loop)
          (
            before,
            each h hs (IsLowest out)
                (λ ip e v. let impossible : ⊥ = ground (arith, gone, e) in elim impossible [ ])
                after,
          )
    | inr (e, there) ↦
        elim (Bool-cases (not (is_valid (get_egress_ip e)) || is_seen (get_egress_ip e) seen)) [
          | inl skip ↦
              let out = fallback_loop counts stats nodes hs seen best in
              let (before, after) = fallback_loop-Covers hs seen best w in
              rw (there, skip, fallback_loop)
                (
                  before,
                  each h hs (IsLowest out) (λ ip q v. before ip (ground (arith, there, skip, q)))
                      after,
                )
          | inr taken ↦
              let best' = keep_best best (candidate counts stats nodes h e) in
              let out = fallback_loop counts stats nodes hs (get_egress_ip e ∷ seen) best' in
              let (before, after) =
                fallback_loop-Covers hs (get_egress_ip e ∷ seen) best'
                  (seen_next seen best h e w) in
              rw (there, taken, fallback_loop)
                (
                  (λ ip s. before ip (ground (arith, s))),
                  each h hs (IsLowest out) (λ ip q v. before ip (ground (arith, there, q))) after,
                )
        ]
  ]

  module _ (P : IpCandidate → Type 0) where
    abbrev pub Every : Option IpCandidate → Type 0
    Every none = Unit
    Every (some b) = P b

    keep_best-Every :
        (best : Option IpCandidate) (c : IpCandidate) → Every best → P c → Every (keep_best best c)
    unfolding keep_best
    keep_best-Every none c w p = p
    keep_best-Every (some b) c w p = elim (Bool-cases (is_better c b)) [
      | inl e ↦ rw (e, keep_best) p
      | inr e ↦ rw (e, keep_best) w
    ]

    -- Every node with a valid IP gives a candidate with the property, so the best one has it.
    fallback_loop-Every :
        (hs : List Hash) (seen : List Addr) (best : Option IpCandidate)
        → ((h : Hash)
            → Occurs h hs
            → (e : NodeEntry) → load h nodes ≡ some e
            → is_valid (get_egress_ip e) ≡ true
            → P (candidate counts stats nodes h e))
        → Every best
        → Every (fallback_loop counts stats nodes hs seen best)
    unfolding fallback_loop
    fallback_loop-Every [] seen best ps w = w
    fallback_loop-Every (h ∷ hs) seen best ps w =
        let later : (k : Hash)
            → Occurs k hs
            → (e : NodeEntry) → load k nodes ≡ some e
            → is_valid (get_egress_ip e) ≡ true
            → P (candidate counts stats nodes k e) =
          λ k o. ps k (suc o.0, o.1) in
        elim (Option-cases (load h nodes)) [
          | inl gone ↦ rw (gone, fallback_loop) (fallback_loop-Every hs seen best later w)
          | inr (e, there) ↦
              elim (Bool-cases
                (not (is_valid (get_egress_ip e)) || is_seen (get_egress_ip e) seen)) [
                  | inl skip ↦
                      rw (there, skip, fallback_loop) (fallback_loop-Every hs seen best later w)
                  | inr taken ↦
                      rw (there, taken, fallback_loop)
                        (fallback_loop-Every hs (get_egress_ip e ∷ seen) _ later (
                          keep_best-Every best _ w
                            (ps h (0, refl) e there (ground (arith, taken)))))
                ]
        ]

  abbrev pub IsCandidate : List Hash → IpCandidate → Type 0
  IsCandidate hs b =
      Occurs b.hash hs
      × (ip_of (load b.hash nodes) ≡ some b.ip)
      × (is_valid b.ip ≡ true)
      × (b.count ≡ count_of counts b.ip)
      × (b.load ≡ get stats b.ip)

  -- The choice is a visited node with a valid IP, and no visited IP has fewer accounts, or as many
  -- and fewer leases. There is no choice exactly where no visited node of the pool has a valid IP.
  pub fallback_loop_lem :
      (hs : List Hash)
      → let out = fallback_loop counts stats nodes hs [] none in
        Every (IsCandidate hs) out × ((h : Hash) → Occurs h hs → IsLowest out h)
  unfolding is_seen candidate
  fallback_loop_lem hs = (
    fallback_loop-Every (IsCandidate hs) hs [] none
        (λ h o e there v. (o, ground (arith, there), v, refl, refl)) tt,
    (fallback_loop-Covers hs [] none
        (λ ip s. let impossible : ⊥ = ground (arith, s) in elim impossible [ ])).1,
  )
