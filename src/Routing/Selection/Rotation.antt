-- ===== src/Routing/Selection/Rotation.antt =====
-- internal/routing/router.go: what `chooseSameIPRotationCandidate` chooses.
use resin.Prelude.{
  suc, String, Bool, true, false, not, Option, none, some, List, [], ◌∷◌, ◌==◌, if◌then◌else◌,
  nat_key, ◌≡◌, ◌≢◌, refl, arith, Option-cases, Bool-cases, inl, inr, ◌⊎◌, ◌∙◌, ap, subst, sym, ◌-◌,
}
use resin.Prelude.Int.{ℤ, pos, ltb_ℤ, int_bound}
use resin.Map.{load}
use resin.Netip.{Addr, addr_key}
use resin.Node.Hash.{Hash, zero_hash}
use resin.Node.Entry.{NodeEntry, get_egress_ip}
use resin.Platform.{Platform}
use resin.Platform.Access.{ReadOnlyView}
use resin.Platform.View.Picks.{Occurs, each}
use resin.Routing.Evaluation.{Nodes, lookup_recent_domain_latency}
use resin.Routing.Evaluation.Keeps.{
  ip_of, ip_of-kept, KeepsEntries, KeepsEntries-trans, lookup-KeepsEntries,
  average_recent-KeepsEntries,
}
use resin.Routing.Random.{Reading}
use resin.Routing.Selection.{
  Best, improve, fall_back, is_on_ip, same_ip_candidate_latency, rotation_loop,
  choose_same_ip_rotation_candidate,
}
use resin.Routing.Selection.Picks.{Serves}

pub is_on_ip_lem : (ip : Addr) (e : Option NodeEntry) → is_on_ip ip e ≡ true → ip_of e ≡ some ip
unfolding is_on_ip addr_key get_egress_ip
is_on_ip_lem ip none h = ground arith
is_on_ip_lem ip (some e) h = ground arith

off_ip :
    {A : Type 0} (ip : Addr) (e : Option NodeEntry) → is_on_ip ip e ≡ false → ip_of e ≡ some ip → A
unfolding is_on_ip addr_key get_egress_ip
off_ip ip none h e = let impossible : ⊥ = ground (arith, e) in elim impossible [ ]
off_ip ip (some n) h e = let impossible : ⊥ = ground (arith, e, h) in elim impossible [ ]

-- A hash that is the zero hash or has the property.
abbrev OrZero : (Hash → Type 0) → Hash → Type 0
OrZero P h = (h ≡ 0) ⊎ P h

abbrev IsBest : (Hash → Type 0) → Best → Type 0
IsBest P b = OrZero P b.known × OrZero P b.fallback

fall_back-IsBest :
    (P : Hash → Type 0) (b : Best) (h : Hash) → IsBest P b → P h → IsBest P (fall_back b h)
unfolding nat_key
fall_back-IsBest P b h (k, f) p = elim (Bool-cases (b.fallback == zero_hash)) [
  | inl e ↦ rw (e, fall_back) (k, inr p)
  | inr e ↦ rw (e, fall_back) (k, f)
]

improve-IsBest :
    (P : Hash → Type 0) (b : Best) (h : Hash) (l : Option ℤ)
    → IsBest P b
    → P h
    → IsBest P (improve b h l)
improve-IsBest P b h none w p = w
improve-IsBest P b h (some l) (k, f) p = elim (Bool-cases (ltb_ℤ l b.latency)) [
  | inl e ↦ rw (e, improve) (inr p, f)
  | inr e ↦ rw (e, improve) (k, f)
]

abbrev start : Best
start = record { known = zero_hash; latency = pos (int_bound - 1); fallback = zero_hash }

abbrev chosen : Best → Option Hash
chosen b =
    if not (b.known == zero_hash)
    then some b.known
    else if not (b.fallback == zero_hash)
    then some b.fallback
    else none

from_zero : (P : Hash → Type 0) (k h : Hash) → OrZero P k → k ≢ 0 → some k ≡ some h → P h
from_zero P k h (inl z) n e = let impossible : ⊥ = n z in elim impossible [ ]
from_zero P k h (inr p) n e = subst P (ground (arith, e)) p

chosen-some : (P : Hash → Type 0) (b : Best) (h : Hash) → IsBest P b → chosen b ≡ some h → P h
unfolding nat_key
chosen-some P b h (k, f) = elim (Bool-cases (b.known == zero_hash)) [
  | inr e ↦ rw (e, chosen) (from_zero P b.known h k (ground (arith, e)))
  | inl e ↦ elim (Bool-cases (b.fallback == zero_hash)) [
    | inr e' ↦ rw (e, e', chosen) (from_zero P b.fallback h f (ground (arith, e')))
    | inl e' ↦ λ q. let impossible : ⊥ = ground (arith, e, e', q) in elim impossible [ ]
  ]
]

chosen-none : (b : Best) → chosen b ≡ none → b.fallback ≡ 0
unfolding nat_key
chosen-none b e = ground (arith, e)

module _ (r : Reading) where
  pub candidate_latency-KeepsEntries :
      (nodes : Nodes) (h : Hash) (target : String)
      → KeepsEntries nodes (same_ip_candidate_latency r nodes h target).1
  unfolding same_ip_candidate_latency
  candidate_latency-KeepsEntries nodes h target =
      let first = lookup-KeepsEntries r.formulas r.now r.window nodes h target in
      elim (Option-cases
        (lookup_recent_domain_latency r.formulas r.now r.window nodes h target).0) [
          | inl e ↦ λ q.
              rw (same_ip_candidate_latency, e)
                (KeepsEntries-trans _ _ _ first
                  (average_recent-KeepsEntries r.formulas r.now r.window _ h r.authorities) q)
          | inr (l, e) ↦ λ q. rw (same_ip_candidate_latency, e) (first q)
        ]

  abbrev On : List Hash → Nodes → Addr → Hash → Type 0
  On view nodes ip h = Occurs h view × ip_of (load h nodes) ≡ some ip

  rotation_loop-IsBest :
      (hs : List Hash) (P : Hash → Type 0) (ip : Addr) (target : String) (start nodes : Nodes)
      (b : Best)
      → KeepsEntries start nodes
      → ((h : Hash) → Occurs h hs → ip_of (load h start) ≡ some ip → P h)
      → IsBest P b
      → let out = rotation_loop r hs ip target nodes b in IsBest P out.0 × KeepsEntries start out.1
  unfolding rotation_loop
  rotation_loop-IsBest [] P ip target start nodes b keeps all w = (w, keeps)
  rotation_loop-IsBest (h ∷ hs) P ip target start nodes b keeps all w =
      let later : (k : Hash) → Occurs k hs → ip_of (load k start) ≡ some ip → P k =
        λ k o. all k (suc o.0, o.1) in
      let nodes' = (same_ip_candidate_latency r nodes h target).1 in
      let keeps' = KeepsEntries-trans _ _ _ keeps (candidate_latency-KeepsEntries nodes h target) in
      elim (Bool-cases (is_on_ip ip (load h nodes))) [
        | inl e ↦
            let p =
              all h (0, refl)
                (sym (ip_of-kept start nodes keeps h) ∙ is_on_ip_lem ip (load h nodes) e) in
            rw (rotation_loop, e)
              (rotation_loop-IsBest hs P ip target start nodes' _ keeps' later
                (improve-IsBest P (fall_back b h) h _ (fall_back-IsBest P b h w p) p))
        | inr e ↦
            rw (rotation_loop, e) (rotation_loop-IsBest hs P ip target start nodes b keeps later w)
      ]

  fall_back_zero :
      (b : Best) (h : Hash) (l : Option ℤ)
      → (improve (fall_back b h) h l).fallback ≡ 0
      → (b.fallback ≡ 0) × (h ≡ 0)
  unfolding nat_key
  fall_back_zero b h none e = ground (arith, e)
  fall_back_zero b h (some l) e = ground (arith, e)

  abbrev rotated : Bool → Best → Hash → Option ℤ → Best
  rotated true b x latency = improve (fall_back b x) x latency
  rotated false b x latency = b

  abbrev read : Bool → Nodes → Nodes → Nodes
  read true nodes nodes' = nodes'
  read false nodes nodes' = nodes

  rotation_loop-step :
      (hs : List Hash) (ip : Addr) (target : String) (nodes : Nodes) (b : Best) (x : Hash)
      (on : Bool)
      → is_on_ip ip (load x nodes) ≡ on
      → let seen = same_ip_candidate_latency r nodes x target in
        rotation_loop r (x ∷ hs) ip target nodes b
        ≡ rotation_loop r hs ip target (read on nodes seen.1) (rotated on b x seen.0)
  unfolding rotation_loop
  rotation_loop-step hs ip target nodes b x true e = rw (rotation_loop, e)
  rotation_loop-step hs ip target nodes b x false e = rw (rotation_loop, e)

  rotation_loop_complete :
      (hs : List Hash) (ip : Addr) (target : String) (start nodes : Nodes) (b : Best)
      → KeepsEntries start nodes
      → (rotation_loop r hs ip target nodes b).0.fallback ≡ 0
      → (b.fallback ≡ 0) × ((h : Hash) → Occurs h hs → ip_of (load h start) ≡ some ip → h ≡ 0)
  unfolding rotation_loop nat_key
  rotation_loop_complete [] ip target start nodes b keeps e = (e, λ h o. ground (arith, o))
  rotation_loop_complete (x ∷ hs) ip target start nodes b keeps e =
      let nodes' = (same_ip_candidate_latency r nodes x target).1 in
      let latency = (same_ip_candidate_latency r nodes x target).0 in
      let keeps' = KeepsEntries-trans _ _ _ keeps (candidate_latency-KeepsEntries nodes x target) in
      elim (Bool-cases (is_on_ip ip (load x nodes))) [
        | inl on ↦
            let (zero_best, rest) =
              rotation_loop_complete hs ip target start nodes' (improve (fall_back b x) x latency)
                keeps'
                (sym
                    (ap (λ out. out.0.fallback) (rotation_loop-step hs ip target nodes b x true on))
                  ∙ e) in
            let (start_zero, x_zero) = fall_back_zero b x latency zero_best in
            (start_zero, each x hs (λ h. ip_of (load h start) ≡ some ip → h ≡ 0) (λ o. x_zero) rest)
        | inr off ↦
            let (start_zero, rest) = rotation_loop_complete hs ip target start nodes b keeps (
              sym (ap (λ out. out.0.fallback) (rotation_loop-step hs ip target nodes b x false off))
              ∙ e) in
            (
              start_zero,
              each x hs (λ h. ip_of (load h start) ≡ some ip → h ≡ 0)
                  (λ o. off_ip ip (load x nodes) off (ip_of-kept start nodes keeps x ∙ o)) rest,
            )
      ]

  rotation_cases :
      (plat : Platform ReadOnlyView) (nodes : Nodes) (ip : Addr) (target : String) (h : Hash)
      → let out = choose_same_ip_rotation_candidate r plat nodes ip target in
        ((out.0 ≡ some h → Serves plat nodes h ip)
          × (out.0 ≡ none → Serves plat nodes h ip → h ≡ 0))
        × KeepsEntries nodes out.1
  unfolding choose_same_ip_rotation_candidate
  rotation_cases plat nodes ip target h =
      let hs = plat.view.range in
      let P : Hash → Type 0 = λ k. Serves plat nodes k ip in
      let (w, keeps) =
        rotation_loop-IsBest hs P ip target nodes nodes start (λ q. refl) (λ k o e. (o, e))
          (inl refl, inl refl) in
      let complete = rotation_loop_complete hs ip target nodes nodes start (λ q. refl) in
      let best = (rotation_loop r hs ip target nodes start).0 in
      ((chosen-some P best h w, (λ e s. (complete (chosen-none best e)).1 h s.0 s.1)), keeps)

  pub rotation-KeepsEntries :
      (plat : Platform ReadOnlyView) (nodes : Nodes) (ip : Addr) (target : String)
      → KeepsEntries nodes (choose_same_ip_rotation_candidate r plat nodes ip target).1
  rotation-KeepsEntries plat nodes ip target = (rotation_cases plat nodes ip target 0).1

  -- The node that a rotation chooses is routable, in the pool, and has the lease's egress IP.
  pub rotation-Serves :
      (plat : Platform ReadOnlyView) (nodes : Nodes) (ip : Addr) (target : String) (h : Hash)
      → (choose_same_ip_rotation_candidate r plat nodes ip target).0 ≡ some h
      → Serves plat nodes h ip
  rotation-Serves plat nodes ip target h = (rotation_cases plat nodes ip target h).0.0

  -- Where a rotation chooses no node, a routable node of the pool with the IP has the zero hash.
  pub rotation_none :
      (plat : Platform ReadOnlyView) (nodes : Nodes) (ip : Addr) (target : String) (h : Hash)
      → (choose_same_ip_rotation_candidate r plat nodes ip target).0 ≡ none
      → Serves plat nodes h ip
      → h ≡ 0
  rotation_none plat nodes ip target h = (rotation_cases plat nodes ip target h).0.1
