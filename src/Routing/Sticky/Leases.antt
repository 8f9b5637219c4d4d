-- ===== src/Routing/Sticky/Leases.antt =====
-- internal/routing/router.go: what `routeSticky` does to the leases of a platform.
use resin.Prelude.{
  String, false, Option, none, some, ◌≡◌, refl, arith, Option-cases, inl, inr, ◌⊎◌, nat_key,
  string_key, ◌==◌,
}
use resin.Map.{Map, load, store, perform, ComputeOp, update, delete, cancel, Distinct}
use resin.Map.Counts.{count-remove, count-store-remove}
use resin.Map.Laws.{load-store, load-remove_ne, load-remove_self, store-Distinct, remove-Distinct}
use resin.Platform.{Platform}
use resin.Platform.Access.{ReadOnlyView}
use resin.Routing.Load.{IpLoadStats}
use resin.Routing.Lease.{Lease, LeaseTable, release}
use resin.Routing.Lease.Counted.{
  IsCounted, Exact, Exact-release, Exact-release_some, Exact-inc, on_ip,
}
use resin.Routing.Evaluation.{Nodes}
use resin.Routing.Random.{Floats, Reading}
use resin.Routing.Selection.{RouteError}
use resin.Routing.Selection.Picks.{Serves}
use resin.Routing.Sticky.{RouteResult, Shared, Decision, abort_lease_create}
use resin.Routing.Sticky.Outcomes.{IsDecision}

-- Without an old lease there is none afterwards either way.
abort-load :
    (account : String) (m : Map String Lease)
    → Distinct m
    → load account (perform account (abort_lease_create (load account m)) m) ≡ none
unfolding perform
abort-load account m d = elim (Option-cases (load account m)) [
  | inl e ↦ rw (e, abort_lease_create) e
  | inr (l, e) ↦ rw (e, abort_lease_create) (load-remove_self account m d)
]

abort-Exact :
    (stats : IpLoadStats) (m : Map String Lease) (account : String)
    → Exact stats m
    → Exact
        (release (load account m) stats)
        (perform account (abort_lease_create (load account m)) m)
unfolding perform release
abort-Exact stats m account exact = elim (Option-cases (load account m)) [
  | inl e ↦ rw (e, abort_lease_create, release) exact
  | inr (l, e) ↦ rw (e, abort_lease_create, release) (Exact-release_some stats m account exact l e)
]

abort-Distinct :
    (previous : Option Lease) (m : Map String Lease) (account : String)
    → Distinct m
    → Distinct (perform account (abort_lease_create previous) m)
unfolding perform
abort-Distinct none m account d = d
abort-Distinct (some l) m account d = remove-Distinct account m d

-- A lease that keeps its IP keeps every count.
kept-Exact :
    (stats : IpLoadStats) (m : Map String Lease) (account : String) (current l : Lease)
    → Exact stats m
    → load account m ≡ some current
    → l.egress_ip ≡ current.egress_ip
    → Exact stats (store account l m)
kept-Exact stats m account current l exact found same ip v = ground (
  arith,
  exact ip v,
  found,
  count-remove (on_ip ip) account m,
  count-store-remove (on_ip ip) account l m,
)

pub stored :
    (account : String) (l : Lease) (m : Map String Lease)
    → load account (store account l m) ≡ some l
stored account l m = ground (arith, load-store account account l m)

pub perform-other :
    (account other : String) (op : ComputeOp Lease) (m : Map String Lease)
    → (account == other) ≡ false
    → load other (perform account op m) ≡ load other m
unfolding perform
perform-other account other (update l) m ne = ground (arith, load-store account other l m)
perform-other account other delete m ne = load-remove_ne account other m ne
perform-other account other cancel m ne = refl

-- The answer is the stored lease, and an error means that there is none.
abbrev pub Agrees : Platform ReadOnlyView → Nodes → Option Lease → RouteResult ⊎ RouteError → Type 0
Agrees plat nodes found (inr e) = found ≡ none
Agrees plat nodes found (inl result) =
    (l : Lease) × (found ≡ some l)
    × (l.node_hash ≡ result.node_hash)
    × (l.egress_ip ≡ result.egress_ip)
    × Serves plat nodes result.node_hash result.egress_ip

module _ (fl : Floats) (r : Reading) (plat : Platform ReadOnlyView) (t : LeaseTable)
    (account : String) (s : Shared) (same : s.stats ≡ t.stats) (d : Decision) where
  abbrev after : LeaseTable
  after = record { leases = perform account d.op t.leases; stats = d.shared.stats }

  pub settled-IsCounted :
      IsCounted t → IsDecision fl r plat account (load account t.leases) s d → IsCounted after
  unfolding perform
  settled-IsCounted c i = elim i.settles [
    | inl (l, k) ↦ record {
      distinct = rw k.op (store-Distinct account l t.leases c.distinct);
      exact =
          rw (k.op, k.kept.stats, same)
            (kept-Exact t.stats t.leases account k.current l c.exact k.found k.kept.same_ip);
    }
    | inr (inl (l, m)) ↦ record {
      distinct = rw m.op (store-Distinct account l t.leases c.distinct);
      exact =
          rw (m.op, m.stats, same)
            (Exact-inc _ t.leases account l (Exact-release t.stats t.leases account c.exact));
    }
    | inr (inr (e, f)) ↦ record {
      distinct = rw f.op (abort-Distinct (load account t.leases) t.leases account c.distinct);
      exact = rw (f.op, f.stats, same) (abort-Exact t.stats t.leases account c.exact);
    }
  ]

  pub settled-Agrees :
      Distinct t.leases
      → IsDecision fl r plat account (load account t.leases) s d
      → Agrees plat s.nodes (load account (perform account d.op t.leases)) d.result
  unfolding perform
  settled-Agrees distinct i = elim i.settles [
    | inl (l, k) ↦
        rw (k.op, k.answer, k.kept.answer, stored account l t.leases)
          (l, refl, refl, refl, k.kept.serves)
    | inr (inl (l, m)) ↦
        rw (m.op, m.answer, stored account l t.leases) (l, refl, refl, refl, m.serves)
    | inr (inr (e, f)) ↦ rw (f.op, f.answer) (abort-load account t.leases distinct)
  ]
