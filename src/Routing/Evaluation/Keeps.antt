-- ===== src/Routing/Evaluation/Keeps.antt =====
-- internal/routing/latency_eval.go, random.go: what a read of latencies leaves of the nodes.
use resin.Prelude.{
  ℕ, String, Option, none, some, List, [], ◌∷◌, string_key, nat_key, ◌≡◌, refl, arith, ◌∙◌, sym, ap,
  Option-cases, inl, inr,
}
use resin.Prelude.Int.{ℤ}
use resin.Map.{load}
use resin.Map.Laws.{load-store}
use resin.Netip.{Addr}
use resin.Node.Hash.{Hash}
use resin.Node.Entry.{NodeEntry, get_egress_ip}
use resin.Node.Latency.{Formulas, LatencyTable, get_domain_stats}
use resin.Routing.Evaluation.{
  Nodes, set_table, table_of, lookup_recent_domain_latency, sum_recent, sum_comparable,
  average_recent_authority_latency, average_comparable_authority_latencies,
}

abbrev pub ip_of : Option NodeEntry → Option Addr
ip_of none = none
ip_of (some e) = some (get_egress_ip e)

-- the entry without its latency table
abbrev pub without_table : Option NodeEntry → Option NodeEntry
without_table none = none
without_table (some e) = some (record e { latency_table = none })

-- The same nodes, with entries that differ in their latency tables at most.
abbrev pub KeepsEntries : Nodes → Nodes → Type 0
KeepsEntries nodes nodes' =
    (h : Hash) → without_table (load h nodes') ≡ without_table (load h nodes)

ip_of-without_table : (o : Option NodeEntry) → ip_of (without_table o) ≡ ip_of o
unfolding get_egress_ip
ip_of-without_table none = refl
ip_of-without_table (some e) = refl

-- In particular each node keeps its IP.
pub ip_of-kept :
    (nodes nodes' : Nodes)
    → KeepsEntries nodes nodes'
    → (h : Hash) → ip_of (load h nodes') ≡ ip_of (load h nodes)
ip_of-kept nodes nodes' keeps h =
    sym (ip_of-without_table (load h nodes'))
    ∙ ap ip_of (keeps h)
    ∙ ip_of-without_table (load h nodes)

pub KeepsEntries-trans : (a b c : Nodes) → KeepsEntries a b → KeepsEntries b c → KeepsEntries a c
KeepsEntries-trans a b c p q h = q h ∙ p h

set_table-KeepsEntries :
    (h : Hash) (t : LatencyTable) (nodes : Nodes) → KeepsEntries nodes (set_table h t nodes)
unfolding set_table get_egress_ip
set_table-KeepsEntries h t nodes q = elim (Option-cases (load h nodes)) [
  | inl e ↦ rw (e, set_table)
  | inr (n, e) ↦ rw (e, set_table, load-store h q _ nodes) (ground arith)
]

module _ (x : Formulas) (now window : ℤ) where
  pub lookup-KeepsEntries :
      (nodes : Nodes) (h : Hash) (domain : String)
      → KeepsEntries nodes (lookup_recent_domain_latency x now window nodes h domain).1
  unfolding lookup_recent_domain_latency
  lookup-KeepsEntries nodes h domain q = elim (Option-cases (table_of (load h nodes))) [
    | inl e ↦ rw (e, lookup_recent_domain_latency)
    | inr (t, e) ↦
        rw (e, lookup_recent_domain_latency)
          (ground (arith, set_table-KeepsEntries h (get_domain_stats x t domain now).1 nodes q))
  ]

  sum_recent-KeepsEntries :
      (domains : List String) (nodes : Nodes) (h : Hash) (sum : ℤ) (count : ℕ)
      → KeepsEntries nodes (sum_recent x now window nodes h domains sum count).1
  unfolding sum_recent
  sum_recent-KeepsEntries [] nodes h sum count q = refl
  sum_recent-KeepsEntries (domain ∷ domains) nodes h sum count q =
      KeepsEntries-trans _ _ _ (lookup-KeepsEntries nodes h domain)
        (sum_recent-KeepsEntries domains _ h _ _) q

  pub average_recent-KeepsEntries :
      (nodes : Nodes) (h : Hash) (authorities : List String)
      → KeepsEntries nodes (average_recent_authority_latency x now window nodes h authorities).1
  unfolding average_recent_authority_latency
  average_recent-KeepsEntries nodes h authorities q =
      elim (Option-cases (table_of (load h nodes))) [
        | inl e ↦ rw (e, average_recent_authority_latency)
        | inr (t, e) ↦
            rw (e, average_recent_authority_latency)
              (sum_recent-KeepsEntries authorities nodes h _ 0 q)
      ]

  sum_comparable-KeepsEntries :
      (domains : List String) (nodes : Nodes) (h1 h2 : Hash) (sum1 sum2 : ℤ) (count : ℕ)
      → KeepsEntries nodes (sum_comparable x now window nodes h1 h2 domains sum1 sum2 count).1
  unfolding sum_comparable
  sum_comparable-KeepsEntries [] nodes h1 h2 sum1 sum2 count q = refl
  sum_comparable-KeepsEntries (domain ∷ domains) nodes h1 h2 sum1 sum2 count q =
      KeepsEntries-trans _ _ _ (lookup-KeepsEntries nodes h1 domain)
        (KeepsEntries-trans _ _ _ (lookup-KeepsEntries _ h2 domain)
          (sum_comparable-KeepsEntries domains _ h1 h2 _ _ _))
        q

  pub average_comparable-KeepsEntries :
      (nodes : Nodes) (h1 h2 : Hash) (authorities : List String)
      → KeepsEntries nodes
          (average_comparable_authority_latencies x now window nodes h1 h2 authorities).1
  unfolding average_comparable_authority_latencies
  average_comparable-KeepsEntries nodes h1 h2 authorities =
      sum_comparable-KeepsEntries authorities nodes h1 h2 _ _ 0
