-- ===== src/Routing/Evaluation.antt =====
-- internal/routing/latency_eval.go: the recent latencies of a node. A read of a latency table also
-- moves its access times, so the pool's nodes are passed through. All clock reads of one request
-- give the same time `now`.
pub mod Keeps
use resin.Prelude.{
  ℕ, ◌+◌, zero, suc, String, Bool, true, false, ◌&&◌, Option, none, some, List, [], ◌∷◌, ◌==◌,
  if◌then◌else◌, string_key, nat_key,
}
use resin.Prelude.Int.{ℤ, pos, ◌+ℤ◌, ◌-ℤ◌, leb_ℤ, wrap64, saturate64, div_trunc}
use resin.Map.{Map, load, store}
use resin.Node.Hash.{Hash}
use resin.Node.Latency.{Formulas, DomainLatencyStats, LatencyTable, get_domain_stats}
use resin.Node.Entry.{NodeEntry, is_nil}

-- The nodes of the pool.
abbrev pub Nodes : Type 0
Nodes = Map Hash NodeEntry

-- now.Sub(t) <= window
unfoldable pub is_recent : ℤ → ℤ → ℤ → Bool
unfolding saturate64 ◌-ℤ◌
is_recent t now window = leb_ℤ (saturate64 (now -ℤ t)) window

unfoldable pub if_recent : Option DomainLatencyStats → ℤ → ℤ → Option ℤ
unfolding is_recent
if_recent none now window = none
if_recent (some stats) now window =
    if is_recent stats.last_updated now window then some stats.ewma else none

unfoldable pub table_of : Option NodeEntry → Option LatencyTable
table_of none = none
table_of (some e) = e.latency_table

-- the read of the table, with the node written back
unfoldable pub set_table : Hash → LatencyTable → Nodes → Nodes
unfolding load store
set_table h t nodes = elim (load h nodes) [
  | none ↦ nodes
  | some e ↦ store h (record e { latency_table = some t }) nodes
]

module _ (x : Formulas) (now window : ℤ) where
  unfoldable pub lookup_recent_domain_latency : Nodes → Hash → String → Option ℤ × Nodes
  unfolding if_recent table_of set_table load get_domain_stats
  lookup_recent_domain_latency nodes h domain = elim (table_of (load h nodes)) [
    | none ↦ (none, nodes)
    | some t ↦
        if domain == ""
        then (none, nodes)
        else let (found, t') = get_domain_stats x t domain now in
          (if_recent found now window, set_table h t' nodes)
  ]

  -- the loop, with `sum` and `count`
  unfoldable pub sum_recent : Nodes → Hash → List String → ℤ → ℕ → (ℤ × ℕ) × Nodes
  unfolding lookup_recent_domain_latency wrap64 ◌+ℤ◌
  sum_recent nodes h [] sum count = ((sum, count), nodes)
  sum_recent nodes h (domain ∷ domains) sum count =
      let (latency, nodes') = lookup_recent_domain_latency nodes h domain in
      let (sum', count') = elim latency as (λ _. ℤ × ℕ) [
        | none ↦ (sum, count)
        | some l ↦ (wrap64 (sum +ℤ l), count + 1)
      ] in
      sum_recent nodes' h domains sum' count'

  unfoldable pub average_recent_authority_latency : Nodes → Hash → List String → Option ℤ × Nodes
  unfolding sum_recent div_trunc table_of load
  average_recent_authority_latency nodes h authorities = elim (table_of (load h nodes)) [
    | none ↦ (none, nodes)
    | some t ↦
        let ((sum, count), nodes') = sum_recent nodes h authorities (pos 0) 0 in
        (if count == 0 then none else some (div_trunc sum count), nodes')
  ]

  unfoldable pub sum_comparable :
      Nodes → Hash → Hash → List String → ℤ → ℤ → ℕ → (ℤ × ℤ × ℕ) × Nodes
  unfolding lookup_recent_domain_latency wrap64 ◌+ℤ◌
  sum_comparable nodes h1 h2 [] sum1 sum2 count = ((sum1, sum2, count), nodes)
  sum_comparable nodes h1 h2 (domain ∷ domains) sum1 sum2 count =
      let (latency1, nodes1) = lookup_recent_domain_latency nodes h1 domain in
      let (latency2, nodes2) = lookup_recent_domain_latency nodes1 h2 domain in
      let (sum1', sum2', count') = elim latency1 as (λ _. ℤ × ℤ × ℕ) [
        | none ↦ (sum1, sum2, count)
        | some l1 ↦ elim latency2 [
          | none ↦ (sum1, sum2, count)
          | some l2 ↦ (wrap64 (sum1 +ℤ l1), wrap64 (sum2 +ℤ l2), count + 1)
        ]
      ] in
      sum_comparable nodes2 h1 h2 domains sum1' sum2' count'

  -- The callers have both tables.
  unfoldable pub average_comparable_authority_latencies :
      Nodes → Hash → Hash → List String → Option (ℤ × ℤ) × Nodes
  unfolding sum_comparable div_trunc
  average_comparable_authority_latencies nodes h1 h2 authorities =
      let ((sum1, sum2, count), nodes') =
        sum_comparable nodes h1 h2 authorities (pos 0) (pos 0) 0 in
      (if count == 0 then none else some (div_trunc sum1 count, div_trunc sum2 count), nodes')
