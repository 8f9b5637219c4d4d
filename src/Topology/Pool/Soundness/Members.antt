-- ===== src/Topology/Pool/Soundness/Members.antt =====
-- internal/topology/pool.go: the map of nodes after `AddNodeFromSub` and `RemoveNodeFromSub`.
use resin.Prelude.{
  ℕ, zero, suc, ◌<◌, String, Option, none, some, ◌==◌, if◌then◌else◌, nat_key, ◌≡◌, refl, arith,
  Option-cases, Bool-cases, inl, inr, length, ◌∙◌, sym, subst,
}
use resin.Prelude.Int.{ℤ}
use resin.Map.{Map, load, Distinct}
use resin.Map.Laws.{load-store, load-remove, store-Distinct, remove-Distinct}
use resin.Node.Hash.{Hash}
use resin.Node.Latency.{new_latency_table}
use resin.Node.Entry.{
  NodeEntry, new_node_entry, add_subscription_id, remove_subscription_id, without_first,
}
use resin.Outbound.Build.{OutboundBuilder, with_outbound}
use resin.Topology.Pool.{PoolConfig, entry_to_add, run_on_node_added, release_node}
use resin.Topology.Pool.Soundness.{HasRoom}

-- the entry after a release, if some subscription still holds it
abbrev pub released : Option NodeEntry → String → Option NodeEntry
released none sub = none
released (some e) sub =
    let ids = without_first sub e.subscription_ids in
    if length ids == 0 then none else some (record e { subscription_ids = ids })

module _ (nodes : Map Hash NodeEntry) (h : Hash) (sub : String) (d : Distinct nodes) where
  pub load-release_node :
      (q : Hash)
      → load q (release_node nodes h sub).0
        ≡ (if h == q then released (load h nodes) sub else load q nodes)
  unfolding release_node remove_subscription_id
  load-release_node q = elim (Option-cases (load h nodes)) [
    | inl e ↦ rw (e, release_node) (ground (arith, e))
    | inr (e, found) ↦
        let ids = without_first sub e.subscription_ids in
        elim (Bool-cases (length ids == 0)) [
          | inl empty ↦
              rw (found, release_node, empty)
                (ground (arith, empty, found, load-remove h q nodes d))
          | inr held ↦
              rw (found, release_node, held)
                (ground
                  (arith, held, found, load-store h q (record e { subscription_ids = ids }) nodes))
        ]
  ]

  pub release_node-Distinct : Distinct (release_node nodes h sub).0
  unfolding release_node remove_subscription_id
  release_node-Distinct = elim (Option-cases (load h nodes)) [
    | inl e ↦ rw (e, release_node) d
    | inr (e, found) ↦
        let ids = without_first sub e.subscription_ids in
        elim (Bool-cases (length ids == 0)) [
          | inl empty ↦ rw (found, release_node, empty) (remove-Distinct h nodes d)
          | inr held ↦ rw (found, release_node, held) (store-Distinct h _ nodes d)
        ]
  ]

  pub released-HasRoom :
      ((e : NodeEntry) → load h nodes ≡ some e → HasRoom e.latency_table)
      → (e : NodeEntry) → released (load h nodes) sub ≡ some e
      → HasRoom e.latency_table
  released-HasRoom rooms e kept = elim (Option-cases (load h nodes)) [
    | inl none_there ↦ absurd (ground (arith, none_there, kept))
    | inr (e0, found) ↦
        let same : e0.latency_table ≡ e.latency_table = ground (arith, found, kept) in
        rw (← same) (rooms e0 found)
  ]

new_latency_table-HasRoom : (n : ℕ) → 0 < n → HasRoom (new_latency_table n)
unfolding new_latency_table
new_latency_table-HasRoom zero h = absurd (omega arith)
new_latency_table-HasRoom (suc n) h = omega arith

latency_table-add_subscription_id :
    (e : NodeEntry) (sub : String) → (add_subscription_id e sub).latency_table ≡ e.latency_table
unfolding add_subscription_id
latency_table-add_subscription_id e sub = ground arith

pub latency_table-with_outbound :
    (build : OutboundBuilder) (e : NodeEntry)
    → (with_outbound build e).latency_table ≡ e.latency_table
unfolding with_outbound
latency_table-with_outbound build e = ground arith

module _ (x : PoolConfig) (h : Hash) where
  latency_table-run_on_node_added :
      (found : Option NodeEntry) (e : NodeEntry)
      → (run_on_node_added x found h e).0.latency_table ≡ e.latency_table
  unfolding run_on_node_added
  latency_table-run_on_node_added (some _) e = refl
  latency_table-run_on_node_added none e = elim (Option-cases x.on_node_added) [
    | inl off ↦ rw (off, run_on_node_added) refl
    | inr (build, on) ↦ rw (on, run_on_node_added) (latency_table-with_outbound build e)
  ]

  -- The entry that `AddNodeFromSub` stores for what it finds.
  abbrev pub added : Option NodeEntry → String → String → ℤ → NodeEntry
  added found raw sub now =
      (run_on_node_added x found h (add_subscription_id (entry_to_add x found h raw now) sub)).0

  pub added-HasRoom :
      (found : Option NodeEntry) (raw sub : String) (now : ℤ)
      → 0 < x.max_latency_table_entries
      → ((e : NodeEntry) → found ≡ some e → HasRoom e.latency_table)
      → HasRoom (added found raw sub now).latency_table
  unfolding entry_to_add new_node_entry
  added-HasRoom found raw sub now room rooms =
      let e = add_subscription_id (entry_to_add x found h raw now) sub in
      let same =
        latency_table-run_on_node_added found e
        ∙ latency_table-add_subscription_id (entry_to_add x found h raw now) sub in
      subst HasRoom (sym same) (elim (Option-cases found) [
        | inl e ↦ rw e (new_latency_table-HasRoom x.max_latency_table_entries room)
        | inr (e, at) ↦ rw at (rooms e at)
      ])
