-- ===== src/Outbound/Manager.antt =====
-- internal/outbound/manager.go: `OutboundManager` on the pool.
use resin.Prelude.{none, some, [], ◌∷◌, nat_key}
use resin.Map.{Map, load, store}
use resin.Node.Hash.{Hash}
use resin.Node.Entry.{NodeEntry}
use resin.Outbound.Build.{OutboundBuilder, with_outbound}
use resin.Topology.Pool.{GlobalNodePool}

module _ (build : OutboundBuilder) where
  unfoldable pub ensure_node_outbound : GlobalNodePool → Hash → GlobalNodePool
  unfolding load store with_outbound
  ensure_node_outbound g h = elim (load h g.nodes) [
    | none ↦ g
    | some e ↦ record g { nodes = store h (with_outbound build e) g.nodes }
  ]

  unfoldable pub warmup_loop : Map Hash NodeEntry → GlobalNodePool → GlobalNodePool
  unfolding ensure_node_outbound
  warmup_loop [] g = g
  warmup_loop ((h, e) ∷ visited) g = warmup_loop visited (ensure_node_outbound g h)

  unfoldable pub warmup_all : GlobalNodePool → GlobalNodePool
  unfolding warmup_loop
  warmup_all g = warmup_loop g.nodes g

unfoldable pub remove_node_outbound : NodeEntry → NodeEntry
remove_node_outbound e = record e { outbound = none }
