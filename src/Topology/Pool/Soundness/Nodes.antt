-- ===== src/Topology/Pool/Soundness/Nodes.antt =====
-- internal/topology/pool.go: the operations on one node keep the invariant of the pool. Most tell
-- the platforms of it; those that do not change nothing that a platform looks at.
use resin.Prelude.{
  ◌<◌, String, Bool, true, false, not, Option, none, some, ◌==◌, string_key, nat_key, ◌≡◌, refl,
  arith, Option-cases, Bool-cases, inl, inr, ◌∙◌, sym, ap, subst, if_both, ◌||◌, List,
}
use resin.Prelude.Int.{ℤ}
use resin.Map.{Map, load, store, Distinct}
use resin.Map.Laws.{load-store, store-Distinct}
use resin.Netip.{Addr}
use resin.Node.Hash.{Hash}
use resin.Node.Latency.{LatencyTable}
use resin.Node.Entry.{NodeEntry, is_circuit_open}
use resin.Platform.{Platform}
use resin.Platform.View.{RoutableView}
use resin.Platform.Evaluation.Sync.{is_routable}
use resin.Outbound.Build.{OutboundBuilder, with_outbound}
use resin.Outbound.Manager.{ensure_node_outbound}
use resin.Topology.Pool.{
  GlobalNodePool, PoolConfig, PoolEvent, make_sub_lookup, notify_all_platforms_dirty,
  add_node_from_sub, release_node, remove_node_from_sub,
}
use resin.Topology.Pool.Health.{
  apply_result, put_entry, passive_circuit_breaker_disabled, record_result, record_passive_result,
  record_latency, sample_of, probe_attempted, decay_window, is_authority_domain, apply_egress,
  update_node_egress_ip,
}
use resin.Topology.Pool.Soundness.Alike.{
  Alike, apply_result-Alike, apply_result-HasRoom, probe_attempted-Alike, sample-Alike,
  sample-HasRoom, apply_egress-Alike, apply_egress-HasRoom, with_outbound-Alike,
}
use resin.Topology.Pool.Soundness.Members.{
  load-release_node, release_node-Distinct, released-HasRoom, added, added-HasRoom,
  latency_table-with_outbound,
}
use resin.Topology.Pool.Soundness.{HasRoom, IsSound, notify-IsSound}

sample_of-table :
    (latency : Option ℤ) (table : Option LatencyTable) (sample : ℤ) (t : LatencyTable)
    → sample_of latency table ≡ some (sample, t)
    → table ≡ some t
unfolding sample_of
sample_of-table none table sample t h = absurd (ground arith)
sample_of-table (some latency) none sample t h = absurd (ground arith)
sample_of-table (some latency) (some t') sample t h = ground (arith, h)

module _ {late : Hash → Bool} (x : PoolConfig) (g : GlobalNodePool) (k : IsSound late x g) where
  -- A change of the entry under one hash, and a notification.
  pub change-IsSound :
      (h : Hash) (nodes : Map Hash NodeEntry)
      → Distinct nodes
      → ((q : Hash) → h == q ≡ false → load q nodes ≡ load q g.nodes)
      → ((e : NodeEntry) → load h nodes ≡ some e → HasRoom e.latency_table)
      → IsSound late x (notify_all_platforms_dirty x (record g { nodes = nodes }) h)
  change-IsSound h nodes d others room =
      notify-IsSound x (record g { nodes = nodes })
        (record {
          distinct = d;
          rooms = λ q e at. elim (Bool-cases (h == q)) [
            | inl here ↦
                let same : q ≡ h = ground (arith, here) in
                room e (subst (λ t. load t nodes ≡ some e) same at)
            | inr other ↦ k.loaded.rooms q e (sym (others q other) ∙ at)
          ];
          valid = k.loaded.valid;
          agree = k.loaded.agree;
        })
        h
        (λ id r p at found.
          let s = k.shows id r p at found in
          record {
            valid = s.valid;
            right = λ q other on_time.
                s.right q on_time
                ∙ ap (λ o. is_routable p (some (make_sub_lookup x)) x.geo_lookup o)
                    (sym (others q other));
          })

  -- A change to an entry that platforms treat alike, without a notification.
  pub quiet-IsSound :
      (h : Hash) (e e' : NodeEntry)
      → load h g.nodes ≡ some e
      → Alike e e'
      → HasRoom e'.latency_table
      → IsSound late x (record g { nodes = store h e' g.nodes })
  quiet-IsSound h e e' found alike room = record {
    loaded = record {
      distinct = store-Distinct h e' g.nodes k.loaded.distinct;
      rooms = λ q o at. elim (Bool-cases (h == q)) [
        | inl here ↦
            let same : e' ≡ o = ground (arith, here, load-store h q e' g.nodes) in
            subst (λ (t : NodeEntry). HasRoom t.latency_table) same room
        | inr other ↦ k.loaded.rooms q o (ground (arith, other, load-store h q e' g.nodes))
      ];
      valid = k.loaded.valid;
      agree = k.loaded.agree;
    };
    shows = λ id r p at found'.
        let s = k.shows id r p at found' in
        record { valid = s.valid; right = λ q on_time. s.right q on_time ∙ same_answer p q };
  }
    where
      same_answer :
          (p : Platform RoutableView) (q : Hash)
          → is_routable p (some (make_sub_lookup x)) x.geo_lookup (load q g.nodes)
            ≡ is_routable p (some (make_sub_lookup x)) x.geo_lookup (load q (store h e' g.nodes))
      same_answer p q =
          ground (
            arith,
            found,
            load-store h q e' g.nodes,
            alike p (some (make_sub_lookup x)) x.geo_lookup,
          )

  -- An entry put back, with a notification unless platforms treat it alike.
  pub put_entry-IsSound :
      (h : Hash) (e e' : NodeEntry) (notify : Bool)
      → load h g.nodes ≡ some e
      → HasRoom e'.latency_table
      → (notify ≡ false → Alike e e')
      → IsSound late x (put_entry x g h e' notify)
  unfolding put_entry
  put_entry-IsSound h e e' true found room alike =
      change-IsSound h (store h e' g.nodes) (store-Distinct h e' g.nodes k.loaded.distinct)
        (λ q other. ground (arith, other, load-store h q e' g.nodes))
        (λ o at.
          let same : e' ≡ o = ground (arith, load-store h h e' g.nodes) in
          subst (λ (t : NodeEntry). HasRoom t.latency_table) same room)
  put_entry-IsSound h e e' false found room alike = quiet-IsSound h e e' found (alike refl) room

  pub result-IsSound :
      (h : Hash) (success : Bool) (now : ℤ) → IsSound late x (record_result x g h success now).0
  unfolding record_result
  result-IsSound h success now = elim (Option-cases (load h g.nodes)) [
    | inl e ↦ rw (e, record_result) k
    | inr (e, found) ↦
        rw (found, record_result)
          (put_entry-IsSound h e (apply_result x e success now).0 (apply_result x e success now).2
            found (apply_result-HasRoom x success e now (k.loaded.rooms h e found))
            (apply_result-Alike x success e now))
  ]

  pub passive-IsSound :
      (id : String) (h : Hash) (success : Bool) (now : ℤ)
      → IsSound late x (record_passive_result x g id h success now).0
  unfolding record_passive_result
  passive-IsSound id h success now =
      if_both (λ (r : GlobalNodePool × List PoolEvent). IsSound late x r.0)
        (success || not (passive_circuit_breaker_disabled g id)) (result-IsSound h success now) k

  pub egress-IsSound :
      (h : Hash) (ip : Option Addr) (loc : Option String) (now : ℤ)
      → IsSound late x (update_node_egress_ip x g h ip loc now).0
  unfolding update_node_egress_ip
  egress-IsSound h ip loc now = elim (Option-cases (load h g.nodes)) [
    | inl e ↦ rw (e, update_node_egress_ip) k
    | inr (e, found) ↦
        rw (found, update_node_egress_ip)
          (put_entry-IsSound h e (apply_egress x e ip loc now).0 (apply_egress x e ip loc now).1
            found (apply_egress-HasRoom x e ip loc now (k.loaded.rooms h e found))
            (apply_egress-Alike x e ip loc now))
  ]

  latency_at :
      (h : Hash) (raw : String) (now now' : ℤ) (e : NodeEntry) (latency : Option ℤ)
      (o : Option (ℤ × LatencyTable))
      → load h g.nodes ≡ some e
      → sample_of latency e.latency_table ≡ o
      → IsSound late x (record_latency x g h raw latency now now').0
  unfolding record_latency
  latency_at h raw now now' e latency none found no_sample =
      let is_authority = is_authority_domain x (x.extract_domain raw) in
      rw (found, record_latency, no_sample)
        (put_entry-IsSound h e (probe_attempted e is_authority now) false found
          (k.loaded.rooms h e found) (λ _. probe_attempted-Alike e is_authority now))
  latency_at h raw now now' e latency (some (sample, t)) found sampled =
      let domain = x.extract_domain raw in
      let is_authority = is_authority_domain x domain in
      let stored = sample_of-table latency e.latency_table sample t sampled in
      let room = subst HasRoom stored (k.loaded.rooms h e found) in
      rw (found, record_latency, sampled)
        (put_entry-IsSound h e _ _ found
          (sample-HasRoom x t domain sample (decay_window x) now' is_authority room)
          (sample-Alike x e t domain sample (decay_window x) now now' is_authority stored room))

  pub latency-IsSound :
      (h : Hash) (raw : String) (latency : Option ℤ) (now now' : ℤ)
      → IsSound late x (record_latency x g h raw latency now now').0
  unfolding record_latency
  latency-IsSound h raw latency now now' = elim (Option-cases (load h g.nodes)) [
    | inl e ↦ rw (e, record_latency) k
    | inr (e, found) ↦ latency_at h raw now now' e latency _ found refl
  ]

  pub add-IsSound :
      (h : Hash) (raw sub : String) (now : ℤ)
      → 0 < x.max_latency_table_entries
      → IsSound late x (add_node_from_sub x g h raw sub now).0
  unfolding add_node_from_sub
  add-IsSound h raw sub now room =
      let e = added x h (load h g.nodes) raw sub now in
      change-IsSound h (store h e g.nodes) (store-Distinct h e g.nodes k.loaded.distinct)
        (λ q other. ground (arith, other, load-store h q e g.nodes))
        (λ o at.
          let same : e ≡ o = ground (arith, load-store h h e g.nodes) in
          subst (λ (t : NodeEntry). HasRoom t.latency_table) same
            (added-HasRoom x h (load h g.nodes) raw sub now room (k.loaded.rooms h)))

  pub remove-IsSound : (h : Hash) (sub : String) → IsSound late x (remove_node_from_sub x g h sub).0
  unfolding remove_node_from_sub
  remove-IsSound h sub =
      change-IsSound h (release_node g.nodes h sub).0
        (release_node-Distinct g.nodes h sub k.loaded.distinct)
        (λ q other. ground (arith, other, load-release_node g.nodes h sub k.loaded.distinct q))
        (λ e at.
          released-HasRoom g.nodes h sub k.loaded.distinct (k.loaded.rooms h) e
            (ground (arith, load-release_node g.nodes h sub k.loaded.distinct h)))

  pub ensure-IsSound :
      (build : OutboundBuilder) (h : Hash) (e : NodeEntry)
      → load h g.nodes ≡ some e
      → is_circuit_open e ≡ true
      → IsSound late x (ensure_node_outbound build g h)
  unfolding ensure_node_outbound
  ensure-IsSound build h e found opened =
      rw (found, ensure_node_outbound)
        (quiet-IsSound h e (with_outbound build e) found (with_outbound-Alike build e opened)
          (subst HasRoom (sym (latency_table-with_outbound build e)) (k.loaded.rooms h e found)))

-- A change to one entry without a notification, after which its node is late.
module _ {late late' : Hash → Bool} (x : PoolConfig) (g : GlobalNodePool) (k : IsSound late x g)
    (h : Hash) (more : (q : Hash) → late' q ≡ false → (late q ≡ false) × (h == q ≡ false)) where
  later-IsSound :
      (e e' : NodeEntry)
      → load h g.nodes ≡ some e
      → HasRoom e'.latency_table
      → IsSound late' x (record g { nodes = store h e' g.nodes })
  later-IsSound e e' found room = record {
    loaded = record {
      distinct = store-Distinct h e' g.nodes k.loaded.distinct;
      rooms = λ q o at. elim (Bool-cases (h == q)) [
        | inl here ↦
            let same : e' ≡ o = ground (arith, here, load-store h q e' g.nodes) in
            subst (λ (t : NodeEntry). HasRoom t.latency_table) same room
        | inr other ↦ k.loaded.rooms q o (ground (arith, other, load-store h q e' g.nodes))
      ];
      valid = k.loaded.valid;
      agree = k.loaded.agree;
    };
    shows = λ id r p at found'.
        let s = k.shows id r p at found' in
        record {
          valid = s.valid;
          right = λ q on_time.
              let (before, other) = more q on_time in
              s.right q before
              ∙ ap (λ o. is_routable p (some (make_sub_lookup x)) x.geo_lookup o)
                  (sym (ground (arith, load-store h q e' g.nodes, other)));
        };
  }

  pub ensure_late-IsSound :
      (build : OutboundBuilder) → IsSound late' x (ensure_node_outbound build g h)
  unfolding ensure_node_outbound
  ensure_late-IsSound build = elim (Option-cases (load h g.nodes)) [
    | inl gone ↦
        rw (gone, ensure_node_outbound)
          (record {
            loaded = k.loaded;
            shows = λ id r p at found.
                let s = k.shows id r p at found in
                record { valid = s.valid; right = λ q on_time. s.right q (more q on_time).0 };
          })
    | inr (e, found) ↦
        rw (found, ensure_node_outbound)
          (later-IsSound e (with_outbound build e) found
            (subst HasRoom (sym (latency_table-with_outbound build e)) (k.loaded.rooms h e found)))
  ]
