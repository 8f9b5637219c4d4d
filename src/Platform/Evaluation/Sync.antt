-- ===== src/Platform/Evaluation/Sync.antt =====
-- internal/platform/platform.go: the routable view and the pool.
use resin.Prelude.{
  String, Bool, true, false, Option, none, some, [], ◌∷◌, ◌==◌, if◌then◌else◌, nat_key, ◌≡◌, refl,
  arith, Bool-cases, inl, inr, ◌∙◌, length, get_elem?_bound,
}
use resin.Map.{Map, load, Distinct}
use resin.Netip.{Addr}
use resin.Node.Hash.{Hash}
use resin.Node.Entry.{NodeEntry, SubLookup}
use resin.Platform.{Platform}
use resin.Platform.View.{RoutableView, contains, add, new_routable_view, range}
use resin.Platform.View.Sharding.{
  IsValid, add-IsValid, remove_hash-IsValid, contains-add, contains-remove_hash,
}
use resin.Platform.View.Picks.{clear-new, new-IsValid, contains-range, size-range}
use resin.Platform.Evaluation.{evaluate_node, rebuild_loop, full_rebuild, notify_dirty}

new-contains : (q : Hash) → contains new_routable_view q ≡ false
unfolding new_routable_view
new-contains q = elim (Bool-cases (contains new_routable_view q)) [
  | inr e ↦ e
  | inl e ↦
      let (i, at) = (contains-range new_routable_view new-IsValid q).0 e in
      let none_there : length (range new_routable_view) ≡ 0 =
        ground (arith, size-range new_routable_view new-IsValid) in
      let impossible : ⊥ =
        omega (arith, none_there, get_elem?_bound (range new_routable_view) i at) in
      elim impossible [ ]
]

module _ (p : Platform RoutableView) (lookup : Option SubLookup)
    (geo : Option (Addr → String)) where
  -- The node is in the pool and passes the platform's conditions.
  abbrev pub is_routable : Option NodeEntry → Bool
  is_routable none = false
  is_routable (some e) = evaluate_node p lookup geo e

  rebuild_loop_lem :
      (pool : Map Hash NodeEntry) (v : RoutableView) (q : Hash)
      → Distinct pool
      → IsValid v
      → IsValid (rebuild_loop p lookup geo pool v)
        × (contains (rebuild_loop p lookup geo pool v) q
            ≡ (if is_routable (load q pool) then true else contains v q))
  unfolding rebuild_loop load
  rebuild_loop_lem [] v q d valid = (valid, refl)
  rebuild_loop_lem ((h, e) ∷ pool) v q d valid = elim (Bool-cases (evaluate_node p lookup geo e)) [
    | inl on ↦
        let (ok, found) = rebuild_loop_lem pool (add v h) q d.1 (add-IsValid v valid h) in
        rw (on, rebuild_loop) (ok, ground (arith, d.0, on, found, contains-add v valid h q))
    | inr off ↦
        let (ok, found) = rebuild_loop_lem pool v q d.1 valid in
        rw (off, rebuild_loop) (ok, ground (arith, d.0, off, found))
  ]

  -- A rebuild from any pool leaves a valid view that contains a hash exactly if the pool has it and
  -- its entry passes the platform's conditions.
  pub full_rebuild_lem :
      (pool : Map Hash NodeEntry) (q : Hash)
      → Distinct pool
      → IsValid p.view
      → let v = (full_rebuild p lookup geo pool).view in
        IsValid v × (contains v q ≡ is_routable (load q pool))
  unfolding full_rebuild
  full_rebuild_lem pool q d valid =
      let fresh = clear-new p.view valid in
      let (ok, found) = rebuild_loop_lem pool new_routable_view q d new-IsValid in
      rw fresh (ok, found ∙ ground (arith, new-contains q))

  -- After a notification about a node the view is right about that node, whatever the pool now has
  -- for it, and unchanged about all others; it stays valid.
  pub notify_dirty_lem :
      (h q : Hash) (e : Option NodeEntry)
      → IsValid p.view
      → let v = (notify_dirty p lookup geo h e).view in
        IsValid v × (contains v q ≡ (if h == q then is_routable e else contains p.view q))
  unfolding notify_dirty
  notify_dirty_lem h q none valid =
      (remove_hash-IsValid p.view valid h, contains-remove_hash p.view valid h q)
  notify_dirty_lem h q (some e) valid = elim (Bool-cases (evaluate_node p lookup geo e)) [
    | inl on ↦ rw (on, notify_dirty) (add-IsValid p.view valid h, contains-add p.view valid h q)
    | inr off ↦
        rw (off, notify_dirty)
          (remove_hash-IsValid p.view valid h, contains-remove_hash p.view valid h q)
  ]
