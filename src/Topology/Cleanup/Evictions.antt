-- ===== src/Topology/Cleanup/Evictions.antt =====
-- internal/topology/subscription_cleanup.go: which nodes are evicted, and what is left.
use resin.Prelude.{
  String, Bool, true, false, not, ◌&&◌, ◌||◌, Option, none, some, List, [], ◌∷◌, ◌==◌,
  if◌then◌else◌, string_key, nat_key, ◌≡◌, refl, arith, Bool-cases, inl, inr, ◌∙◌, sym, ap,
  if_cases,
}
use resin.Map.{load, store, Distinct}
use resin.Map.Laws.{load-store}
use resin.Node.Hash.{Hash}
use resin.Node.Entry.{NodeEntry, is_nil}
use resin.Subscription.{
  Subscription, ManagedNode, ManagedNodes, load_node, store_node, new_managed_nodes,
  swap_managed_nodes,
}
use resin.Topology.Pool.{
  GlobalNodePool, PoolConfig, remove_node_from_sub, notify_all_platforms_dirty,
}
use resin.Topology.Pool.References.{Holds, Holds-ext, remove-Holds, update}
use resin.Topology.Cleanup.{
  has_hash, is_removable, remove_candidates, confirmed_remove, mark_evicted, next_managed,
  newly_evicted, remove_all, Cleaned, cleanup_subscription_nodes,
}

-- A managed node that is not evicted yet.
abbrev pub is_active : Option ManagedNode → Bool
is_active none = false
is_active (some n) = not n.evicted

has_hash-nil : (h : Hash) (xs : List Hash) → is_nil xs ≡ true → has_hash h xs ≡ false
unfolding has_hash
has_hash-nil h [] e = refl
has_hash-nil h (x ∷ xs) e = absurd (ground arith)

module _ (test : NodeEntry → Bool) (h : Hash) where
  has_hash-candidates :
      (g : GlobalNodePool) (m : ManagedNodes)
      → Distinct m
      → has_hash h (remove_candidates test g m) ≡ (is_active (load h m) && is_removable test g h)
  unfolding has_hash remove_candidates load
  has_hash-candidates g [] d = refl
  has_hash-candidates g ((k, n) ∷ m) d = ground (arith, has_hash-candidates g m d.1, d.0)

  has_hash-confirmed :
      (g : GlobalNodePool) (current : ManagedNodes) (candidates : List Hash)
      → has_hash h (confirmed_remove test g current candidates)
        ≡ (has_hash h candidates && (is_active (load h current) && is_removable test g h))
  unfolding has_hash confirmed_remove load_node
  has_hash-confirmed g current [] = refl
  has_hash-confirmed g current (k ∷ candidates) =
      ground (arith, has_hash-confirmed g current candidates)

module _ (confirmed : List Hash) (h : Hash) where
  has_hash-newly_evicted :
      (m : ManagedNodes)
      → Distinct m
      → has_hash h (newly_evicted confirmed m) ≡ (is_active (load h m) && has_hash h confirmed)
  unfolding has_hash newly_evicted load
  has_hash-newly_evicted [] d = refl
  has_hash-newly_evicted ((k, n) ∷ m) d = ground (arith, has_hash-newly_evicted m d.1, d.0)

  load-next_managed :
      (m next : ManagedNodes)
      → Distinct m
      → load h (next_managed confirmed m next)
        ≡ elim (load h m) [ none ↦ load h next | some n ↦ some (mark_evicted confirmed h n) ]
  unfolding next_managed store_node load
  load-next_managed [] next d = refl
  load-next_managed ((k, n) ∷ m) next d = ground (
    arith,
    load-next_managed m (store k (mark_evicted confirmed k n) next) d.1,
    load-store k h (mark_evicted confirmed k n) next,
    d.0,
  )

-- The subscription lets go of the nodes of a list.
abbrev pub without : (Hash → String → Bool) → String → (Hash → Bool) → Hash → String → Bool
without f sub gone q s = if sub == s && gone q then false else f q s

remove_all-Holds :
    (x : PoolConfig) (sub : String) (hashes : List Hash) (g : GlobalNodePool)
    (f : Hash → String → Bool)
    → Holds g.nodes f
    → Holds (remove_all x sub hashes g).0.nodes (without f sub (λ q. has_hash q hashes))
unfolding remove_all remove_node_from_sub notify_all_platforms_dirty has_hash
remove_all-Holds x sub [] g f k = Holds-ext g.nodes f _ (λ q s. ground arith) k
remove_all-Holds x sub (h ∷ hashes) g f k =
    let g' = (remove_node_from_sub x g h sub).0 in
    let f' = update f h sub false in
    Holds-ext (remove_all x sub hashes g').0.nodes (without f' sub (λ q. has_hash q hashes)) _
      (λ q s. ground arith) (remove_all-Holds x sub hashes g' f' (remove-Holds x g.nodes f k h sub))

module _ (x : PoolConfig) (test : NodeEntry → Bool) (sub : Subscription) (g g' : GlobalNodePool)
    (d : Distinct sub.managed_nodes) where
  abbrev current : ManagedNodes
  current = sub.managed_nodes

  abbrev confirmed : List Hash
  confirmed = confirmed_remove test g' current (remove_candidates test g current)

  -- active, and taken by the test in both passes
  abbrev pub is_evictable : Hash → Bool
  is_evictable h = is_active (load h current) && is_removable test g h && is_removable test g' h

  has_hash-confirmed_twice : (h : Hash) → has_hash h confirmed ≡ is_evictable h
  has_hash-confirmed_twice h =
      has_hash-confirmed test h g' current (remove_candidates test g current)
      ∙ ground (arith, has_hash-candidates test h g current d)

  evicted_twice : (h : Hash) → has_hash h (newly_evicted confirmed current) ≡ is_evictable h
  evicted_twice h =
      has_hash-newly_evicted confirmed h current d ∙ ground (arith, has_hash-confirmed_twice h)

  -- the managed node after the cleanup
  abbrev pub managed_after : Bool → Option ManagedNode → Option ManagedNode
  managed_after gone none = none
  managed_after gone (some n) = some (if gone then record n { evicted = true } else n)

  next_twice :
      (h : Hash)
      → load h (next_managed confirmed current new_managed_nodes)
        ≡ managed_after (is_evictable h) (load h current)
  unfolding mark_evicted load
  next_twice h =
      load-next_managed confirmed h current new_managed_nodes d
      ∙ ground (arith, has_hash-confirmed_twice h)

  -- nothing to do in one of the passes
  idle :
      is_nil (remove_candidates test g current) || is_nil confirmed ≡ true
      → (h : Hash) → is_evictable h ≡ false
  unfolding has_hash
  idle none_found h = elim (Bool-cases (is_nil confirmed)) [
    | inl e ↦ sym (has_hash-confirmed_twice h) ∙ has_hash-nil h confirmed e
    | inr e ↦
        let e' : is_nil (remove_candidates test g current) ≡ true = ground (arith, e) in
        let never = has_hash-nil h (remove_candidates test g current) e' in
        ground (arith, never, has_hash-candidates test h g current d)
  ]

  kept :
      (h : Hash) (o : Option ManagedNode)
      → is_evictable h ≡ false
      → o ≡ managed_after (is_evictable h) o
  kept h none never = refl
  kept h (some n) never = ap (λ (b : Bool). managed_after b (some n)) (sym never)

  -- A hash is evicted exactly if the subscription managed it as active and the test took its entry
  -- in both passes. Each managed node keeps its tags and is marked as evicted if it is evicted now;
  -- no other is managed. Where the second pool listed each holder of a node once, the subscription
  -- no longer holds the evicted nodes, all other holders stay, and the pool keeps no node without.
  pub cleanup_subscription_nodes_lem :
      (f : Hash → String → Bool)
      → Holds g'.nodes f
      → let c = cleanup_subscription_nodes x test sub g g' in
        ((h : Hash) → has_hash h c.evicted ≡ is_evictable h)
        × ((h : Hash)
            → load h c.sub.managed_nodes ≡ managed_after (is_evictable h) (load h current))
        × Holds c.pool.nodes (without f sub.id is_evictable)
  unfolding cleanup_subscription_nodes swap_managed_nodes
  cleanup_subscription_nodes_lem f k =
      if_cases
        (λ (c : Cleaned).
          ((h : Hash) → has_hash h c.evicted ≡ is_evictable h)
          × ((h : Hash)
              → load h c.sub.managed_nodes ≡ managed_after (is_evictable h) (load h current))
          × Holds c.pool.nodes (without f sub.id is_evictable))
        (is_nil (remove_candidates test g current) || is_nil confirmed)
        (λ none_found. (
          λ h. sym (idle none_found h),
          λ h. kept h (load h current) (idle none_found h),
          Holds-ext g'.nodes f (without f sub.id is_evictable)
              (λ q s. ground (arith, idle none_found q)) k,
        ))
        (λ some_found. (
          evicted_twice,
          next_twice,
          Holds-ext _ _ _ (λ q s. ground (arith, evicted_twice q))
              (remove_all-Holds x sub.id (newly_evicted confirmed current) g' f k),
        ))
