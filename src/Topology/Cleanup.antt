-- ===== src/Topology/Cleanup.antt =====
-- internal/topology/subscription_cleanup.go and ephemeral_cleaner.go: a subscription's nodes are
-- evicted if a test says so in two passes over the pool. The operation lock keeps the subscription
-- as it is; other goroutines change the pool between the passes, so each pass has a pool of its own.
pub mod Evictions
use resin.Prelude.{
  ℕ, String, Bool, true, false, not, ◌&&◌, ◌||◌, Option, none, some, List, [], ◌∷◌, ◌++◌, ◌==◌,
  if◌then◌else◌, length, string_key, nat_key,
}
use resin.Prelude.Int.{ℤ, pos, ◌-ℤ◌, ltb_ℤ, wrap64}
use resin.Map.{Map}
use resin.Node.Hash.{Hash}
use resin.Node.Entry.{NodeEntry, is_nil, has_outbound}
use resin.Subscription.{
  Subscription, ManagedNode, ManagedNodes, load_node, store_node, new_managed_nodes,
  swap_managed_nodes,
}
use resin.Topology.Pool.{GlobalNodePool, PoolConfig, PoolEvent, get_entry, remove_node_from_sub}

unfoldable pub should_evict_entry : ℤ → ℤ → NodeEntry → Bool
unfolding has_outbound wrap64 ◌-ℤ◌
should_evict_entry now evict_delay_ns e =
    if not (has_outbound e) && not (e.last_error == "")
    then true
    else ltb_ℤ (pos 0) e.circuit_open_since
      && ltb_ℤ evict_delay_ns (wrap64 (now -ℤ e.circuit_open_since))

unfoldable pub has_hash : Hash → List Hash → Bool
has_hash h [] = false
has_hash h (x ∷ xs) = x == h || has_hash h xs

module _ (should_remove : NodeEntry → Bool) where
  -- a node of the pool that the test takes
  unfoldable pub is_removable : GlobalNodePool → Hash → Bool
  unfolding get_entry
  is_removable g h = elim (get_entry g h) [ none ↦ false | some e ↦ should_remove e ]

  -- the first pass
  unfoldable pub remove_candidates : GlobalNodePool → ManagedNodes → List Hash
  unfolding is_removable
  remove_candidates g [] = []
  remove_candidates g ((h, managed) ∷ rest) =
      let found = remove_candidates g rest in
      if managed.evicted then found else if is_removable g h then h ∷ found else found

  -- the second pass
  unfoldable pub confirmed_remove : GlobalNodePool → ManagedNodes → List Hash → List Hash
  unfolding is_removable load_node
  confirmed_remove g current [] = []
  confirmed_remove g current (h ∷ candidates) =
      let found = confirmed_remove g current candidates in
      elim (load_node current h) [
        | none ↦ found
        | some managed ↦
            if managed.evicted then found else if is_removable g h then h ∷ found else found
      ]

unfoldable pub mark_evicted : List Hash → Hash → ManagedNode → ManagedNode
unfolding has_hash
mark_evicted confirmed h managed =
    if has_hash h confirmed then record managed { evicted = true } else managed

-- the third pass: nextManaged and newlyEvicted
unfoldable pub next_managed : List Hash → ManagedNodes → ManagedNodes → ManagedNodes
unfolding store_node mark_evicted
next_managed confirmed [] next = next
next_managed confirmed ((h, managed) ∷ rest) next =
    next_managed confirmed rest (store_node next h (mark_evicted confirmed h managed))

unfoldable pub newly_evicted : List Hash → ManagedNodes → List Hash
unfolding has_hash
newly_evicted confirmed [] = []
newly_evicted confirmed ((h, managed) ∷ rest) =
    let found = newly_evicted confirmed rest in
    if has_hash h confirmed && not managed.evicted then h ∷ found else found

pub record Cleaned : Type 0 where
  pub sub : Subscription
  pub pool : GlobalNodePool
  pub events : List PoolEvent
  pub evicted : List Hash

module _ (x : PoolConfig) where
  unfoldable pub remove_all : String → List Hash → GlobalNodePool → GlobalNodePool × List PoolEvent
  unfolding remove_node_from_sub
  remove_all sub [] g = (g, [])
  remove_all sub (h ∷ hashes) g =
      let (g', fired) = remove_node_from_sub x g h sub in
      let (g'', rest) = remove_all sub hashes g' in (g'', fired ++ rest)

  -- `CleanupSubscriptionNodesWithConfirmNoLock`; `g` is the pool of the first pass, `g'` that of
  -- the second.
  unfoldable pub cleanup_subscription_nodes :
      (NodeEntry → Bool) → Subscription → GlobalNodePool → GlobalNodePool → Cleaned
  unfolding remove_candidates confirmed_remove next_managed newly_evicted remove_all
      swap_managed_nodes
  cleanup_subscription_nodes should_remove sub g g' =
      let current = sub.managed_nodes in
      let unchanged : Cleaned = record { sub = sub; pool = g'; events = []; evicted = [] } in
      let candidates = remove_candidates should_remove g current in
      let confirmed = confirmed_remove should_remove g' current candidates in
      let evicted = newly_evicted confirmed current in
      let (pool, events) = remove_all sub.id evicted g' in
      if is_nil candidates || is_nil confirmed then unchanged else record {
        sub = swap_managed_nodes sub (next_managed confirmed current new_managed_nodes);
        pool = pool;
        events = events;
        evicted = evicted;
      }

  -- the hashes for which `onNodeEvicted` is called are `evicted`
  unfoldable pub sweep_one_subscription :
      Subscription → ℤ → GlobalNodePool → GlobalNodePool → Cleaned
  unfolding cleanup_subscription_nodes should_evict_entry
  sweep_one_subscription sub now g g' =
      cleanup_subscription_nodes (should_evict_entry now sub.ephemeral_node_evict_delay_ns) sub g g'
