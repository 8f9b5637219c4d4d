-- ===== src/Topology/Pool/Lookup/Offers.antt =====
-- internal/topology/pool.go: which subscription `ResolveNodeDisplayTag` names a node after.
use resin.Prelude.{
  String, Bool, true, false, Option, none, some, List, ◌≡◌, ◌⊎◌, All, not, ◌||◌, nat_key,
}
use resin.Prelude.Int.{int_key, ◌<ℤ◌}
use resin.Prelude.Text.{ltb_text}
use resin.Node.Hash.{Hash}
use resin.Node.Entry.{member, is_nil}
use resin.Map.{load}
use resin.Subscription.{Subscription, ManagedNode}
use resin.Topology.Pool.Lookup.{Holder, smallest_tag}

-- what a subscription with these tags offers
abbrev offered : Subscription → String → String → List String → Holder
offered sub id tag tags = record {
  created_at_ns = sub.created_at_ns;
  sub_id = id;
  sub_name = sub.name;
  tag = smallest_tag tag tags;
}

module _ (lookup : String → Option Subscription) (h : Hash) (enabled_only : Bool) where
  -- The subscription can name the node: it is enabled if it must be, and manages the node as active
  -- and with a tag.
  pub record CanName (id : String) (sub : Subscription) (managed : ManagedNode) : Type 0 where
    pub known : lookup id ≡ some sub
    pub permitted : not enabled_only || sub.enabled ≡ true
    pub managed_as : load h sub.managed_nodes ≡ some managed
    pub active : managed.evicted ≡ false
    pub tagged : is_nil managed.tags ≡ false

  -- What an offered holder says of its subscription.
  pub record Names (c : Holder) (id : String) (sub : Subscription) (managed : ManagedNode)
      : Type 0 where
    pub can_name : CanName id sub managed
    pub same_id : c.sub_id ≡ id
    pub same_time : c.created_at_ns ≡ sub.created_at_ns
    pub same_name : c.sub_name ≡ sub.name
    pub has_tag : member c.tag managed.tags ≡ true
    pub smallest : All (λ t. ltb_text t c.tag ≡ false) managed.tags

  -- the picked holder, by creation time and then ID
  abbrev pub IsFirst : List String → Option Holder → Type 0
  IsFirst ids none =
      (id : String) (sub : Subscription) (managed : ManagedNode)
      → member id ids ≡ true
      → ¬ CanName id sub managed
  IsFirst ids (some b) =
      ((sub : Subscription) × (managed : ManagedNode) × (member b.sub_id ids ≡ true)
        × Names b b.sub_id sub managed)
      × ((id : String) (other : Subscription) (managed : ManagedNode)
          → member id ids ≡ true
          → CanName id other managed
          → (b.created_at_ns <ℤ other.created_at_ns)
            ⊎ ((b.created_at_ns ≡ other.created_at_ns) × (ltb_text id b.sub_id ≡ false)))
