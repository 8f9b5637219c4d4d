-- ===== src/Topology/Pool/Lookup.antt =====
-- internal/topology/pool.go: what the pool says of a node by its subscriptions.
pub mod Holders
pub mod Offers
use resin.Prelude.{
  String, Bool, true, false, not, ◌&&◌, ◌||◌, Option, none, some, List, [], ◌∷◌, ◌==◌,
  if◌then◌else◌, string_key, nat_key,
}
use resin.Prelude.Int.{ℤ, ltb_ℤ, int_key}
use resin.Prelude.Text.{join, ltb_text}
use resin.Map.{load}
use resin.Node.Hash.{Hash}
use resin.Node.Entry.{NodeEntry, is_nil, is_disabled_by_subscriptions, is_healthy}
use resin.Subscription.{Subscription, ManagedNode, load_node}
use resin.Topology.Pool.{GlobalNodePool, PoolConfig, get_entry, make_sub_lookup}

-- the variables `best…` of the loop
pub record Holder : Type 0 where
  pub created_at_ns : ℤ
  pub sub_id : String
  pub sub_name : String
  pub tag : String

unfoldable pub smallest_tag : String → List String → String
unfolding ltb_text
smallest_tag smallest [] = smallest
smallest_tag smallest (tag ∷ tags) =
    smallest_tag (if ltb_text tag smallest then tag else smallest) tags

-- what one subscription offers, if the loop does not pass it over
unfoldable pub managed_holder : Subscription → String → Option ManagedNode → Option Holder
unfolding smallest_tag
managed_holder sub id none = none
managed_holder sub id (some managed) = if managed.evicted then none else elim managed.tags [
  | [] ↦ none
  | tag ∷ tags ↦ some (record {
    created_at_ns = sub.created_at_ns;
    sub_id = id;
    sub_name = sub.name;
    tag = smallest_tag tag tags;
  })
]

unfoldable pub holder_of : (String → Option Subscription) → Hash → Bool → String → Option Holder
unfolding load_node managed_holder
holder_of lookup h enabled_only id = elim (lookup id) [
  | none ↦ none
  | some sub ↦
      if enabled_only && not sub.enabled
      then none
      else managed_holder sub id (load_node sub.managed_nodes h)
]

-- createdAtNs, then the ID
unfoldable pub is_before : Holder → Holder → Bool
unfolding ltb_text
is_before a b =
    ltb_ℤ a.created_at_ns b.created_at_ns
    || (a.created_at_ns == b.created_at_ns && ltb_text a.sub_id b.sub_id)

unfoldable pub keep_first : Option Holder → Option Holder → Option Holder
unfolding is_before
keep_first best none = best
keep_first none (some c) = some c
keep_first (some b) (some c) = if is_before c b then some c else some b

unfoldable pub pick_holder :
    (String → Option Subscription) → Hash → Bool → List String → Option Holder → Option Holder
unfolding holder_of keep_first
pick_holder lookup h enabled_only [] best = best
pick_holder lookup h enabled_only (id ∷ ids) best =
    pick_holder lookup h enabled_only ids (keep_first best (holder_of lookup h enabled_only id))

-- the result of `pick`
unfoldable pub display_tag : Option Holder → Option String
display_tag none = none
display_tag (some c) =
    if c.sub_name == "" || c.tag == "" then none else some (join c.sub_name c.tag)

unfoldable pub tag_of : Option String → Option String → String
tag_of (some tag) other = tag
tag_of none (some tag) = tag
tag_of none none = ""

module _ (x : PoolConfig) (g : GlobalNodePool) where
  unfoldable pub resolve_node_display_tag : Hash → String
  unfolding get_entry pick_holder display_tag tag_of
  resolve_node_display_tag h = elim x.sub_lookup [
    | none ↦ ""
    | some lookup ↦ elim (get_entry g h) [
      | none ↦ ""
      | some e ↦
          if is_nil e.subscription_ids
          then ""
          else tag_of (display_tag (pick_holder lookup h true e.subscription_ids none))
              (display_tag (pick_holder lookup h false e.subscription_ids none))
    ]
  ]

  unfoldable pub is_node_disabled : Hash → Bool
  unfolding get_entry is_disabled_by_subscriptions make_sub_lookup
  is_node_disabled h = elim (get_entry g h) [
    | none ↦ true
    | some e ↦ is_disabled_by_subscriptions e (some (make_sub_lookup x))
  ]

-- `none` is a nil entry
unfoldable pub is_healthy_and_enabled : PoolConfig → Option NodeEntry → Bool
unfolding is_disabled_by_subscriptions make_sub_lookup is_healthy
is_healthy_and_enabled x none = false
is_healthy_and_enabled x (some e) =
    if is_disabled_by_subscriptions e (some (make_sub_lookup x)) then false else is_healthy e
