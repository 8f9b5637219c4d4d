-- ===== src/Topology/Pool.antt =====
-- internal/topology/pool.go: the nodes, and the platforms that are told of their changes. A platform
-- object has an address, and the two directories hold addresses, so that one object has one view
-- under its ID and its name. `Compute` and the mutex make one step of each change of a map.
pub mod Directory
pub mod Notify
pub mod Health
pub mod Lookup
pub mod Soundness
pub mod References
use resin.Prelude.{
  ℕ, String, Bool, true, false, Option, none, some, List, [], ◌∷◌, ◌++◌, ◌==◌, not, if◌then◌else◌,
  string_key, nat_key,
}
use resin.Prelude.Int.{ℤ}
use resin.Map.{Map, load, store, remove}
use resin.Netip.{Addr}
use resin.Node.Hash.{Hash}
use resin.Node.Latency.{Formulas}
use resin.Node.Entry.{
  NodeEntry, SubInfo, SubLookup, new_node_entry, add_subscription_id, remove_subscription_id,
}
use resin.Outbound.Build.{OutboundBuilder, with_outbound}
use resin.Platform.{Platform}
use resin.Platform.View.{RoutableView}
use resin.Platform.Evaluation.{full_rebuild, notify_dirty}
use resin.Subscription.{Subscription, load_node}

pub record GlobalNodePool : Type 0 where
  pub nodes : Map Hash NodeEntry
  -- the objects, by their addresses
  pub platforms : Map ℕ (Platform RoutableView)
  pub platform_by_id : Map String ℕ
  pub platform_by_name : Map String ℕ

-- `none` is a nil function, `false` a nil callback. The last four are code that is not read:
-- netutil.ExtractDomain, strings.EqualFold after strings.TrimSpace, strings.ToLower after
-- strings.TrimSpace, and the formulas of the latency table.
pub record PoolConfig : Type 0 where
  pub sub_lookup : Option (String → Option Subscription)
  pub geo_lookup : Option (Addr → String)
  -- the callback builds the outbound of the new node
  pub on_node_added : Option OutboundBuilder
  pub on_node_removed : Bool
  pub on_sub_node_changed : Bool
  pub on_node_dynamic_changed : Bool
  pub on_node_latency_changed : Bool
  pub max_latency_table_entries : ℕ
  pub max_consecutive_failures : ℤ
  pub latency_decay_window : Option ℤ
  pub latency_authorities : Option (List String)
  pub extract_domain : String → String
  pub is_same_authority : String → String → Bool
  pub normalize_region : String → String
  pub formulas : Formulas

-- The calls of the callbacks.
pub data PoolEvent : Type 0 where
  node_added : Hash → PoolEvent
  node_removed : Hash → NodeEntry → PoolEvent
  sub_node_changed : String → Hash → Bool → PoolEvent
  node_dynamic_changed : Hash → PoolEvent
  node_latency_changed : Hash → String → PoolEvent

abbrev pub fires : Bool → PoolEvent → List PoolEvent
fires true e = e ∷ []
fires false e = []

unfoldable pub new_global_node_pool : GlobalNodePool
new_global_node_pool = record {
  nodes = [];
  platforms = [];
  platform_by_id = [];
  platform_by_name = [];
}

unfoldable pub get_entry : GlobalNodePool → Hash → Option NodeEntry
unfolding load
get_entry g h = load h g.nodes

-- the addresses in a directory
unfoldable pub platform_snapshot : Map String ℕ → List ℕ
platform_snapshot [] = []
platform_snapshot ((id, r) ∷ m) = r ∷ platform_snapshot m

-- Workers visit the objects, each under its own lock.
unfoldable pub on_platforms :
    (Platform RoutableView → Platform RoutableView)
    → List ℕ
    → Map ℕ (Platform RoutableView)
    → Map ℕ (Platform RoutableView)
unfolding load store
on_platforms f [] ps = ps
on_platforms f (r ∷ rs) ps =
    on_platforms f rs (elim (load r ps) [ none ↦ ps | some p ↦ store r (f p) ps ])

-- what one subscription says of a node
unfoldable pub sub_info : Option Subscription → Hash → Option SubInfo
unfolding load_node
sub_info none h = none
sub_info (some sub) h = elim (load_node sub.managed_nodes h) [
  | none ↦ none
  | some managed ↦
      if managed.evicted
      then none
      else some (record { name = sub.name; enabled = sub.enabled; tags = managed.tags })
]

-- the map after `Compute`, and the deleted entry
unfoldable pub release_node :
    Map Hash NodeEntry → Hash → String → Map Hash NodeEntry × Option NodeEntry
unfolding load store remove remove_subscription_id
release_node nodes h sub = elim (load h nodes) [
  | none ↦ (nodes, none)
  | some e ↦
      let (e', empty) = remove_subscription_id e sub in
      if empty then (remove h nodes, some e') else (store h e' nodes, none)
]

module _ (x : PoolConfig) where
  unfoldable pub make_sub_lookup : SubLookup
  unfolding sub_info
  make_sub_lookup id h = elim x.sub_lookup [
    | none ↦ some (record { name = ""; enabled = true; tags = [] })
    | some lookup ↦ sub_info (lookup id) h
  ]

  unfoldable pub notify_all_platforms_dirty : GlobalNodePool → Hash → GlobalNodePool
  unfolding platform_snapshot on_platforms notify_dirty make_sub_lookup get_entry
  notify_all_platforms_dirty g h =
      let notify = λ (p : Platform RoutableView).
        notify_dirty p (some (make_sub_lookup)) x.geo_lookup h (get_entry g h) in
      record g { platforms = on_platforms notify (platform_snapshot g.platform_by_id) g.platforms }

  unfoldable pub rebuild_all_platforms : GlobalNodePool → GlobalNodePool
  unfolding platform_snapshot on_platforms full_rebuild make_sub_lookup
  rebuild_all_platforms g =
      let rebuild = λ (p : Platform RoutableView).
        full_rebuild p (some (make_sub_lookup)) x.geo_lookup g.nodes in
      record g { platforms = on_platforms rebuild (platform_snapshot g.platform_by_id) g.platforms }

  -- the object at an address
  unfoldable pub rebuild_platform : GlobalNodePool → ℕ → GlobalNodePool
  unfolding on_platforms full_rebuild make_sub_lookup
  rebuild_platform g r =
      let rebuild = λ (p : Platform RoutableView).
        full_rebuild p (some (make_sub_lookup)) x.geo_lookup g.nodes in
      record g { platforms = on_platforms rebuild (r ∷ []) g.platforms }

  -- `created_at` is the clock's reading.
  unfoldable pub entry_to_add : Option NodeEntry → Hash → String → ℤ → NodeEntry
  unfolding new_node_entry
  entry_to_add none h raw created_at =
      record (new_node_entry h raw created_at x.max_latency_table_entries) {
        circuit_open_since = created_at;
      }
  entry_to_add (some e) h raw created_at = e

  -- `onNodeAdded`, for a new node, by what it does to the entry and the call itself
  unfoldable pub run_on_node_added :
      Option NodeEntry → Hash → NodeEntry → NodeEntry × List PoolEvent
  unfolding with_outbound
  run_on_node_added (some _) h e = (e, [])
  run_on_node_added none h e = elim x.on_node_added [
    | none ↦ (e, [])
    | some build ↦ (with_outbound build e, node_added h ∷ [])
  ]

  unfoldable pub add_node_from_sub :
      GlobalNodePool → Hash → String → String → ℤ → GlobalNodePool × List PoolEvent
  unfolding load store entry_to_add add_subscription_id run_on_node_added notify_all_platforms_dirty
  add_node_from_sub g h raw sub now =
      let found = load h g.nodes in
      let (e, fired) =
        run_on_node_added found h (add_subscription_id (entry_to_add found h raw now) sub) in
      (
        notify_all_platforms_dirty (record g { nodes = store h e g.nodes }) h,
        fired ++ fires x.on_sub_node_changed (sub_node_changed sub h true),
      )

  unfoldable pub remove_node_from_sub :
      GlobalNodePool → Hash → String → GlobalNodePool × List PoolEvent
  unfolding release_node notify_all_platforms_dirty
  remove_node_from_sub g h sub =
      let (nodes, deleted) = release_node g.nodes h sub in
      let fired =
        fires x.on_sub_node_changed (sub_node_changed sub h false)
        ++ elim deleted [ none ↦ [] | some e ↦ fires x.on_node_removed (node_removed h e) ] in
      (notify_all_platforms_dirty (record g { nodes = nodes }) h, fired)

unfoldable pub load_node_from_bootstrap : GlobalNodePool → NodeEntry → GlobalNodePool
unfolding store
load_node_from_bootstrap g e = record g { nodes = store e.hash e g.nodes }
