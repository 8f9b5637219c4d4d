-- ===== src/Subscription.antt =====
-- internal/subscription/subscription.go: a subscription and the nodes that it manages. The mutex
-- and the atomics make each method one step; `opMu` makes one step of a longer operation.
pub mod Diff
use resin.Prelude.{
  String, Bool, true, false, not, ◌&&◌, Option, none, some, List, [], ◌∷◌, ◌==◌, if◌then◌else◌,
  string_key, nat_key,
}
use resin.Prelude.Int.{ℤ, pos, ◌+ℤ◌, wrap64, int_key}
use resin.Map.{Map, load, store, remove}
use resin.Node.Hash.{Hash}

pub record ManagedNode : Type 0 where
  pub tags : List String
  pub evicted : Bool

abbrev pub ManagedNodes : Type 0
ManagedNodes = Map Hash ManagedNode

unfoldable pub load_node : ManagedNodes → Hash → Option ManagedNode
unfolding load
load_node managed h = load h managed

unfoldable pub store_node : ManagedNodes → Hash → ManagedNode → ManagedNodes
unfolding store
store_node managed h n = store h n managed

-- `NewManagedNodes`
abbrev pub new_managed_nodes : ManagedNodes
new_managed_nodes = []

pub record Subscription : Type 0 where
  pub id : String
  pub url : String
  pub source_type : String
  pub user_agent : String
  pub content : String
  pub update_interval_ns : ℤ
  pub name : String
  pub enabled : Bool
  pub ephemeral : Bool
  pub incremental_alive_nodes : Bool
  pub ephemeral_node_evict_delay_ns : ℤ
  pub created_at_ns : ℤ
  pub updated_at_ns : ℤ
  pub last_checked_ns : ℤ
  pub last_updated_ns : ℤ
  pub last_error : String
  pub attempt_seq : ℤ
  pub last_applied_seq : ℤ
  pub managed_nodes : ManagedNodes
  pub config_version : ℤ

-- 72 hours
abbrev pub default_ephemeral_node_evict_delay_ns : ℤ
default_ephemeral_node_evict_delay_ns = pos 259200000000000

unfoldable pub new_subscription : String → String → String → Bool → Bool → Subscription
new_subscription id name url enabled ephemeral = record {
  id = id;
  url = url;
  source_type = "remote";
  user_agent = "";
  content = "";
  update_interval_ns = pos 0;
  name = name;
  enabled = enabled;
  ephemeral = ephemeral;
  incremental_alive_nodes = false;
  ephemeral_node_evict_delay_ns = default_ephemeral_node_evict_delay_ns;
  created_at_ns = pos 0;
  updated_at_ns = pos 0;
  last_checked_ns = pos 0;
  last_updated_ns = pos 0;
  last_error = "";
  attempt_seq = pos 0;
  last_applied_seq = pos 0;
  managed_nodes = new_managed_nodes;
  config_version = pos 1;
}

unfoldable pub normalize_source_type : String → String
normalize_source_type t = if t == "local" then "local" else "remote"

unfoldable pub source_type_of : Subscription → String
unfolding normalize_source_type
source_type_of s = normalize_source_type s.source_type

unfoldable pub next_attempt_seq : Subscription → Subscription × ℤ
unfolding wrap64 ◌+ℤ◌
next_attempt_seq s =
    let seq = wrap64 (s.attempt_seq +ℤ pos 1) in (record s { attempt_seq = seq }, seq)

bump_version : Bool → Subscription → Subscription
unfolding wrap64 ◌+ℤ◌
bump_version changed s =
    if changed then record s { config_version = wrap64 (s.config_version +ℤ pos 1) } else s

unfoldable pub set_fetch_config : Subscription → String → ℤ → Subscription
unfolding bump_version
set_fetch_config s url interval =
    let changed = not (s.url == url && s.update_interval_ns == interval) in
    bump_version changed (record s { url = url; update_interval_ns = interval })

unfoldable pub set_source_type : Subscription → String → Subscription
unfolding bump_version normalize_source_type
set_source_type s source_type =
    let t = normalize_source_type source_type in
    if s.source_type == t then s else bump_version true (record s { source_type = t })

unfoldable pub set_content : Subscription → String → Subscription
unfolding bump_version
set_content s content =
    if s.content == content then s else bump_version true (record s { content = content })

unfoldable pub swap_managed_nodes : Subscription → ManagedNodes → Subscription
swap_managed_nodes s managed = record s { managed_nodes = managed }

-- One visit of the new map splits its hashes into the added and the kept ones.
unfoldable pub diff_new : ManagedNodes → ManagedNodes → List Hash × List Hash
unfolding load_node
diff_new old [] = ([], [])
diff_new old ((h, n) ∷ new) =
    let (added, kept) = diff_new old new in
    elim (load_node old h) [ none ↦ (h ∷ added, kept) | some _ ↦ (added, h ∷ kept) ]

unfoldable pub diff_old : ManagedNodes → ManagedNodes → List Hash
unfolding load_node
diff_old new [] = []
diff_old new ((h, n) ∷ old) =
    let removed = diff_old new old in
    elim (load_node new h) [ none ↦ h ∷ removed | some _ ↦ removed ]

-- added, kept, removed
unfoldable pub diff_hashes : ManagedNodes → ManagedNodes → List Hash × List Hash × List Hash
unfolding diff_new diff_old
diff_hashes old new = let (added, kept) = diff_new old new in (added, kept, diff_old new old)
