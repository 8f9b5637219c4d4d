-- ===== src/Tests/Platforms.antt =====
-- internal/platform/platform.go at a pool of two nodes.
use resin.Prelude.{
  String, true, false, not, ◌&&◌, ◌||◌, none, some, List, [], ◌∷◌, string_key, nat_key, ◌≡◌, refl,
}
use resin.Prelude.Int.{pos}
use resin.Map.{load, Distinct}
use resin.Node.Entry.{SubLookup, is_nil}
use resin.Platform.{Platform, balanced}
use resin.Platform.View.{RoutableView, contains}
use resin.Platform.View.Sharding.{IsValid}
use resin.Platform.Evaluation.{full_rebuild, notify_dirty, match_region_filter}
use resin.Platform.Evaluation.Sync.{is_routable, full_rebuild_lem, notify_dirty_lem}
use resin.Platform.Evaluation.Regions.{in_exclude, has_include, in_include, match_region_filter_lem}
use resin.Tests.Data.{three_hashes, three_hashes-IsValid, three_nodes}

abbrev local : Platform RoutableView
local = record {
  id = "p2";
  name = "local";
  regex_filters = record { any = []; must = []; must_not = [] };
  region_filters = "jp" ∷ [];
  sticky_ttl_ns = pos 0;
  reverse_proxy_miss_action = "";
  reverse_proxy_empty_account_behavior = "";
  reverse_proxy_fixed_account_header = "";
  reverse_proxy_fixed_account_headers = [];
  allocation_policy = balanced;
  passive_circuit_breaker_disabled = false;
  max_accounts_per_ip = 0;
  ip_account_window_ns = pos 0;
  view = three_hashes;
}

abbrev lookup : SubLookup
lookup sub hash = some (record { name = "s"; enabled = true; tags = "t" ∷ [] })

three_nodes-Distinct : Distinct three_nodes
unfolding load nat_key
three_nodes-Distinct = (refl, (refl, (refl, tt)))

full_rebuild_lem_example :
    let v = (full_rebuild local (some lookup) none three_nodes).view in
    IsValid v × (contains v 5 ≡ is_routable local (some lookup) none (load 5 three_nodes))
full_rebuild_lem_example =
    full_rebuild_lem local (some lookup) none three_nodes 5 three_nodes-Distinct
      three_hashes-IsValid

notify_dirty_lem_example :
    let v = (notify_dirty local (some lookup) none 5 none).view in
    IsValid v × (contains v 5 ≡ false)
unfolding nat_key
notify_dirty_lem_example = notify_dirty_lem local (some lookup) none 5 5 none three_hashes-IsValid

abbrev filters : List String
filters = "jp" ∷ "!hk" ∷ []

only_jp : match_region_filter "hk" filters ≡ false
unfolding match_region_filter string_key nat_key
only_jp = refl

match_region_filter_lem_example : match_region_filter "jp" filters ≡ (
    is_nil filters
    || (not false
        && not (in_exclude "jp" filters)
        && (not (has_include "jp" filters) || in_include "jp" filters)))
unfolding string_key
match_region_filter_lem_example = match_region_filter_lem "jp" filters
