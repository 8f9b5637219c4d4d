-- ===== src/Platform/Evaluation.antt =====
-- internal/platform/platform.go: which nodes of the pool a platform routes to. `viewMu` makes a
-- rebuild and a notification one step each.
pub mod Sync
pub mod Regions
use resin.Prelude.{
  ℕ, String, Bool, true, false, not, ◌&&◌, Option, none, some, List, [], ◌∷◌, ◌==◌, if◌then◌else◌,
  string_key, nat_key,
}
use resin.Prelude.Text.{after_bang}
use resin.Map.{Map, load}
use resin.Netip.{Addr, is_valid}
use resin.Node.Hash.{Hash}
use resin.Node.Entry.{
  NodeEntry, SubLookup, is_nil, is_disabled_by_subscriptions, is_healthy, match_tag_filter,
  get_egress_ip, get_region, has_latency,
}
use resin.Platform.{Platform}
use resin.Platform.View.{RoutableView, clear, add, remove_hash}

-- the loop over the filters, with `included` and `hasInclude`
unfoldable pub match_region_loop : String → List String → Bool → Bool → Bool
unfolding after_bang
match_region_loop region [] included has_include = not (has_include && not included)
match_region_loop region (filter ∷ filters) included has_include =
    let skipped = match_region_loop region filters included has_include in
    let found = match_region_loop region filters true true in
    let passed = match_region_loop region filters included true in
    elim (after_bang filter) [
      | some excluded ↦ if region == excluded then false else skipped
      | none ↦ if region == filter then found else passed
    ]

unfoldable pub match_region_filter : String → List String → Bool
unfolding match_region_loop
match_region_filter region filters =
    let matched = match_region_loop region filters false false in
    if is_nil filters then true else if region == "" then false else matched

module _ (p : Platform RoutableView) (lookup : Option SubLookup)
    (geo : Option (Addr → String)) where
  unfoldable pub evaluate_node : NodeEntry → Bool
  unfolding is_disabled_by_subscriptions is_healthy match_tag_filter get_egress_ip get_region
      match_region_filter has_latency
  evaluate_node e =
      not (is_disabled_by_subscriptions e lookup)
      && is_healthy e
      && match_tag_filter e p.regex_filters lookup
      && is_valid (get_egress_ip e)
      && (if is_nil p.region_filters
          then true
          else match_region_filter (get_region e geo) p.region_filters)
      && has_latency e

  -- the visit of the pool
  unfoldable pub rebuild_loop : Map Hash NodeEntry → RoutableView → RoutableView
  unfolding add evaluate_node
  rebuild_loop [] v = v
  rebuild_loop ((h, e) ∷ pool) v = rebuild_loop pool (if evaluate_node e then add v h else v)

  unfoldable pub full_rebuild : Map Hash NodeEntry → Platform RoutableView
  unfolding clear rebuild_loop
  full_rebuild pool = record p { view = rebuild_loop pool (clear p.view) }

  unfoldable pub notify_dirty : Hash → Option NodeEntry → Platform RoutableView
  unfolding add remove_hash evaluate_node
  notify_dirty h none = record p { view = remove_hash p.view h }
  notify_dirty h (some e) = record p {
    view = if evaluate_node e then add p.view h else remove_hash p.view h;
  }
