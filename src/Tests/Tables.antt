-- ===== src/Tests/Tables.antt =====
-- internal/node: a latency table of two slots, and a tag filter.
use resin.Prelude.{
  ℕ, String, true, false, not, ◌&&◌, ◌||◌, some, [], ◌∷◌, ◌==◌, if◌then◌else◌, string_key,
  get_elem?, ◌≡◌, refl, arith, nat_key, ◌+◌, ◌<◌, ◌↔◌, indicator, length,
}
use resin.Prelude.Int.{pos, ◌≤ℤ◌}
use resin.Node.Entry.{
  NodeEntry, SubLookup, TagFilter, new_node_entry, is_nil, any_enabled, match_tag_filter,
}
use resin.Node.Entry.Filter.{candidates, some_of, is_banned, is_wanted, match_tag_filter_lem}
use resin.Node.Latency.{
  DomainLatencyStats, LatencySlot, LatencyTable, empty_slot, update_classified, get_domain_stats,
  td_ewma_update, upsert_regular, scan, scan_slot, domain_at, total_size,
}
use resin.Node.Latency.Bounds.{is_some, has_domain, update_classified_bounds}
use resin.Node.Latency.Slots.{count_key}
use resin.Node.Latency.Updates.{IsUnique, update_classified_lem}
use resin.Node.Latency.Eviction.{upsert_regular_evicts, written}
use resin.Tests.Data.{formulas}

abbrev empty_table : LatencyTable
empty_table = record { authorities = []; regular = empty_slot ∷ empty_slot ∷ [] }

empty_table-IsUnique : IsUnique empty_table
unfolding count_key
empty_table-IsUnique = record { unique = λ k. omega arith; room = omega arith }

update_classified_lem_example :
    let t' = (update_classified formulas empty_table "a.com" (pos 7) (pos 9) false (pos 1)).0 in
    IsUnique t'
    × ((get_domain_stats formulas t' "a.com" (pos 2)).0
        ≡ some (
            td_ewma_update formulas
              (get_domain_stats formulas empty_table "a.com" (pos 1)).0
              (pos 7)
              (pos 9)
              (pos 1)))
update_classified_lem_example =
    update_classified_lem formulas empty_table "a.com" (pos 7) (pos 9) false (pos 1) (pos 2)
      empty_table-IsUnique

abbrev stats_of : ℕ → DomainLatencyStats
stats_of n = record { ewma = pos n; last_updated = pos n }

abbrev slot_of : ℕ → String → LatencySlot
slot_of n domain = record {
  key = n;
  domain = domain;
  stats = stats_of n;
  last_access_ns = pos n;
  occupied = true;
}

abbrev full_table : LatencyTable
full_table = record { authorities = []; regular = slot_of 8 "b.com" ∷ slot_of 5 "c.com" ∷ [] }

evicted : (upsert_regular full_table 3 "d.com" (stats_of 9) (pos 9)).1 ≡ some "c.com"
unfolding upsert_regular scan scan_slot domain_at
evicted = refl

upsert_regular_evicts_example :
    (true ≡ true)
    × (i : ℕ) × (s : LatencySlot) × (get_elem? full_table.regular i ≡ some s)
    × (s.domain ≡ "c.com")
    × (s.last_access_ns ≤ℤ pos 8)
    × ((m : ℕ)
        → get_elem? (upsert_regular full_table 3 "d.com" (stats_of 9) (pos 9)).0.regular m ≡ (
            if i == m
            then some (written 3 "d.com" (stats_of 9) (pos 9))
            else get_elem? full_table.regular m))
upsert_regular_evicts_example =
    upsert_regular_evicts full_table 3 "d.com" (stats_of 9) (pos 9) "c.com" 0 (slot_of 8 "b.com")
      evicted refl

abbrev lookup : SubLookup
lookup sub hash = some (record { name = "s"; enabled = true; tags = "hk" ∷ "jp" ∷ [] })

abbrev no_jp : TagFilter
no_jp = record { any = []; must = []; must_not = (λ text. text == "s/jp") ∷ [] }

abbrev entry : NodeEntry
entry = record (new_node_entry 1 "{}" (pos 1) 4) { subscription_ids = "s1" ∷ [] }

match_tag_filter_lem_example :
    let texts_of = candidates lookup 1 ("s1" ∷ []) in
    match_tag_filter entry no_jp (some lookup) ≡ (
      not (some_of (is_banned no_jp) texts_of)
      && (if not (is_nil no_jp.any) || not (is_nil no_jp.must)
          then some_of (is_wanted no_jp) texts_of
          else any_enabled lookup 1 ("s1" ∷ [])))
unfolding new_node_entry
match_tag_filter_lem_example = match_tag_filter_lem no_jp entry lookup

update_classified_bounds_example :
    let (t', was_empty, gone) =
      update_classified formulas full_table "d.com" (pos 7) (pos 9) false (pos 10) in
    let had = has_domain full_table (formulas.hash_string "d.com") in
    (total_size t' + indicator (is_some gone) + indicator had ≡ 3)
    × (length t'.regular ≡ 2)
    × (0 < total_size t')
    × ((was_empty ≡ true) ↔ (total_size full_table ≡ 0))
unfolding total_size
update_classified_bounds_example =
    update_classified_bounds formulas full_table "d.com" (pos 7) (pos 9) (pos 10) false
      (omega arith)
