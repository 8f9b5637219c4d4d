-- ===== src/Node/Entry.antt =====
-- internal/node/entry.go: a node of the pool, its subscriptions and its tag filter. A compiled
-- regular expression is the test that it makes. The mutex and the atomics make each method a step.
pub mod Filter
pub mod Subscriptions
use resin.Prelude.{
  ℕ, String, Bool, true, false, not, ◌&&◌, ◌||◌, Option, none, some, List, [], ◌∷◌, ◌++◌, ◌==◌,
  if◌then◌else◌, length, ltb, string_key, nat_key,
}
use resin.Prelude.Text.{join}
use resin.Prelude.Int.{ℤ, pos}
use resin.Netip.{Addr, zero_addr, is_valid}
use resin.Node.Hash.{Hash}
use resin.Node.Latency.{LatencyTable, new_latency_table, total_size}

pub record NodeEntry : Type 0 where
  pub hash : Hash
  pub raw_options : String
  pub created_at : ℤ
  pub subscription_ids : List String
  pub last_error : String
  -- an `int32`
  pub failure_count : ℤ
  -- 0 is "not open"
  pub circuit_open_since : ℤ
  pub egress_ip : Option Addr
  pub egress_region : Option String
  pub last_egress_update : ℤ
  pub last_latency_probe_attempt : ℤ
  pub last_authority_latency_probe_attempt : ℤ
  pub last_egress_update_attempt : ℤ
  pub latency_table : Option LatencyTable
  -- an outbound instance, by a number of its own
  pub outbound : Option ℕ

unfoldable pub new_node_entry : Hash → String → ℤ → ℕ → NodeEntry
unfolding new_latency_table
new_node_entry hash raw created_at max_entries = record {
  hash = hash;
  raw_options = raw;
  created_at = created_at;
  subscription_ids = [];
  last_error = "";
  failure_count = pos 0;
  circuit_open_since = pos 0;
  egress_ip = none;
  egress_region = none;
  last_egress_update = pos 0;
  last_latency_probe_attempt = pos 0;
  last_authority_latency_probe_attempt = pos 0;
  last_egress_update_attempt = pos 0;
  latency_table = new_latency_table max_entries;
  outbound = none;
}

unfoldable pub member : String → List String → Bool
member s [] = false
member s (x ∷ xs) = x == s || member s xs

unfoldable pub add_subscription_id : NodeEntry → String → NodeEntry
unfolding member
add_subscription_id e sub =
    if member sub e.subscription_ids
    then e
    else record e { subscription_ids = e.subscription_ids ++ sub ∷ [] }

unfoldable pub without_first : String → List String → List String
without_first s [] = []
without_first s (x ∷ xs) = if x == s then xs else x ∷ without_first s xs

unfoldable pub remove_subscription_id : NodeEntry → String → NodeEntry × Bool
unfolding without_first
remove_subscription_id e sub =
    let ids = without_first sub e.subscription_ids in
    (record e { subscription_ids = ids }, length ids == 0)

-- What a subscription says of a node: its name, whether it is enabled, the node's tags.
pub record SubInfo : Type 0 where
  pub name : String
  pub enabled : Bool
  pub tags : List String

-- `none` is ok = false
abbrev pub SubLookup : Type 0
SubLookup = String → Hash → Option SubInfo

abbrev pub Regexp : Type 0
Regexp = String → Bool

pub record TagFilter : Type 0 where
  pub any : List Regexp
  pub must : List Regexp
  pub must_not : List Regexp

abbrev pub is_nil {ℓ} : {A : Type ℓ} → List A → Bool
is_nil [] = true
is_nil (x ∷ xs) = false

unfoldable pub is_empty : TagFilter → Bool
is_empty f = is_nil f.any && is_nil f.must && is_nil f.must_not

unfoldable pub matches_all : String → List Regexp → Bool
matches_all s [] = true
matches_all s (re ∷ rest) = if re s then matches_all s rest else false

unfoldable pub matches_any : String → List Regexp → Bool
matches_any s [] = false
matches_any s (re ∷ rest) = if re s then true else matches_any s rest

-- the loop over the tags of one subscription, with `matchedPositive`; `none` is the early return
-- of false
unfoldable pub match_tags : TagFilter → String → List String → Bool → Option Bool
unfolding matches_all matches_any
match_tags f name [] matched = some matched
match_tags f name (tag ∷ tags) matched =
    let candidate = join name tag in
    let matched' =
      matched || (matches_all candidate f.must && (is_nil f.any || matches_any candidate f.any)) in
    let rest = match_tags f name tags matched' in
    if matches_any candidate f.must_not then none else rest

-- the loop over the subscriptions, with `hasEnabledSubscription` and `matchedPositive`
unfoldable pub match_subs :
    TagFilter → SubLookup → Hash → List String → Bool → Bool → Option (Bool × Bool)
unfolding match_tags
match_subs f lookup hash [] has_enabled matched = some (has_enabled, matched)
match_subs f lookup hash (sub ∷ subs) has_enabled matched = elim (lookup sub hash) [
  | none ↦ match_subs f lookup hash subs has_enabled matched
  | some info ↦
      let skipped = match_subs f lookup hash subs has_enabled matched in
      let rest = λ (m : Bool). match_subs f lookup hash subs true m in
      if info.enabled
      then elim (match_tags f info.name info.tags matched) [ none ↦ none | some m ↦ rest m ]
      else skipped
]

-- `none` for the lookup is the nil function
unfoldable pub match_tag_filter : NodeEntry → TagFilter → Option SubLookup → Bool
unfolding is_empty match_subs
match_tag_filter e f none = is_empty f
match_tag_filter e f (some lookup) =
    if is_nil e.subscription_ids
    then false
    else elim (match_subs f lookup e.hash e.subscription_ids false false) [
      | none ↦ false
      | some (has_enabled, matched) ↦
          if not (is_nil f.any) || not (is_nil f.must) then matched else has_enabled
    ]

unfoldable pub match_regexs : NodeEntry → List Regexp → Option SubLookup → Bool
unfolding match_tag_filter
match_regexs e regexes lookup =
    match_tag_filter e (record { any = []; must = regexes; must_not = [] }) lookup

unfoldable pub any_enabled : SubLookup → Hash → List String → Bool
any_enabled lookup hash [] = false
any_enabled lookup hash (sub ∷ subs) =
    elim (lookup sub hash) [ none ↦ false | some info ↦ info.enabled ]
    || any_enabled lookup hash subs

unfoldable pub has_enabled_subscription : NodeEntry → Option SubLookup → Bool
unfolding any_enabled
has_enabled_subscription e none = false
has_enabled_subscription e (some lookup) = any_enabled lookup e.hash e.subscription_ids

unfoldable pub is_disabled_by_subscriptions : NodeEntry → Option SubLookup → Bool
unfolding has_enabled_subscription
is_disabled_by_subscriptions e lookup = not (has_enabled_subscription e lookup)

unfoldable pub is_circuit_open : NodeEntry → Bool
is_circuit_open e = elim e.circuit_open_since [ pos n ↦ not (n == 0) | ℤ.negsuc n ↦ true ]

unfoldable pub has_latency : NodeEntry → Bool
unfolding total_size
has_latency e = elim e.latency_table [ none ↦ false | some t ↦ ltb 0 (total_size t) ]

unfoldable pub has_outbound : NodeEntry → Bool
has_outbound e = elim e.outbound [ none ↦ false | some o ↦ true ]

unfoldable pub is_healthy : NodeEntry → Bool
unfolding is_circuit_open has_outbound
is_healthy e = not (is_circuit_open e) && has_outbound e

unfoldable pub get_egress_ip : NodeEntry → Addr
get_egress_ip e = elim e.egress_ip [ none ↦ zero_addr | some ip ↦ ip ]

unfoldable pub set_egress_ip : NodeEntry → Addr → NodeEntry
set_egress_ip e ip = record e { egress_ip = some ip }

unfoldable pub get_egress_region : NodeEntry → String
get_egress_region e = elim e.egress_region [ none ↦ "" | some r ↦ r ]

-- `normalize` is strings.ToLower after strings.TrimSpace, by the Unicode tables of Go.
unfoldable pub set_egress_region : (String → String) → NodeEntry → String → NodeEntry
set_egress_region normalize e region =
    let r = normalize region in
    if r == "" then record e { egress_region = none } else record e { egress_region = some r }

unfoldable pub get_region : NodeEntry → Option (Addr → String) → String
unfolding get_egress_region get_egress_ip
get_region e geo = if not (get_egress_region e == "") then get_egress_region e else elim geo [
  | none ↦ ""
  | some lookup ↦ if is_valid (get_egress_ip e) then lookup (get_egress_ip e) else ""
]
