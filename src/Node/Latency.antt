-- ===== src/Node/Latency.antt =====
-- internal/node/latency.go: the bounded per-domain latency table. Each method runs under the mutex.
-- A `Time` is its `int64` nanoseconds, as is a `Duration`. Package xxh3 and the `float64` formula
-- of the decayed average are parameters.
pub mod Slots
pub mod Updates
pub mod Eviction
pub mod Bounds
use resin.Prelude.{
  ℕ, zero, suc, ◌+◌, String, Bool, true, false, ◌&&◌, Option, none, some, List, [], ◌∷◌, ◌++◌, ◌==◌,
  if◌then◌else◌, set, get_elem?, nat_key,
}
use resin.Prelude.Int.{ℤ, pos, ◌-ℤ◌, ltb_ℤ, leb_ℤ, wrap64, saturate64}

pub record DomainLatencyStats : Type 0 where
  pub ewma : ℤ
  pub last_updated : ℤ

pub record LatencySlot : Type 0 where
  pub key : ℕ
  pub domain : String
  pub stats : DomainLatencyStats
  pub last_access_ns : ℤ
  pub occupied : Bool

pub record LatencyTable : Type 0 where
  pub authorities : List LatencySlot
  pub regular : List LatencySlot

-- xxh3.HashString, and math.Exp applied in `float64`:
-- `blend old latency dt decay` is old * w + latency * (1 - w) for w = exp(-dt / decay)
pub record Formulas : Type 0 where
  pub hash_string : String → ℕ
  pub blend : ℤ → ℤ → ℤ → ℤ → ℤ

abbrev pub no_stats : DomainLatencyStats
no_stats = record { ewma = pos 0; last_updated = pos 0 }

-- latencySlot{}
abbrev pub empty_slot : LatencySlot
empty_slot = record {
  key = 0;
  domain = "";
  stats = no_stats;
  last_access_ns = pos 0;
  occupied = false;
}

-- latencyReadTouchMinInterval, 100 ms
abbrev pub read_touch_min_interval : ℤ
read_touch_min_interval = pos 100000000

replicate_slot : ℕ → List LatencySlot
replicate_slot zero = []
replicate_slot (suc n) = empty_slot ∷ replicate_slot n

-- `NewLatencyTable`; `none` is its panic on a bound that is not positive
unfoldable pub new_latency_table : ℕ → Option LatencyTable
unfolding replicate_slot
new_latency_table zero = none
new_latency_table (suc n) = some (record { authorities = []; regular = replicate_slot (suc n) })

abbrev pub has_key : ℕ → LatencySlot → Bool
has_key key slot = slot.occupied && slot.key == key

unfoldable pub count_occupied : List LatencySlot → ℕ
count_occupied [] = 0
count_occupied (s ∷ slots) = (if s.occupied then 1 else 0) + count_occupied slots

unfoldable pub total_size : LatencyTable → ℕ
unfolding count_occupied
total_size t = count_occupied t.authorities + count_occupied t.regular

-- a read moves the access time only if it is at least 100 ms old
unfoldable pub read_touch : ℤ → LatencySlot → LatencySlot
unfolding wrap64 ◌-ℤ◌
read_touch now s =
    if leb_ℤ read_touch_min_interval (wrap64 (now -ℤ s.last_access_ns))
    then record s { last_access_ns = now }
    else s

-- one partition's loop of `GetDomainStats`
unfoldable pub read_slots : ℕ → ℤ → List LatencySlot → Option DomainLatencyStats × List LatencySlot
unfolding read_touch
read_slots key now [] = (none, [])
read_slots key now (s ∷ slots) =
    let rest = read_slots key now slots in
    if has_key key s then (some s.stats, read_touch now s ∷ slots) else (rest.0, s ∷ rest.1)

unfoldable pub pop_authority : ℕ → List LatencySlot → Option DomainLatencyStats × List LatencySlot
pop_authority key [] = (none, [])
pop_authority key (s ∷ slots) =
    let rest = pop_authority key slots in
    if has_key key s then (some s.stats, slots) else (rest.0, s ∷ rest.1)

unfoldable pub pop_regular : ℕ → List LatencySlot → Option DomainLatencyStats × List LatencySlot
pop_regular key [] = (none, [])
pop_regular key (s ∷ slots) =
    let rest = pop_regular key slots in
    if has_key key s then (some s.stats, empty_slot ∷ slots) else (rest.0, s ∷ rest.1)

unfoldable pub pop_domain : LatencyTable → ℕ → Option DomainLatencyStats × LatencyTable
unfolding pop_authority pop_regular
pop_domain t key =
    let (found, authorities) = pop_authority key t.authorities in
    elim found [
      | some stats ↦ (some stats, record t { authorities = authorities })
      | none ↦
          let (found', regular) = pop_regular key t.regular in
          elim found' [
            | some stats ↦ (some stats, record t { regular = regular })
            | none ↦ (none, t)
          ]
    ]

unfoldable pub new_slot : ℕ → String → DomainLatencyStats → ℤ → LatencySlot
new_slot key domain stats access = record {
  key = key;
  domain = domain;
  stats = stats;
  last_access_ns = access;
  occupied = true;
}

unfoldable pub upsert_authority : LatencyTable → ℕ → String → DomainLatencyStats → ℤ → LatencyTable
unfolding new_slot
upsert_authority t key domain stats access = record t {
  authorities = t.authorities ++ new_slot key domain stats access ∷ [];
}

-- emptyIdx and oldestIdx with oldestAccessNs; `none` is an index of -1
pub record Scan : Type 0 where
  pub empty : Option ℕ
  pub oldest : Option (ℕ × ℤ)

unfoldable pub scan_slot : ℕ → LatencySlot → Scan → Scan
scan_slot i s c =
    if s.occupied
    then elim c.oldest [
      | none ↦ record c { oldest = some (i, s.last_access_ns) }
      | some (j, access) ↦
          if ltb_ℤ s.last_access_ns access
          then record c { oldest = some (i, s.last_access_ns) }
          else c
    ]
    else elim c.empty [ none ↦ record c { empty = some i } | some j ↦ c ]

unfoldable pub scan : ℕ → List LatencySlot → Scan → Scan
unfolding scan_slot
scan i [] c = c
scan i (s ∷ slots) c = scan (suc i) slots (scan_slot i s c)

unfoldable pub domain_at : List LatencySlot → ℕ → Option String
domain_at slots i = elim (get_elem? slots i) [ none ↦ none | some s ↦ some s.domain ]

-- The slot goes to the first free place, else over the one least recently accessed, whose domain
-- is returned.
unfoldable pub upsert_regular :
    LatencyTable → ℕ → String → DomainLatencyStats → ℤ → LatencyTable × Option String
unfolding scan new_slot domain_at
upsert_regular t key domain stats access =
    let c = scan 0 t.regular (record { empty = none; oldest = none }) in
    let slot = new_slot key domain stats access in
    elim c.empty [
      | some i ↦ (record t { regular = set t.regular i slot }, none)
      | none ↦ elim c.oldest [
        | some (i, _) ↦ (record t { regular = set t.regular i slot }, domain_at t.regular i)
        | none ↦ (t, none)
      ]
    ]

module _ (x : Formulas) where
  -- decay <= 0 falls back to one second
  unfoldable pub td_ewma_update : Option DomainLatencyStats → ℤ → ℤ → ℤ → DomainLatencyStats
  unfolding saturate64 ◌-ℤ◌
  td_ewma_update none latency decay_window now = record { ewma = latency; last_updated = now }
  td_ewma_update (some old) latency decay_window now =
      let decay : ℤ = (if leb_ℤ decay_window (pos 0) then pos 1000000000 else decay_window) in
      record {
        ewma = x.blend old.ewma latency (saturate64 (now -ℤ old.last_updated)) decay;
        last_updated = now;
      }

  -- wasEmpty, and the evicted domain
  unfoldable pub update_classified :
      LatencyTable → String → ℤ → ℤ → Bool → ℤ → LatencyTable × Bool × Option String
  unfolding total_size pop_domain td_ewma_update upsert_authority upsert_regular
  update_classified t domain latency decay_window is_authority now =
      let key = x.hash_string domain in
      let was_empty = total_size t == 0 in
      let (old, t') = pop_domain t key in
      let stats = td_ewma_update old latency decay_window now in
      if is_authority
      then (upsert_authority t' key domain stats now, was_empty, none)
      else let (t'', evicted) = upsert_regular t' key domain stats now in (t'', was_empty, evicted)

  unfoldable pub get_domain_stats :
      LatencyTable → String → ℤ → Option DomainLatencyStats × LatencyTable
  unfolding read_slots
  get_domain_stats t domain now =
      let key = x.hash_string domain in
      let (found, authorities) = read_slots key now t.authorities in
      elim found [
        | some stats ↦ (some stats, record t { authorities = authorities })
        | none ↦
            let (found', regular) = read_slots key now t.regular in
            elim found' [
              | some stats ↦ (some stats, record t { regular = regular })
              | none ↦ (none, t)
            ]
      ]

  unfoldable pub load_entry_classified :
      LatencyTable → String → DomainLatencyStats → Bool → ℤ → LatencyTable × Option String
  unfolding pop_domain upsert_authority upsert_regular
  load_entry_classified t domain stats is_authority now =
      let key = x.hash_string domain in
      let access = (if leb_ℤ stats.last_updated (pos 0) then now else stats.last_updated) in
      let t' = (pop_domain t key).1 in
      if is_authority
      then (upsert_authority t' key domain stats access, none)
      else upsert_regular t' key domain stats access

-- the entries that `Range` visits, in order
unfoldable pub range_slots : List LatencySlot → List (String × DomainLatencyStats)
range_slots [] = []
range_slots (s ∷ slots) =
    if s.occupied then (s.domain, s.stats) ∷ range_slots slots else range_slots slots

unfoldable pub range : LatencyTable → List (String × DomainLatencyStats)
unfolding range_slots
range t = range_slots t.authorities ++ range_slots t.regular
