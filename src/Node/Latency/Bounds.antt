-- ===== src/Node/Latency/Bounds.antt =====
-- internal/node/latency.go: how many domains a table holds, and how many slots.
use resin.Prelude.{
  ℕ, zero, suc, ◌+◌, ◌<◌, String, Bool, true, false, Option, none, some, List, [], ◌∷◌, ◌++◌, set,
  get_elem?, get_elem?_bound, length, length-set, indicator, nat_key, ◌≡◌, ◌↔◌, refl, arith,
  Option-cases, inl, inr, ◌⊎◌, ap, ◌&&◌, ◌||◌, ◌==◌,
}
use resin.Prelude.Int.{ℤ}
use resin.Node.Latency.{
  DomainLatencyStats, LatencySlot, LatencyTable, Formulas, Scan, scan_slot, scan, count_occupied,
  total_size, pop_authority, pop_regular, pop_domain, new_slot, domain_at, upsert_authority,
  upsert_regular, td_ewma_update, update_classified,
}
use resin.Node.Latency.Slots.{length-pop_regular}
use resin.Node.Latency.Updates.{scan-none}
use resin.Node.Latency.Eviction.{scan-IsAt, scan-occupied}

abbrev pub is_some {ℓ} : {A : Type ℓ} → Option A → Bool
is_some none = false
is_some (some a) = true

count_occupied-set :
    (slots : List LatencySlot) (j : ℕ) (s v : LatencySlot)
    → get_elem? slots j ≡ some s
    → count_occupied (set slots j v) + indicator s.occupied
      ≡ count_occupied slots + indicator v.occupied
unfolding count_occupied
count_occupied-set [] j s v at = ground (arith, at)
count_occupied-set (x ∷ slots) zero s v at = ground (arith, at)
count_occupied-set (x ∷ slots) (suc j) s v at = ground (arith, count_occupied-set slots j s v at)

count_occupied-append :
    (a b : List LatencySlot) → count_occupied (a ++ b) ≡ count_occupied a + count_occupied b
unfolding count_occupied
count_occupied-append [] b = omega arith
count_occupied-append (s ∷ a) b = ground (arith, count_occupied-append a b)

count_occupied-set_pos :
    (slots : List LatencySlot) (j : ℕ) (v : LatencySlot)
    → v.occupied ≡ true
    → j < length slots
    → 0 < count_occupied (set slots j v)
unfolding count_occupied
count_occupied-set_pos [] j v o h = absurd (omega arith)
count_occupied-set_pos (x ∷ slots) zero v o h = ground arith
count_occupied-set_pos (x ∷ slots) (suc j) v o h = ground (arith, count_occupied-set_pos slots j v)

-- An empty place that a scan finds is one of the slots that it passes.
abbrev IsFree : List LatencySlot → ℕ → ℕ → Type 0
IsFree slots i k =
    (j : ℕ) × (s : LatencySlot) × (k ≡ i + j) × (get_elem? slots j ≡ some s) × (s.occupied ≡ false)

scan_slot-empty :
    (i : ℕ) (s : LatencySlot) (c : Scan) (k : ℕ)
    → (scan_slot i s c).empty ≡ some k
    → (c.empty ≡ some k) ⊎ ((k ≡ i) × (s.occupied ≡ false))
unfolding scan_slot
scan_slot-empty i s c k e = ground (arith, e)

scan-IsFree :
    (slots : List LatencySlot) (i : ℕ) (c : Scan) (k : ℕ)
    → (scan i slots c).empty ≡ some k
    → (c.empty ≡ some k) ⊎ IsFree slots i k
unfolding scan
scan-IsFree [] i c k e = inl e
scan-IsFree (s ∷ slots) i c k e = elim (scan-IsFree slots (suc i) (scan_slot i s c) k e) [
  | inr (j, x, p, at, q) ↦ inr (suc j, x, omega (arith, p), at, q)
  | inl before ↦ elim (scan_slot-empty i s c k before) [
    | inl older ↦ inl older
    | inr (p, q) ↦ inr (0, s, omega (arith, p), refl, q)
  ]
]

abbrev start : Scan
start = record { empty = none; oldest = none }

-- A table before and after a write: one more domain, but for an evicted one; as many slots.
abbrev Grown : LatencyTable → LatencyTable → Option String → Type 0
Grown t t' evicted =
    (total_size t' + indicator (is_some evicted) ≡ total_size t + 1)
    × (length t'.regular ≡ length t.regular)
    × (0 < total_size t')

module _ (t : LatencyTable) (key : ℕ) (domain : String) (stats : DomainLatencyStats)
    (access : ℤ) where
  abbrev slot : LatencySlot
  slot = record {
    key = key;
    domain = domain;
    stats = stats;
    last_access_ns = access;
    occupied = true;
  }

  upsert_regular-Grown :
      0 < length t.regular
      → let (t', evicted) = upsert_regular t key domain stats access in Grown t t' evicted
  unfolding upsert_regular new_slot domain_at total_size
  upsert_regular-Grown room = elim (Option-cases (scan 0 t.regular start).empty) [
    | inr (k, e) ↦ elim (scan-IsFree t.regular 0 start k e) [
      | inl before ↦ absurd (ground arith)
      | inr (j, s, p, at, free) ↦
          let same : k ≡ j = omega (arith, p) in
          rw (e, upsert_regular, same)
            (
              ground (arith, count_occupied-set t.regular j s slot at),
              length-set t.regular j slot,
              omega (
                arith,
                count_occupied-set_pos t.regular j slot refl (get_elem?_bound t.regular j at),
              ),
            )
    ]
    | inl e ↦ elim (Option-cases (scan 0 t.regular start).oldest) [
      | inl o ↦
          let impossible : ⊥ = ground (arith, scan-none t.regular 0 start e o) in
          elim impossible [ ]
      | inr ((k, a), o) ↦ elim (scan-IsAt t.regular 0 start k a o) [
        | inl before ↦ absurd (ground arith)
        | inr (j, s, p, at, q) ↦
            let same : k ≡ j = omega (arith, p) in
            let taken = scan-occupied t.regular 0 start j s e at in
            rw (e, o, upsert_regular, same)
              (
                ground (arith, at, taken, count_occupied-set t.regular j s slot at),
                length-set t.regular j slot,
                omega (
                  arith,
                  count_occupied-set_pos t.regular j slot refl (get_elem?_bound t.regular j at),
                ),
              )
      ]
    ]
  ]

  upsert_authority-Grown : Grown t (upsert_authority t key domain stats access) none
  unfolding upsert_authority total_size count_occupied new_slot
  upsert_authority-Grown =
      let more = count_occupied-append t.authorities (slot ∷ []) in
      (omega (arith, more), refl, omega (arith, more))

count_occupied-pop_authority :
    (key : ℕ) (slots : List LatencySlot)
    → count_occupied (pop_authority key slots).1 + indicator (is_some (pop_authority key slots).0)
      ≡ count_occupied slots
unfolding pop_authority count_occupied
count_occupied-pop_authority key [] = omega arith
count_occupied-pop_authority key (s ∷ slots) =
    ground (arith, count_occupied-pop_authority key slots)

count_occupied-pop_regular :
    (key : ℕ) (slots : List LatencySlot)
    → count_occupied (pop_regular key slots).1 + indicator (is_some (pop_regular key slots).0)
      ≡ count_occupied slots
unfolding pop_regular count_occupied
count_occupied-pop_regular key [] = omega arith
count_occupied-pop_regular key (s ∷ slots) = ground (arith, count_occupied-pop_regular key slots)

-- a slot of the partition holds the key
abbrev pub holds_key : ℕ → List LatencySlot → Bool
holds_key key [] = false
holds_key key (s ∷ slots) = s.occupied && s.key == key || holds_key key slots

-- The table holds a domain with the key, in either partition.
abbrev pub has_domain : LatencyTable → ℕ → Bool
has_domain t key = holds_key key t.authorities || holds_key key t.regular

is_some-pop_authority :
    (key : ℕ) (slots : List LatencySlot) → is_some (pop_authority key slots).0 ≡ holds_key key slots
unfolding pop_authority
is_some-pop_authority key [] = refl
is_some-pop_authority key (s ∷ slots) = ground (arith, is_some-pop_authority key slots)

is_some-pop_regular :
    (key : ℕ) (slots : List LatencySlot) → is_some (pop_regular key slots).0 ≡ holds_key key slots
unfolding pop_regular
is_some-pop_regular key [] = refl
is_some-pop_regular key (s ∷ slots) = ground (arith, is_some-pop_regular key slots)

is_some-pop_domain : (t : LatencyTable) (key : ℕ) → is_some (pop_domain t key).0 ≡ has_domain t key
unfolding pop_domain
is_some-pop_domain t key =
    ground (arith, is_some-pop_authority key t.authorities, is_some-pop_regular key t.regular)

total_size-pop_domain :
    (t : LatencyTable) (key : ℕ)
    → let (found, t') = pop_domain t key in
      (total_size t' + indicator (is_some found) ≡ total_size t)
      × (length t'.regular ≡ length t.regular)
unfolding pop_domain total_size
total_size-pop_domain t key = elim (Option-cases (pop_authority key t.authorities).0) [
  | inr (stats, e) ↦
      rw (e, pop_domain) (ground (arith, e, count_occupied-pop_authority key t.authorities), refl)
  | inl e ↦ elim (Option-cases (pop_regular key t.regular).0) [
    | inr (stats, e') ↦
        rw (e, e', pop_domain)
          (
            ground (arith, e', count_occupied-pop_regular key t.regular),
            length-pop_regular key t.regular,
          )
    | inl e' ↦ rw (e, e', pop_domain) (omega arith, refl)
  ]
]

module _ (x : Formulas) where
  -- In a table with a regular slot, an update adds one domain to the number of domains if neither
  -- partition had its key, less one if a domain was evicted; the regular partition keeps its
  -- number of slots; the table is not empty; and the update reports "was empty" exactly if there was
  -- no domain before.
  pub update_classified_bounds :
      (t : LatencyTable) (domain : String) (latency decay now : ℤ) (is_authority : Bool)
      → 0 < length t.regular
      → let (t', was_empty, evicted) =
          update_classified x t domain latency decay is_authority now in
        let had = has_domain t (x.hash_string domain) in
        (total_size t' + indicator (is_some evicted) + indicator had ≡ total_size t + 1)
        × (length t'.regular ≡ length t.regular)
        × (0 < total_size t')
        × (was_empty ≡ true ↔ total_size t ≡ 0)
  unfolding update_classified
  update_classified_bounds t domain latency decay now true room =
      let key = x.hash_string domain in
      let (found, t') = pop_domain t key in
      let stats = td_ewma_update x found latency decay now in
      let popped = total_size-pop_domain t key in
      let had = ap indicator (is_some-pop_domain t key) in
      let grown = upsert_authority-Grown t' key domain stats now in
      (
        omega (arith, popped, grown, had),
        omega (arith, popped, grown),
        grown.2,
        (ground arith, ground arith),
      )
  update_classified_bounds t domain latency decay now false room =
      let key = x.hash_string domain in
      let (found, t') = pop_domain t key in
      let stats = td_ewma_update x found latency decay now in
      let popped = total_size-pop_domain t key in
      let had = ap indicator (is_some-pop_domain t key) in
      let grown = upsert_regular-Grown t' key domain stats now (omega (arith, room, popped)) in
      (
        omega (arith, popped, grown, had),
        omega (arith, popped, grown),
        grown.2,
        (ground arith, ground arith),
      )
