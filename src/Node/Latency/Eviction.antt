-- ===== src/Node/Latency/Eviction.antt =====
-- internal/node/latency.go: which domain `upsertRegularLocked` evicts.
use resin.Prelude.{
  ℕ, zero, suc, ◌+◌, String, true, none, some, List, [], ◌∷◌, get_elem?, get_elem?_bound,
  get_elem?-set, if◌then◌else◌, ◌==◌, nat_key, ◌≡◌, refl, arith, Bool-cases, Option-cases, inl, inr,
  ◌⊎◌, ap, subst, sym, ◌∙◌,
}
use resin.Prelude.Int.{ℤ, ◌≤ℤ◌, ltb_ℤ}
use resin.Node.Latency.{
  DomainLatencyStats, LatencySlot, LatencyTable, Scan, scan_slot, scan, upsert_regular, new_slot,
  domain_at,
}

-- Without an empty place so far there was none before.
scan-empty_none :
    (slots : List LatencySlot) (i : ℕ) (c : Scan) → (scan i slots c).empty ≡ none → c.empty ≡ none
unfolding scan scan_slot
scan-empty_none [] i c e = e
scan-empty_none (s ∷ slots) i c e =
    ground (arith, scan-empty_none slots (suc i) (scan_slot i s c) e)

pub scan-occupied :
    (slots : List LatencySlot) (i : ℕ) (c : Scan) (j : ℕ) (s' : LatencySlot)
    → (scan i slots c).empty ≡ none
    → get_elem? slots j ≡ some s'
    → s'.occupied ≡ true
unfolding scan scan_slot
scan-occupied [] i c j s' e at = ground (arith, at)
scan-occupied (s ∷ slots) i c zero s' e at =
    ground (arith, at, scan-empty_none slots (suc i) (scan_slot i s c) e)
scan-occupied (s ∷ slots) i c (suc j) s' e at =
    scan-occupied slots (suc i) (scan_slot i s c) j s' e at

-- An oldest slot with an access time of at most `a`.
abbrev OldestLe : Scan → ℤ → Type 0
OldestLe c a = (k : ℕ) × (b : ℤ) × (c.oldest ≡ some (k, b)) × (b ≤ℤ a)

scan_slot-OldestLe :
    (i : ℕ) (s : LatencySlot) (c : Scan) (a : ℤ) → OldestLe c a → OldestLe (scan_slot i s c) a
unfolding scan_slot
scan_slot-OldestLe i s c a (k, b, e, l) = elim (Bool-cases s.occupied) [
  | inr free ↦ elim (Option-cases c.empty) [
    | inl n ↦ rw (free, n, scan_slot) (k, b, e, l)
    | inr (j, n) ↦ rw (free, n, scan_slot) (k, b, e, l)
  ]
  | inl taken ↦ elim (Bool-cases (ltb_ℤ s.last_access_ns b)) [
    | inl older ↦ rw (taken, e, older, scan_slot) (i, s.last_access_ns, refl, ground arith)
    | inr newer ↦ rw (taken, e, newer, scan_slot) (k, b, e, l)
  ]
]

scan_slot-OldestLe_self :
    (i : ℕ) (s : LatencySlot) (c : Scan)
    → s.occupied ≡ true
    → OldestLe (scan_slot i s c) s.last_access_ns
unfolding scan_slot
scan_slot-OldestLe_self i s c taken = elim (Option-cases c.oldest) [
  | inl e ↦ rw (taken, e, scan_slot) (i, s.last_access_ns, refl, omega arith)
  | inr ((k, b), e) ↦ elim (Bool-cases (ltb_ℤ s.last_access_ns b)) [
    | inl older ↦ rw (taken, e, older, scan_slot) (i, s.last_access_ns, refl, omega arith)
    | inr newer ↦ rw (taken, e, newer, scan_slot) (k, b, e, ground arith)
  ]
]

scan-OldestLe :
    (slots : List LatencySlot) (i : ℕ) (c : Scan) (a : ℤ)
    → OldestLe c a
    → OldestLe (scan i slots c) a
unfolding scan
scan-OldestLe [] i c a w = w
scan-OldestLe (s ∷ slots) i c a w =
    scan-OldestLe slots (suc i) (scan_slot i s c) a (scan_slot-OldestLe i s c a w)

scan-OldestLe_at :
    (slots : List LatencySlot) (i : ℕ) (c : Scan) (j : ℕ) (s' : LatencySlot)
    → get_elem? slots j ≡ some s'
    → s'.occupied ≡ true
    → OldestLe (scan i slots c) s'.last_access_ns
unfolding scan
scan-OldestLe_at [] i c j s' at taken =
    let impossible : ⊥ = ground (arith, at) in elim impossible [ ]
scan-OldestLe_at (s ∷ slots) i c zero s' at taken =
    let same : s ≡ s' = ground (arith, at) in
    scan-OldestLe slots (suc i) (scan_slot i s c) s'.last_access_ns (
      subst (λ x. OldestLe (scan_slot i s c) x.last_access_ns) same
        (scan_slot-OldestLe_self i s c (ap (λ x. x.occupied) same ∙ taken)))
scan-OldestLe_at (s ∷ slots) i c (suc j) s' at taken =
    scan-OldestLe_at slots (suc i) (scan_slot i s c) j s' at taken

-- The oldest slot is one that the scan has passed.
abbrev pub IsAt : List LatencySlot → ℕ → ℕ → ℤ → Type 0
IsAt slots i k a =
    (j : ℕ) × (s : LatencySlot) × (k ≡ i + j)
    × (get_elem? slots j ≡ some s)
    × (s.last_access_ns ≡ a)

scan_slot-oldest :
    (i : ℕ) (s : LatencySlot) (c : Scan) (k : ℕ) (a : ℤ)
    → (scan_slot i s c).oldest ≡ some (k, a)
    → (c.oldest ≡ some (k, a)) ⊎ ((k ≡ i) × (s.last_access_ns ≡ a))
unfolding scan_slot
scan_slot-oldest i s c k a e = ground (arith, e)

pub scan-IsAt :
    (slots : List LatencySlot) (i : ℕ) (c : Scan) (k : ℕ) (a : ℤ)
    → (scan i slots c).oldest ≡ some (k, a)
    → (c.oldest ≡ some (k, a)) ⊎ IsAt slots i k a
unfolding scan
scan-IsAt [] i c k a e = inl e
scan-IsAt (s ∷ slots) i c k a e = elim (scan-IsAt slots (suc i) (scan_slot i s c) k a e) [
  | inr (j, x, p, at, q) ↦ inr (suc j, x, omega (arith, p), at, q)
  | inl before ↦ elim (scan_slot-oldest i s c k a before) [
    | inl older ↦ inl older
    | inr (p, q) ↦ inr (0, s, omega (arith, p), refl, q)
  ]
]

abbrev start : Scan
start = record { empty = none; oldest = none }

-- the slot of the new domain
abbrev pub written : ℕ → String → DomainLatencyStats → ℤ → LatencySlot
written key domain stats access = record {
  key = key;
  domain = domain;
  stats = stats;
  last_access_ns = access;
  occupied = true;
}

evicted_domain :
    (t : LatencyTable) (key : ℕ) (domain : String) (stats : DomainLatencyStats) (access : ℤ) (k : ℕ)
    (b : ℤ)
    → (scan 0 t.regular start).empty ≡ none
    → (scan 0 t.regular start).oldest ≡ some (k, b)
    → (upsert_regular t key domain stats access).1 ≡ domain_at t.regular k
unfolding upsert_regular
evicted_domain t key domain stats access k b n o = rw (n, o, upsert_regular)

no_eviction :
    (t : LatencyTable) (key : ℕ) (domain : String) (stats : DomainLatencyStats) (access : ℤ) (i : ℕ)
    → (scan 0 t.regular start).empty ≡ some i
    → (upsert_regular t key domain stats access).1 ≡ none
unfolding upsert_regular
no_eviction t key domain stats access i n = rw (n, upsert_regular)

evicted_slot :
    (t : LatencyTable) (key : ℕ) (domain : String) (stats : DomainLatencyStats) (access : ℤ) (k : ℕ)
    (b : ℤ) (s : LatencySlot)
    → (scan 0 t.regular start).empty ≡ none
    → (scan 0 t.regular start).oldest ≡ some (k, b)
    → get_elem? t.regular k ≡ some s
    → (m : ℕ)
    → get_elem? (upsert_regular t key domain stats access).0.regular m
      ≡ (if k == m then some (written key domain stats access) else get_elem? t.regular m)
unfolding upsert_regular new_slot nat_key
evicted_slot t key domain stats access k b s n o at m =
    rw (n, o, upsert_regular)
      (get_elem?-set t.regular k m (written key domain stats access)
          (get_elem?_bound t.regular k at)
        ∙ ground arith)

-- A domain is evicted only from a full partition, and none of its slots was accessed earlier than
-- the evicted one, whose place the new domain takes; every other place keeps its slot.
pub upsert_regular_evicts :
    (t : LatencyTable) (key : ℕ) (domain : String) (stats : DomainLatencyStats) (access : ℤ)
    (gone : String) (j : ℕ) (other : LatencySlot)
    → (upsert_regular t key domain stats access).1 ≡ some gone
    → get_elem? t.regular j ≡ some other
    → (other.occupied ≡ true)
      × (i : ℕ) × (s : LatencySlot) × (get_elem? t.regular i ≡ some s)
      × (s.domain ≡ gone)
      × (s.last_access_ns ≤ℤ other.last_access_ns)
      × ((m : ℕ)
          → get_elem? (upsert_regular t key domain stats access).0.regular m
            ≡ (if i == m then some (written key domain stats access) else get_elem? t.regular m))
unfolding domain_at
upsert_regular_evicts t key domain stats access gone j other e at =
    elim (Option-cases (scan 0 t.regular start).empty) [
      | inr (i, n) ↦
          let impossible : ⊥ = ground (arith, e, no_eviction t key domain stats access i n) in
          elim impossible [ ]
      | inl n ↦
          let taken = scan-occupied t.regular 0 start j other n at in
          let (k, b, o, l) = scan-OldestLe_at t.regular 0 start j other at taken in
          elim (scan-IsAt t.regular 0 start k b o) [
            | inl before ↦ let impossible : ⊥ = ground (arith, before) in elim impossible [ ]
            | inr (i, s, p, found, q) ↦
                let same : k ≡ i = omega (arith, p) in
                let named = evicted_domain t key domain stats access k b n o in
                (
                  taken,
                  i,
                  s,
                  found,
                  ground (arith, e, named, same, found),
                  subst (λ a. a ≤ℤ other.last_access_ns) (sym q) l,
                  evicted_slot t key domain stats access i b s n (o ∙ ap (λ m. some (m, b)) same)
                      found,
                )
          ]
    ]
