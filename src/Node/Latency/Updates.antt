-- ===== src/Node/Latency/Updates.antt =====
-- internal/node/latency.go: `UpdateClassified` and `GetDomainStats` on a table with unique keys.
use resin.Prelude.{
  ℕ, suc, ◌+◌, ◌≤◌, ◌<◌, String, Bool, true, false, Option, none, some, List, [], ◌∷◌, set, length,
  length-set, nat_key, ◌≡◌, refl, subst, sym, ap, ◌∙◌, arith, Option-cases, inl, inr, ◌⊎◌,
}
use resin.Prelude.Int.{ℤ}
use resin.Node.Latency.{
  DomainLatencyStats, LatencySlot, LatencyTable, Formulas, has_key, read_slots, pop_authority,
  pop_regular, pop_domain, Scan, scan_slot, scan, new_slot, upsert_authority, upsert_regular,
  td_ewma_update, update_classified, get_domain_stats,
}
use resin.Node.Latency.Slots.{
  count_key, pop_authority-read_slots, pop_regular-read_slots, count_key-pop_authority,
  count_key-pop_regular, count_key-none, read_slots-none, length-pop_regular, count_key-append,
  count_key-set, read_slots-set, read_slots-append,
}

-- An index that a scan finds is one of the slots that it passes.
scan-empty :
    (slots : List LatencySlot) (i : ℕ) (c : Scan) (j : ℕ)
    → (scan i slots c).empty ≡ some j
    → (c.empty ≡ some j) ⊎ ((i ≤ j) × (j < i + length slots))
unfolding scan scan_slot
scan-empty [] i c j e = inl e
scan-empty (s ∷ slots) i c j e = ground (arith, scan-empty slots (suc i) (scan_slot i s c) j e)

scan-oldest :
    (slots : List LatencySlot) (i : ℕ) (c : Scan) (j : ℕ) (a : ℤ)
    → (scan i slots c).oldest ≡ some (j, a)
    → (c.oldest ≡ some (j, a)) ⊎ ((i ≤ j) × (j < i + length slots))
unfolding scan scan_slot
scan-oldest [] i c j a e = inl e
scan-oldest (s ∷ slots) i c j a e =
    ground (arith, scan-oldest slots (suc i) (scan_slot i s c) j a e)

pub scan-none :
    (slots : List LatencySlot) (i : ℕ) (c : Scan)
    → (scan i slots c).empty ≡ none
    → (scan i slots c).oldest ≡ none
    → (c.empty ≡ none) × (c.oldest ≡ none) × (length slots ≡ 0)
unfolding scan scan_slot
scan-none [] i c e o = (e, o, refl)
scan-none (s ∷ slots) i c e o = ground (arith, scan-none slots (suc i) (scan_slot i s c) e o)

-- No key has two occupied slots, and there is room for one.
pub record IsUnique (t : LatencyTable) : Type 0 where
  pub unique : (k : ℕ) → count_key k t.authorities + count_key k t.regular ≤ 1
  pub room : 0 < length t.regular

pop_domain_lem :
    (t : LatencyTable) (key : ℕ) (now : ℤ)
    → IsUnique t
    → let t' = (pop_domain t key).1 in
      (count_key key t'.authorities ≡ 0) × (count_key key t'.regular ≡ 0) × IsUnique t'
unfolding pop_domain nat_key
pop_domain_lem t key now u = elim (Option-cases (pop_authority key t.authorities).0) [
  | inr (stats, e) ↦
      rw (e, pop_domain)
        (
          ground (arith, e, u.unique key, count_key-pop_authority key key t.authorities),
          ground (arith, e, u.unique key, count_key-pop_authority key key t.authorities),
          record {
            unique = λ k. ground (arith, u.unique k, count_key-pop_authority k key t.authorities);
            room = u.room;
          },
        )
  | inl e ↦
      let z =
        count_key-none key now t.authorities
          (ground (arith, e, pop_authority-read_slots key now t.authorities)) in
      elim (Option-cases (pop_regular key t.regular).0) [
        | inr (stats, e') ↦
            rw (e, e', pop_domain)
              (
                z,
                ground (arith, e', u.unique key, count_key-pop_regular key key t.regular),
                record {
                  unique = λ k. ground (arith, u.unique k, count_key-pop_regular k key t.regular);
                  room = ground (arith, u.room, length-pop_regular key t.regular);
                },
              )
        | inl e' ↦
            rw (e, e', pop_domain)
              (
                z,
                count_key-none key now t.regular
                    (ground (arith, e', pop_regular-read_slots key now t.regular)),
                u,
              )
      ]
]

module _ (x : Formulas) (t : LatencyTable) (domain : String) (now : ℤ) (key : ℕ)
    (same : x.hash_string domain ≡ key) where
  get-authority :
      (stats : DomainLatencyStats)
      → (read_slots key now t.authorities).0 ≡ some stats
      → (get_domain_stats x t domain now).0 ≡ some stats
  unfolding get_domain_stats
  get-authority stats e =
      let e' = subst (λ k. (read_slots k now t.authorities).0 ≡ some stats) (sym same) e in
      rw (e', get_domain_stats)

  get-regular :
      (found : Option DomainLatencyStats)
      → (read_slots key now t.authorities).0 ≡ none
      → (read_slots key now t.regular).0 ≡ found
      → (get_domain_stats x t domain now).0 ≡ found
  unfolding get_domain_stats
  get-regular none a e =
      let a' = subst (λ k. (read_slots k now t.authorities).0 ≡ none) (sym same) a in
      let e' = subst (λ k. (read_slots k now t.regular).0 ≡ none) (sym same) e in
      rw (a', e', get_domain_stats)
  get-regular (some stats) a e =
      let a' = subst (λ k. (read_slots k now t.authorities).0 ≡ none) (sym same) a in
      let e' = subst (λ k. (read_slots k now t.regular).0 ≡ some stats) (sym same) e in
      rw (a', e', get_domain_stats)

abbrev start : Scan
start = record { empty = none; oldest = none }

module _ (t : LatencyTable) (key : ℕ) (domain : String) (stats : DomainLatencyStats)
    (access : ℤ) where
  abbrev slot : LatencySlot
  slot = record {
    key = key;
    domain = domain;
    stats = stats;
    last_access_ns = access;
    occupied = true;
  }

  -- A table with room takes the slot.
  upsert_regular-set :
      0 < length t.regular
      → (i : ℕ) × (i < length t.regular)
        × ((upsert_regular t key domain stats access).0
            ≡ record t { regular = set t.regular i slot })
  unfolding upsert_regular new_slot
  upsert_regular-set room = elim (Option-cases (scan 0 t.regular start).empty) [
    | inr (i, e) ↦
        rw (e, upsert_regular) (i, ground (arith, scan-empty t.regular 0 start i e), refl)
    | inl e ↦ elim (Option-cases (scan 0 t.regular start).oldest) [
      | inr ((i, a), o) ↦
          rw (e, o, upsert_regular) (i, ground (arith, scan-oldest t.regular 0 start i a o), refl)
      | inl o ↦
          let impossible : ⊥ = ground (arith, scan-none t.regular 0 start e o) in
          elim impossible [ ]
    ]
  ]

  has_key-slot : has_key key slot ≡ true
  unfolding nat_key
  has_key-slot = ground arith

  abbrev Free : Type 0
  Free = (count_key key t.authorities ≡ 0) × (count_key key t.regular ≡ 0) × IsUnique t

  -- A slot for a key that does not occur: keys stay unique, and the key reads as written.
  abbrev Written : LatencyTable → Type 0
  Written t' =
      IsUnique t'
      × ((x : Formulas) (now : ℤ)
          → x.hash_string domain ≡ key
          → (get_domain_stats x t' domain now).0 ≡ some stats)

  IsUnique-set : (i : ℕ) → Free → IsUnique (record t { regular = set t.regular i slot })
  unfolding nat_key
  IsUnique-set i (za, zr, u) = record {
    unique = λ k. ground (arith, u.unique k, count_key-set k t.regular i slot);
    room = ground (arith, u.room, length-set t.regular i slot);
  }

  upsert_regular-Written : Free → Written (upsert_regular t key domain stats access).0
  upsert_regular-Written (za, zr, u) =
      let (i, b, e) = upsert_regular-set u.room in
      rw e (
        IsUnique-set i (za, zr, u),
        λ x now same.
            get-regular x _ domain now key same (some stats)
              (read_slots-none key now t.authorities za)
              (read_slots-set key now t.regular i slot zr has_key-slot b),
      )

  upsert_authority-Written : Free → Written (upsert_authority t key domain stats access)
  unfolding upsert_authority count_key nat_key new_slot
  upsert_authority-Written (za, zr, u) = (
    record {
      unique = λ k. ground (arith, u.unique k, count_key-append k t.authorities (slot ∷ []));
      room = u.room;
    },
    λ x now same.
        get-authority x _ domain now key same stats
          (read_slots-append key now t.authorities slot za has_key-slot),
  )

module _ (x : Formulas) where
  -- Popping takes out what reading would find.
  pop_domain-get :
      (t : LatencyTable) (domain : String) (now : ℤ)
      → (pop_domain t (x.hash_string domain)).0 ≡ (get_domain_stats x t domain now).0
  unfolding pop_domain get_domain_stats
  pop_domain-get t domain now =
      let key = x.hash_string domain in
      elim (Option-cases (read_slots key now t.authorities).0) [
        | inr (s, e) ↦
            let p = pop_authority-read_slots key now t.authorities ∙ e in
            rw (p, e, pop_domain, get_domain_stats)
        | inl e ↦
            let p = pop_authority-read_slots key now t.authorities ∙ e in
            elim (Option-cases (read_slots key now t.regular).0) [
              | inr (s, e') ↦
                  let p' = pop_regular-read_slots key now t.regular ∙ e' in
                  rw (p, e, p', e', pop_domain, get_domain_stats)
              | inl e' ↦
                  let p' = pop_regular-read_slots key now t.regular ∙ e' in
                  rw (p, e, p', e', pop_domain, get_domain_stats)
            ]
      ]

  -- An update of a table with unique keys and room keeps both, in either partition, and the domain
  -- then reads as the decayed average of what it read before and the new latency.
  pub update_classified_lem :
      (t : LatencyTable) (domain : String) (latency decay : ℤ) (is_authority : Bool) (now later : ℤ)
      → IsUnique t
      → let t' = (update_classified x t domain latency decay is_authority now).0 in
        IsUnique t'
        × ((get_domain_stats x t' domain later).0
            ≡ some (td_ewma_update x (get_domain_stats x t domain now).0 latency decay now))
  unfolding update_classified
  update_classified_lem t domain latency decay true now later u =
      let key = x.hash_string domain in
      let stats = td_ewma_update x (pop_domain t key).0 latency decay now in
      let (unique, read) =
        upsert_authority-Written (pop_domain t key).1 key domain stats now
          (pop_domain_lem t key now u) in
      (
        unique,
        read x later refl
            ∙ ap (λ o. some (td_ewma_update x o latency decay now)) (pop_domain-get t domain now),
      )
  update_classified_lem t domain latency decay false now later u =
      let key = x.hash_string domain in
      let stats = td_ewma_update x (pop_domain t key).0 latency decay now in
      let (unique, read) =
        upsert_regular-Written (pop_domain t key).1 key domain stats now
          (pop_domain_lem t key now u) in
      (
        unique,
        read x later refl
            ∙ ap (λ o. some (td_ewma_update x o latency decay now)) (pop_domain-get t domain now),
      )
