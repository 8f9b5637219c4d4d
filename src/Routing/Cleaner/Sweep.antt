-- ===== src/Routing/Cleaner/Sweep.antt =====
-- internal/routing/lease_cleaner.go: what a sweep leaves.
use resin.Prelude.{
  String, Bool, false, Option, none, some, List, [], ◌∷◌, if◌then◌else◌, string_key, ◌≡◌, refl,
  arith, Option-cases, Bool-cases, inl, inr, ◌==◌, ◌||◌,
}
use resin.Prelude.Int.{ℤ, ltb_ℤ}
use resin.Map.{load, perform, Distinct}
use resin.Map.Laws.{load-remove, remove-Distinct}
use resin.Routing.Lease.{Lease, LeaseTable, is_expired}
use resin.Routing.Lease.Counted.{IsCounted, Exact-release_some}
use resin.Routing.Cleaner.{expire_lease, sweep_leases}

module _ (id : String) (now : ℤ) where
  abbrev pub unexpired : Option Lease → Option Lease
  unexpired none = none
  unexpired (some l) = if is_expired l now then none else some l

  abbrev pub reaches : List String → String → Bool
  reaches [] q = false
  reaches (a ∷ rest) q = a == q || reaches rest q

  unexpired_twice : (o : Option Lease) → unexpired (unexpired o) ≡ unexpired o
  unexpired_twice none = refl
  unexpired_twice (some l) = ground arith

  expire_lease-IsCounted :
      (account : String) (t : LeaseTable)
      → IsCounted t
      → IsCounted (expire_lease id now account t).0
  unfolding expire_lease perform
  expire_lease-IsCounted account t c = elim (Option-cases (load account t.leases)) [
    | inl e ↦ rw (e, expire_lease) c
    | inr (l, e) ↦ elim (Bool-cases (ltb_ℤ l.expiry_ns now)) [
      | inl old ↦
          rw (e, old, expire_lease)
            (record {
              distinct = remove-Distinct account t.leases c.distinct;
              exact = Exact-release_some t.stats t.leases account c.exact l e;
            })
      | inr alive ↦ rw (e, alive, expire_lease) c
    ]
  ]

  expire_lease-load :
      (account q : String) (t : LeaseTable)
      → Distinct t.leases
      → load q (expire_lease id now account t).0.leases
        ≡ (if account == q then unexpired (load q t.leases) else load q t.leases)
  unfolding expire_lease perform is_expired string_key
  expire_lease-load account q t d = elim (Option-cases (load account t.leases)) [
    | inl e ↦ rw (e, expire_lease) (ground (arith, e))
    | inr (l, e) ↦ elim (Bool-cases (ltb_ℤ l.expiry_ns now)) [
      | inl old ↦
          rw (e, old, expire_lease) (ground (arith, e, old, load-remove account q t.leases d))
      | inr alive ↦ rw (e, alive, expire_lease) (ground (arith, e, alive))
    ]
  ]

  -- A sweep keeps the load counters exact. Of the accounts that it reaches, exactly the expired
  -- leases are gone; all other leases stay.
  pub sweep_leases_lem :
      (accounts : List String) (t : LeaseTable) (q : String)
      → IsCounted t
      → let t' = (sweep_leases id now accounts t).0 in
        IsCounted t'
        × (load q t'.leases
            ≡ (if reaches accounts q then unexpired (load q t.leases) else load q t.leases))
  unfolding sweep_leases
  sweep_leases_lem [] t q c = (c, refl)
  sweep_leases_lem (account ∷ accounts) t q c =
      let c' = expire_lease-IsCounted account t c in
      let (counted, found) = sweep_leases_lem accounts (expire_lease id now account t).0 q c' in
      (
        counted,
        ground (
          arith,
          found,
          expire_lease-load account q t c.distinct,
          unexpired_twice (load q t.leases),
        ),
      )
