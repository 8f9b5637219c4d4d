-- ===== src/Routing/Lease/Counted.antt =====
-- internal/routing/lease.go: the load counters against the numbers of leases per IP.
use resin.Prelude.{
  ℕ, suc, String, Bool, true, some, ◌≡◌, ◌==◌, arith, string_key, Bool-cases, Option-cases, inl,
  inr,
}
use resin.Prelude.Int.{pos, ◌+ℤ◌}
use resin.Netip.{Addr, addr_key, is_valid}
use resin.Map.{Map, load, store, remove, perform, count, Distinct}
use resin.Map.Laws.{store-Distinct, remove-Distinct}
use resin.Map.Counts.{count-remove, count-store-remove}
use resin.Routing.Load.{IpLoadStats, inc, dec, get}
use resin.Routing.Load.Reads.{get-inc, get-inc_ne, get-dec_ne, get-dec_self}
use resin.Routing.Lease.{Lease, LeaseTable, new_lease_table, create_lease, delete_lease, release}

abbrev pub on_ip : Addr → Lease → Bool
on_ip ip l = l.egress_ip == ip

abbrev pub Exact : IpLoadStats → Map String Lease → Type 0
Exact s m = (ip : Addr) → is_valid ip ≡ true → get s ip ≡ pos (count (on_ip ip) m)

pub record IsCounted (t : LeaseTable) : Type 0 where
  pub distinct : Distinct t.leases
  pub exact : Exact t.stats t.leases

module _ (s : IpLoadStats) (m : Map String Lease) (account : String) (e : Exact s m) where
  pub Exact-release_some :
      (old : Lease) → load account m ≡ some old → Exact (dec s old.egress_ip) (remove account m)
  Exact-release_some old found ip v = elim (Bool-cases (old.egress_ip == ip)) [
    | inl here ↦ ground (
      arith,
      e ip v,
      get-dec_self s old.egress_ip (count (on_ip ip) (remove account m)),
      count-remove (on_ip ip) account m,
    )
    | inr other ↦
        ground (arith, e ip v, get-dec_ne s old.egress_ip ip, count-remove (on_ip ip) account m)
  ]

  pub Exact-release : Exact (release (load account m) s) (remove account m)
  unfolding release
  Exact-release ip v = elim (Option-cases (load account m)) [
    | inl e' ↦ rw (e', release) (ground (arith, e ip v, count-remove (on_ip ip) account m))
    | inr (old, e') ↦ rw (e', release) (Exact-release_some old e' ip v)
  ]

+ℤ_one : (n : ℕ) → pos n +ℤ pos 1 ≡ pos (suc n)
unfolding ◌+ℤ◌
+ℤ_one n = ground arith

-- A lease put where there was none, or where the old one has been released.
pub Exact-inc :
    (s : IpLoadStats) (m : Map String Lease) (account : String) (l : Lease)
    → Exact s (remove account m)
    → Exact (inc s l.egress_ip) (store account l m)
Exact-inc s m account l e ip v = elim (Bool-cases (l.egress_ip == ip)) [
  | inl here ↦ ground (
    arith,
    e ip v,
    get-inc s l.egress_ip ip,
    +ℤ_one (count (on_ip ip) (remove account m)),
    count-store-remove (on_ip ip) account l m,
  )
  | inr other ↦
      ground (arith, e ip v, get-inc_ne s l.egress_ip ip, count-store-remove (on_ip ip) account l m)
]

module _ (t : LeaseTable) (account : String) (c : IsCounted t) where
  -- `CreateLease` keeps the counters exact, with or without an old lease of the account.
  pub create_lease-IsCounted : (l : Lease) → IsCounted (create_lease t account l)
  unfolding create_lease perform
  create_lease-IsCounted l = record {
    distinct = store-Distinct account l t.leases c.distinct;
    exact = Exact-inc _ t.leases account l (Exact-release t.stats t.leases account c.exact);
  }

  pub delete_lease-IsCounted : IsCounted (delete_lease t account).0
  unfolding delete_lease perform release
  delete_lease-IsCounted = elim (Option-cases (load account t.leases)) [
    | inl e ↦ rw (e, delete_lease) c
    | inr (old, e) ↦
        rw (e, delete_lease)
          (record {
            distinct = remove-Distinct account t.leases c.distinct;
            exact = Exact-release_some t.stats t.leases account c.exact old e;
          })
  ]

pub new_lease_table-IsCounted : IsCounted new_lease_table
unfolding get load count
new_lease_table-IsCounted = record { distinct = tt; exact = λ ip v. rw v }
