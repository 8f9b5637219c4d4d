-- ===== src/Tests/Exposure.antt =====
-- internal/routing/ip_window.go at a window that counts one account.
use resin.Prelude.{
  ◌≤◌, String, true, false, ◌≡◌, refl, arith, ◌||◌, ◌&&◌, if◌then◌else◌, string_key, length, ltb,
  leb, indicator,
}
use resin.Prelude.Int.{pos}
use resin.Netip.{Addr, addr_key}
use resin.Map.{Map, count}
use resin.Routing.Window.{
  WindowEntry, new_ip_account_window, accounts_of, reserve_if_eligible, refresh_on_hit,
  reserve_forced_fallback, counts_by_ip, prune, stats,
}
use resin.Routing.Window.Counting.{IsWellFormed}
use resin.Routing.Window.Admission.{recent, has_account, IsRequest, Outcome, written, below_ceiling}
use resin.Routing.Window.Quota.{
  reserve_if_eligible_lem, refresh_on_hit_lem, reserve_forced_fallback_lem,
}
use resin.Routing.Window.Ceiling.{IsBounded, is_regular, IsBounded-IsWellFormed, reserve-IsBounded}
use resin.Routing.Window.Sweep.{count_of, counts_by_ip_lem, accounts_of-prune}
use resin.Routing.Window.Schedule.{start, next, reserves, forces, accounts_ceiling, new-IsBounded}
use resin.Tests.Data.{ip_a, one_account}

pub one_account-IsBounded : IsBounded 2 one_account
one_account-IsBounded =
    reserve-IsBounded 2 new_ip_account_window (new-IsBounded 2) ip_a "alice" (pos 50) (pos 500)

pub one_account-IsWellFormed : IsWellFormed one_account
one_account-IsWellFormed = IsBounded-IsWellFormed 2 one_account one_account-IsBounded

bob_asks : IsRequest ip_a "bob"
unfolding string_key
bob_asks = record { valid = refl; named = refl }

accounts_ceiling_example :
    let w = (reserve_forced_fallback one_account ip_a "bob" (pos 60) (pos 500) 2).1 in
    (length (accounts_of w ip_a) ≤ 3) × (count is_regular (accounts_of w ip_a) ≤ 2)
accounts_ceiling_example =
    accounts_ceiling 2 (reserve_forced_fallback one_account ip_a "bob" (pos 60) (pos 500) 2).1 ip_a
      (next (next start (reserves ip_a "alice" (pos 50) (pos 500)))
        (forces ip_a "bob" (pos 60) (pos 500)))

abbrev m : Map String WindowEntry
m = recent one_account ip_a (pos 60) (pos 500)

reserve_if_eligible_lem_example :
    let admits = has_account "bob" m || ltb (length m) 2 in
    let r = reserve_if_eligible one_account ip_a "bob" (pos 60) (pos 500) 2 in
    (r.0 ≡ admits)
    × Outcome one_account ip_a
        (if admits then written "bob" (pos 60) false m else m)
        (if admits then 0 else 1)
        0
        r.1
reserve_if_eligible_lem_example =
    reserve_if_eligible_lem one_account ip_a "bob" (pos 60) (pos 500) 2 one_account-IsWellFormed
      bob_asks (omega arith)

refresh_on_hit_lem_example :
    let admits = has_account "bob" m || below_ceiling (length m) 2 in
    let r = refresh_on_hit one_account ip_a "bob" (pos 60) (pos 500) 2 in
    (r.0 ≡ admits)
    × Outcome one_account ip_a
        (if admits then written "bob" (pos 60) (leb 2 (length m)) m else m)
        (if admits then 0 else 1)
        (if has_account "bob" m
          then 0
          else indicator (below_ceiling (length m) 2 && leb 2 (length m)))
        r.1
refresh_on_hit_lem_example =
    refresh_on_hit_lem one_account ip_a "bob" (pos 60) (pos 500) 2 one_account-IsWellFormed bob_asks
      (omega arith)

reserve_forced_fallback_lem_example :
    let admits = has_account "bob" m || below_ceiling (length m) 2 in
    let r = reserve_forced_fallback one_account ip_a "bob" (pos 60) (pos 500) 2 in
    (r.0 ≡ admits)
    × Outcome one_account ip_a
        (if admits then written "bob" (pos 60) true m else m)
        0
        (if has_account "bob" m then 0 else indicator (below_ceiling (length m) 2))
        r.1
reserve_forced_fallback_lem_example =
    reserve_forced_fallback_lem one_account ip_a "bob" (pos 60) (pos 500) 2 one_account-IsWellFormed
      bob_asks

counts_by_ip_lem_example :
    let (counts, w') = counts_by_ip one_account (pos 60) (pos 500) in
    ((q : Addr) → count_of counts q ≡ length (recent one_account q (pos 60) (pos 500)))
    × ((q : Addr) → accounts_of w' q ≡ recent one_account q (pos 60) (pos 500))
    × IsWellFormed w'
    × (stats w' ≡ stats one_account)
counts_by_ip_lem_example = counts_by_ip_lem (pos 60) (pos 500) one_account one_account-IsWellFormed

accounts_of-prune_example :
    accounts_of (prune one_account (pos 900) (pos 500)) ip_a
    ≡ recent one_account ip_a (pos 900) (pos 500)
accounts_of-prune_example =
    accounts_of-prune (pos 900) (pos 500) one_account ip_a one_account-IsWellFormed
