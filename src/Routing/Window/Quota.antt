-- ===== src/Routing/Window/Quota.antt =====
-- internal/routing/ip_window.go: the three admission methods as functions of the accounts that the
-- IP is exposed to, on every branch.
use resin.Prelude.{
  ℕ, ◌<◌, String, true, false, ◌||◌, ◌&&◌, length, if◌then◌else◌, ◌≡◌, arith, ltb, leb, indicator,
  ap,
}
use resin.Prelude.Int.{ℤ}
use resin.Netip.{Addr, addr_key}
use resin.Routing.Window.{
  IpAccountWindow, Accounts, accounts_of, count_locked, reserve_if_eligible, reserve_counted,
  refresh_on_hit, refresh_counted, reserve_forced_fallback, force_counted, stats,
}
use resin.Routing.Window.Counting.{
  IsWellFormed, count_locked-length, accounts_of-count_locked, count_locked-IsWellFormed,
  stats-count_locked,
}
use resin.Routing.Window.Admission.{
  recent, has_account, IsRequest, Outcome, written, below_ceiling, reserve_counted_lem,
  refresh_counted_lem, force_counted_lem,
}

Outcome-trans :
    (w w' w'' : IpAccountWindow) (ip : Addr) (m m' : Accounts) (blocked forced : ℕ)
    → Outcome w ip m 0 0 w'
    → Outcome w' ip m' blocked forced w''
    → Outcome w ip m' blocked forced w''
Outcome-trans w w' w'' ip m m' blocked forced h k = record {
  replaces = λ q. ground (arith, h.replaces q, k.replaces q);
  outer = λ d. k.outer (h.outer d);
  blocked_total = omega arith;
  fallback_total = omega arith;
}

module _ (w : IpAccountWindow) (f : IsWellFormed w) (ip : Addr) (now window : ℤ) where
  pub count_locked-Outcome :
      Outcome w ip (recent w ip now window) 0 0 (count_locked w ip now window).1
  unfolding stats
  count_locked-Outcome = record {
    replaces = accounts_of-count_locked w ip f now window;
    outer = λ d. (count_locked-IsWellFormed w ip f now window).outer;
    blocked_total = ground (arith, stats-count_locked w ip f now window);
    fallback_total = ground (arith, stats-count_locked w ip f now window);
  }

  accounts_of-counted : accounts_of (count_locked w ip now window).1 ip ≡ recent w ip now window
  accounts_of-counted = ground (arith, accounts_of-count_locked w ip f now window ip)

lt→not-leb : (max : ℕ) → 0 < max → leb max 0 ≡ false
lt→not-leb max h = ground arith

-- The second half of each method, from a state `w'` whose IP has just been counted and pruned.
module _ (w w' : IpAccountWindow) (ip : Addr) (account : String) (now : ℤ) (max : ℕ) (m : Accounts)
    (pruned : accounts_of w' ip ≡ m) (before : Outcome w ip m 0 0 w') where
  reserve_from :
      let admits = has_account account m || ltb (length m) max in
      let r = reserve_counted (length m, w') ip account now max in
      (r.0 ≡ admits)
      × Outcome w ip
          (if admits then written account now false m else m)
          (if admits then 0 else 1)
          0
          r.1
  reserve_from =
      let (answer, out) = rw pruned at (reserve_counted_lem (length m) w' ip account now max) in
      (answer, Outcome-trans w w' _ ip m _ _ _ before out)

  refresh_from :
      let admits = has_account account m || below_ceiling (length m) max in
      let r = refresh_counted (length m, w') ip account now max in
      (r.0 ≡ admits)
      × Outcome w ip
          (if admits then written account now (leb max (length m)) m else m)
          (if admits then 0 else 1)
          (if has_account account m
            then 0
            else indicator (below_ceiling (length m) max && leb max (length m)))
          r.1
  refresh_from =
      let (answer, out) = rw pruned at (refresh_counted_lem (length m) w' ip account now max) in
      (answer, Outcome-trans w w' _ ip m _ _ _ before out)

  force_from :
      let admits = has_account account m || below_ceiling (length m) max in
      let r = force_counted (length m, w') ip account now max in
      (r.0 ≡ admits)
      × Outcome w ip
          (if admits then written account now true m else m)
          0
          (if has_account account m then 0 else indicator (below_ceiling (length m) max))
          r.1
  force_from =
      let (answer, out) = rw pruned at (force_counted_lem (length m) w' ip account now max) in
      (answer, Outcome-trans w w' _ ip m _ _ _ before out)

module _ (w : IpAccountWindow) (ip : Addr) (account : String) (now window : ℤ) (max : ℕ)
    (f : IsWellFormed w) (q : IsRequest ip account) where
  count_locked-pair :
      count_locked w ip now window
      ≡ (length (recent w ip now window), (count_locked w ip now window).1)
  count_locked-pair =
      ap (λ (n : ℕ). (n, (count_locked w ip now window).1)) (count_locked-length w ip f now window)

  -- On a well-formed window and a positive quota, for a valid IP and a named account:
  -- `ReserveIfEligible` admits an account that the IP already counts, and a new one exactly while
  -- fewer than `max` accounts are in the window. The account is then written at `now`, as a
  -- regular one if it is new; a refusal writes nothing and raises `blocked_total` by one. Other
  -- IPs and `fallback_total` stay.
  pub reserve_if_eligible_lem :
      0 < max
      → let m = recent w ip now window in
        let admits = has_account account m || ltb (length m) max in
        let r = reserve_if_eligible w ip account now window max in
        (r.0 ≡ admits)
        × Outcome w ip
            (if admits then written account now false m else m)
            (if admits then 0 else 1)
            0
            r.1
  unfolding reserve_if_eligible
  reserve_if_eligible_lem h =
      rw (q.valid, q.named, lt→not-leb max h, count_locked-pair)
        (reserve_from w _ ip account now max _ (accounts_of-counted w f ip now window)
          (count_locked-Outcome w f ip now window))

  -- On a well-formed window and a positive quota, for a valid IP and a named account:
  -- `RefreshOnHit` admits an account that the IP already counts, and any other exactly below the
  -- ceiling, max + 1. From `max` on the new entry is marked as a forced one and
  -- `fallback_total` goes up; a refusal writes nothing and raises `blocked_total`.
  pub refresh_on_hit_lem :
      0 < max
      → let m = recent w ip now window in
        let admits = has_account account m || below_ceiling (length m) max in
        let r = refresh_on_hit w ip account now window max in
        (r.0 ≡ admits)
        × Outcome w ip
            (if admits then written account now (leb max (length m)) m else m)
            (if admits then 0 else 1)
            (if has_account account m
              then 0
              else indicator (below_ceiling (length m) max && leb max (length m)))
            r.1
  unfolding refresh_on_hit
  refresh_on_hit_lem h =
      rw (q.valid, q.named, lt→not-leb max h, count_locked-pair)
        (refresh_from w _ ip account now max _ (accounts_of-counted w f ip now window)
          (count_locked-Outcome w f ip now window))

  -- On a well-formed window, for a valid IP and a named account:
  -- `ReserveForcedFallback` admits an account that the IP already counts, and any other exactly
  -- below the ceiling; a new entry is marked as forced and counted in `fallback_total`. A refusal
  -- writes nothing, and `blocked_total` never moves.
  pub reserve_forced_fallback_lem :
      let m = recent w ip now window in
      let admits = has_account account m || below_ceiling (length m) max in
      let r = reserve_forced_fallback w ip account now window max in
      (r.0 ≡ admits)
      × Outcome w ip
          (if admits then written account now true m else m)
          0
          (if has_account account m then 0 else indicator (below_ceiling (length m) max))
          r.1
  unfolding reserve_forced_fallback
  reserve_forced_fallback_lem =
      rw (q.valid, q.named, count_locked-pair)
        (force_from w _ ip account now max _ (accounts_of-counted w f ip now window)
          (count_locked-Outcome w f ip now window))
