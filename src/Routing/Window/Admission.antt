-- ===== src/Routing/Window/Admission.antt =====
-- internal/routing/ip_window.go: when `ReserveIfEligible`, `RefreshOnHit` and
-- `ReserveForcedFallback` admit an account, and what each leaves behind on every branch.
use resin.Prelude.{
  ℕ, ◌+◌, ◌<◌, String, Bool, true, false, not, ◌||◌, none, some, ◌==◌, if◌then◌else◌, ◌≡◌, refl,
  arith, string_key, Option-cases, Bool-cases, inl, inr, ltb, ◌⊎◌, leb, indicator, ◌&&◌,
}
use resin.Prelude.Int.{ℤ, pos, leb_ℤ}
use resin.Netip.{Addr, addr_key, is_valid}
use resin.Map.{load, store, Distinct}
use resin.Map.Laws.{store-Distinct}
use resin.Routing.Window.{
  IpAccountWindow, Accounts, WindowEntry, accounts_of, set_accounts, touch_locked, ceiling,
  reserve_counted, refresh_counted, force_counted,
}
use resin.Routing.Window.Counting.{live_entries, accounts_of-set_accounts}

-- The accounts that an IP is exposed to now.
abbrev pub recent : IpAccountWindow → Addr → ℤ → ℤ → Accounts
recent w ip now window = live_entries now window (accounts_of w ip)

abbrev pub has_account : String → Accounts → Bool
has_account account m = elim (load account m) [ none ↦ false | some e ↦ true ]

-- The map of one IP is replaced by `m`, those of all others stay.
abbrev pub Replaces : IpAccountWindow → Addr → Accounts → IpAccountWindow → Type 0
Replaces w ip m w' = (q : Addr) → accounts_of w' q ≡ (if ip == q then m else accounts_of w q)

-- The guards of the methods let the request through to the count.
pub record IsRequest (ip : Addr) (account : String) : Type 0 where
  pub valid : is_valid ip ≡ true
  pub named : (account == "") ≡ false

Replaces-trans :
    (w w' w'' : IpAccountWindow) (ip : Addr) (m m' : Accounts)
    → Replaces w ip m w'
    → Replaces w' ip m' w''
    → Replaces w ip m' w''
Replaces-trans w w' w'' ip m m' h k q = ground (arith, h q, k q)

Replaces-self :
    (w : IpAccountWindow) (ip : Addr) (m : Accounts) → accounts_of w ip ≡ m → Replaces w ip m w
Replaces-self w ip m e q = ground arith

-- What an admission leaves: the map of the IP, and how far the two counters went up.
pub record Outcome (w : IpAccountWindow) (ip : Addr) (m : Accounts) (blocked forced : ℕ)
    (w' : IpAccountWindow) : Type 0 where
  pub replaces : Replaces w ip m w'
  pub outer : Distinct w.entries → Distinct w'.entries
  pub blocked_total : w'.blocked_total ≡ w.blocked_total + blocked
  pub fallback_total : w'.fallback_total ≡ w.fallback_total + forced

abbrev pub written : String → ℤ → Bool → Accounts → Accounts
written account now via m = elim (load account m) [
  | some e ↦ store account (record e { last_seen_ns = now }) m
  | none ↦ store account (record { last_seen_ns = now; via_fallback = via }) m
]

-- A state with one map written, whatever it does to the counters.
write_Outcome :
    (w w' : IpAccountWindow) (ip : Addr) (m : Accounts) (blocked forced : ℕ)
    → w'.entries ≡ store ip m w.entries
    → w'.blocked_total ≡ w.blocked_total + blocked
    → w'.fallback_total ≡ w.fallback_total + forced
    → Outcome w ip m blocked forced w'
unfolding set_accounts accounts_of
write_Outcome w w' ip m blocked forced e b f = record {
  replaces = λ q. rw (e, accounts_of) (accounts_of-set_accounts w ip m q);
  outer = λ d. rw e (store-Distinct ip m w.entries d);
  blocked_total = b;
  fallback_total = f;
}

write_only_Outcome :
    (w : IpAccountWindow) (ip : Addr) (m : Accounts) → Outcome w ip m 0 0 (set_accounts w ip m)
unfolding set_accounts
write_only_Outcome w ip m = write_Outcome w _ ip m 0 0 refl (omega arith) (omega arith)

-- An entry inserted by force, with the counter raised before or after.
forced_Outcome :
    (w : IpAccountWindow) (ip : Addr) (account : String) (e : WindowEntry)
    → Outcome w ip (store account e (accounts_of w ip)) 0 1 (record {
      entries =
          store ip
            (store account e (accounts_of (record w { fallback_total = w.fallback_total + 1 }) ip))
            w.entries;
      blocked_total = w.blocked_total;
      fallback_total = w.fallback_total + 1;
    })
unfolding accounts_of
forced_Outcome w ip account e = write_Outcome w _ ip _ 0 1 refl (omega arith) refl

-- A state whose maps are untouched.
pub same_Outcome :
    (w : IpAccountWindow) (ip : Addr) (blocked : ℕ)
    → Outcome w ip
        (accounts_of w ip)
        blocked
        0
        (record w { blocked_total = w.blocked_total + blocked })
unfolding accounts_of
same_Outcome w ip blocked = record {
  replaces = λ q. ground arith;
  outer = λ d. d;
  blocked_total = refl;
  fallback_total = omega arith;
}

pub unchanged_Outcome : (w : IpAccountWindow) (ip : Addr) → Outcome w ip (accounts_of w ip) 0 0 w
unchanged_Outcome w ip = record {
  replaces = λ q. ground arith;
  outer = λ d. d;
  blocked_total = omega arith;
  fallback_total = omega arith;
}

ltb-leb : (n max : ℕ) → ltb n max ≡ not (leb max n)
ltb-leb n max = ground arith

-- The count of the IP is below the hard ceiling, max + 1.
abbrev pub below_ceiling : ℕ → ℕ → Bool
below_ceiling n max = not (leb_ℤ (ceiling max) (pos n))

module _ (n : ℕ) (w : IpAccountWindow) (ip : Addr) (account : String) (now : ℤ) (max : ℕ) where
  abbrev pub known : Bool
  known = has_account account (accounts_of w ip)

  pub reserve_counted_lem :
      let admits = known || ltb n max in
      let r = reserve_counted (n, w) ip account now max in
      (r.0 ≡ admits)
      × Outcome w ip
          (if admits then written account now false (accounts_of w ip) else accounts_of w ip)
          (if admits then 0 else 1)
          0
          r.1
  unfolding reserve_counted
  reserve_counted_lem = elim (Option-cases (load account (accounts_of w ip))) [
    | inl e ↦ elim (Bool-cases (leb max n)) [
      | inl full ↦
          rw (e, reserve_counted, known, has_account, written, ltb-leb n max, full)
            (refl, same_Outcome w ip 1)
      | inr free ↦
          rw (e, reserve_counted, known, has_account, written, ltb-leb n max, free)
            (refl, rw (touch_locked, e) (write_only_Outcome w ip _))
    ]
    | inr (o, e) ↦
        rw (e, reserve_counted, known, has_account, written)
          (refl, rw (touch_locked, e) (write_only_Outcome w ip _))
  ]

  pub refresh_counted_lem :
      let admits = known || below_ceiling n max in
      let r = refresh_counted (n, w) ip account now max in
      (r.0 ≡ admits)
      × Outcome w ip
          (if admits then written account now (leb max n) (accounts_of w ip) else accounts_of w ip)
          (if admits then 0 else 1)
          (if known then 0 else indicator (below_ceiling n max && leb max n))
          r.1
  unfolding refresh_counted
  refresh_counted_lem = elim (Option-cases (load account (accounts_of w ip))) [
    | inl e ↦ elim (Bool-cases (leb_ℤ (ceiling max) (pos n))) [
      | inl full ↦
          rw (e, refresh_counted, known, has_account, written, full) (refl, same_Outcome w ip 1)
      | inr free ↦ elim (Bool-cases (leb max n)) [
        | inl over ↦
            rw (e, refresh_counted, known, has_account, written, free, over)
              (refl, forced_Outcome w ip account _)
        | inr under ↦
            rw (e, refresh_counted, known, has_account, written, free, under)
              (refl, write_only_Outcome w ip _)
      ]
    ]
    | inr (o, e) ↦
        rw (e, refresh_counted, known, has_account, written)
          (refl, rw (touch_locked, e) (write_only_Outcome w ip _))
  ]

  pub force_counted_lem :
      let admits = known || below_ceiling n max in
      let r = force_counted (n, w) ip account now max in
      (r.0 ≡ admits)
      × Outcome w ip
          (if admits then written account now true (accounts_of w ip) else accounts_of w ip)
          0
          (if known then 0 else indicator (below_ceiling n max))
          r.1
  unfolding force_counted
  force_counted_lem = elim (Option-cases (load account (accounts_of w ip))) [
    | inl e ↦ elim (Bool-cases (leb_ℤ (ceiling max) (pos n))) [
      | inl full ↦
          rw (e, force_counted, known, has_account, written, full) (refl, unchanged_Outcome w ip)
      | inr free ↦
          rw (e, force_counted, known, has_account, written, free)
            (refl, write_Outcome w _ ip _ 0 1 refl (omega arith) refl)
    ]
    | inr (o, e) ↦
        rw (e, force_counted, known, has_account, written)
          (refl, rw (touch_locked, e) (write_only_Outcome w ip _))
  ]

-- Either a guard of the methods answers at once, or the request is one to count.
pub guard_cases :
    (ip : Addr) (account : String)
    → ((not (is_valid ip) || account == "") ≡ true) ⊎ IsRequest ip account
guard_cases ip account = elim (Bool-cases (is_valid ip)) [
  | inl valid ↦ elim (Bool-cases (account == "")) [
    | inl empty ↦ inl (rw (valid, empty))
    | inr named ↦ inr (record { valid = valid; named = named })
  ]
  | inr invalid ↦ inl (rw invalid)
]

pub quota_cases :
    (ip : Addr) (account : String) (max : ℕ)
    → ((not (is_valid ip) || account == "" || leb max 0) ≡ true)
      ⊎ (IsRequest ip account × (0 < max))
quota_cases ip account max = elim (guard_cases ip account) [
  | inl idle ↦ inl (ground arith)
  | inr q ↦ elim (Bool-cases (leb max 0)) [
    | inl off ↦ inl (ground arith)
    | inr on ↦ inr (q, ground arith)
  ]
]
