-- ===== src/Routing/Window/Ceiling.antt =====
-- internal/routing/ip_window.go: the bound on the accounts of one IP, regular and forced, and the
-- admission methods under it.
use resin.Prelude.{
  ℕ, ◌+◌, ◌≤◌, String, Bool, true, false, not, ◌||◌, ◌==◌, length, if◌then◌else◌, ◌≡◌, refl, arith,
  leb, indicator, Option-cases, inl, inr, none, some, string_key, if_both, if_cases,
}
use resin.Prelude.Int.{ℤ}
use resin.Netip.{Addr, addr_key}
use resin.Map.{load, store, count, Distinct}
use resin.Map.Laws.{store-Distinct, retain-Distinct}
use resin.Map.Counts.{
  count-store, count-retain-le, length-retain, count-le-length, count-true-length,
}
use resin.Routing.Window.{
  IpAccountWindow, WindowEntry, Accounts, accounts_of, ceiling, has_expired, reserve_if_eligible,
  refresh_on_hit, reserve_forced_fallback,
}
use resin.Routing.Window.Counting.{IsWellFormed, live_entries}
use resin.Routing.Window.Admission.{
  recent, has_account, Outcome, written, below_ceiling, guard_cases, quota_cases,
}
use resin.Routing.Window.Quota.{
  reserve_if_eligible_lem, refresh_on_hit_lem, reserve_forced_fallback_lem,
}

abbrev pub is_regular : WindowEntry → Bool
is_regular e = not e.via_fallback

-- What one IP may hold.
pub record Bounded (max : ℕ) (m : Accounts) : Type 0 where
  pub distinct : Distinct m
  pub total : length m ≤ max + 1
  pub regulars : count is_regular m ≤ max

pub record IsBounded (max : ℕ) (w : IpAccountWindow) : Type 0 where
  pub outer : Distinct w.entries
  pub at : (ip : Addr) → Bounded max (accounts_of w ip)

length-store :
    (k : String) (e : WindowEntry) (m : Accounts)
    → length (store k e m) + indicator (has_account k m) ≡ length m + 1
length-store k e m =
    ground
      (arith, count-store (λ _. true) k e m, count-true-length m, count-true-length (store k e m))

pub live_entries-Bounded :
    (now window : ℤ) (max : ℕ) (m : Accounts)
    → Bounded max m
    → Bounded max (live_entries now window m)
unfolding live_entries
live_entries-Bounded now window max m b =
    let live = λ (e : WindowEntry). not (has_expired now window e) in
    record {
      distinct = retain-Distinct live m b.distinct;
      total = omega (arith, length-retain live m, count-le-length live m);
      regulars = omega (arith, count-retain-le is_regular live m);
    }

new_Bounded :
    (account : String) (e : WindowEntry) (max : ℕ) (m : Accounts)
    → Bounded max m
    → load account m ≡ none
    → length m + indicator (is_regular e) ≤ max
    → Bounded max (store account e m)
new_Bounded account e max m b new room = record {
  distinct = store-Distinct account e m b.distinct;
  total = ground (arith, length-store account e m);
  regulars = ground (arith, count-store is_regular account e m, count-le-length is_regular m);
}

old_Bounded :
    (account : String) (o e : WindowEntry) (max : ℕ) (m : Accounts)
    → Bounded max m
    → load account m ≡ some o
    → is_regular e ≡ is_regular o
    → Bounded max (store account e m)
old_Bounded account o e max m b old same = record {
  distinct = store-Distinct account e m b.distinct;
  total = ground (arith, length-store account e m);
  regulars = ground (arith, count-store is_regular account e m);
}

written-Bounded :
    (account : String) (now : ℤ) (via : Bool) (max : ℕ) (m : Accounts)
    → Bounded max m
    → (has_account account m ≡ false → length m + indicator (not via) ≤ max)
    → Bounded max (written account now via m)
written-Bounded account now via max m b room = elim (Option-cases (load account m)) [
  | inl e ↦ rw (e, written) (new_Bounded account _ max m b e (room (rw (e, has_account))))
  | inr (o, e) ↦ rw (e, written) (old_Bounded account o _ max m b e refl)
]

below_ceiling-le : (n max : ℕ) → below_ceiling n max ≡ true → n ≤ max
unfolding ceiling
below_ceiling-le n max h = ground arith

module _ (max : ℕ) (w w' : IpAccountWindow) (ip : Addr) where
  -- A method that leaves a bounded map for its IP keeps the window bounded.
  pub Outcome-IsBounded :
      (m : Accounts) (blocked forced : ℕ)
      → IsBounded max w
      → Bounded max m
      → Outcome w ip m blocked forced w'
      → IsBounded max w'
  Outcome-IsBounded m blocked forced b bm out = record {
    outer = out.outer b.outer;
    at = λ q. rw (out.replaces q) (if_both (Bounded max) (ip == q) bm (b.at q));
  }

pub IsBounded-IsWellFormed : (max : ℕ) (w : IpAccountWindow) → IsBounded max w → IsWellFormed w
IsBounded-IsWellFormed max w b = record { outer = b.outer; inner = λ q. (b.at q).distinct }

or_false : (a b : Bool) → a ≡ false → a || b ≡ true → b ≡ true
or_false a b h k = ground arith

-- A method that admits, at a state whose IP holds `m` after pruning.
admitted_Bounded :
    (account : String) (now : ℤ) (via : Bool) (max : ℕ) (m : Accounts) (room : Bool)
    → Bounded max m
    → (room ≡ true → length m + indicator (not via) ≤ max)
    → Bounded max (if has_account account m || room then written account now via m else m)
admitted_Bounded account now via max m room b fits =
    if_cases (Bounded max) (has_account account m || room)
      (λ h. written-Bounded account now via max m b (λ k. fits (or_false _ room k h))) (λ _. b)

module _ (max : ℕ) (w : IpAccountWindow) (b : IsBounded max w) (ip : Addr) (account : String)
    (now window : ℤ) where
  abbrev pub m : Accounts
  m = recent w ip now window

  f : IsWellFormed w
  f = IsBounded-IsWellFormed max w b

  m-Bounded : Bounded max m
  m-Bounded = live_entries-Bounded now window max _ (b.at ip)

  pub reserve-IsBounded : IsBounded max (reserve_if_eligible w ip account now window max).1
  unfolding reserve_if_eligible
  reserve-IsBounded = elim (quota_cases ip account max) [
    | inl idle ↦ rw (idle, reserve_if_eligible) b
    | inr (q, on) ↦
        Outcome-IsBounded max w _ ip _ _ _ b
          (admitted_Bounded account now false max m _ m-Bounded (λ h. ground arith))
          (reserve_if_eligible_lem w ip account now window max f q on).1
  ]

  pub refresh-IsBounded : IsBounded max (refresh_on_hit w ip account now window max).1
  unfolding refresh_on_hit
  refresh-IsBounded = elim (quota_cases ip account max) [
    | inl idle ↦ rw (idle, refresh_on_hit) b
    | inr (q, on) ↦
        Outcome-IsBounded max w _ ip _ _ _ b
          (admitted_Bounded account now (leb max (length m)) max m _ m-Bounded
            (λ h. ground (arith, below_ceiling-le (length m) max h)))
          (refresh_on_hit_lem w ip account now window max f q on).1
  ]

  pub force-IsBounded : IsBounded max (reserve_forced_fallback w ip account now window max).1
  unfolding reserve_forced_fallback
  force-IsBounded = elim (guard_cases ip account) [
    | inl idle ↦ rw (idle, reserve_forced_fallback) b
    | inr q ↦
        Outcome-IsBounded max w _ ip _ _ _ b
          (admitted_Bounded account now true max m _ m-Bounded
            (λ h. ground (arith, below_ceiling-le (length m) max h)))
          (reserve_forced_fallback_lem w ip account now window max f q).1
  ]
