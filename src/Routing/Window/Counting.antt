-- ===== src/Routing/Window/Counting.antt =====
-- internal/routing/ip_window.go: what `countLocked` counts and prunes, and what the writes under
-- the lock leave for every IP.
use resin.Prelude.{
  not, none, some, [], ◌∷◌, ◌==◌, length, if◌then◌else◌, ◌≡◌, arith, string_key, Option-cases,
  if_both, inl, inr,
}
use resin.Prelude.Int.{ℤ}
use resin.Netip.{Addr, addr_key}
use resin.Map.{load, remove, retain, Distinct}
use resin.Map.Laws.{load-store, load-remove, store-Distinct, remove-Distinct, retain-Distinct}
use resin.Routing.Window.{
  IpAccountWindow, Accounts, accounts_of, set_accounts, keep_live, count_locked, has_expired, stats,
}

-- The maps inside and outside have no key twice.
pub record IsWellFormed (w : IpAccountWindow) : Type 0 where
  pub outer : Distinct w.entries
  pub inner : (ip : Addr) → Distinct (accounts_of w ip)

-- The entries of a map that are still in the window.
unfoldable pub live_entries : ℤ → ℤ → Accounts → Accounts
unfolding retain has_expired
live_entries now window m = retain (λ e. not (has_expired now window e)) m

module _ (w : IpAccountWindow) (ip : Addr) (m : Accounts) where
  pub accounts_of-set_accounts :
      (q : Addr) → accounts_of (set_accounts w ip m) q ≡ (if ip == q then m else accounts_of w q)
  unfolding accounts_of set_accounts
  accounts_of-set_accounts q = rw (load-store ip q m w.entries, accounts_of) (ground arith)

  pub set_accounts-IsWellFormed : Distinct m → IsWellFormed w → IsWellFormed (set_accounts w ip m)
  unfolding set_accounts
  set_accounts-IsWellFormed d f = record {
    outer = store-Distinct ip m w.entries f.outer;
    inner = λ q. rw (accounts_of-set_accounts q) (if_both Distinct (ip == q) d (f.inner q));
  }

module _ (w : IpAccountWindow) (ip : Addr) where
  accounts_of-none : load ip w.entries ≡ none → accounts_of w ip ≡ []
  unfolding accounts_of
  accounts_of-none e = rw (e, accounts_of)

  accounts_of-some : (m : Accounts) → load ip w.entries ≡ some m → accounts_of w ip ≡ m
  unfolding accounts_of
  accounts_of-some m e = rw (e, accounts_of)

module _ (w : IpAccountWindow) (ip : Addr) (now window : ℤ) where
  count_locked-none : load ip w.entries ≡ none → count_locked w ip now window ≡ (0, w)
  unfolding count_locked
  count_locked-none e = rw (e, count_locked)

  count_locked-some :
      (m : Accounts)
      → load ip w.entries ≡ some m
      → count_locked w ip now window
        ≡ (length (live_entries now window m), keep_live w ip (live_entries now window m))
  unfolding count_locked live_entries
  count_locked-some m e = rw (e, count_locked)

module _ (w : IpAccountWindow) (ip : Addr) (f : IsWellFormed w) where
  accounts_of-remove :
      (q : Addr)
      → accounts_of (record w { entries = remove ip w.entries }) q
        ≡ (if ip == q then [] else accounts_of w q)
  unfolding accounts_of
  accounts_of-remove q = rw (load-remove ip q w.entries f.outer, accounts_of) (ground arith)

  pub accounts_of-keep_live :
      (m : Accounts) (q : Addr)
      → accounts_of (keep_live w ip m) q ≡ (if ip == q then m else accounts_of w q)
  unfolding keep_live
  accounts_of-keep_live [] q = accounts_of-remove q
  accounts_of-keep_live (e ∷ m) q = accounts_of-set_accounts w ip (e ∷ m) q

  pub keep_live-IsWellFormed : (m : Accounts) → Distinct m → IsWellFormed (keep_live w ip m)
  unfolding keep_live
  keep_live-IsWellFormed [] d = record {
    outer = remove-Distinct ip w.entries f.outer;
    inner = λ q. rw (accounts_of-remove q) (if_both Distinct (ip == q) d (f.inner q));
  }
  keep_live-IsWellFormed (e ∷ m) d = set_accounts-IsWellFormed w ip (e ∷ m) d f

  module _ (now window : ℤ) where
    absent :
        (q : Addr)
        → load ip w.entries ≡ none
        → accounts_of w q
          ≡ (if ip == q then live_entries now window (accounts_of w ip) else accounts_of w q)
    unfolding accounts_of live_entries
    absent q e = ground arith

    -- The count is that of the live entries of the IP.
    pub count_locked-length :
        (count_locked w ip now window).0 ≡ length (live_entries now window (accounts_of w ip))
    unfolding count_locked accounts_of live_entries
    count_locked-length = ground arith

    pub accounts_of-count_locked :
        (q : Addr)
        → accounts_of (count_locked w ip now window).1 q
          ≡ (if ip == q then live_entries now window (accounts_of w ip) else accounts_of w q)
    accounts_of-count_locked q = elim (Option-cases (load ip w.entries)) [
      | inl e ↦ rw (count_locked-none w ip now window e) (absent q e)
      | inr (m, e) ↦ rw (
        count_locked-some w ip now window m e,
        accounts_of-keep_live (live_entries now window m) q,
        accounts_of-some w ip m e,
      )
    ]

    pub count_locked-IsWellFormed : IsWellFormed (count_locked w ip now window).1
    unfolding live_entries
    count_locked-IsWellFormed = elim (Option-cases (load ip w.entries)) [
      | inl e ↦ rw (count_locked-none w ip now window e) f
      | inr (m, e) ↦ rw (count_locked-some w ip now window m e) (
          keep_live-IsWellFormed (live_entries now window m)
            (retain-Distinct _ m (rw (accounts_of-some w ip m e) at (f.inner ip))))
    ]

    -- The count itself leaves the counters alone.
    pub stats-count_locked : stats (count_locked w ip now window).1 ≡ stats w
    unfolding stats count_locked
    stats-count_locked = ground arith
