-- ===== src/Routing/Window/Sweep.antt =====
-- internal/routing/ip_window.go: `CountsByIP` and `Prune`, which go over every IP.
use resin.Prelude.{
  ℕ, Bool, false, not, ◌||◌, ◌==◌, length, if◌then◌else◌, ◌≡◌, refl, arith, Option, none, some,
  List, [], ◌∷◌, ◌∙◌,
}
use resin.Prelude.Int.{ℤ}
use resin.Netip.{Addr, addr_key}
use resin.Map.{Map, load, retain, Distinct, keys}
use resin.Routing.Window.{
  IpAccountWindow, WindowEntry, Accounts, accounts_of, count_locked, has_expired, counts_loop,
  counts_by_ip, prune, prune_loop, stats,
}
use resin.Routing.Window.Counting.{
  IsWellFormed, live_entries, accounts_of-count_locked, count_locked-IsWellFormed,
  count_locked-length, stats-count_locked,
}
use resin.Routing.Window.Admission.{recent}

-- counts[ip], where a missing IP reads as 0
unfoldable pub count_of : Map Addr ℕ → Addr → ℕ
unfolding load
count_of counts ip = elim (load ip counts) [ none ↦ 0 | some n ↦ n ]

abbrev visited : List Addr → Addr → Bool
visited [] q = false
visited (ip ∷ ips) q = ip == q || visited ips q

retain-retain : (p : WindowEntry → Bool) (m : Accounts) → retain p (retain p m) ≡ retain p m
unfolding retain
retain-retain p [] = refl
retain-retain p ((k, e) ∷ m) = ground (arith, retain-retain p m)

module _ (now window : ℤ) where
  live_again :
      (m : Accounts)
      → live_entries now window (live_entries now window m) ≡ live_entries now window m
  unfolding live_entries
  live_again m = retain-retain (λ e. not (has_expired now window e)) m

  live_none : live_entries now window [] ≡ []
  unfolding live_entries retain
  live_none = refl

  unvisited : (q : Addr) (es : Map Addr Accounts) → visited (keys es) q ≡ false → load q es ≡ none
  unfolding load
  unvisited q [] h = refl
  unvisited q ((ip, m) ∷ es) h = ground (arith, unvisited q es)

  -- What the loop leaves and counts, for every IP.
  pub record Counted (ips : List Addr) (w : IpAccountWindow) (r : Map Addr ℕ × IpAccountWindow)
      : Type 0 where
    pub well_formed : IsWellFormed r.1
    pub kept :
        (q : Addr)
        → accounts_of r.1 q ≡ (if visited ips q then recent w q now window else accounts_of w q)
    pub counts :
        (q : Addr) → count_of r.0 q ≡ (if visited ips q then length (recent w q now window) else 0)
    pub counters : stats r.1 ≡ stats w

  counts_loop-Counted :
      (ips : List Addr) (w : IpAccountWindow)
      → IsWellFormed w
      → Counted ips w (counts_loop ips w now window)
  unfolding counts_loop count_of
  counts_loop-Counted [] w f = record {
    well_formed = f;
    kept = λ q. refl;
    counts = λ q. refl;
    counters = refl;
  }
  counts_loop-Counted (ip ∷ ips) w f =
      let w' = (count_locked w ip now window).1 in
      let rest = counts_loop-Counted ips w' (count_locked-IsWellFormed w ip f now window) in
      record {
        well_formed = rest.well_formed;
        kept = λ q. ground (
          arith,
          rest.kept q,
          accounts_of-count_locked w ip f now window q,
          live_again (accounts_of w q),
        );
        counts = λ q. ground (
          arith,
          rest.counts q,
          accounts_of-count_locked w ip f now window q,
          live_again (accounts_of w q),
          count_locked-length w ip f now window,
        );
        counters = rest.counters ∙ stats-count_locked w ip f now window;
      }

  unvisited_recent :
      (w : IpAccountWindow) (q : Addr) → visited (keys w.entries) q ≡ false → accounts_of w q ≡ []
  unfolding accounts_of
  unvisited_recent w q h = rw (unvisited q w.entries h, accounts_of)

  -- `CountsByIP` gives each IP the number of its accounts in the window, an absent IP 0, and leaves
  -- exactly those accounts; the counters stay.
  pub counts_by_ip_lem :
      (w : IpAccountWindow)
      → IsWellFormed w
      → let (counts, w') = counts_by_ip w now window in
        ((q : Addr) → count_of counts q ≡ length (recent w q now window))
        × ((q : Addr) → accounts_of w' q ≡ recent w q now window)
        × IsWellFormed w'
        × (stats w' ≡ stats w)
  unfolding counts_by_ip
  counts_by_ip_lem w f =
      let c = counts_loop-Counted (keys w.entries) w f in
      (
        λ q. ground (arith, c.counts q, unvisited_recent w q, live_none),
        λ q. ground (arith, c.kept q, unvisited_recent w q, live_none),
        c.well_formed,
        c.counters,
      )

  abbrev live_or_none : Option Accounts → Option Accounts
  live_or_none none = none
  live_or_none (some m) = elim (live_entries now window m) [ [] ↦ none | e ∷ l ↦ some (e ∷ l) ]

  load-prune_loop-none :
      (q : Addr) (es : Map Addr Accounts)
      → load q es ≡ none
      → load q (prune_loop now window es) ≡ none
  unfolding load prune_loop
  load-prune_loop-none q [] h = refl
  load-prune_loop-none q ((ip, m) ∷ es) h = ground (arith, load-prune_loop-none q es)

  load-prune_loop :
      (q : Addr) (es : Map Addr Accounts)
      → Distinct es
      → load q (prune_loop now window es) ≡ live_or_none (load q es)
  unfolding load prune_loop live_entries
  load-prune_loop q [] d = refl
  load-prune_loop q ((ip, m) ∷ es) d =
      ground (arith, load-prune_loop q es d.1, load-prune_loop-none q es)

  prune_loop-Distinct : (es : Map Addr Accounts) → Distinct es → Distinct (prune_loop now window es)
  unfolding load prune_loop
  prune_loop-Distinct [] d = tt
  prune_loop-Distinct ((ip, m) ∷ es) d =
      ground (arith, prune_loop-Distinct es d.1, load-prune_loop-none ip es)

  or_none :
      (o : Option Accounts)
      → ◌≡◌ {A = Accounts}
          (elim (live_or_none o) [ none ↦ [] | some m ↦ m ])
          (live_entries now window (elim o [ none ↦ [] | some m ↦ m ]))
  unfolding live_entries retain
  or_none none = refl
  or_none (some m) = ground arith

  -- `Prune` leaves every IP exactly the accounts that are still in the window.
  pub accounts_of-prune :
      (w : IpAccountWindow) (q : Addr)
      → IsWellFormed w
      → accounts_of (prune w now window) q ≡ recent w q now window
  unfolding prune accounts_of
  accounts_of-prune w q f =
      rw (load-prune_loop q w.entries f.outer, accounts_of) (or_none (load q w.entries))

  pub prune-outer : (w : IpAccountWindow) → IsWellFormed w → Distinct (prune w now window).entries
  unfolding prune
  prune-outer w f = prune_loop-Distinct w.entries f.outer
