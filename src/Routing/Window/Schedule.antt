-- ===== src/Routing/Window/Schedule.antt =====
-- internal/routing/ip_window.go: concurrent requests. The mutex makes every method one step, so a
-- run of many goroutines is a sequence of steps, with any clocks, windows, IPs and accounts.
use resin.Prelude.{ℕ, ◌+◌, ◌≤◌, String, length, arith}
use resin.Prelude.Int.{ℤ}
use resin.Netip.{Addr, addr_key}
use resin.Map.{count, load}
use resin.Routing.Window.{
  IpAccountWindow, new_ip_account_window, accounts_of, count_recent, counts_by_ip, prune,
  reserve_if_eligible, refresh_on_hit, reserve_forced_fallback,
}
use resin.Routing.Window.Counting.{IsWellFormed}
use resin.Routing.Window.Quota.{count_locked-Outcome}
use resin.Routing.Window.Ceiling.{
  IsBounded, is_regular, live_entries-Bounded, Outcome-IsBounded, IsBounded-IsWellFormed,
  reserve-IsBounded, refresh-IsBounded, force-IsBounded,
}
use resin.Routing.Window.Sweep.{counts_by_ip_lem, accounts_of-prune, prune-outer}

-- One locked method call of the routing path, under the quota `max`. (`Touch`, with which an
-- administrator binds an account, has no limit and is no such step.)
pub data Step (max : ℕ) (w : IpAccountWindow) : IpAccountWindow → Type 0 where
  reserves :
      (ip : Addr) (account : String) (now window : ℤ)
      → Step max w (reserve_if_eligible w ip account now window max).1
  refreshes :
      (ip : Addr) (account : String) (now window : ℤ)
      → Step max w (refresh_on_hit w ip account now window max).1
  forces :
      (ip : Addr) (account : String) (now window : ℤ)
      → Step max w (reserve_forced_fallback w ip account now window max).1
  counts : (ip : Addr) (now window : ℤ) → Step max w (count_recent w ip now window).1
  counts_all : (now window : ℤ) → Step max w (counts_by_ip w now window).1
  prunes : (now window : ℤ) → Step max w (prune w now window)

pub data Run (max : ℕ) (w : IpAccountWindow) : IpAccountWindow → Type 0 where
  start : Run max w w
  next : {w' w'' : IpAccountWindow} → Run max w w' → Step max w' w'' → Run max w w''

pub Run-trans : {max : ℕ} {a b c : IpAccountWindow} → Run max a b → Run max b c → Run max a c
Run-trans r start = r
Run-trans r (next q s) = next (Run-trans r q) s

module _ (max : ℕ) (w : IpAccountWindow) (b : IsBounded max w) (now window : ℤ) where
  f : IsWellFormed w
  f = IsBounded-IsWellFormed max w b

  counts_all-IsBounded : IsBounded max (counts_by_ip w now window).1
  counts_all-IsBounded =
      let (_, kept, formed, _) = counts_by_ip_lem now window w f in
      record {
        outer = formed.outer;
        at = λ q. rw (kept q) (live_entries-Bounded now window max _ (b.at q));
      }

  prune-IsBounded : IsBounded max (prune w now window)
  prune-IsBounded = record {
    outer = prune-outer now window w f;
    at = λ q.
        rw (accounts_of-prune now window w q f) (live_entries-Bounded now window max _ (b.at q));
  }

  count-IsBounded : (ip : Addr) → IsBounded max (count_recent w ip now window).1
  unfolding count_recent
  count-IsBounded ip =
      Outcome-IsBounded max w _ ip _ 0 0 b (live_entries-Bounded now window max _ (b.at ip))
        (count_locked-Outcome w f ip now window)

pub Step-IsBounded :
    {max : ℕ} {w w' : IpAccountWindow} → Step max w w' → IsBounded max w → IsBounded max w'
Step-IsBounded {max} {w} (reserves ip account now window) b =
    reserve-IsBounded max w b ip account now window
Step-IsBounded {max} {w} (refreshes ip account now window) b =
    refresh-IsBounded max w b ip account now window
Step-IsBounded {max} {w} (forces ip account now window) b =
    force-IsBounded max w b ip account now window
Step-IsBounded {max} {w} (counts ip now window) b = count-IsBounded max w b now window ip
Step-IsBounded {max} {w} (counts_all now window) b = counts_all-IsBounded max w b now window
Step-IsBounded {max} {w} (prunes now window) b = prune-IsBounded max w b now window

pub Run-IsBounded :
    {max : ℕ} {w w' : IpAccountWindow} → IsBounded max w → Run max w w' → IsBounded max w'
Run-IsBounded b start = b
Run-IsBounded b (next r s) = Step-IsBounded s (Run-IsBounded b r)

pub new-IsBounded : (max : ℕ) → IsBounded max new_ip_account_window
unfolding accounts_of load count
new-IsBounded max = record {
  outer = tt;
  at = λ ip. record { distinct = tt; total = omega arith; regulars = omega arith };
}

-- Whatever the interleaving of the routing methods, from an empty window every IP holds at most
-- max + 1 accounts, of which at most max are regular ones.
pub accounts_ceiling :
    (max : ℕ) (w : IpAccountWindow) (ip : Addr)
    → Run max new_ip_account_window w
    → (length (accounts_of w ip) ≤ max + 1) × (count is_regular (accounts_of w ip) ≤ max)
accounts_ceiling max w ip r =
    let b = (Run-IsBounded (new-IsBounded max) r).at ip in (b.total, b.regulars)
