-- ===== src/Routing/Window.antt =====
-- internal/routing/ip_window.go: `IPAccountWindow`. The mutex makes each method one atomic step,
-- so a method is a function from the state before to the state after. Times are `int64`
-- nanoseconds, and their difference wraps around.
pub mod Counting
pub mod Admission
pub mod Quota
pub mod Ceiling
pub mod Sweep
pub mod Schedule
use resin.Prelude.{
  ℕ, zero, ◌+◌, ◌-◌, String, Bool, true, false, ◌||◌, not, Option, none, some, List, [], ◌∷◌,
  string_key, ◌==◌, ltb, leb, length, if◌then◌else◌,
}
use resin.Prelude.Int.{ℤ, pos, negsuc, ◌-ℤ◌, leb_ℤ, wrap64, int_bound}
use resin.Netip.{Addr, is_valid, addr_key}
use resin.Map
use resin.Map.{Map, load, store, remove, retain}

pub record WindowEntry : Type 0 where
  pub last_seen_ns : ℤ
  pub via_fallback : Bool

abbrev pub Accounts : Type 0
Accounts = Map String WindowEntry

pub record IpAccountWindow : Type 0 where
  pub entries : Map Addr Accounts
  pub blocked_total : ℕ
  pub fallback_total : ℕ

abbrev pub new_ip_account_window : IpAccountWindow
new_ip_account_window = record { entries = []; blocked_total = 0; fallback_total = 0 }

-- w.entries[ip], where a missing map reads as an empty one
unfoldable pub accounts_of : IpAccountWindow → Addr → Accounts
unfolding load
accounts_of w ip = elim (load ip w.entries) [ none ↦ [] | some m ↦ m ]

-- e.lastSeenNs <= cutoff, with cutoff := nowNs - windowNs
unfoldable pub has_expired : ℤ → ℤ → WindowEntry → Bool
unfolding wrap64 ◌-ℤ◌
has_expired now window e = leb_ℤ e.last_seen_ns (wrap64 (now -ℤ window))

unfoldable pub set_accounts : IpAccountWindow → Addr → Accounts → IpAccountWindow
unfolding store
set_accounts w ip m = record w { entries = store ip m w.entries }

-- the entry that `touchLocked` writes over an old one, or anew
abbrev pub touched : Option WindowEntry → ℤ → WindowEntry
touched none now = record { last_seen_ns = now; via_fallback = false }
touched (some e) now = record e { last_seen_ns = now }

unfoldable pub touch_locked : IpAccountWindow → Addr → String → ℤ → IpAccountWindow
unfolding accounts_of set_accounts
touch_locked w ip account now =
    let m = accounts_of w ip in set_accounts w ip (store account (touched (load account m) now) m)

unfoldable pub touch : IpAccountWindow → Addr → String → ℤ → IpAccountWindow
unfolding touch_locked
touch w ip account now =
    if not (is_valid ip) || account == "" then w else touch_locked w ip account now

unfoldable pub insert_locked : IpAccountWindow → Addr → String → ℤ → Bool → IpAccountWindow
unfolding accounts_of set_accounts
insert_locked w ip account now via =
    set_accounts w ip
      (store account (record { last_seen_ns = now; via_fallback = via }) (accounts_of w ip))

-- the live entries of one IP, written back; an IP with none left loses its map
unfoldable pub keep_live : IpAccountWindow → Addr → Accounts → IpAccountWindow
unfolding remove set_accounts
keep_live w ip [] = record w { entries = remove ip w.entries }
keep_live w ip (e ∷ m) = set_accounts w ip (e ∷ m)

unfoldable pub count_locked : IpAccountWindow → Addr → ℤ → ℤ → ℕ × IpAccountWindow
unfolding load retain has_expired keep_live
count_locked w ip now window = elim (load ip w.entries) [
  | none ↦ (0, w)
  | some m ↦
      let live : Accounts = retain (λ e. not (has_expired now window e)) m in
      (length live, keep_live w ip live)
]

unfoldable pub count_recent : IpAccountWindow → Addr → ℤ → ℤ → ℕ × IpAccountWindow
unfolding count_locked
count_recent w ip now window = count_locked w ip now window

-- max + 1 on a Go `int`, which wraps around at the top
unfoldable pub ceiling : ℕ → ℤ
ceiling max = if ltb max (int_bound - 1) then pos (max + 1) else negsuc (int_bound - 1)

unfoldable pub reserve_counted :
    ℕ × IpAccountWindow → Addr → String → ℤ → ℕ → Bool × IpAccountWindow
unfolding touch_locked
reserve_counted (n, w) ip account now max = elim (load account (accounts_of w ip)) [
  | some e ↦ (true, touch_locked w ip account now)
  | none ↦
      if leb max n
      then (false, record w { blocked_total = w.blocked_total + 1 })
      else (true, touch_locked w ip account now)
]

unfoldable pub reserve_if_eligible :
    IpAccountWindow → Addr → String → ℤ → ℤ → ℕ → Bool × IpAccountWindow
unfolding reserve_counted count_locked
reserve_if_eligible w ip account now window max =
    if not (is_valid ip) || account == "" || leb max 0
    then (true, w)
    else reserve_counted (count_locked w ip now window) ip account now max

unfoldable pub refresh_counted :
    ℕ × IpAccountWindow → Addr → String → ℤ → ℕ → Bool × IpAccountWindow
unfolding touch_locked insert_locked ceiling
refresh_counted (n, w) ip account now max = elim (load account (accounts_of w ip)) [
  | some e ↦ (true, touch_locked w ip account now)
  | none ↦
      if leb_ℤ (ceiling max) (pos n)
      then (false, record w { blocked_total = w.blocked_total + 1 })
      else let via = leb max n in
        let w' : IpAccountWindow =
          (if via then record w { fallback_total = w.fallback_total + 1 } else w) in
        (true, insert_locked w' ip account now via)
]

unfoldable pub refresh_on_hit : IpAccountWindow → Addr → String → ℤ → ℤ → ℕ → Bool × IpAccountWindow
unfolding refresh_counted count_locked
refresh_on_hit w ip account now window max =
    if not (is_valid ip) || account == "" || leb max 0
    then (true, w)
    else refresh_counted (count_locked w ip now window) ip account now max

unfoldable pub force_counted : ℕ × IpAccountWindow → Addr → String → ℤ → ℕ → Bool × IpAccountWindow
unfolding touch_locked insert_locked ceiling
force_counted (n, w) ip account now max = elim (load account (accounts_of w ip)) [
  | some e ↦ (true, touch_locked w ip account now)
  | none ↦
      if leb_ℤ (ceiling max) (pos n)
      then (false, w)
      else let w' = insert_locked w ip account now true in
        (true, record w' { fallback_total = w'.fallback_total + 1 })
]

unfoldable pub reserve_forced_fallback :
    IpAccountWindow → Addr → String → ℤ → ℤ → ℕ → Bool × IpAccountWindow
unfolding force_counted count_locked
reserve_forced_fallback w ip account now window max =
    if not (is_valid ip) || account == ""
    then (true, w)
    else force_counted (count_locked w ip now window) ip account now max

-- the loop of `CountsByIP`, over the IPs that the map held at its start
unfoldable pub counts_loop : List Addr → IpAccountWindow → ℤ → ℤ → Map Addr ℕ × IpAccountWindow
unfolding count_locked
counts_loop [] w now window = ([], w)
counts_loop (ip ∷ ips) w now window =
    let (n, w') = count_locked w ip now window in
    let (out, w'') = counts_loop ips w' now window in (if ltb 0 n then (ip, n) ∷ out else out, w'')

unfoldable pub counts_by_ip : IpAccountWindow → ℤ → ℤ → Map Addr ℕ × IpAccountWindow
unfolding counts_loop
counts_by_ip w now window = counts_loop (Map.keys w.entries) w now window

unfoldable pub prune_loop : ℤ → ℤ → Map Addr Accounts → Map Addr Accounts
unfolding retain has_expired
prune_loop now window [] = []
prune_loop now window ((ip, m) ∷ rest) = elim (retain (λ e. not (has_expired now window e)) m) [
  | [] ↦ prune_loop now window rest
  | e ∷ live ↦ (ip, e ∷ live) ∷ prune_loop now window rest
]

unfoldable pub prune : IpAccountWindow → ℤ → ℤ → IpAccountWindow
unfolding prune_loop
prune w now window = record w { entries = prune_loop now window w.entries }

unfoldable pub stats : IpAccountWindow → ℕ × ℕ
stats w = (w.blocked_total, w.fallback_total)
