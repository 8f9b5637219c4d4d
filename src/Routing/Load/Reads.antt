-- ===== src/Routing/Load/Reads.antt =====
-- internal/routing/lease.go: what `Get` reads after `Inc` and `Dec`.
use resin.Prelude.{ℕ, suc, true, false, if◌then◌else◌, ◌≡◌, ◌==◌, arith}
use resin.Prelude.Int.{pos, ◌+ℤ◌}
use resin.Netip.{Addr, addr_key, is_valid}
use resin.Map.{load}
use resin.Map.Laws.{load-store}
use resin.Routing.Load.{IpLoadStats, counter, inc, dec, get}

module _ (s : IpLoadStats) (ip q : Addr) where
  pub get-inc :
      is_valid ip ≡ true → get (inc s ip) q ≡ (if ip == q then get s q +ℤ pos 1 else get s q)
  unfolding get inc ◌+ℤ◌
  get-inc v = ground (arith, load-store ip q (counter (load ip s.counts) +ℤ pos 1) s.counts)

  pub get-inc_ne : (ip == q) ≡ false → get (inc s ip) q ≡ get s q
  unfolding get inc
  get-inc_ne h = grind (arith, load-store)

  pub get-dec_ne : (ip == q) ≡ false → get (dec s ip) q ≡ get s q
  unfolding get dec
  get-dec_ne h = grind (arith, load-store)

pub get-dec_self :
    (s : IpLoadStats) (ip : Addr) (n : ℕ) → get s ip ≡ pos (suc n) → get (dec s ip) ip ≡ pos n
unfolding get dec
get-dec_self s ip n h = grind (arith, load-store)
