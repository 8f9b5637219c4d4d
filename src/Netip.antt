-- ===== src/Netip.antt =====
-- Go's `netip.Addr`: the zero value, which is not valid, an IPv4 or an IPv6 address with its zone.
use native.Mathlib.Decide.{ℕ_discrete}
use resin.Prelude.{ℕ, String, Bool, true, false, Key, String-discrete}

pub data Addr : Type 0 where
  zero_addr : Addr
  v4 : ℕ → Addr
  v6 : ℕ → String → Addr

abbrev pub is_valid : Addr → Bool
is_valid zero_addr = false
is_valid (v4 n) = true
is_valid (v6 n zone) = true

unfoldable pub Addr-discrete : Discrete Addr
unfolding ℕ_discrete String-discrete
Addr-discrete = hlevel (ℕ_discrete, String-discrete)

instance unfoldable pub addr_key : Key Addr
unfolding Addr-discrete
addr_key = record { dec = Addr-discrete }
