-- ===== src/Platform.antt =====
-- internal/platform/platform.go and policy.go: a platform's configuration. The routable view is a
-- parameter, so that a client holds a platform over the read-only interface of the view.
pub mod View
pub mod Access
pub mod Evaluation
use resin.Prelude.{ℕ, String, Bool, List, ltb, if◌then◌else◌}
use resin.Prelude.Int.{ℤ, pos, ltb_ℤ}
use resin.Node.Entry.{TagFilter}

pub data AllocationPolicy : Type 0 where
  balanced prefer_low_latency prefer_idle_ip : AllocationPolicy

pub record Platform (V : Type 0) : Type 0 where
  pub id : String
  pub name : String
  pub regex_filters : TagFilter
  pub region_filters : List String
  pub sticky_ttl_ns : ℤ
  pub reverse_proxy_miss_action : String
  pub reverse_proxy_empty_account_behavior : String
  pub reverse_proxy_fixed_account_header : String
  pub reverse_proxy_fixed_account_headers : List String
  pub allocation_policy : AllocationPolicy
  pub passive_circuit_breaker_disabled : Bool
  -- checked to be at least 0 wherever a configuration is set or loaded
  pub max_accounts_per_ip : ℕ
  pub ip_account_window_ns : ℤ
  pub view : V

abbrev pub default_platform_id : String
default_platform_id = "00000000-0000-0000-0000-000000000000"

-- two hours
abbrev pub default_ip_account_window_ns : ℤ
default_ip_account_window_ns = pos 7200000000000

module _ {V : Type 0} where
  unfoldable pub ip_quota_enabled : Platform V → Bool
  ip_quota_enabled p = ltb 0 p.max_accounts_per_ip

  unfoldable pub effective_ip_account_window_ns : Platform V → ℤ
  effective_ip_account_window_ns p =
      if ltb_ℤ (pos 0) p.ip_account_window_ns
      then p.ip_account_window_ns
      else default_ip_account_window_ns
