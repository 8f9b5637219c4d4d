-- ===== src/Tests/Data.antt =====
-- The states of the tests: three nodes on two IPs, a platform with a quota of two accounts per IP,
-- and a lease.
use resin.Prelude.{ℕ, ◌+◌, ◌*◌, false, some, [], ◌∷◌, nat_key, string_key}
use resin.Prelude.Int.{ℤ, pos, ltb_ℤ, pos_part}
use resin.Netip.{Addr, v4, addr_key}
use resin.Node.Hash.{Hash}
use resin.Node.Entry.{NodeEntry, new_node_entry}
use resin.Node.Latency.{Formulas}
use resin.Platform.{Platform, balanced}
use resin.Platform.Access.{ReadOnlyView, read_only}
use resin.Platform.View.{RoutableView, new_routable_view, add}
use resin.Platform.View.Sharding.{IsValid, add-IsValid}
use resin.Platform.View.Picks.{new-IsValid}
use resin.Routing.Evaluation.{Nodes}
use resin.Routing.Random.{Floats, Reading}
use resin.Routing.Lease.{Lease, LeaseTable, PlatformRoutingState, new_lease_table, create_lease}
use resin.Routing.Lease.Counted.{IsCounted, create_lease-IsCounted, new_lease_table-IsCounted}
use resin.Routing.Window.{IpAccountWindow, new_ip_account_window, reserve_if_eligible}
use resin.Routing.Router.{World, Platforms, Resolvers}

abbrev pub ip_a : Addr
ip_a = v4 10

abbrev pub ip_b : Addr
ip_b = v4 20

abbrev entry_on : Hash → Addr → NodeEntry
entry_on h ip = record (new_node_entry h "{}" (pos 1) 4) { egress_ip = some ip }

abbrev pub three_nodes : Nodes
three_nodes = (3, entry_on 3 ip_a) ∷ (5, entry_on 5 ip_b) ∷ (7, entry_on 7 ip_a) ∷ []

abbrev pub view_1 : RoutableView
view_1 = add new_routable_view 3

abbrev pub view_2 : RoutableView
view_2 = add view_1 5

abbrev pub three_hashes : RoutableView
three_hashes = add view_2 7

pub view_2-IsValid : IsValid view_2
view_2-IsValid = add-IsValid view_1 (add-IsValid new_routable_view new-IsValid 3) 5

pub three_hashes-IsValid : IsValid three_hashes
three_hashes-IsValid = add-IsValid view_2 view_2-IsValid 7

abbrev pub plat : Platform ReadOnlyView
plat = record {
  id = "p1";
  name = "main";
  regex_filters = record { any = []; must = []; must_not = [] };
  region_filters = [];
  sticky_ttl_ns = pos 1000;
  reverse_proxy_miss_action = "";
  reverse_proxy_empty_account_behavior = "";
  reverse_proxy_fixed_account_header = "";
  reverse_proxy_fixed_account_headers = [];
  allocation_policy = balanced;
  passive_circuit_breaker_disabled = false;
  max_accounts_per_ip = 2;
  ip_account_window_ns = pos 500;
  view = read_only three_hashes three_hashes-IsValid;
}

abbrev pub formulas : Formulas
formulas = record { hash_string = λ s. 1; blend = λ old raw dt tau. raw }

abbrev pub reading : Reading
reading = record { formulas = formulas; authorities = []; window = pos 600; now = pos 100 }

abbrev pub floats : Floats
floats = record { F = ℤ; of_int = λ n. n; mul = λ a b. pos (pos_part a * pos_part b); less = ltb_ℤ }

-- The k-th number of the i-th pick.
abbrev pub draws : ℕ → ℕ → ℕ
draws i k = i + k

abbrev pub lease_a : Lease
lease_a = record {
  node_hash = 3;
  egress_ip = ip_a;
  created_at_ns = pos 50;
  expiry_ns = pos 1050;
  last_accessed_ns = pos 50;
}

abbrev pub one_lease : LeaseTable
one_lease = create_lease new_lease_table "alice" lease_a

pub one_lease-IsCounted : IsCounted one_lease
one_lease-IsCounted =
    create_lease-IsCounted new_lease_table "alice" new_lease_table-IsCounted lease_a

-- alice is in the window of `ip_a`
abbrev pub one_account : IpAccountWindow
one_account = (reserve_if_eligible new_ip_account_window ip_a "alice" (pos 50) (pos 500) 2).1

abbrev pub state : PlatformRoutingState
state = record { table = one_lease; ip_window = one_account }

abbrev pub platforms : Platforms
platforms = record { by_id = ("p1", plat) ∷ []; by_name = ("main", plat) ∷ [] }

abbrev pub resolvers : Resolvers
resolvers = record { extract_domain = λ s. s; node_tag = λ h. "tag" }

abbrev pub world : World
world = record { states = ("p1", state) ∷ []; nodes = three_nodes; events = [] }
