-- ===== src/Routing/Router/Admin.antt =====
-- internal/routing/router.go: `UpsertLease`, `ReadLease`, `DeleteLease` and `DeleteAllLeases`.
use resin.Prelude.{
  String, true, Option, none, some, List, [], ◌∷◌, ◌++◌, if◌then◌else◌, string_key, ◌≡◌, refl,
  arith, Option-cases, Bool-cases, inl, inr, ◌==◌, length, ap, subst,
}
use resin.Prelude.Int.{ℤ}
use resin.Map.{Map, load, store, remove, perform, keys}
use resin.Map.Laws.{load-store}
use resin.Routing.Load.{IpLoadStats, dec}
use resin.Routing.Events.{LeaseEvent}
use resin.Routing.Lease.{Lease, PlatformRoutingState, delete_lease, get_lease, release}
use resin.Routing.Lease.Counted.{
  IsCounted, create_lease-IsCounted, delete_lease-IsCounted, new_lease_table-IsCounted,
}
use resin.Routing.Router.{
  World, Platforms, state_or_new, ensure_platform_state, delete_platform_lease, delete_all_loop,
  upsert_lease, restore_lease, read_lease, sent,
}

-- The counters of every platform are exact.
abbrev pub AllCounted : Map String PlatformRoutingState → Type 0
AllCounted m = (id : String) (s : PlatformRoutingState) → load id m ≡ some s → IsCounted s.table

pub ensure-IsCounted :
    (w : World) (id : String) → AllCounted w.states → IsCounted (ensure_platform_state w id).table
unfolding ensure_platform_state
ensure-IsCounted w id c = elim (Option-cases (load id w.states)) [
  | inl e ↦ rw (e, state_or_new) new_lease_table-IsCounted
  | inr (s, e) ↦ rw (e, state_or_new) (c id s e)
]

-- Storing a state with exact counters keeps all counters exact.
pub store-AllCounted :
    (m : Map String PlatformRoutingState) (id : String) (s : PlatformRoutingState)
    → AllCounted m
    → IsCounted s.table
    → AllCounted (store id s m)
store-AllCounted m id s c counted q t found = elim (Bool-cases (id == q)) [
  | inl here ↦
      subst (λ (x : PlatformRoutingState). IsCounted x.table) {x = s} {y = t}
        (ground (arith, found, load-store id q s m)) counted
  | inr other ↦ c q t (ground (arith, found, load-store id q s m))
]

pub upsert_lease-AllCounted :
    (ps : Platforms) (w : World) (id account : String) (lease : Lease) (now : ℤ)
    → AllCounted w.states
    → AllCounted (upsert_lease ps w id account lease now).states
unfolding upsert_lease
upsert_lease-AllCounted ps w id account lease now c = store-AllCounted w.states id _ c (
    create_lease-IsCounted (ensure_platform_state w id).table account (ensure-IsCounted w id c)
      lease)

pub restore_lease-AllCounted :
    (ps : Platforms) (w : World) (id account : String) (lease : Lease) (now : ℤ)
    → AllCounted w.states
    → AllCounted (restore_lease ps now w id account lease).states
unfolding restore_lease
restore_lease-AllCounted ps w id account lease now c = store-AllCounted w.states id _ c (
    create_lease-IsCounted (ensure_platform_state w id).table account (ensure-IsCounted w id c)
      lease)

pub delete_platform_lease-AllCounted :
    (w : World) (id account : String)
    → AllCounted w.states
    → AllCounted (delete_platform_lease w id account).1.states
unfolding delete_platform_lease
delete_platform_lease-AllCounted w id account c = elim (Option-cases (load id w.states)) [
  | inl e ↦ rw (e, delete_platform_lease) c
  | inr (s, e) ↦
      rw (e, delete_platform_lease)
        (store-AllCounted w.states id _ c (delete_lease-IsCounted s.table account (c id s e)))
]

abbrev pub read_of : String → Option PlatformRoutingState → Option Lease
read_of account none = none
read_of account (some s) = load account s.table.leases

pub read_lease_lem :
    (w : World) (id account : String) → read_lease w id account ≡ read_of account (load id w.states)
unfolding read_lease get_lease
read_lease_lem w id account = elim (Option-cases (load id w.states)) [
  | inl e ↦ rw (e, read_lease)
  | inr (s, e) ↦ rw (e, read_lease)
]

pub read_of-store :
    (id q account : String) (s : PlatformRoutingState) (m : Map String PlatformRoutingState)
    → read_of account (load q (store id s m))
      ≡ (if id == q then load account s.table.leases else read_of account (load q m))
read_of-store id q account s m = elim (Bool-cases (id == q)) [
  | inl here ↦ rw (load-store id q s m, here)
  | inr other ↦ rw (load-store id q s m, other)
]

same_key : (k : String) → (k == k) ≡ true
unfolding string_key
same_key k = ground arith

remove_first :
    (account : String) (l : Lease) (m : Map String Lease) → remove account ((account, l) ∷ m) ≡ m
unfolding remove
remove_first account l m = rw (remove, same_key account)

pub delete_first :
    (account : String) (l : Lease) (m : Map String Lease) (stats : IpLoadStats)
    → delete_lease (record { leases = (account, l) ∷ m; stats = stats }) account
      ≡ (record { leases = m; stats = dec stats l.egress_ip }, some l)
unfolding delete_lease load perform remove release
delete_first account l m stats =
    rw (delete_lease, load, same_key account)
      (ap
        (λ (left : Map String Lease).
          (record { leases = left; stats = dec stats l.egress_ip }, some l))
        (remove_first account l m))

-- The loop over the accounts of the table deletes every lease and counts each.
pub delete_all_loop_lem :
    (id : String) (m : Map String Lease) (stats : IpLoadStats) (events : List LeaseEvent)
    → let out = delete_all_loop id (keys m) (record { leases = m; stats = stats }) events in
      (out.0 ≡ length m) × (out.1.leases ≡ [])
unfolding delete_all_loop
delete_all_loop_lem id [] stats events = (refl, refl)
delete_all_loop_lem id ((account, l) ∷ m) stats events =
    let (n, rest) =
      delete_all_loop_lem id m (dec stats l.egress_ip) (events ++ sent id account (some l)) in
    rw (delete_all_loop, delete_first account l m stats) (omega arith, rest)
