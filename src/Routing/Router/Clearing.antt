-- ===== src/Routing/Router/Clearing.antt =====
-- internal/routing/router.go: what `DeleteAllLeases` leaves.
use resin.Prelude.{
  String, true, false, Option, none, some, List, [], ◌∷◌, ◌++◌, string_key, ◌≡◌, refl, arith,
  Option-cases, inl, inr, ◌==◌, length, ap, sym, ◌∙◌,
}
use resin.Prelude.Int.{pos}
use resin.Map.{Map, load, store, keys, count}
use resin.Map.Laws.{load-store}
use resin.Netip.{Addr, addr_key, is_valid}
use resin.Routing.Load.{IpLoadStats, dec, get}
use resin.Routing.Events.{LeaseEvent, lease_remove}
use resin.Routing.Lease.{Lease, PlatformRoutingState}
use resin.Routing.Lease.Counted.{on_ip}
use resin.Routing.Router.{
  World, state_or_new, ensure_platform_state, delete_all_loop, delete_all_leases, read_lease, sent,
}
use resin.Routing.Router.Admin.{
  AllCounted, ensure-IsCounted, read_of, read_lease_lem, read_of-store, delete_first,
  delete_all_loop_lem,
}
use resin.Routing.Router.Requests.{delete_all_leases-AllCounted}

-- One event for each lease, written out.
abbrev pub removals : String → Map String Lease → List LeaseEvent
removals id [] = []
removals id ((account, l) ∷ m) =
    record {
      type = lease_remove;
      platform_id = id;
      account = account;
      node_hash = l.node_hash;
      egress_ip = l.egress_ip;
      created_at_ns = l.created_at_ns;
    }
    ∷ removals id m

-- the leases that a platform has; one without a state has none
abbrev pub leases_of : Option PlatformRoutingState → Map String Lease
leases_of none = []
leases_of (some s) = s.table.leases

append_nil : {A : Type 0} (xs : List A) → xs ++ [] ≡ xs
append_nil [] = refl
append_nil (x ∷ xs) = ap (λ ys. x ∷ ys) (append_nil xs)

append_assoc : {A : Type 0} (xs ys zs : List A) → (xs ++ ys) ++ zs ≡ xs ++ (ys ++ zs)
append_assoc [] ys zs = refl
append_assoc (x ∷ xs) ys zs = ap (λ rest. x ∷ rest) (append_assoc xs ys zs)

delete_all_loop-removals :
    (id : String) (m : Map String Lease) (stats : IpLoadStats) (events : List LeaseEvent)
    → (delete_all_loop id (keys m) (record { leases = m; stats = stats }) events).2
      ≡ events ++ removals id m
unfolding delete_all_loop
delete_all_loop-removals id [] stats events = sym (append_nil events)
delete_all_loop-removals id ((account, l) ∷ m) stats events =
    let events' = events ++ sent id account (some l) in
    rw (delete_all_loop, delete_first account l m stats)
      (delete_all_loop-removals id m (dec stats l.egress_ip) events'
        ∙ append_assoc events (sent id account (some l)) (removals id m))

ensured :
    (w : World) (id : String)
    → (ensure_platform_state w id).table.leases ≡ leases_of (load id w.states)
unfolding ensure_platform_state
ensured w id = elim (Option-cases (load id w.states)) [
  | inl e ↦ rw (e, state_or_new)
  | inr (s, e) ↦ rw (e, state_or_new)
]

counts_nothing :
    (w : World) (id : String)
    → AllCounted w.states
    → leases_of (load id w.states) ≡ []
    → (ip : Addr) → is_valid ip ≡ true
    → get (ensure_platform_state w id).table.stats ip ≡ pos 0
unfolding count
counts_nothing w id c empty ip v =
    (ensure-IsCounted w id c).exact ip v
    ∙ ap (λ (m : Map String Lease). pos (count (on_ip ip) m)) (ensured w id ∙ empty)

leases_of-store :
    (id : String) (s : PlatformRoutingState) (m : Map String PlatformRoutingState)
    → leases_of (load id (store id s m)) ≡ s.table.leases
leases_of-store id s m =
    let there : load id (store id s m) ≡ some s = ground (arith, load-store id id s m) in
    ap leases_of there

read_of-store_ne :
    (id other account : String) (s : PlatformRoutingState) (m : Map String PlatformRoutingState)
    → (id == other) ≡ false
    → read_of account (load other (store id s m)) ≡ read_of account (load other m)
read_of-store_ne id other account s m ne = ground (arith, ne, read_of-store id other account s m)

no_lease :
    (w : World) (id account : String)
    → leases_of (load id w.states) ≡ []
    → read_lease w id account ≡ none
unfolding load
no_lease w id account empty = elim (Option-cases (load id w.states)) [
  | inl e ↦ read_lease_lem w id account ∙ ap (read_of account) e
  | inr (s, e) ↦
      read_lease_lem w id account
      ∙ ap (read_of account) e
      ∙ ap (load account) (sym (ap leases_of e) ∙ empty)
]

module _ (w : World) (id : String) where
  cleared : leases_of (load id (delete_all_leases w id).1.states) ≡ []
  unfolding delete_all_leases
  cleared = elim (Option-cases (load id w.states)) [
    | inl e ↦ rw (e, delete_all_leases) (ap leases_of e)
    | inr (s, e) ↦
        rw (e, delete_all_leases)
          (leases_of-store id _ w.states
            ∙ (delete_all_loop_lem id s.table.leases s.table.stats w.events).1)
  ]

  deleted : (delete_all_leases w id).0 ≡ length (leases_of (load id w.states))
  unfolding delete_all_leases
  deleted = elim (Option-cases (load id w.states)) [
    | inl e ↦ rw (e, delete_all_leases)
    | inr (s, e) ↦
        rw (e, delete_all_leases) (delete_all_loop_lem id s.table.leases s.table.stats w.events).0
  ]

  noticed :
      (delete_all_leases w id).1.events ≡ w.events ++ removals id (leases_of (load id w.states))
  unfolding delete_all_leases
  noticed = elim (Option-cases (load id w.states)) [
    | inl e ↦ rw (e, delete_all_leases) (sym (append_nil w.events))
    | inr (s, e) ↦
        rw (e, delete_all_leases)
          (delete_all_loop-removals id s.table.leases s.table.stats w.events)
  ]

  untouched :
      (other account : String)
      → (id == other) ≡ false
      → read_lease (delete_all_leases w id).1 other account ≡ read_lease w other account
  unfolding delete_all_leases
  untouched other account ne = elim (Option-cases (load id w.states)) [
    | inl e ↦ rw (e, delete_all_leases)
    | inr (s, e) ↦
        read_lease_lem (delete_all_leases w id).1 other account
        ∙ rw (e, delete_all_leases) (read_of-store_ne id other account _ w.states ne)
        ∙ sym (read_lease_lem w other account)
  ]

  -- `DeleteAllLeases` answers with the number of leases that the platform had and sends one
  -- removal for each, in the order of the visit. No account of the platform has a lease then, the
  -- counter of every valid IP is 0, and the leases of the other platforms stay. This supposes that
  -- the counters of all platforms were exact.
  pub delete_all_leases_lem :
      AllCounted w.states
      → let had = leases_of (load id w.states) in
        let (n, w') = delete_all_leases w id in
        (n ≡ length had)
        × (w'.events ≡ w.events ++ removals id had)
        × ((account : String) → read_lease w' id account ≡ none)
        × ((ip : Addr)
            → is_valid ip ≡ true
            → get (ensure_platform_state w' id).table.stats ip ≡ pos 0)
        × ((other account : String)
            → (id == other) ≡ false
            → read_lease w' other account ≡ read_lease w other account)
  delete_all_leases_lem c =
      let empty = cleared in
      (
        deleted,
        noticed,
        λ account. no_lease (delete_all_leases w id).1 id account empty,
        counts_nothing (delete_all_leases w id).1 id (delete_all_leases-AllCounted w id c) empty,
        untouched,
      )
