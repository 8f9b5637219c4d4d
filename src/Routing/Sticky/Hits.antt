-- ===== src/Routing/Sticky/Hits.antt =====
-- internal/routing/router.go: `tryLeaseHit` and `tryLeaseSameIPRotation`, which keep a lease's IP.
use resin.Prelude.{
  List, String, true, false, Option, none, some, [], ◌∷◌, ◌++◌, ◌≡◌, refl, arith, Option-cases,
  Bool-cases, inl, inr, ◌⊎◌, ◌∙◌, ap, nat_key,
}
use resin.Prelude.Int.{ℤ, pos}
use resin.Map.{load}
use resin.Netip.{Addr}
use resin.Platform.{Platform, ip_quota_enabled, effective_ip_account_window_ns}
use resin.Platform.Access.{ReadOnlyView}
use resin.Routing.Events.{LeaseEvent, LeaseEventType, lease_touch, lease_replace}
use resin.Routing.Lease.{Lease}
use resin.Routing.Evaluation.{Nodes}
use resin.Routing.Evaluation.Keeps.{KeepsEntries, KeepsEntries-trans}
use resin.Routing.Random.{Floats, Reading}
use resin.Routing.Selection.{choose_same_ip_rotation_candidate}
use resin.Routing.Selection.Picks.{Serves, Serves-KeepsEntries}
use resin.Routing.Selection.Rotation.{rotation-KeepsEntries, rotation-Serves, is_on_ip_lem}
use resin.Routing.Window.Schedule.{Run, start, next, refreshes, Run-trans}
use resin.Routing.Sticky.{
  RouteResult, Shared, route_result, emit, admit_hit, lease_event, still_serves, try_lease_hit,
  try_lease_same_ip_rotation,
}

pub appended : (a b : List LeaseEvent) (e : LeaseEvent) → a ≡ b → a ++ e ∷ [] ≡ b ++ e ∷ []
appended a b e same = ap (λ es. es ++ e ∷ []) same

module _ (plat : Platform ReadOnlyView) where
  -- The step gives no event, keeps the load counters, and changes at most latency tables of nodes.
  pub record IsQuiet (s s' : Shared) : Type 0 where
    pub stats : s'.stats ≡ s.stats
    pub events : s'.events ≡ s.events
    pub keeps : KeepsEntries s.nodes s'.nodes
    pub run : Run plat.max_accounts_per_ip s.window s'.window

  pub IsQuiet-trans : (a b c : Shared) → IsQuiet a b → IsQuiet b c → IsQuiet a c
  IsQuiet-trans a b c p q = record {
    stats = q.stats ∙ p.stats;
    events = q.events ∙ p.events;
    keeps = KeepsEntries-trans _ _ _ p.keeps q.keeps;
    run = Run-trans p.run q.run;
  }

  pub IsQuiet-refl : (s : Shared) → IsQuiet s s
  IsQuiet-refl s = record { stats = refl; events = refl; keeps = λ q. refl; run = start }

  pub admit_hit-IsQuiet :
      (ip : Addr) (account : String) (now : ℤ) (s : Shared)
      → IsQuiet s (admit_hit plat ip account now s).1
  unfolding admit_hit
  admit_hit-IsQuiet ip account now s = elim (Bool-cases (ip_quota_enabled plat)) [
    | inl on ↦
        rw (on, admit_hit)
          (record {
            stats = refl;
            events = refl;
            keeps = λ q. refl;
            run = next start (refreshes ip account now (effective_ip_account_window_ns plat));
          })
    | inr off ↦ rw (off, admit_hit) (IsQuiet-refl s)
  ]

  -- The new lease is the old one at a node that serves its IP, and one event says so.
  pub record IsKept (account : String) (now : ℤ) (current : Lease) (s : Shared) (l : Lease)
      (result : RouteResult) (s' : Shared) : Type 0 where
    pub same_ip : l.egress_ip ≡ current.egress_ip
    pub same_expiry : l.expiry_ns ≡ current.expiry_ns
    pub same_creation : l.created_at_ns ≡ current.created_at_ns
    pub accessed : l.last_accessed_ns ≡ now
    pub serves : Serves plat s.nodes l.node_hash l.egress_ip
    pub answer : result ≡ route_result l.node_hash l.egress_ip false
    pub stats : s'.stats ≡ s.stats
    pub keeps : KeepsEntries s.nodes s'.nodes
    pub run : Run plat.max_accounts_per_ip s.window s'.window
    pub type : LeaseEventType
    pub kind : ((type ≡ lease_touch) × (l.node_hash ≡ current.node_hash)) ⊎ (type ≡ lease_replace)
    pub events :
        s'.events ≡ s.events ++ lease_event type plat account l.node_hash l.egress_ip (pos 0) ∷ []

  -- A kept lease, or nothing done.
  abbrev pub KeepsLease :
      String → ℤ → Lease → Shared → Option (Lease × RouteResult) → Shared → Type 0
  KeepsLease account now current s none s' = IsQuiet s s'
  KeepsLease account now current s (some (l, result)) s' = IsKept account now current s l result s'

  pub after_quiet :
      (account : String) (now : ℤ) (current : Lease) (a b : Shared)
      (out : Option (Lease × RouteResult)) (s' : Shared)
      → IsQuiet a b
      → KeepsLease account now current b out s'
      → KeepsLease account now current a out s'
  after_quiet account now current a b none s' p q = IsQuiet-trans a b s' p q
  after_quiet account now current a b (some (l, result)) s' p q = record {
    same_ip = q.same_ip;
    same_expiry = q.same_expiry;
    same_creation = q.same_creation;
    accessed = q.accessed;
    serves = Serves-KeepsEntries plat a.nodes b.nodes l.node_hash l.egress_ip p.keeps q.serves;
    answer = q.answer;
    stats = q.stats ∙ p.stats;
    keeps = KeepsEntries-trans _ _ _ p.keeps q.keeps;
    run = Run-trans p.run q.run;
    type = q.type;
    kind = q.kind;
    events = q.events ∙ appended b.events a.events _ p.events;
  }

  still_serves-Serves :
      (nodes : Nodes) (l : Lease)
      → still_serves plat nodes l ≡ true
      → Serves plat nodes l.node_hash l.egress_ip
  unfolding still_serves
  still_serves-Serves nodes l h = (
    (plat.view.contains_law l.node_hash).0 (ground (arith, h)),
    is_on_ip_lem l.egress_ip (load l.node_hash nodes) (ground (arith, h)),
  )

  pub try_lease_hit_lem :
      (account : String) (current : Lease) (now : ℤ) (s : Shared)
      → let out = try_lease_hit plat account current now s in
        KeepsLease account now current s out.0 out.1
  unfolding try_lease_hit emit
  try_lease_hit_lem account current now s = elim (Bool-cases (still_serves plat s.nodes current)) [
    | inr gone ↦ rw (gone, try_lease_hit) (IsQuiet-refl s)
    | inl there ↦
        let quiet = admit_hit-IsQuiet current.egress_ip account now s in
        elim (Bool-cases (admit_hit plat current.egress_ip account now s).0) [
          | inr refused ↦ rw (there, refused, try_lease_hit) quiet
          | inl admitted ↦
              rw (there, admitted, try_lease_hit)
                (record {
                  same_ip = refl;
                  same_expiry = refl;
                  same_creation = refl;
                  accessed = refl;
                  serves = still_serves-Serves s.nodes current there;
                  answer = refl;
                  stats = quiet.stats;
                  keeps = quiet.keeps;
                  run = quiet.run;
                  type = lease_touch;
                  kind = inl (refl, refl);
                  events = appended _ _ _ quiet.events;
                })
        ]
  ]

  module _ (fl : Floats) (r : Reading) where
    pub rotation-KeepsLease :
        (account : String) (current : Lease) (target : String) (s : Shared)
        → let out = try_lease_same_ip_rotation fl r plat account current target s in
          KeepsLease account r.now current s out.0 out.1
    unfolding try_lease_same_ip_rotation emit
    rotation-KeepsLease account current target s =
        let picked = choose_same_ip_rotation_candidate r plat s.nodes current.egress_ip target in
        let s1 = record s { nodes = picked.1 } in
        let moved : IsQuiet s s1 = record {
          stats = refl;
          events = refl;
          keeps = rotation-KeepsEntries r plat s.nodes current.egress_ip target;
          run = start;
        } in
        elim (Option-cases
          (choose_same_ip_rotation_candidate r plat s.nodes current.egress_ip target).0) [
            | inl e ↦ rw (e, try_lease_same_ip_rotation) moved
            | inr (h, e) ↦
                let quiet =
                  IsQuiet-trans _ _ _ moved
                    (admit_hit-IsQuiet current.egress_ip account r.now s1) in
                elim (Bool-cases (admit_hit plat current.egress_ip account r.now s1).0) [
                  | inr refused ↦ rw (e, refused, try_lease_same_ip_rotation) quiet
                  | inl admitted ↦
                      rw (e, admitted, try_lease_same_ip_rotation)
                        (record {
                          same_ip = refl;
                          same_expiry = refl;
                          same_creation = refl;
                          accessed = refl;
                          serves = rotation-Serves r plat s.nodes current.egress_ip target h e;
                          answer = refl;
                          stats = quiet.stats;
                          keeps = quiet.keeps;
                          run = quiet.run;
                          type = lease_replace;
                          kind = inr refl;
                          events = appended _ _ _ quiet.events;
                        })
                ]
          ]
