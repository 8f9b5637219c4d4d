-- ===== src/Routing/Sticky/Decisions.antt =====
-- internal/routing/router.go: every decision that `decideStickyLease` takes.
use resin.Prelude.{
  ℕ, List, String, false, Option, none, some, [], ◌∷◌, ◌++◌, ◌≡◌, refl, Option-cases, Bool-cases,
  inl, inr, ◌⊎◌, ◌∙◌, ap, subst, sym, nat_key, Sum-cases,
}
use resin.Prelude.Int.{wrap64, ◌+ℤ◌}
use resin.Map.{update}
use resin.Platform.{Platform}
use resin.Platform.Access.{ReadOnlyView}
use resin.Routing.Load.{inc}
use resin.Routing.Lease.{Lease, is_expired, release}
use resin.Routing.Evaluation.Keeps.{KeepsEntries}
use resin.Routing.Random.{Floats, Reading}
use resin.Routing.Selection.{RouteError}
use resin.Routing.Selection.Picks.{Serves, Serves-KeepsEntries}
use resin.Routing.Quota.{select_route_for_lease}
use resin.Routing.Quota.Choice.{IsServed, select_route_for_lease_lem}
use resin.Routing.Window.Schedule.{Run}
use resin.Routing.Sticky.{
  RouteResult, Shared, cleanup_previous_lease, lease_of, lease_ttl, create_lease,
  create_or_abort_sticky_lease, emit, decide_live, decide_sticky_lease, try_lease_hit,
  try_lease_same_ip_rotation,
}
use resin.Routing.Sticky.Hits.{
  IsQuiet, IsQuiet-trans, IsQuiet-refl, IsKept, KeepsLease, after_quiet, appended,
  try_lease_hit_lem, rotation-KeepsLease,
}
use resin.Routing.Sticky.Outcomes.{
  reason, reason-alive, reason-old, given_up, removal_events-given_up, IsDecision,
}

++-nil : {A : Type 0} (xs : List A) → xs ≡ xs ++ []
++-nil [] = refl
++-nil (x ∷ xs) = ap (λ ys. x ∷ ys) (++-nil xs)

module _ (fl : Floats) (r : Reading) (plat : Platform ReadOnlyView) where
  -- A lease that `createLease` makes, or the error of the selection.
  abbrev MakesLease : Shared → Lease ⊎ RouteError → Type 0
  MakesLease s (inl l) =
      Serves plat s.nodes l.node_hash l.egress_ip
      × (l.created_at_ns ≡ r.now)
      × (l.last_accessed_ns ≡ r.now)
      × (l.expiry_ns ≡ wrap64 (r.now +ℤ lease_ttl fl r plat))
  MakesLease s (inr e) = Unit

  create_lease_lem :
      (account target : String) (draws : ℕ → ℕ → ℕ) (s : Shared)
      → let out = create_lease fl r plat account target draws s in
        MakesLease s out.0 × IsQuiet plat s out.1
  unfolding create_lease lease_of
  create_lease_lem account target draws s =
      let sel =
        select_route_for_lease_lem fl r plat s.stats s.window s.nodes account target draws in
      let quiet : IsQuiet plat s _ = record {
        stats = refl;
        events = refl;
        keeps = sel.keeps;
        run = sel.run;
      } in
      elim (Sum-cases
        (select_route_for_lease fl r plat s.stats s.window s.nodes account target draws).outcome) [
          | inl (p, e) ↦
              rw (e, create_lease)
                ((subst (IsServed plat s.nodes) e sel.served, refl, refl, refl), quiet)
          | inr (x, e) ↦ rw (e, create_lease) (tt, quiet)
        ]

  cleanup_lem :
      (account : String) (previous : Option Lease) (s : Shared)
      → let s' = cleanup_previous_lease fl r plat previous (reason previous r.now) account s in
        (s'.stats ≡ release previous s.stats)
        × (s'.events ≡ s.events ++ given_up fl r plat account previous)
        × (s'.nodes ≡ s.nodes)
        × (s'.window ≡ s.window)
  unfolding cleanup_previous_lease release is_expired
  cleanup_lem account none s = (refl, ++-nil s.events, refl, refl)
  cleanup_lem account (some l) s =
      (refl, ap (λ es. s.events ++ es) (removal_events-given_up fl r plat account l), refl, refl)

  module _ (account target : String) (draws : ℕ → ℕ → ℕ) (previous : Option Lease)
      (s0 s : Shared) where
    -- The create path, after steps that gave no event.
    create_or_abort-IsDecision :
        IsQuiet plat s0 s
        → IsDecision fl r plat account previous s0 (
            create_or_abort_sticky_lease fl r plat account target draws previous
              (reason previous r.now)
              s)
    unfolding create_or_abort_sticky_lease emit
    create_or_abort-IsDecision before =
        let (made, quiet) = create_lease_lem account target draws s in
        let all = IsQuiet-trans plat _ _ _ before quiet in
        let s1 = (create_lease fl r plat account target draws s).1 in
        let (stats, events, nodes, window) = cleanup_lem account previous s1 in
        elim (Sum-cases (create_lease fl r plat account target draws s).0) [
          | inr (x, e) ↦
              rw (e, create_or_abort_sticky_lease)
                (record {
                  settles = inr (
                      inr (
                        x,
                        record {
                          op = refl;
                          answer = refl;
                          stats = stats ∙ ap (release previous) all.stats;
                          events =
                              events
                              ∙ ap (λ es. es ++ given_up fl r plat account previous) all.events;
                        },
                      ));
                  keeps = subst (KeepsEntries s0.nodes) (sym nodes) all.keeps;
                  run = subst (Run plat.max_accounts_per_ip s0.window) (sym window) all.run;
                })
          | inl (l, e) ↦
              let (serves, created, accessed, expires) = subst (MakesLease s) e made in
              rw (e, create_or_abort_sticky_lease)
                (record {
                  settles = inr (
                      inl (
                        l,
                        record {
                          op = refl;
                          answer = refl;
                          serves =
                              Serves-KeepsEntries plat s0.nodes s.nodes l.node_hash l.egress_ip
                                before.keeps serves;
                          created = created;
                          accessed = accessed;
                          expires = expires;
                          stats =
                              ap (λ x. inc x l.egress_ip) (stats ∙ ap (release previous) all.stats);
                          events = appended _ _ _ (
                              events
                              ∙ ap (λ es. es ++ given_up fl r plat account previous) all.events);
                        },
                      ));
                  keeps = subst (KeepsEntries s0.nodes) (sym nodes) all.keeps;
                  run = subst (Run plat.max_accounts_per_ip s0.window) (sym window) all.run;
                })
        ]

  kept-IsDecision :
      (account : String) (current l : Lease) (result : RouteResult) (s s' : Shared)
      → is_expired current r.now ≡ false
      → IsKept plat account r.now current s l result s'
      → IsDecision fl r plat account
          (some current)
          s
          (record { op = update l; result = inl result; shared = s' })
  kept-IsDecision account current l result s s' alive kept = record {
    settles = inl (
      l,
      record {
        current = current;
        result = result;
        found = refl;
        alive = alive;
        op = refl;
        answer = refl;
        kept = kept;
      },
    );
    keeps = kept.keeps;
    run = kept.run;
  }

  decide_live-IsDecision :
      (account target : String) (draws : ℕ → ℕ → ℕ) (current : Lease) (s : Shared)
      → is_expired current r.now ≡ false
      → IsDecision fl r plat account
          (some current)
          s
          (decide_live fl r plat account target draws current s)
  unfolding decide_live
  decide_live-IsDecision account target draws current s alive =
      let s1 = (try_lease_hit plat account current r.now s).1 in
      let s2 = (try_lease_same_ip_rotation fl r plat account current target s1).1 in
      let hit = try_lease_hit_lem plat account current r.now s in
      elim (Option-cases (try_lease_hit plat account current r.now s).0) [
        | inr ((l, result), e) ↦
            rw (e, decide_live)
              (kept-IsDecision account current l result s s1 alive
                (subst (λ o. KeepsLease plat account r.now current s o s1) e hit))
        | inl e ↦
            let first = subst (λ o. KeepsLease plat account r.now current s o s1) e hit in
            let moved =
              after_quiet plat account r.now current s s1 _ s2 first
                (rotation-KeepsLease plat fl r account current target s1) in
            elim (Option-cases (try_lease_same_ip_rotation fl r plat account current target s1).0) [
              | inr ((l, result), e') ↦
                  rw (e, e', decide_live)
                    (kept-IsDecision account current l result s s2 alive
                      (subst (λ o. KeepsLease plat account r.now current s o s2) e' moved))
              | inl e' ↦
                  rw (e, e', decide_live)
                    (subst
                      (λ why. IsDecision fl r plat account (some current) s (
                        create_or_abort_sticky_lease fl r plat account target draws (some current)
                          why s2))
                      (reason-alive current r.now alive)
                      (create_or_abort-IsDecision account target draws (some current) s s2
                        (subst (λ o. KeepsLease plat account r.now current s o s2) e' moved)))
            ]
      ]

  -- Every decision keeps the lease's IP, makes a new lease, or refuses and gives the old one up.
  pub decide_sticky_lease_lem :
      (account target : String) (draws : ℕ → ℕ → ℕ) (previous : Option Lease) (s : Shared)
      → IsDecision fl r plat account previous s
          (decide_sticky_lease fl r plat account target draws previous s)
  unfolding decide_sticky_lease
  decide_sticky_lease_lem account target draws none s =
      create_or_abort-IsDecision account target draws none s s (IsQuiet-refl plat s)
  decide_sticky_lease_lem account target draws (some current) s =
      elim (Bool-cases (is_expired current r.now)) [
        | inr alive ↦
            rw (alive, decide_sticky_lease)
              (decide_live-IsDecision account target draws current s alive)
        | inl old ↦
            rw (old, decide_sticky_lease)
              (subst
                (λ why. IsDecision fl r plat account (some current) s (
                  create_or_abort_sticky_lease fl r plat account target draws (some current) why s))
                (reason-old current r.now old)
                (create_or_abort-IsDecision account target draws (some current) s s
                  (IsQuiet-refl plat s)))
      ]
