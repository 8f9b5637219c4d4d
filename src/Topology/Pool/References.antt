-- ===== src/Topology/Pool/References.antt =====
-- internal/topology/pool.go: a node is in the pool as long as a subscription holds it.
use resin.Prelude.{
  ◌<◌, String, Bool, true, false, Option, none, some, List, [], ◌∷◌, ◌==◌, if◌then◌else◌,
  string_key, nat_key, ◌≡◌, ◌↔◌, refl, arith, Option-cases, Bool-cases, inl, inr, length, sym, ap,
  ◌∙◌, subst, if_both,
}
use resin.Prelude.Int.{ℤ}
use resin.Map.{Map, load, store, Distinct}
use resin.Map.Laws.{load-store, store-Distinct}
use resin.Node.Hash.{Hash}
use resin.Node.Entry.{NodeEntry, member, new_node_entry, add_subscription_id, without_first}
use resin.Node.Entry.Subscriptions.{
  NoRepeats, add_subscription_id_lem, member-without_first, without_first-NoRepeats, first_holder,
}
use resin.Outbound.Build.{OutboundBuilder, with_outbound}
use resin.Topology.Pool.{
  GlobalNodePool, PoolConfig, new_global_node_pool, entry_to_add, run_on_node_added,
  add_node_from_sub, release_node, remove_node_from_sub, notify_all_platforms_dirty,
}
use resin.Topology.Pool.Soundness.Members.{
  added, released, load-release_node, release_node-Distinct,
}

-- The calls of the subscriptions' refreshes, in any order.
pub data Call : Type 0 where
  add : Hash → String → String → ℤ → Call
  remove : Hash → String → Call

abbrev pub run : PoolConfig → List Call → GlobalNodePool → GlobalNodePool
run x [] g = g
run x (add h raw sub now ∷ calls) g = run x calls (add_node_from_sub x g h raw sub now).0
run x (remove h sub ∷ calls) g = run x calls (remove_node_from_sub x g h sub).0

-- The same calls on a relation: who holds what.
abbrev pub update : (Hash → String → Bool) → Hash → String → Bool → Hash → String → Bool
update f h sub b q s = if h == q then if sub == s then b else f q s else f q s

abbrev pub replay : List Call → (Hash → String → Bool) → Hash → String → Bool
replay [] f = f
replay (add h raw sub now ∷ calls) f = replay calls (update f h sub true)
replay (remove h sub ∷ calls) f = replay calls (update f h sub false)

abbrev pub ids_of : Option NodeEntry → List String
ids_of none = []
ids_of (some e) = e.subscription_ids

abbrev pub is_present : Option NodeEntry → Bool
is_present none = false
is_present (some e) = true

-- An entry is held, by each subscription once.
abbrev pub IsHeld : Option NodeEntry → Type 0
IsHeld none = Unit
IsHeld (some e) = NoRepeats e.subscription_ids × (0 < length e.subscription_ids)

pub record Holds (nodes : Map Hash NodeEntry) (f : Hash → String → Bool) : Type 0 where
  pub distinct : Distinct nodes
  pub held : (h : Hash) → IsHeld (load h nodes)
  pub same : (h : Hash) (s : String) → member s (ids_of (load h nodes)) ≡ f h s

NoRepeats-held : (o : Option NodeEntry) → IsHeld o → NoRepeats (ids_of o)
NoRepeats-held none k = tt
NoRepeats-held (some e) k = k.0

module _ (x : PoolConfig) where
  ids-with_outbound :
      (build : OutboundBuilder) (e : NodeEntry)
      → (with_outbound build e).subscription_ids ≡ e.subscription_ids
  unfolding with_outbound
  ids-with_outbound build e = ground arith

  ids-run_on_node_added :
      (found : Option NodeEntry) (h : Hash) (e : NodeEntry)
      → (run_on_node_added x found h e).0.subscription_ids ≡ e.subscription_ids
  unfolding run_on_node_added
  ids-run_on_node_added (some _) h e = refl
  ids-run_on_node_added none h e = elim (Option-cases x.on_node_added) [
    | inl off ↦ rw (off, run_on_node_added) refl
    | inr (build, on) ↦ rw (on, run_on_node_added) (ids-with_outbound build e)
  ]

  ids-entry_to_add :
      (found : Option NodeEntry) (h : Hash) (raw : String) (now : ℤ)
      → (entry_to_add x found h raw now).subscription_ids ≡ ids_of found
  unfolding entry_to_add new_node_entry
  ids-entry_to_add none h raw now = refl
  ids-entry_to_add (some e) h raw now = refl

  -- The entry stored by an addition.
  added-IsHeld :
      (found : Option NodeEntry) (h : Hash) (raw sub : String) (now : ℤ)
      → IsHeld found
      → let e = added x h found raw sub now in
        IsHeld (some e)
        × ((s : String)
            → member s e.subscription_ids ≡ (if sub == s then true else member s (ids_of found)))
  added-IsHeld found h raw sub now k =
      let e0 = entry_to_add x found h raw now in
      let e1 = add_subscription_id e0 sub in
      let start = ids-entry_to_add found h raw now in
      let n = subst NoRepeats (sym start) (NoRepeats-held found k) in
      let (once, more, law) = add_subscription_id_lem e0 sub n in
      let same = ids-run_on_node_added found h e1 in
      (
        (
          subst NoRepeats (sym same) once,
          subst (λ (l : List String). 0 < length l) (sym same) more,
        ),
        λ s.
            ap (member s) same
            ∙ law s
            ∙ ap (λ (l : List String). if sub == s then true else member s l) start,
      )

released-IsHeld :
    (found : Option NodeEntry) (sub : String)
    → IsHeld found
    → IsHeld (released found sub)
      × ((s : String)
          → member s (ids_of (released found sub))
            ≡ (if sub == s then false else member s (ids_of found)))
unfolding member
released-IsHeld none sub k = (tt, λ s. ground arith)
released-IsHeld (some e) sub (n, more) =
    let ids = without_first sub e.subscription_ids in
    let law = λ (s : String). member-without_first s sub e.subscription_ids n in
    elim (Bool-cases (length ids == 0)) [
      | inl empty ↦ rw empty (tt, λ s. sym (emptied ids s (ground (arith, empty))) ∙ law s)
      | inr more ↦
          rw more ((without_first-NoRepeats sub e.subscription_ids n, ground (arith, more)), law)
    ]
  where
    emptied : (ids : List String) (s : String) → length ids ≡ 0 → member s ids ≡ false
    emptied [] s h = refl
    emptied (x ∷ xs) s h = absurd (omega arith)

module _ (x : PoolConfig) (nodes : Map Hash NodeEntry) (f : Hash → String → Bool)
    (k : Holds nodes f) (h : Hash) where
  add-Holds :
      (raw sub : String) (now : ℤ)
      → Holds (store h (added x h (load h nodes) raw sub now) nodes) (update f h sub true)
  add-Holds raw sub now =
      let e = added x h (load h nodes) raw sub now in
      let (held, law) = added-IsHeld x (load h nodes) h raw sub now (k.held h) in
      record {
        distinct = store-Distinct h e nodes k.distinct;
        held = λ q.
            subst IsHeld (sym (load-store h q e nodes)) (if_both IsHeld (h == q) held (k.held q));
        same = λ q s. ground (arith, load-store h q e nodes, law s, k.same q s);
      }

  pub remove-Holds : (sub : String) → Holds (release_node nodes h sub).0 (update f h sub false)
  remove-Holds sub =
      let (held, law) = released-IsHeld (load h nodes) sub (k.held h) in
      let at = load-release_node nodes h sub k.distinct in
      record {
        distinct = release_node-Distinct nodes h sub k.distinct;
        held = λ q. subst IsHeld (sym (at q)) (if_both IsHeld (h == q) held (k.held q));
        same = λ q s. ground (arith, at q, law s, k.same q s);
      }

pub Holds-ext :
    (nodes : Map Hash NodeEntry) (f f' : Hash → String → Bool)
    → ((h : Hash) (s : String) → f h s ≡ f' h s)
    → Holds nodes f
    → Holds nodes f'
Holds-ext nodes f f' e k = record {
  distinct = k.distinct;
  held = k.held;
  same = λ h s. k.same h s ∙ e h s;
}

pub run-Holds :
    (x : PoolConfig) (calls : List Call) (g : GlobalNodePool) (f : Hash → String → Bool)
    → Holds g.nodes f
    → Holds (run x calls g).nodes (replay calls f)
unfolding add_node_from_sub remove_node_from_sub notify_all_platforms_dirty
run-Holds x [] g f k = k
run-Holds x (add h raw sub now ∷ calls) g f k =
    run-Holds x calls (add_node_from_sub x g h raw sub now).0 (update f h sub true)
      (add-Holds x g.nodes f k h raw sub now)
run-Holds x (remove h sub ∷ calls) g f k =
    run-Holds x calls (remove_node_from_sub x g h sub).0 (update f h sub false)
      (remove-Holds x g.nodes f k h sub)

pub new-Holds : Holds new_global_node_pool.nodes (λ _ _. false)
unfolding new_global_node_pool load member
new-Holds = record { distinct = tt; held = λ h. tt; same = λ h s. refl }

-- After any calls of the two operations on a new pool, an entry lists exactly the subscriptions
-- that were added for its hash and not removed since, each once; and the pool has a node exactly if
-- some subscription holds it.
pub references_refine :
    (x : PoolConfig) (calls : List Call) (h : Hash)
    → let found = load h (run x calls new_global_node_pool).nodes in
      let holds = replay calls (λ _ _. false) h in
      ((sub : String) → member sub (ids_of found) ≡ holds sub)
      × NoRepeats (ids_of found)
      × ((is_present found ≡ true) ↔ ((sub : String) × (holds sub ≡ true)))
unfolding member
references_refine x calls h =
    let k = run-Holds x calls new_global_node_pool (λ _ _. false) new-Holds in
    let found = load h (run x calls new_global_node_pool).nodes in
    (
      k.same h,
      NoRepeats-held found (k.held h),
      (
        λ present. let (s, held) = holder found (k.held h) present in (s, sym (k.same h s) ∙ held),
        λ (s, held). present_of found s (k.same h s ∙ held),
      ),
    )
  where
    holder :
        (o : Option NodeEntry)
        → IsHeld o
        → is_present o ≡ true
        → (s : String) × (member s (ids_of o) ≡ true)
    holder none k present = absurd (ground arith)
    holder (some e) k present = first_holder e.subscription_ids k.1

    present_of :
        (o : Option NodeEntry) (s : String) → member s (ids_of o) ≡ true → is_present o ≡ true
    present_of none s held = absurd (ground arith)
    present_of (some e) s held = refl
