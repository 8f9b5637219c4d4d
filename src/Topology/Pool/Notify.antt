-- ===== src/Topology/Pool/Notify.antt =====
-- internal/topology/pool.go: `notifyAllPlatformsDirty`, `RebuildAllPlatforms` and `RebuildPlatform`
-- keep the views equal to what the platforms accept of the pool.
pub mod Visits
use resin.Prelude.{
  ℕ, String, Bool, true, false, Option, none, some, ◌==◌, if◌then◌else◌, string_key, nat_key, ◌≡◌,
  refl, arith, Option-cases, Bool-cases, inl, inr, ◌∙◌, sym, ap, length, ◌<◌,
}
use resin.Map.{Map, load, Distinct}
use resin.Netip.{Addr}
use resin.Node.Hash.{Hash}
use resin.Node.Latency.{LatencyTable}
use resin.Node.Entry.{NodeEntry, SubLookup}
use resin.Platform.{Platform}
use resin.Platform.View.{RoutableView, contains}
use resin.Platform.View.Sharding.{IsValid}
use resin.Platform.Evaluation.{evaluate_node, full_rebuild, notify_dirty}
use resin.Platform.Evaluation.Sync.{is_routable, full_rebuild_lem, notify_dirty_lem}
use resin.Topology.Pool.{
  GlobalNodePool, PoolConfig, get_entry, platform_snapshot, on_platforms, make_sub_lookup,
  notify_all_platforms_dirty, rebuild_all_platforms, rebuild_platform,
}
use resin.Topology.Pool.Notify.Visits.{
  is_visited, load-is_visited, on_platforms-keeps, on_platforms-gains, text_at,
  text_at-on_platforms,
}

module _ (x : PoolConfig) (nodes : Map Hash NodeEntry) where
  -- what the platform accepts, now
  abbrev pub accepts : Platform RoutableView → Hash → Bool
  accepts p q = is_routable p (some (make_sub_lookup x)) x.geo_lookup (load q nodes)

  -- The view has, of all nodes but those that are late, exactly those that the platform accepts.
  pub record Shows (late : Hash → Bool) (p : Platform RoutableView) : Type 0 where
    pub valid : IsValid p.view
    pub right : (q : Hash) → late q ≡ false → contains p.view q ≡ accepts p q

  -- The same, but for one node.
  pub record ShowsOthers (late : Hash → Bool) (h : Hash) (p : Platform RoutableView) : Type 0 where
    pub valid : IsValid p.view
    pub right : (q : Hash) → h == q ≡ false → late q ≡ false → contains p.view q ≡ accepts p q

  abbrev pub notified : Hash → Platform RoutableView → Platform RoutableView
  notified h p = notify_dirty p (some (make_sub_lookup x)) x.geo_lookup h (load h nodes)

  abbrev pub rebuilt : Platform RoutableView → Platform RoutableView
  rebuilt p = full_rebuild p (some (make_sub_lookup x)) x.geo_lookup nodes

  -- A new view does not change what a platform accepts.
  is_routable-notify :
      (p : Platform RoutableView) (h : Hash) (e o : Option NodeEntry) (l : Option SubLookup)
      (geo : Option (Addr → String))
      → is_routable (notify_dirty p l geo h e) l geo o ≡ is_routable p l geo o
  unfolding notify_dirty evaluate_node
  is_routable-notify p h none none l geo = refl
  is_routable-notify p h none (some o) l geo = refl
  is_routable-notify p h (some e) none l geo = refl
  is_routable-notify p h (some e) (some o) l geo = refl

  is_routable-rebuild :
      (p : Platform RoutableView) (o : Option NodeEntry) (l : Option SubLookup)
      (geo : Option (Addr → String))
      → is_routable (full_rebuild p l geo nodes) l geo o ≡ is_routable p l geo o
  unfolding full_rebuild evaluate_node
  is_routable-rebuild p none l geo = refl
  is_routable-rebuild p (some o) l geo = refl

  pub notified-Shows :
      {late : Hash → Bool} (h : Hash) (p : Platform RoutableView)
      → ShowsOthers late h p
      → Shows late (notified h p)
  notified-Shows h p s =
      let l = some (make_sub_lookup x) in
      let law = λ (q : Hash). notify_dirty_lem p l x.geo_lookup h q (load h nodes) s.valid in
      record {
        valid = (law h).0;
        right = λ q on_time. ground (
          arith,
          on_time,
          (law q).1,
          s.right q,
          is_routable-notify p h (load h nodes) (load q nodes) l x.geo_lookup,
        );
      }

  pub rebuilt-Shows :
      (late : Hash → Bool)
      → Distinct nodes
      → (p : Platform RoutableView) → IsValid p.view
      → Shows late (rebuilt p)
  rebuilt-Shows late d p v =
      let l = some (make_sub_lookup x) in
      record {
        valid = (full_rebuild_lem p l x.geo_lookup nodes 0 d v).0;
        right = λ q on_time.
            (full_rebuild_lem p l x.geo_lookup nodes q d v).1
            ∙ sym (is_routable-rebuild p (load q nodes) l x.geo_lookup);
      }

  pub notified-IsValid :
      (h : Hash) (p : Platform RoutableView) → IsValid p.view → IsValid (notified h p).view
  notified-IsValid h p v =
      (notify_dirty_lem p (some (make_sub_lookup x)) x.geo_lookup h 0 (load h nodes) v).0

  pub rebuilt-IsValid :
      Distinct nodes → (p : Platform RoutableView) → IsValid p.view → IsValid (rebuilt p).view
  rebuilt-IsValid d p v = (rebuilt-Shows (λ _. false) d p v).valid

  pub id-notified : (h : Hash) (p : Platform RoutableView) → (notified h p).id ≡ p.id
  unfolding notify_dirty
  id-notified h p = ground arith

  pub name-notified : (h : Hash) (p : Platform RoutableView) → (notified h p).name ≡ p.name
  unfolding notify_dirty
  name-notified h p = ground arith

  pub id-rebuilt : (p : Platform RoutableView) → (rebuilt p).id ≡ p.id
  unfolding full_rebuild
  id-rebuilt p = refl

  pub name-rebuilt : (p : Platform RoutableView) → (rebuilt p).name ≡ p.name
  unfolding full_rebuild
  name-rebuilt p = refl
