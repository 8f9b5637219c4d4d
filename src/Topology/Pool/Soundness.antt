-- ===== src/Topology/Pool/Soundness.antt =====
-- internal/topology/pool.go: the invariant of the pool, kept by a rebuild and by a notification.
pub mod Members
pub mod Alike
pub mod Nodes
pub mod Platforms
pub mod Steps
use resin.Prelude.{
  ℕ, String, Bool, true, false, Option, none, some, [], ◌∷◌, ◌==◌, if◌then◌else◌, string_key,
  nat_key, ◌≡◌, refl, arith, Option-cases, Bool-cases, inl, inr, ◌∙◌, sym, ap, subst, length, ◌<◌,
}
use resin.Map.{Map, load, store, Distinct}
use resin.Node.Hash.{Hash}
use resin.Node.Latency.{LatencyTable}
use resin.Node.Entry.{NodeEntry}
use resin.Platform.{Platform}
use resin.Platform.View.{RoutableView}
use resin.Platform.View.Sharding.{IsValid}
use resin.Topology.Pool.{
  GlobalNodePool, PoolConfig, new_global_node_pool, get_entry, platform_snapshot, on_platforms,
  notify_all_platforms_dirty, rebuild_all_platforms, rebuild_platform,
}
use resin.Topology.Pool.Directory.Consistency.{Agree, Agree-ext}
use resin.Topology.Pool.Notify.{
  accepts, Shows, ShowsOthers, notified, rebuilt, notified-Shows, rebuilt-Shows, notified-IsValid,
  rebuilt-IsValid, id-notified, name-notified, id-rebuilt, name-rebuilt,
}
use resin.Topology.Pool.Notify.Visits.{
  is_visited, load-is_visited, on_platforms-keeps, on_platforms-gains, text_at,
  text_at-on_platforms,
}

-- A latency table, if there is one, has room for regular domains.
abbrev pub HasRoom : Option LatencyTable → Type 0
HasRoom none = Unit
HasRoom (some t) = 0 < length t.regular

abbrev pub id_at : Map ℕ (Platform RoutableView) → ℕ → Option String
id_at ps r = text_at (λ p. p.id) (load r ps)

abbrev pub name_at : Map ℕ (Platform RoutableView) → ℕ → Option String
name_at ps r = text_at (λ p. p.name) (load r ps)

-- What holds also while the nodes are loaded at the start.
pub record IsLoaded (g : GlobalNodePool) : Type 0 where
  pub distinct : Distinct g.nodes
  pub rooms : (h : Hash) (e : NodeEntry) → load h g.nodes ≡ some e → HasRoom e.latency_table
  pub valid : (r : ℕ) (p : Platform RoutableView) → load r g.platforms ≡ some p → IsValid p.view
  pub agree : Agree (id_at g.platforms) (name_at g.platforms) g.platform_by_id g.platform_by_name

-- The view of each registered platform is right about all nodes but those that are late.
pub record IsSound (late : Hash → Bool) (x : PoolConfig) (g : GlobalNodePool) : Type 0 where
  pub loaded : IsLoaded g
  pub shows :
      (id : String) (r : ℕ) (p : Platform RoutableView)
      → load id g.platform_by_id ≡ some r
      → load r g.platforms ≡ some p
      → Shows x g.nodes late p

module _ (x : PoolConfig) (g : GlobalNodePool) (k : IsLoaded g) where
  pub rebuild_all-IsSound : (late : Hash → Bool) → IsSound late x (rebuild_all_platforms x g)
  unfolding rebuild_all_platforms
  rebuild_all-IsSound late =
      let f = rebuilt x g.nodes in
      let rs = platform_snapshot g.platform_by_id in
      record {
        loaded = record {
          distinct = k.distinct;
          rooms = k.rooms;
          valid = λ r.
              on_platforms-keeps f (λ p. IsValid p.view) (rebuilt-IsValid x g.nodes k.distinct) rs
                g.platforms r (k.valid r);
          agree =
              Agree-ext (id_at g.platforms) (name_at g.platforms) _ _ g.platform_by_id
                g.platform_by_name
                (text_at-on_platforms f (λ p. p.id) (id-rebuilt x g.nodes) rs g.platforms)
                (text_at-on_platforms f (λ p. p.name) (name-rebuilt x g.nodes) rs g.platforms)
                k.agree;
        };
        shows = λ id r p at.
            on_platforms-gains f (λ p. IsValid p.view) (Shows x g.nodes late)
              (rebuilt-Shows x g.nodes late k.distinct) (λ p s. s.valid) rs g.platforms r
              (load-is_visited g.platform_by_id id r at) (k.valid r) p;
      }

  -- A notification repairs what every registered platform shows of one node.
  pub notify-IsSound :
      {late : Hash → Bool} (h : Hash)
      → ((id : String) (r : ℕ) (p : Platform RoutableView)
          → load id g.platform_by_id ≡ some r
          → load r g.platforms ≡ some p
          → ShowsOthers x g.nodes late h p)
      → IsSound late x (notify_all_platforms_dirty x g h)
  unfolding notify_all_platforms_dirty get_entry
  notify-IsSound {late} h others =
      let f = notified x g.nodes h in
      let rs = platform_snapshot g.platform_by_id in
      record {
        loaded = record {
          distinct = k.distinct;
          rooms = k.rooms;
          valid = λ r.
              on_platforms-keeps f (λ p. IsValid p.view) (notified-IsValid x g.nodes h) rs
                g.platforms r (k.valid r);
          agree =
              Agree-ext (id_at g.platforms) (name_at g.platforms) _ _ g.platform_by_id
                g.platform_by_name
                (text_at-on_platforms f (λ p. p.id) (id-notified x g.nodes h) rs g.platforms)
                (text_at-on_platforms f (λ p. p.name) (name-notified x g.nodes h) rs g.platforms)
                k.agree;
        };
        shows = λ id r p at.
            on_platforms-gains f (ShowsOthers x g.nodes late h) (Shows x g.nodes late)
              (notified-Shows x g.nodes h)
              (λ p s. record { valid = s.valid; right = λ q _ on_time. s.right q on_time }) rs
              g.platforms r (load-is_visited g.platform_by_id id r at) (λ p e. others id r p at e)
              p;
      }

pub new-IsLoaded : IsLoaded new_global_node_pool
unfolding new_global_node_pool load
new-IsLoaded = record {
  distinct = tt;
  rooms = λ h e at. absurd (ground arith);
  valid = λ r p at. absurd (ground arith);
  agree = record {
    ids_distinct = tt;
    names_distinct = tt;
    unnamed = refl;
    by_id = λ id r at. absurd (ground arith);
    by_name = λ name r at. absurd (ground arith);
    named = λ id name r at. absurd (ground arith);
  };
}
