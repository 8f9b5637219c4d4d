-- ===== src/Topology/Pool/Directory.antt =====
-- internal/topology/pool.go: the platforms by their IDs and names.
pub mod Consistency
use resin.Prelude.{
  ℕ, String, Bool, true, false, not, ◌&&◌, Option, none, some, ◌==◌, if◌then◌else◌, string_key,
  nat_key,
}
use resin.Map.{Map, load, store, remove}
use resin.Platform.{Platform}
use resin.Platform.View.{RoutableView}
use resin.Topology.Pool.{GlobalNodePool, PoolConfig, rebuild_platform}

pub data RegisterError : Type 0 where
  platform_not_registered platform_name_conflict : RegisterError

-- current, ok := platformByName[name]; ok && current == plat
unfoldable pub points_at : Map String ℕ → String → ℕ → Bool
unfolding load
points_at names name r = elim (load name names) [ none ↦ false | some current ↦ current == r ]

-- the name deleted, if it is not empty and still points at the object
unfoldable pub drop_name : Map String ℕ → String → ℕ → Map String ℕ
unfolding points_at remove
drop_name names name r =
    if not (name == "") && points_at names name r then remove name names else names

unfoldable pub put_name : Map String ℕ → String → ℕ → Map String ℕ
unfolding store
put_name names name r = if name == "" then names else store name r names

-- The argument is an object and its address.
unfoldable pub register_platform : GlobalNodePool → ℕ → Platform RoutableView → GlobalNodePool
unfolding load store put_name
register_platform g r p = elim (load p.id g.platform_by_id) [
  | some _ ↦ g
  | none ↦ record g {
    platform_by_id = store p.id r g.platform_by_id;
    platform_by_name = put_name g.platform_by_name p.name r;
  }
]

-- `load` of the object at an address gives its ID and its name, which never change.
unfoldable pub unregister_platform : GlobalNodePool → String → GlobalNodePool
unfolding load remove drop_name
unregister_platform g id = elim (load id g.platform_by_id) [
  | none ↦ g
  | some r ↦ elim (load r g.platforms) [
    | none ↦ g
    | some p ↦ record g {
      platform_by_id = remove id g.platform_by_id;
      platform_by_name = drop_name g.platform_by_name p.name r;
    }
  ]
]

-- The name is another object's than `c`.
unfoldable pub name_conflicts : Map String ℕ → String → ℕ → Bool
unfolding load
name_conflicts names name c =
    not (name == "")
    && elim (load name names) [ none ↦ false | some existing ↦ not (existing == c) ]

-- the critical section of `ReplacePlatform`
unfoldable pub swap_platform :
    GlobalNodePool → ℕ → Platform RoutableView → GlobalNodePool × Option RegisterError
unfolding load store name_conflicts drop_name put_name
swap_platform g r next = elim (load next.id g.platform_by_id) [
  | none ↦ (g, some platform_not_registered)
  | some c ↦ elim (load c g.platforms) [
    | none ↦ (g, none)
    | some current ↦
        if name_conflicts g.platform_by_name next.name c
        then (g, some platform_name_conflict)
        else (
          record g {
            platform_by_id = store next.id r g.platform_by_id;
            platform_by_name = put_name (drop_name g.platform_by_name current.name c) next.name r;
          },
          none,
        )
  ]
]

-- `none` is a nil argument
unfoldable pub replace_platform :
    PoolConfig
    → GlobalNodePool
    → Option (ℕ × Platform RoutableView)
    → GlobalNodePool × Option RegisterError
unfolding rebuild_platform swap_platform
replace_platform x g none = (g, some platform_not_registered)
replace_platform x g (some (r, next)) =
    if next.id == ""
    then (g, some platform_not_registered)
    else swap_platform (rebuild_platform x g r) r next

unfoldable pub get_platform : GlobalNodePool → String → Option ℕ
unfolding load
get_platform g id = load id g.platform_by_id

unfoldable pub get_platform_by_name : GlobalNodePool → String → Option ℕ
unfolding load
get_platform_by_name g name = load name g.platform_by_name
