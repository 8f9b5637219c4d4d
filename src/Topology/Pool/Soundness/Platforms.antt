-- ===== src/Topology/Pool/Soundness/Platforms.antt =====
-- internal/topology/pool.go: registering, unregistering and replacing a platform keep the invariant
-- of the pool.
use resin.Prelude.{
  ℕ, String, Bool, true, false, Option, none, some, ◌==◌, if◌then◌else◌, string_key, nat_key, ◌≡◌,
  arith, Option-cases, Bool-cases, inl, inr, ◌∙◌, sym, subst, some-injective, ◌⊎◌, if_cases,
  if_both,
}
use resin.Map.{Map, load, store}
use resin.Map.Laws.{load-store, load-remove}
use resin.Node.Hash.{Hash}
use resin.Platform.{Platform}
use resin.Platform.View.{RoutableView, new_routable_view}
use resin.Platform.View.Picks.{new-IsValid}
use resin.Platform.View.Sharding.{IsValid}
use resin.Topology.Pool.{GlobalNodePool, PoolConfig, on_platforms, rebuild_platform}
use resin.Topology.Pool.Directory.{
  RegisterError, name_conflicts, drop_name, put_name, register_platform, unregister_platform,
  swap_platform, replace_platform,
}
use resin.Topology.Pool.Directory.Consistency.{
  Agree, Agree-more, register-Agree, unregister-Agree, swap-Agree,
}
use resin.Topology.Pool.Notify.{Shows, rebuilt, rebuilt-Shows, id-rebuilt, name-rebuilt}
use resin.Topology.Pool.Soundness.{id_at, name_at, IsSound}

-- A new platform object at an address that was free.
abbrev pub allocate : GlobalNodePool → ℕ → Platform RoutableView → GlobalNodePool
allocate g r p = record g { platforms = store r p g.platforms }

module _ {late : Hash → Bool} (x : PoolConfig) (g : GlobalNodePool) (k : IsSound late x g) (r : ℕ)
    (free : load r g.platforms ≡ none) where
  -- No directory has the free address.
  unregistered : (id : String) → load id g.platform_by_id ≡ some r → ⊥
  unregistered id at = ground (arith, k.loaded.agree.by_id id r at, free)

  -- An object more, which is in no directory.
  place-IsSound :
      (p : Platform RoutableView) (ps : Map ℕ (Platform RoutableView))
      → ((s : ℕ) → load s ps ≡ (if r == s then some p else load s g.platforms))
      → IsValid p.view
      → IsSound late x (record g { platforms = ps })
  place-IsSound p ps placed valid = record {
    loaded = record {
      distinct = k.loaded.distinct;
      rooms = k.loaded.rooms;
      valid = λ s q at. elim (Bool-cases (r == s)) [
        | inl here ↦
            let same : p ≡ q = ground (arith, placed s, here) in
            subst (λ (t : Platform RoutableView). IsValid t.view) same valid
        | inr other ↦ k.loaded.valid s q (ground (arith, placed s, other))
      ];
      agree =
          Agree-more (id_at g.platforms) (name_at g.platforms) (id_at ps) (name_at ps)
            g.platform_by_id g.platform_by_name r (ground (arith, free))
            (λ s other. ground (arith, placed s, other))
            (λ s other. ground (arith, placed s, other)) k.loaded.agree;
    };
    shows = λ id s q at found. elim (Bool-cases (r == s)) [
      | inl here ↦
          let same : s ≡ r = ground (arith, here) in
          let impossible =
            unregistered id (subst (λ t. load id g.platform_by_id ≡ some t) same at) in
          elim impossible [ ]
      | inr other ↦ k.shows id s q at (ground (arith, placed s, other))
    ];
  }

  -- A new object, and its rebuild.
  rebuilt_platforms : (p : Platform RoutableView) → Map ℕ (Platform RoutableView)
  rebuilt_platforms p = (rebuild_platform x (allocate g r p) r).platforms

  load-rebuilt_platforms :
      (p : Platform RoutableView) (s : ℕ)
      → load s (rebuilt_platforms p)
        ≡ (if r == s then some (rebuilt x g.nodes p) else load s g.platforms)
  unfolding rebuilt_platforms rebuild_platform on_platforms
  load-rebuilt_platforms p s =
      let ps = store r p g.platforms in
      let there : load r ps ≡ some p = ground (arith, load-store r r p g.platforms) in
      rw (there, rebuilt_platforms, rebuild_platform, on_platforms)
        (ground (arith, load-store r s (rebuilt x g.nodes p) ps, load-store r s p g.platforms))

  rebuild-IsSound :
      (p : Platform RoutableView)
      → IsValid p.view
      → IsSound late x (rebuild_platform x (allocate g r p) r)
  unfolding rebuild_platform rebuilt_platforms
  rebuild-IsSound p valid =
      place-IsSound (rebuilt x g.nodes p) (rebuilt_platforms p) (load-rebuilt_platforms p)
        (rebuilt-Shows x g.nodes late k.loaded.distinct p valid).valid

free_of :
    (names : Map String ℕ) (name : String) (c : ℕ)
    → name_conflicts names name c ≡ false
    → (name == "" ≡ true) ⊎ (load name names ≡ none) ⊎ (load name names ≡ some c)
unfolding name_conflicts
free_of names name c h = elim (Option-cases (load name names)) [
  | inl e ↦ inr (inl e)
  | inr (s, e) ↦ elim (Bool-cases (name == "")) [
    | inl unnamed ↦ inl unnamed
    | inr named ↦ inr (inr (ground (arith, e, named, h)))
  ]
]

-- The directories changed, where every object that is found is right.
module _ {late : Hash → Bool} (x : PoolConfig) (g : GlobalNodePool) (k : IsSound late x g) where
  -- An object at `r` with a right view, of the ID and the name of `p`.
  module _ (r : ℕ) (p q : Platform RoutableView) (at : load r g.platforms ≡ some q)
      (same_id : q.id ≡ p.id) (same_name : q.name ≡ p.name) (right : Shows x g.nodes late q) where
    id_here : id_at g.platforms r ≡ some p.id
    id_here = ground (arith, at)

    name_here : name_at g.platforms r ≡ some p.name
    name_here = ground (arith, at)

    Shows-here : (o : Platform RoutableView) → load r g.platforms ≡ some o → Shows x g.nodes late o
    Shows-here o found =
        let same : q ≡ o = some-injective _ _ (sym at ∙ found) in
        subst (λ (t : Platform RoutableView). Shows x g.nodes late t) same right

    -- One ID more in the directory, or another object under it.
    Shows-stored :
        (id : String) (s : ℕ) (o : Platform RoutableView)
        → load id (store p.id r g.platform_by_id) ≡ some s
        → load s g.platforms ≡ some o
        → Shows x g.nodes late o
    Shows-stored id s o found there = elim (Bool-cases (p.id == id)) [
      | inl here ↦
          let same : s ≡ r = ground (arith, here, load-store p.id id r g.platform_by_id) in
          Shows-here o (subst (λ t. load t g.platforms ≡ some o) same there)
      | inr other ↦
          k.shows id s o (ground (arith, other, load-store p.id id r g.platform_by_id)) there
    ]

    with_directories : Map String ℕ → Map String ℕ → GlobalNodePool
    with_directories ids names = record g { platform_by_id = ids; platform_by_name = names }

    stored-IsSound :
        (names : Map String ℕ)
        → Agree (id_at g.platforms) (name_at g.platforms) (store p.id r g.platform_by_id) names
        → IsSound late x
            (record g { platform_by_id = store p.id r g.platform_by_id; platform_by_name = names })
    stored-IsSound names agree = record {
      loaded = record {
        distinct = k.loaded.distinct;
        rooms = k.loaded.rooms;
        valid = k.loaded.valid;
        agree = agree;
      };
      shows = Shows-stored;
    }

    pub register-IsSound :
        load p.name g.platform_by_name ≡ none → IsSound late x (register_platform g r p)
    unfolding register_platform
    register-IsSound fresh = elim (Option-cases (load p.id g.platform_by_id)) [
      | inr (s, e) ↦ rw (e, register_platform) k
      | inl e ↦
          rw (e, register_platform)
            (stored-IsSound (put_name g.platform_by_name p.name r) (
              register-Agree (id_at g.platforms) (name_at g.platforms) g.platform_by_id
                g.platform_by_name k.loaded.agree p.id p.name r id_here name_here e fresh))
    ]

    swap_to :
        (c : ℕ) (current : Platform RoutableView)
        → load p.id g.platform_by_id ≡ some c
        → load c g.platforms ≡ some current
        → ((p.name == "") ≡ true)
          ⊎ (load p.name g.platform_by_name ≡ none)
          ⊎ (load p.name g.platform_by_name ≡ some c)
        → IsSound late x (record g {
          platform_by_id = store p.id r g.platform_by_id;
          platform_by_name = put_name (drop_name g.platform_by_name current.name c) p.name r;
        })
    swap_to c current at_id found free =
        stored-IsSound (put_name (drop_name g.platform_by_name current.name c) p.name r) (
          swap-Agree (id_at g.platforms) (name_at g.platforms) g.platform_by_id g.platform_by_name
            k.loaded.agree p.id current.name p.name c r at_id id_here name_here
            (ground (arith, found)) free)

    pub swap-IsSound : IsSound late x (swap_platform g r p).0
    unfolding swap_platform
    swap-IsSound = elim (Option-cases (load p.id g.platform_by_id)) [
      | inl e ↦ rw (e, swap_platform) k
      | inr (c, e) ↦ elim (Option-cases (load c g.platforms)) [
        | inl e' ↦ rw (e, e', swap_platform) k
        | inr (current, e') ↦
            rw (e, e', swap_platform)
              (if_cases (λ (o : GlobalNodePool × Option RegisterError). IsSound late x o.0)
                (name_conflicts g.platform_by_name p.name c) (λ _. k)
                (λ no_conflict.
                  swap_to c current e e' (free_of g.platform_by_name p.name c no_conflict)))
      ]
    ]

  pub unregister-IsSound : (id : String) → IsSound late x (unregister_platform g id)
  unfolding unregister_platform
  unregister-IsSound id = elim (Option-cases (load id g.platform_by_id)) [
    | inl e ↦ rw (e, unregister_platform) k
    | inr (r, e) ↦ elim (Option-cases (load r g.platforms)) [
      | inl e' ↦ rw (e, e', unregister_platform) k
      | inr (p, e') ↦
          let same : p.id ≡ id = ground (arith, e', k.loaded.agree.by_id id r e) in
          rw (e, e', unregister_platform)
            (record {
              loaded = record {
                distinct = k.loaded.distinct;
                rooms = k.loaded.rooms;
                valid = k.loaded.valid;
                agree =
                    unregister-Agree (id_at g.platforms) (name_at g.platforms) g.platform_by_id
                      g.platform_by_name k.loaded.agree id p.name r (k.loaded.agree.by_id id r e)
                      (ground (arith, e')) e;
              };
              shows = λ q s o at there.
                  k.shows q s o
                    (ground (arith, load-remove id q g.platform_by_id k.loaded.agree.ids_distinct))
                    there;
            })
    ]
  ]

-- A new object at a free address, rebuilt and then registered or swapped in.
module _ {late : Hash → Bool} (x : PoolConfig) (g : GlobalNodePool) (k : IsSound late x g) (r : ℕ)
    (free : load r g.platforms ≡ none) (p : Platform RoutableView)
    (fresh : p.view ≡ new_routable_view) where
  fresh-IsValid : IsValid p.view
  fresh-IsValid = subst IsValid (sym fresh) new-IsValid

  rebuilt_pool : GlobalNodePool
  rebuilt_pool = rebuild_platform x (allocate g r p) r

  rebuilt_here : load r rebuilt_pool.platforms ≡ some (rebuilt x g.nodes p)
  unfolding rebuilt_pool rebuilt_platforms
  rebuilt_here = ground (arith, load-rebuilt_platforms x g k r free p r)

  pub create-IsSound :
      load p.name g.platform_by_name ≡ none
      → IsSound late x (register_platform (rebuild_platform x (allocate g r p) r) r p)
  unfolding rebuilt_pool rebuild_platform
  create-IsSound unused =
      register-IsSound x rebuilt_pool (rebuild-IsSound x g k r free p fresh-IsValid) r p
        (rebuilt x g.nodes p) rebuilt_here (id-rebuilt x g.nodes p) (name-rebuilt x g.nodes p)
        (rebuilt-Shows x g.nodes late k.loaded.distinct p fresh-IsValid) unused

  pub replace-IsSound : IsSound late x (replace_platform x (allocate g r p) (some (r, p))).0
  unfolding replace_platform rebuilt_pool rebuild_platform
  replace-IsSound =
      if_both (λ (o : GlobalNodePool × Option RegisterError). IsSound late x o.0) (p.id == "")
        (place-IsSound x g k r free p (store r p g.platforms) (λ s. load-store r s p g.platforms)
          fresh-IsValid)
        (swap-IsSound x rebuilt_pool (rebuild-IsSound x g k r free p fresh-IsValid) r p
          (rebuilt x g.nodes p) rebuilt_here (id-rebuilt x g.nodes p) (name-rebuilt x g.nodes p)
          (rebuilt-Shows x g.nodes late k.loaded.distinct p fresh-IsValid))
