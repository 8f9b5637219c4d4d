-- ===== src/Platform/View/Picks.antt =====
-- internal/platform/routableview.go: what `Range` visits and `RandomPick` returns.
use resin.Prelude.{
  subst, ℕ, zero, suc, ◌+◌, ◌-◌, ◌%◌, ◌≤◌, ◌<◌, true, none, some, List, [], ◌∷◌, ◌++◌, ◌==◌, ltb,
  length, get_elem?, if◌then◌else◌, nat_key, arith, ◌≡◌, refl, Option-cases, Bool-cases, inl, inr,
  get_elem?_in_range, get_elem?-append, get_elem?_bound, ◌↔◌, ◌≢◌, ◌⊎◌, ap, some-injective,
}
use resin.Prelude.Int.{pos}
use resin.Map.{load}
use resin.Node.Hash.{Hash}
use resin.Platform.View.{
  Shard, RoutableView, shard_for, contains, shard_contains, all_nodes, range, random_pick,
  pick_from, new_routable_view, new_shards, clear, clear_shards, num_shards, new_shard,
}
use resin.Platform.View.Index.{IsIndexed}
use resin.Platform.View.Sharding.{ShardsOk, IsValid, ShardsOk-at}

-- `h` is visited at some place.
abbrev pub Occurs : Hash → List Hash → Type 0
Occurs h xs = (i : ℕ) × (get_elem? xs i ≡ some h)

-- A property of every hash of a list.
pub each :
    (x : Hash) (hs : List Hash) (P : Hash → Type 0)
    → P x
    → ((h : Hash) → Occurs h hs → P h)
    → (h : Hash) → Occurs h (x ∷ hs)
    → P h
each x hs P p ps h (zero, e) = subst P (ground (arith, e)) p
each x hs P p ps h (suc i, e) = ps h (i, e)

Occurs-right : (h : Hash) (xs ys : List Hash) → Occurs h ys → Occurs h (xs ++ ys)
Occurs-right h [] ys o = o
Occurs-right h (x ∷ xs) ys o = let (i, e) = Occurs-right h xs ys o in (suc i, e)

Occurs-left : (h : Hash) (xs ys : List Hash) → Occurs h xs → Occurs h (xs ++ ys)
Occurs-left h xs ys (i, e) =
    (i, ground (arith, get_elem?-append xs ys i, get_elem?_bound xs i {a = h} e))

Occurs-append : (h : Hash) (xs ys : List Hash) → Occurs h (xs ++ ys) → Occurs h xs ⊎ Occurs h ys
Occurs-append h [] ys o = inr o
Occurs-append h (x ∷ xs) ys (zero, e) = inl (zero, e)
Occurs-append h (x ∷ xs) ys (suc i, e) = elim (Occurs-append h xs ys (i, e)) [
  | inl (j, k) ↦ inl (suc j, k)
  | inr o ↦ inr o
]

shard_contains-Occurs :
    (h : Hash) (s : Shard) → IsIndexed s → shard_contains h s ≡ true → Occurs h s.nodes
unfolding shard_contains
shard_contains-Occurs h s x c = elim (Option-cases (load h s.index)) [
  | inl e ↦ absurd (ground arith)
  | inr (i, e) ↦ (i, x.found h i e)
]

Occurs-shard_contains :
    (h : Hash) (s : Shard) → IsIndexed s → Occurs h s.nodes → shard_contains h s ≡ true
unfolding shard_contains
Occurs-shard_contains h s x (i, e) = rw (x.placed h i e, shard_contains)

Occurs-all_nodes :
    (h : Hash) (k : ℕ) (shards : List Shard) (s : Shard)
    → get_elem? shards k ≡ some s
    → Occurs h s.nodes
    → Occurs h (all_nodes shards)
unfolding all_nodes
Occurs-all_nodes h k [] s e o = absurd (ground arith)
Occurs-all_nodes h zero (x ∷ shards) s e o = Occurs-left h x.nodes _ (rw (some-injective _ _ e) o)
Occurs-all_nodes h (suc k) (x ∷ shards) s e o =
    Occurs-right h x.nodes _ (Occurs-all_nodes h k shards s e o)

all_nodes-shard :
    (h : Hash) (i : ℕ) (shards : List Shard)
    → ShardsOk i shards
    → Occurs h (all_nodes shards)
    → (k : ℕ) × (s : Shard) × (get_elem? shards k ≡ some s)
      × (shard_contains h s ≡ true)
      × (shard_for h ≡ i + k)
unfolding all_nodes
all_nodes-shard h i [] ok (j, e) = absurd (ground arith)
all_nodes-shard h i (x ∷ shards) ok o = elim (Occurs-append h x.nodes (all_nodes shards) o) [
  | inl here ↦
      let c = Occurs-shard_contains h x ok.0 here in (0, x, refl, c, omega (arith, ok.1 h c))
  | inr there ↦
      let (k, s, e, c, p) = all_nodes-shard h (suc i) shards ok.2 there in
      (suc k, s, e, c, omega (arith, p))
]

module _ (v : RoutableView) (valid : IsValid v) where
  -- `Contains` says exactly what `Range` visits.
  pub contains-range : (h : Hash) → (contains v h ≡ true) ↔ Occurs h (range v)
  unfolding contains range
  contains-range h = (
    λ c. elim (Option-cases (get_elem? v.shards (shard_for h))) [
      | inl e ↦ absurd (ground arith)
      | inr (s, e) ↦ Occurs-all_nodes h (shard_for h) v.shards s e (
          shard_contains-Occurs h s (ShardsOk-at 0 (shard_for h) v.shards s valid.ok e)
            (ground arith))
    ],
    λ o.
        let (k, s, e, c, p) = all_nodes-shard h 0 v.shards valid.ok o in
        let p' : shard_for h ≡ k = omega (arith, p) in ground arith,
  )

  -- The total is the number of hashes that `Range` visits.
  pub size-range : v.size ≡ pos (length (range v))
  unfolding range
  size-range = valid.total

pick_from-get_elem? :
    (shards : List Shard) (t : ℕ) → pick_from shards t ≡ get_elem? (all_nodes shards) t
unfolding pick_from all_nodes
pick_from-get_elem? [] t = refl
pick_from-get_elem? (s ∷ shards) t = ground (
  arith,
  get_elem?-append s.nodes (all_nodes shards) t,
  pick_from-get_elem? shards (t - length s.nodes),
)

length_pos : (xs : List Hash) → xs ≢ [] → 0 < length xs
length_pos [] h = absurd (h refl)
length_pos (x ∷ xs) h = omega arith

-- A place of the visit lies in the first shard or in a later one.
module _ (h : Hash) (i : ℕ) (x : Shard) (shards : List Shard) (ok : ShardsOk i (x ∷ shards)) where
  first_place :
      (a : ℕ)
      → get_elem? (x.nodes ++ all_nodes shards) a ≡ some h
      → ((a < length x.nodes) × (load h x.index ≡ some a) × (shard_for h ≡ i))
        ⊎ ((length x.nodes ≤ a)
            × (get_elem? (all_nodes shards) (a - length x.nodes) ≡ some h)
            × (i < shard_for h))
  first_place a e = elim (Bool-cases (ltb a (length x.nodes))) [
    | inl here ↦
        let e' : get_elem? x.nodes a ≡ some h =
          ground (arith, get_elem?-append x.nodes (all_nodes shards) a) in
        let c = Occurs-shard_contains h x ok.0 (a, e') in
        inl (ground arith, ok.0.placed h a e', ok.1 h c)
    | inr there ↦
        let e' : get_elem? (all_nodes shards) (a - length x.nodes) ≡ some h =
          ground (arith, get_elem?-append x.nodes (all_nodes shards) a) in
        let (k, s, _, _, p) = all_nodes-shard h (suc i) shards ok.2 (a - length x.nodes, e') in
        inr (ground arith, e', omega (arith, p))
  ]

all_nodes-distinct :
    (h : Hash) (i : ℕ) (shards : List Shard)
    → ShardsOk i shards
    → (a b : ℕ) → get_elem? (all_nodes shards) a ≡ some h
    → get_elem? (all_nodes shards) b ≡ some h
    → a ≡ b
unfolding all_nodes
all_nodes-distinct h i [] ok a b e e' = absurd (ground arith)
all_nodes-distinct h i (x ∷ shards) ok a b e e' = ground (
  arith,
  first_place h i x shards ok a e,
  first_place h i x shards ok b e',
  all_nodes-distinct h (suc i) shards ok.2 (a - length x.nodes) (b - length x.nodes),
)

new_shards-ShardsOk : (i n : ℕ) → ShardsOk i (new_shards n)
unfolding new_shards shard_contains load
new_shards-ShardsOk i zero = tt
new_shards-ShardsOk i (suc n) = (
  record {
    distinct = tt;
    found = λ h j e. absurd (ground arith);
    placed = λ h j e. absurd (ground arith);
  },
  λ h c. absurd (ground arith),
  new_shards-ShardsOk (suc i) n,
)

clear_shards-new : (shards : List Shard) → clear_shards shards ≡ new_shards (length shards)
unfolding clear_shards new_shards
clear_shards-new [] = refl
clear_shards-new (s ∷ shards) = ap (◌∷◌ new_shard) (clear_shards-new shards)

-- `Clear` leaves the view as `NewRoutableView` makes it.
pub clear-new : (v : RoutableView) → IsValid v → clear v ≡ new_routable_view
unfolding clear new_routable_view
clear-new v valid = rw (clear_shards-new v.shards, valid.full)

pub new-IsValid : IsValid new_routable_view
unfolding new_routable_view new_shards all_nodes
new-IsValid = record { ok = new_shards-ShardsOk 0 num_shards; full = refl; total = refl }

module _ (v : RoutableView) (valid : IsValid v) where
  -- `RandomPick` fails only on an empty view, and else returns the hash at place draw % total of
  -- the order in which `Range` visits them: each place is picked by the same share of the draws.
  pub random_pick_lem :
      (draw : ℕ)
      → random_pick v draw
        ≡ (if length (range v) == 0 then none else get_elem? (range v) (draw % length (range v)))
  unfolding random_pick range
  random_pick_lem draw = rw (valid.total, random_pick, pick_from-get_elem? v.shards)

  -- On a view that is not empty `RandomPick` returns one of its hashes.
  pub random_pick-some :
      (draw : ℕ) → range v ≢ [] → (h : Hash) × (random_pick v draw ≡ some h) × (contains v h ≡ true)
  random_pick-some draw ne =
      let n = length (range v) in
      let positive : 0 < n = length_pos (range v) ne in
      let (h, e) = get_elem?_in_range (range v) (draw % n) (omega arith) in
      (h, ground (arith, random_pick_lem draw), (contains-range v valid h).1 (draw % n, e))

  -- `Range` visits no hash twice.
  pub range-distinct :
      (i j : ℕ) (h : Hash) → get_elem? (range v) i ≡ some h → get_elem? (range v) j ≡ some h → i ≡ j
  unfolding range
  range-distinct i j h e e' = all_nodes-distinct h 0 v.shards valid.ok i j e e'
