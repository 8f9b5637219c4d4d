-- ===== src/Platform/View/Sharding.antt =====
-- internal/platform/routableview.go: the 64 shards together, and their total.
use resin.Prelude.{
  ℕ, zero, suc, ◌+◌, ◌<◌, true, false, some, List, [], ◌∷◌, ◌==◌, eqb, length, get_elem?,
  if◌then◌else◌, nat_key, arith, ◌≡◌, refl, length-append, ◌∙◌, subst, some-injective,
  get_elem?_in_range, ◌⊎◌,
}
use resin.Prelude.Int.{pos, ◌+ℤ◌, ◌-ℤ◌}
use resin.Node.Hash.{Hash}
use resin.Platform.View.{
  Shard, RoutableView, shard_for, on_shard, add_shard, remove_shard, add, remove_hash, contains,
  shard_contains, all_nodes, num_shards,
}
use resin.Platform.View.Index.{
  IsIndexed, add_shard-IsIndexed, remove_shard-IsIndexed, load-add_shard, load-remove_shard,
  length-add_shard, length-remove_shard,
}

-- Every shard, from the one with number `i` on, is indexed and holds hashes of its own only.
abbrev pub ShardsOk : ℕ → List Shard → Type 0
ShardsOk i [] = Unit {0}
ShardsOk i (s ∷ shards) =
    IsIndexed s
    × ((h : Hash) → shard_contains h s ≡ true → shard_for h ≡ i)
    × ShardsOk (suc i) shards

pub record IsValid (v : RoutableView) : Type 0 where
  pub ok : ShardsOk 0 v.shards
  pub full : length v.shards ≡ num_shards
  pub total : v.size ≡ pos (length (all_nodes v.shards))

pub shard_for-lt : (h : Hash) → shard_for h < num_shards
unfolding shard_for
shard_for-lt h = omega arith

module _ (f : Shard → Shard × ℕ) where
  get_elem?-on_shard :
      (k j : ℕ) (shards : List Shard) (s : Shard)
      → get_elem? shards k ≡ some s
      → get_elem? (on_shard f k shards).0 j ≡ (if eqb k j then some (f s).0 else get_elem? shards j)
  unfolding on_shard
  get_elem?-on_shard k j [] s e = absurd (ground arith)
  get_elem?-on_shard zero zero (x ∷ shards) s e = ground arith
  get_elem?-on_shard zero (suc j) (x ∷ shards) s e = ground arith
  get_elem?-on_shard (suc k) zero (x ∷ shards) s e = ground arith
  get_elem?-on_shard (suc k) (suc j) (x ∷ shards) s e =
      ground (arith, get_elem?-on_shard k j shards s e)

  length-on_shard : (k : ℕ) (shards : List Shard) → length (on_shard f k shards).0 ≡ length shards
  unfolding on_shard
  length-on_shard k [] = refl
  length-on_shard zero (x ∷ shards) = refl
  length-on_shard (suc k) (x ∷ shards) = ground (arith, length-on_shard k shards)

  on_shard-ShardsOk :
      (i k : ℕ) (shards : List Shard)
      → ((s : Shard) → IsIndexed s → IsIndexed (f s).0)
      → ((s : Shard) (h : Hash)
          → IsIndexed s
          → shard_contains h (f s).0 ≡ true
          → (shard_contains h s ≡ true) ⊎ (shard_for h ≡ i + k))
      → ShardsOk i shards
      → ShardsOk i (on_shard f k shards).0
  unfolding on_shard
  on_shard-ShardsOk i k [] keeps adds ok = tt
  on_shard-ShardsOk i zero (x ∷ shards) keeps adds ok =
      (keeps x ok.0, λ h c. ground (arith, adds x h ok.0 c, ok.1 h), ok.2)
  on_shard-ShardsOk i (suc k) (x ∷ shards) keeps adds ok = (
    ok.0,
    ok.1,
    on_shard-ShardsOk (suc i) k shards keeps (λ s h v c. ground (arith, adds s h v c)) ok.2,
  )

module _ (h : Hash) where
  length-add :
      (i k : ℕ) (shards : List Shard)
      → ShardsOk i shards
      → length (all_nodes (on_shard (add_shard h) k shards).0)
        ≡ length (all_nodes shards) + (on_shard (add_shard h) k shards).1
  unfolding on_shard all_nodes
  length-add i k [] ok = omega arith
  length-add i zero (x ∷ shards) ok = omega (
    arith,
    length-append x.nodes (all_nodes shards),
    length-append (add_shard h x).0.nodes (all_nodes shards),
    length-add_shard h x ok.0,
  )
  length-add i (suc k) (x ∷ shards) ok = omega (
    arith,
    length-append x.nodes (all_nodes shards),
    length-append x.nodes (all_nodes (on_shard (add_shard h) k shards).0),
    length-add (suc i) k shards ok.2,
  )

  length-remove :
      (i k : ℕ) (shards : List Shard)
      → ShardsOk i shards
      → length (all_nodes (on_shard (remove_shard h) k shards).0)
          + (on_shard (remove_shard h) k shards).1
        ≡ length (all_nodes shards)
  unfolding on_shard all_nodes
  length-remove i k [] ok = omega arith
  length-remove i zero (x ∷ shards) ok = omega (
    arith,
    length-append x.nodes (all_nodes shards),
    length-append (remove_shard h x).0.nodes (all_nodes shards),
    length-remove_shard h x ok.0,
  )
  length-remove i (suc k) (x ∷ shards) ok = omega (
    arith,
    length-append x.nodes (all_nodes shards),
    length-append x.nodes (all_nodes (on_shard (remove_shard h) k shards).0),
    length-remove (suc i) k shards ok.2,
  )

pub ShardsOk-at :
    (i k : ℕ) (shards : List Shard) (s : Shard)
    → ShardsOk i shards
    → get_elem? shards k ≡ some s
    → IsIndexed s
ShardsOk-at i k [] s ok e = absurd (ground arith)
ShardsOk-at i zero (x ∷ shards) s ok e = subst IsIndexed (some-injective _ _ e) ok.0
ShardsOk-at i (suc k) (x ∷ shards) s ok e = ShardsOk-at (suc i) k shards s ok.2 e

module _ (v : RoutableView) (valid : IsValid v) (h : Hash) where
  home : (q : Hash) → (s : Shard) × (get_elem? v.shards (shard_for q) ≡ some s)
  home q = get_elem?_in_range v.shards (shard_for q) (omega (arith, shard_for-lt q, valid.full))

  -- `Add` keeps the view valid.
  pub add-IsValid : IsValid (add v h)
  unfolding add ◌+ℤ◌
  add-IsValid = record {
    ok =
        on_shard-ShardsOk (add_shard h) 0 (shard_for h) v.shards (add_shard-IsIndexed h)
          (λ s q x c. ground (arith, load-add_shard h s x q)) valid.ok;
    full = length-on_shard (add_shard h) (shard_for h) v.shards ∙ valid.full;
    total = ground (arith, valid.total, length-add h 0 (shard_for h) v.shards valid.ok);
  }

  -- `Remove` keeps the view valid: in every shard the index and the list agree, each hash is in
  -- its own shard, and the total is exact.
  pub remove_hash-IsValid : IsValid (remove_hash v h)
  unfolding remove_hash ◌-ℤ◌
  remove_hash-IsValid = record {
    ok =
        on_shard-ShardsOk (remove_shard h) 0 (shard_for h) v.shards (remove_shard-IsIndexed h)
          (λ s q x c. ground (arith, load-remove_shard h s x q)) valid.ok;
    full = length-on_shard (remove_shard h) (shard_for h) v.shards ∙ valid.full;
    total = ground (arith, valid.total, length-remove h 0 (shard_for h) v.shards valid.ok);
  }

  -- After `Add` a valid view has that hash and what it had.
  pub contains-add : (q : Hash) → contains (add v h) q ≡ (if h == q then true else contains v q)
  unfolding add contains
  contains-add q =
      let (s, e) = home h in
      let (s', e') = home q in
      ground (
        arith,
        e,
        e',
        get_elem?-on_shard (add_shard h) (shard_for h) (shard_for q) v.shards s e,
        load-add_shard h s (ShardsOk-at 0 (shard_for h) v.shards s valid.ok e) q,
      )

  -- After `Remove` a valid view has all hashes that it had but that one.
  pub contains-remove_hash :
      (q : Hash) → contains (remove_hash v h) q ≡ (if h == q then false else contains v q)
  unfolding remove_hash contains
  contains-remove_hash q =
      let (s, e) = home h in
      let (s', e') = home q in
      ground (
        arith,
        e,
        e',
        get_elem?-on_shard (remove_shard h) (shard_for h) (shard_for q) v.shards s e,
        load-remove_shard h s (ShardsOk-at 0 (shard_for h) v.shards s valid.ok e) q,
      )
