-- ===== src/Map/Counts.antt =====
-- How many entries of a map pass a test, after each write.
use resin.Prelude.{
  ℕ, ◌+◌, ◌≤◌, Bool, true, Option, none, some, [], ◌∷◌, Key, ◌≡◌, refl, arith, length, indicator,
}
use resin.Map.{Map, load, store, remove, retain, count}

-- What an entry, or its absence, adds to a count.
abbrev pub weight {ℓ} : {V : Type ℓ} → (V → Bool) → Option V → ℕ
weight p none = 0
weight p (some v) = indicator (p v)

module _ {ℓ} {K V : Type ℓ} ⦃key : Key K⦄ where
  pub count-store :
      (p : V → Bool) (k : K) (v : V) (m : Map K V)
      → count p (store k v m) + weight p (load k m) ≡ count p m + indicator (p v)
  unfolding load store count
  count-store p k v [] = ground arith
  count-store p k v ((i, w) ∷ m) = ground (arith, count-store p k v m)

  pub count-remove :
      (p : V → Bool) (k : K) (m : Map K V) → count p (remove k m) + weight p (load k m) ≡ count p m
  unfolding load remove count
  count-remove p k [] = ground arith
  count-remove p k ((i, w) ∷ m) = ground (arith, count-remove p k m)

  pub count-store-remove :
      (p : V → Bool) (k : K) (v : V) (m : Map K V)
      → count p (store k v m) ≡ count p (remove k m) + indicator (p v)
  count-store-remove p k v m = omega (arith, count-store p k v m, count-remove p k m)

  pub weight-le-count : (p : V → Bool) (k : K) (m : Map K V) → weight p (load k m) ≤ count p m
  unfolding load count
  weight-le-count p k [] = ground arith
  weight-le-count p k ((i, w) ∷ m) = ground (arith, weight-le-count p k m)

module _ {ℓ} {K V : Type ℓ} where
  pub count-retain-le : (p q : V → Bool) (m : Map K V) → count p (retain q m) ≤ count p m
  unfolding retain count
  count-retain-le p q [] = ground arith
  count-retain-le p q ((i, w) ∷ m) = ground (arith, count-retain-le p q m)

  pub length-retain : (q : V → Bool) (m : Map K V) → length (retain q m) ≡ count q m
  unfolding retain count
  length-retain q [] = refl
  length-retain q ((i, w) ∷ m) = ground (arith, length-retain q m)

  pub count-true-length : (m : Map K V) → count (λ _. true) m ≡ length m
  unfolding count
  count-true-length [] = refl
  count-true-length ((i, w) ∷ m) = ground (arith, count-true-length m)

  pub count-le-length : (p : V → Bool) (m : Map K V) → count p m ≤ length m
  unfolding count
  count-le-length p [] = ground arith
  count-le-length p ((i, w) ∷ m) = ground (arith, count-le-length p m)
