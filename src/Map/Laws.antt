-- ===== src/Map/Laws.antt =====
-- What a read of a map gives after each write.
use resin.Prelude.{
  Bool, false, Option, none, some, [], ◌∷◌, Key, ◌==◌, if◌then◌else◌, ◌≡◌, refl, arith,
}
use resin.Map.{Map, load, store, remove, retain, Distinct}

abbrev pub keep_if {ℓ} : {V : Type ℓ} → (V → Bool) → Option V → Option V
keep_if p none = none
keep_if p (some v) = if p v then some v else none

module _ {ℓ} {K V : Type ℓ} ⦃key : Key K⦄ where
  pub load-store :
      (k j : K) (v : V) (m : Map K V) → load j (store k v m) ≡ (if k == j then some v else load j m)
  unfolding load store
  load-store k j v [] = refl
  load-store k j v ((i, w) ∷ m) = ground (arith, load-store k j v m)

  pub load-remove_ne : (k j : K) (m : Map K V) → (k == j) ≡ false → load j (remove k m) ≡ load j m
  unfolding load remove
  load-remove_ne k j [] h = refl
  load-remove_ne k j ((i, w) ∷ m) h = ground (arith, load-remove_ne k j m h)

  pub load-remove_self : (k : K) (m : Map K V) → Distinct m → load k (remove k m) ≡ none
  unfolding load remove
  load-remove_self k [] d = refl
  load-remove_self k ((i, w) ∷ m) d = ground (arith, load-remove_self k m d.1)

  pub load-remove :
      (k j : K) (m : Map K V)
      → Distinct m
      → load j (remove k m) ≡ (if k == j then none else load j m)
  load-remove k j m d = ground (arith, load-remove_self k m d, load-remove_ne k j m)

  pub store-Distinct : (k : K) (v : V) (m : Map K V) → Distinct m → Distinct (store k v m)
  unfolding load store
  store-Distinct k v [] d = ground arith
  store-Distinct k v ((i, w) ∷ m) d = ground (arith, store-Distinct k v m d.1, load-store k i v m)

  pub remove-Distinct : (k : K) (m : Map K V) → Distinct m → Distinct (remove k m)
  unfolding load remove
  remove-Distinct k [] d = tt
  remove-Distinct k ((i, w) ∷ m) d = ground (arith, remove-Distinct k m d.1, load-remove_ne k i m)

  load-retain-none :
      (p : V → Bool) (k : K) (m : Map K V) → load k m ≡ none → load k (retain p m) ≡ none
  unfolding load retain
  load-retain-none p k [] h = refl
  load-retain-none p k ((i, w) ∷ m) h = ground (arith, load-retain-none p k m)

  pub load-retain :
      (p : V → Bool) (k : K) (m : Map K V) → Distinct m → load k (retain p m) ≡ keep_if p (load k m)
  unfolding load retain
  load-retain p k [] d = refl
  load-retain p k ((i, w) ∷ m) d = ground (arith, load-retain p k m d.1, load-retain-none p k m)

  pub retain-Distinct : (p : V → Bool) (m : Map K V) → Distinct m → Distinct (retain p m)
  unfolding load retain
  retain-Distinct p [] d = tt
  retain-Distinct p ((i, w) ∷ m) d = ground (arith, retain-Distinct p m d.1, load-retain-none p i m)
