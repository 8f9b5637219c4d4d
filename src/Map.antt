-- ===== src/Map.antt =====
-- Go's maps and `xsync.Map` with its atomic `Compute`: association lists with distinct keys. The
-- order of the entries stands for the order in which one `range` visits them.
pub mod Laws
pub mod Counts
use resin.Prelude.{ℕ, ◌+◌, Bool, Option, none, some, List, [], ◌∷◌, Key, ◌==◌, if◌then◌else◌, ◌≡◌}

abbrev pub Map {ℓ} : Type ℓ → Type ℓ → Type ℓ
Map K V = List (K × V)

-- What the function passed to `Compute` decides.
pub data ComputeOp {ℓ} (V : Type ℓ) : Type ℓ where
  update : V → ComputeOp V
  delete cancel : ComputeOp V

module _ {ℓ} {K V : Type ℓ} ⦃key : Key K⦄ where
  -- v, ok := m[k]
  unfoldable pub load : K → Map K V → Option V
  load k [] = none
  load k ((j, v) ∷ m) = if j == k then some v else load k m

  -- m[k] = v
  unfoldable pub store : K → V → Map K V → Map K V
  store k v [] = (k, v) ∷ []
  store k v ((j, w) ∷ m) = if j == k then (k, v) ∷ m else (j, w) ∷ store k v m

  -- delete(m, k)
  unfoldable pub remove : K → Map K V → Map K V
  remove k [] = []
  remove k ((j, w) ∷ m) = if j == k then m else (j, w) ∷ remove k m

  unfoldable pub perform : K → ComputeOp V → Map K V → Map K V
  perform k (update v) m = store k v m
  perform k delete m = remove k m
  perform k cancel m = m

  -- No key has two entries.
  abbrev pub Distinct : Map K V → Type ℓ
  Distinct [] = Unit
  Distinct ((k, v) ∷ m) = (load k m ≡ none) × Distinct m

module _ {ℓ} {K V : Type ℓ} where
  -- The entries that a test of the value keeps, as `delete` in a `range` leaves them.
  unfoldable pub retain : (V → Bool) → Map K V → Map K V
  retain p [] = []
  retain p ((k, v) ∷ m) = if p v then (k, v) ∷ retain p m else retain p m

  unfoldable pub count : (V → Bool) → Map K V → ℕ
  count p [] = 0
  count p ((k, v) ∷ m) = (if p v then 1 else 0) + count p m

  abbrev pub keys : Map K V → List K
  keys [] = []
  keys ((k, v) ∷ m) = k ∷ keys m
