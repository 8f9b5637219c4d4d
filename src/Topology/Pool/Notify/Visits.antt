-- ===== src/Topology/Pool/Notify/Visits.antt =====
-- internal/topology/pool.go: one visit of all the registered platforms.
use resin.Prelude.{
  ℕ, String, Bool, true, false, ◌||◌, Option, none, some, List, [], ◌∷◌, ◌==◌, if◌then◌else◌,
  string_key, nat_key, ◌≡◌, refl, arith, Option-cases, Bool-cases, inl, inr, ◌∙◌, subst, sym,
  some-injective,
}
use resin.Map.{Map, load, store}
use resin.Map.Laws.{load-store}
use resin.Platform.{Platform}
use resin.Platform.View.{RoutableView}
use resin.Topology.Pool.{platform_snapshot, on_platforms}

abbrev pub is_visited : ℕ → List ℕ → Bool
is_visited r [] = false
is_visited r (s ∷ rs) = s == r || is_visited r rs

-- A registered object is visited.
pub load-is_visited :
    (m : Map String ℕ) (id : String) (r : ℕ)
    → load id m ≡ some r
    → is_visited r (platform_snapshot m) ≡ true
unfolding load platform_snapshot
load-is_visited [] id r h = absurd (ground arith)
load-is_visited ((k, s) ∷ m) id r h = ground (arith, load-is_visited m id r)

module _ (f : Platform RoutableView → Platform RoutableView) where
  -- the objects after the visit of one
  abbrev after : ℕ → Map ℕ (Platform RoutableView) → Map ℕ (Platform RoutableView)
  after s ps = elim (load s ps) [ none ↦ ps | some p ↦ store s (f p) ps ]

  load-after :
      (r s : ℕ) (ps : Map ℕ (Platform RoutableView))
      → load r (after s ps)
        ≡ (if s == r then elim (load r ps) [ none ↦ none | some p ↦ some (f p) ] else load r ps)
  load-after r s ps = elim (Option-cases (load s ps)) [
    | inl e ↦ rw (e, after) (ground (arith, e))
    | inr (p, e) ↦ rw (e, after) (ground (arith, e, load-store s r (f p) ps))
  ]

  after-at :
      (P Q : Platform RoutableView → Type 0)
      → ((p : Platform RoutableView) → P p → Q (f p))
      → (s : ℕ) (ps : Map ℕ (Platform RoutableView))
      → ((p : Platform RoutableView) → load s ps ≡ some p → P p)
      → (p : Platform RoutableView) → load s (after s ps) ≡ some p
      → Q p
  after-at P Q gain s ps h p e = elim (Option-cases (load s ps)) [
    | inl none_there ↦ absurd (ground (arith, load-after s s ps))
    | inr (p0, e0) ↦
        let same : some (f p0) ≡ some p = ground (arith, load-after s s ps, e0) in
        subst Q (some-injective _ _ same) (gain p0 (h p0 e0))
  ]

  after-others :
      (r s : ℕ) (ps : Map ℕ (Platform RoutableView))
      → s == r ≡ false
      → load r (after s ps) ≡ load r ps
  after-others r s ps other = ground (arith, load-after r s ps)

  -- What the function keeps, the visit keeps of each object.
  pub on_platforms-keeps :
      (P : Platform RoutableView → Type 0)
      → ((p : Platform RoutableView) → P p → P (f p))
      → (rs : List ℕ) (ps : Map ℕ (Platform RoutableView)) (r : ℕ)
      → ((p : Platform RoutableView) → load r ps ≡ some p → P p)
      → (p : Platform RoutableView) → load r (on_platforms f rs ps) ≡ some p
      → P p
  unfolding on_platforms
  on_platforms-keeps P keep [] ps r h p e = h p e
  on_platforms-keeps P keep (s ∷ rs) ps r h p e =
      on_platforms-keeps P keep rs (after s ps) r
        (λ q at. elim (Bool-cases (s == r)) [
          | inl here ↦
              let same : s ≡ r = ground (arith, here) in
              after-at P P keep s ps (λ p0 e0. h p0 (subst (λ t. load t ps ≡ some p0) same e0)) q
                (subst (λ t. load t (after s ps) ≡ some q) (sym same) at)
          | inr other ↦ h q (sym (after-others r s ps other) ∙ at)
        ])
        p e

  -- What the function establishes and then keeps, holds of each object that is visited.
  pub on_platforms-gains :
      (P Q : Platform RoutableView → Type 0)
      → ((p : Platform RoutableView) → P p → Q (f p))
      → ((p : Platform RoutableView) → Q p → P p)
      → (rs : List ℕ) (ps : Map ℕ (Platform RoutableView)) (r : ℕ) → is_visited r rs ≡ true
      → ((p : Platform RoutableView) → load r ps ≡ some p → P p)
      → (p : Platform RoutableView) → load r (on_platforms f rs ps) ≡ some p
      → Q p
  unfolding on_platforms
  on_platforms-gains P Q gain weaken [] ps r v h p e = absurd (ground arith)
  on_platforms-gains P Q gain weaken (s ∷ rs) ps r v h p e = elim (Bool-cases (s == r)) [
    | inl here ↦
        let same : s ≡ r = ground (arith, here) in
        on_platforms-keeps Q (λ p q. gain p (weaken p q)) rs (after s ps) r
          (λ q at.
            after-at P Q gain s ps (λ p0 e0. h p0 (subst (λ t. load t ps ≡ some p0) same e0)) q
              (subst (λ t. load t (after s ps) ≡ some q) (sym same) at))
          p e
    | inr other ↦
        on_platforms-gains P Q gain weaken rs (after s ps) r (ground (arith, other))
          (λ q at. h q (sym (after-others r s ps other) ∙ at)) p e
  ]

-- A text of an object, if there is one.
abbrev pub text_at :
    (Platform RoutableView → String) → Option (Platform RoutableView) → Option String
text_at field none = none
text_at field (some p) = some (field p)

module _ (f : Platform RoutableView → Platform RoutableView)
    (field : Platform RoutableView → String)
    (same : (p : Platform RoutableView) → field (f p) ≡ field p) where
  text_at-after :
      (r s : ℕ) (ps : Map ℕ (Platform RoutableView))
      → text_at field (load r (after f s ps)) ≡ text_at field (load r ps)
  text_at-after r s ps = elim (Option-cases (load r ps)) [
    | inl e ↦ ground (arith, load-after f r s ps, e)
    | inr (p, e) ↦ ground (arith, load-after f r s ps, e, same p)
  ]

  -- A field that the function leaves alone stays at every address.
  pub text_at-on_platforms :
      (rs : List ℕ) (ps : Map ℕ (Platform RoutableView)) (r : ℕ)
      → text_at field (load r (on_platforms f rs ps)) ≡ text_at field (load r ps)
  unfolding on_platforms
  text_at-on_platforms [] ps r = refl
  text_at-on_platforms (s ∷ rs) ps r =
      text_at-on_platforms rs (after f s ps) r ∙ text_at-after r s ps
