-- ===== src/Topology/Pool/Lookup/Holders.antt =====
-- internal/topology/pool.go: `ResolveNodeDisplayTag` takes the smallest tag of the first holder.
use resin.Prelude.{
  String, Bool, true, false, Option, none, some, List, [], ◌∷◌, if◌then◌else◌, string_key, ◌≡◌,
  refl, arith, Bool-cases, inl, inr, ◌⊎◌, All, ◌∙◌, sym, subst, ap, nat_key,
}
use resin.Prelude.Int.{int_key}
use resin.Prelude.Text.{ltb_text, ltb_text_irrefl, ltb_text_asymm, ltb_text_negtrans}
use resin.Node.Hash.{Hash}
use resin.Node.Entry.{member}
use resin.Subscription.{Subscription}
use resin.Topology.Pool.Lookup.{Holder, smallest_tag, holder_of, is_before, keep_first, pick_holder}

-- No tag of the list is smaller than the one chosen, which is one of them.
pub smallest_tag_lem :
    (tag : String) (tags : List String)
    → let s = smallest_tag tag tags in All (λ t. ltb_text t s ≡ false) (tag ∷ tags)
unfolding smallest_tag
smallest_tag_lem tag [] = (ltb_text_irrefl tag, tt)
smallest_tag_lem tag (t ∷ tags) = elim (Bool-cases (ltb_text t tag)) [
  | inl less ↦
      let (here, rest) = smallest_tag_lem t tags in
      subst (λ s. All (λ u. ltb_text u s ≡ false) (tag ∷ t ∷ tags))
        (sym (ap (λ (b : Bool). smallest_tag (if b then t else tag) tags) less))
        (
          ltb_text_negtrans (smallest_tag t tags) t tag here (ltb_text_asymm t tag less),
          (here, rest),
        )
  | inr more ↦
      let (here, rest) = smallest_tag_lem tag tags in
      subst (λ s. All (λ u. ltb_text u s ≡ false) (tag ∷ t ∷ tags))
        (sym (ap (λ (b : Bool). smallest_tag (if b then t else tag) tags) more))
        (here, (ltb_text_negtrans (smallest_tag tag tags) tag t here more, rest))
]

pub smallest_tag-member :
    (tag : String) (tags : List String) → member (smallest_tag tag tags) (tag ∷ tags) ≡ true
unfolding smallest_tag member string_key
smallest_tag-member tag [] = ground arith
smallest_tag-member tag (t ∷ tags) = elim (Bool-cases (ltb_text t tag)) [
  | inl less ↦
      let there = smallest_tag-member t tags in
      let same = ap (λ (b : Bool). smallest_tag (if b then t else tag) tags) less in
      ground (arith, there, less)
  | inr more ↦ let there = smallest_tag-member tag tags in ground (arith, there, more)
]

is_before_irrefl : (a : Holder) → is_before a a ≡ false
unfolding is_before
is_before_irrefl a = ground (arith, ltb_text_irrefl a.sub_id)

is_before_asymm : (a b : Holder) → is_before a b ≡ true → is_before b a ≡ false
unfolding is_before
is_before_asymm a b h = ground (arith, ltb_text_asymm a.sub_id b.sub_id)

is_before_negtrans :
    (a b c : Holder) → is_before b a ≡ false → is_before c b ≡ false → is_before c a ≡ false
unfolding is_before
is_before_negtrans a b c p q = ground (arith, ltb_text_negtrans a.sub_id b.sub_id c.sub_id)

-- No holder `c` is before the result.
abbrev pub Precedes : Option Holder → Option Holder → Type 0
Precedes r none = Unit
Precedes none (some c) = ⊥
Precedes (some b) (some c) = is_before c b ≡ false

Precedes-keep_first :
    (r best o : Option Holder) → Precedes r (keep_first best o) → Precedes r best × Precedes r o
unfolding keep_first
Precedes-keep_first r best none p = (p, tt)
Precedes-keep_first r none (some c) p = (tt, p)
Precedes-keep_first none (some b) (some c) p = elim (Bool-cases (is_before c b)) [
  | inl less ↦ let impossible : ⊥ = rw less at p in elim impossible [ ]
  | inr more ↦ let impossible : ⊥ = rw more at p in elim impossible [ ]
]
Precedes-keep_first (some a) (some b) (some c) p = elim (Bool-cases (is_before c b)) [
  | inl less ↦
      let q : is_before c a ≡ false = rw less at p in
      (is_before_negtrans a c b q (is_before_asymm c b less), q)
  | inr more ↦ let q : is_before b a ≡ false = rw more at p in (q, is_before_negtrans a b c q more)
]

module _ (lookup : String → Option Subscription) (h : Hash) (enabled_only : Bool) where
  abbrev pub offer : String → Option Holder
  offer id = holder_of lookup h enabled_only id

  pick-Precedes :
      (ids : List String) (best : Option Holder)
      → let r = pick_holder lookup h enabled_only ids best in
        Precedes r best × All (λ id. Precedes r (offer id)) ids
  unfolding pick_holder
  pick-Precedes [] none = (tt, tt)
  pick-Precedes [] (some b) = (is_before_irrefl b, tt)
  pick-Precedes (id ∷ ids) best =
      let (kept, rest) = pick-Precedes ids (keep_first best (offer id)) in
      let r = pick_holder lookup h enabled_only ids (keep_first best (offer id)) in
      let (before, here) = Precedes-keep_first r best (offer id) kept in (before, (here, rest))

  keep_first-either :
      (best o : Option Holder) → (keep_first best o ≡ best) ⊎ (keep_first best o ≡ o)
  unfolding keep_first
  keep_first-either best none = inl refl
  keep_first-either none (some c) = inr refl
  keep_first-either (some b) (some c) = elim (Bool-cases (is_before c b)) [
    | inl less ↦ inr (ground (arith, less))
    | inr more ↦ inl (ground (arith, more))
  ]

  -- some subscription of the list offers the holder
  abbrev pub IsOffered : List String → Option Holder → Type 0
  IsOffered ids r = (id : String) × (member id ids ≡ true) × (offer id ≡ r)

  pick_origin :
      (ids : List String) (best : Option Holder)
      → let r = pick_holder lookup h enabled_only ids best in (r ≡ best) ⊎ IsOffered ids r
  unfolding pick_holder member
  pick_origin [] best = inl refl
  pick_origin (id ∷ ids) best = elim (pick_origin ids (keep_first best (offer id))) [
    | inr (other, there, at) ↦ inr (other, ground (arith, there), at)
    | inl e ↦ elim (keep_first-either best (offer id)) [
      | inl old ↦ inl (e ∙ old)
      | inr new ↦ inr (id, ground arith, sym (e ∙ new))
    ]
  ]

  -- The holder that is picked is offered, and no offered one is before it.
  pub pick_holder_cases :
      (ids : List String)
      → let r = pick_holder lookup h enabled_only ids none in
        ((r ≡ none) ⊎ IsOffered ids r) × All (λ id. Precedes r (offer id)) ids
  pick_holder_cases ids = (pick_origin ids none, (pick-Precedes ids none).1)
