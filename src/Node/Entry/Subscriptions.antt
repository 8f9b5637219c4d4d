-- ===== src/Node/Entry/Subscriptions.antt =====
-- internal/node/entry.go: the subscriptions that hold a node, as a set.
use resin.Prelude.{
  ◌<◌, String, true, false, ◌||◌, List, [], ◌∷◌, ◌++◌, ◌==◌, if◌then◌else◌, string_key, nat_key,
  ◌≡◌, refl, arith, length, length-append, Bool-cases, inl, inr,
}
use resin.Node.Entry.{NodeEntry, member, add_subscription_id, without_first}

abbrev pub NoRepeats : List String → Type 0
NoRepeats [] = Unit
NoRepeats (x ∷ xs) = (member x xs ≡ false) × NoRepeats xs

member-snoc : (s x : String) (xs : List String) → member s (xs ++ x ∷ []) ≡ (member s xs || x == s)
unfolding member
member-snoc s x [] = ground arith
member-snoc s x (y ∷ xs) = ground (arith, member-snoc s x xs)

NoRepeats-snoc :
    (x : String) (xs : List String) → member x xs ≡ false → NoRepeats xs → NoRepeats (xs ++ x ∷ [])
unfolding member
NoRepeats-snoc x [] new n = (refl, tt)
NoRepeats-snoc x (y ∷ xs) new n =
    (ground (arith, member-snoc y x xs), NoRepeats-snoc x xs (ground arith) n.1)

-- A subscription more, once.
pub add_subscription_id_lem :
    (e : NodeEntry) (sub : String)
    → NoRepeats e.subscription_ids
    → let ids = (add_subscription_id e sub).subscription_ids in
      NoRepeats ids
      × (0 < length ids)
      × ((s : String) → member s ids ≡ (if sub == s then true else member s e.subscription_ids))
unfolding add_subscription_id
add_subscription_id_lem e sub n = elim (Bool-cases (member sub e.subscription_ids)) [
  | inl held ↦
      rw (held, add_subscription_id)
        (n, held-pos e.subscription_ids held, λ s. ground (arith, held))
  | inr new ↦
      rw (new, add_subscription_id)
        (
          NoRepeats-snoc sub e.subscription_ids new n,
          omega (arith, length-append e.subscription_ids (sub ∷ [])),
          λ s. ground (arith, member-snoc s sub e.subscription_ids),
        )
]
  where
    held-pos : (ids : List String) → member sub ids ≡ true → 0 < length ids
    held-pos [] h = absurd (ground arith)
    held-pos (x ∷ xs) h = omega arith

-- One less.
pub member-without_first :
    (s x : String) (xs : List String)
    → NoRepeats xs
    → member s (without_first x xs) ≡ (if x == s then false else member s xs)
unfolding member without_first
member-without_first s x [] n = ground arith
member-without_first s x (y ∷ xs) n = ground (arith, member-without_first s x xs n.1, n.0)

pub without_first-NoRepeats :
    (x : String) (xs : List String) → NoRepeats xs → NoRepeats (without_first x xs)
unfolding member without_first
without_first-NoRepeats x [] n = tt
without_first-NoRepeats x (y ∷ xs) n =
    ground (arith, n, without_first-NoRepeats x xs n.1, member-without_first y x xs n.1)

pub first_holder : (ids : List String) → 0 < length ids → (s : String) × (member s ids ≡ true)
unfolding member
first_holder [] h = absurd (omega arith)
first_holder (x ∷ xs) h = (x, ground arith)
