-- ===== src/Probe/Queue/Contents.antt =====
-- internal/probe/manager.go: what a `probeTaskBuffer` holds, and how much room it takes.
use resin.Prelude.{
  ℕ, zero, suc, ◌+◌, ◌-◌, ◌*◌, ◌≤◌, ◌<◌, false, some, List, [], ◌∷◌, ◌++◌, ltb, leb, length,
  get_elem?, ◌≡◌, refl, sym, ap, arith, inl, inr, ◌⊎◌, Bool-cases, ◌&&◌, ◌∙◌,
}
use resin.Probe.Queue.{Buffer, new_buffer, buffer_len, push, compact, pop, drop}

length_snoc : {A : Type 0} → (xs : List A) (a : A) → length (xs ++ a ∷ []) ≡ length xs + 1
length_snoc [] a = refl
length_snoc (x ∷ xs) a = ground (arith, length_snoc xs a)

module _ {T : Type 0} where
  length-drop : (n : ℕ) (xs : List T) → length (drop n xs) ≡ length xs - n
  unfolding drop
  length-drop zero xs = omega arith
  length-drop (suc n) [] = omega arith
  length-drop (suc n) (x ∷ xs) = length-drop n xs ∙ omega arith

  drop_snoc :
      (n : ℕ) (xs : List T) (a : T) → n ≤ length xs → drop n (xs ++ a ∷ []) ≡ drop n xs ++ a ∷ []
  unfolding drop
  drop_snoc zero xs a le = refl
  drop_snoc (suc n) [] a le = absurd (omega arith)
  drop_snoc (suc n) (x ∷ xs) a le = drop_snoc n xs a (omega arith)

  drop_all : (n : ℕ) (xs : List T) → length xs ≤ n → drop n xs ≡ []
  unfolding drop
  drop_all zero [] le = refl
  drop_all zero (x ∷ xs) le = absurd (omega arith)
  drop_all (suc n) [] le = refl
  drop_all (suc n) (x ∷ xs) le = drop_all n xs (omega arith)

  drop_next :
      (n : ℕ) (xs rest : List T) (a : T)
      → drop n xs ≡ a ∷ rest
      → (get_elem? xs n ≡ some a) × (drop (suc n) xs ≡ rest)
  unfolding drop
  drop_next zero [] rest a e = absurd (ground (arith, e))
  drop_next zero (x ∷ xs) rest a e = ground (arith, e)
  drop_next (suc n) [] rest a e = absurd (ground (arith, e))
  drop_next (suc n) (x ∷ xs) rest a e = drop_next n xs rest a e

  -- the tasks that wait, the next one first
  abbrev pub contents : Buffer T → List T
  contents b = drop b.head b.items

  -- The head is in the slice, and the part before it is short.
  pub record IsCompact (b : Buffer T) : Type 0 where
    pub in_range : b.head ≤ length b.items
    pub waste : (b.head ≤ 64) ⊎ (b.head * 2 < length b.items)

  pub new_buffer-IsCompact : IsCompact new_buffer
  new_buffer-IsCompact = record { in_range = omega arith; waste = inl (omega arith) }

  pub buffer_len_lem : (b : Buffer T) → buffer_len b ≡ length (contents b)
  unfolding buffer_len
  buffer_len_lem b = sym (length-drop b.head b.items)

  pub contents-push :
      (b : Buffer T) (a : T) → IsCompact b → contents (push b a) ≡ contents b ++ a ∷ []
  unfolding push
  contents-push b a k = drop_snoc b.head b.items a k.in_range

  pub push-IsCompact : (b : Buffer T) (a : T) → IsCompact b → IsCompact (push b a)
  unfolding push
  push-IsCompact b a k =
      let more = length_snoc b.items a in
      record {
        in_range = omega (arith, more, k.in_range);
        waste = elim k.waste [ inl few ↦ inl few | inr low ↦ inr (omega (arith, more, low)) ];
      }

  compact_lem : (b : Buffer T) → (contents (compact b) ≡ contents b) × IsCompact (compact b)
  unfolding compact drop
  compact_lem b = elim (Bool-cases (leb (length b.items) b.head)) [
    | inl all ↦ rw all (sym (drop_all b.head b.items (ground (arith, all))), new_buffer-IsCompact)
    | inr some_left ↦ elim (Bool-cases (ltb 64 b.head && leb (length b.items) (b.head * 2))) [
      | inl moved ↦
          rw (some_left, moved) (refl, record { in_range = omega arith; waste = inl (omega arith) })
      | inr stays ↦
          rw (some_left, stays)
            (refl, record { in_range = ground (arith, some_left); waste = ground (arith, stays) })
    ]
  ]

  -- `pop` takes the first waiting task, if there is one.
  pub pop_lem :
      (b : Buffer T) (a : T) (rest : List T)
      → contents b ≡ a ∷ rest
      → (b' : Buffer T) × (pop b ≡ some (a, b')) × (contents b' ≡ rest) × IsCompact b'
  unfolding pop
  pop_lem b a rest e =
      let (found, left) = drop_next b.head b.items rest a e in
      let moved = record b { head = b.head + 1 } in
      let next : b.head + 1 ≡ suc b.head = omega arith in
      let (same, k) = compact_lem moved in
      (compact moved, rw (found, pop) refl, same ∙ ap (λ n. drop n b.items) next ∙ left, k)

  -- The buffer holds these tasks, in room for no more than the capacity.
  pub record Holds (cap : ℕ) (b : Buffer T) (ts : List T) : Type 0 where
    pub same : contents b ≡ ts
    pub is_compact : IsCompact b
    pub bound : length ts ≤ cap

  pub new_buffer-Holds : (cap : ℕ) → Holds cap new_buffer []
  unfolding drop
  new_buffer-Holds cap = record {
    same = refl;
    is_compact = new_buffer-IsCompact;
    bound = omega arith;
  }

  module _ (cap : ℕ) (b : Buffer T) (ts : List T) (k : Holds cap b ts) where
    pub buffer_len-Holds : buffer_len b ≡ length ts
    buffer_len-Holds = buffer_len_lem b ∙ ap length k.same

    pub push-Holds : (t : T) → leb cap (length ts) ≡ false → Holds cap (push b t) (ts ++ t ∷ [])
    push-Holds t fits = record {
      same = contents-push b t k.is_compact ∙ ap (λ us. us ++ t ∷ []) k.same;
      is_compact = push-IsCompact b t k.is_compact;
      bound = ground (arith, length_snoc ts t, fits);
    }

  pub pop-Holds :
      (cap : ℕ) (b : Buffer T) (t : T) (ts : List T)
      → Holds cap b (t ∷ ts)
      → (b' : Buffer T) × (pop b ≡ some (t, b')) × Holds cap b' ts
  pop-Holds cap b t ts k =
      let (b', popped, left, compacted) = pop_lem b t ts k.same in
      (b', popped, record { same = left; is_compact = compacted; bound = ground (arith, k.bound) })
