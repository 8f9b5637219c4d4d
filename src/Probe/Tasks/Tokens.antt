-- ===== src/Probe/Tasks/Tokens.antt =====
-- internal/probe/manager.go: which tasks have a token in the queue.
use resin.Prelude.{
  ℕ, Bool, true, false, ◌&&◌, ◌||◌, List, [], ◌∷◌, ◌++◌, ◌==◌, ◌≡◌, refl, arith, Bool-cases, inl,
  inr, sym, ◌∙◌, subst, ap,
}
use resin.Probe.Queue.{
  Priority, normal, high, TaskQueue, Dequeued, took, enqueue, dequeue, stop_drop_pending,
}
use resin.Probe.Queue.Promise.{
  put, take, Answer, accepted, got, Pending, step, answer_of, promised, promised_take, Refines,
  Follows,
}
use resin.Probe.Queue.Order.{put-Follows, halt-Follows, take-Follows}
use resin.Probe.Tasks.{TaskKey, task_key}

abbrev pub has : TaskKey → List TaskKey → Bool
has k [] = false
has k (x ∷ xs) = x == k || has k xs

has_snoc : (k t : TaskKey) (xs : List TaskKey) → has k (xs ++ t ∷ []) ≡ has k xs || t == k
has_snoc k t [] = ground arith
has_snoc k t (x ∷ xs) = ground (arith, has_snoc k t xs)

-- The task has a token in one of the two lists.
abbrev pub is_waiting : TaskKey → Pending TaskKey → Bool
is_waiting k p = has k p.urgent || has k p.regular

module _ (hc nc : ℕ) where
  promised_put :
      (p : Pending TaskKey) (t k : TaskKey) (priority : Priority) (ok : Bool)
      → accepted ok ≡ (promised hc nc p (put t priority)).0
      → ((promised hc nc p (put t priority)).1.is_closed ≡ p.is_closed)
        × (is_waiting k (promised hc nc p (put t priority)).1 ≡ is_waiting k p || (ok && t == k))
  promised_put p t k high ok e = ground (arith, e, has_snoc k t p.urgent)
  promised_put p t k normal ok e = ground (arith, e, has_snoc k t p.regular)

  promised_got :
      (us rs : List TaskKey) (t k : TaskKey) (choose : Bool)
      → got t ≡ (promised_take us rs choose).0
      → ((promised_take us rs choose).1.is_closed ≡ false)
        × (has t us || has t rs ≡ true)
        × (t == k ≡ false → is_waiting k (promised_take us rs choose).1 ≡ has k us || has k rs)
  promised_got [] [] t k choose e = ground (arith, e)
  promised_got [] (r ∷ rs) t k choose e = ground (arith, e)
  promised_got (u ∷ us) [] t k choose e = ground (arith, e)
  promised_got (u ∷ us) (r ∷ rs) t k true e = ground (arith, e)
  promised_got (u ∷ us) (r ∷ rs) t k false e = ground (arith, e)

  module _ (q : TaskQueue TaskKey) (p : Pending TaskKey) (k : Refines hc nc q p) where
    -- An accepted task has a token now, and the other tasks what they had.
    pub enqueue_tokens :
        (t : TaskKey) (priority : Priority)
        → let (q', ok) = enqueue q t priority in
          (p' : Pending TaskKey) × Refines hc nc q' p'
          × (p'.is_closed ≡ p.is_closed)
          × ((j : TaskKey) → is_waiting j p' ≡ is_waiting j p || (ok && t == j))
    unfolding step
    enqueue_tokens t priority =
        let (same, goes) = put-Follows hc nc q p k t priority in
        let ok = (enqueue q t priority).1 in
        (
          (promised hc nc p (put t priority)).1,
          goes,
          (promised_put p t t priority ok same).0,
          λ j. (promised_put p t j priority ok same).1,
        )

    -- A task that is taken had a token; the other tasks keep theirs.
    pub dequeue_tokens :
        (choose : Bool) (t : TaskKey) (q' : TaskQueue TaskKey)
        → dequeue q choose ≡ took t q'
        → (p' : Pending TaskKey) × Refines hc nc q' p'
          × (p'.is_closed ≡ p.is_closed)
          × (is_waiting t p ≡ true)
          × ((j : TaskKey) → t == j ≡ false → is_waiting j p' ≡ is_waiting j p)
    unfolding step
    dequeue_tokens choose t q' e =
        let follows =
          subst
            (λ (d : Dequeued TaskKey).
              Follows hc nc (answer_of q d) (promised hc nc p (take choose)))
            e (take-Follows hc nc q choose p.is_closed p.urgent p.regular k) in
        by_closed follows
      where
        by_closed :
            Follows hc nc (got t, q') (promised hc nc p (take choose))
            → (p' : Pending TaskKey) × Refines hc nc q' p'
              × (p'.is_closed ≡ p.is_closed)
              × (is_waiting t p ≡ true)
              × ((j : TaskKey) → t == j ≡ false → is_waiting j p' ≡ is_waiting j p)
        by_closed (same, goes) = elim (Bool-cases p.is_closed) [
          | inl shut ↦ absurd (ground (arith, same, shut))
          | inr open_ ↦
              let e' : promised hc nc p (take choose) ≡ promised_take p.urgent p.regular choose =
                simp open_ in
              let got_it : got t ≡ (promised_take p.urgent p.regular choose).0 =
                same ∙ ap (λ a. a.0) e' in
              let (closed_same, there, others) =
                promised_got p.urgent p.regular t t choose got_it in
              (
                (promised_take p.urgent p.regular choose).1,
                subst (λ (a : Answer TaskKey × Pending TaskKey). Refines hc nc q' a.1) e' goes,
                closed_same ∙ sym open_,
                there,
                λ j. (promised_got p.urgent p.regular t j choose got_it).2,
              )
        ]

    pub stop_tokens :
        (p' : Pending TaskKey) × Refines hc nc (stop_drop_pending q) p' × (p'.is_closed ≡ true)
    unfolding step
    stop_tokens = let (same, goes) = halt-Follows hc nc q p k in (_, goes, refl)
