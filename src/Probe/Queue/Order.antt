-- ===== src/Probe/Queue/Order.antt =====
-- internal/probe/manager.go: `probeTaskQueue` against two plain lists.
use resin.Prelude.{
  ℕ, ◌+◌, ◌*◌, ◌≤◌, Bool, true, false, ◌||◌, ◌&&◌, List, [], ◌∷◌, ltb, leb, length, if◌then◌else◌,
  ◌≡◌, refl, sym, ap, arith, inl, inr, Bool-cases, ◌∙◌, subst,
}
use resin.Probe.Queue.{
  Buffer, buffer_len, TaskQueue, Priority, normal, high, Dequeued, stop, wait, took, new_task_queue,
  enqueue, take_high, take_normal, dequeue, stop_drop_pending,
}
use resin.Probe.Queue.Contents.{Holds, new_buffer-Holds, buffer_len-Holds, push-Holds, pop-Holds}
use resin.Probe.Queue.Promise.{
  Call, put, take, halt, got, waits, closed, Pending, step, answer_of, run, promised_take, promised,
  promised_run, Refines, Follows,
}

module _ {T : Type 0} where
  module _ (hc nc : ℕ) (q : TaskQueue T) (p : Pending T) (k : Refines hc nc q p) where
    refused_as :
        (b : Buffer T) (ts : List T) (cap limit : ℕ)
        → Holds limit b ts
        → cap ≡ limit
        → q.stopped || leb cap (buffer_len b) ≡ p.is_closed || leb limit (length ts)
    refused_as b ts cap limit held same =
        rw (k.stopped_same, same, buffer_len-Holds limit b ts held)

    pub put-Follows :
        (t : T) (priority : Priority)
        → Follows hc nc (step q (put t priority)) (promised hc nc p (put t priority))
    unfolding step enqueue
    put-Follows t high =
        let as_promised = refused_as q.high_tasks p.urgent q.high_cap hc k.urgent k.high_limit in
        elim (Bool-cases (p.is_closed || leb hc (length p.urgent))) [
          | inl refused ↦ rw (as_promised ∙ refused, refused) (refl, k)
          | inr fits ↦
              rw (as_promised ∙ fits, fits)
                (
                  refl,
                  record {
                    urgent = push-Holds hc q.high_tasks p.urgent k.urgent t (ground arith);
                    regular = k.regular;
                    stopped_same = k.stopped_same;
                    high_limit = k.high_limit;
                    normal_limit = k.normal_limit;
                  },
                )
        ]
    put-Follows t normal =
        let as_promised =
          refused_as q.normal_tasks p.regular q.normal_cap nc k.regular k.normal_limit in
        elim (Bool-cases (p.is_closed || leb nc (length p.regular))) [
          | inl refused ↦ rw (as_promised ∙ refused, refused) (refl, k)
          | inr fits ↦
              rw (as_promised ∙ fits, fits)
                (
                  refl,
                  record {
                    urgent = k.urgent;
                    regular = push-Holds nc q.normal_tasks p.regular k.regular t (ground arith);
                    stopped_same = k.stopped_same;
                    high_limit = k.high_limit;
                    normal_limit = k.normal_limit;
                  },
                )
        ]

    pub halt-Follows : Follows hc nc (step q halt) (promised hc nc p halt)
    unfolding step stop_drop_pending
    halt-Follows = (
      refl,
      record {
        urgent = new_buffer-Holds hc;
        regular = new_buffer-Holds nc;
        stopped_same = refl;
        high_limit = k.high_limit;
        normal_limit = k.normal_limit;
      },
    )

    -- with the queue open, the next urgent or regular task
    module _ (open_ : p.is_closed ≡ false) where
      take_high-Follows :
          (t : T) (us : List T)
          → Holds hc q.high_tasks (t ∷ us)
          → (q' : TaskQueue T) × (take_high q ≡ took t q')
            × Refines hc nc q' (record { urgent = us; regular = p.regular; is_closed = false })
      unfolding take_high
      take_high-Follows t us held =
          let (b, popped, rest) = pop-Holds hc q.high_tasks t us held in
          (
            record q { high_tasks = b },
            rw (popped, take_high) refl,
            record {
              urgent = rest;
              regular = k.regular;
              stopped_same = k.stopped_same ∙ open_;
              high_limit = k.high_limit;
              normal_limit = k.normal_limit;
            },
          )

      take_normal-Follows :
          (t : T) (rs : List T)
          → Holds nc q.normal_tasks (t ∷ rs)
          → (q' : TaskQueue T) × (take_normal q ≡ took t q')
            × Refines hc nc q' (record { urgent = p.urgent; regular = rs; is_closed = false })
      unfolding take_normal
      take_normal-Follows t rs held =
          let (b, popped, rest) = pop-Holds nc q.normal_tasks t rs held in
          (
            record q { normal_tasks = b },
            rw (popped, take_normal) refl,
            record {
              urgent = k.urgent;
              regular = rest;
              stopped_same = k.stopped_same ∙ open_;
              high_limit = k.high_limit;
              normal_limit = k.normal_limit;
            },
          )

  module _ (hc nc : ℕ) (q : TaskQueue T) where
    abbrev pending : List T → List T → Bool → Pending T
    pending us rs shut = record { urgent = us; regular = rs; is_closed = shut }

    dequeue_lem :
        (choose has_high has_normal : Bool)
        → q.stopped ≡ false
        → ltb 0 (buffer_len q.high_tasks) ≡ has_high
        → ltb 0 (buffer_len q.normal_tasks) ≡ has_normal
        → dequeue q choose ≡ (
            if has_high && has_normal
            then (if choose then take_normal q else take_high q)
            else if has_high
            then take_high q
            else if has_normal
            then take_normal q
            else wait)
    unfolding dequeue
    dequeue_lem choose a b open_ e e' = simp (open_, e, e')

    dequeue_closed : (choose : Bool) → q.stopped ≡ true → dequeue q choose ≡ stop
    unfolding dequeue
    dequeue_closed choose shut = simp shut

    -- a worker that gets the task that is promised
    gets :
        (choose : Bool) (t : T) (p : Pending T) (d : Dequeued T)
        → dequeue q choose ≡ d
        → ((q' : TaskQueue T) × (d ≡ took t q') × Refines hc nc q' p)
        → Follows hc nc (step q (take choose)) (got t, p)
    unfolding step
    gets choose t p d e (q', takes, goes) =
        subst (λ (d : Dequeued T). Follows hc nc (answer_of q d) (got t, p)) (sym (e ∙ takes))
          (refl, goes)

    pub take-Follows :
        (choose shut : Bool) (us rs : List T)
        → Refines hc nc q (pending us rs shut)
        → Follows hc nc (step q (take choose)) (promised hc nc (pending us rs shut) (take choose))
    unfolding step
    take-Follows choose true us rs k =
        subst (λ (d : Dequeued T). Follows hc nc (answer_of q d) (closed, pending us rs true))
          (sym (dequeue_closed choose k.stopped_same)) (refl, k)
    take-Follows choose false us rs k =
        by_lists choose us rs k (ap (ltb 0) (buffer_len-Holds hc q.high_tasks us k.urgent))
          (ap (ltb 0) (buffer_len-Holds nc q.normal_tasks rs k.regular))
      where
        by_lists :
            (choose : Bool) (us rs : List T)
            → Refines hc nc q (pending us rs false)
            → ltb 0 (buffer_len q.high_tasks) ≡ ltb 0 (length us)
            → ltb 0 (buffer_len q.normal_tasks) ≡ ltb 0 (length rs)
            → Follows hc nc (step q (take choose)) (promised_take us rs choose)
        by_lists choose [] [] k n m =
            subst (λ (d : Dequeued T). Follows hc nc (answer_of q d) (waits, pending [] [] false))
              (sym (dequeue_lem choose false false k.stopped_same n m)) (refl, k)
        by_lists choose [] (r ∷ rs) k n m =
            gets choose r (pending [] rs false) (take_normal q)
              (dequeue_lem choose false true k.stopped_same (n) (m ∙ ground arith))
              (take_normal-Follows hc nc q (pending [] (r ∷ rs) false) k refl r rs k.regular)
        by_lists choose (t ∷ us) [] k n m =
            gets choose t (pending us [] false) (take_high q)
              (dequeue_lem choose true false k.stopped_same (n ∙ ground arith) m)
              (take_high-Follows hc nc q (pending (t ∷ us) [] false) k refl t us k.urgent)
        by_lists true (t ∷ us) (r ∷ rs) k n m =
            gets true r (pending (t ∷ us) rs false) (take_normal q)
              (dequeue_lem true true true k.stopped_same (n ∙ ground arith) (m ∙ ground arith))
              (take_normal-Follows hc nc q (pending (t ∷ us) (r ∷ rs) false) k refl r rs k.regular)
        by_lists false (t ∷ us) (r ∷ rs) k n m =
            gets false t (pending us (r ∷ rs) false) (take_high q)
              (dequeue_lem false true true k.stopped_same (n ∙ ground arith) (m ∙ ground arith))
              (take_high-Follows hc nc q (pending (t ∷ us) (r ∷ rs) false) k refl t us k.urgent)

module _ {T : Type 0} (hc nc : ℕ) where
  step-Follows :
      (q : TaskQueue T) (p : Pending T) (c : Call T)
      → Refines hc nc q p
      → Follows hc nc (step q c) (promised hc nc p c)
  step-Follows q p (put t priority) k = put-Follows hc nc q p k t priority
  step-Follows q p (take choose) k = take-Follows hc nc q choose p.is_closed p.urgent p.regular k
  step-Follows q p halt k = halt-Follows hc nc q p k

  run-Follows :
      (calls : List (Call T)) (q : TaskQueue T) (p : Pending T)
      → Refines hc nc q p
      → ((run q calls).0 ≡ promised_run hc nc p calls)
        × ((p' : Pending T) × Refines hc nc (run q calls).1 p')
  unfolding run
  run-Follows [] q p k = (refl, (p, k))
  run-Follows (c ∷ calls) q p k =
      let (same, k') = step-Follows q p c k in
      let (answers, (p', k'')) = run-Follows calls (step q c).1 (promised hc nc p c).1 k' in
      (rw (same, answers) refl, (p', k''))

  pub new-Refines :
      Refines {T = T}
        (new_task_queue {T = T} hc nc).high_cap
        (new_task_queue {T = T} hc nc).normal_cap
        (new_task_queue {T = T} hc nc)
        (record { urgent = []; regular = []; is_closed = false })
  unfolding new_task_queue
  new-Refines = record {
    urgent = new_buffer-Holds _;
    regular = new_buffer-Holds _;
    stopped_same = refl;
    high_limit = refl;
    normal_limit = refl;
  }

items_bound :
    {T : Type 0}
    → (cap : ℕ) (b : Buffer T) (ts : List T) → Holds cap b ts
    → length b.items ≤ cap * 2 + 64
unfolding buffer_len
items_bound cap b ts k =
    let live = buffer_len-Holds cap b ts k in
    elim k.is_compact.waste [
      | inl few ↦ omega (arith, live, few, k.bound, k.is_compact.in_range)
      | inr low ↦ omega (arith, live, low, k.bound)
    ]

module _ {T : Type 0} (hc nc : ℕ) (calls : List (Call T)) where
  -- After any calls on a new queue the callers have seen what two plain lists would have shown them:
  -- each task is taken once, the oldest urgent one before the regular ones unless the coin says
  -- otherwise; a full list refuses; and after the stop everything is refused.
  pub queue_refines :
      let q : TaskQueue T = new_task_queue hc nc in
      (run q calls).0
      ≡ promised_run q.high_cap q.normal_cap
          (record { urgent = []; regular = []; is_closed = false })
          calls
  queue_refines =
      let q : TaskQueue T = new_task_queue hc nc in
      (run-Follows q.high_cap q.normal_cap calls q _ (new-Refines hc nc)).0

  -- After any calls the slices take at most 64 places more than twice the capacities, the tasks that
  -- were taken included.
  pub queue_bounds :
      let q : TaskQueue T = new_task_queue hc nc in
      let q' = (run q calls).1 in
      (length q'.high_tasks.items ≤ q.high_cap * 2 + 64)
      × (length q'.normal_tasks.items ≤ q.normal_cap * 2 + 64)
  queue_bounds =
      let q : TaskQueue T = new_task_queue hc nc in
      let (answers, (p, k)) = run-Follows q.high_cap q.normal_cap calls q _ (new-Refines hc nc) in
      (items_bound q.high_cap _ _ k.urgent, items_bound q.normal_cap _ _ k.regular)
