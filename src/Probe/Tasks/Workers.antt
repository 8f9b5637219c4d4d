-- ===== src/Probe/Tasks/Workers.antt =====
-- internal/probe/manager.go: workers keep the flags of the tasks right.
use resin.Prelude.{
  ℕ, ◌+◌, Bool, true, false, not, Option, none, some, List, [], ◌∷◌, ◌==◌, ◌≡◌, refl, arith, inl,
  inr, Option-cases, ◌<◌, sym, ◌∙◌, subst, ap, indicator, if_cases,
}
use resin.Map.{load, store}
use resin.Map.Laws.{load-store, store-Distinct}
use resin.Probe.Queue.{Priority, TaskQueue, Dequeued, stop, wait, took, enqueue, dequeue}
use resin.Probe.Queue.Promise.{Pending, Refines}
use resin.Probe.Tasks.{
  TaskKey, task_key, TaskState, flags_of, ProbeManager, is_idle, clear_dropped_state,
  try_delete_task_state, task_state, run_from, enter, begin_with, mark_task_running, finished,
  requeue, leave, finish_task, begin_task, stop_probes,
}
use resin.Probe.Tasks.Tokens.{is_waiting, enqueue_tokens, dequeue_tokens, stop_tokens}
use resin.Probe.Tasks.Tracking.{
  times, IsTracked, IsTracking, unless_idle, load-try_delete, load-try_delete_stored,
  try_delete-Distinct, advance,
}

times-leave_self :
    (key : TaskKey) (ks : List TaskKey)
    → 0 < times key ks
    → times key (leave key ks) + 1 ≡ times key ks
unfolding leave
times-leave_self key [] some_in = absurd (omega arith)
times-leave_self key (k ∷ ks) some_in = ground (arith, times-leave_self key ks, some_in)

times-leave_others :
    (key j : TaskKey) (ks : List TaskKey) → key == j ≡ false → times j (leave key ks) ≡ times j ks
unfolding leave
times-leave_others key j [] apart = refl
times-leave_others key j (k ∷ ks) apart = ground (arith, times-leave_others key j ks apart, apart)

module _ (m : ProbeManager) (key : TaskKey) (k : IsTracking m) where
  -- The queue after a request, and the state of the task.
  abbrev Requeued : TaskQueue TaskKey × TaskState → Type 0
  Requeued (q, f') =
      (p' : Pending TaskKey) × Refines k.high_cap k.normal_cap q p'
      × (p'.is_closed ≡ k.pending.is_closed)
      × ((j : TaskKey) → is_waiting j k.pending ≡ true → is_waiting j p' ≡ true)
      × IsTracked (unless_idle (some f')) (is_waiting key p') p'.is_closed 0

  again-Requeued :
      (f : TaskState) (priority : Priority)
      → f.queued ≡ true
      → IsTracked (some f) true k.pending.is_closed 0
      → Requeued (requeue m.task_queue key (f, some priority))
  unfolding requeue clear_dropped_state is_idle
  again-Requeued f priority queued h =
      let stays : is_idle f ≡ false = ground (arith, queued) in
      let goes : is_idle (clear_dropped_state f) ≡ true = ground (arith, h.1, queued) in
      let (p', refines, shut, tokens) =
        enqueue_tokens k.high_cap k.normal_cap m.task_queue k.pending k.refines key priority in
      if_cases Requeued (enqueue m.task_queue key priority).1
        (λ ok. (
          p',
          refines,
          shut,
          λ j waits. ground (arith, waits, tokens j),
          let now : is_waiting key p' ≡ true = ground (arith, tokens key, ok) in
              rw (stays, now, shut) h,
        ))
        (λ full. (p', refines, shut, λ j waits. ground (arith, waits, tokens j), rw goes refl))

  -- a worker that was alone in the task is done
  finished-Requeued :
      (f : TaskState)
      → f.running ≡ true
      → IsTracked (some f) (is_waiting key k.pending) k.pending.is_closed 1
      → Requeued (requeue m.task_queue key (finished f))
  unfolding finished requeue is_idle
  finished-Requeued f runs h =
      if_cases (λ (r : TaskState × Option Priority). Requeued (requeue m.task_queue key r)) f.dirty
        (λ dirty. again-Requeued _ _ refl (refl, refl, refl, ground arith, refl, refl))
        (λ clean. (
          k.pending,
          k.refines,
          refl,
          λ j waits. waits,
          let free : f.queued ≡ false = ground (arith, runs, h.1) in rw free refl,
        ))

  pub finish_task-IsTracking : 0 < times key m.active → IsTracking (finish_task m key)
  unfolding finish_task task_state
  finish_task-IsTracking inside = elim (Option-cases (load key m.task_states)) [
    | inl none_there ↦
        let idle : times key m.active ≡ 0 =
          subst
            (λ (o : Option TaskState).
              IsTracked o (is_waiting key k.pending) k.pending.is_closed (times key m.active))
            none_there (k.each key) in
        absurd (omega (arith, idle, inside))
    | inr (f, e) ↦
        let own =
          subst
            (λ (o : Option TaskState).
              IsTracked o (is_waiting key k.pending) k.pending.is_closed (times key m.active))
            e (k.each key) in
        let runs : f.running ≡ true = ground (arith, own.0, inside) in
        let one : times key m.active ≡ 1 = own.0 ∙ ap indicator runs in
        let (p', refines, shut, tokens, left) =
          subst
            (λ (o : Option TaskState). Requeued (requeue m.task_queue key (finished (flags_of o))))
            (sym e)
            (finished-Requeued f runs (
              subst (λ (n : ℕ). IsTracked (some f) (is_waiting key k.pending) k.pending.is_closed n)
                one own)) in
        let f' = (requeue m.task_queue key (finished (flags_of (load key m.task_states)))).1 in
        let stored = store key f' m.task_states in
        let none_in : times key (leave key m.active) ≡ 0 =
          omega (arith, times-leave_self key m.active inside, one) in
        advance m key k _ p' (unless_idle (some f')) refines shut (λ j apart waits. tokens j waits)
          (try_delete-Distinct key stored (store-Distinct key f' m.task_states k.distinct))
          (λ j. load-try_delete_stored key j f' m.task_states k.distinct)
          (λ j apart. times-leave_others key j m.active apart)
          (subst (λ (n : ℕ). IsTracked (unless_idle (some f')) (is_waiting key p') p'.is_closed n)
            (sym none_in) left)
  ]

  -- a token for a task without a request
  stale_step :
      (q : TaskQueue TaskKey) (p' : Pending TaskKey) (f : TaskState)
      → load key m.task_states ≡ some f
      → f.queued ≡ false
      → Refines k.high_cap k.normal_cap q p'
      → p'.is_closed ≡ k.pending.is_closed
      → ((j : TaskKey) → key == j ≡ false → is_waiting j p' ≡ is_waiting j k.pending)
      → IsTracking
          (record m { task_states = try_delete_task_state m.task_states key; task_queue = q })
  unfolding is_idle
  stale_step q p' f e free refines shut others =
      let own =
        subst
          (λ (o : Option TaskState).
            IsTracked o (is_waiting key k.pending) k.pending.is_closed (times key m.active))
          e (k.each key) in
      let busy : is_idle f ≡ false = ground (arith, own.2, free) in
      advance m key k _ p' (some f) refines shut (λ j apart waits. others j apart ∙ waits)
        (try_delete-Distinct key m.task_states k.distinct)
        (λ j. load-try_delete key j m.task_states k.distinct ∙ ground (arith, e, busy))
        (λ j apart. refl) (own.0, own.1, own.2, own.3, own.4, ground (arith, free))

  -- a token for a task that is queued
  start_step :
      (q : TaskQueue TaskKey) (p' : Pending TaskKey) (f : TaskState)
      → load key m.task_states ≡ some f
      → f.queued ≡ true
      → Refines k.high_cap k.normal_cap q p'
      → p'.is_closed ≡ k.pending.is_closed
      → ((j : TaskKey) → key == j ≡ false → is_waiting j p' ≡ is_waiting j k.pending)
      → IsTracking (record m {
        task_states =
            store key
              (record f { running = true; queued = false; queued_high = false })
              m.task_states;
        task_queue = q;
        active = key ∷ m.active;
      })
  start_step q p' f e queued refines shut others =
      let own =
        subst
          (λ (o : Option TaskState).
            IsTracked o (is_waiting key k.pending) k.pending.is_closed (times key m.active))
          e (k.each key) in
      let next = record f { running = true; queued = false; queued_high = false } in
      let rests : f.running ≡ false = ground (arith, own.1, queued) in
      advance m key k _ p' (some next) refines shut (λ j apart waits. others j apart ∙ waits)
        (store-Distinct key next m.task_states k.distinct)
        (λ j. load-store key j next m.task_states) (λ j apart. ground (arith, apart))
        (ground (arith, own.0, rests), refl, refl, refl, own.4, refl)

module _ (m : ProbeManager) (k : IsTracking m) where
  run_from-IsTracking :
      (key : TaskKey) (q : TaskQueue TaskKey) (p' : Pending TaskKey) (o : Option TaskState)
      → load key m.task_states ≡ o
      → Refines k.high_cap k.normal_cap q p'
      → p'.is_closed ≡ k.pending.is_closed
      → ((j : TaskKey) → key == j ≡ false → is_waiting j p' ≡ is_waiting j k.pending)
      → IsTracking (enter key (run_from (record m { task_queue = q }) key o)).0
  unfolding run_from
  run_from-IsTracking key q p' none e refines shut others =
      advance m key k _ p' none refines shut (λ j apart waits. others j apart ∙ waits) k.distinct
        (λ j. ground (arith, e)) (λ j apart. refl)
        (subst
          (λ (o : Option TaskState).
            IsTracked o (is_waiting key k.pending) k.pending.is_closed (times key m.active))
          e (k.each key))
  run_from-IsTracking key q p' (some f) e refines shut others =
      if_cases (λ (r : ProbeManager × Bool). IsTracking (enter key r).0) (not f.queued)
        (λ free. stale_step m key k q p' f e (ground (arith, free)) refines shut others)
        (λ queued. start_step m key k q p' f e (ground (arith, queued)) refines shut others)

  pub begin_task-IsTracking : (choose : Bool) → IsTracking (begin_task m choose).0
  unfolding begin_task begin_with mark_task_running
  begin_task-IsTracking choose = by_answer (dequeue m.task_queue choose) refl
    where
      by_answer :
          (d : Dequeued TaskKey) → dequeue m.task_queue choose ≡ d → IsTracking (begin_with m d).0
      by_answer stop e = k
      by_answer wait e = k
      by_answer (took key q) e =
          let (p', refines, shut, was, others) =
            dequeue_tokens k.high_cap k.normal_cap m.task_queue k.pending k.refines choose key q
              e in
          run_from-IsTracking key q p' (load key m.task_states) refl refines shut others

  pub stop_probes-IsTracking : IsTracking (stop_probes m)
  unfolding stop_probes
  stop_probes-IsTracking =
      let (p', refines, shut) =
        stop_tokens k.high_cap k.normal_cap m.task_queue k.pending k.refines in
      record {
        high_cap = k.high_cap;
        normal_cap = k.normal_cap;
        pending = p';
        refines = refines;
        distinct = k.distinct;
        each = λ key. stopped (load key m.task_states) _ _ _ _ _ shut (k.each key);
      }
    where
      stopped :
          (o : Option TaskState) (token token' shut shut' : Bool) (n : ℕ)
          → shut' ≡ true
          → IsTracked o token shut n
          → IsTracked o token' shut' n
      stopped none token token' shut shut' n e h = h
      stopped (some f) token token' shut shut' n e h = (h.0, h.1, h.2, h.3, h.4, ground (arith, e))
