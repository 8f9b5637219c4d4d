-- ===== src/Probe/Tasks/Kept.antt =====
-- internal/probe/manager.go: what becomes of a request.
use resin.Prelude.{
  Bool, true, false, not, ◌&&◌, ◌||◌, Option, some, if◌then◌else◌, ◌≡◌, refl, arith, ◌⊎◌, inl, inr,
  ap, ◌∙◌, if_cases, Bool-cases,
}
use resin.Map.{Map, load, store, Distinct}
use resin.Map.Laws.{load-store}
use resin.Probe.Queue.{Priority, normal, high, TaskQueue, enqueue}
use resin.Probe.Tasks.{
  TaskKey, task_key, TaskState, flags_of, ProbeManager, is_high, is_idle, try_delete_task_state,
  mark_dirty, upgrade, enqueue_new, task_state, enqueue_probe, finished, requeue, finish_task,
}
use resin.Probe.Tasks.Tracking.{load-try_delete_stored}

module _ (m : ProbeManager) (key : TaskKey) where
  flags-store :
      (f : TaskState) (states : Map TaskKey TaskState)
      → flags_of (load key (store key f states)) ≡ f
  flags-store f states =
      let found : load key (store key f states) ≡ some f =
        load-store key key f states ∙ ground arith in
      ap flags_of found

  -- What a request that is not refused leaves: the task is queued if the answer says so, and else
  -- its later run is noted.
  abbrev IsKept : Priority → ProbeManager × Bool → Type 0
  IsKept priority (m', true) = (task_state m' key).queued ≡ true
  IsKept priority (m', false) =
      ((task_state m' key).dirty ≡ true) ⊎ ((enqueue m.task_queue key priority).1 ≡ false)

  enqueue_probe-IsKept : (priority : Priority) → IsKept priority (enqueue_probe m key priority)
  unfolding enqueue_probe upgrade enqueue_new task_state mark_dirty
  enqueue_probe-IsKept priority =
      let f = task_state m key in
      if_cases (IsKept priority)
        (f.running || f.queued && not (is_high priority && not f.queued_high))
        (λ noted. inl (ap (λ (g : TaskState). g.dirty) (flags-store _ _)))
        (λ noted.
          if_cases (IsKept priority) f.queued
            (λ queued.
              if_cases (IsKept priority) (enqueue m.task_queue key high).1
                (λ ok. ap (λ (g : TaskState). g.queued) (flags-store _ _) ∙ queued)
                (λ full. inl (ap (λ (g : TaskState). g.dirty) (flags-store _ _))))
            (λ free.
              if_cases (IsKept priority) (enqueue m.task_queue key priority).1
                (λ ok. ap (λ (g : TaskState). g.queued) (flags-store _ _)) (λ full. inr full)))

  stored_queued :
      (f : TaskState)
      → Distinct m.task_states
      → f.queued ≡ true
      → (flags_of (load key (try_delete_task_state (store key f m.task_states) key))).queued ≡ true
  unfolding is_idle
  stored_queued f d queued =
      let found : load key (try_delete_task_state (store key f m.task_states) key) ≡ some f =
        load-try_delete_stored key key f m.task_states d ∙ ground (arith, queued) in
      ap (λ (o : Option TaskState). (flags_of o).queued) found ∙ queued

  -- The flags after a finished run with a noted request.
  finish_task_lem :
      Distinct m.task_states
      → (task_state m key).dirty ≡ true
      → let again = if (task_state m key).dirty_high then high else normal in
        ((task_state (finish_task m key) key).queued ≡ true)
        ⊎ ((enqueue m.task_queue key again).1 ≡ false)
  unfolding finish_task task_state finished requeue
  finish_task_lem d noted =
      let again = if (task_state m key).dirty_high then high else normal in
      let Left : TaskQueue TaskKey × TaskState → Type 0 = λ r.
        ((flags_of (load key (try_delete_task_state (store key r.1 m.task_states) key))).queued
          ≡ true)
        ⊎ ((enqueue m.task_queue key again).1 ≡ false) in
      if_cases (λ (r : TaskState × Option Priority). Left (requeue m.task_queue key r))
        (task_state m key).dirty
        (λ dirty.
          if_cases Left (enqueue m.task_queue key again).1 (λ ok. inl (stored_queued _ d refl))
            (λ full. inr full))
        (λ clean. absurd (ground (arith, noted, clean)))

-- A request leaves the task queued if it is accepted, and else noted in its flags, unless the queue
-- refuses a token. A worker that finishes a task with a noted request leaves it queued, unless the
-- queue refuses a token.
pub requests_kept :
    (m : ProbeManager) (key : TaskKey) (priority : Priority)
    → Distinct m.task_states
    → let (m', accepted) = enqueue_probe m key priority in
      let refused = λ (p : Priority). not (enqueue m.task_queue key p).1 in
      let again = if (task_state m key).dirty_high then high else normal in
      ((if accepted
          then (task_state m' key).queued
          else (task_state m' key).dirty || refused priority)
        ≡ true)
      × (not (task_state m key).dirty
            || (task_state (finish_task m key) key).queued
            || refused again
          ≡ true)
requests_kept m key priority d = (
  by_answer (enqueue_probe m key priority) (enqueue_probe-IsKept m key priority),
  elim (Bool-cases (task_state m key).dirty) [
    | inr clean ↦ ground (arith, clean)
    | inl noted ↦ elim (finish_task_lem m key d noted) [
      | inl queued ↦ ground (arith, queued)
      | inr full ↦ ground (arith, full)
    ]
  ],
)
  where
    by_answer :
        (r : ProbeManager × Bool)
        → IsKept m key priority r
        → (if r.1
            then (task_state r.0 key).queued
            else (task_state r.0 key).dirty || not (enqueue m.task_queue key priority).1)
          ≡ true
    by_answer (m', true) kept = kept
    by_answer (m', false) (inl noted) = ground (arith, noted)
    by_answer (m', false) (inr full) = ground (arith, full)
