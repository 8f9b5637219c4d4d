-- ===== src/Probe/Tasks/Requests.antt =====
-- internal/probe/manager.go: requests keep the flags of the tasks right.
use resin.Prelude.{
  ℕ, Bool, true, false, not, ◌&&◌, ◌||◌, Option, none, some, ◌≡◌, refl, arith, if_cases,
}
use resin.Map.{load, store}
use resin.Map.Laws.{load-store, store-Distinct}
use resin.Probe.Queue.{Priority, high, enqueue}
use resin.Probe.Tasks.{
  TaskKey, task_key, TaskState, flags_of, ProbeManager, is_high, is_idle, clear_dropped_state,
  mark_dirty, upgrade, enqueue_new, task_state, enqueue_probe,
}
use resin.Probe.Tasks.Tokens.{is_waiting, enqueue_tokens}
use resin.Probe.Tasks.Tracking.{
  IsTracked, IsTracking, IsTracked-more, unless_idle, load-try_delete_stored, try_delete-Distinct,
  advance,
}

-- The request is noted in the flags of the task.
abbrev is_noted : TaskState → Priority → Bool
is_noted f priority = f.running || f.queued && not (is_high priority && not f.queued_high)

noted-IsTracked :
    (o : Option TaskState) (priority : Priority) (token shut : Bool) (n : ℕ)
    → (flags_of o).running || (flags_of o).queued ≡ true
    → IsTracked o token shut n
    → IsTracked (some (mark_dirty (flags_of o) priority)) token shut n
unfolding mark_dirty
noted-IsTracked none priority token shut n noted h = absurd (ground (arith, noted))
noted-IsTracked (some f) priority token shut n noted h = (h.0, h.1, h.2, h.3, ground arith, h.5)

upgraded-IsTracked :
    (o : Option TaskState) (token shut : Bool) (n : ℕ)
    → (flags_of o).queued ≡ true
    → IsTracked o token shut n
    → IsTracked (some (record (flags_of o) { queued_high = true })) token shut n
upgraded-IsTracked none token shut n queued h = absurd (ground (arith, queued))
upgraded-IsTracked (some f) token shut n queued h =
    (h.0, h.1, h.2, ground (arith, queued), h.4, h.5)

new-IsTracked :
    (o : Option TaskState) (priority : Priority) (token shut : Bool) (n : ℕ)
    → is_noted (flags_of o) priority ≡ false
    → (flags_of o).queued ≡ false
    → IsTracked o token shut n
    → let next = record (flags_of o) { queued = true; queued_high = is_high priority } in
      IsTracked (some next) true shut n
      × ((token' : Bool) → IsTracked (unless_idle (some (clear_dropped_state next))) token' shut n)
unfolding is_idle clear_dropped_state
new-IsTracked none priority token shut n noted free h =
    ((h, refl, refl, ground arith, refl, ground arith), λ token'. h)
new-IsTracked (some f) priority token shut n noted free h =
    absurd (ground (arith, noted, free, h.2))

module _ (m : ProbeManager) (key : TaskKey) (k : IsTracking m) where
  noted_step :
      (priority : Priority)
      → (task_state m key).running || (task_state m key).queued ≡ true
      → IsTracking (record m {
        task_states = store key (mark_dirty (task_state m key) priority) m.task_states;
      })
  unfolding task_state
  noted_step priority noted =
      let o = load key m.task_states in
      advance m key k _ k.pending (some (mark_dirty (flags_of o) priority)) k.refines refl
        (λ j apart waits. waits) (store-Distinct key _ m.task_states k.distinct)
        (λ j. load-store key j _ m.task_states) (λ j apart. refl)
        (noted-IsTracked o priority _ _ _ noted (k.each key))

  upgrade-IsTracking :
      (task_state m key).queued ≡ true → IsTracking (upgrade m key (task_state m key)).0
  unfolding upgrade task_state
  upgrade-IsTracking queued =
      let o = load key m.task_states in
      let (p', refines, shut, tokens) =
        enqueue_tokens k.high_cap k.normal_cap m.task_queue k.pending k.refines key high in
      if_cases (λ (r : ProbeManager × Bool). IsTracking r.0) (enqueue m.task_queue key high).1
        (λ ok.
          advance m key k _ p' (some (record (flags_of o) { queued_high = true })) refines shut
            (λ j apart waits. ground (arith, waits, tokens j))
            (store-Distinct key _ m.task_states k.distinct) (λ j. load-store key j _ m.task_states)
            (λ j apart. refl)
            (rw shut (
              IsTracked-more (some (record (flags_of o) { queued_high = true }))
                (is_waiting key k.pending) (is_waiting key p') _ _
                (λ waits. ground (arith, waits, tokens key))
                (upgraded-IsTracked o _ _ _ queued (k.each key)))))
        (λ full. noted_step high (ground (arith, queued)))

  new-IsTracking :
      (priority : Priority)
      → is_noted (task_state m key) priority ≡ false
      → (task_state m key).queued ≡ false
      → IsTracking (enqueue_new m key (task_state m key) priority).0
  unfolding enqueue_new task_state
  new-IsTracking priority noted free =
      let o = load key m.task_states in
      let next = record (flags_of o) { queued = true; queued_high = is_high priority } in
      let (p', refines, shut, tokens) =
        enqueue_tokens k.high_cap k.normal_cap m.task_queue k.pending k.refines key priority in
      let (starts, stops) = new-IsTracked o priority _ _ _ noted free (k.each key) in
      if_cases (λ (r : ProbeManager × Bool). IsTracking r.0) (enqueue m.task_queue key priority).1
        (λ ok.
          let now : is_waiting key p' ≡ true = ground (arith, tokens key, ok) in
          advance m key k _ p' (some next) refines shut
            (λ j apart waits. ground (arith, waits, tokens j))
            (store-Distinct key _ m.task_states k.distinct) (λ j. load-store key j _ m.task_states)
            (λ j apart. refl) (rw now starts))
        (λ full.
          let stored = store key (clear_dropped_state next) m.task_states in
          let d = store-Distinct key (clear_dropped_state next) m.task_states k.distinct in
          advance m key k _ k.pending (unless_idle (some (clear_dropped_state next))) k.refines refl
            (λ j apart waits. waits) (try_delete-Distinct key stored d)
            (λ j. load-try_delete_stored key j (clear_dropped_state next) m.task_states k.distinct)
            (λ j apart. refl) (stops (is_waiting key k.pending)))

  pub enqueue_probe-IsTracking : (priority : Priority) → IsTracking (enqueue_probe m key priority).0
  unfolding enqueue_probe
  enqueue_probe-IsTracking priority =
      let f = task_state m key in
      if_cases (λ (r : ProbeManager × Bool). IsTracking r.0) (is_noted f priority)
        (λ noted. noted_step priority (ground (arith, noted)))
        (λ noted.
          if_cases (λ (r : ProbeManager × Bool). IsTracking r.0) f.queued
            (λ queued. upgrade-IsTracking queued) (λ free. new-IsTracking priority noted free))
