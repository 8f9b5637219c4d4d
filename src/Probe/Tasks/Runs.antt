-- ===== src/Probe/Tasks/Runs.antt =====
-- internal/probe/manager.go: runs of the triggers, the scans, the workers and `Stop`.
use resin.Prelude.{
  ℕ, Bool, true, false, not, ◌&&◌, ◌||◌, Option, none, some, [], ◌≡◌, refl, ◌<◌, indicator, sym,
}
use resin.Map.{load}
use resin.Probe.Queue.{Priority, TaskQueue}
use resin.Probe.Queue.Contents.{contents}
use resin.Probe.Queue.Order.{new-Refines}
use resin.Probe.Tasks.{
  TaskKey, task_key, TaskState, flags_of, ProbeManager, new_probe_manager, queue_cap_for,
  task_state, enqueue_probe, begin_task, finish_task, stop_probes,
}
use resin.Probe.Tasks.Tokens.{has}
use resin.Probe.Tasks.Tracking.{times, IsTracked, IsTracking}
use resin.Probe.Tasks.Requests.{enqueue_probe-IsTracking}
use resin.Probe.Tasks.Workers.{
  finish_task-IsTracking, begin_task-IsTracking, stop_probes-IsTracking,
}

-- A worker finishes a task that it is in.
pub data Step (m : ProbeManager) : ProbeManager → Type 0 where
  requests : (key : TaskKey) (priority : Priority) → Step m (enqueue_probe m key priority).0
  begins : (choose : Bool) → Step m (begin_task m choose).0
  finishes : (key : TaskKey) → 0 < times key m.active → Step m (finish_task m key)
  stops : Step m (stop_probes m)

pub data Run (conc cap : ℕ) : ProbeManager → Type 0 where
  start : Run conc cap (new_probe_manager conc cap)
  next : {m m' : ProbeManager} → Run conc cap m → Step m m' → Run conc cap m'

Step-IsTracking : {m m' : ProbeManager} → IsTracking m → Step m m' → IsTracking m'
Step-IsTracking {m} k (requests key priority) = enqueue_probe-IsTracking m key k priority
Step-IsTracking {m} k (begins choose) = begin_task-IsTracking m k choose
Step-IsTracking {m} k (finishes key inside) = finish_task-IsTracking m key k inside
Step-IsTracking {m} k stops = stop_probes-IsTracking m k

new-IsTracking : (conc cap : ℕ) → IsTracking (new_probe_manager conc cap)
unfolding new_probe_manager load
new-IsTracking conc cap = record {
  high_cap = _;
  normal_cap = _;
  pending = record { urgent = []; regular = []; is_closed = false };
  refines = new-Refines (queue_cap_for conc cap) (queue_cap_for conc cap);
  distinct = tt;
  each = λ key. refl;
}

Run-IsTracking : (conc cap : ℕ) {m : ProbeManager} → Run conc cap m → IsTracking m
Run-IsTracking conc cap start = new-IsTracking conc cap
Run-IsTracking conc cap (next r s) = Step-IsTracking (Run-IsTracking conc cap r) s

-- The task has a token in the queue.
abbrev pub has_token : TaskQueue TaskKey → TaskKey → Bool
has_token q key = has key (contents q.high_tasks) || has key (contents q.normal_tasks)

abbrev pub is_there : Option TaskState → Bool
is_there none = false
is_there (some f) = true

flags_lem :
    (o : Option TaskState) (token shut : Bool) (n : ℕ)
    → IsTracked o token shut n
    → let f = flags_of o in
      (n ≡ indicator f.running)
      × (f.queued && f.running ≡ false)
      × (is_there o ≡ f.queued || f.running)
      × (not f.queued || token || shut ≡ true)
flags_lem none token shut n h = (h, refl, refl, refl)
flags_lem (some f) token shut n h = (h.0, h.1, sym h.2, h.5)

-- In any run from a new manager, whose calls are one step each: a task has at most one worker, and
-- its running flag says whether it has one; it is not queued while it runs; it has a state exactly
-- while it is queued or runs; and a queued task has a token in the queue, unless the queue was
-- stopped.
pub tasks_tracked :
    (conc cap : ℕ) (m : ProbeManager) (key : TaskKey)
    → Run conc cap m
    → let f = task_state m key in
      (times key m.active ≡ indicator f.running)
      × (f.queued && f.running ≡ false)
      × (is_there (load key m.task_states) ≡ f.queued || f.running)
      × (not f.queued || has_token m.task_queue key || m.task_queue.stopped ≡ true)
unfolding task_state
tasks_tracked conc cap m key r =
    let k = Run-IsTracking conc cap r in
    let (worker, apart, there, waits) =
      flags_lem (load key m.task_states) _ _ (times key m.active) (k.each key) in
    (
      worker,
      apart,
      there,
      rw (k.refines.urgent.same, k.refines.regular.same, k.refines.stopped_same) waits,
    )
