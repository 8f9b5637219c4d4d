-- ===== src/Probe/Tasks.antt =====
-- internal/probe/manager.go: the states of the probe tasks. A call of `enqueueProbe`,
-- `markTaskRunning` or `finishTask` is one step here: no other goroutine changes the state of the task
-- or the map between its reads and its writes, so the state object is the entry of the map.
pub mod Tokens
pub mod Tracking
pub mod Requests
pub mod Workers
pub mod Runs
pub mod Kept
use resin.Prelude.{
  ℕ, Bool, true, false, ◌&&◌, ◌||◌, not, Option, none, some, List, [], ◌∷◌, Key, ◌==◌, nat_key,
  if◌then◌else◌, ltb, ◌*◌,
}
use native.Mathlib.Decide.{ℕ_discrete}
use resin.Map.{Map, load, store, remove}
use resin.Node.Hash.{Hash}
use resin.Probe.Queue.{
  Priority, normal, high, TaskQueue, Dequeued, stop, wait, took, new_task_queue, enqueue, dequeue,
  stop_drop_pending, default_queue_cap,
}

pub data TaskKind : Type 0 where
  egress latency : TaskKind

pub record TaskKey : Type 0 where
  pub hash : Hash
  pub kind : TaskKind

TaskKey-discrete : Discrete TaskKey
unfolding ℕ_discrete
TaskKey-discrete = hlevel ℕ_discrete

instance unfoldable pub task_key : Key TaskKey
unfolding TaskKey-discrete
task_key = record { dec = TaskKey-discrete }

-- the bits of the `flags` word
pub record TaskState : Type 0 where
  pub queued : Bool
  pub running : Bool
  pub dirty : Bool
  pub dirty_high : Bool
  pub queued_high : Bool

abbrev pub no_flags : TaskState
no_flags = record {
  queued = false;
  running = false;
  dirty = false;
  dirty_high = false;
  queued_high = false;
}

-- `active` are the tasks that the workers are in, between `markTaskRunning` and `finishTask`.
pub record ProbeManager : Type 0 where
  pub task_states : Map TaskKey TaskState
  pub task_queue : TaskQueue TaskKey
  pub active : List TaskKey

-- the capacity of both queues; 0 stands for any number that is not positive
unfoldable pub queue_cap_for : ℕ → ℕ → ℕ
queue_cap_for concurrency queue_capacity =
    let conc = if ltb 0 concurrency then concurrency else 8 in
    if ltb 0 queue_capacity
    then queue_capacity
    else if ltb (conc * 4) default_queue_cap
    then default_queue_cap
    else conc * 4

unfoldable pub new_probe_manager : ℕ → ℕ → ProbeManager
unfolding new_task_queue queue_cap_for
new_probe_manager concurrency queue_capacity =
    let queue_cap = queue_cap_for concurrency queue_capacity in
    record { task_states = []; task_queue = new_task_queue queue_cap queue_cap; active = [] }

abbrev pub is_high : Priority → Bool
is_high high = true
is_high normal = false

unfoldable pub clear_dropped_state : TaskState → TaskState
clear_dropped_state f = record f {
  queued = false;
  queued_high = false;
  dirty = false;
  dirty_high = false;
}

-- flags == 0
unfoldable pub is_idle : TaskState → Bool
is_idle f = not f.queued && not f.running && not f.dirty && not f.dirty_high && not f.queued_high

unfoldable pub try_delete_task_state : Map TaskKey TaskState → TaskKey → Map TaskKey TaskState
unfolding load remove is_idle
try_delete_task_state states key = elim (load key states) [
  | none ↦ states
  | some f ↦ if is_idle f then remove key states else states
]

-- the request noted in the flags of a task that is running or queued already
unfoldable pub mark_dirty : TaskState → Priority → TaskState
mark_dirty f priority = record f { dirty = true; dirty_high = f.dirty_high || is_high priority }

-- a queued task's request for urgency: another token
unfoldable pub upgrade : ProbeManager → TaskKey → TaskState → ProbeManager × Bool
unfolding enqueue store mark_dirty
upgrade m key f =
    let (q, ok) = enqueue m.task_queue key high in
    if ok
    then (
      record m {
        task_states = store key (record f { queued_high = true }) m.task_states;
        task_queue = q;
      },
      true,
    )
    else (record m { task_states = store key (mark_dirty f high) m.task_states }, false)

-- the first request of a task that is neither running nor queued
unfoldable pub enqueue_new : ProbeManager → TaskKey → TaskState → Priority → ProbeManager × Bool
unfolding enqueue store clear_dropped_state try_delete_task_state
enqueue_new m key f priority =
    let (q, ok) = enqueue m.task_queue key priority in
    let next = record f { queued = true; queued_high = is_high priority } in
    if ok
    then (record m { task_states = store key next m.task_states; task_queue = q }, true)
    else (
      record m {
        task_states =
            try_delete_task_state (store key (clear_dropped_state next) m.task_states) key;
      },
      false,
    )

-- the flags of a task, also of one without a state
abbrev pub flags_of : Option TaskState → TaskState
flags_of none = no_flags
flags_of (some f) = f

unfoldable pub task_state : ProbeManager → TaskKey → TaskState
unfolding load
task_state m key = flags_of (load key m.task_states)

unfoldable pub enqueue_probe : ProbeManager → TaskKey → Priority → ProbeManager × Bool
unfolding task_state mark_dirty upgrade enqueue_new store
enqueue_probe m key priority =
    let f = task_state m key in
    if f.running || f.queued && not (is_high priority && not f.queued_high)
    then (record m { task_states = store key (mark_dirty f priority) m.task_states }, false)
    else if f.queued
    then upgrade m key f
    else enqueue_new m key f priority

-- what `markTaskRunning` does with the state that it loads
unfoldable pub run_from : ProbeManager → TaskKey → Option TaskState → ProbeManager × Bool
unfolding store try_delete_task_state
run_from m key none = (m, false)
run_from m key (some f) =
    if not f.queued
    then (record m { task_states = try_delete_task_state m.task_states key }, false)
    else (
      record m {
        task_states =
            store key (record f { running = true; queued = false; queued_high = false })
              m.task_states;
      },
      true,
    )

unfoldable pub mark_task_running : ProbeManager → TaskKey → ProbeManager × Bool
unfolding load run_from
mark_task_running m key = run_from m key (load key m.task_states)

-- the flags after a run, and the priority of the next one if there was a request meanwhile
unfoldable pub finished : TaskState → TaskState × Option Priority
finished f =
    if f.dirty
    then (
      record f {
        running = false;
        queued = true;
        dirty = false;
        queued_high = f.dirty_high;
        dirty_high = false;
      },
      some (if f.dirty_high then high else normal),
    )
    else (
      record f { running = false; dirty = false; dirty_high = false; queued_high = false },
      none,
    )

unfoldable pub requeue :
    TaskQueue TaskKey → TaskKey → TaskState × Option Priority → TaskQueue TaskKey × TaskState
unfolding enqueue clear_dropped_state
requeue q key (f, none) = (q, f)
requeue q key (f, some priority) =
    let (q', ok) = enqueue q key priority in if ok then (q', f) else (q', clear_dropped_state f)

-- the workers without one that was in the task
unfoldable pub leave : TaskKey → List TaskKey → List TaskKey
leave key [] = []
leave key (k ∷ ks) = if k == key then ks else k ∷ leave key ks

unfoldable pub finish_task : ProbeManager → TaskKey → ProbeManager
unfolding task_state store finished requeue leave try_delete_task_state
finish_task m key =
    let (q, f) = requeue m.task_queue key (finished (task_state m key)) in
    record m {
      task_states = try_delete_task_state (store key f m.task_states) key;
      task_queue = q;
      active = leave key m.active;
    }

-- a worker that goes on into the task, or on to the next one
abbrev pub enter : TaskKey → ProbeManager × Bool → ProbeManager × Option TaskKey
enter key (m, true) = (record m { active = key ∷ m.active }, some key)
enter key (m, false) = (m, none)

unfoldable pub begin_with : ProbeManager → Dequeued TaskKey → ProbeManager × Option TaskKey
unfolding mark_task_running
begin_with m stop = (m, none)
begin_with m wait = (m, none)
begin_with m (took key q) = enter key (mark_task_running (record m { task_queue = q }) key)

-- One turn of a worker up to the probe: the task that it runs, if there is one.
unfoldable pub begin_task : ProbeManager → Bool → ProbeManager × Option TaskKey
unfolding dequeue begin_with
begin_task m choose = begin_with m (dequeue m.task_queue choose)

-- `Stop` drops what is pending; workers finish what they are in.
unfoldable pub stop_probes : ProbeManager → ProbeManager
unfolding stop_drop_pending
stop_probes m = record m { task_queue = stop_drop_pending m.task_queue }
