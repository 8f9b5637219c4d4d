-- ===== src/Tests/Probes.antt =====
-- internal/probe/manager.go: a queue of two urgent places and one regular place.
use resin.Prelude.{ℕ, ◌≤◌, true, false, List, [], ◌∷◌, ◌≡◌, refl, length}
use resin.Probe.Queue.{
  Priority, high, normal, new_task_queue, enqueue, dequeue, take_high, take_normal, push, pop,
  compact, buffer_len, stop_drop_pending, drop,
}
use resin.Probe.Queue.Promise.{
  Call, put, take, halt, accepted, got, waits, closed, halted, step, run,
}
use resin.Probe.Queue.Order.{queue_refines, queue_bounds}
use resin.Probe.Tasks.{
  TaskKey, task_key, latency, ProbeManager, new_probe_manager, queue_cap_for, enqueue_probe,
  begin_task, begin_with, mark_task_running, run_from, enqueue_new, mark_dirty, task_state,
  finish_task, finished, requeue, leave, try_delete_task_state, is_idle,
}
use resin.Probe.Tasks.Tracking.{times}
use resin.Probe.Tasks.Runs.{
  Run, start, next, requests, begins, finishes, has_token, is_there, tasks_tracked,
}
use resin.Probe.Tasks.Kept.{requests_kept}
use resin.Probe.Trace.{TextCalls, parse_cloudflare_trace, split_lines, parse_lines, after_prefix}
use resin.Netip.{v4}
use resin.Prelude.{none, some, ◌==◌, string_key}
use resin.Map.{load, store, remove, Distinct}
use resin.Prelude.{◌<◌, ◌||◌, ◌&&◌, not, if◌then◌else◌, indicator, arith, nat_key}

abbrev calls : List (Call ℕ)
calls =
    put 5 normal
    ∷ put 6 normal
    ∷ put 7 high
    ∷ put 8 high
    ∷ put 9 high
    ∷ take false
    ∷ take true
    ∷ take false
    ∷ take false
    ∷ halt
    ∷ put 1 high
    ∷ take false
    ∷ []

queue_refines_example :
    (run (new_task_queue 2 1) calls).0
    ≡ accepted true
      ∷ accepted false
      ∷ accepted true
      ∷ accepted true
      ∷ accepted false
      ∷ got 7
      ∷ got 5
      ∷ got 8
      ∷ waits
      ∷ halted
      ∷ accepted false
      ∷ closed
      ∷ []
unfolding new_task_queue
queue_refines_example = queue_refines 2 1 calls

queue_bounds_example :
    (length (run (new_task_queue 2 1) calls).1.high_tasks.items ≤ 68)
    × (length (run (new_task_queue 2 1) calls).1.normal_tasks.items ≤ 66)
unfolding new_task_queue
queue_bounds_example = queue_bounds 2 1 calls

-- The queue computes what it promises.
calls_run : (run (new_task_queue 2 1) calls).0 ≡ (
    accepted true
    ∷ accepted false
    ∷ accepted true
    ∷ accepted true
    ∷ accepted false
    ∷ got 7
    ∷ got 5
    ∷ got 8
    ∷ waits
    ∷ halted
    ∷ accepted false
    ∷ closed
    ∷ [])
unfolding new_task_queue run step enqueue dequeue take_high take_normal push pop compact buffer_len
    stop_drop_pending drop
calls_run = refl

-- A node whose latency probe is requested, begun, requested again while it runs, and finished.
abbrev task : TaskKey
task = record { hash = 5; kind = latency }

abbrev begun : ProbeManager
begun = (begin_task (enqueue_probe (new_probe_manager 1 2) task normal).0 false).0

abbrev requested_again : ProbeManager
requested_again = (enqueue_probe begun task high).0

requested_again_worker : times task requested_again.active ≡ 1
unfolding enqueue_probe new_probe_manager begin_task begin_with mark_task_running run_from
    enqueue_new mark_dirty task_state load store queue_cap_for new_task_queue enqueue dequeue
    take_normal push pop compact buffer_len task_key
requested_again_worker = refl

requested_again_inside : 0 < times task requested_again.active
requested_again_inside = omega (arith, requested_again_worker)

finished_run : Run 1 2 (finish_task requested_again task)
finished_run =
    next (next (next (next start (requests task normal)) (begins false)) (requests task high))
      (finishes task requested_again_inside)

abbrev after : ProbeManager
after = finish_task requested_again task

tasks_tracked_example :
    let f = task_state after task in
    (times task after.active ≡ indicator f.running)
    × (f.queued && f.running ≡ false)
    × (is_there (load task after.task_states) ≡ f.queued || f.running)
    × (not f.queued || has_token after.task_queue task || after.task_queue.stopped ≡ true)
tasks_tracked_example = tasks_tracked 1 2 after task finished_run

requested_again-Distinct : Distinct requested_again.task_states
unfolding enqueue_probe new_probe_manager begin_task begin_with mark_task_running run_from
    enqueue_new mark_dirty task_state load store queue_cap_for new_task_queue enqueue dequeue
    take_normal push pop compact buffer_len task_key
requested_again-Distinct = (refl, tt)

requests_kept_example :
    let (m, taken) = enqueue_probe requested_again task normal in
    let refused = λ (p : Priority). not (enqueue requested_again.task_queue task p).1 in
    let again = if (task_state requested_again task).dirty_high then high else normal in
    ((if taken then (task_state m task).queued else (task_state m task).dirty || refused normal)
      ≡ true)
    × (not (task_state requested_again task).dirty
          || (task_state after task).queued
          || refused again
        ≡ true)
requests_kept_example = requests_kept requested_again task normal requested_again-Distinct

-- The second request makes the task queued again after the first run.
queued_again : (task_state after task).queued ≡ true
unfolding enqueue_probe new_probe_manager begin_task begin_with mark_task_running run_from
    enqueue_new mark_dirty task_state load store remove queue_cap_for new_task_queue enqueue dequeue
    take_normal push pop compact buffer_len task_key finish_task finished requeue leave
    try_delete_task_state is_idle
queued_again = refl

-- The calls of Go's library, given for the texts of this trace.
abbrev texts : TextCalls
texts = record {
  parse_addr = λ s. if s == "1.2.3.4" then some (v4 16909060) else none;
  trim_space = λ s. s;
  to_lower = λ s. if s == "JP" then "jp" else s;
}

trace_read : parse_cloudflare_trace texts "ip=1.2.3.4\nloc=JP\n" ≡ some (v4 16909060, some "jp")
unfolding parse_cloudflare_trace split_lines parse_lines after_prefix string_key nat_key
trace_read = refl

trace_without_ip : parse_cloudflare_trace texts "loc=JP\n" ≡ none
unfolding parse_cloudflare_trace split_lines parse_lines after_prefix string_key nat_key
trace_without_ip = refl
