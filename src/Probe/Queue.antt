-- ===== src/Probe/Queue.antt =====
-- internal/probe/manager.go: the task queue. The mutex makes each method one step; a `Dequeue` that
-- would wait is `Wait`, a step that is tried again when it is signalled.
pub mod Contents
pub mod Promise
pub mod Order
use resin.Prelude.{
  ℕ, zero, suc, ◌+◌, ◌-◌, ◌*◌, Bool, true, false, ◌&&◌, ◌||◌, Option, none, some, List, [], ◌∷◌,
  ◌++◌, ltb, leb, length, get_elem?, if◌then◌else◌,
}

unfoldable pub drop {ℓ} : {A : Type ℓ} → ℕ → List A → List A
drop zero xs = xs
drop (suc n) [] = []
drop (suc n) (x ∷ xs) = drop n xs

-- Go's slice with an index of its first live item
pub record Buffer (T : Type 0) : Type 0 where
  pub items : List T
  pub head : ℕ

module _ {T : Type 0} where
  abbrev pub new_buffer : Buffer T
  new_buffer = record { items = []; head = 0 }

  unfoldable pub buffer_len : Buffer T → ℕ
  buffer_len b = length b.items - b.head

  unfoldable pub push : Buffer T → T → Buffer T
  push b task = record b { items = b.items ++ task ∷ [] }

  -- the buffer after the head has moved on
  unfoldable pub compact : Buffer T → Buffer T
  unfolding drop
  compact b =
      if leb (length b.items) b.head
      then new_buffer
      else if ltb 64 b.head && leb (length b.items) (b.head * 2)
      then record { items = drop b.head b.items; head = 0 }
      else b

  -- `none` is the index error on an empty buffer
  unfoldable pub pop : Buffer T → Option (T × Buffer T)
  unfolding compact
  pop b = elim (get_elem? b.items b.head) [
    | none ↦ none
    | some task ↦ some (task, compact (record b { head = b.head + 1 }))
  ]

pub data Priority : Type 0 where
  normal high : Priority

pub record TaskQueue (T : Type 0) : Type 0 where
  pub high_tasks : Buffer T
  pub normal_tasks : Buffer T
  pub high_cap : ℕ
  pub normal_cap : ℕ
  pub stopped : Bool

-- What `Dequeue` does under the lock.
pub data Dequeued (T : Type 0) : Type 0 where
  stop : Dequeued T
  wait : Dequeued T
  took : T → TaskQueue T → Dequeued T

abbrev pub default_queue_cap : ℕ
default_queue_cap = 1024

module _ {T : Type 0} where
  -- a capacity of 0 stands for any that is not positive
  unfoldable pub new_task_queue : ℕ → ℕ → TaskQueue T
  new_task_queue high_cap normal_cap = record {
    high_tasks = new_buffer;
    normal_tasks = new_buffer;
    high_cap = if ltb 0 high_cap then high_cap else default_queue_cap;
    normal_cap = if ltb 0 normal_cap then normal_cap else default_queue_cap;
    stopped = false;
  }

  unfoldable pub enqueue : TaskQueue T → T → Priority → TaskQueue T × Bool
  unfolding buffer_len push
  enqueue q task high =
      if q.stopped || leb q.high_cap (buffer_len q.high_tasks)
      then (q, false)
      else (record q { high_tasks = push q.high_tasks task }, true)
  enqueue q task normal =
      if q.stopped || leb q.normal_cap (buffer_len q.normal_tasks)
      then (q, false)
      else (record q { normal_tasks = push q.normal_tasks task }, true)

  unfoldable pub take_high : TaskQueue T → Dequeued T
  unfolding pop
  take_high q = elim (pop q.high_tasks) [
    | none ↦ wait
    | some (task, b) ↦ took task (record q { high_tasks = b })
  ]

  unfoldable pub take_normal : TaskQueue T → Dequeued T
  unfolding pop
  take_normal q = elim (pop q.normal_tasks) [
    | none ↦ wait
    | some (task, b) ↦ took task (record q { normal_tasks = b })
  ]

  -- `choose` is what `chooseNormalWhenBoth` answers
  unfoldable pub dequeue : TaskQueue T → Bool → Dequeued T
  unfolding buffer_len take_high take_normal
  dequeue q choose =
      let has_high = ltb 0 (buffer_len q.high_tasks) in
      let has_normal = ltb 0 (buffer_len q.normal_tasks) in
      if q.stopped
      then stop
      else if has_high && has_normal
      then (if choose then take_normal q else take_high q)
      else if has_high
      then take_high q
      else if has_normal
      then take_normal q
      else wait

  unfoldable pub stop_drop_pending : TaskQueue T → TaskQueue T
  stop_drop_pending q = record q {
    high_tasks = new_buffer;
    normal_tasks = new_buffer;
    stopped = true;
  }
