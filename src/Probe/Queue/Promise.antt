-- ===== src/Probe/Queue/Promise.antt =====
-- internal/probe/manager.go: what `probeTaskQueue` promises its callers.
use resin.Prelude.{ℕ, Bool, true, false, ◌||◌, List, [], ◌∷◌, ◌++◌, leb, length, if◌then◌else◌, ◌≡◌}
use resin.Probe.Queue.{
  TaskQueue, Priority, normal, high, Dequeued, stop, wait, took, enqueue, dequeue,
  stop_drop_pending,
}
use resin.Probe.Queue.Contents.{Holds}

-- A call of a producer, of a worker with the answer of its coin, or of the shutdown.
pub data Call (T : Type 0) : Type 0 where
  put : T → Priority → Call T
  take : Bool → Call T
  halt : Call T

-- What the caller sees; a worker that waits has seen nothing yet.
pub data Answer (T : Type 0) : Type 0 where
  accepted : Bool → Answer T
  got : T → Answer T
  waits closed halted : Answer T

-- What the queue promises: two bounded lists in the order of arrival, until it is closed.
pub record Pending (T : Type 0) : Type 0 where
  pub urgent : List T
  pub regular : List T
  pub is_closed : Bool

module _ {T : Type 0} where
  abbrev pub answer_of : TaskQueue T → Dequeued T → Answer T × TaskQueue T
  answer_of q stop = (closed, q)
  answer_of q wait = (waits, q)
  answer_of q (took task q') = (got task, q')

  unfoldable pub step : TaskQueue T → Call T → Answer T × TaskQueue T
  step q (put task priority) = let (q', ok) = enqueue q task priority in (accepted ok, q')
  step q (take choose) = answer_of q (dequeue q choose)
  step q halt = (halted, stop_drop_pending q)

  unfoldable pub run : TaskQueue T → List (Call T) → List (Answer T) × TaskQueue T
  unfolding step
  run q [] = ([], q)
  run q (c ∷ calls) =
      let (a, q') = step q c in let (answers, q'') = run q' calls in (a ∷ answers, q'')

  abbrev pub take_regular : List T → List T → Answer T × Pending T
  take_regular us [] = (waits, record { urgent = us; regular = []; is_closed = false })
  take_regular us (t ∷ rs) = (got t, record { urgent = us; regular = rs; is_closed = false })

  abbrev pub take_urgent : List T → List T → Answer T × Pending T
  take_urgent [] rs = (waits, record { urgent = []; regular = rs; is_closed = false })
  take_urgent (t ∷ us) rs = (got t, record { urgent = us; regular = rs; is_closed = false })

  -- A worker takes the oldest urgent task; the oldest regular one if there is no urgent one, or if
  -- there are both and the coin says so.
  abbrev pub promised_take : List T → List T → Bool → Answer T × Pending T
  promised_take [] rs choose = take_regular [] rs
  promised_take (t ∷ us) [] choose = take_urgent (t ∷ us) []
  promised_take (t ∷ us) (r ∷ rs) true = take_regular (t ∷ us) (r ∷ rs)
  promised_take (t ∷ us) (r ∷ rs) false = take_urgent (t ∷ us) (r ∷ rs)

  module _ (high_cap normal_cap : ℕ) where
    abbrev pub promised : Pending T → Call T → Answer T × Pending T
    promised p (put task high) =
        if p.is_closed || leb high_cap (length p.urgent)
        then (accepted false, p)
        else (accepted true, record p { urgent = p.urgent ++ task ∷ [] })
    promised p (put task normal) =
        if p.is_closed || leb normal_cap (length p.regular)
        then (accepted false, p)
        else (accepted true, record p { regular = p.regular ++ task ∷ [] })
    promised p (take choose) =
        if p.is_closed then (closed, p) else promised_take p.urgent p.regular choose
    promised p halt = (halted, record { urgent = []; regular = []; is_closed = true })

    abbrev pub promised_run : Pending T → List (Call T) → List (Answer T)
    promised_run p [] = []
    promised_run p (c ∷ calls) =
        let (a, p') = promised p c in let answers = promised_run p' calls in a ∷ answers

  -- The queue stands for the lists.
  pub record Refines (high_cap normal_cap : ℕ) (q : TaskQueue T) (p : Pending T) : Type 0 where
    pub urgent : Holds high_cap q.high_tasks p.urgent
    pub regular : Holds normal_cap q.normal_tasks p.regular
    pub stopped_same : q.stopped ≡ p.is_closed
    pub high_limit : q.high_cap ≡ high_cap
    pub normal_limit : q.normal_cap ≡ normal_cap

  -- The step answers what is promised, and goes on to refine it.
  abbrev pub Follows : ℕ → ℕ → Answer T × TaskQueue T → Answer T × Pending T → Type 0
  Follows hc nc (a, q) (b, p) = (a ≡ b) × Refines hc nc q p
