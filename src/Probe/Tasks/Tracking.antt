-- ===== src/Probe/Tasks/Tracking.antt =====
-- internal/probe/manager.go: the flags of the tasks follow the queue and the workers.
use resin.Prelude.{
  ℕ, ◌+◌, Bool, true, false, not, ◌&&◌, ◌||◌, Option, none, some, List, [], ◌∷◌, ◌==◌,
  if◌then◌else◌, ◌≡◌, refl, arith, sym, ◌∙◌, subst, indicator, if_cases,
}
use resin.Map.{Map, load, store, remove, Distinct}
use resin.Map.Laws.{load-store, load-remove, store-Distinct, remove-Distinct}
use resin.Probe.Queue.Promise.{Pending, Refines}
use resin.Probe.Tasks.{TaskKey, task_key, TaskState, ProbeManager, is_idle, try_delete_task_state}
use resin.Probe.Tasks.Tokens.{is_waiting}

-- how many workers are in the task
abbrev pub times : TaskKey → List TaskKey → ℕ
times key [] = 0
times key (k ∷ ks) = indicator (k == key) + times key ks

-- A task has a state exactly while it is queued or a worker is in it, never both and never two
-- workers; one that is queued has a token, unless the queue was stopped; urgency is of a queued task
-- and an urgent later request is a later request.
abbrev pub IsTracked : Option TaskState → Bool → Bool → ℕ → Type 0
IsTracked none token shut n = n ≡ 0
IsTracked (some f) token shut n =
    (n ≡ indicator f.running)
    × (f.queued && f.running ≡ false)
    × (f.queued || f.running ≡ true)
    × (f.queued_high && not f.queued ≡ false)
    × (f.dirty_high && not f.dirty ≡ false)
    × (not f.queued || token || shut ≡ true)

pub record IsTracking (m : ProbeManager) : Type 0 where
  pub high_cap : ℕ
  pub normal_cap : ℕ
  pub pending : Pending TaskKey
  pub refines : Refines high_cap normal_cap m.task_queue pending
  pub distinct : Distinct m.task_states
  pub each :
      (key : TaskKey)
      → IsTracked
          (load key m.task_states)
          (is_waiting key pending)
          pending.is_closed
          (times key m.active)

pub IsTracked-more :
    (o : Option TaskState) (token token' shut : Bool) (n : ℕ)
    → (token ≡ true → token' ≡ true)
    → IsTracked o token shut n
    → IsTracked o token' shut n
IsTracked-more none token token' shut n more h = h
IsTracked-more (some f) true token' shut n more h = ground (arith, h, more refl)
IsTracked-more (some f) false true shut n more h = ground (arith, h)
IsTracked-more (some f) false false shut n more h = h

abbrev pub unless_idle : Option TaskState → Option TaskState
unless_idle none = none
unless_idle (some f) = if is_idle f then none else some f

pub load-try_delete :
    (key j : TaskKey) (states : Map TaskKey TaskState)
    → Distinct states
    → load j (try_delete_task_state states key)
      ≡ (if key == j then unless_idle (load key states) else load j states)
unfolding try_delete_task_state
load-try_delete key j states d = ground (arith, load-remove key j states d)

pub load-try_delete_stored :
    (key j : TaskKey) (f : TaskState) (states : Map TaskKey TaskState)
    → Distinct states
    → load j (try_delete_task_state (store key f states) key)
      ≡ (if key == j then unless_idle (some f) else load j states)
load-try_delete_stored key j f states d =
    load-try_delete key j (store key f states) (store-Distinct key f states d)
    ∙ ground (arith, load-store key key f states, load-store key j f states)

pub try_delete-Distinct :
    (key : TaskKey) (states : Map TaskKey TaskState)
    → Distinct states
    → Distinct (try_delete_task_state states key)
unfolding try_delete_task_state
try_delete-Distinct key states d =
    elim (load key states)
      as (λ (o : Option TaskState).
        Distinct
          (elim o [ none ↦ states | some f ↦ if is_idle f then remove key states else states ])) [
            | none ↦ d
            | some f ↦
                if_cases (λ (s : Map TaskKey TaskState). Distinct s) (is_idle f)
                  (λ _. remove-Distinct key states d) (λ _. d)
          ]

module _ (m : ProbeManager) (key : TaskKey) (k : IsTracking m) where
  -- One task changes.
  pub advance :
      (m' : ProbeManager) (p' : Pending TaskKey) (o' : Option TaskState)
      → Refines k.high_cap k.normal_cap m'.task_queue p'
      → p'.is_closed ≡ k.pending.is_closed
      → ((j : TaskKey) → key == j ≡ false → is_waiting j k.pending ≡ true → is_waiting j p' ≡ true)
      → Distinct m'.task_states
      → ((j : TaskKey) → load j m'.task_states ≡ (if key == j then o' else load j m.task_states))
      → ((j : TaskKey) → key == j ≡ false → times j m'.active ≡ times j m.active)
      → IsTracked o' (is_waiting key p') p'.is_closed (times key m'.active)
      → IsTracking m'
  advance m' p' o' refines shut tokens d states workers own = record {
    high_cap = k.high_cap;
    normal_cap = k.normal_cap;
    pending = p';
    refines = refines;
    distinct = d;
    each = λ j. elim (task_key.dec key j) [
      | yes e ↦
          subst
            (λ (i : TaskKey).
              IsTracked (load i m'.task_states) (is_waiting i p') p'.is_closed (times i m'.active))
            e
            (subst
              (λ (o : Option TaskState).
                IsTracked o (is_waiting key p') p'.is_closed (times key m'.active))
              (sym (states key ∙ ground arith)) own)
      | no ne ↦
          let apart : key == j ≡ false = ground (arith, ne) in
          rw (states j, apart, workers j apart, shut)
            (IsTracked-more (load j m.task_states) _ _ k.pending.is_closed (times j m.active)
              (tokens j apart) (k.each j))
    ];
  }
