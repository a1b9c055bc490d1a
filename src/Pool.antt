-- ===== src/Pool.antt =====
-- `WorkerPool` of src/infrastructure/worker_pool.py: submission through the task's breaker into a
-- bounded priority queue, the worker's side of the queue, and the counts for each task. The
-- supervisor is in the child module.
pub mod Submit
pub mod Backlog
pub mod Supervisor
mod Tests
use tdcs.Prelude.{
  ℕ, suc, ◌+◌, ◌-◌, String, Option, none, some, List, [], ◌∷◌, ◌++◌, length, keep, map, Bool, true,
  false, not, ◌&&◌, ltb, leb, ◌==◌, text_eq, if◌then◌else◌,
}
use tdcs.Prelude.Dict.{Dict, get, put, pop, or_else, is_some, contains, add, discard}
use tdcs.FileRef.{FileRef}
use tdcs.Breaker.{
  CircuitState, opened, CircuitBreaker, new_breaker, allow, record_failure, Event, handle,
}

pub data SubmitResult : Type 0 where
  queued rejected_circuit_open rejected_ha_standby rejected_task_paused queue_full : SubmitResult

pub record WorkerTask : Type 0 where
  pub priority : ℕ
  pub ref : FileRef

-- `queue` holds the entries of the priority queue; `maxsize` 0 means no bound
pub record WorkerPool : Type 0 where
  pub queue : List WorkerTask
  pub maxsize : ℕ
  pub breakers : Dict String CircuitBreaker
  pub paused : List String
  pub task_queue_counts : Dict String ℕ

-- `WorkerPool.__init__`
abbrev pub new_pool : ℕ → WorkerPool
new_pool queue_maxsize = record {
  queue = [];
  maxsize = queue_maxsize;
  breakers = [];
  paused = [];
  task_queue_counts = [];
}

-- the breaker of a task, made on first use
abbrev pub breaker_of : String → WorkerPool → CircuitBreaker
breaker_of tid p = or_else (get tid p.breakers) new_breaker

-- `_get_breaker`, and a method called on what it returns
unfoldable pub set_breaker : String → CircuitBreaker → WorkerPool → WorkerPool
set_breaker tid b p = record p { breakers = put tid b p.breakers }

abbrev pub is_full : WorkerPool → Bool
is_full p = ltb 0 p.maxsize && leb p.maxsize (length p.queue)

unfoldable pub is_task_paused : String → WorkerPool → Bool
is_task_paused tid p = contains tid p.paused

unfoldable pub queue_backlog : String → WorkerPool → ℕ
queue_backlog tid p = or_else (get tid p.task_queue_counts) 0

-- `put_nowait` and the count behind it, or queue.Full
unfoldable pub enqueue : FileRef → ℕ → WorkerPool → SubmitResult × WorkerPool
unfolding queue_backlog
enqueue ref priority p = if is_full p then (queue_full, p) else (
  queued,
  record p {
    queue = p.queue ++ record { priority = priority; ref = ref } ∷ [];
    task_queue_counts = put ref.task_id (queue_backlog ref.task_id p + 1) p.task_queue_counts;
  },
)

-- `now` and `stamp` are what the breaker reads from the clock
unfoldable pub submit : FileRef → ℕ → Bool → ℕ → ℕ → WorkerPool → SubmitResult × WorkerPool
unfolding is_task_paused set_breaker enqueue
submit ref priority is_active now stamp p =
    if is_active
    then (if is_task_paused ref.task_id p
        then (rejected_task_paused, p)
        else (let (granted, b) = allow now stamp (breaker_of ref.task_id p) in
            let p' = set_breaker ref.task_id b p in
            if granted then enqueue ref priority p' else (rejected_circuit_open, p')))
    else (rejected_ha_standby, p)

unfoldable pub pause_task : String → WorkerPool → WorkerPool
pause_task tid p = record p { paused = add tid p.paused }

unfoldable pub resume_task : String → WorkerPool → WorkerPool
resume_task tid p = record p { paused = discard tid p.paused }

unfoldable pub paused_count : WorkerPool → ℕ
paused_count p = length p.paused

-- the state's name is returned, and the breaker is made if there is none
unfoldable pub get_breaker_state : String → WorkerPool → CircuitState × WorkerPool
unfolding set_breaker
get_breaker_state tid p = let b = breaker_of tid p in (b.state, set_breaker tid b p)

abbrev is_opened : CircuitState → Bool
is_opened opened = true
is_opened _ = false

unfoldable pub list_open_breakers : WorkerPool → List String
list_open_breakers p = map (λ e. e.0) (keep (λ e. is_opened (CircuitBreaker.state e.1)) p.breakers)

unfoldable pub remove_breaker : String → WorkerPool → WorkerPool
remove_breaker tid p = record p { breakers = pop tid p.breakers }

unfoldable pub queue_size : WorkerPool → ℕ
queue_size p = length p.queue

-- What `process_fn` does to the task's breaker while it runs.
unfoldable pub report : String → Event → WorkerPool → WorkerPool
unfolding set_breaker
report tid e p = set_breaker tid (handle (breaker_of tid p) e) p

-- How `process_fn` ends: it returns, raises SkipFileError, or raises anything else, at a time, and
-- whether the breaker that the worker fetched before the call is then still the task's one; a
-- breaker that was removed meanwhile takes the failure with it.
pub data Outcome : Type 0 where
  returned skipped : Outcome
  raised : Bool → ℕ → Outcome

-- the `except` clauses of `_work`
unfoldable pub after_process : String → Outcome → WorkerPool → WorkerPool
unfolding set_breaker
after_process tid (raised true now) p = set_breaker tid (record_failure now (breaker_of tid p)) p
after_process tid (raised false now) p = p
after_process tid _ p = p

-- the `finally` clause
unfoldable pub count_down : String → WorkerPool → WorkerPool
unfolding queue_backlog
count_down tid p =
    if ltb 0 (queue_backlog tid p)
    then record p { task_queue_counts = put tid (queue_backlog tid p - 1) p.task_queue_counts }
    else p

-- the end of one round of `_work`, after the call of `process_fn`
unfoldable pub finish : WorkerTask → Outcome → WorkerPool → WorkerPool
unfolding after_process count_down
finish t outcome p = count_down t.ref.task_id (after_process t.ref.task_id outcome p)
