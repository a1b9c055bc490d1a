-- ===== src/Pool/Submit.antt =====
-- What `submit` answers and changes.
use tdcs.Prelude.{
  ℕ, ◌+◌, ◌≤◌, String, ◌≡◌, ◌≢◌, refl, List, [], ◌∷◌, ◌++◌, Bool, true, false, arith, ◌==◌, ◌⊎◌,
  All, ap, sym, ◌∙◌, Bool-cases, inl, inr, eq_iff, text_eq, if◌then◌else◌,
}
use mathlib.Core.Bool.{false≢true}
use tdcs.Prelude.Dict.{Dict, get-put, beq_refl}
use tdcs.FileRef.{FileRef}
use tdcs.Breaker.{CircuitState, closed, opened, half_open, CircuitBreaker, allow}
use tdcs.Pool.{
  SubmitResult, queued, rejected_circuit_open, queue_full, WorkerTask, WorkerPool, breaker_of,
  set_breaker, is_full, is_task_paused, queue_backlog, enqueue, submit, pause_task, resume_task,
}

pub breaker_of-set_breaker :
    (t u : String) (b : CircuitBreaker) (p : WorkerPool)
    → breaker_of u (set_breaker t b p) ≡ (if t == u then b else breaker_of u p)
unfolding set_breaker
breaker_of-set_breaker t u b p = ground (arith, get-put t u b p.breakers)

pub queue_backlog-enqueue :
    (ref : FileRef) (prio : ℕ) (u : String) (p : WorkerPool)
    → queue_backlog u (enqueue ref prio p).1 ≡ (
        if is_full p
        then queue_backlog u p
        else if ref.task_id == u
        then queue_backlog u p + 1
        else queue_backlog u p)
unfolding enqueue queue_backlog
queue_backlog-enqueue ref prio u p = ground (
  arith,
  eq_iff ref.task_id u,
  get-put ref.task_id u (queue_backlog ref.task_id p + 1) p.task_queue_counts,
)

-- what an answer says of the queue and of the task's backlog
abbrev pub Changes : FileRef → ℕ → WorkerPool → SubmitResult × WorkerPool → Type 0
Changes ref prio p (queued, p') =
    (p'.queue ≡ p.queue ++ record { priority = prio; ref = ref } ∷ [])
    × (queue_backlog ref.task_id p' ≡ queue_backlog ref.task_id p + 1)
Changes ref prio p (_, p') =
    (p'.queue ≡ p.queue) × (queue_backlog ref.task_id p' ≡ queue_backlog ref.task_id p)

-- A `submit` answered QUEUED appends its entry and adds one to the task's backlog, and any other
-- answer leaves the queue and that backlog as they were.
pub submit-Changes :
    (ref : FileRef) (prio : ℕ) (active : Bool) (now stamp : ℕ) (p : WorkerPool)
    → Changes ref prio p (submit ref prio active now stamp p)
unfolding submit
submit-Changes ref prio false now stamp p = (refl, refl)
submit-Changes ref prio true now stamp p =
    let a = allow now stamp (breaker_of ref.task_id p) in
    ground (
      arith,
      get-put ref.task_id ref.task_id
          (queue_backlog ref.task_id (set_breaker ref.task_id a.1 p) + 1) p.task_queue_counts,
      eq_iff ref.task_id ref.task_id,
    )

-- A `submit` changes neither the breaker nor the backlog of another task, nor who is paused.
pub submit_others :
    (ref : FileRef) (prio : ℕ) (active : Bool) (now stamp : ℕ) (p : WorkerPool) (u : String)
    → ref.task_id ≢ u
    → let p' = (submit ref prio active now stamp p).1 in
      (breaker_of u p' ≡ breaker_of u p)
      × (queue_backlog u p' ≡ queue_backlog u p)
      × (p'.paused ≡ p.paused)
unfolding submit
submit_others ref prio active now stamp p u other =
    let a = allow now stamp (breaker_of ref.task_id p) in
    ground (
      arith,
      get-put ref.task_id u a.1 p.breakers,
      get-put ref.task_id u (queue_backlog ref.task_id (set_breaker ref.task_id a.1 p) + 1)
          p.task_queue_counts,
      eq_iff ref.task_id u,
    )

-- the breaker waits for the outcome of a probe that it let through at a time
abbrev Waits : ℕ → ℕ → CircuitBreaker → Type 0
Waits stamp timeout b =
    (b.state ≡ half_open)
    × (b.half_open_in_progress ≡ true)
    × (b.half_open_at ≡ stamp)
    × (b.recovery_timeout ≡ timeout)

probe-Waits :
    (b : CircuitBreaker) (now stamp : ℕ)
    → b.state ≢ closed
    → (allow now stamp b).0 ≡ true
    → Waits stamp b.recovery_timeout (allow now stamp b).1
unfolding allow
probe-Waits b now stamp o granted = elim (state_cases b.state) [
  | inl c ↦ absurd (o c)
  | inr (inl op) ↦ ground arith
  | inr (inr h) ↦ ground arith
]
  where
    state_cases : (s : CircuitState) → (s ≡ closed) ⊎ (s ≡ opened) ⊎ (s ≡ half_open)
    state_cases closed = inl refl
    state_cases opened = inr (inl refl)
    state_cases half_open = inr (inr refl)

waiting_refuses :
    (b : CircuitBreaker) (at timeout now stamp : ℕ)
    → Waits at timeout b
    → now ≤ at + timeout
    → allow now stamp b ≡ (false, b)
unfolding allow
waiting_refuses b at timeout now stamp (h, p, a, t) soon = rw h (rw p (ground arith))

submit_full :
    (ref : FileRef) (prio now stamp : ℕ) (p : WorkerPool)
    → is_task_paused ref.task_id p ≡ false
    → (allow now stamp (breaker_of ref.task_id p)).0 ≡ true
    → is_full p ≡ true
    → submit ref prio true now stamp p
      ≡ (queue_full, set_breaker ref.task_id (allow now stamp (breaker_of ref.task_id p)).1 p)
unfolding submit
submit_full ref prio now stamp p unpaused granted full = rw unpaused (rw granted (rw full))

submit_refused :
    (ref : FileRef) (prio now stamp : ℕ) (p : WorkerPool)
    → is_task_paused ref.task_id p ≡ false
    → (allow now stamp (breaker_of ref.task_id p)).0 ≡ false
    → (submit ref prio true now stamp p).0 ≡ rejected_circuit_open
unfolding submit
submit_refused ref prio now stamp p unpaused refused = rw unpaused (rw refused)

-- What may happen to the pool while no outcome reaches the task's breaker: submits of any task,
-- pauses and resumptions, and workers that change the queue and the counts.
pub data Later : Type 0 where
  tries : FileRef → ℕ → Bool → ℕ → ℕ → Later
  pauses resumes : String → Later
  works : List WorkerTask → Dict String ℕ → Later

abbrev pub after_later : Later → WorkerPool → WorkerPool
after_later (tries ref prio active now stamp) p = (submit ref prio active now stamp p).1
after_later (pauses tid) p = pause_task tid p
after_later (resumes tid) p = resume_task tid p
after_later (works queue counts) p = record p { queue = queue; task_queue_counts = counts }

abbrev pub after_all : List Later → WorkerPool → WorkerPool
after_all [] p = p
after_all (l ∷ ls) p = after_all ls (after_later l p)

-- the submits of the task are not later than a time
abbrev pub InWindow : String → ℕ → Later → Type 0
InWindow tid limit (tries ref prio active now stamp) = ref.task_id ≡ tid → now ≤ limit
InWindow tid limit (pauses u) = Unit
InWindow tid limit (resumes u) = Unit
InWindow tid limit (works q c) = Unit

waiting_submit :
    (tid : String) (at timeout : ℕ) (ref : FileRef) (prio : ℕ) (active : Bool) (now stamp : ℕ)
    (p : WorkerPool)
    → Waits at timeout (breaker_of tid p)
    → (ref.task_id ≡ tid → now ≤ at + timeout)
    → breaker_of tid (submit ref prio active now stamp p).1 ≡ breaker_of tid p
unfolding submit
waiting_submit tid at timeout ref prio active now stamp p h soon =
    elim (Bool-cases (ref.task_id == tid)) [
      | inr other ↦
          (submit_others ref prio active now stamp p tid
            (λ e. absurd (false≢true (sym other ∙ (eq_iff ref.task_id tid).1 e)))).0
      | inl same ↦
          let q : ref.task_id ≡ tid = (eq_iff ref.task_id tid).0 same in
          let refuses : allow now stamp (breaker_of ref.task_id p)
              ≡ (false, breaker_of ref.task_id p) =
            rw q (waiting_refuses (breaker_of tid p) at timeout now stamp h (soon q)) in
          rw refuses
            (rw q (ground (arith, get-put tid tid (breaker_of tid p) p.breakers, beq_refl tid)))
    ]

waiting_lasts :
    (ls : List Later) (tid : String) (at timeout : ℕ) (p : WorkerPool)
    → Waits at timeout (breaker_of tid p)
    → All (InWindow tid (at + timeout)) ls
    → Waits at timeout (breaker_of tid (after_all ls p))
unfolding pause_task resume_task
waiting_lasts [] tid at timeout p h o = h
waiting_lasts (tries ref prio active now stamp ∷ ls) tid at timeout p h o =
    waiting_lasts ls tid at timeout (submit ref prio active now stamp p).1
      (rw (waiting_submit tid at timeout ref prio active now stamp p h o.0) h) o.1
waiting_lasts (pauses u ∷ ls) tid at timeout p h o =
    waiting_lasts ls tid at timeout (pause_task u p) h o.1
waiting_lasts (resumes u ∷ ls) tid at timeout p h o =
    waiting_lasts ls tid at timeout (resume_task u p) h o.1
waiting_lasts (works q c ∷ ls) tid at timeout p h o =
    waiting_lasts ls tid at timeout (record p { queue = q; task_queue_counts = c }) h o.1

-- A probe that a full queue turns away is lost. Where the breaker is not closed and lets a submit
-- through, which the full queue then refuses, then after any submits, pauses and resumptions of any
-- tasks and any changes of the queue and the counts, while no outcome reaches the task's breaker
-- and its submits are not later than `recovery_timeout` after the stamp of the probe, a submit of
-- the task up to that time is refused by the breaker, on an active instance that has not paused it.
pub submit_full_queue_loses_probe :
    (ref next : FileRef) (prio prio' now stamp now' stamp' : ℕ) (p : WorkerPool) (ls : List Later)
    → let limit = stamp + (breaker_of ref.task_id p).recovery_timeout in
      let (answer, p') = submit ref prio true now stamp p in
      is_task_paused ref.task_id p ≡ false
      → (breaker_of ref.task_id p).state ≢ closed
      → (allow now stamp (breaker_of ref.task_id p)).0 ≡ true
      → is_full p ≡ true
      → All (InWindow ref.task_id limit) ls
      → next.task_id ≡ ref.task_id
      → now' ≤ limit
      → is_task_paused ref.task_id (after_all ls p') ≡ false
      → (answer ≡ queue_full)
        × ((submit next prio' true now' stamp' (after_all ls p')).0 ≡ rejected_circuit_open)
submit_full_queue_loses_probe ref next prio prio' now stamp now' stamp' p ls unpaused o granted full
      in_window same soon unpaused' =
    let tid = ref.task_id in
    let b = breaker_of tid p in
    let b' = (allow now stamp b).1 in
    let first = submit_full ref prio now stamp p unpaused granted full in
    let p' = (submit ref prio true now stamp p).1 in
    let kept : breaker_of tid p' ≡ b' =
      rw first (rw breaker_of-set_breaker (rw (beq_refl {K = String}))) in
    let waits =
      waiting_lasts ls tid stamp b.recovery_timeout p' (rw kept (probe-Waits b now stamp o granted))
        in_window in
    let refuses =
      waiting_refuses (breaker_of tid (after_all ls p')) stamp b.recovery_timeout now' stamp' waits
        soon in
    (
      ap (λ (x : SubmitResult × WorkerPool). x.0) first,
      submit_refused next prio' now' stamp' (after_all ls p') (rw same unpaused')
          (rw same (rw refuses refl)),
    )
