-- ===== src/Pool/Backlog.antt =====
-- The backlog counts against the queue and the tasks that workers hold, over any interleaving of
-- whole submits, worker rounds and management calls.
use tdcs.Prelude.{
  ℕ, ◌+◌, ◌-◌, ◌≤◌, ◌<◌, String, ◌≡◌, refl, ap, List, [], ◌∷◌, ◌++◌, length, count, count-append,
  length-append, All, Bool, true, false, arith, ◌==◌, eq_iff, text_eq, if◌then◌else◌, Bool-cases,
  inl, inr,
}
use tdcs.Prelude.Dict.{get-put}
use tdcs.FileRef.{FileRef}
use tdcs.Breaker.{CircuitBreaker, allow, Event}
use tdcs.Pool.Submit.{queue_backlog-enqueue}
use tdcs.Pool.{
  WorkerTask, WorkerPool, breaker_of, set_breaker, is_full, is_task_paused, queue_backlog, enqueue,
  submit, pause_task, resume_task, remove_breaker, report, Outcome, returned, skipped, raised,
  after_process, count_down, finish,
}

-- The pool, and the tasks that workers have taken and not finished.
pub record System : Type 0 where
  pub pool : WorkerPool
  pub in_flight : List WorkerTask

-- One move. `PriorityQueue.get` hands out an entry of least priority, and which of several such
-- entries it is, is left open; so is the worker that finishes next.
pub data Step (s : System) (t : System) : Type 0 where
  submits :
      (ref : FileRef) (prio : ℕ) (active : Bool) (now stamp : ℕ)
      → t ≡ record s { pool = (submit ref prio active now stamp s.pool).1 }
      → Step s t
  takes :
      (before : List WorkerTask) (w : WorkerTask) (after : List WorkerTask)
      → s.pool.queue ≡ before ++ w ∷ after
      → All (λ v. w.priority ≤ WorkerTask.priority v) (before ++ after)
      → t ≡ record { pool = record s.pool { queue = before ++ after }; in_flight = w ∷ s.in_flight }
      → Step s t
  reports : (tid : String) (e : Event) → t ≡ record s { pool = report tid e s.pool } → Step s t
  finishes :
      (before : List WorkerTask) (w : WorkerTask) (after : List WorkerTask) (outcome : Outcome)
      → s.in_flight ≡ before ++ w ∷ after
      → t ≡ record { pool = finish w outcome s.pool; in_flight = before ++ after }
      → Step s t
  pauses : (tid : String) → t ≡ record s { pool = pause_task tid s.pool } → Step s t
  resumes : (tid : String) → t ≡ record s { pool = resume_task tid s.pool } → Step s t
  removes : (tid : String) → t ≡ record s { pool = remove_breaker tid s.pool } → Step s t

pub data Reach (s : System) : System → Type 0 where
  here : Reach s s
  next : {t u : System} → Reach s t → Step t u → Reach s u

-- the entries of a task
abbrev pub of_task : String → WorkerTask → Bool
of_task u w = w.ref.task_id == u

abbrev pub held : String → System → ℕ
held u s = count (of_task u) s.pool.queue + count (of_task u) s.in_flight

abbrev pub Fits : WorkerPool → Type 0
Fits p = 0 < p.maxsize → length p.queue ≤ p.maxsize

pub record IsCounted (s : System) : Type 0 where
  pub backlog : (u : String) → queue_backlog u s.pool ≡ held u s
  pub fits : Fits s.pool

-- the pool's queue and counts, which are all that `IsCounted` reads
abbrev SameCounts : WorkerPool → WorkerPool → Type 0
SameCounts p q =
    (p.queue ≡ q.queue) × (p.task_queue_counts ≡ q.task_queue_counts) × (p.maxsize ≡ q.maxsize)

IsCounted-same :
    (s : System) (q : WorkerPool)
    → SameCounts q s.pool
    → IsCounted s
    → IsCounted (record s { pool = q })
unfolding queue_backlog
IsCounted-same s q (eq, ec, em) h = record {
  backlog = λ u. rw eq (rw ec (h.backlog u));
  fits = rw eq (rw em h.fits);
}

count-middle :
    (p : WorkerTask → Bool) (xs : List WorkerTask) (w : WorkerTask) (ys : List WorkerTask)
    → count p (xs ++ w ∷ ys) ≡ count p (w ∷ []) + count p (xs ++ ys)
count-middle p xs w ys = ground (arith, count-append p xs (w ∷ ys), count-append p xs ys)

count-enqueue :
    (ref : FileRef) (prio : ℕ) (p : WorkerPool) (test : WorkerTask → Bool)
    → count test (enqueue ref prio p).1.queue ≡ (
        if is_full p
        then count test p.queue
        else count test p.queue + count test (record { priority = prio; ref = ref } ∷ []))
unfolding enqueue
count-enqueue ref prio p test =
    ground (arith, count-append test p.queue (record { priority = prio; ref = ref } ∷ []))

enqueue-Fits : (ref : FileRef) (prio : ℕ) (p : WorkerPool) → Fits p → Fits (enqueue ref prio p).1
unfolding enqueue
enqueue-Fits ref prio p h = elim (Bool-cases (is_full p)) [
  | inl full ↦ rw full h
  | inr room ↦
      rw room
        (λ pos. ground (arith, length-append p.queue (record { priority = prio; ref = ref } ∷ [])))
]

enqueue-counts :
    (ref : FileRef) (prio : ℕ) (s : System)
    → IsCounted s
    → IsCounted (record s { pool = (enqueue ref prio s.pool).1 })
enqueue-counts ref prio s h = record {
  backlog = λ u. ground (
    arith,
    h.backlog u,
    queue_backlog-enqueue ref prio u s.pool,
    count-enqueue ref prio s.pool (of_task u),
  );
  fits = enqueue-Fits ref prio s.pool h.fits;
}

set_breaker-counts :
    (tid : String) (s : System) (b : CircuitBreaker)
    → IsCounted s
    → IsCounted (record s { pool = set_breaker tid b s.pool })
unfolding set_breaker
set_breaker-counts tid s b h = IsCounted-same s (set_breaker tid b s.pool) (refl, refl, refl) h

submit-counts :
    (ref : FileRef) (prio : ℕ) (active : Bool) (now stamp : ℕ) (s : System)
    → IsCounted s
    → IsCounted (record s { pool = (submit ref prio active now stamp s.pool).1 })
unfolding submit
submit-counts ref prio false now stamp s h = h
submit-counts ref prio true now stamp s h =
    let a = allow now stamp (breaker_of ref.task_id s.pool) in
    let asked : System = record s { pool = set_breaker ref.task_id a.1 s.pool } in
    let ok : IsCounted asked = set_breaker-counts ref.task_id s a.1 h in
    elim (Bool-cases (is_task_paused ref.task_id s.pool)) [
      | inl paused ↦ rw paused h
      | inr free ↦ rw free (elim (Bool-cases a.0) [
        | inl granted ↦ rw granted (enqueue-counts ref prio asked ok)
        | inr refused ↦ rw refused ok
      ])
    ]

takes-counts :
    (before : List WorkerTask) (w : WorkerTask) (after : List WorkerTask) (s : System)
    → s.pool.queue ≡ before ++ w ∷ after
    → IsCounted s
    → IsCounted
        (record { pool = record s.pool { queue = before ++ after }; in_flight = w ∷ s.in_flight })
unfolding queue_backlog
takes-counts before w after s e h = record {
  backlog = λ u.
      ground
        (arith, h.backlog u, count-middle (of_task u) before w after, ap (count (of_task u)) e);
  fits = λ pos. omega (
    arith,
    h.fits pos,
    ap (length {A = WorkerTask}) e,
    length-append before (w ∷ after),
    length-append before after,
  );
}

finish-queue :
    (w : WorkerTask) (o : Outcome) (p : WorkerPool)
    → ((finish w o p).queue ≡ p.queue) × ((finish w o p).maxsize ≡ p.maxsize)
unfolding finish
finish-queue w returned p = ground arith
finish-queue w skipped p = ground arith
finish-queue w (raised true now) p = ground arith
finish-queue w (raised false now) p = ground arith

queue_backlog-after :
    (tid : String) (o : Outcome) (u : String) (p : WorkerPool)
    → queue_backlog u (after_process tid o p) ≡ queue_backlog u p
unfolding after_process queue_backlog
queue_backlog-after tid returned u p = refl
queue_backlog-after tid skipped u p = refl
queue_backlog-after tid (raised true now) u p = refl
queue_backlog-after tid (raised false now) u p = refl

queue_backlog-count_down :
    (tid u : String) (p : WorkerPool)
    → queue_backlog u (count_down tid p)
      ≡ (if tid == u then queue_backlog u p - 1 else queue_backlog u p)
unfolding count_down
queue_backlog-count_down tid u p =
    ground (arith, eq_iff tid u, get-put tid u (queue_backlog tid p - 1) p.task_queue_counts)

queue_backlog-finish :
    (w : WorkerTask) (o : Outcome) (u : String) (p : WorkerPool)
    → queue_backlog u (finish w o p)
      ≡ (if of_task u w then queue_backlog u p - 1 else queue_backlog u p)
unfolding finish
queue_backlog-finish w o u p =
    rw (queue_backlog-count_down w.ref.task_id u (after_process w.ref.task_id o p))
      (rw (queue_backlog-after w.ref.task_id o u p))

finishes-counts :
    (before : List WorkerTask) (w : WorkerTask) (after : List WorkerTask) (o : Outcome) (s : System)
    → s.in_flight ≡ before ++ w ∷ after
    → IsCounted s
    → IsCounted (record { pool = finish w o s.pool; in_flight = before ++ after })
finishes-counts before w after o s e h = record {
  backlog = λ u. ground (
    arith,
    h.backlog u,
    finish-queue w o s.pool,
    queue_backlog-finish w o u s.pool,
    count-middle (of_task u) before w after,
    ap (count (of_task u)) e,
  );
  fits = λ pos. ground (arith, h.fits, finish-queue w o s.pool);
}

Step-IsCounted : {s t : System} → Step s t → IsCounted s → IsCounted t
unfolding report pause_task resume_task remove_breaker
Step-IsCounted {s} (submits ref prio active now stamp e) h =
    rw e (submit-counts ref prio active now stamp s h)
Step-IsCounted {s} (takes before w after q least e) h = rw e (takes-counts before w after s q h)
Step-IsCounted {s} (reports tid ev e) h =
    rw e (IsCounted-same s (report tid ev s.pool) (refl, refl, refl) h)
Step-IsCounted {s} (finishes before w after o q e) h = rw e (finishes-counts before w after o s q h)
Step-IsCounted {s} (pauses tid e) h =
    rw e (IsCounted-same s (pause_task tid s.pool) (refl, refl, refl) h)
Step-IsCounted {s} (resumes tid e) h =
    rw e (IsCounted-same s (resume_task tid s.pool) (refl, refl, refl) h)
Step-IsCounted {s} (removes tid e) h =
    rw e (IsCounted-same s (remove_breaker tid s.pool) (refl, refl, refl) h)

-- Where each submit is one move, however submits, worker rounds and management calls interleave,
-- each task's backlog is the number of its entries that are queued or that a worker holds, and a
-- bounded queue never holds more than its bound.
pub Reach-IsCounted : {s t : System} → IsCounted s → Reach s t → IsCounted t
Reach-IsCounted h here = h
Reach-IsCounted h (next r st) = Step-IsCounted st (Reach-IsCounted h r)
