-- ===== src/Pool/Supervisor.antt =====
-- `WorkerPool._supervise`: one pass over the workers, which restarts the dead ones with a backoff.
-- Times are in seconds, and `now - t < 300` is `now < t + 300`.
use tdcs.Prelude.{
  ℕ, ◌+◌, ◌≤◌, ◌≡◌, refl, List, [], ◌∷◌, ◌++◌, map, length, count, keep, count-append,
  count-le-length, length-append, Bool, true, false, arith, ltb, leb, if◌then◌else◌,
}

abbrev pub restart_window : ℕ
restart_window = 300

abbrev pub restart_max : ℕ
restart_max = 3

-- a worker's thread, its entry of `_restart_times`, and its membership of `_disabled_workers`
pub record Worker : Type 0 where
  pub alive : Bool
  pub restart_times : List ℕ
  pub disabled : Bool

-- `start`: a worker that has just been started
abbrev pub started : Worker
started = record { alive = true; restart_times = []; disabled = false }

-- `now - t < _RESTART_WINDOW`
abbrev pub recent : ℕ → ℕ → Bool
recent now t = ltb now (t + restart_window)

-- the body of the loop over the workers
unfoldable pub check_worker : ℕ → Worker → Worker
check_worker now w =
    if w.disabled
    then w
    else if w.alive
    then w
    else (let times = keep (recent now) w.restart_times in
        if leb restart_max (length times)
        then record w { restart_times = times; disabled = true }
        else record w { restart_times = times ++ now ∷ []; alive = true })

-- one pass of `_supervise`
unfoldable pub supervise : ℕ → List Worker → List Worker
supervise now = map (check_worker now)

-- `active_count`
unfoldable pub active_count : List Worker → ℕ
active_count = count (λ w. w.alive)

-- What happens to one worker: its thread dies, or a pass looks at it.
pub data Tick : Type 0 where
  dies : Tick
  pass : ℕ → Tick

-- a worker with every time at which a pass restarted it
pub record Watched : Type 0 where
  pub worker : Worker
  pub log : List ℕ

-- a pass restarts the worker exactly if it finds it dead and leaves it alive
unfoldable pub tick : Watched → Tick → Watched
tick s dies = record s { worker = record s.worker { alive = false } }
tick s (pass now) =
    let w = check_worker now s.worker in
    record {
      worker = w;
      log = if s.worker.alive then s.log else if w.alive then s.log ++ now ∷ [] else s.log;
    }

unfoldable pub watch : Watched → List Tick → Watched
watch s [] = s
watch s (e ∷ es) = watch (tick s e) es

-- the passes come at times that never fall, from `since` on
abbrev pub InOrder : ℕ → List Tick → Type 0
InOrder since [] = Unit
InOrder since (dies ∷ es) = InOrder since es
InOrder since (pass now ∷ es) = (since ≤ now) × InOrder now es

abbrev pub last_pass : ℕ → List Tick → ℕ
last_pass since [] = since
last_pass since (dies ∷ es) = last_pass since es
last_pass since (pass now ∷ es) = last_pass now es

-- the recorded times stand for all restarts that are still recent, and are at most three
record Tracks (since : ℕ) (s : Watched) : Type 0 where
  within : (t : ℕ) → since ≤ t → count (recent t) s.log ≤ count (recent t) s.worker.restart_times
  few : length s.worker.restart_times ≤ restart_max

count-keep_older :
    (now t : ℕ) (ts : List ℕ)
    → now ≤ t
    → count (recent t) (keep (recent now) ts) ≡ count (recent t) ts
count-keep_older now t [] h = refl
count-keep_older now t (x ∷ xs) h = ground (arith, count-keep_older now t xs h)

length-keep : (p : ℕ → Bool) (ts : List ℕ) → length (keep p ts) ≤ length ts
length-keep p [] = omega arith
length-keep p (x ∷ xs) = ground (arith, length-keep p xs)

tick-Tracks_pass :
    (since now : ℕ) (s : Watched) → since ≤ now → Tracks since s → Tracks now (tick s (pass now))
unfolding tick check_worker
tick-Tracks_pass since now s le h = record {
  within = λ t later. ground (
    arith,
    h.within t,
    count-keep_older now t s.worker.restart_times later,
    count-append (recent t) s.log (now ∷ []),
    count-append (recent t) (keep (recent now) s.worker.restart_times) (now ∷ []),
  );
  few = ground (
    arith,
    h.few,
    length-keep (recent now) s.worker.restart_times,
    length-append (keep (recent now) s.worker.restart_times) (now ∷ []),
  );
}

tick-Tracks_dies : (since : ℕ) (s : Watched) → Tracks since s → Tracks since (tick s dies)
unfolding tick
tick-Tracks_dies since s h = record { within = h.within; few = h.few }

watch-Tracks :
    (since : ℕ) (s : Watched) (es : List Tick)
    → InOrder since es
    → Tracks since s
    → Tracks (last_pass since es) (watch s es)
unfolding watch
watch-Tracks since s [] o h = h
watch-Tracks since s (dies ∷ es) o h =
    watch-Tracks since (tick s dies) es o (tick-Tracks_dies since s h)
watch-Tracks since s (pass now ∷ es) o h =
    watch-Tracks now (tick s (pass now)) es o.1 (tick-Tracks_pass since now s o.0 h)

-- However a freshly started worker dies and whenever the passes come, as long as their times never
-- fall, at no time from the last pass on have more than three of its restarts happened within the
-- last 300 seconds.
pub restarts_bounded :
    (es : List Tick) (t : ℕ)
    → InOrder 0 es
    → last_pass 0 es ≤ t
    → count (recent t) (watch (record { worker = started; log = [] }) es).log ≤ restart_max
restarts_bounded es t o later =
    let s = watch (record { worker = started; log = [] }) es in
    let h : Tracks (last_pass 0 es) s =
      watch-Tracks 0 (record { worker = started; log = [] }) es o
        (record { within = λ t' _. omega arith; few = omega arith }) in
    omega (arith, h.within t later, h.few, count-le-length (recent t) s.worker.restart_times)

-- A pass never stops a live worker, and it starts a dead one again unless that one is disabled
-- before or after the pass; a worker that is disabled stays as it is in every later pass.
pub check_worker_outcome :
    (now later : ℕ) (w : Worker)
    → let w' = check_worker now w in
      (w.alive ≡ true → w' ≡ w)
      × (w'.alive ≡ false → w'.disabled ≡ true)
      × (w'.disabled ≡ true → check_worker later w' ≡ w')
unfolding check_worker
check_worker_outcome now later w = ground arith
