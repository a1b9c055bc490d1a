-- ===== src/Tasks/Steps.antt =====
-- What each step of the task manager does to the watcher and the scanner of a task.
use tdcs.Prelude.{
  String, ◌≡◌, refl, ap, ◌∙◌, Option, none, some, List, [], ◌∷◌, Bool, true, false, ◌||◌, arith,
  ◌==◌, eq_iff, text_eq, if◌then◌else◌, Bool-cases, inl, inr,
}
use tdcs.Prelude.Dict.{get, contains, get-put, get-pop}
use tdcs.Config.Models.{TaskConfig}
use tdcs.Tasks.{
  TaskManager, Starting, starts, Env, Done, then_do, stop_task, has_threads, start_threads,
  start_found, start_task, start_each, retire, restart, resume_task,
}

-- the tasks for which the watcher and the scanner of `task_id` run
abbrev pub Threads : Type 0
Threads = Option TaskConfig × Option TaskConfig

abbrev pub threads : String → TaskManager → Threads
threads id m = (get id m.watchers, get id m.scanners)

abbrev pub both : Option TaskConfig → Threads
both t = (t, t)

pub threads-stop_task :
    (k id : String) (m : TaskManager)
    → threads id (stop_task k m) ≡ (if k == id then both none else threads id m)
unfolding stop_task
threads-stop_task k id m = rw (get-pop k id m.watchers, get-pop k id m.scanners) (by_test (k == id))
  where
    by_test :
        (b : Bool)
        → (if b then none else get id m.watchers, if b then none else get id m.scanners)
          ≡ (if b then both none else threads id m)
    by_test true = refl
    by_test false = refl

-- The start of this task would succeed.
abbrev pub CanStart : Env → Option TaskConfig → Starting → Type 0
CanStart env none how = Unit
CanStart env (some task) how = (env.is_dir task.monitor_folder ≡ true) × (how ≡ starts)

-- what a successful start leaves for the task that it is called with
abbrev pub started_as : Option TaskConfig → Threads → Threads
started_as none before = before
started_as (some task) before = both (some task)

pub start_task-threads :
    (env : Env) (k : String) (m : TaskManager)
    → CanStart env (get k env.index) (env.starting k)
    → ((start_task env k m).0 ≡ true)
      × ((id : String)
          → threads id (start_task env k m).1
            ≡ (if k == id then started_as (get k env.index) (threads id m) else threads id m))
unfolding start_task
start_task-threads env k m ok = found (get k env.index) ok
  where
    kept : (id : String) (b : Bool) → threads id m ≡ (if b then threads id m else threads id m)
    kept id true = refl
    kept id false = refl

    put_in :
        (t : TaskConfig) (m' : TaskManager) (id : String)
        → ((k == id) ≡ false → threads id m' ≡ threads id m)
        → threads id (start_threads starts k t m').1
          ≡ (if k == id then both (some t) else threads id m)
    put_in t m' id same =
        rw (get-put k id t m'.watchers, get-put k id t m'.scanners)
          (elim (Bool-cases (k == id)) [ inl e ↦ rw e refl | inr e ↦ rw e (same e) ])

    at_most_stopped :
        (b : Bool) (id : String)
        → (k == id) ≡ false
        → threads id (if b then stop_task k m else m) ≡ threads id m
    at_most_stopped true id e = threads-stop_task k id m ∙ rw e refl
    at_most_stopped false id e = refl

    found :
        (o : Option TaskConfig)
        → CanStart env o (env.starting k)
        → ((start_found env k o m).0 ≡ true)
          × ((id : String)
              → threads id (start_found env k o m).1
                ≡ (if k == id then started_as o (threads id m) else threads id m))
    found none ok = (refl, (λ id. kept id (k == id)))
    found (some t) (dir, how) =
        rw (dir, how)
          (
            refl,
            (λ id.
                put_in t (if has_threads k m then stop_task k m else m) id
                  (at_most_stopped (has_threads k m) id)),
          )

pub threads-retire :
    (ks : List String) (id : String) (m : TaskManager)
    → threads id (retire ks m) ≡ (if contains id ks then both none else threads id m)
unfolding retire contains
threads-retire [] id m = refl
threads-retire (k ∷ ks) id m =
    threads-retire ks id (resume_task k (stop_task k m))
    ∙ at_key (k == id) (threads-stop_task k id m)
  where
    gone : (b : Bool) {t : Threads} → t ≡ both none → (if b then both none else t) ≡ both none
    gone true h = refl
    gone false h = h

    at_key :
        (b : Bool)
        → threads id (stop_task k m) ≡ (if b then both none else threads id m)
        → (if contains id ks then both none else threads id (stop_task k m))
          ≡ (if b || contains id ks then both none else threads id m)
    at_key true h = gone (contains id ks) h
    at_key false h = rw h refl

-- Each of these starts would succeed, and is of a task that the index has.
abbrev pub AllCanStart : Env → List String → Type 0
AllCanStart env ids =
    (id : String)
    → contains id ids ≡ true
    → (t : TaskConfig) × (get id env.index ≡ some t)
      × (env.is_dir t.monitor_folder ≡ true)
      × (env.starting id ≡ starts)

-- All starts of a loop succeeded, and each task of it runs as the index has it.
abbrev pub AllStarted : Env → List String → TaskManager → Done → Type 0
AllStarted env ids m done =
    (done.0 ≡ true)
    × ((id : String)
        → threads id done.1 ≡ (if contains id ids then both (get id env.index) else threads id m))

pub then_do-true : (d : Done) (next : TaskManager → Done) → d.0 ≡ true → then_do d next ≡ next d.1
then_do-true (true, m) next h = refl
then_do-true (false, m) next h = ground arith

-- the step that both loops share: `m'` is `m`, but perhaps for the task that is started
start_then :
    (env : Env) (k : String) (ks : List String) (m m' : TaskManager) (next : TaskManager → Done)
    → AllCanStart env (k ∷ ks)
    → ((id : String) → (k == id) ≡ false → threads id m' ≡ threads id m)
    → ((m'' : TaskManager) → AllStarted env ks m'' (next m''))
    → AllStarted env (k ∷ ks) m (then_do (start_task env k m') next)
unfolding contains
start_then env k ks m m' next ok same rest =
    let (t, found, dir, how) = ok k (rw ((eq_iff k k).1 refl) refl) in
    let started = start_task-threads env k m' (can_start t found dir how) in
    let m'' = (start_task env k m').1 in
    rw (then_do-true (start_task env k m') next started.0)
      ((rest m'').0, (λ id. (rest m'').1 id ∙ at_key id (k == id) refl t found (started.1 id)))
  where
    can_start :
        (t : TaskConfig)
        → get k env.index ≡ some t
        → env.is_dir t.monitor_folder ≡ true
        → env.starting k ≡ starts
        → CanStart env (get k env.index) (env.starting k)
    can_start t e dir how = rw e (dir, how)

    as_found :
        {o : Option TaskConfig} {t : TaskConfig} (u : Threads)
        → o ≡ some t
        → started_as o u ≡ both o
    as_found u h = rw h refl

    settled : (b : Bool) {u v : Threads} → u ≡ v → (if b then v else u) ≡ v
    settled true h = refl
    settled false h = h

    at_key :
        (id : String) (b : Bool)
        → (k == id) ≡ b
        → (t : TaskConfig) → get k env.index ≡ some t
        → threads id (start_task env k m').1
          ≡ (if b then started_as (get k env.index) (threads id m') else threads id m')
        → (if contains id ks then both (get id env.index) else threads id (start_task env k m').1)
          ≡ (if b || contains id ks then both (get id env.index) else threads id m)
    at_key id true e t found h =
        settled (contains id ks) (
          h ∙ as_found (threads id m') found ∙ ap (λ j. both (get j env.index)) ((eq_iff k id).0 e))
    at_key id false e t found h = rw (h ∙ same id e) refl

pub start_each-AllStarted :
    (env : Env) (ks : List String) (m : TaskManager)
    → AllCanStart env ks
    → AllStarted env ks m (start_each env ks m)
unfolding start_each contains
start_each-AllStarted env [] m ok = (refl, (λ id. refl))
start_each-AllStarted env (k ∷ ks) m ok =
    start_then env k ks m m (start_each env ks) ok (λ id e. refl)
      (λ m''. start_each-AllStarted env ks m'' (λ id h. ok id (ground (arith, h))))

pub restart-AllStarted :
    (env : Env) (ks : List String) (m : TaskManager)
    → AllCanStart env ks
    → AllStarted env ks m (restart env ks m)
unfolding restart contains
restart-AllStarted env [] m ok = (refl, (λ id. refl))
restart-AllStarted env (k ∷ ks) m ok =
    start_then env k ks m (stop_task k m) (restart env ks) ok
      (λ id e. threads-stop_task k id m ∙ rw e refl)
      (λ m''. restart-AllStarted env ks m'' (λ id h. ok id (ground (arith, h))))
