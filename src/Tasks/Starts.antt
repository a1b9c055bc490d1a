-- ===== src/Tasks/Starts.antt =====
-- The loop of `start_all`, where the start of one task fails.
use tdcs.Prelude.{
  String, ◌≡◌, refl, ap, some, List, [], ◌∷◌, ◌++◌, map, keep, Bool, true, false, text_eq,
  if◌then◌else◌,
}
use tdcs.Prelude.Dict.{get, contains}
use tdcs.Config.Yaml.{truthy}
use tdcs.Config.Models.{TaskConfig}
use tdcs.Tasks.{TaskManager, Env, Done, then_do, start_task, start_each, start_all}
use tdcs.Tasks.Steps.{threads, both, AllCanStart, then_do-true, start_each-AllStarted}

-- the identifiers that its loop starts
abbrev pub enabled_ids : List TaskConfig → List String
enabled_ids tasks = map TaskConfig.task_id (keep (λ t. truthy t.enabled) tasks)

enabled_ids-append :
    (xs ys : List TaskConfig) → enabled_ids (xs ++ ys) ≡ enabled_ids xs ++ enabled_ids ys
enabled_ids-append [] ys = refl
enabled_ids-append (x ∷ xs) ys = by_test (truthy x.enabled) (enabled_ids-append xs ys)
  where
    by_test :
        (b : Bool)
        → enabled_ids (xs ++ ys) ≡ enabled_ids xs ++ enabled_ids ys
        → map TaskConfig.task_id (
            if b
            then x ∷ keep (λ (t : TaskConfig). truthy t.enabled) (xs ++ ys)
            else keep (λ (t : TaskConfig). truthy t.enabled) (xs ++ ys))
          ≡ map TaskConfig.task_id (
              if b
              then x ∷ keep (λ (t : TaskConfig). truthy t.enabled) xs
              else keep (λ (t : TaskConfig). truthy t.enabled) xs)
            ++ enabled_ids ys
    by_test true h = ap (◌∷◌ x.task_id) h
    by_test false h = h

start_each-append :
    (env : Env) (ks js : List String) (m : TaskManager)
    → start_each env (ks ++ js) m ≡ then_do (start_each env ks m) (start_each env js)
unfolding start_each
start_each-append env [] js m = refl
start_each-append env (k ∷ ks) js m = by_done (start_task env k m) (start_each-append env ks js)
  where
    by_done :
        (d : Done)
        → ((m' : TaskManager)
            → start_each env (ks ++ js) m' ≡ then_do (start_each env ks m') (start_each env js))
        → then_do d (start_each env (ks ++ js))
          ≡ then_do (then_do d (start_each env ks)) (start_each env js)
    by_done (true, m') h = h m'
    by_done (false, m') h = refl

missing_folder :
    (env : Env) (task : TaskConfig) (m : TaskManager)
    → get task.task_id env.index ≡ some task
    → env.is_dir task.monitor_folder ≡ false
    → start_task env task.task_id m ≡ (false, m)
unfolding start_task
missing_folder env task m found no_dir = rw (found, no_dir) refl

start_each-missing_folder :
    (env : Env) (task : TaskConfig) (behind : List TaskConfig) (m : TaskManager)
    → truthy task.enabled ≡ true
    → get task.task_id env.index ≡ some task
    → env.is_dir task.monitor_folder ≡ false
    → start_each env (enabled_ids (task ∷ behind)) m ≡ (false, m)
unfolding start_each
start_each-missing_folder env task behind m on found no_dir =
    rw (on, missing_folder env task m found no_dir) refl

-- `start_all` stops at the first enabled task whose folder is missing: it raises, the tasks before
-- it are started, and for every other task, also those behind it whose folders are there, the
-- watcher and the scanner are as they were.
pub start_all-missing_folder :
    (env : Env) (before : List TaskConfig) (task : TaskConfig) (behind : List TaskConfig)
    (m : TaskManager)
    → AllCanStart env (enabled_ids before)
    → truthy task.enabled ≡ true
    → get task.task_id env.index ≡ some task
    → env.is_dir task.monitor_folder ≡ false
    → let done = start_all env (before ++ task ∷ behind) m in
      (done.0 ≡ false)
      × ((id : String)
          → threads id done.1
            ≡ (if contains id (enabled_ids before) then both (get id env.index) else threads id m))
unfolding start_all
start_all-missing_folder env before task behind m can on found no_dir =
    let started = start_each-AllStarted env (enabled_ids before) m can in
    let m' = (start_each env (enabled_ids before) m).1 in
    rw
      (
        enabled_ids-append before (task ∷ behind),
        start_each-append env (enabled_ids before) (enabled_ids (task ∷ behind)) m,
        then_do-true (start_each env (enabled_ids before) m)
            (start_each env (enabled_ids (task ∷ behind))) started.0,
        start_each-missing_folder env task behind m' on found no_dir,
      )
      (refl, started.1)
