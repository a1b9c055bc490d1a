-- ===== src/Tasks.antt =====
-- `TaskManager` of src/core/task_manager.py: which tasks have a watcher and a scanner, and how a
-- new configuration changes that. Whether a directory is there and how the start of a thread
-- ends come from outside. A watcher or scanner is there when the manager has registered it; the
-- scanner of a task whose poll_interval is not above 0 is registered but starts no thread.
pub mod Keys
pub mod Steps
pub mod Sync
pub mod Starts
mod Tests
use tdcs.Prelude.{
  ℕ, ◌++◌, String, Option, none, some, List, [], ◌∷◌, map, keep, Bool, true, false, not, ◌&&◌, ◌||◌,
  ◌==◌, text_eq, if◌then◌else◌,
}
use tdcs.Prelude.Dict.{Dict, get, put, pop, is_some, contains, add}
use tdcs.Prelude.Text.{Text, codes, codes_eq}
use tdcs.FileRef.{FileRef}
use tdcs.Archive.{File, Disk}
use tdcs.Archive.FilePath.{join, basename, splitext}
use tdcs.Pool.{WorkerPool, submit, pause_task as pool_pause, resume_task as pool_resume}
use tdcs.Config.Yaml.{Value, truthy}
use tdcs.Config.Models.{TaskConfig, AppConfig}
use tdcs.Config.Manager.{index_from}

-- each watcher and scanner with the task that it was made for
pub record TaskManager : Type 0 where
  pub watchers : Dict String TaskConfig
  pub scanners : Dict String TaskConfig
  pub pool : WorkerPool

-- how the calls of `start_task` on the observer and the scanner end
pub data Starting : Type 0 where
  starts raises : Starting

-- `self._cm`, the file system and the threads, as they are during one operation
pub record Env : Type 0 where
  pub index : Dict String TaskConfig
  pub is_dir : Value → Bool
  pub starting : String → Starting

-- whether the call returned, and the state it left
abbrev pub Done : Type 0
Done = Bool × TaskManager

-- a statement after another, where the first may have raised
abbrev pub then_do : Done → (TaskManager → Done) → Done
then_do (true, m) next = next m
then_do (false, m) next = (false, m)

-- `_stop_task_locked`
unfoldable pub stop_task : String → TaskManager → TaskManager
stop_task task_id m = record m {
  watchers = pop task_id m.watchers;
  scanners = pop task_id m.scanners;
}

unfoldable pub has_threads : String → TaskManager → Bool
has_threads task_id m = is_some (get task_id m.watchers) || is_some (get task_id m.scanners)

-- the `try` block of `start_task` and its handler
abbrev pub start_threads : Starting → String → TaskConfig → TaskManager → Done
start_threads starts task_id task m = (
  true,
  record m { watchers = put task_id task m.watchers; scanners = put task_id task m.scanners },
)
start_threads raises task_id task m =
    (false, record m { watchers = pop task_id m.watchers; scanners = pop task_id m.scanners })

abbrev pub start_found : Env → String → Option TaskConfig → TaskManager → Done
start_found env task_id none m = (true, m)
start_found env task_id (some task) m =
    if env.is_dir task.monitor_folder
    then start_threads (env.starting task_id) task_id task
        (if has_threads task_id m then stop_task task_id m else m)
    else (false, m)

unfoldable pub start_task : Env → String → TaskManager → Done
start_task env task_id m = start_found env task_id (get task_id env.index) m

unfoldable pub start_each : Env → List String → TaskManager → Done
start_each env [] m = (true, m)
start_each env (task_id ∷ ids) m = then_do (start_task env task_id m) (start_each env ids)

-- `start_all`; its loop skips the tasks that are not enabled
unfoldable pub start_all : Env → List TaskConfig → TaskManager → Done
start_all env tasks m =
    start_each env (map TaskConfig.task_id (keep (λ t. truthy t.enabled) tasks)) m

abbrev pub pause_task : String → TaskManager → TaskManager
pause_task task_id m = record m { pool = pool_pause task_id m.pool }

abbrev pub resume_task : String → TaskManager → TaskManager
resume_task task_id m = record m { pool = pool_resume task_id m.pool }

-- the scanner whose `scan_now` is called, if any
abbrev pub trigger_task : String → TaskManager → Option TaskConfig
trigger_task task_id m = get task_id m.scanners

-- the keys of a dict, added to a set
unfoldable pub all_keys {ℓ} : {V : Type ℓ} → Dict String V → List String → List String
all_keys [] s = s
all_keys ((k, v) ∷ d) s = add k (all_keys d s)

-- the loops of `_on_config_changed` over the tasks that are gone and over those that changed
unfoldable pub retire : List String → TaskManager → TaskManager
retire [] m = m
retire (task_id ∷ ids) m = retire ids (resume_task task_id (stop_task task_id m))

unfoldable pub restart : Env → List String → TaskManager → Done
restart env [] m = (true, m)
restart env (task_id ∷ ids) m =
    then_do (start_task env task_id (stop_task task_id m)) (restart env ids)

abbrev pub is_enabled : Option TaskConfig → Bool
is_enabled none = false
is_enabled (some task) = truthy task.enabled

abbrev pub old_index : Option AppConfig → Dict String TaskConfig
old_index none = []
old_index (some config) = index_from [] config.tasks

-- `old_tasks.get(task_id) != new_tasks[task_id]`, for a key of `new_tasks`, where `differs` is `!=`
-- on two values of `TaskConfig`
module _ (differs : TaskConfig → TaskConfig → Bool) where
  abbrev pub has_changed : Option TaskConfig → Option TaskConfig → Bool
  has_changed old none = false
  has_changed none (some new) = true
  has_changed (some old) (some new) = differs old new

-- `order` lists a set as Python iterates it.
module _ (differs : TaskConfig → TaskConfig → Bool) (order : List String → List String) where
  -- `_on_config_changed`, `env.index` being `new_tasks`
  unfoldable pub sync : Env → Dict String TaskConfig → TaskManager → Done
  unfolding all_keys
  sync env old_tasks m =
      let running_ids = all_keys m.watchers (all_keys m.scanners []) in
      let changed_ids =
        keep (λ id. has_changed differs (get id old_tasks) (get id env.index)) running_ids in
      let removed_or_disabled = keep (λ id. not (is_enabled (get id env.index))) running_ids in
      let new_ids =
        keep
          (λ id.
            is_enabled (get id env.index)
            && (not (contains id running_ids) && not (contains id removed_or_disabled)))
          (all_keys env.index []) in
      then_do
        (restart env (order (keep (λ id. not (contains id removed_or_disabled)) changed_ids))
          (retire (order removed_or_disabled) m))
        (start_each env new_ids)

  -- the listener that `reload` calls, behind `self._cm.add_listener`
  unfoldable pub on_config_changed :
      (Value → Bool) → (String → Starting) → Option AppConfig → AppConfig → TaskManager → Done
  on_config_changed is_dir starting old_config new_config m =
      sync (record { index = index_from [] new_config.tasks; is_dir = is_dir; starting = starting })
        (old_index old_config) m

-- `_on_file_detected`, with what the pool reads from its clock; `as_priority` is the number that a
-- validated priority is
abbrev pub submit_for :
    (Value → ℕ) → Bool → ℕ → ℕ → FileRef → Option TaskConfig → TaskManager → TaskManager
submit_for as_priority is_active now stamp ref none m = m
submit_for as_priority is_active now stamp ref (some task) m = record m {
  pool = (submit ref (as_priority task.priority) is_active now stamp m.pool).1;
}

unfoldable pub on_file_detected :
    (Value → ℕ) → Env → Bool → ℕ → ℕ → FileRef → TaskManager → TaskManager
on_file_detected as_priority env is_active now stamp ref m =
    submit_for as_priority is_active now stamp ref (get ref.task_id env.index) m

-- `shutil.move`, where it goes through and where it raises
abbrev pub move_file : Bool → Text → Text → Option File → Disk → Disk
move_file fails src dst none disk = disk
move_file true src dst (some file) disk = disk
move_file false src dst (some file) disk = put dst file (pop src disk)

-- `move_to_dead_letter`, on the directory of the task, if the task is there; `uid` is random
unfoldable pub move_to_dead_letter : Option Text → Text → Bool → Text → Disk → Disk
move_to_dead_letter none uid fails path disk = disk
move_to_dead_letter (some []) uid fails path disk = disk
move_to_dead_letter (some (c ∷ dir)) uid fails path disk =
    let (name, ext) = splitext (basename path) in
    move_file fails path (join (c ∷ dir) (name ++ (codes "_" ++ (uid ++ ext)))) (get path disk) disk
