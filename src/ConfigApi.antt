-- ===== src/ConfigApi.antt =====
-- The handlers of src/web/api/config_api.py that write config.yaml: the task of a request, in the child
-- Task, saving and reloading with its rollback, and the three operations on tasks.
pub mod Task
pub mod Request
pub mod Sync
mod Tests
use tdcs.Prelude.{
  String, Option, none, some, List, [], ◌∷◌, ◌++◌, any, keep, length, Bool, true, false, not, ◌&&◌,
  ◌||◌, ◌==◌, text_eq, number_eq, if◌then◌else◌,
}
use tdcs.Prelude.Text.{Text, codes, codes_eq}
use tdcs.Etl.Router.{is_name}
use tdcs.Web.{Reply, ok, error}
use tdcs.Web.Users.{strip}
use tdcs.Config.Yaml.{
  Value, null, str, list, dict, Items, nil, cons, Fields, lookup, get_or, as_dict, as_str, as_list,
  truthy,
}
use tdcs.Config.Schema.{Reading, ConfigError, validate_config, ◌>>=◌}
use tdcs.Config.Build.{Host}
use tdcs.Config.Env.{YamlFile, read_yaml}
use tdcs.Config.Manager.{ConfigManager, Reload, reload}
use tdcs.ConfigApi.Task.{build_task_dict, merge_task_update}
use tdcs.ConfigApi.Request.{
  read_config, is_task, is_task_request, with_tasks, replace_first, id_of, to_items,
}

-- config.yaml, and the manager that has loaded it
pub record ApiState (L : Type 0) : Type 0 where
  pub file : Text
  pub manager : ConfigManager L

-- whether each of the two calls of `_write_config_yaml` raises, which leaves the file as it was,
-- and whether what `reload` raises is a ValueError
pub record Writes : Type 0 where
  pub first_fails : Bool
  pub second_fails : Bool
  pub is_value_error : Bool

-- how `_save_and_reload` ends: it returns, raises a ValueError or another exception, or the
-- RuntimeError of a failed rollback
pub data Saving : Type 0 where
  saved value_error other_error rollback_failed : Saving

abbrev pub as_error : Bool → Saving
as_error true = value_error
as_error false = other_error

abbrev pub reply_of : String → Saving → Reply String
reply_of task_id saved = ok 200 task_id
reply_of task_id value_error = error "INVALID_CONFIG" 400
reply_of task_id other_error = error "CONFIG_RELOAD_FAILED" 500
reply_of task_id rollback_failed = error "CONFIG_RELOAD_FAILED" 500

pub data TaskRequest : Type 0 where
  creates : Fields → TaskRequest
  updates : String → Fields → TaskRequest
  deletes : String → TaskRequest

abbrev pub Done : Type 0 → Type 0
Done L = Reply String × ApiState L

module _ (y : YamlFile) (rd : Reading) (host : Host) {L : Type 0} where
  abbrev pub rolled_back : Writes → Text → Reload L → Saving × ApiState L
  rolled_back w file r =
      if r.raised
      then (rollback_failed, record { file = file; manager = r.manager })
      else (as_error w.is_value_error, record { file = file; manager = r.manager })

  abbrev pub reloaded : Writes → Text → Text → Reload L → Saving × ApiState L
  reloaded w new_file old_file r =
      if r.raised
      then (if w.second_fails
          then (rollback_failed, record { file = new_file; manager = r.manager })
          else rolled_back w old_file (reload rd host (read_yaml y old_file) r.manager))
      else (saved, record { file = new_file; manager = r.manager })

  abbrev pub checked :
      Writes → Value → Value → Option (List ConfigError) → ApiState L → Saving × ApiState L
  checked w cfg old_cfg none s = (other_error, s)
  checked w cfg old_cfg (some (e ∷ es)) s = (value_error, s)
  checked w cfg old_cfg (some []) s =
      if w.first_fails
      then (other_error, s)
      else reloaded w (y.dump cfg) (y.dump old_cfg)
          (reload rd host (read_yaml y (y.dump cfg)) s.manager)

  unfoldable pub save_and_reload : Writes → Fields → Fields → ApiState L → Saving × ApiState L
  save_and_reload w cfg old_cfg s = checked w (dict cfg) (dict old_cfg) (validate_config rd cfg) s

  abbrev pub save : Writes → String → Fields → Fields → ApiState L → Done L
  save w task_id cfg old_cfg s =
      let (how, s') = save_and_reload w cfg old_cfg s in (reply_of task_id how, s')

  -- an exception that the handler does not catch
  abbrev pub internal : ApiState L → Done L
  internal s = (error "INTERNAL_ERROR" 500, s)

  abbrev pub create_in :
      Writes → String → Fields → Option (Fields × List Fields) → ApiState L → Done L
  create_in w task_id request none s = internal s
  create_in w task_id request (some (cfg, tasks)) s =
      if any (is_task task_id) tasks
      then (error "TASK_EXISTS" 409, s)
      else save w task_id (with_tasks (tasks ++ build_task_dict request ∷ []) cfg) cfg s

  abbrev pub replaced_in : Writes → String → Fields → Option (List Fields) → ApiState L → Done L
  replaced_in w task_id cfg none s = internal s
  replaced_in w task_id cfg (some tasks) s = save w task_id (with_tasks tasks cfg) cfg s

  abbrev pub update_in :
      Writes → String → Fields → Option (Fields × List Fields) → ApiState L → Done L
  update_in w task_id request none s = internal s
  update_in w task_id request (some (cfg, tasks)) s =
      if any (is_task task_id) tasks
      then replaced_in w task_id cfg
          (replace_first task_id (λ t. merge_task_update t request) tasks) s
      else (error "TASK_NOT_FOUND" 404, s)

  abbrev pub delete_in : Writes → String → Option (Fields × List Fields) → ApiState L → Done L
  delete_in w task_id none s = internal s
  delete_in w task_id (some (cfg, tasks)) s =
      if task_id == "web_placeholder"
      then (error "PROTECTED_TASK" 400, s)
      else if any (is_task task_id) tasks
      then save w task_id (with_tasks (keep (λ t. not (is_task task_id t)) tasks) cfg) cfg s
      else (error "TASK_NOT_FOUND" 404, s)

  -- the handlers, on the dict of the request's JSON
  unfoldable pub create_task : Writes → Fields → ApiState L → Done L
  unfolding is_task_request read_config to_items
  create_task w request s =
      if is_task_request null request
      then create_in w (id_of (get_or "task_id" null request)) request (read_config y.parse s.file)
          s
      else (error "INVALID_INPUT" 400, s)

  unfoldable pub update_task : Writes → String → Fields → ApiState L → Done L
  unfolding is_task_request read_config replace_first
  update_task w task_id request s =
      if is_task_request (str task_id) request
      then (if id_of (get_or "task_id" (str task_id) request) == task_id
          then update_in w task_id request (read_config y.parse s.file) s
          else (error "TASK_ID_IMMUTABLE" 400, s))
      else (error "INVALID_INPUT" 400, s)

  unfoldable pub delete_task : Writes → String → ApiState L → Done L
  unfolding read_config
  delete_task w task_id s = delete_in w task_id (read_config y.parse s.file) s

  -- the three routes that write
  abbrev pub handle : Writes → TaskRequest → ApiState L → Done L
  handle w (creates request) s = create_task w request s
  handle w (updates task_id request) s = update_task w task_id request s
  handle w (deletes task_id) s = delete_task w task_id s
