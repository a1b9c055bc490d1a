-- ===== src/ConfigApi/Sync.antt =====
-- The manager's configuration and the file agree after every request that writes.
use tdcs.Prelude.{
  ℕ, String, ◌≡◌, ◌≢◌, refl, ap, sym, ◌∙◌, Option, none, some, List, [], ◌∷◌, ◌++◌, any, keep, Bool,
  true, false, not, ◌==◌, text_eq, if◌then◌else◌, Bool-cases, inl, inr,
}
use tdcs.Prelude.Text.{Text}
use tdcs.Web.{Reply, ok, error}
use tdcs.Config.Yaml.{str, null, dict, Fields, get_or}
use tdcs.Config.Schema.{Reading, ConfigError, validate_config}
use tdcs.Config.Models.{AppConfig}
use tdcs.Config.Build.{Host}
use tdcs.Config.Env.{YamlFile, read_yaml}
use tdcs.Config.Manager.{ConfigManager, prepare, reload, stored, index_from}
use tdcs.ConfigApi.{
  ApiState, Writes, Saving, saved, value_error, other_error, rollback_failed, checked, reloaded,
  rolled_back, as_error, save_and_reload, reply_of, Done, save, create_in, update_in, replaced_in,
  delete_in, create_task, update_task, delete_task, TaskRequest, creates, updates, deletes, handle,
}
use tdcs.ConfigApi.Request.{read_config, is_task, is_task_request, with_tasks, replace_first, id_of}
use tdcs.ConfigApi.Task.{build_task_dict, merge_task_update}

module _ (y : YamlFile) (rd : Reading) (host : Host) {L : Type 0} where
  -- The manager runs the configuration that it would load from the file.
  abbrev pub InSync : ApiState L → Type 0
  InSync s =
      (c : AppConfig) × (s.manager.config ≡ some c)
      × (s.manager.task_index ≡ index_from [] c.tasks)
      × (prepare rd host (read_yaml y s.file) ≡ some c)

  -- Where the file is written again from what the handlers read of it, it loads as before.
  abbrev pub Backup : ApiState L → Fields → Type 0
  Backup s old = read_yaml y (y.dump (dict old)) ≡ read_yaml y s.file

  -- In step afterwards, and on the old configuration unless the operation went through.
  abbrev pub StaysInSync : ApiState L → Saving × ApiState L → Type 0
  StaysInSync s (how, s') =
      InSync s' × (how ≢ saved → s'.manager.config ≡ s.manager.config) × (how ≢ rollback_failed)

  stored-InSync :
      (file : Text) (m : ConfigManager L) (c : AppConfig)
      → prepare rd host (read_yaml y file) ≡ some c
      → InSync (record { file = file; manager = (reload rd host (read_yaml y file) m).manager })
  unfolding reload
  stored-InSync file m c e = (c, rw e refl, rw e refl, e)

  rolled_back-StaysInSync :
      (w : Writes) (s : ApiState L) (file : Text) (c : AppConfig) (m : ConfigManager L)
      → s.manager.config ≡ some c
      → prepare rd host (read_yaml y file) ≡ some c
      → StaysInSync s (rolled_back y rd host w file (reload rd host (read_yaml y file) m))
  unfolding reload
  rolled_back-StaysInSync w s file c m was e =
      rw e ((c, refl, refl, e), (λ h. sym was), failed w.is_value_error)
    where
      failed : (b : Bool) → as_error b ≢ rollback_failed
      failed true = cc
      failed false = cc

  reloaded-StaysInSync :
      (w : Writes) (s : ApiState L) (new_file : Text) (old : Fields)
      → InSync s
      → Backup s old
      → w.second_fails ≡ false
      → StaysInSync s (
          reloaded y rd host w new_file
            (y.dump (dict old))
            (reload rd host (read_yaml y new_file) s.manager))
  unfolding reload
  reloaded-StaysInSync w s new_file old (c, was, index, loads) again writes =
      by_config (prepare rd host (read_yaml y new_file)) refl
    where
      same_config : prepare rd host (read_yaml y (y.dump (dict old))) ≡ some c
      same_config = ap (prepare rd host) again ∙ loads

      by_config :
          (o : Option AppConfig)
          → prepare rd host (read_yaml y new_file) ≡ o
          → StaysInSync s (reloaded y rd host w new_file (y.dump (dict old)) (stored s.manager o))
      by_config (some d) e = ((d, refl, refl, e), (λ h. absurd (h refl)), cc)
      by_config none e =
          rw writes (rolled_back-StaysInSync w s (y.dump (dict old)) c s.manager was same_config)

  save_and_reload-StaysInSync :
      (w : Writes) (cfg old : Fields) (s : ApiState L)
      → InSync s
      → Backup s old
      → w.second_fails ≡ false
      → StaysInSync s (save_and_reload y rd host w cfg old s)
  unfolding save_and_reload
  save_and_reload-StaysInSync w cfg old s synced backup writes = by_errors (validate_config rd cfg)
    where
      by_errors :
          (o : Option (List ConfigError))
          → StaysInSync s (checked y rd host w (dict cfg) (dict old) o s)
      by_errors none = (synced, (λ h. refl), cc)
      by_errors (some (e ∷ es)) = (synced, (λ h. refl), cc)
      by_errors (some []) = elim (Bool-cases w.first_fails) [
        | inl fails ↦ rw fails (synced, (λ h. refl), cc)
        | inr writes1 ↦
            rw writes1 (reloaded-StaysInSync w s (y.dump (dict cfg)) old synced backup writes)
      ]

  -- In step afterwards, and on the old configuration if the answer is an error.
  abbrev pub Answered : ApiState L → Done L → Type 0
  Answered s r =
      InSync r.1
      × ((code : String) (status : ℕ)
          → r.0 ≡ error code status
          → r.1.manager.config ≡ s.manager.config)

  unchanged : (s : ApiState L) (reply : Reply String) → InSync s → Answered s (reply, s)
  unchanged s reply synced = (synced, (λ code status e. refl))

  save-Answered :
      (task_id : String) (s : ApiState L) (r : Saving × ApiState L)
      → StaysInSync s r
      → Answered s (reply_of task_id r.0, r.1)
  save-Answered task_id s (saved, s') h =
      (h.0, (λ code status (e : ok 200 task_id ≡ error code status). absurd cc))
  save-Answered task_id s (value_error, s') h = (h.0, (λ code status e. h.1 cc))
  save-Answered task_id s (other_error, s') h = (h.0, (λ code status e. h.1 cc))
  save-Answered task_id s (rollback_failed, s') h = (h.0, (λ code status e. h.1 cc))

  module _ (w : Writes) (writes : w.second_fails ≡ false) (s : ApiState L) (synced : InSync s)
      (again : (old : Fields) (tasks : List Fields)
        → read_config y.parse s.file ≡ some (old, tasks)
        → read_yaml y (y.dump (dict old)) ≡ read_yaml y s.file) where
    save-InSync :
        (task_id : String) (cfg old : Fields) (tasks : List Fields)
        → read_config y.parse s.file ≡ some (old, tasks)
        → Answered s (save y rd host w task_id cfg old s)
    save-InSync task_id cfg old tasks read =
        save-Answered task_id s (save_and_reload y rd host w cfg old s)
          (save_and_reload-StaysInSync w cfg old s synced (again old tasks read) writes)

    branch :
        (b : Bool) (x y : Done L) → Answered s x → Answered s y → Answered s (if b then x else y)
    branch true x y hx hy = hx
    branch false x y hx hy = hy

    refused : (code : String) (status : ℕ) → Answered s (error code status, s)
    refused code status = unchanged s (error code status) synced

    create-Answered : (request : Fields) → Answered s (create_task y rd host w request s)
    unfolding create_task
    create-Answered request =
        branch (is_task_request null request) _ _ (by_file (read_config y.parse s.file) refl)
          (refused "INVALID_INPUT" 400)
      where
        by_file :
            (o : Option (Fields × List Fields))
            → read_config y.parse s.file ≡ o
            → Answered s (create_in y rd host w (id_of (get_or "task_id" null request)) request o s)
        by_file none e = refused "INTERNAL_ERROR" 500
        by_file (some (cfg, tasks)) e =
            branch (any (is_task (id_of (get_or "task_id" null request))) tasks) _ _
              (refused "TASK_EXISTS" 409)
              (save-InSync _ (with_tasks (tasks ++ build_task_dict request ∷ []) cfg) cfg tasks e)

    update-Answered :
        (task_id : String) (request : Fields)
        → Answered s (update_task y rd host w task_id request s)
    unfolding update_task
    update-Answered task_id request =
        branch (is_task_request (str task_id) request) _ _
          (branch (id_of (get_or "task_id" (str task_id) request) == task_id) _ _
            (by_file (read_config y.parse s.file) refl) (refused "TASK_ID_IMMUTABLE" 400))
          (refused "INVALID_INPUT" 400)
      where
        by_tasks :
            (cfg : Fields) (tasks : List Fields)
            → read_config y.parse s.file ≡ some (cfg, tasks)
            → (o : Option (List Fields)) → Answered s (replaced_in y rd host w task_id cfg o s)
        by_tasks cfg tasks e none = refused "INTERNAL_ERROR" 500
        by_tasks cfg tasks e (some tasks') = save-InSync task_id (with_tasks tasks' cfg) cfg tasks e

        by_file :
            (o : Option (Fields × List Fields))
            → read_config y.parse s.file ≡ o
            → Answered s (update_in y rd host w task_id request o s)
        by_file none e = refused "INTERNAL_ERROR" 500
        by_file (some (cfg, tasks)) e =
            branch (any (is_task task_id) tasks) _ _
              (by_tasks cfg tasks e
                (replace_first task_id (λ t. merge_task_update t request) tasks))
              (refused "TASK_NOT_FOUND" 404)

    delete-Answered : (task_id : String) → Answered s (delete_task y rd host w task_id s)
    unfolding delete_task
    delete-Answered task_id = by_file (read_config y.parse s.file) refl
      where
        by_file :
            (o : Option (Fields × List Fields))
            → read_config y.parse s.file ≡ o
            → Answered s (delete_in y rd host w task_id o s)
        by_file none e = refused "INTERNAL_ERROR" 500
        by_file (some (cfg, tasks)) e =
            branch (task_id == "web_placeholder") _ _ (refused "PROTECTED_TASK" 400) (
              branch (any (is_task task_id) tasks) _ _
                (save-InSync task_id (with_tasks (keep (λ t. not (is_task task_id t)) tasks) cfg)
                  cfg tasks e)
                (refused "TASK_NOT_FOUND" 404))

    -- A request that creates, changes or deletes a task leaves the manager in step with the file,
    -- whether it is refused, fails or goes through; and where it is answered with an error, the
    -- configuration in force is the one before. The write of a rollback does not fail, and the file
    -- that it writes, the dump of what the handlers read without replacing variables, loads as the
    -- old file did when the variables in it are replaced.
    pub handle-Answered : (request : TaskRequest) → Answered s (handle y rd host w request s)
    handle-Answered (creates request) = create-Answered request
    handle-Answered (updates task_id request) = update-Answered task_id request
    handle-Answered (deletes task_id) = delete-Answered task_id
