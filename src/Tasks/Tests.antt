-- ===== src/Tasks/Tests.antt =====
-- Witnesses of the theorems on the task manager: of two tasks one runs, and a new configuration
-- disables it and has the other one.
use tdcs.Prelude.{
  String, ◌≡◌, refl, ◌⊎◌, Option, none, some, List, [], ◌∷◌, Bool, true, false, not, ◌&&◌, arith,
  ◌==◌, text_eq, eq_iff, if◌then◌else◌, inl, inr,
}
use tdcs.Prelude.Dict.{get, put, contains}
use tdcs.Prelude.Int.{pos}
use tdcs.Pool.{new_pool}
use tdcs.Config.Yaml.{Value, null, bool, int, str, truthy}
use tdcs.Config.Models.{TaskConfig, AppConfig}
use tdcs.Config.Manager.{index_from}
use tdcs.Tasks.{TaskManager, Starting, starts, Env, start_all, on_config_changed, old_index}
use tdcs.Tasks.Steps.{threads, both, AllCanStart}
use tdcs.Tasks.Sync.{Startable, RunsAs, Serves, Current, on_config_changed-Serves}
use tdcs.Tasks.Starts.{enabled_ids, start_all-missing_folder}

abbrev task : String → Bool → String → TaskConfig
task id enabled folder = record {
  task_id = id;
  name = str id;
  enabled = bool enabled;
  priority = int (pos 1);
  monitor_folder = str folder;
  file_extensions = [];
  recursive = bool false;
  debounce_seconds = int (pos 3);
  stability_check_interval = int (pos 1);
  stability_check_count = int (pos 3);
  extractor = str "csv";
  encoding = str "auto";
  batch_size = int (pos 1000);
  transformer_module = str "";
  transformer_function = str "";
  sandbox_timeout = int (pos 30);
  base_table = str "data";
  partition_field = str "";
  partition_field_format = str "";
  create_table_template = str "";
  retention_months = int (pos 12);
  archive_old_tables = bool true;
  max_retries = int (pos 3);
  retry_backoff = [];
  dead_letter_dir = str "";
  archive_mode = str "keep";
  archive_dir = str "";
  compress_after_days = int (pos 0);
  cleanup_after_days = int (pos 0);
  poll_interval = int (pos 60);
  poll_incremental = bool true;
}

abbrev config : List TaskConfig → AppConfig
config tasks = record {
  instance_id = "a";
  log_level = str "INFO";
  db_master_dsn = [];
  db_master_pool_size = null;
  db_master_pool_timeout = null;
  db_master_pool_recycle = null;
  db_master_connect_timeout = null;
  db_slave_dsns = [];
  worker_threads = null;
  queue_maxsize = null;
  task_timeout = null;
  ha = record {
    enabled = null;
    heartbeat_interval = null;
    failover_timeout = null;
    degraded_mode = null;
  };
  web = record {
    enabled = null;
    host = null;
    port = null;
    secret_key = null;
    token_expire_hours = null;
    rate_limit = null;
    server = null;
    threads = null;
  };
  monitoring = record {
    prometheus = record { enabled = null; port = null };
    alerting = record {
      enabled = null;
      channels = [];
      rules = record {
        failed_files_threshold = null;
        quality_score_min = null;
        queue_size_max = null;
      };
    };
  };
  tasks = tasks;
}

-- equal here: the same identifier, enabled in the same way
abbrev same : TaskConfig → TaskConfig → Bool
same a b =
    a.task_id == b.task_id
    && (if truthy a.enabled then truthy b.enabled else not (truthy b.enabled))

abbrev unequal : TaskConfig → TaskConfig → Bool
unequal a b = not (same a b)

unequal_refl : (t : TaskConfig) → unequal t t ≡ false
unequal_refl t = ground (arith, (eq_iff t.task_id t.task_id).1 refl)

unequal_trans :
    (r s t : TaskConfig) → unequal r s ≡ false → unequal s t ≡ false → unequal r t ≡ false
unequal_trans r s t h g = ground (
  arith,
  h,
  g,
  eq_iff r.task_id s.task_id,
  eq_iff s.task_id t.task_id,
  eq_iff r.task_id t.task_id,
)

abbrev is_in : Value → Bool
is_in (str folder) = folder == "/in"
is_in _ = false

abbrev all_start : String → Starting
all_start id = starts

abbrev old_config : AppConfig
old_config = config (task "a" true "/in" ∷ [])

abbrev new_config : AppConfig
new_config = config (task "a" false "/in" ∷ task "b" true "/in" ∷ [])

abbrev a_runs : TaskManager
a_runs = record {
  watchers = ("a", task "a" true "/in") ∷ [];
  scanners = ("a", task "a" true "/in") ∷ [];
  pool = new_pool 10;
}

abbrev StartsAt : Option TaskConfig → Type 0
StartsAt none = Unit
StartsAt (some t) = truthy t.enabled ≡ true → (is_in t.monitor_folder ≡ true) × (starts ≡ starts)

at_found : {o : Option TaskConfig} {t : TaskConfig} → o ≡ some t → StartsAt o → StartsAt (some t)
at_found e h = rw e at h

new_config-Startable :
    Startable
      (record { index = index_from [] new_config.tasks; is_dir = is_in; starting = all_start })
unfolding get index_from put truthy
new_config-Startable id t found on = at_found found (by_tests ("a" == id) ("b" == id)) on
  where
    by_tests :
        (a b : Bool)
        → StartsAt (
            if a
            then some (task "a" false "/in")
            else if b
            then some (task "b" true "/in")
            else none)
    by_tests true b = (λ (h : false ≡ true). ground (arith, h))
    by_tests false true = (λ h. (refl, refl))
    by_tests false false = tt

a_runs-Current : Current unequal (old_index (some old_config)) a_runs
unfolding get index_from put truthy
a_runs-Current id = by_test ("a" == id)
  where
    by_test :
        (b : Bool)
        → let o : Option TaskConfig = if b then some (task "a" true "/in") else none in
          ((o, o) ≡ both none) ⊎ ((t : TaskConfig) × (o ≡ some t) × RunsAs unequal t (o, o))
    by_test true = inr (task "a" true "/in", refl, (task "a" true "/in", refl, refl))
    by_test false = inl refl

on_config_changed-Serves_example :
    let done =
      on_config_changed unequal (λ s. s) is_in all_start (some old_config) new_config a_runs in
    (done.0 ≡ true)
    × ((id : String) → Serves unequal (get id (index_from [] new_config.tasks)) (threads id done.1))
    × Current unequal (index_from [] new_config.tasks) done.1
on_config_changed-Serves_example =
    on_config_changed-Serves unequal unequal_refl unequal_trans (λ s. s) (λ s k. refl) is_in
      all_start (some old_config) new_config a_runs new_config-Startable a_runs-Current

abbrev three_tasks : List TaskConfig
three_tasks = task "a" true "/in" ∷ task "b" true "/gone" ∷ task "c" true "/in" ∷ []

abbrev idle : TaskManager
idle = record { watchers = []; scanners = []; pool = new_pool 10 }

abbrev env : Env
env = record {
  index =
      ("a", task "a" true "/in") ∷ ("b", task "b" true "/gone") ∷ ("c", task "c" true "/in") ∷ [];
  is_dir = is_in;
  starting = all_start;
}

first_starts : AllCanStart env (enabled_ids (task "a" true "/in" ∷ []))
unfolding get truthy contains
first_starts id h =
    let is_a : ("a" == id) ≡ true = ground (arith, h) in
    (task "a" true "/in", rw is_a refl, refl, refl)

start_all-missing_folder_example :
    let done = start_all env three_tasks idle in
    (done.0 ≡ false)
    × ((id : String)
        → threads id done.1 ≡ (
            if contains id (enabled_ids (task "a" true "/in" ∷ []))
            then both (get id env.index)
            else threads id idle))
unfolding get truthy
start_all-missing_folder_example =
    start_all-missing_folder env (task "a" true "/in" ∷ []) (task "b" true "/gone")
      (task "c" true "/in" ∷ []) idle first_starts refl refl refl
