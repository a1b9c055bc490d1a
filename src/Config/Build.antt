-- ===== src/Config/Build.antt =====
-- `ConfigManager._build` and its parts, in src/core/config.py. They run on a validated dict only:
-- where a part that validation checks is of another type, they give `none`.
use tdcs.Prelude.{ℕ, String, Option, some, List, [], ◌∷◌, ◌++◌, true, false, text_eq}
use tdcs.Prelude.Dict.{or_else}
use tdcs.Prelude.Int.{pos}
use tdcs.Prelude.Text.{Text, codes}
use tdcs.Config.Yaml.{
  Value, bool, int, real, str, list, dict, Items, Fields, lookup, get_or, as_dict, as_str, items_of,
}
use tdcs.Config.Schema.{◌>>=◌, empty_dict}
use tdcs.Config.Models.{TaskConfig, AlertingChannelConfig, MonitoringConfig, AppConfig}

-- What the functions take from Python and from the process: `urllib.parse.quote(s, safe="")`,
-- `str(v)`, `s.replace(a, b)`, the environment and the process id as a text.
pub record Host : Type 0 where
  pub quote : String → Text
  pub show : Value → Text
  pub replace : String → String → String → String
  pub environ : String → Option String
  pub pid : String

-- `tuple(f(x) for x in xs)`, where `f` may raise
unfoldable pub each {ℓ κ} : {A : Type ℓ} {B : Type κ} → (A → Option B) → List A → Option (List B)
each f [] = some []
each f (x ∷ xs) = do y ← f x; ys ← each f xs; some (y ∷ ys)

-- `d[k]` for a dict and for a string
abbrev pub dict_at : String → Fields → Option Fields
dict_at k d = lookup k d >>= as_dict

abbrev pub str_at : String → Fields → Option String
str_at k d = lookup k d >>= as_str

-- `d.get(k, {})` and `d.get(k, xs)`
abbrev pub dict_or : String → Fields → Option Fields
dict_or k d = as_dict (get_or k empty_dict d)

abbrev pub list_or : String → Items → Fields → Option (List Value)
list_or k vs d = items_of (get_or k (list vs) d)

abbrev number : ℕ → Value
number n = int (pos n)

unfoldable pub build_channel : Value → Option AlertingChannelConfig
build_channel v = do
  c ← as_dict v
  some (record {
    kind = get_or "type" (str "webhook") c;
    webhook = get_or "webhook" (str "") c;
    secret = get_or "secret" (str "") c;
  })

unfoldable pub build_monitoring : Fields → Option MonitoringConfig
build_monitoring raw = do
  pr ← dict_or "prometheus" raw
  ar ← dict_or "alerting" raw
  ru ← dict_or "rules" ar
  chs ← list_or "channels" Items.nil ar
  channels ← each build_channel chs
  some (record {
    prometheus = record {
      enabled = get_or "enabled" (bool true) pr;
      port = get_or "port" (number 9090) pr;
    };
    alerting = record {
      enabled = get_or "enabled" (bool false) ar;
      channels = channels;
      rules = record {
        failed_files_threshold = get_or "failed_files_threshold" (number 10) ru;
        quality_score_min = get_or "quality_score_min" (real "80.0") ru;
        queue_size_max = get_or "queue_size_max" (number 400) ru;
      };
    };
  })

-- `[5, 30, 120]`
abbrev pub default_backoff : Items
default_backoff = Items.cons (number 5) (Items.cons (number 30) (Items.cons (number 120) Items.nil))

unfoldable pub build_task : Value → Option TaskConfig
build_task v = do
  t ← as_dict v
  m ← dict_at "monitor" t
  e ← dict_at "etl" t
  tb ← dict_at "table" t
  eh ← dict_at "error_handling" t
  ar ← dict_or "archive" t
  sc ← dict_or "schedule" t
  task_id ← str_at "task_id" t
  name ← lookup "name" t
  monitor_folder ← lookup "folder_path" m
  file_extensions ← list_or "file_extensions" Items.nil m
  transformer_module ← lookup "transformer_module" e
  transformer_function ← lookup "transformer_function" e
  base_table ← lookup "base_table" tb
  partition_field ← lookup "partition_field" tb
  retry_backoff ← list_or "retry_backoff" default_backoff eh
  some (record {
    task_id = task_id;
    name = name;
    enabled = get_or "enabled" (bool true) t;
    priority = get_or "priority" (number 5) t;
    monitor_folder = monitor_folder;
    file_extensions = file_extensions;
    recursive = get_or "recursive" (bool false) m;
    debounce_seconds = get_or "debounce_seconds" (number 3) m;
    stability_check_interval = get_or "stability_check_interval" (number 1) m;
    stability_check_count = get_or "stability_check_count" (number 3) m;
    extractor = get_or "extractor" (str "csv") e;
    encoding = get_or "encoding" (str "auto") e;
    batch_size = get_or "batch_size" (number 1000) e;
    transformer_module = transformer_module;
    transformer_function = transformer_function;
    sandbox_timeout = get_or "sandbox_timeout" (number 30) e;
    base_table = base_table;
    partition_field = partition_field;
    partition_field_format = get_or "partition_field_format" (str "%Y-%m-%d") tb;
    create_table_template = get_or "create_table_template" (str "") tb;
    retention_months = get_or "retention_months" (number 0) tb;
    archive_old_tables = get_or "archive_old_tables" (bool true) tb;
    max_retries = get_or "max_retries" (number 3) eh;
    retry_backoff = retry_backoff;
    dead_letter_dir = get_or "dead_letter_dir" (str "") eh;
    archive_mode = get_or "mode" (str "move") ar;
    archive_dir = get_or "archive_dir" (str "") ar;
    compress_after_days = get_or "compress_after_days" (number 7) ar;
    cleanup_after_days = get_or "cleanup_after_days" (number 90) ar;
    poll_interval = get_or "poll_interval" (number 0) sc;
    poll_incremental = get_or "poll_incremental" (bool true) sc;
  })

module _ (host : Host) where
  unfoldable pub build_dsn : Value → Option Text
  build_dsn v = do
    db ← as_dict v
    user ← str_at "user" db
    password ← str_at "password" db
    address ← str_at "host" db
    database ← str_at "database" db
    some (
        codes "mysql+pymysql://"
        ++ (host.quote user
            ++ (codes ":"
                ++ (host.quote password
                    ++ (codes "@"
                        ++ (codes address
                            ++ (codes ":"
                                ++ (host.show (get_or "port" (number 3306) db)
                                    ++ (codes "/"
                                        ++ (codes database ++ codes "?charset=utf8mb4"))))))))))

  unfoldable pub resolve_instance_id : String → String
  resolve_instance_id template =
      let hostname =
        or_else (host.environ "HOSTNAME") (or_else (host.environ "COMPUTERNAME") "unknown") in
      host.replace (host.replace template "${HOSTNAME}" hostname) "${PID}" host.pid

  unfoldable pub build : Fields → Option AppConfig
  build raw = do
    svc ← dict_at "service" raw
    db ← dict_at "database" raw
    cc ← dict_or "concurrency" raw
    ha ← dict_or "high_availability" raw
    web ← dict_or "web" raw
    mon ← dict_or "monitoring" raw
    instance_id ← str_at "instance_id" svc
    master ← dict_at "master" db
    master_dsn ← build_dsn (dict master)
    slaves ← list_or "slaves" Items.nil db
    slave_dsns ← each build_dsn slaves
    secret_key ← lookup "secret_key" web
    monitoring ← build_monitoring mon
    tasks ← list_or "tasks" Items.nil raw
    built ← each build_task tasks
    some (record {
      instance_id = resolve_instance_id instance_id;
      log_level = get_or "log_level" (str "INFO") svc;
      db_master_dsn = master_dsn;
      db_master_pool_size = get_or "pool_size" (number 5) master;
      db_master_pool_timeout = get_or "pool_timeout" (number 30) master;
      db_master_pool_recycle = get_or "pool_recycle" (number 3600) master;
      db_master_connect_timeout = get_or "connect_timeout" (number 10) master;
      db_slave_dsns = slave_dsns;
      worker_threads = get_or "worker_threads" (number 4) cc;
      queue_maxsize = get_or "queue_maxsize" (number 500) cc;
      task_timeout = get_or "task_timeout" (number 300) cc;
      ha = record {
        enabled = get_or "enabled" (bool false) ha;
        heartbeat_interval = get_or "heartbeat_interval" (number 10) ha;
        failover_timeout = get_or "failover_timeout" (number 30) ha;
        degraded_mode = get_or "degraded_mode" (str "pause") ha;
      };
      web = record {
        enabled = get_or "enabled" (bool true) web;
        host = get_or "host" (str "127.0.0.1") web;
        port = get_or "port" (number 8080) web;
        secret_key = secret_key;
        token_expire_hours = get_or "token_expire_hours" (number 8) web;
        rate_limit = get_or "rate_limit" (str "200 per minute") web;
        server = get_or "server" (str "waitress") web;
        threads = get_or "threads" (number 4) web;
      };
      monitoring = monitoring;
      tasks = built;
    })
