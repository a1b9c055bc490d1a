-- ===== src/Config/Models.antt =====
-- The frozen dataclasses of src/core/config_models.py. A field that the manager copies from the
-- file as it stands there is a parsed value.
use tdcs.Prelude.{String, List}
use tdcs.Prelude.Text.{Text}
use tdcs.Config.Yaml.{Value}

pub record TaskConfig : Type 0 where
  pub task_id : String
  pub name : Value
  pub enabled : Value
  pub priority : Value
  pub monitor_folder : Value
  pub file_extensions : List Value
  pub recursive : Value
  pub debounce_seconds : Value
  pub stability_check_interval : Value
  pub stability_check_count : Value
  pub extractor : Value
  pub encoding : Value
  pub batch_size : Value
  pub transformer_module : Value
  pub transformer_function : Value
  pub sandbox_timeout : Value
  pub base_table : Value
  pub partition_field : Value
  pub partition_field_format : Value
  pub create_table_template : Value
  pub retention_months : Value
  pub archive_old_tables : Value
  pub max_retries : Value
  pub retry_backoff : List Value
  pub dead_letter_dir : Value
  pub archive_mode : Value
  pub archive_dir : Value
  pub compress_after_days : Value
  pub cleanup_after_days : Value
  pub poll_interval : Value
  pub poll_incremental : Value

pub record HaConfig : Type 0 where
  pub enabled : Value
  pub heartbeat_interval : Value
  pub failover_timeout : Value
  pub degraded_mode : Value

pub record WebConfig : Type 0 where
  pub enabled : Value
  pub host : Value
  pub port : Value
  pub secret_key : Value
  pub token_expire_hours : Value
  pub rate_limit : Value
  pub server : Value
  pub threads : Value

pub record AlertingRuleConfig : Type 0 where
  pub failed_files_threshold : Value
  pub quality_score_min : Value
  pub queue_size_max : Value

pub record AlertingChannelConfig : Type 0 where
  pub kind : Value
  pub webhook : Value
  pub secret : Value

pub record AlertingConfig : Type 0 where
  pub enabled : Value
  pub channels : List AlertingChannelConfig
  pub rules : AlertingRuleConfig

pub record PrometheusConfig : Type 0 where
  pub enabled : Value
  pub port : Value

pub record MonitoringConfig : Type 0 where
  pub prometheus : PrometheusConfig
  pub alerting : AlertingConfig

pub record AppConfig : Type 0 where
  pub instance_id : String
  pub log_level : Value
  pub db_master_dsn : Text
  pub db_master_pool_size : Value
  pub db_master_pool_timeout : Value
  pub db_master_pool_recycle : Value
  pub db_master_connect_timeout : Value
  pub db_slave_dsns : List Text
  pub worker_threads : Value
  pub queue_maxsize : Value
  pub task_timeout : Value
  pub ha : HaConfig
  pub web : WebConfig
  pub monitoring : MonitoringConfig
  pub tasks : List TaskConfig
