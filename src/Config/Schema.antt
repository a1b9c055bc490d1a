-- ===== src/Config/Schema.antt =====
-- The Pydantic models of config_validator.py and `validate_config`. How Pydantic reads a value as
-- an int, a float or a bool is a parameter; a default is not checked.
use tdcs.Prelude.{
  ℕ, ◌+◌, ◌-◌, String, Option, none, some, List, [], ◌∷◌, ◌++◌, map, length, Bool, true, false, not,
  ◌&&◌, ◌||◌, leb, all, any, ◌==◌, text_eq, number_eq, if◌then◌else◌,
}
use tdcs.Prelude.Int.{ℤ, pos, negsuc}
use tdcs.Prelude.Text.{codes, codes_eq}
use tdcs.Etl.Router.{is_name}
use tdcs.Config.Yaml.{
  Value, null, bool, list, dict, Items, Fields, lookup, get_or, as_dict, as_str, as_list, items_of,
  truthy,
}

-- What Pydantic makes of a value where an int or a bool is wanted, whether a value it reads as a
-- float lies between two bounds, given in tenths, and Python's `==` on parsed values.
pub record Reading : Type 0 where
  pub as_int : Value → Option ℤ
  pub is_bool : Value → Bool
  pub float_within : ℕ → Option ℕ → Value → Bool
  pub same : Value → Value → Bool

abbrev pub Check : Type 0
Check = Value → Bool

-- a field with no default
unfoldable pub required : String → Check → Fields → Bool
required k check d = elim (lookup k d) [ none ↦ false | some v ↦ check v ]

-- a field with a default
unfoldable pub optional : String → Check → Fields → Bool
optional k check d = elim (lookup k d) [ none ↦ true | some v ↦ check v ]

-- a nested model
unfoldable pub model : (Fields → Bool) → Check
model check v = elim (as_dict v) [ none ↦ false | some d ↦ check d ]

-- a List of values that pass a check
unfoldable pub list_of : Check → Check
list_of check v = elim (as_list v) [ none ↦ false | some vs ↦ all check vs ]

abbrev pub is_str : Check
is_str v = elim (as_str v) [ none ↦ false | some s ↦ true ]

abbrev pub str_such : (String → Bool) → Check
str_such test v = elim (as_str v) [ none ↦ false | some s ↦ test s ]

abbrev at_most : ℕ → Option ℕ → Bool
at_most n none = true
at_most n (some hi) = leb n hi

abbrev between : ℕ → Option ℕ → Option ℤ → Bool
between lo hi none = false
between lo hi (some (negsuc n)) = false
between lo hi (some (pos n)) = leb lo n && at_most n hi

abbrev upper : ℕ → ℕ
upper c = if leb b'a' c && leb c b'z' then c - 32 else c

abbrev pub is_any_int : Option ℤ → Bool
is_any_int none = false
is_any_int (some z) = true

module _ (rd : Reading) where
  -- Annotated[int, Field(ge=lo, le=hi)]
  abbrev pub int_in : ℕ → Option ℕ → Check
  int_in lo hi v = between lo hi (rd.as_int v)

  abbrev pub port : Check
  port = int_in 1 (some 65535)

  unfoldable pub service_schema : Fields → Bool
  service_schema d =
      required "instance_id" is_str d
      && optional "log_level"
          (str_such (λ s.
            let u = map upper (codes s) in
            u == codes "DEBUG"
            || (u == codes "INFO"
                || (u == codes "WARNING" || (u == codes "ERROR" || u == codes "CRITICAL")))))
          d

  unfoldable pub database_node_schema : Fields → Bool
  database_node_schema d =
      required "host" is_str d
      && (required "user" is_str d
          && (required "password" is_str d
              && (required "database" is_str d
                  && (optional "port" port d
                      && (optional "pool_size" (int_in 1 (some 100)) d
                          && (optional "pool_timeout" (int_in 1 (some 300)) d
                              && (optional "pool_recycle" (int_in 300 (some 86400)) d
                                  && optional "connect_timeout" (int_in 1 (some 120)) d)))))))

  unfoldable pub concurrency_schema : Fields → Bool
  concurrency_schema d =
      optional "worker_threads" (int_in 1 (some 32)) d
      && (optional "queue_maxsize" (int_in 10 (some 10000)) d
          && optional "task_timeout" (int_in 10 (some 3600)) d)

  unfoldable pub ha_schema : Fields → Bool
  ha_schema d =
      optional "enabled" rd.is_bool d
      && (optional "heartbeat_interval" (int_in 3 (some 120)) d
          && (optional "failover_timeout" (int_in 10 (some 300)) d
              && optional "degraded_mode" is_str d))

  unfoldable pub web_schema : Fields → Bool
  web_schema d =
      required "secret_key" (str_such (λ s. leb 16 (length (codes s)))) d
      && (optional "enabled" rd.is_bool d
          && (optional "host" is_str d
              && (optional "port" port d
                  && (optional "token_expire_hours" (int_in 1 (some 168)) d
                      && (optional "rate_limit" is_str d
                          && (optional "server"
                                (str_such (λ s. s == "waitress" || s == "development")) d
                              && optional "threads" (int_in 1 (some 32)) d))))))

  unfoldable pub prometheus_schema : Fields → Bool
  prometheus_schema d = optional "enabled" rd.is_bool d && optional "port" port d

  -- `kind`, by its alias
  unfoldable pub channel_schema : Fields → Bool
  channel_schema d =
      optional "type" (str_such (λ s. s == "webhook" || s == "wecom")) d
      && (optional "webhook" is_str d && optional "secret" is_str d)

  unfoldable pub rules_schema : Fields → Bool
  rules_schema d =
      optional "failed_files_threshold" (int_in 1 none) d
      && (optional "quality_score_min" (rd.float_within 0 (some 1000)) d
          && optional "queue_size_max" (int_in 10 none) d)

  unfoldable pub alerting_schema : Fields → Bool
  alerting_schema d =
      optional "enabled" rd.is_bool d
      && (optional "channels" (list_of (model channel_schema)) d
          && optional "rules" (model rules_schema) d)

  unfoldable pub monitoring_schema : Fields → Bool
  monitoring_schema d =
      optional "prometheus" (model prometheus_schema) d
      && optional "alerting" (model alerting_schema) d

  unfoldable pub monitor_schema : Fields → Bool
  monitor_schema d =
      required "folder_path" is_str d
      && (required "file_extensions" (λ v. list_of is_str v && truthy v) d
          && (optional "recursive" rd.is_bool d
              && (optional "debounce_seconds" (rd.float_within 5 (some 600)) d
                  && (optional "stability_check_interval" (rd.float_within 5 (some 100)) d
                      && optional "stability_check_count" (int_in 1 (some 10)) d))))

  unfoldable pub etl_schema : Fields → Bool
  etl_schema d =
      required "extractor" (str_such (λ s. s == "csv" || (s == "json" || s == "excel"))) d
      && (required "transformer_module" is_str d
          && (required "transformer_function" is_str d
              && (optional "encoding" is_str d
                  && (optional "batch_size" (int_in 1 (some 100000)) d
                      && optional "sandbox_timeout" (int_in 5 (some 300)) d))))

  unfoldable pub table_schema : Fields → Bool
  table_schema d =
      required "base_table" (str_such (λ s. is_name (codes s))) d
      && (required "partition_field" is_str d
          && (required "create_table_template" is_str d
              && (optional "partition_field_format" is_str d
                  && (optional "retention_months" (int_in 0 none) d
                      && optional "archive_old_tables" rd.is_bool d))))

  unfoldable pub error_handling_schema : Fields → Bool
  error_handling_schema d =
      required "dead_letter_dir" is_str d
      && (optional "max_retries" (int_in 0 (some 10)) d
          && optional "retry_backoff" (list_of (λ v. is_any_int (rd.as_int v))) d)

  unfoldable pub archive_schema : Fields → Bool
  archive_schema d =
      optional "mode" (str_such (λ s. s == "keep" || (s == "move" || s == "delete"))) d
      && (optional "archive_dir" is_str d
          && (optional "compress_after_days" (int_in 0 none) d
              && optional "cleanup_after_days" (int_in 0 none) d))

  unfoldable pub schedule_schema : Fields → Bool
  schedule_schema d =
      optional "poll_interval" (int_in 0 (some 86400)) d && optional "poll_incremental" rd.is_bool d

  unfoldable pub task_schema : Fields → Bool
  task_schema d =
      required "task_id" (str_such (λ s. is_name (codes s))) d
      && (required "name" is_str d
          && (required "monitor" (model monitor_schema) d
              && (required "etl" (model etl_schema) d
                  && (required "table" (model table_schema) d
                      && (required "error_handling" (model error_handling_schema) d
                          && (optional "enabled" rd.is_bool d
                              && (optional "priority" (int_in 1 (some 10)) d
                                  && (optional "archive" (model archive_schema) d
                                      && optional "schedule" (model schedule_schema) d))))))))

  unfoldable pub app_schema : Fields → Bool
  app_schema d =
      required "service" (model service_schema) d
      && (required "database" (model (λ _. true)) d
          && (required "web" (model web_schema) d
              && (required "tasks" (λ v. list_of (model task_schema) v && truthy v) d
                  && (optional "concurrency" (model concurrency_schema) d
                      && (optional "high_availability" (model ha_schema) d
                          && optional "monitoring" (model monitoring_schema) d)))))

-- what stands in the list of errors
pub data ConfigError : Type 0 where
  invalid_schema master_required invalid_master needs_slave duplicate_task_id : ConfigError
  invalid_slave : ℕ → ConfigError

abbrev pub when_not : Bool → ConfigError → List ConfigError
when_not true e = []
when_not false e = e ∷ []

module _ (rd : Reading) where
  unfoldable pub master_errors : Value → List ConfigError
  master_errors master =
      if truthy master
      then when_not (model (database_node_schema rd) master) invalid_master
      else master_required ∷ []

  unfoldable pub slave_errors : ℕ → List Value → List ConfigError
  slave_errors i [] = []
  slave_errors i (slave ∷ slaves) =
      when_not (model (database_node_schema rd) slave) (invalid_slave i)
      ++ slave_errors (i + 1) slaves

  -- `==` of what `t.get("task_id")` gave
  abbrev same_id : Option Value → Option Value → Bool
  same_id none none = true
  same_id (some a) (some b) = rd.same a b
  same_id _ _ = false

  unfoldable pub distinct_ids : List (Option Value) → Bool
  distinct_ids [] = true
  distinct_ids (a ∷ as') = not (any (same_id a) as') && distinct_ids as'

-- what `set` can hold; a list or a dict raises
abbrev is_hashable : Option Value → Bool
is_hashable (some (list vs)) = false
is_hashable (some (dict d)) = false
is_hashable _ = true

-- `[t.get("task_id") for t in tasks]`, where an entry that is no dict raises, and the set of them
unfoldable pub ids_of : List Value → Option (List (Option Value))
ids_of [] = some []
ids_of (t ∷ ts) = elim (as_dict t) [
  | none ↦ none
  | some d ↦ elim (ids_of ts) [
    | none ↦ none
    | some ids ↦ if is_hashable (lookup "task_id" d) then some (lookup "task_id" d ∷ ids) else none
  ]
]

infixl 5 ◌>>=◌
abbrev pub ◌>>=◌ {ℓ κ} : {A : Type ℓ} {B : Type κ} → Option A → (A → Option B) → Option B
none >>= f = none
some a >>= f = f a

abbrev pub empty_dict : Value
empty_dict = dict Fields.end

-- the errors of the parts that `validate_config` reads
abbrev pub errors_in :
    Reading → Fields → Fields → List Value → Fields → List (Option Value) → List ConfigError
errors_in rd raw db slaves ha ids =
    when_not (app_schema rd raw) invalid_schema
    ++ (master_errors rd (get_or "master" empty_dict db)
        ++ (slave_errors rd 0 slaves
            ++ (when_not
                  (not (
                    truthy (get_or "enabled" (bool false) ha)
                    && not (truthy (get_or "slaves" null db))))
                  needs_slave
                ++ when_not (distinct_ids rd ids) duplicate_task_id)))

-- `validate_config`; `none` where it raises, since a part that it reads is no dict, or nothing
-- that a loop can run through
unfoldable pub validate_config : Reading → Fields → Option (List ConfigError)
unfolding items_of
validate_config rd raw = do
  db ← as_dict (get_or "database" empty_dict raw)
  slaves ← items_of (get_or "slaves" (list Items.nil) db)
  ha ← as_dict (get_or "high_availability" empty_dict raw)
  tasks ← items_of (get_or "tasks" (list Items.nil) raw)
  ids ← ids_of tasks
  some (errors_in rd raw db slaves ha ids)
