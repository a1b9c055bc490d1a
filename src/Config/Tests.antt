-- ===== src/Config/Tests.antt =====
-- A smallest configuration file, validated, built and loaded again.
use tdcs.Prelude.{
  ℕ, String, Option, none, some, [], ◌∷◌, ◌≡◌, refl, Bool, true, false, text_eq, number_eq, ◌==◌,
}
use tdcs.Prelude.Int.{ℤ}
use tdcs.Prelude.Dict.{contains}
use tdcs.Prelude.Text.{codes}
use tdcs.Config.Yaml.{
  Value, int, str, list, dict, Items, Fields, end, field, get_or, to_list, truthy, lookup,
}
use tdcs.Etl.Router.{is_name}
use tdcs.Config.Schema.{
  Reading, validate_config, ids_of, app_schema, required, model, service_schema, optional,
  web_schema, list_of, task_schema, monitor_schema, etl_schema, table_schema, archive_schema,
  database_node_schema, distinct_ids, error_handling_schema, master_errors, slave_errors,
}
use tdcs.Config.Models.{AppConfig}
use tdcs.Config.Build.{Host, build}
use tdcs.Config.Complete.App.{validate_config-build}
use tdcs.Config.Manager.{ConfigManager, reload, add_listener, remove_listener}
use tdcs.Config.Manager.Reloads.{Reloaded, reload-Reloaded}
use tdcs.Config.Manager.Listeners.{remove_listener-add_listener}

abbrev as_int : Value → Option ℤ
as_int (int z) = some z
as_int _ = none

-- compares texts, which is all that the file needs
abbrev same : Value → Value → Bool
same (str s) (str t) = s == t
same _ _ = false

abbrev pub reading : Reading
reading = record {
  as_int = as_int;
  is_bool = λ v. false;
  float_within = λ lo hi v. false;
  same = same;
}

abbrev pub host : Host
host = record {
  quote = codes;
  show = λ v. codes "3306";
  replace = λ s a b. s;
  environ = λ name. none;
  pid = "1";
}

abbrev entry : String → String → Fields → Fields
entry k s d = field k (str s) d

abbrev task : Value
task = dict (
    entry "task_id" "t" (
      entry "name" "n" (
        field "monitor"
          (dict (
            entry "folder_path" "/in"
              (field "file_extensions" (list (Items.cons (str ".csv") Items.nil)) end)))
          (field "etl"
            (dict (
              entry "extractor" "csv"
                (entry "transformer_module" "m" (entry "transformer_function" "f" end))))
            (field "table"
              (dict (
                entry "base_table" "sales"
                  (entry "partition_field" "day" (entry "create_table_template" "s.sql" end))))
              (field "error_handling" (dict (entry "dead_letter_dir" "/dead" end)) end))))))

abbrev pub raw : Fields
raw = field "service" (dict (entry "instance_id" "one" end)) (
    field "database"
      (dict (
        field "master"
          (dict
            (entry "host" "h" (entry "user" "u" (entry "password" "p" (entry "database" "d" end)))))
          end))
      (field "web" (dict (entry "secret_key" "0123456789abcdef" end))
        (field "tasks" (list (Items.cons task Items.nil)) end)))

pub raw_valid : validate_config reading raw ≡ some []
unfolding validate_config get_or ids_of to_list app_schema required model service_schema optional
    web_schema list_of task_schema is_name monitor_schema truthy etl_schema table_schema
    archive_schema database_node_schema distinct_ids error_handling_schema master_errors
    slave_errors lookup
raw_valid = refl

validate_config-build_example : (config : AppConfig) × (build host raw ≡ some config)
validate_config-build_example = validate_config-build reading host raw raw_valid

abbrev empty_manager : ConfigManager ℕ
empty_manager = record { config = none; task_index = []; listeners = 7 ∷ [] }

reload-Reloaded_example :
    Reloaded reading host
      (dict raw)
      empty_manager
      (reload reading host (some (dict raw)) empty_manager)
reload-Reloaded_example = reload-Reloaded reading host (dict raw) empty_manager

abbrev any_listener : ℕ → Bool
any_listener l = true

remove_listener-add_listener_example :
    (added : ConfigManager ℕ) × ((add_listener any_listener 8 empty_manager ≡ some added)
      × ((remove_listener 8 added ≡ empty_manager)
          × (add_listener any_listener 8 added ≡ some added)))
unfolding contains
remove_listener-add_listener_example =
    remove_listener-add_listener any_listener 8 empty_manager refl refl
