-- ===== src/ConfigApi/Task.antt =====
-- The dict of a task in config.yaml, from the flat fields of a request: `_build_task_dict`,
-- `_flatten_task_for_builder`, `_deep_merge` and `_merge_task_update` of src/web/api/config_api.py.
use tdcs.Prelude.{
  String, Option, none, some, List, [], ◌∷◌, true, false, ◌==◌, text_eq, if◌then◌else◌,
}
use tdcs.Prelude.Int.{pos}
use tdcs.Config.Yaml.{
  Value, null, bool, int, str, list, dict, nil, cons, Fields, field, lookup, get_or, as_dict,
  truthy,
}
use tdcs.Config.Schema.{◌>>=◌}

-- `d[k] = v`
unfoldable pub set_field : String → Value → Fields → Fields
set_field k v Fields.end = field k v Fields.end
set_field k v (field j w d) = if j == k then field j v d else field j w (set_field k v d)

-- a dict display
abbrev pub obj : List (String × Value) → Fields
obj [] = Fields.end
obj ((k, v) ∷ kvs) = field k v (obj kvs)

-- `d.update(updates)`
unfoldable pub update_with : Fields → Fields → Fields
update_with d Fields.end = d
update_with d (field k v rest) = update_with (set_field k v d) rest

unfoldable mutual
  unfolding lookup set_field

  -- `_deep_merge`
  pub deep_merge : Fields → Fields → Fields
  deep_merge base Fields.end = base
  deep_merge base (field k v rest) =
      deep_merge (set_field k (merge_value (lookup k base) v) base) rest

  pub merge_value : Option Value → Value → Value
  merge_value (some (dict b)) (dict u) = dict (deep_merge b u)
  merge_value _ v = v

abbrev pub csv_only : Value
csv_only = list (cons (str ".csv") nil)

-- `_build_task_dict`
unfoldable pub build_task_dict : Fields → Fields
build_task_dict request =
    let id = get_or "task_id" (str "") request in
    obj (
      ("task_id", id)
      ∷ ("name", get_or "name" id request)
      ∷ ("enabled", get_or "enabled" (bool true) request)
      ∷ ("priority", get_or "priority" (int (pos 1)) request)
      ∷ (
        "monitor",
        dict (
            obj (
              ("folder_path", get_or "monitor_folder" (str ".") request)
              ∷ ("file_extensions", get_or "file_extensions" csv_only request)
              ∷ ("recursive", get_or "recursive" (bool false) request)
              ∷ ("debounce_seconds", get_or "debounce_seconds" (int (pos 3)) request)
              ∷ (
                "stability_check_interval",
                get_or "stability_check_interval" (int (pos 1)) request,
              )
              ∷ ("stability_check_count", get_or "stability_check_count" (int (pos 3)) request)
              ∷ [])),
      )
      ∷ (
        "etl",
        dict (
            obj (
              ("extractor", get_or "extractor" (str "csv") request)
              ∷ ("encoding", get_or "encoding" (str "auto") request)
              ∷ ("batch_size", get_or "batch_size" (int (pos 1000)) request)
              ∷ ("transformer_module", get_or "transformer_module" (str "") request)
              ∷ ("transformer_function", get_or "transformer_function" (str "") request)
              ∷ ("sandbox_timeout", get_or "sandbox_timeout" (int (pos 30)) request)
              ∷ [])),
      )
      ∷ (
        "table",
        dict (
            obj (
              ("base_table", get_or "base_table" (str "data") request)
              ∷ ("partition_field", get_or "partition_field" (str "") request)
              ∷ ("partition_field_format", get_or "partition_field_format" (str "%Y-%m-%d") request)
              ∷ ("create_table_template", get_or "create_table_template" (str "") request)
              ∷ ("retention_months", get_or "retention_months" (int (pos 12)) request)
              ∷ ("archive_old_tables", get_or "archive_old_tables" (bool true) request)
              ∷ [])),
      )
      ∷ (
        "error_handling",
        dict (
            obj (
              ("max_retries", get_or "max_retries" (int (pos 3)) request)
              ∷ ("dead_letter_dir", get_or "dead_letter_dir" (str "") request)
              ∷ [])),
      )
      ∷ (
        "archive",
        dict (
            obj (
              ("mode", get_or "archive_mode" (str "keep") request)
              ∷ ("archive_dir", get_or "archive_dir" (str "") request)
              ∷ ("compress_after_days", get_or "compress_after_days" (int (pos 0)) request)
              ∷ ("cleanup_after_days", get_or "cleanup_after_days" (int (pos 0)) request)
              ∷ [])),
      )
      ∷ (
        "schedule",
        dict (
            obj (
              ("poll_interval", get_or "poll_interval" (int (pos 60)) request)
              ∷ ("poll_incremental", get_or "poll_incremental" (bool true) request)
              ∷ [])),
      )
      ∷ [])

-- `task.get(section) or {}`, on which `get` is called; `none` where it is no dict
abbrev pub section_or_empty : String → Fields → Option Fields
section_or_empty section task =
    let v = get_or section null task in as_dict (if truthy v then v else dict Fields.end)

-- `_flatten_task_for_builder`, the six sections read
abbrev pub flat_fields : Fields → Fields → Fields → Fields → Fields → Fields → Fields → Fields
flat_fields task monitor etl table errors archive schedule = obj (
    ("monitor_folder", get_or "folder_path" (get_or "monitor_folder" (str ".") task) monitor)
    ∷ ("file_extensions", get_or "file_extensions" (get_or "file_extensions" csv_only task) monitor)
    ∷ ("recursive", get_or "recursive" (get_or "recursive" (bool false) task) monitor)
    ∷ ("debounce_seconds", get_or "debounce_seconds" (int (pos 3)) monitor)
    ∷ ("stability_check_interval", get_or "stability_check_interval" (int (pos 1)) monitor)
    ∷ ("stability_check_count", get_or "stability_check_count" (int (pos 3)) monitor)
    ∷ ("extractor", get_or "extractor" (get_or "extractor" (str "csv") task) etl)
    ∷ ("encoding", get_or "encoding" (str "auto") etl)
    ∷ ("batch_size", get_or "batch_size" (get_or "batch_size" (int (pos 1000)) task) etl)
    ∷ ("transformer_module", get_or "transformer_module" (str "") etl)
    ∷ ("transformer_function", get_or "transformer_function" (str "") etl)
    ∷ ("sandbox_timeout", get_or "sandbox_timeout" (int (pos 30)) etl)
    ∷ ("base_table", get_or "base_table" (get_or "base_table" (str "data") task) table)
    ∷ ("partition_field", get_or "partition_field" (str "") table)
    ∷ ("partition_field_format", get_or "partition_field_format" (str "%Y-%m-%d") table)
    ∷ ("create_table_template", get_or "create_table_template" (str "") table)
    ∷ ("retention_months", get_or "retention_months" (int (pos 12)) table)
    ∷ ("archive_old_tables", get_or "archive_old_tables" (bool true) table)
    ∷ ("max_retries", get_or "max_retries" (get_or "max_retries" (int (pos 3)) task) errors)
    ∷ ("dead_letter_dir", get_or "dead_letter_dir" (str "") errors)
    ∷ ("archive_mode", get_or "mode" (str "keep") archive)
    ∷ ("archive_dir", get_or "archive_dir" (str "") archive)
    ∷ ("compress_after_days", get_or "compress_after_days" (int (pos 0)) archive)
    ∷ ("cleanup_after_days", get_or "cleanup_after_days" (int (pos 0)) archive)
    ∷ (
      "poll_interval",
      get_or "poll_interval" (get_or "poll_interval" (int (pos 60)) task) schedule,
    )
    ∷ ("poll_incremental", get_or "poll_incremental" (bool true) schedule)
    ∷ [])

unfoldable pub flatten_task : Fields → Option Fields
unfolding update_with
flatten_task task = do
  monitor ← section_or_empty "monitor" task
  etl ← section_or_empty "etl" task
  table ← section_or_empty "table" task
  errors ← section_or_empty "error_handling" task
  archive ← section_or_empty "archive" task
  schedule ← section_or_empty "schedule" task
  some (update_with task (flat_fields task monitor etl table errors archive schedule))

-- `result[section] = _deep_merge(existing.get(section, {}), rebuilt.get(section, {}))`
unfoldable pub merge_section : Fields → Fields → String → Fields → Option Fields
unfolding deep_merge
merge_section existing rebuilt section result = do
  old ← as_dict (get_or section (dict Fields.end) existing)
  new ← as_dict (get_or section (dict Fields.end) rebuilt)
  some (set_field section (dict (deep_merge old new)) result)

-- `if key in updates: result[key] = updates[key]`
abbrev pub take_field : Fields → String → Fields → Fields
take_field updates key result = elim (lookup key updates) [
  | none ↦ result
  | some v ↦ set_field key v result
]

-- `_merge_task_update`; `none` where it raises
unfoldable pub merge_task_update : Fields → Fields → Option Fields
unfolding flatten_task merge_section
merge_task_update existing updates = do
  flat ← flatten_task existing
  let rebuilt = build_task_dict (update_with flat updates)
  r1 ← merge_section existing rebuilt "monitor" (deep_merge existing updates)
  r2 ← merge_section existing rebuilt "etl" r1
  r3 ← merge_section existing rebuilt "table" r2
  r4 ← merge_section existing rebuilt "error_handling" r3
  r5 ← merge_section existing rebuilt "archive" r4
  r6 ← merge_section existing rebuilt "schedule" r5
  some (
      set_field "task_id" (get_or "task_id" null existing) (
        take_field updates "priority" (
          take_field updates "enabled"
            (take_field updates "name" (take_field updates "task_id" r6)))))
