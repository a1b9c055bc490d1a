-- ===== src/ConfigApi/Request.antt =====
-- What the handlers read: the tasks of config.yaml, and the checks of `_validate_task_request` on the
-- dict of a request, in src/web/api/config_api.py.
use tdcs.Prelude.{
  String, Option, none, some, List, [], ◌∷◌, Bool, true, false, not, ◌&&◌, ◌==◌, text_eq,
  if◌then◌else◌,
}
use tdcs.Prelude.Text.{Text, codes, codes_eq}
use tdcs.Etl.Router.{is_name}
use tdcs.Web.Users.{strip}
use tdcs.Config.Yaml.{
  Value, str, list, dict, Items, nil, cons, Fields, lookup, get_or, as_dict, as_list, truthy,
}
use tdcs.Config.Schema.{◌>>=◌}
use tdcs.ConfigApi.Task.{set_field}

-- the tasks of a configuration that can be read: a list of dicts
unfoldable pub dicts : List Value → Option (List Fields)
dicts [] = some []
dicts (v ∷ vs) = do d ← as_dict v; ds ← dicts vs; some (d ∷ ds)

abbrev pub has_id : String → Option Value → Bool
has_id task_id (some (str s)) = s == task_id
has_id task_id _ = false

unfoldable pub to_items : List Fields → Items
to_items [] = nil
to_items (d ∷ ds) = cons (dict d) (to_items ds)

abbrev pub with_tasks : List Fields → Fields → Fields
with_tasks tasks cfg = set_field "tasks" (list (to_items tasks)) cfg

-- `_read_config_yaml`, and `cfg.get("tasks", [])`
abbrev pub or_empty : Value → Value
or_empty v = if truthy v then v else dict Fields.end

unfoldable pub read_value : Option Value → Option (Fields × List Fields)
unfolding dicts
read_value content = do
  v ← content
  cfg ← as_dict (or_empty v)
  tasks ← as_list (get_or "tasks" (list nil) cfg)
  ds ← dicts tasks
  some (cfg, ds)

unfoldable pub read_config : (Text → Option Value) → Text → Option (Fields × List Fields)
read_config parse file = read_value (parse file)

abbrev pub is_task : String → Fields → Bool
is_task task_id d = has_id task_id (lookup "task_id" d)

-- the first task of the id is replaced
unfoldable pub replace_first :
    String → (Fields → Option Fields) → List Fields → Option (List Fields)
replace_first task_id change [] = some []
replace_first task_id change (d ∷ ds) =
    if is_task task_id d
    then (do d' ← change d; some (d' ∷ ds))
    else (do ds' ← replace_first task_id change ds; some (d ∷ ds'))

-- `re.fullmatch`, on `data.get("task_id", task_id) or ""`
abbrev pub is_task_id : Value → Bool
is_task_id (str s) = is_name (codes s)
is_task_id _ = false

abbrev pub name_given : Option Value → Bool
name_given none = true
name_given (some (str s)) = not (strip (codes s) == [])
name_given (some _) = false

-- `_validate_task_request` accepts the fields
unfoldable pub is_task_request : Value → Fields → Bool
is_task_request task_id request =
    is_task_id (get_or "task_id" task_id request) && name_given (lookup "name" request)

abbrev pub id_of : Value → String
id_of (str s) = s
id_of _ = ""
