-- ===== src/ConfigApi/Tests.antt =====
-- A witness of the theorem on the requests that write the configuration.
use tdcs.Prelude.{
  String, Option, none, List, some, ◌==◌, number_eq, if◌then◌else◌, arith, [], ◌∷◌, false, ◌≡◌,
  refl,
}
use tdcs.Prelude.Text.{same_text, Text, codes, codes_eq}
use tdcs.Config.Yaml.{truthy, get_or, lookup, to_list, Value, null, str, dict, Fields, end, field}
use tdcs.Config.Models.{AppConfig}
use tdcs.Config.Complete.App.{validate_config-build}
use tdcs.Config.Manager.{prepare, index_from}
use tdcs.Config.Tests.{reading, host, raw, raw_valid}
use tdcs.Config.Env.{YamlFile, read_yaml, replace_from, match_next, env_replace}
use tdcs.ConfigApi.Request.{read_config, read_value, dicts}
use tdcs.ConfigApi.{ApiState, Writes, handle, creates}
use tdcs.ConfigApi.Sync.{InSync, Answered, handle-Answered}

-- a YAML library that knows the empty file and one configuration
abbrev dump : Value → Text
dump (dict end) = []
dump _ = codes "service: ${P}"

abbrev parse : Text → Option Value
parse [] = some null
parse (c ∷ s) = some (dict raw)

-- one variable is set, and its name is made of one letter
abbrev yaml : YamlFile
yaml = record {
  dump = dump;
  parse = parse;
  is_word = λ c. c == b'P';
  environ = λ name. if name == codes "P" then some (codes "secret") else none;
}

abbrev loaded : AppConfig
loaded = (validate_config-build reading host raw raw_valid).0

abbrev state : ApiState String
state = record {
  file = codes "service: ${P}";
  manager = record {
    config = some loaded;
    task_index = index_from [] loaded.tasks;
    listeners = [];
  };
}

state-InSync : InSync yaml reading host state
unfolding prepare read_yaml same_text
state-InSync =
    (loaded, refl, refl, rw raw_valid (validate_config-build reading host raw raw_valid).1)

loads_again :
    (old : Fields) (tasks : List Fields)
    → read_config yaml.parse state.file ≡ some (old, tasks)
    → read_yaml yaml (yaml.dump (dict old)) ≡ read_yaml yaml state.file
unfolding read_config read_value dicts truthy get_or lookup to_list read_yaml replace_from
    match_next env_replace same_text
loads_again end tasks e = absurd (ground arith)
loads_again (field k v d) tasks e = refl

abbrev writes : Writes
writes = record { first_fails = false; second_fails = false; is_value_error = false }

abbrev new_task : Fields
new_task = field "task_id" (str "u") (field "monitor_folder" (str "/gone") end)

handle-Answered_example :
    Answered yaml reading host state (handle yaml reading host writes (creates new_task) state)
handle-Answered_example =
    handle-Answered yaml reading host writes refl state state-InSync loads_again (creates new_task)
