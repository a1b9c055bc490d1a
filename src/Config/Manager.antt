-- ===== src/Config/Manager.antt =====
-- `ConfigManager`, in src/core/config.py: the configuration in force, its index of tasks, and the
-- listeners. What `_read_yaml` gives comes with the call; `none` where it raises.
pub mod Reloads
pub mod Listeners
use tdcs.Prelude.{
  String, Option, none, some, List, [], ◌∷◌, ◌++◌, Bool, true, false, ◌≡◌, refl, ◌==◌, Eq, text_eq,
  if◌then◌else◌, ◌||◌, not, Bool-cases, Option-cases, inl, inr, arith,
}
use tdcs.Prelude.Dict.{Dict, get, put, contains, get-put}
use tdcs.Config.Yaml.{Value, Fields, as_dict}
use tdcs.Config.Schema.{Reading, ConfigError, validate_config, ◌>>=◌}
use tdcs.Config.Models.{TaskConfig, AppConfig}
use tdcs.Config.Build.{Host, build}

pub record ConfigManager (L : Type 0) : Type 0 where
  pub config : Option AppConfig
  pub task_index : Dict String TaskConfig
  pub listeners : List L

module _ {L : Type 0} ⦃e : Eq L⦄ (callable : L → Bool) where
  -- `add_listener`; `none` is its TypeError
  unfoldable pub add_listener : L → ConfigManager L → Option (ConfigManager L)
  add_listener l m =
      if callable l
      then some
          (if contains l m.listeners then m else record m { listeners = m.listeners ++ l ∷ [] })
      else none

module _ {L : Type 0} ⦃e : Eq L⦄ where
  -- `list.remove`: the first occurrence
  unfoldable pub remove_first : L → List L → List L
  remove_first l [] = []
  remove_first l (k ∷ ks) = if k == l then ks else k ∷ remove_first l ks

  unfoldable pub remove_listener : L → ConfigManager L → ConfigManager L
  remove_listener l m = record m { listeners = remove_first l m.listeners }

-- `{t.task_id: t for t in tasks}`
unfoldable pub index_from : Dict String TaskConfig → List TaskConfig → Dict String TaskConfig
index_from index [] = index
index_from index (t ∷ ts) = index_from (put t.task_id t index) ts

-- an empty list of errors
abbrev accepted : List ConfigError → Option Bool
accepted [] = some true
accepted (x ∷ xs) = none

module _ {L : Type 0} where
  -- `get_task`
  unfoldable pub get_task : String → ConfigManager L → Option TaskConfig
  get_task id m = get id m.task_index

  abbrev install : AppConfig → ConfigManager L → ConfigManager L
  install new m = record m { config = some new; task_index = index_from [] new.tasks }

-- what a `reload` leaves, whether it raises, and the listeners it calls, in order, each with
-- the configurations before and after
pub record Reload (L : Type 0) : Type 0 where
  pub manager : ConfigManager L
  pub raised : Bool
  pub calls : List (L × (Option AppConfig × AppConfig))

module _ {L : Type 0} where
  abbrev notify : Option AppConfig → AppConfig → List L → List (L × (Option AppConfig × AppConfig))
  notify old new [] = []
  notify old new (l ∷ ls) = (l, (old, new)) ∷ notify old new ls

  abbrev pub stored : ConfigManager L → Option AppConfig → Reload L
  stored m none = record { manager = m; raised = true; calls = [] }
  stored m (some new) = record {
    manager = install new m;
    raised = false;
    calls = notify m.config new m.listeners;
  }

module _ (rd : Reading) (host : Host) where
  -- what `load` and `reload` do before they store: read, validate, build
  unfoldable pub prepare : Option Value → Option AppConfig
  prepare content = do
    v ← content
    raw ← as_dict v
    errors ← validate_config rd raw
    _ ← accepted errors
    build host raw

  unfoldable pub reload : {L : Type 0} → Option Value → ConfigManager L → Reload L
  reload content m = stored m (prepare content)

  -- `load`; `none` where it raises
  unfoldable pub load : {L : Type 0} → Option Value → ConfigManager L → Option (ConfigManager L)
  load content m = do new ← prepare content; some (install new m)
