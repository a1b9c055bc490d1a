-- ===== src/Config/Manager/Reloads.antt =====
-- What a reload leaves behind, whether it fails or not.
use tdcs.Prelude.{
  String, Option, none, some, List, [], ◌∷◌, true, false, ◌≡◌, refl, ap, ◌∙◌, ◌==◌, text_eq,
  if◌then◌else◌, map, arith, ◌≢◌, Option-cases, inl, inr,
}
use tdcs.Prelude.Dict.{Dict, get, put, get-put}
use tdcs.Config.Yaml.{Value, Fields, as_dict}
use tdcs.Config.Schema.{Reading, validate_config}
use tdcs.Config.Models.{TaskConfig, AppConfig}
use tdcs.Config.Build.{Host}
use tdcs.Config.Complete.App.{validate_config-build}
use tdcs.Config.Manager.{ConfigManager, Reload, index_from, prepare, reload, get_task, stored}

-- the last task of a list that has an id
unfoldable pub last_with : String → Option TaskConfig → List TaskConfig → Option TaskConfig
last_with id seen [] = seen
last_with id seen (t ∷ ts) = last_with id (if t.task_id == id then some t else seen) ts

get-index_from :
    (id : String) (index : Dict String TaskConfig) (ts : List TaskConfig)
    → get id (index_from index ts) ≡ last_with id (get id index) ts
unfolding index_from last_with
get-index_from id index [] = refl
get-index_from id index (t ∷ ts) =
    get-index_from id (put t.task_id t index) ts
    ∙ ap (λ found. last_with id found ts) (get-put t.task_id id t index)

module _ {L : Type 0} where
  calls-map :
      (m : ConfigManager L) (new : AppConfig) (ls : List L)
      → (stored (record m { listeners = ls }) (some new)).calls ≡ map (λ l. (l, (m.config, new))) ls
  calls-map m new [] = refl
  calls-map m new (l ∷ ls) = ap (◌∷◌ (l, (m.config, new))) (calls-map m new ls)

module _ (rd : Reading) (host : Host) where
  refused :
      (v : Value)
      → prepare rd host (some v) ≡ none
      → (raw : Fields) → as_dict v ≡ some raw
      → validate_config rd raw ≢ some []
  unfolding prepare
  refused v h raw is_dict valid =
      let (config, built) = validate_config-build rd host raw valid in ground (arith)

module _ (rd : Reading) (host : Host) {L : Type 0} where
  -- a reload that is refused, and one that goes through
  pub data Reloaded (v : Value) (m : ConfigManager L) (r : Reload L) : Type 0 where
    kept :
        ((raw : Fields) → as_dict v ≡ some raw → validate_config rd raw ≢ some [])
        → r.manager ≡ m
        → r.raised ≡ true
        → r.calls ≡ []
        → Reloaded v m r
    replaced :
        (new : AppConfig)
        → r.manager.config ≡ some new
        → ((id : String) → get_task id r.manager ≡ last_with id none new.tasks)
        → r.manager.listeners ≡ m.listeners
        → r.calls ≡ map (λ l. (l, (m.config, new))) m.listeners
        → r.raised ≡ false
        → Reloaded v m r

  -- A reload of a file that parses to a value of a kind that JSON has too (no binary values,
  -- timestamps or sets) either raises, calls no listener and leaves the manager as it was, and then
  -- the value is no dict that validation finds free of errors; or it puts a new configuration in
  -- force, in which `get_task` finds the last task of each id, keeps the listeners, and calls each
  -- of them once, in order, with the old configuration and the new one.
  pub reload-Reloaded : (v : Value) (m : ConfigManager L) → Reloaded v m (reload rd host (some v) m)
  unfolding reload get_task get
  reload-Reloaded v m = elim (Option-cases (prepare rd host (some v))) [
    | inl none_built ↦ rw none_built (kept (refused rd host v none_built) refl refl refl)
    | inr (new, some_built) ↦ rw some_built (
        replaced new refl (λ id. get-index_from id [] new.tasks) refl (calls-map m new m.listeners)
          refl)
  ]
