-- ===== src/Config/Complete/App.antt =====
-- The whole configuration: what an empty list of errors says, and that it is enough for `_build`.
use tdcs.Prelude.{
  ℕ, ◌+◌, String, Option, none, some, List, [], ◌∷◌, ◌++◌, Bool, true, false, ◌≡◌, refl, all, arith,
  Bool-cases, Option-cases, inl, inr, leb, length,
}
use tdcs.Prelude.Text.{Text, codes}
use tdcs.Config.Models.{AppConfig, TaskConfig, MonitoringConfig}
use tdcs.Config.Yaml.{Value, list, dict, Items, Fields, lookup, get_or, as_dict, items_of, truthy}
use tdcs.Config.Schema.{
  Reading, model, str_such, required, ConfigError, when_not, master_errors, slave_errors,
  service_schema, web_schema, database_node_schema, concurrency_schema, ha_schema,
  monitoring_schema, task_schema, app_schema, validate_config, errors_in, ids_of, ◌>>=◌, empty_dict,
}
use tdcs.Config.Build.{
  Host, each, dict_at, str_at, dict_or, list_or, build_monitoring, build_task, build_dsn, build,
}
use tdcs.Config.Complete.{
  IsBuilt, Found, built, required-value, required-str, required-dict, required-dict_or,
  required-list_or, optional-dict, each-IsBuilt, model-as_dict, task-IsBuilt, monitoring-IsBuilt,
  dsn-IsBuilt, ha-end, concurrency-end, monitoring-end,
}

-- A do block that succeeds has a first step that does, and a rest that does.
bind-some :
    {A B R : Type 0} (o : Option A) (f : A → Option B) (b : B)
    → o >>= f ≡ some b
    → ((a : A) → o ≡ some a → f a ≡ some b → R)
    → R
bind-some none f b h use_it = ground arith
bind-some (some a) f b h use_it = use_it a refl h

some-inj : {A : Type 0} {a b : A} → some a ≡ some b → a ≡ b
some-inj h = ground arith

append-empty : {A : Type 0} (xs ys : List A) → xs ++ ys ≡ [] → (xs ≡ []) × (ys ≡ [])
append-empty [] ys h = (refl, h)
append-empty (x ∷ xs) ys h = ground arith

when_not-empty : (b : Bool) (e : ConfigError) → when_not b e ≡ [] → b ≡ true
when_not-empty true e h = refl
when_not-empty false e h = ground arith

module _ (rd : Reading) where
  slave_errors-empty :
      (i : ℕ) (vs : List Value)
      → slave_errors rd i vs ≡ []
      → all (model (database_node_schema rd)) vs ≡ true
  unfolding slave_errors
  slave_errors-empty i [] h = refl
  slave_errors-empty i (v ∷ vs) h =
      let (here, later) =
        append-empty (when_not (model (database_node_schema rd) v) (ConfigError.invalid_slave i))
          (slave_errors rd (i + 1) vs) h in
      rw (when_not-empty _ _ here) (slave_errors-empty (i + 1) vs later)

  master_errors-empty :
      (v : Value) → master_errors rd v ≡ [] → model (database_node_schema rd) v ≡ true
  unfolding master_errors
  master_errors-empty v h = elim (Bool-cases (truthy v)) [
    | inl there ↦ when_not-empty _ _ (rw there at h)
    | inr missing ↦ ground arith
  ]

  -- what an empty list of errors says of the parts that `_build` reads
  errors_in-empty :
      (raw db : Fields) (slaves : List Value) (ha : Fields) (ids : List (Option Value))
      → errors_in rd raw db slaves ha ids ≡ []
      → (app_schema rd raw ≡ true)
        × ((model (database_node_schema rd) (get_or "master" empty_dict db) ≡ true)
            × (all (model (database_node_schema rd)) slaves ≡ true))
  errors_in-empty raw db slaves ha ids h =
      let (schema, h1) = append-empty _ _ h in
      let (master, h2) = append-empty _ _ h1 in
      let (nodes, _) = append-empty _ _ h2 in
      (when_not-empty _ _ schema, (master_errors-empty _ master, slave_errors-empty 0 slaves nodes))

  validate_config-parts :
      (raw : Fields)
      → validate_config rd raw ≡ some []
      → (app_schema rd raw ≡ true)
        × ((db : Fields) × ((dict_or "database" raw ≡ some db)
              × ((model (database_node_schema rd) (get_or "master" empty_dict db) ≡ true)
                  × Found (list_or "slaves" Items.nil db) (all (model (database_node_schema rd))))))
  unfolding validate_config
  validate_config-parts raw h =
      bind-some (as_dict (get_or "database" empty_dict raw)) _ [] h λ db db_at h1.
        bind-some (items_of (get_or "slaves" (list Items.nil) db)) _ [] h1 λ slaves slaves_at h2.
          bind-some (as_dict (get_or "high_availability" empty_dict raw)) _ [] h2 λ ha _ h3.
            bind-some (items_of (get_or "tasks" (list Items.nil) raw)) _ [] h3 λ tasks _ h4.
              bind-some (ids_of tasks) _ [] h4 λ ids _ h5.
                let (schema, (master, nodes)) =
                  errors_in-empty raw db slaves ha ids (some-inj h5) in
                (schema, (db, (db_at, (master, (slaves, (slaves_at, nodes))))))

  -- a node that passes its model is not the empty dict that stands for a missing one
  master-there :
      (db : Fields)
      → model (database_node_schema rd) (get_or "master" empty_dict db) ≡ true
      → Found (dict_at "master" db) (database_node_schema rd)
  unfolding get_or model database_node_schema required lookup
  master-there db h = elim (Option-cases (lookup "master" db)) [
    | inl missing ↦ ground arith
    | inr (v, there) ↦
        let (m, (is_dict, fine)) =
          model-as_dict (database_node_schema rd) v (rw (there, get_or) at h) in
        (m, (rw there is_dict, fine))
  ]

dict_or_unique :
    (k : String) (raw db f : Fields)
    → dict_or k raw ≡ some db
    → dict_at k raw ≡ some f
    → dict_at k raw ≡ some db
unfolding get_or
dict_or_unique k raw db f h there = ground arith

-- The parts that `_build` reads, once they are all there.
assemble :
    (host : Host) (raw : Fields) {svc db cc ha web mon master : Fields} {instance_id : String}
    {dsn : Text} {slaves tasks : List Value} {dsns : List Text} {secret : Value}
    {monitoring : MonitoringConfig} {bs : List TaskConfig}
    → dict_at "service" raw ≡ some svc
    → dict_at "database" raw ≡ some db
    → dict_or "concurrency" raw ≡ some cc
    → dict_or "high_availability" raw ≡ some ha
    → dict_or "web" raw ≡ some web
    → dict_or "monitoring" raw ≡ some mon
    → str_at "instance_id" svc ≡ some instance_id
    → dict_at "master" db ≡ some master
    → build_dsn host (dict master) ≡ some dsn
    → list_or "slaves" Items.nil db ≡ some slaves
    → each (build_dsn host) slaves ≡ some dsns
    → lookup "secret_key" web ≡ some secret
    → build_monitoring mon ≡ some monitoring
    → list_or "tasks" Items.nil raw ≡ some tasks
    → each build_task tasks ≡ some bs
    → IsBuilt (build host raw)
unfolding build
assemble host raw h1 h2 h3 h4 h5 h6 h7 h8 h9 h10 h11 h12 h13 h14 h15 =
    built (build host raw)
      (rw (h1, h2, h3, h4, h5, h6, h7, h8, h9, h10, h11, h12, h13, h14, h15) refl)

module _ (rd : Reading) (host : Host) where
  app-parts :
      (raw db : Fields)
      → app_schema rd raw ≡ true
      → dict_at "database" raw ≡ some db
      → Found (dict_at "master" db) (database_node_schema rd)
      → Found (list_or "slaves" Items.nil db) (all (model (database_node_schema rd)))
      → Found (dict_at "service" raw) (service_schema rd)
      → Found (dict_or "web" raw) (web_schema rd)
      → Found (dict_or "monitoring" raw) (monitoring_schema rd)
      → Found (list_or "tasks" Items.nil raw) (all (model (task_schema rd)))
      → IsBuilt (build host raw)
  unfolding app_schema service_schema web_schema model
  app-parts raw db ok db_at (m, (m_at, m_ok)) (slaves, (slaves_at, nodes)) (svc, (svc_at, svc_ok))
        (web, (web_at, web_ok)) (mon, (mon_at, mon_ok)) (tasks, (tasks_at, tasks_ok)) =
      let (cc, (cc_at, _)) =
        optional-dict "concurrency" raw (concurrency_schema rd) (concurrency-end rd)
          (ground arith) in
      let (ha, (ha_at, _)) =
        optional-dict "high_availability" raw (ha_schema rd) (ha-end rd) (ground arith) in
      let (instance_id, id_at) = required-str "instance_id" svc (λ _. true) (ground arith) in
      let (dsn, dsn_at) = dsn-IsBuilt rd host (dict m) m_ok in
      let (dsns, dsns_at) =
        each-IsBuilt (model (database_node_schema rd)) (build_dsn host) (dsn-IsBuilt rd host) slaves
          nodes in
      let (secret, (secret_at, _)) =
        required-value "secret_key" web (str_such (λ s. leb 16 (length (codes s))))
          (ground arith) in
      let (monitoring, monitoring_at) = monitoring-IsBuilt rd mon mon_ok in
      let (bs, bs_at) =
        each-IsBuilt (model (task_schema rd)) build_task (task-IsBuilt rd) tasks tasks_ok in
      assemble host raw svc_at db_at cc_at ha_at web_at mon_at id_at m_at dsn_at slaves_at dsns_at
        secret_at monitoring_at tasks_at bs_at

  -- A dict of values that JSON has too (no binary values, timestamps or sets), in which
  -- `validate_config` finds no error, is one that `_build` turns into a configuration: none of the
  -- keys, the types and the nested parts that `_build` relies on is missing.
  pub validate_config-build :
      (raw : Fields)
      → validate_config rd raw ≡ some []
      → (config : AppConfig) × (build host raw ≡ some config)
  unfolding app_schema
  validate_config-build raw h =
      let (ok, (db, (db_at, (master, slaves)))) = validate_config-parts rd raw h in
      let (f, (f_at, _)) = required-dict "database" raw (λ _. true) (ground arith) in
      app-parts raw db ok (dict_or_unique "database" raw db f db_at f_at)
        (master-there rd db master) slaves
        (required-dict "service" raw (service_schema rd) (ground arith))
        (required-dict_or "web" raw (web_schema rd) (ground arith))
        (optional-dict "monitoring" raw (monitoring_schema rd) (monitoring-end rd) (ground arith))
        (required-list_or "tasks" raw (model (task_schema rd)) truthy Items.nil (ground arith))
