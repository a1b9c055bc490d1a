-- ===== src/Config/Complete.antt =====
-- Every dict that `validate_config` lets through is one that `ConfigManager._build` can build.
pub mod App
use tdcs.Prelude.{
  ◌+◌, ℕ, String, Option, none, some, List, [], ◌∷◌, ◌++◌, Bool, true, false, not, ◌&&◌, ◌≡◌, refl,
  all, any, arith, Bool-cases, Option-cases, inl, inr, if◌then◌else◌, ◌==◌, text_eq,
}
use tdcs.Prelude.Dict.{is_some}
use tdcs.Prelude.Text.{Text, codes}
use tdcs.Etl.Router.{is_name}
use tdcs.Config.Yaml.{
  Value, bool, int, real, list, dict, str, null, Items, Fields, lookup, get_or, as_dict, as_str,
  items_of, to_list, truthy,
}
use tdcs.Config.Schema.{
  Reading, Check, is_any_int, required, optional, model, list_of, is_str, str_such, int_in,
  service_schema, database_node_schema, web_schema, alerting_schema, monitoring_schema,
  rules_schema, prometheus_schema, concurrency_schema, ha_schema, channel_schema, monitor_schema,
  etl_schema, table_schema, error_handling_schema, archive_schema, schedule_schema, task_schema,
  app_schema, ConfigError, validate_config, ◌>>=◌, empty_dict,
}
use tdcs.Config.Build.{
  Host, each, dict_at, str_at, dict_or, list_or, build_channel, build_monitoring, build_task,
  build_dsn, build, default_backoff,
}
use tdcs.Config.Models.{AppConfig, TaskConfig}

abbrev pub IsBuilt {ℓ} : {A : Type ℓ} → Option A → Type ℓ
IsBuilt {A} o = (a : A) × (o ≡ some a)

abbrev pub Found {ℓ} : {A : Type ℓ} → Option A → (A → Bool) → Type ℓ
Found {A} o test = (a : A) × ((o ≡ some a) × (test a ≡ true))

pub built : {A : Type 0} (o : Option A) → is_some o ≡ true → IsBuilt o
built none h = ground arith
built (some a) h = (a, refl)

-- The parts that `_build_task` reads, once they are all there.
assemble :
    (v : Value) {t m e tb eh ar sc : Fields} {task_id : String} {name folder tm tf bt pf : Value}
    {exts rb : List Value}
    → as_dict v ≡ some t
    → dict_at "monitor" t ≡ some m
    → dict_at "etl" t ≡ some e
    → dict_at "table" t ≡ some tb
    → dict_at "error_handling" t ≡ some eh
    → dict_or "archive" t ≡ some ar
    → dict_or "schedule" t ≡ some sc
    → str_at "task_id" t ≡ some task_id
    → lookup "name" t ≡ some name
    → lookup "folder_path" m ≡ some folder
    → list_or "file_extensions" Items.nil m ≡ some exts
    → lookup "transformer_module" e ≡ some tm
    → lookup "transformer_function" e ≡ some tf
    → lookup "base_table" tb ≡ some bt
    → lookup "partition_field" tb ≡ some pf
    → list_or "retry_backoff" default_backoff eh ≡ some rb
    → IsBuilt (build_task v)
unfolding build_task
assemble v h1 h2 h3 h4 h5 h6 h7 h8 h9 h10 h11 h12 h13 h14 h15 h16 =
    built (build_task v)
      (rw (h1, h2, h3, h4, h5, h6, h7, h8, h9, h10, h11, h12, h13, h14, h15, h16) refl)

pub model-as_dict :
    (check : Fields → Bool) (v : Value)
    → model check v ≡ true
    → (f : Fields) × ((as_dict v ≡ some f) × (check f ≡ true))
unfolding model
model-as_dict check null h = ground arith
model-as_dict check (bool b) h = ground arith
model-as_dict check (int z) h = ground arith
model-as_dict check (real q) h = ground arith
model-as_dict check (str q) h = ground arith
model-as_dict check (list vs) h = ground arith
model-as_dict check (dict f) h = (f, (refl, h))

list_of-items_of :
    (check : Check) (v : Value)
    → list_of check v ≡ true
    → (vs : List Value) × ((items_of v ≡ some vs) × (all check vs ≡ true))
unfolding list_of items_of
list_of-items_of check null h = ground arith
list_of-items_of check (bool b) h = ground arith
list_of-items_of check (int z) h = ground arith
list_of-items_of check (real q) h = ground arith
list_of-items_of check (str q) h = ground arith
list_of-items_of check (list vs) h = (to_list vs, (refl, h))
list_of-items_of check (dict f) h = ground arith

str_such-as_str : (test : String → Bool) (v : Value) → str_such test v ≡ true → IsBuilt (as_str v)
str_such-as_str test null h = ground arith
str_such-as_str test (bool b) h = ground arith
str_such-as_str test (int z) h = ground arith
str_such-as_str test (real q) h = ground arith
str_such-as_str test (str q) h = (q, refl)
str_such-as_str test (list vs) h = ground arith
str_such-as_str test (dict f) h = ground arith

module _ (k : String) (d : Fields) where
  pub required-value :
      (check : Check)
      → required k check d ≡ true
      → (v : Value) × ((lookup k d ≡ some v) × (check v ≡ true))
  unfolding required
  required-value check h = of (lookup k d) refl h
    where
      of :
          (o : Option Value)
          → lookup k d ≡ o
          → elim o [ none ↦ false | some v ↦ check v ] ≡ true
          → (v : Value) × ((lookup k d ≡ some v) × (check v ≡ true))
      of none there ok = ground arith
      of (some v) there ok = (v, (there, ok))

  pub required-dict :
      (check : Fields → Bool)
      → required k (model check) d ≡ true
      → (f : Fields) × ((dict_at k d ≡ some f) × (check f ≡ true))
  required-dict check h =
      let (v, (there, ok)) = required-value (model check) h in
      let (f, (is_dict, fine)) = model-as_dict check v ok in (f, (rw there is_dict, fine))

  pub required-str :
      (test : String → Bool) → required k (str_such test) d ≡ true → IsBuilt (str_at k d)
  required-str test h =
      let (v, (there, ok)) = required-value (str_such test) h in
      let (s, is_text) = str_such-as_str test v ok in (s, rw there is_text)

  optional-value :
      (check : Check) (x : Value)
      → check x ≡ true
      → optional k check d ≡ true
      → check (get_or k x d) ≡ true
  unfolding optional get_or
  optional-value check x fine h = elim (Option-cases (lookup k d)) [
    | inl missing ↦ rw (missing, get_or) fine
    | inr (v, there) ↦ rw (there, get_or) (rw (there, optional) at h)
  ]

  pub optional-dict :
      (check : Fields → Bool)
      → check Fields.end ≡ true
      → optional k (model check) d ≡ true
      → (f : Fields) × ((dict_or k d ≡ some f) × (check f ≡ true))
  unfolding model
  optional-dict check empty h =
      model-as_dict check (get_or k empty_dict d) (optional-value (model check) empty_dict empty h)

  optional-list :
      (check : Check) (vs : Items)
      → all check (to_list vs) ≡ true
      → optional k (list_of check) d ≡ true
      → (xs : List Value) × ((list_or k vs d ≡ some xs) × (all check xs ≡ true))
  unfolding list_of
  optional-list check vs default h =
      list_of-items_of check (get_or k (list vs) d)
        (optional-value (list_of check) (list vs) default h)

  optional-list_or :
      (check : Check) (vs : Items) → optional k (list_of check) d ≡ true → IsBuilt (list_or k vs d)
  unfolding get_or optional items_of
  optional-list_or check vs h = elim (Option-cases (lookup k d)) [
    | inl missing ↦ (to_list vs, rw (missing, get_or) refl)
    | inr (v, there) ↦
        let (ws, (is_list, _)) = list_of-items_of check v (rw (there, optional) at h) in
        (ws, rw (there, get_or) is_list)
  ]

  pub required-dict_or :
      (check : Fields → Bool)
      → required k (model check) d ≡ true
      → (f : Fields) × ((dict_or k d ≡ some f) × (check f ≡ true))
  unfolding get_or
  required-dict_or check h =
      let (v, (there, ok)) = required-value (model check) h in
      let (f, (is_dict, fine)) = model-as_dict check v ok in (f, (rw (there, get_or) is_dict, fine))

  pub required-list_or :
      (check test : Check) (vs : Items)
      → required k (λ v. list_of check v && test v) d ≡ true
      → (xs : List Value) × ((list_or k vs d ≡ some xs) × (all check xs ≡ true))
  unfolding get_or
  required-list_or check test vs h =
      let (v, (there, ok)) = required-value (λ v. list_of check v && test v) h in
      let (ws, (is_list, fine)) = list_of-items_of check v (ground arith) in
      (ws, (rw (there, get_or) is_list, fine))

module _ {A B : Type 0} (check : A → Bool) (f : A → Option B)
    (g : (a : A) → check a ≡ true → IsBuilt (f a)) where
  pub each-IsBuilt : (vs : List A) → all check vs ≡ true → IsBuilt (each f vs)
  unfolding each
  each-IsBuilt [] h = ([], refl)
  each-IsBuilt (v ∷ vs) h =
      let (y, here) = g v (ground arith) in
      let (ys, rest) = each-IsBuilt vs (ground arith) in (y ∷ ys, rw here (rw rest refl))

module _ (rd : Reading) where
  channel-IsBuilt : (v : Value) → model (channel_schema rd) v ≡ true → IsBuilt (build_channel v)
  unfolding build_channel
  channel-IsBuilt v h =
      let (c, (is_dict, _)) = model-as_dict (channel_schema rd) v h in
      built (build_channel v) (rw is_dict refl)

  archive-end : archive_schema rd Fields.end ≡ true
  unfolding archive_schema optional lookup
  archive-end = refl

  schedule-end : schedule_schema rd Fields.end ≡ true
  unfolding schedule_schema optional lookup
  schedule-end = refl

  pub ha-end : ha_schema rd Fields.end ≡ true
  unfolding ha_schema optional lookup
  ha-end = refl

  pub concurrency-end : concurrency_schema rd Fields.end ≡ true
  unfolding concurrency_schema optional lookup
  concurrency-end = refl

  rules-end : rules_schema rd Fields.end ≡ true
  unfolding rules_schema optional lookup
  rules-end = refl

  prometheus-end : prometheus_schema rd Fields.end ≡ true
  unfolding prometheus_schema optional lookup
  prometheus-end = refl

  alerting-end : alerting_schema rd Fields.end ≡ true
  unfolding alerting_schema optional lookup
  alerting-end = refl

  pub monitoring-end : monitoring_schema rd Fields.end ≡ true
  unfolding monitoring_schema optional lookup
  monitoring-end = refl

  extensions :
      (m : Fields) → monitor_schema rd m ≡ true → IsBuilt (list_or "file_extensions" Items.nil m)
  unfolding monitor_schema
  extensions m ok =
      let (xs, (there, _)) =
        required-list_or "file_extensions" m is_str truthy Items.nil (ground arith) in
      (xs, there)

  backoff :
      (eh : Fields)
      → error_handling_schema rd eh ≡ true
      → IsBuilt (list_or "retry_backoff" default_backoff eh)
  unfolding error_handling_schema
  backoff eh ok =
      optional-list_or "retry_backoff" eh (λ v. is_any_int (rd.as_int v)) default_backoff
        (ground arith)

  task-parts :
      (v : Value) (t : Fields)
      → as_dict v ≡ some t
      → task_schema rd t ≡ true
      → Found (dict_at "monitor" t) (monitor_schema rd)
      → Found (dict_at "etl" t) (etl_schema rd)
      → Found (dict_at "table" t) (table_schema rd)
      → Found (dict_at "error_handling" t) (error_handling_schema rd)
      → IsBuilt (build_task v)
  unfolding task_schema monitor_schema etl_schema table_schema
  task-parts v t is_dict ok (m, (m_at, m_ok)) (e, (e_at, e_ok)) (tb, (tb_at, tb_ok))
        (eh, (eh_at, eh_ok)) =
      let (ar, (ar_at, _)) =
        optional-dict "archive" t (archive_schema rd) archive-end (ground arith) in
      let (sc, (sc_at, _)) =
        optional-dict "schedule" t (schedule_schema rd) schedule-end (ground arith) in
      let (task_id, id_at) = required-str "task_id" t (λ s. is_name (codes s)) (ground arith) in
      let (name, (name_at, _)) = required-value "name" t is_str (ground arith) in
      let (folder, (folder_at, _)) = required-value "folder_path" m is_str (ground arith) in
      let (exts, exts_at) = extensions m m_ok in
      let (tm, (tm_at, _)) = required-value "transformer_module" e is_str (ground arith) in
      let (tf, (tf_at, _)) = required-value "transformer_function" e is_str (ground arith) in
      let (bt, (bt_at, _)) =
        required-value "base_table" tb (str_such (λ s. is_name (codes s))) (ground arith) in
      let (pf, (pf_at, _)) = required-value "partition_field" tb is_str (ground arith) in
      let (rb, rb_at) = backoff eh eh_ok in
      assemble v is_dict m_at e_at tb_at eh_at ar_at sc_at id_at name_at folder_at exts_at tm_at
        tf_at bt_at pf_at rb_at

  pub task-IsBuilt : (v : Value) → model (task_schema rd) v ≡ true → IsBuilt (build_task v)
  unfolding task_schema
  task-IsBuilt v h = fill (model-as_dict (task_schema rd) v h)
    where
      fill : Found (as_dict v) (task_schema rd) → IsBuilt (build_task v)
      fill (t, (is_dict, ok)) =
          task-parts v t is_dict ok (required-dict "monitor" t (monitor_schema rd) (ground arith))
            (required-dict "etl" t (etl_schema rd) (ground arith))
            (required-dict "table" t (table_schema rd) (ground arith))
            (required-dict "error_handling" t (error_handling_schema rd) (ground arith))

  pub monitoring-IsBuilt :
      (raw : Fields) → monitoring_schema rd raw ≡ true → IsBuilt (build_monitoring raw)
  unfolding monitoring_schema alerting_schema build_monitoring to_list
  monitoring-IsBuilt raw ok =
      let (pr, (pr_at, _)) =
        optional-dict "prometheus" raw (prometheus_schema rd) prometheus-end (ground arith) in
      let (ar, (ar_at, ar_ok)) =
        optional-dict "alerting" raw (alerting_schema rd) alerting-end (ground arith) in
      let (ru, (ru_at, _)) = optional-dict "rules" ar (rules_schema rd) rules-end (ground arith) in
      let (chs, (chs_at, chs_ok)) =
        optional-list "channels" ar (model (channel_schema rd)) Items.nil refl (ground arith) in
      let (channels, each_at) =
        each-IsBuilt (model (channel_schema rd)) build_channel channel-IsBuilt chs chs_ok in
      built (build_monitoring raw) (rw (pr_at, ar_at, ru_at, chs_at, each_at) refl)

module _ (rd : Reading) (host : Host) where
  pub dsn-IsBuilt :
      (v : Value) → model (database_node_schema rd) v ≡ true → IsBuilt (build_dsn host v)
  unfolding database_node_schema build_dsn
  dsn-IsBuilt v h =
      let (db, (is_dict, ok)) = model-as_dict (database_node_schema rd) v h in fill db ok is_dict
    where
      fill :
          (db : Fields)
          → database_node_schema rd db ≡ true
          → as_dict v ≡ some db
          → IsBuilt (build_dsn host v)
      fill db ok is_dict =
          let (user, user_at) = required-str "user" db (λ _. true) (ground arith) in
          let (password, password_at) = required-str "password" db (λ _. true) (ground arith) in
          let (address, address_at) = required-str "host" db (λ _. true) (ground arith) in
          let (database, database_at) = required-str "database" db (λ _. true) (ground arith) in
          built (build_dsn host v)
            (rw (is_dict, user_at, password_at, address_at, database_at) refl)
