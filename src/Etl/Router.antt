-- ===== src/Etl/Router.antt =====
-- `TableRouter` of src/etl/table_router.py: the month table of a row, the grouping of a batch, the
-- check of a table's name, its creation, and the retirement of old tables.
pub mod Groups
pub mod Names
pub mod Tables
mod Tests
use tdcs.Prelude.{
  ℕ, zero, suc, ◌+◌, ◌-◌, ◌*◌, ◌/◌, ◌%◌, String, Option, none, some, List, [], ◌∷◌, ◌++◌, map,
  length, take, drop, Bool, true, false, not, all, ◌&&◌, ◌||◌, leb, ltb, ◌==◌, text_eq, number_eq,
  if◌then◌else◌,
}
use tdcs.Prelude.Dict.{Dict, get, put, or_else, contains, add}
use tdcs.Prelude.Text.{Text, codes, codes_eq, leb_text, strip_prefix}
use tdcs.Etl.{
  ErrorKind, fatal, other, Error, Result, ok, raise, ◌>>=◌, ◌>>◌, Value, null, text, num, opaque,
  Row, truthy,
}

-- the fields of a TaskConfig that the router reads
pub record TableConfig : Type 0 where
  pub task_id : String
  pub base_table : Text
  pub partition_field : String
  pub partition_field_format : String
  pub create_table_template : String
  pub retention_months : ℕ

-- `datetime.now().strftime("%Y%m")`, which is read for each row, and `strptime(str(v), fmt).strftime("%Y%m")`,
-- `none` where it raises ValueError or TypeError
pub record Calendar : Type 0 where
  pub current : Row → Text
  pub month_of : Value → String → Option Text

abbrev pub month_suffix : Calendar → String → Row → Option Value → Text
month_suffix cal fmt row none = cal.current row
month_suffix cal fmt row (some v) =
    if truthy v then or_else (cal.month_of v fmt) (cal.current row) else cal.current row

unfoldable pub resolve_table : Calendar → TableConfig → Row → Text
resolve_table cal cfg row =
    cfg.base_table
    ++ b'_'
      ∷ (if cfg.partition_field == ""
          then cal.current row
          else month_suffix cal cfg.partition_field_format row (get cfg.partition_field row))

-- `groups.setdefault(table_name, []).append(row)`
unfoldable pub append_to : Dict Text (List Row) → Text → Row → Dict Text (List Row)
append_to groups table row = put table (or_else (get table groups) [] ++ row ∷ []) groups

unfoldable pub group_from : (Row → Text) → Dict Text (List Row) → List Row → Dict Text (List Row)
unfolding append_to
group_from table_of groups [] = groups
group_from table_of groups (row ∷ rows) =
    group_from table_of (append_to groups (table_of row) row) rows

unfoldable pub group_by_table : Calendar → TableConfig → List Row → Dict Text (List Row)
group_by_table cal cfg rows = group_from (resolve_table cal cfg) [] rows

abbrev pub is_lower : ℕ → Bool
is_lower c = leb b'a' c && leb c b'z'

abbrev pub is_word : ℕ → Bool
is_word c = is_lower c || (leb b'0' c && leb c b'9' || c == b'_')

-- TABLE_NAME_RE.fullmatch
unfoldable pub is_name : Text → Bool
is_name [] = false
is_name (c ∷ s) = is_lower c && all is_word s

-- `str.strip` removes these
abbrev pub is_space : ℕ → Bool
is_space c =
    leb 9 c && leb c 13
    || (leb 28 c && leb c 32
        || (c == 133
            || (c == 160
                || (c == 5760
                    || (leb 8192 c && leb c 8202
                        || (leb 8232 c && leb c 8233
                            || (c == 8239 || (c == 8287 || c == 12288))))))))

last_is_space : Text → Bool
last_is_space [] = false
last_is_space (c ∷ []) = is_space c
last_is_space (c ∷ d ∷ s) = last_is_space (d ∷ s)

first_is_space : Text → Bool
first_is_space [] = false
first_is_space (c ∷ s) = is_space c

abbrev pub max_table_name_len : ℕ
max_table_name_len = 64

-- ValueError is no FatalError
abbrev invalid_name : Result (Unit {0})
invalid_name = raise (record { kind = other; message = "Invalid table name" })

unfoldable pub validate_table_name : Text → Result (Unit {0})
unfolding is_name first_is_space last_is_space
validate_table_name name =
    if first_is_space name || last_is_space name
    then invalid_name
    else if ltb max_table_name_len (length name)
    then invalid_name
    else if is_name name
    then ok tt
    else invalid_name

-- The text that a match of {{TABLE_NAME}} or {TABLE_NAME} leaves, at the start of a text; either
-- inner brace may be missing.
abbrev closing : Option Text → Option Text
closing none = none
closing (some t) = elim (strip_prefix (codes "}}") t) [
  | some rest ↦ some rest
  | none ↦ strip_prefix (codes "}") t
]

unfoldable pub match_placeholder : Text → Option Text
match_placeholder t = elim (closing (strip_prefix (codes "{{TABLE_NAME") t)) [
  | some rest ↦ some rest
  | none ↦ closing (strip_prefix (codes "{TABLE_NAME") t)
]

-- `_TABLE_PLACEHOLDER.sub`: every round takes a character at least, so the text's length is
-- enough fuel
unfoldable pub substitute : ℕ → Text → Text → Text
unfolding match_placeholder
substitute fuel name [] = []
substitute zero name (c ∷ s) = c ∷ s
substitute (suc fuel) name (c ∷ s) = elim (match_placeholder (c ∷ s)) [
  | some rest ↦ name ++ substitute fuel name rest
  | none ↦ c ∷ substitute fuel name s
]

pub data LifecycleStatus : Type 0 where
  active archived : LifecycleStatus

-- a row of `monthly_table_registry`, whose unique key is the task and the table's name
pub record Registration : Type 0 where
  pub task_id : String
  pub table_name : Text
  pub year_month : Text
  pub lifecycle_status : LifecycleStatus
  pub archived_at : Option ℕ

-- the router's set of tables, and what the database holds for it: the statements that were
-- executed and the registry
pub record Router : Type 0 where
  pub created : List Text
  pub executed : List Text
  pub registry : List Registration

-- how the template file reads: its text, FileNotFoundError, or another OSError
pub data Template : Type 0 where
  content : Text → Template
  missing unreadable : Template

abbrev pub read_template : Template → Result Text
read_template (content sql) = ok sql
read_template missing = raise (record { kind = fatal; message = "template missing" })
read_template unreadable = raise (record { kind = fatal; message = "template unreadable" })

-- `table_name.rsplit("_", 1)[-1]`
unfoldable pub after_last : Text → Text → Text
after_last [] last = last
after_last (c ∷ s) last = after_last s (if c == b'_' then [] else last ++ c ∷ [])

unfoldable pub year_month_of : Text → Text
unfolding after_last
year_month_of name = let ym = after_last name [] in take 4 ym ++ b'-' ∷ drop 4 ym

abbrev is_registered : String → Text → List Registration → Bool
is_registered tid name [] = false
is_registered tid name (e ∷ es) =
    Registration.task_id e == tid && Registration.table_name e == name || is_registered tid name es

-- INSERT IGNORE
unfoldable pub register : String → Text → List Registration → List Registration
unfolding year_month_of
register tid name es =
    if is_registered tid name es
    then es
    else es
      ++ record {
        task_id = tid;
        table_name = name;
        year_month = year_month_of name;
        lifecycle_status = active;
        archived_at = none;
      }
        ∷ []

unfoldable pub ensure_table_exists : Template → TableConfig → Text → Router → Result Router
ensure_table_exists template cfg name r = if contains name r.created then ok r else (do
  validate_table_name name
  sql ← read_template template
  ok (record {
    created = add name r.created;
    executed = r.executed ++ substitute (length sql) name sql ∷ [];
    registry = register cfg.task_id name r.registry;
  }))

abbrev digit : ℕ → ℕ
digit n = b'0' + n % 10

-- `strftime("%Y-%m")` of the month with this number, counted from January of the year 0
unfoldable pub format_month : ℕ → Text
format_month n =
    let y = n / 12 in
    let m = n % 12 + 1 in
    digit (y / 1000)
    ∷ digit (y / 100)
    ∷ digit (y / 10)
    ∷ digit y
    ∷ b'-'
    ∷ digit (m / 10)
    ∷ digit m
    ∷ []

abbrev is_active : LifecycleStatus → Bool
is_active active = true
is_active archived = false

-- the UPDATE of one row
unfoldable pub retire : String → Text → ℕ → Registration → Registration
retire tid cutoff now e =
    if e.task_id == tid && (leb_text e.year_month cutoff && is_active e.lifecycle_status)
    then record e { lifecycle_status = archived; archived_at = some now }
    else e

-- `this_month` is the number of the current month; `relativedelta` takes months from it
unfoldable pub archive_old_tables : TableConfig → ℕ → ℕ → Router → Router
unfolding format_month retire
archive_old_tables cfg this_month now r = if leb cfg.retention_months 0 then r else record r {
  registry =
      map (retire cfg.task_id (format_month (this_month - cfg.retention_months)) now) r.registry;
}
