-- ===== src/Etl/Router/Tests.antt =====
-- The router's theorems at a concrete task.
use tdcs.Prelude.{◌≡◌, Option, none, some, List, [], ◌∷◌, keep, ◌==◌, if◌then◌else◌, text_eq}
use tdcs.Prelude.Text.{Text, codes, codes_eq}
use tdcs.Etl.{Value, text, Row}
use tdcs.Etl.Router.{
  TableConfig, Calendar, resolve_table, group_by_table, Router, archive_old_tables, active,
}
use tdcs.Etl.Router.Groups.{group_of, group_by_table-keep}
use tdcs.Etl.Router.Tables.{archive_old_tables_idem}

abbrev config : TableConfig
config = record {
  task_id = "t";
  base_table = codes "sales";
  partition_field = "day";
  partition_field_format = "%Y-%m-%d";
  create_table_template = "sales.sql";
  retention_months = 3;
}

-- a calendar that reads two dates
abbrev month_of : Value → Option Text
month_of (text s) = if s == "2024-01-05" then some (codes "202401") else none
month_of _ = none

abbrev calendar : Calendar
calendar = record { current = λ row. codes "202402"; month_of = λ v _. month_of v }

abbrev batch : List Row
batch = (("day", text "2024-01-05") ∷ []) ∷ (("day", text "?") ∷ []) ∷ []

group_by_table-keep_example :
    group_of (codes "sales_202401") (group_by_table calendar config batch)
    ≡ keep (λ row. resolve_table calendar config row == codes "sales_202401") batch
group_by_table-keep_example = group_by_table-keep calendar config batch (codes "sales_202401")

abbrev empty_router : Router
empty_router = record { created = []; executed = []; registry = [] }

abbrev made : Router
made = record empty_router { created = codes "sales_1" ∷ [] }

abbrev old : Router
old = record empty_router {
  registry =
      record {
        task_id = "t";
        table_name = codes "sales_202301";
        year_month = codes "2023-01";
        lifecycle_status = active;
        archived_at = none;
      }
      ∷ [];
}

archive_old_tables_idem_example :
    archive_old_tables config 24288 9 (archive_old_tables config 24288 5 old)
    ≡ archive_old_tables config 24288 5 old
archive_old_tables_idem_example = archive_old_tables_idem config 24288 5 9 old
