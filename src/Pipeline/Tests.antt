-- ===== src/Pipeline/Tests.antt =====
-- A run of the pipeline over one batch.
use tdcs.Prelude.{◌≤◌, ◌≡◌, refl, none, some, List, [], ◌∷◌, false, length}
use tdcs.Prelude.Int.{sub_ℕ}
use tdcs.Prelude.Text.{codes, same_text}
use tdcs.Prelude.Dict.{get, put, contains}
use tdcs.Etl.{Error, skip_file, Row, num}
use tdcs.Etl.Router.{
  content, Router, group_by_table, group_from, resolve_table, ensure_table_exists,
  validate_table_name,
}
use tdcs.Etl.Router.Groups.{total}
use tdcs.Pipeline.{Stages, execute}
use tdcs.Pipeline.Counts.{rows_in, execute_success_counts}
use tdcs.Pipeline.Errors.{Explains, execute-Explains}

abbrev stages : Stages
stages = record {
  calendar = record { current = λ row. codes "202401"; month_of = λ v f. none };
  table_config = record {
    task_id = "t";
    base_table = codes "sales";
    partition_field = "day";
    partition_field_format = "%Y-%m-%d";
    create_table_template = "sales.sql";
    retention_months = 0;
  };
  template = content (codes "CREATE TABLE {table_name}");
  transform = none;
  encrypt = none;
  load = λ loads name rows. none;
  round = λ digits r. r;
}

abbrev batches : List (List Row)
batches = ((("a", num 1) ∷ []) ∷ (("a", num 2) ∷ []) ∷ []) ∷ []

abbrev empty_router : Router
empty_router = record { created = []; executed = []; registry = [] }

execute_success_counts_example :
    let (result, p) = execute stages false batches none 7 empty_router in
    (result.raw_count ≡ rows_in batches)
    × (total p.loads ≡ result.valid_count)
    × (result.error_count ≡ sub_ℕ result.raw_count result.valid_count)
    × (length p.error_rows ≤ result.raw_count)
unfolding execute group_by_table group_from put same_text resolve_table get ensure_table_exists
    contains validate_table_name
execute_success_counts_example =
    execute_success_counts stages false batches none 7 empty_router tt refl

abbrev skipping : Error
skipping = record { kind = skip_file; message = "skip" }

execute-Explains_example :
    let result = (execute stages false batches (some skipping) 7 empty_router).0 in
    Explains result.status result.error
execute-Explains_example = execute-Explains stages false batches (some skipping) 7 empty_router
