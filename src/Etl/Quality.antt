-- ===== src/Etl/Quality.antt =====
-- `QualityReporter` of src/monitoring/quality_reporter.py: the counts and rates of a report and its
-- score. Rates and the score are fractions, kept exact up to `round`; what Python's `round`
-- makes of the float of a fraction, for a number of digits, is a parameter.
pub mod Score
mod Tests
use tdcs.Prelude.{
  ℕ, suc, ◌+◌, ◌-◌, ◌*◌, String, Option, none, some, List, [], ◌∷◌, length, Bool, true, false, ◌&&◌,
  ltb, ◌==◌, number_eq, text_eq, if◌then◌else◌,
}
use tdcs.Prelude.Dict.{Dict, get, put, or_else, is_some}
use tdcs.Etl.{Value, null, text, num, opaque, Row}

-- a fraction; the denominator 0 does not occur
pub record Rate : Type 0 where
  pub num : ℕ
  pub den : ℕ

abbrev pub zero_rate : Rate
zero_rate = record { num = 0; den = 1 }

-- `row.get(f) is None or row.get(f) == ""`
abbrev pub is_missing : Option Value → Bool
is_missing none = true
is_missing (some null) = true
is_missing (some (text s)) = s == ""
is_missing (some (num n)) = false
is_missing (some (opaque s b)) = false

-- the counts of missing values: in all, and for each field
pub record Nulls : Type 0 where
  pub null_count : ℕ
  pub field_nulls : Dict String ℕ

unfoldable pub count_field : Row → String → Nulls → Nulls
count_field row f n =
    if is_missing (get f row)
    then record {
      null_count = n.null_count + 1;
      field_nulls = put f (or_else (get f n.field_nulls) 0 + 1) n.field_nulls;
    }
    else n

unfoldable pub count_row : Row → List String → Nulls → Nulls
unfolding count_field
count_row row [] n = n
count_row row (f ∷ fs) n = count_row row fs (count_field row f n)

unfoldable pub count_rows : List Row → List String → Nulls → Nulls
unfolding count_row
count_rows [] fs n = n
count_rows (row ∷ rows) fs n = count_rows rows fs (count_row row fs n)

-- `error_details`
pub record Details : Type 0 where
  pub null_fields : Dict String ℕ
  pub null_rate_skipped : Bool
  pub transform_errors : Option ℕ

pub record QualityReport : Type 0 where
  pub total_rows : ℕ
  pub valid_rows : ℕ
  pub error_rows : ℕ
  pub null_rate : Rate
  pub error_rate : Rate
  pub quality_score : Rate
  pub error_details : Details

-- max(0, 100 - error_rate * 60 - null_rate * 40): a difference that stops at 0 is that maximum
unfoldable pub score : Rate → Rate → Rate
score e n = record {
  num = 100 * (e.den * n.den) - 60 * (e.num * n.den) - 40 * (n.num * e.den);
  den = e.den * n.den;
}

abbrev pub none_counted : Nulls
none_counted = record { null_count = 0; field_nulls = [] }

-- `required_fields and rows and total > 0`
abbrev pub counted : Option (List Row) → List String → ℕ → Nulls
counted none fs total = none_counted
counted (some rows) fs total = if ltb 0 total then count_rows rows fs none_counted else none_counted

abbrev pub row_total : Option ℕ → Option (List Row) → ℕ
row_total (some n) rows = n
row_total none none = 0
row_total none (some rows) = length rows

abbrev pub rate : ℕ → ℕ → Rate
rate a b = if ltb 0 b then record { num = a; den = b } else zero_rate

abbrev is_absent : Option (List Row) → Bool
is_absent none = true
is_absent (some rows) = false

-- `error_rows` is the number of error rows; `valid` is `total - errors`, which is not below 0 while
-- no more rows fail than there are
unfoldable pub calculate :
    (ℕ → Rate → Rate) → Option (List Row) → ℕ → List String → Option ℕ → QualityReport
calculate round rows errors required_fields total_override =
    let total = row_total total_override rows in
    let nulls = counted rows required_fields total in
    let error_rate = rate errors total in
    let null_rate = rate nulls.null_count (total * length required_fields) in
    record {
      total_rows = total;
      valid_rows = total - errors;
      error_rows = errors;
      null_rate = round 4 null_rate;
      error_rate = round 4 error_rate;
      quality_score = round 2 (score error_rate null_rate);
      error_details = record {
        null_fields = nulls.field_nulls;
        null_rate_skipped = ltb 0 (length required_fields) && is_absent rows;
        transform_errors = if ltb 0 errors then some errors else none;
      };
    }

-- a row of `data_quality_log`, whose unique key is the file's id
pub record LogRow : Type 0 where
  pub task_id : String
  pub file_path : String
  pub report : QualityReport
  pub processing_time_ms : ℕ

-- INSERT … ON DUPLICATE KEY UPDATE keeps the task and the path of a row that is there
abbrev upserted : Option LogRow → LogRow → LogRow
upserted none new = new
upserted (some old) new = record old {
  report = new.report;
  processing_time_ms = new.processing_time_ms;
}

unfoldable pub save : String → ℕ → String → QualityReport → ℕ → Dict ℕ LogRow → Dict ℕ LogRow
save task_id file_id file_path report elapsed_ms log =
    let new : LogRow = record {
      task_id = task_id;
      file_path = file_path;
      report = report;
      processing_time_ms = elapsed_ms;
    } in
    if file_id == 0 then log else put file_id (upserted (get file_id log) new) log
