-- ===== src/Processor.antt =====
-- `FileProcessor.__call__` of src/core/file_processor.py: one file from its claim to the mark in
-- the database, with the calls of the breaker, the dead-letter directory and the alerter. What the
-- archiver and the report's storage do is given as outcomes.
pub mod Outcomes
mod Tests
use tdcs.Prelude.{
  ℕ, ◌+◌, String, Option, none, some, List, [], ◌∷◌, ◌++◌, Bool, true, false, not, ◌&&◌, leb, ◌==◌,
  text_eq, if◌then◌else◌,
}
use tdcs.FileRef.{FileRef}
use tdcs.Breaker.{CircuitBreaker, record_success, record_failure}
use tdcs.Etl.{
  ErrorKind, retryable, fatal, skip_file, data_quality, config_validation, sandbox, other, Error,
}
use tdcs.Etl.Quality.{Rate, QualityReport}
use tdcs.Pipeline.{PipelineStatus, success, failed, skipped, retry, PipelineResult}
use tdcs.Files.{
  Db, Engine, Instance, key_of, try_claim, mark_processing, mark_success, mark_failed, mark_skipped,
  mark_archived,
}

-- the task's configuration, as far as it is read here; `none` is a task that is not there
pub record TaskConfig : Type 0 where
  pub max_retries : ℕ

-- which of the optional parts there are
pub record Parts : Type 0 where
  pub has_alerter : Bool
  pub has_task_manager : Bool

-- How the outside behaves in one call: `execute` returns a result or raises,
-- with a text of the exception; storing the report
-- and alerting on it raise or not; the archiver returns a path (empty when the file was deleted)
-- or raises.
pub record Outside : Type 0 where
  pub executed : Option PipelineResult
  pub execute_error : String
  pub report_fails : Bool
  pub archived : Option String

-- what a call asks of the other parts, in order
pub data Action : Type 0 where
  save_report : ℕ → QualityReport → Action
  check_quality_alert : Rate → Action
  move_to_dead_letter : FileRef → Action
  notify_dead_letter : FileRef → Action
  notify_pipeline_failure : FileRef → Action

pub record World : Type 0 where
  pub db : Db
  pub breaker : CircuitBreaker
  pub actions : List Action

-- `__call__` returned, or an exception of the archiver left it
pub data Ending : Type 0 where
  returned escaped : Ending

-- `type(error).__name__` and `str(error)` of what the result holds
abbrev pub kind_name : ErrorKind → String
kind_name retryable = "RetryableError"
kind_name fatal = "FatalError"
kind_name skip_file = "SkipFileError"
kind_name data_quality = "DataQualityError"
kind_name config_validation = "ConfigValidationError"
kind_name sandbox = "SandboxError"
kind_name other = "Exception"

abbrev pub error_name : Option Error → String
error_name none = "NoneType"
error_name (some e) = kind_name e.kind

abbrev pub error_text : Option Error → String
error_text none = "None"
error_text (some e) = e.message

-- the report is stored, and then checked if there is an alerter; a failure of either is logged
unfoldable pub report_actions : Parts → Outside → ℕ → Option QualityReport → List Action
report_actions parts o file_id none = []
report_actions parts o file_id (some report) =
    save_report file_id report
    ∷ (if o.report_fails
        then []
        else if parts.has_alerter
        then check_quality_alert report.quality_score ∷ []
        else [])

-- `mark_archived`, where the archiver returned a path that is not empty
unfoldable pub note_archive : FileRef → String → Db → Db
note_archive ref path db = if path == "" then db else mark_archived (key_of ref) path db

unfoldable pub after_archive : FileRef → Option String → World → Ending × World
unfolding note_archive
after_archive ref none w = (escaped, w)
after_archive ref (some path) w =
    (returned, record w { db = note_archive ref path w.db; breaker = record_success w.breaker })

-- `last_id` and `now` are what MySQL's LAST_INSERT_ID() and NOW() would give
unfoldable pub on_success :
    Parts → Outside → FileRef → ℕ → ℕ → PipelineResult → World → Ending × World
unfolding report_actions after_archive
on_success parts o ref last_id now result w =
    let (file_id, db) =
      mark_success last_id (key_of ref) result.raw_count result.valid_count result.elapsed_ms now
        w.db in
    after_archive ref o.archived (record w {
      db = db;
      actions = w.actions ++ report_actions parts o file_id result.quality_report;
    })

abbrev pub when : Bool → Action → List Action
when true a = a ∷ []
when false a = []

unfoldable pub on_retry : Parts → ℕ → FileRef → PipelineResult → World → Ending × World
on_retry parts max_retries ref result w =
    let (retry_count, db) =
      mark_failed (key_of ref) (error_name result.error) (error_text result.error) w.db in
    (
      returned,
      record w {
        db = db;
        actions =
            if leb max_retries retry_count
            then w.actions
              ++ (when parts.has_task_manager (move_to_dead_letter ref)
                  ++ when parts.has_alerter (notify_dead_letter ref))
            else w.actions;
      },
    )

unfoldable pub on_failed : Parts → FileRef → ℕ → PipelineResult → World → Ending × World
on_failed parts ref now result w = (
  returned,
  record {
    db = (mark_failed (key_of ref) (error_name result.error) (error_text result.error) w.db).1;
    breaker = record_failure now w.breaker;
    actions =
        w.actions
        ++ (when parts.has_task_manager (move_to_dead_letter ref)
            ++ when parts.has_alerter (notify_pipeline_failure ref));
  },
)

unfoldable pub on_skipped : FileRef → PipelineResult → World → Ending × World
on_skipped ref result w =
    (returned, record w { db = mark_skipped (key_of ref) (error_text result.error) w.db })

-- the branches on `result.status`
unfoldable pub on_status :
    PipelineStatus → Parts → Outside → ℕ → FileRef → ℕ → ℕ → PipelineResult → World → Ending × World
unfolding on_success on_retry on_failed on_skipped
on_status success parts o max_retries ref last_id now result w =
    on_success parts o ref last_id now result w
on_status skipped parts o max_retries ref last_id now result w = on_skipped ref result w
on_status retry parts o max_retries ref last_id now result w =
    on_retry parts max_retries ref result w
on_status failed parts o max_retries ref last_id now result w = on_failed parts ref now result w

-- `pipeline.execute` under its `try`
unfoldable pub on_result :
    Option PipelineResult → Parts → Outside → ℕ → FileRef → ℕ → ℕ → World → Ending × World
unfolding on_status
on_result none parts o max_retries ref last_id now w = (
  returned,
  record w {
    db = (mark_failed (key_of ref) "UnhandledError" o.execute_error w.db).1;
    breaker = record_failure now w.breaker;
  },
)
on_result (some result) parts o max_retries ref last_id now w =
    on_status result.status parts o max_retries ref last_id now result w

-- from the claim on; `claim_time` is when the claim is made
unfoldable pub claim_and_run :
    Engine → Instance → Parts → Outside → ℕ → FileRef → ℕ → ℕ → ℕ → World → Ending × World
unfolding on_result
claim_and_run e i parts o max_retries ref claim_time last_id now w =
    let (claimed, db) = try_claim e i ref max_retries claim_time w.db in
    if claimed
    then (let (started, db') = mark_processing i (key_of ref) db in
        if started
        then on_result o.executed parts o max_retries ref last_id now (record w { db = db' })
        else (returned, record w { db = db' }))
    else (returned, record w { db = db })

unfoldable pub process :
    Engine
    → Instance
    → Parts
    → Outside
    → Option TaskConfig
    → FileRef
    → ℕ
    → ℕ
    → ℕ
    → World
    → Ending × World
unfolding claim_and_run
process e i parts o none ref claim_time last_id now w = (returned, w)
process e i parts o (some cfg) ref claim_time last_id now w =
    claim_and_run e i parts o cfg.max_retries ref claim_time last_id now w
