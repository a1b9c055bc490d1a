-- ===== src/Pipeline.antt =====
-- `ETLPipeline` of src/core/pipeline.py: batches are extracted, transformed, routed and loaded one
-- by one, and the first exception ends the run. The file's parser, the sandbox, the encryption and
-- the database are parameters.
pub mod Counts
pub mod Errors
mod Tests
use tdcs.Prelude.{
  ℕ, zero, suc, ◌+◌, ◌-◌, String, Option, none, some, List, [], ◌∷◌, ◌++◌, map, length, Bool, true,
  false, ◌&&◌, ◌||◌, ltb, leb, ◌==◌, number_eq, if◌then◌else◌,
}
use tdcs.Prelude.Dict.{Dict}
use tdcs.Prelude.Int.{ℤ, pos, sub_ℕ, ◌+ℤ◌}
use tdcs.Prelude.Text.{Text, codes, strip_prefix}
use tdcs.Etl.{
  ErrorKind, retryable, fatal, skip_file, data_quality, config_validation, sandbox, other, Error,
  Result, ok, raise, is_fatal, Row,
}
use tdcs.Etl.Quality.{Rate, QualityReport, calculate}
use tdcs.Etl.Router.{TableConfig, Calendar, Template, Router, group_by_table, ensure_table_exists}

pub data PipelineStatus : Type 0 where
  success failed skipped retry : PipelineStatus

pub record PipelineResult : Type 0 where
  pub status : PipelineStatus
  pub raw_count : ℕ
  pub valid_count : ℕ
  pub error_count : ℤ
  pub elapsed_ms : ℕ
  pub error : Option Error
  pub quality_report : Option QualityReport

-- What an exception of `load_batch` shows: the MySQL error number, if it is an OperationalError or
-- an InternalError with one, and the text of the exception.
pub record DbFailure : Type 0 where
  pub errno : Option ℕ
  pub message : Text

abbrev is_retryable_errno : Option ℕ → Bool
is_retryable_errno none = false
is_retryable_errno (some n) = n == 1040 || (n == 1213 || (n == 2006 || (n == 2013 || n == 2055)))

-- `str.lower` on ASCII
abbrev lower : ℕ → ℕ
lower c = if leb b'A' c && leb c b'Z' then c + 32 else c

-- `s in t`
unfoldable pub occurs : Text → Text → Bool
occurs s [] = elim (strip_prefix s []) [ none ↦ false | some _ ↦ true ]
occurs s (c ∷ t) = elim (strip_prefix s (c ∷ t)) [ none ↦ occurs s t | some _ ↦ true ]

unfoldable pub is_transient : DbFailure → Bool
unfolding occurs
is_transient f =
    let err_str = map lower f.message in
    is_retryable_errno f.errno
    || (occurs (codes "gone away") err_str
        || (occurs (codes "deadlock") err_str || occurs (codes "lost connection") err_str))

-- the exception that `_load_with_retry` raises instead
unfoldable pub load_error : DbFailure → Error
unfolding is_transient
load_error f =
    if is_transient f
    then record { kind = retryable; message = "DB transient error" }
    else record { kind = fatal; message = "Load failed" }

-- what was loaded, batch by batch
abbrev pub Loads : Type 0
Loads = List (Text × List Row)

-- The pipeline's parts. `transform` is the sandbox, where a task has a transformer; `encrypt` is
-- there where encryption is enabled; `load` says whether a load fails, given those before it.
pub record Stages : Type 0 where
  pub calendar : Calendar
  pub table_config : TableConfig
  pub template : Template
  pub transform : Option (List Row → Result (List (Option Row)))
  pub encrypt : Option (List Row → Result (List Row))
  pub load : Loads → Text → List Row → Option DbFailure
  pub round : ℕ → Rate → Rate

-- the counts of the result so far, the error rows, the router and what has been loaded
pub record Progress : Type 0 where
  pub raw_count : ℕ
  pub valid_count : ℕ
  pub error_count : ℤ
  pub error_rows : List Row
  pub router : Router
  pub loads : Loads

-- a run of statements: where it stands, and the exception that it raised, if any
abbrev pub Run : Type 0
Run = Progress × Option Error

-- an exception skips what follows
infixl 5 ◌then_run◌
abbrev pub ◌then_run◌ : Run → (Progress → Run) → Run
◌then_run◌ (p, none) next = next p
◌then_run◌ (p, some e) next = (p, some e)

-- a call that may raise, where the run stands at `p`
abbrev pub lift_run {ℓ} : {A : Type ℓ} → Progress → Result A → (A → Run) → Run
lift_run p (ok a) next = next a
lift_run p (raise e) next = (p, some e)

-- `zip_longest(batch, transformed)`: the rows that come out, and the input rows for which none does
unfoldable pub valid_rows : List Row → List (Option Row) → List Row
valid_rows batch [] = []
valid_rows [] (none ∷ out) = valid_rows [] out
valid_rows [] (some r ∷ out) = r ∷ valid_rows [] out
valid_rows (row ∷ batch) (none ∷ out) = valid_rows batch out
valid_rows (row ∷ batch) (some r ∷ out) = r ∷ valid_rows batch out

unfoldable pub failed_rows : List Row → List (Option Row) → List Row
failed_rows [] out = []
failed_rows (row ∷ batch) [] = row ∷ failed_rows batch []
failed_rows (row ∷ batch) (none ∷ out) = row ∷ failed_rows batch out
failed_rows (row ∷ batch) (some r ∷ out) = failed_rows batch out

abbrev pub transformed :
    Option (List Row → Result (List (Option Row))) → List Row → Result (List (Option Row))
transformed none batch = ok (map some batch)
transformed (some f) batch = f batch

abbrev pub encrypted : Option (List Row → Result (List Row)) → List Row → Result (List Row)
encrypted none rows = ok rows
encrypted (some f) rows = f rows

-- `_load_with_retry`
unfoldable pub after_load : Text → List Row → Progress → Option DbFailure → Run
after_load table rows p none = (record p { loads = p.loads ++ (table, rows) ∷ [] }, none)
after_load table rows p (some failure) = (p, some (load_error failure))

unfoldable pub load_with_retry : Stages → Text → List Row → Progress → Run
unfolding after_load
load_with_retry st table rows p = after_load table rows p (st.load p.loads table rows)

unfoldable pub ensure_and_load : Stages → Text → List Row → Progress → Run
unfolding load_with_retry
ensure_and_load st table rows p =
    lift_run p (ensure_table_exists st.template st.table_config table p.router)
      λ router. load_with_retry st table rows (record p { router = router })

-- the loop over the groups
unfoldable pub load_groups : Stages → List (Text × List Row) → Progress → Run
load_groups st [] p = (p, none)
load_groups st ((table, rows) ∷ groups) p =
    ensure_and_load st table rows p then_run λ p'. load_groups st groups p'

-- what follows the counting: `if not valid: continue`, then encryption and the loads
unfoldable pub store_rows : Stages → List Row → Progress → Run
unfolding load_groups ensure_and_load
store_rows st [] p = (p, none)
store_rows st (r ∷ rows) p =
    lift_run p (encrypted st.encrypt (r ∷ rows))
      λ out. load_groups st (group_by_table st.calendar st.table_config out) p

-- the body of the loop over the batches; the raw rows are counted before the transformer runs
unfoldable pub process_batch : Stages → List Row → Progress → Run
unfolding valid_rows failed_rows store_rows
process_batch st batch p =
    let counted = record p { raw_count = p.raw_count + length batch } in
    lift_run counted (transformed st.transform batch) λ out.
      store_rows st (valid_rows batch out) (record counted {
        valid_count = p.valid_count + length (valid_rows batch out);
        error_count = p.error_count +ℤ sub_ℕ (length batch) (length (valid_rows batch out));
        error_rows = p.error_rows ++ failed_rows batch out;
      })

-- `stream` yields these batches and then ends, or raises
unfoldable pub process_stream : Stages → List (List Row) → Option Error → Progress → Run
unfolding process_batch
process_stream st [] ending p = (p, ending)
process_stream st (batch ∷ batches) ending p =
    process_batch st batch p then_run λ p'. process_stream st batches ending p'

abbrev pub start : Router → Progress
start router = record {
  raw_count = 0;
  valid_count = 0;
  error_count = pos 0;
  error_rows = [];
  router = router;
  loads = [];
}

-- the `except` clauses: the status, and the error that the result holds
unfoldable pub status_of : Option Error → PipelineStatus
status_of none = success
status_of (some e) = elim e.kind [ skip_file ↦ skipped | retryable ↦ retry | _ ↦ failed ]

abbrev pub wrapped : ErrorKind → Error → Error
wrapped skip_file e = e
wrapped retryable e = e
wrapped fatal e = e
wrapped sandbox e = e
wrapped _ e = record { kind = fatal; message = e.message }

abbrev pub error_of : Option Error → Option Error
error_of none = none
error_of (some e) = some (wrapped e.kind e)

unfoldable pub finish : (ℕ → Rate → Rate) → Bool → ℕ → Run → PipelineResult
unfolding status_of
finish round reports elapsed_ms (p, e) = record {
  status = status_of e;
  raw_count = p.raw_count;
  valid_count = p.valid_count;
  error_count = p.error_count;
  elapsed_ms = elapsed_ms;
  error = error_of e;
  quality_report =
      if reports && ltb 0 p.raw_count
      then some (calculate round none (length p.error_rows) [] (some p.raw_count))
      else none;
}

-- `execute`: the result, and the router and the loads that are left behind
unfoldable pub execute :
    Stages → Bool → List (List Row) → Option Error → ℕ → Router → PipelineResult × Progress
unfolding process_stream finish
execute st reports batches ending elapsed_ms router =
    let run = process_stream st batches ending (start router) in
    (finish st.round reports elapsed_ms run, run.0)
