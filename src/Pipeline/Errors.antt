-- ===== src/Pipeline/Errors.antt =====
-- How a run ends on an exception.
use tdcs.Prelude.{ℕ, ◌≡◌, refl, Option, none, some, List, Bool, true}
use tdcs.Etl.{
  ErrorKind, retryable, fatal, skip_file, data_quality, config_validation, sandbox, other, Error,
  is_fatal, Row,
}
use tdcs.Etl.Router.{Router}
use tdcs.Pipeline.{
  PipelineStatus, success, failed, skipped, retry, Stages, process_stream, start, status_of,
  error_of, wrapped, finish, execute,
}

-- the kinds of error that a result of each status can hold
abbrev pub Explains : PipelineStatus → Option Error → Type 0
Explains success none = Unit
Explains skipped (some e) = e.kind ≡ skip_file
Explains retry (some e) = e.kind ≡ retryable
Explains failed (some e) = is_fatal e.kind ≡ true
Explains _ _ = ⊥

explains :
    (e : Error) (k : ErrorKind) → e.kind ≡ k → Explains (status_of (some e)) (some (wrapped k e))
unfolding status_of
explains e skip_file h = rw h refl
explains e retryable h = rw h refl
explains e fatal h = rw h refl
explains e sandbox h = rw h refl
explains e data_quality h = rw h refl
explains e config_validation h = rw h refl
explains e other h = rw h refl

-- A result holds an error exactly if it is no SUCCESS: a SkipFileError if it is SKIPPED, a
-- RetryableError if it is RETRY, and a FatalError if it is FAILED, into which any other exception
-- has been turned.
pub execute-Explains :
    (st : Stages) (reports : Bool) (batches : List (List Row)) (ending : Option Error)
    (elapsed_ms : ℕ) (router : Router)
    → let result = (execute st reports batches ending elapsed_ms router).0 in
      Explains result.status result.error
unfolding execute finish status_of
execute-Explains st reports batches ending elapsed_ms router =
    by_ending (process_stream st batches ending (start router)).1
  where
    by_ending : (e : Option Error) → Explains (status_of e) (error_of e)
    by_ending none = tt
    by_ending (some e) = explains e e.kind refl
