-- ===== src/Processor/Tests.antt =====
-- The processor's theorems at a file that has been started.
use tdcs.Prelude.{◌+◌, ◌≡◌, refl, none, some, [], ◌∷◌, true, false, arith, inr}
use tdcs.Prelude.Int.{pos}
use tdcs.Prelude.Dict.{get}
use tdcs.FileRef.{FileRef}
use tdcs.Breaker.{CircuitBreaker, half_open, new_breaker}
use tdcs.Breaker.Windows.{allow_all}
use tdcs.Etl.{retryable}
use tdcs.Pipeline.{retry, PipelineResult}
use tdcs.Files.{processing, Row, find, key_of, new_row}
use tdcs.Processor.{Parts, Outside, World, on_result}
use tdcs.Processor.Outcomes.{
  Marked, status_for, failures_for, on_result-Marked, skipped_probe_blocks,
}

abbrev report_csv : FileRef
report_csv = record {
  task_id = "t";
  file_path = "/in/report.csv";
  file_mtime = 7;
  file_size = 10;
  file_hash = "00";
}

abbrev row : Row
row = record (new_row (record { instance_id = "a"; claim_timeout = 300 }) report_csv 100 1) {
  status = processing;
  retry_count = 2;
}

abbrev parts : Parts
parts = record { has_alerter = true; has_task_manager = true }

abbrev outside : Outside
outside = record {
  executed = none;
  execute_error = "disk full";
  report_fails = false;
  archived = none;
}

abbrev probing : CircuitBreaker
probing = record new_breaker {
  state = half_open;
  failures = 5;
  half_open_in_progress = true;
  half_open_at = 200;
}

abbrev world : World
world = record {
  db = record { rows = (key_of report_csv, row) ∷ []; next_id = 2 };
  breaker = probing;
  actions = [];
}

abbrev timed_out : PipelineResult
timed_out = record {
  status = retry;
  raw_count = 0;
  valid_count = 0;
  error_count = pos 0;
  elapsed_ms = 3;
  error = some (record { kind = retryable; message = "timeout" });
  quality_report = none;
}

row_there : find (key_of report_csv) world.db ≡ some row
unfolding get
row_there = refl

on_result-Marked_example :
    Marked
      (key_of report_csv)
      (status_for (some timed_out))
      (2 + failures_for (some timed_out))
      (on_result (some timed_out) parts outside 3 report_csv 0 300 world).1.db
on_result-Marked_example =
    on_result-Marked parts outside 3 report_csv 0 300 world (some timed_out) row row_there

skipped_probe_blocks_example :
    allow_all
      (on_result (some timed_out) parts outside 3 report_csv 0 300 world).1.breaker
      ((260, 260) ∷ [])
    ≡ (false ∷ [], probing)
skipped_probe_blocks_example =
    skipped_probe_blocks parts outside 3 report_csv 0 300 world timed_out ((260, 260) ∷ [])
      (inr refl) (ground arith) (ground arith) (omega arith, tt)
