-- ===== src/Pool/Tests.antt =====
-- The pool's theorems at a concrete pool.
use tdcs.Prelude.{◌≡◌, ◌≤◌, ◌≢◌, refl, List, [], ◌∷◌, true, count, arith, text_eq}
use tdcs.Prelude.Dict.{get, put, contains}
use tdcs.FileRef.{FileRef}
use tdcs.Breaker.{closed, opened, new_breaker, allow}
use tdcs.Pool.{
  queue_full, rejected_circuit_open, breaker_of, WorkerPool, new_pool, queue_backlog,
  is_task_paused, submit,
}
use tdcs.Pool.Submit.{
  Later, tries, works, after_all, Changes, submit-Changes, submit_full_queue_loses_probe,
}
use tdcs.Pool.Backlog.{System, here, next, submits, IsCounted, Reach-IsCounted}
use tdcs.Pool.Supervisor.{started, recent, restart_max, Tick, dies, pass, watch, restarts_bounded}

abbrev report_csv : FileRef
report_csv = record {
  task_id = "t";
  file_path = "/in/report.csv";
  file_mtime = 7;
  file_size = 10;
  file_hash = "00";
}

submit-Changes_example :
    Changes report_csv 5 (new_pool 10) (submit report_csv 5 true 1 1 (new_pool 10))
submit-Changes_example = submit-Changes report_csv 5 true 1 1 (new_pool 10)

abbrev full_pool : WorkerPool
full_pool = record (new_pool 1) {
  queue = record { priority = 5; ref = report_csv } ∷ [];
  breakers = ("t", record new_breaker { state = opened; failures = 5; opened_at = 100 }) ∷ [];
}

abbrev meanwhile : List Later
meanwhile = tries report_csv 5 true 200 200 ∷ works [] [] ∷ []

submit_full_queue_loses_probe_example :
    let (answer, p') = submit report_csv 5 true 161 161 full_pool in
    (answer ≡ queue_full)
    × ((submit report_csv 5 true 221 221 (after_all meanwhile p')).0 ≡ rejected_circuit_open)
unfolding is_task_paused get contains allow submit put
submit_full_queue_loses_probe_example =
    submit_full_queue_loses_probe report_csv report_csv 5 5 161 161 221 221 full_pool meanwhile refl
      is_opened granted refl ((λ same. omega arith), (tt, tt)) refl (omega arith) refl
  where
    is_opened : opened ≢ closed
    is_opened same = cc

    granted : (allow 161 161 (breaker_of "t" full_pool)).0 ≡ true
    granted = refl

abbrev idle : System
idle = record { pool = new_pool 10; in_flight = [] }

idle-IsCounted : IsCounted idle
unfolding queue_backlog get
idle-IsCounted = record { backlog = λ u. refl; fits = omega arith }

abbrev one_queued : System
one_queued = record idle { pool = (submit report_csv 5 true 1 1 (new_pool 10)).1 }

Reach-IsCounted_example : IsCounted one_queued
Reach-IsCounted_example =
    Reach-IsCounted idle-IsCounted (next here (submits report_csv 5 true 1 1 refl))

abbrev crashes : List Tick
crashes = pass 0 ∷ dies ∷ pass 10 ∷ dies ∷ pass 20 ∷ dies ∷ pass 30 ∷ dies ∷ pass 40 ∷ []

restarts_bounded_example :
    count (recent 40) (watch (record { worker = started; log = [] }) crashes).log ≤ restart_max
restarts_bounded_example =
    restarts_bounded crashes 40
      (omega arith, (omega arith, (omega arith, (omega arith, (omega arith, tt))))) (omega arith)
