-- ===== src/Web/Retry/Tests.antt =====
-- A witness of the theorem on a retry by hand.
use tdcs.Prelude.{◌≡◌, refl, some, [], ◌∷◌, true}
use tdcs.Prelude.Dict.{get}
use tdcs.FileRef.{FileRef}
use tdcs.Files.{Row, Db, failed, pending, find, Engine, Instance, key_of, new_row}
use tdcs.Files.Claims.{claims, starts, run_calls}
use tdcs.Web.{ok}
use tdcs.Web.Retry.{retry_file, retry_file-stuck}

abbrev mysql : Engine
mysql = record { left_to_right = true; found_rows = true }

abbrev first : Instance
first = record { instance_id = "a"; claim_timeout = 300 }

abbrev report_csv : FileRef
report_csv = record {
  task_id = "t";
  file_path = "/in/report.csv";
  file_mtime = 7;
  file_size = 10;
  file_hash = "00";
}

abbrev row_failed : Row
row_failed = record (new_row first report_csv 100 1) { status = failed; retry_count = 3 }

abbrev table : Db
table = record { rows = (key_of report_csv, row_failed) ∷ []; next_id = 2 }

retry_file-stuck_example :
    let (reply, db') = retry_file true "" row_failed.id table in
    (reply ≡ ok 200 row_failed.id)
    × ((r' : Row) × (find (key_of report_csv) (
            run_calls mysql
              (claims first report_csv 3 900 ∷ starts first (key_of report_csv) ∷ [])
              db')
          ≡ some r')
        × (r'.status ≡ pending)
        × (r'.retry_count ≡ 0))
unfolding get
retry_file-stuck_example =
    retry_file-stuck "" (key_of report_csv) row_failed table mysql
      (claims first report_csv 3 900 ∷ starts first (key_of report_csv) ∷ []) refl refl
