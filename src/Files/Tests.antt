-- ===== src/Files/Tests.antt =====
-- The claim theorems at a concrete table.
use tdcs.Prelude.{
  ℕ, ◌≤◌, none, some, List, [], ◌∷◌, ◌≡◌, ◌≢◌, refl, true, false, inl, arith, eq_iff,
}
use tdcs.FileRef.{FileRef}
use tdcs.Files.{
  claimed, success, failed, Row, Db, find, Engine, Instance, key_of, new_row, try_claim,
  mark_processing, update_where,
}
use tdcs.Prelude.Dict.{get}
use tdcs.Files.Claims.{
  Call, claims, starts, run_calls, claim_excludes_others, processed_rows_stay, one_start_per_claim,
}
use tdcs.Files.Retry.{retry_by_another_is_stuck}

abbrev mysql : Engine
mysql = record { left_to_right = true; found_rows = false }

abbrev first : Instance
first = record { instance_id = "a"; claim_timeout = 300 }

abbrev second : Instance
second = record { instance_id = "b"; claim_timeout = 300 }

abbrev report_csv : FileRef
report_csv = record {
  task_id = "t";
  file_path = "/in/report.csv";
  file_mtime = 7;
  file_size = 10;
  file_hash = "00";
}

abbrev empty_table : Db
empty_table = record { rows = []; next_id = 1 }

abbrev row_claimed : Row
row_claimed = new_row first report_csv 100 1

abbrev row_failed : Row
row_failed = record row_claimed { status = failed; claim_expires_at = none; retry_count = 1 }

abbrev row_done : Row
row_done = record row_claimed { status = success }

abbrev table : Row → Db
table r = record { rows = (key_of report_csv, r) ∷ []; next_id = 2 }

abbrev others : List Call
others = claims second report_csv 3 200 ∷ starts second (key_of report_csv) ∷ []

found_at : (r : Row) → find (key_of report_csv) (table r) ≡ some r
unfolding get
found_at r = refl

b_is_not_a : second.instance_id ≢ first.instance_id
b_is_not_a same = ground (arith, eq_iff "b" "a")

claim_excludes_others_example :
    find (key_of report_csv) (run_calls mysql others (table row_claimed)) ≡ some row_claimed
unfolding new_row
claim_excludes_others_example =
    claim_excludes_others mysql others (key_of report_csv) row_claimed 400 (table row_claimed)
      (found_at row_claimed) (inl refl) refl (omega arith, (b_is_not_a, tt))

processed_rows_stay_example :
    find (key_of report_csv) (run_calls mysql others (table row_done)) ≡ some row_done
unfolding new_row
processed_rows_stay_example =
    processed_rows_stay mysql others (key_of report_csv) row_done 3 (table row_done)
      (found_at row_done) (inl refl) (omega arith, (tt, tt))

one_start_per_claim_example :
    (mark_processing second
      (key_of report_csv)
      (run_calls mysql others (mark_processing first (key_of report_csv) (table row_claimed)).1)).0
    ≡ false
unfolding get mark_processing update_where new_row
one_start_per_claim_example =
    one_start_per_claim mysql first second others (key_of report_csv) row_claimed
      (table row_claimed) (found_at row_claimed) refl (in_time, (tt, tt))
  where
    in_time : (d : ℕ) → row_claimed.claim_expires_at ≡ some d → 200 ≤ d
    in_time d e = let q : 400 ≡ d = cc in omega arith

retry_by_another_is_stuck_example :
    let db' = (try_claim mysql second report_csv 3 500 (table row_failed)).1 in
    ((mark_processing second (key_of report_csv) db').0 ≡ false)
    × (find (key_of report_csv) (run_calls mysql (claims first report_csv 3 9999 ∷ []) db')
        ≡ some (record row_failed { status = claimed }))
unfolding new_row
retry_by_another_is_stuck_example =
    retry_by_another_is_stuck mysql second report_csv 3 500 row_failed (table row_failed) refl
      (found_at row_failed) refl refl (omega arith) (claims first report_csv 3 9999 ∷ []) b_is_not_a
      (tt, tt)
