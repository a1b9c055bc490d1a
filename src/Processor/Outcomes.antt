-- ===== src/Processor/Outcomes.antt =====
-- What a processed file leaves behind: its row, the breaker and the calls of the other parts.
use tdcs.Prelude.{
  ℕ, ◌+◌, ◌≤◌, String, ◌≡◌, ◌≢◌, refl, ap, ◌⊎◌, Option, none, some, List, ◌++◌, Bool, true, arith,
  All, leb, ◌==◌, text_eq, if◌then◌else◌, Bool-cases, inl, inr,
}
use tdcs.Prelude.Dict.{beq_refl}
use tdcs.FileRef.{FileRef}
use tdcs.Breaker.{closed}
use tdcs.Breaker.Invariant.{IsValid}
use tdcs.Breaker.Windows.{allow_all, denied, deadline, denied_until_deadline}
use tdcs.Pipeline.{PipelineStatus, success, failed, skipped, retry, PipelineResult}
use tdcs.Files.{
  Status, Key, Row, Db, find, key_of, update_where, any_row, mark_success, mark_failed,
  mark_skipped, mark_archived, same_status,
}
use tdcs.Files.Claims.{find-put, update_where_hit}
use tdcs.Processor.{
  Parts, Outside, World, move_to_dead_letter, notify_dead_letter, error_name, error_text,
  report_actions, note_archive, after_archive, on_success, on_retry, on_status, on_result, when,
}

-- an unconditional update of the row of a key
find-update_any :
    (k : Key) (f : Row → Row) (r : Row) (db : Db)
    → find k db ≡ some r
    → find k (update_where k any_row f db).1 ≡ some (f r)
find-update_any k f r db h =
    rw (update_where_hit k any_row f db r h refl) (rw find-put (rw (beq_refl k)))

find-update_if :
    (k : Key) (test : Row → Bool) (f : Row → Row) (r : Row) (db : Db)
    → find k db ≡ some r
    → test r ≡ true
    → find k (update_where k test f db).1 ≡ some (f r)
find-update_if k test f r db h t =
    rw (update_where_hit k test f db r h t) (rw find-put (rw (beq_refl k)))

update_any-found :
    (k : Key) (f : Row → Row) (r : Row) (db : Db)
    → find k db ≡ some r
    → (update_where k any_row f db).0 ≡ true
update_any-found k f r db h = ap (λ (x : Bool × Db). x.0) (update_where_hit k any_row f db r h refl)

-- what the row says after the run: its status, and how often the file has failed
abbrev pub Marked : Key → Status → ℕ → Db → Type 0
Marked k s n db = (r : Row) × (find k db ≡ some r) × (r.status ≡ s) × (r.retry_count ≡ n)

mark_failed-Marked :
    (k : Key) (name text : String) (r : Row) (db : Db)
    → find k db ≡ some r
    → Marked k Status.failed (r.retry_count + 1) (mark_failed k name text db).1
unfolding mark_failed
mark_failed-Marked k name text r db h = (_, find-update_any k _ r db h, refl, refl)

mark_failed-count :
    (k : Key) (name text : String) (r : Row) (db : Db)
    → find k db ≡ some r
    → (mark_failed k name text db).0 ≡ r.retry_count + 1
unfolding mark_failed
mark_failed-count k name text r db h =
    rw (update_any-found k _ r db h) (rw (find-update_any k _ r db h))

mark_skipped-Marked :
    (k : Key) (reason : String) (r : Row) (db : Db)
    → find k db ≡ some r
    → Marked k Status.skipped r.retry_count (mark_skipped k reason db)
unfolding mark_skipped
mark_skipped-Marked k reason r db h = (_, find-update_any k _ r db h, refl, refl)

mark_success-Marked :
    (last_id : ℕ) (k : Key) (rows valid ms now : ℕ) (r : Row) (db : Db)
    → find k db ≡ some r
    → Marked k Status.success r.retry_count (mark_success last_id k rows valid ms now db).1
unfolding mark_success
mark_success-Marked last_id k rows valid ms now r db h = (_, find-update_any k _ r db h, refl, refl)

find-mark_archived :
    (k : Key) (path : String) (r : Row) (db : Db)
    → find k db ≡ some r
    → r.status ≡ Status.success
    → find k (mark_archived k path db) ≡ some (record r { archive_path = some path })
unfolding mark_archived
find-mark_archived k path r db f s =
    find-update_if k (λ r. same_status r.status Status.success)
      (λ r. record r { archive_path = some path }) r db f (ground arith)

note_archive-Marked :
    (ref : FileRef) (path : String) (n : ℕ) (db : Db)
    → Marked (key_of ref) Status.success n db
    → Marked (key_of ref) Status.success n (note_archive ref path db)
unfolding note_archive
note_archive-Marked ref path n db (r, f, s, c) = elim (Bool-cases (path == "")) [
  | inl empty ↦ rw empty (r, f, s, c)
  | inr there ↦
      rw there
        (record r { archive_path = some path }, find-mark_archived (key_of ref) path r db f s, s, c)
]

-- the mark that the outcome of `execute` calls for
abbrev pub status_for : Option PipelineResult → Status
status_for none = Status.failed
status_for (some result) = elim result.status [
  | success ↦ Status.success
  | skipped ↦ Status.skipped
  | retry ↦ Status.failed
  | failed ↦ Status.failed
]

-- one failure more for an exception, RETRY and FAILED, and none for SUCCESS and SKIPPED
abbrev pub failures_for : Option PipelineResult → ℕ
failures_for none = 1
failures_for (some result) = elim result.status [
  | success ↦ 0
  | skipped ↦ 0
  | retry ↦ 1
  | failed ↦ 1
]

module _ (parts : Parts) (o : Outside) (max_retries : ℕ) (ref : FileRef) (last_id now : ℕ)
    (w : World) where
  success-Marked :
      (result : PipelineResult) (r : Row)
      → find (key_of ref) w.db ≡ some r
      → Marked
          (key_of ref)
          Status.success
          r.retry_count
          (on_success parts o ref last_id now result w).1.db
  unfolding on_success
  success-Marked result r h =
      let marked =
        mark_success-Marked last_id (key_of ref) result.raw_count result.valid_count
          result.elapsed_ms now r w.db h in
      by_archive o.archived
        (record w {
          db =
              (mark_success last_id (key_of ref) result.raw_count result.valid_count
                result.elapsed_ms now w.db).1;
          actions =
              w.actions
              ++ report_actions parts o
                  (mark_success last_id (key_of ref) result.raw_count result.valid_count
                    result.elapsed_ms now w.db).0
                  result.quality_report;
        })
        marked
    where
      by_archive :
          (a : Option String) (v : World)
          → Marked (key_of ref) Status.success r.retry_count v.db
          → Marked (key_of ref) Status.success r.retry_count (after_archive ref a v).1.db
      by_archive none v m = unfold after_archive in m
      by_archive (some path) v m =
          unfold after_archive in note_archive-Marked ref path r.retry_count v.db m

  status-Marked :
      (s : PipelineStatus) (result : PipelineResult) (r : Row)
      → result.status ≡ s
      → find (key_of ref) w.db ≡ some r
      → Marked
          (key_of ref)
          (status_for (some result))
          (r.retry_count + failures_for (some result))
          (on_status s parts o max_retries ref last_id now result w).1.db
  unfolding on_status
  status-Marked success result r e h =
      rw e (let m = success-Marked result r h in (m.0, m.1, m.2, omega (arith, m.3)))
  status-Marked skipped result r e h = rw e (
      let m = mark_skipped-Marked (key_of ref) (error_text result.error) r w.db h in
      (m.0, m.1, m.2, omega (arith, m.3)))
  status-Marked retry result r e h =
      rw e (
        mark_failed-Marked (key_of ref) (error_name result.error) (error_text result.error) r w.db
          h)
  status-Marked failed result r e h =
      rw e (
        mark_failed-Marked (key_of ref) (error_name result.error) (error_text result.error) r w.db
          h)

  -- Once a file is started its row ends with the mark of its outcome: SUCCESS for a success, also
  -- where the archiver raises, SKIPPED for a skip, and FAILED with one failure more for RETRY,
  -- FAILED and an exception; the other outcomes keep the count of failures.
  pub on_result-Marked :
      (executed : Option PipelineResult) (r : Row)
      → find (key_of ref) w.db ≡ some r
      → Marked
          (key_of ref)
          (status_for executed)
          (r.retry_count + failures_for executed)
          (on_result executed parts o max_retries ref last_id now w).1.db
  unfolding on_result
  on_result-Marked none r h =
      mark_failed-Marked (key_of ref) "UnhandledError" o.execute_error r w.db h
  on_result-Marked (some result) r h = status-Marked result.status result r refl h

  -- A run that ends in RETRY moves the file to the dead letters exactly when it has now failed as
  -- often as the task retries, and alerts then too, each where there is a part for it; before
  -- that it asks nothing of the other parts.
  pub on_retry_dead_letter :
      (result : PipelineResult) (r : Row)
      → find (key_of ref) w.db ≡ some r
      → (on_retry parts max_retries ref result w).1.actions ≡ (
          if leb max_retries (r.retry_count + 1)
          then w.actions
            ++ (when parts.has_task_manager (move_to_dead_letter ref)
                ++ when parts.has_alerter (notify_dead_letter ref))
          else w.actions)
  unfolding on_retry
  on_retry_dead_letter result r h =
      rw (
        mark_failed-count (key_of ref) (error_name result.error) (error_text result.error) r w.db h)

  kept_breaker :
      (result : PipelineResult) (s : PipelineStatus)
      → (s ≡ skipped) ⊎ (s ≡ retry)
      → (on_status s parts o max_retries ref last_id now result w).1.breaker ≡ w.breaker
  unfolding on_status
  kept_breaker result skipped h = refl
  kept_breaker result retry h = refl
  kept_breaker result success h = ground arith
  kept_breaker result failed h = ground arith

  -- A probe whose file is skipped or is to be retried leaves the breaker unanswered: a valid
  -- breaker that was OPEN or HALF_OPEN goes on refusing every call up to its deadline.
  pub skipped_probe_blocks :
      (result : PipelineResult) (ts : List (ℕ × ℕ))
      → (result.status ≡ skipped) ⊎ (result.status ≡ retry)
      → IsValid w.breaker
      → w.breaker.state ≢ closed
      → All (λ t. t.0 ≤ deadline w.breaker) ts
      → allow_all (on_result (some result) parts o max_retries ref last_id now w).1.breaker ts
        ≡ (denied ts, w.breaker)
  unfolding on_result
  skipped_probe_blocks result ts h v n within =
      rw (kept_breaker result result.status h) (denied_until_deadline w.breaker ts v n within)
