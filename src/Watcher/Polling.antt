-- ===== src/Watcher/Polling.antt =====
-- `PollingScanner` of src/watcher/polling_scanner.py: one scan of the task's folder, which submits
-- the files that are new. Times of files are in microseconds, as in `StatResult`.
pub mod Scans
mod Tests
use tdcs.Prelude.{
  ℕ, suc, ◌+◌, ◌/◌, max, String, Option, none, some, List, [], ◌∷◌, ◌++◌, Bool, true, false, not,
  ◌&&◌, leb, if◌then◌else◌,
}
use tdcs.FileRef.{FileRef, StatResult}
use tdcs.Files.{Status, success, same_status, Key, Db, get_status}
use tdcs.Pool.{WorkerPool, SubmitResult, submit}

pub record PollConfig : Type 0 where
  pub task_id : String
  pub recursive : Bool
  pub poll_incremental : Bool
  pub priority : ℕ

-- A file that the walk lists: whether its name ends in one of the task's extensions, its stat, if
-- it can be had, what `FileRef.from_stat` makes of it, if that does not raise, and what the
-- breaker reads from the clock if the file is submitted.
pub record Listed : Type 0 where
  pub file_path : String
  pub has_extension : Bool
  pub stat : Option StatResult
  pub ref : Option FileRef
  pub now : ℕ
  pub stamp : ℕ

-- the folders in the order of `os.walk`, the monitored one first, each with its files by name
abbrev pub Walk : Type 0
Walk = List (List Listed)

abbrev is_success : Option Status → Bool
is_success none = false
is_success (some s) = same_status s success

-- the tests that let a file through to `from_stat`
abbrev pub is_new : PollConfig → Db → ℕ → String → StatResult → Bool
is_new cfg db last_mtime path stat =
    if cfg.poll_incremental && leb stat.st_mtime last_mtime
    then false
    else not (
        is_success (
          get_status
            (record { task_id = cfg.task_id; file_path = path; file_mtime = stat.st_mtime / 1000 })
            db))

unfoldable pub wanted : PollConfig → Db → ℕ → Listed → Bool
wanted cfg db last_mtime f =
    if f.has_extension
    then elim f.stat [ none ↦ false | some stat ↦ is_new cfg db last_mtime f.file_path stat ]
    else false

-- the files of a walk that a scan comes to
unfoldable pub in_reach : PollConfig → Walk → List Listed
in_reach cfg [] = []
in_reach cfg (files ∷ folders) =
    let rest = in_reach cfg folders in if cfg.recursive then files ++ rest else files

-- the pool after the loop, and whether an exception of `from_stat` ended it; a scan does not say
-- whether the instance is active
unfoldable pub scan_files : PollConfig → Db → ℕ → List Listed → WorkerPool → Bool × WorkerPool
unfolding wanted
scan_files cfg db last_mtime [] pool = (true, pool)
scan_files cfg db last_mtime (f ∷ fs) pool =
    if wanted cfg db last_mtime f
    then elim f.ref [
      | none ↦ (false, pool)
      | some ref ↦
          scan_files cfg db last_mtime fs (submit ref cfg.priority true f.now f.stamp pool).1
    ]
    else scan_files cfg db last_mtime fs pool

-- `_scan_impl`: `last_scan_mtime` is moved on only if the loop came to its end
unfoldable pub scan : PollConfig → Db → Walk → ℕ → ℕ → WorkerPool → ℕ × WorkerPool
unfolding in_reach scan_files
scan cfg db walk scan_start last_scan_mtime pool =
    let (finished, pool') = scan_files cfg db last_scan_mtime (in_reach cfg walk) pool in
    (if finished then max last_scan_mtime scan_start else last_scan_mtime, pool')
