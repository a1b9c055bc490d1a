-- ===== src/Watcher/Polling/Tests.antt =====
-- Two scans of one file.
use tdcs.Prelude.{◌≡◌, refl, some, [], ◌∷◌, true}
use tdcs.Prelude.Dict.{get}
use tdcs.Files.{Db, get_status}
use tdcs.Pool.{new_pool}
use tdcs.Watcher.Polling.{PollConfig, Listed, wanted, scan_files, scan, in_reach}
use tdcs.Watcher.Polling.Scans.{Round, only_changed, last_after, refused_files_are_not_retried}

abbrev config : PollConfig
config = record { task_id = "t"; recursive = true; poll_incremental = true; priority = 5 }

abbrev file : Listed
file = record {
  file_path = "/in/f.csv";
  has_extension = true;
  stat = some (record { st_mtime = 50; st_size = 3 });
  ref = some (record {
    task_id = "t";
    file_path = "/in/f.csv";
    file_mtime = 0;
    file_size = 3;
    file_hash = "00";
  });
  now = 1;
  stamp = 1;
}

abbrev no_rows : Db
no_rows = record { rows = []; next_id = 1 }

abbrev later : Round
later = record { db = no_rows; walk = (file ∷ []) ∷ []; start = 200; pool = new_pool 10 }

refused_files_are_not_retried_example :
    let last' =
      last_after config
        (later ∷ [])
        (scan config no_rows ((file ∷ []) ∷ []) 100 0 (new_pool 10)).0 in
    scan config no_rows ((file ∷ []) ∷ []) 300 last' (new_pool 10)
    ≡ scan config no_rows (only_changed 100 ((file ∷ []) ∷ [])) 300 last' (new_pool 10)
unfolding in_reach scan_files wanted get_status get
refused_files_are_not_retried_example =
    refused_files_are_not_retried config (later ∷ []) no_rows no_rows ((file ∷ []) ∷ [])
      ((file ∷ []) ∷ []) 100 300 0 (new_pool 10) (new_pool 10) refl refl
