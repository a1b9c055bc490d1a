-- ===== src/Archive.antt =====
-- `FileArchiver` of src/infrastructure/file_archiver.py over a store of files. What the calls of
-- the operating system do, failures included, comes with each call.
pub mod FilePath
pub mod Safety
pub mod Jobs
mod Tests
use tdcs.Prelude.{
  ℕ, ◌+◌, ◌-◌, ◌*◌, String, Option, none, some, List, [], ◌∷◌, ◌++◌, length, Bool, true, false, not,
  ◌&&◌, ltb, ◌==◌, number_eq, text_eq, if◌then◌else◌,
}
use tdcs.Prelude.Dict.{Dict, get, put, pop, is_some}
use tdcs.Prelude.Text.{Text, codes, codes_eq}
use tdcs.Archive.FilePath.{join, basename, splitext, ends_with}

-- a file: its bytes and its mtime
pub record File : Type 0 where
  pub content : List ℕ
  pub mtime : ℕ

abbrev pub Disk : Type 0
Disk = Dict Text File

-- the fields of the TaskConfig that are read; the days are whole and not negative, as validated
pub record ArchiveConfig : Type 0 where
  pub archive_mode : String
  pub archive_dir : Text
  pub compress_after_days : ℕ
  pub cleanup_after_days : ℕ

-- How `shutil.copy2` ends: it has written some bytes, or raises and leaves a part of them or
-- nothing.
pub data Copied : Type 0 where
  wrote : List ℕ → Copied
  broke : Option (List ℕ) → Copied

-- how the other calls of one move end, and the random part of the names it makes
pub record MoveCalls : Type 0 where
  pub uid : Text
  pub tmp_uid : Text
  pub copied : Copied
  pub tmp_unlink_fails : Bool
  pub move_fails : Bool
  pub unlink_fails : Bool
  pub now : ℕ

-- a state of the disk, and whether the call returned
abbrev pub Ended : Type 0
Ended = Bool × Disk

-- `os.unlink`, where it may fail
abbrev pub unlink : Bool → Text → Disk → Disk
unlink true path disk = disk
unlink false path disk = pop path disk

-- `_resolve_dst`
unfoldable pub resolve_dst : Text → Text → Text → Disk → Text
resolve_dst archive_dir uid src disk =
    let name = basename src in
    if is_some (get (join archive_dir name) disk)
    then (let (root, ext) = splitext name in join archive_dir (root ++ (b'_' ∷ (uid ++ ext))))
    else join archive_dir name

abbrev pub tmp_of : Text → Text → Text
tmp_of dst uid = dst ++ (codes ".tmp_" ++ uid)

-- `shutil.move` of the copy, and the removal of the source
unfoldable pub move_copy : MoveCalls → Text → Text → File → Disk → Ended
move_copy calls src dst copy disk =
    if calls.move_fails
    then (false, disk)
    else (true, unlink calls.unlink_fails src (put dst copy (pop (tmp_of dst calls.tmp_uid) disk)))

module _ (md5 : List ℕ → String) where
  -- the integrity check, on the file that `copy2` has written
  unfoldable pub check_copy : MoveCalls → Text → Text → File → List ℕ → Disk → Ended
  check_copy calls src dst file bytes disk =
      let copy : File = record { content = bytes; mtime = file.mtime } in
      let disk' = put (tmp_of dst calls.tmp_uid) copy disk in
      if length bytes == length file.content && md5 bytes == md5 file.content
      then move_copy calls src dst copy disk'
      else (false, unlink calls.tmp_unlink_fails (tmp_of dst calls.tmp_uid) disk')

  unfoldable pub copy_file : MoveCalls → Text → Text → File → Copied → Disk → Ended
  copy_file calls src dst file (wrote bytes) disk = check_copy calls src dst file bytes disk
  copy_file calls src dst file (broke none) disk = (false, disk)
  copy_file calls src dst file (broke (some part)) disk =
      (false, put (tmp_of dst calls.tmp_uid) (record { content = part; mtime = calls.now }) disk)

  abbrev pub move_found : MoveCalls → Text → Text → Option File → Disk → Ended
  move_found calls src dst none disk = (false, disk)
  move_found calls src dst (some file) disk = copy_file calls src dst file calls.copied disk

  -- `_safe_move`; `os.path.getsize` raises for a file that is not there
  unfoldable pub safe_move : MoveCalls → Text → Text → Disk → Ended
  safe_move calls src dst disk = move_found calls src dst (get src disk) disk

  -- the path that `archive_after_success` returns, `none` where it raises, and the disk
  unfoldable pub archive_after_success :
      ArchiveConfig → MoveCalls → Text → Disk → Option Text × Disk
  archive_after_success cfg calls path disk =
      if cfg.archive_mode == "keep"
      then (some path, disk)
      else if cfg.archive_mode == "delete"
      then (some [], unlink calls.unlink_fails path disk)
      else if cfg.archive_dir == []
      then (some path, disk)
      else (let dst = resolve_dst cfg.archive_dir calls.uid path disk in
          let (moved, disk') = safe_move calls path dst disk in
          (if moved then some dst else none, disk'))

-- seconds of a day
abbrev pub day : ℕ
day = 86400

-- How the calls of one `_compress` end: whether writing the archive raises, and what it then leaves
-- of the temporary file; whether `os.replace` and the two removals fail; the random part of the
-- temporary name, and the time.
pub record CompressCalls : Type 0 where
  pub tmp_uid : Text
  pub writing_fails : Bool
  pub left : Option (List ℕ)
  pub replacing_fails : Bool
  pub unlink_fails : Bool
  pub tmp_unlink_fails : Bool
  pub now : ℕ

abbrev pub zip_path_of : Text → Text
zip_path_of path = path ++ codes ".zip"

abbrev pub part_written : Option (List ℕ) → ℕ → Text → Disk → Disk
part_written none now tmp disk = disk
part_written (some part) now tmp disk = put tmp (record { content = part; mtime = now }) disk

-- `os.replace`, and the removal of the file; false where one raises
abbrev pub replace_zip : CompressCalls → Text → File → Disk → Ended
replace_zip c path zipped disk =
    if c.replacing_fails
    then (false, disk)
    else (let disk' =
          put (zip_path_of path) zipped (pop (tmp_of (zip_path_of path) c.tmp_uid) disk) in
        (not c.unlink_fails, unlink c.unlink_fails path disk'))

-- the `try` block, on the file; writing the archive of a file that is not there raises
abbrev pub try_compress : (Text → File → List ℕ) → CompressCalls → Text → Option File → Disk → Ended
try_compress zip c path none disk =
    (false, part_written c.left c.now (tmp_of (zip_path_of path) c.tmp_uid) disk)
try_compress zip c path (some file) disk =
    let tmp = tmp_of (zip_path_of path) c.tmp_uid in
    if c.writing_fails
    then (false, part_written c.left c.now tmp disk)
    else (let zipped : File = record { content = zip (basename path) file; mtime = c.now } in
        replace_zip c path zipped (put tmp zipped disk))

-- the handler, which removes a temporary file that is there, and raises where that fails
abbrev pub clear_tmp : Bool → Text → Ended → Ended
clear_tmp fails tmp (true, disk) = (true, disk)
clear_tmp fails tmp (false, disk) =
    if is_some (get tmp disk) then (not fails, unlink fails tmp disk) else (true, disk)

-- `_compress`, with what a zip archive of the file holds: whether it returns, and the disk
unfoldable pub compress : (Text → File → List ℕ) → CompressCalls → Text → Disk → Ended
compress zip c path disk =
    clear_tmp c.tmp_unlink_fails (tmp_of (zip_path_of path) c.tmp_uid)
      (try_compress zip c path (get path disk) disk)

-- a file that is there and whose mtime is before the cutoff
abbrev pub is_older : ℕ → Option File → Bool
is_older cutoff none = false
is_older cutoff (some file) = ltb file.mtime cutoff

-- one round of the clean-up
unfoldable pub clean_one : Text → ℕ → Text × Bool → Disk → Disk
clean_one dir cutoff (name, fails) disk =
    if is_older cutoff (get (join dir name) disk) then unlink fails (join dir name) disk else disk

-- The loops of the two jobs over what `os.listdir` gives, each name with how its call ends.
unfoldable pub clean_up : Text → ℕ → List (Text × Bool) → Disk → Disk
clean_up dir cutoff [] disk = disk
clean_up dir cutoff (entry ∷ names) disk =
    clean_up dir cutoff names (clean_one dir cutoff entry disk)

-- an exception ends the loop
unfoldable pub compress_all :
    (Text → File → List ℕ) → Text → ℕ → List (Text × CompressCalls) → Disk → Ended
unfolding compress
compress_all zip dir cutoff [] disk = (true, disk)
compress_all zip dir cutoff ((name, calls) ∷ names) disk =
    if not (ends_with (codes ".zip") name) && is_older cutoff (get (join dir name) disk)
    then (let (returned, disk') = compress zip calls (join dir name) disk in
        let rest = compress_all zip dir cutoff names disk' in
        if returned then rest else (false, disk'))
    else compress_all zip dir cutoff names disk

-- `run_cleanup_job` and `run_compress_job`, where the directory is there
unfoldable pub run_cleanup_job : ArchiveConfig → ℕ → List (Text × Bool) → Disk → Disk
unfolding clean_up
run_cleanup_job cfg now names disk =
    if cfg.cleanup_after_days == 0
    then disk
    else if cfg.archive_dir == []
    then disk
    else clean_up cfg.archive_dir (now - cfg.cleanup_after_days * day) names disk

unfoldable pub run_compress_job :
    (Text → File → List ℕ) → ArchiveConfig → ℕ → List (Text × CompressCalls) → Disk → Ended
unfolding compress_all
run_compress_job zip cfg now names disk =
    if cfg.compress_after_days == 0
    then (true, disk)
    else if cfg.archive_dir == []
    then (true, disk)
    else compress_all zip cfg.archive_dir (now - cfg.compress_after_days * day) names disk
