-- ===== src/Archive/Tests.antt =====
-- Witnesses of the theorems on the archive.
use tdcs.Prelude.{ℕ, refl, String, none, List, [], ◌∷◌, true, false, arith, number_eq, eq_iff}
use tdcs.Prelude.Dict.{get}
use tdcs.Prelude.Text.{Text, codes, codes_eq, same_text}
use tdcs.Archive.FilePath.{join, basename}
use tdcs.Archive.{
  File, Disk, ArchiveConfig, wrote, MoveCalls, archive_after_success, resolve_dst, CompressCalls,
  compress,
}
use tdcs.Archive.Safety.{archive_after_success-Archived, Archived}
use tdcs.Archive.Jobs.{Kept, compress-Kept}

abbrev moving : ArchiveConfig
moving = record {
  archive_mode = "move";
  archive_dir = codes "/old";
  compress_after_days = 7;
  cleanup_after_days = 30;
}

abbrev report : File
report = record { content = 1 ∷ 2 ∷ 3 ∷ []; mtime = 100 }

abbrev disk : Disk
disk = (codes "/in/a.csv", report) ∷ (codes "/old/b.csv", report) ∷ []

abbrev calls : MoveCalls
calls = record {
  uid = codes "77";
  tmp_uid = codes "99";
  copied = wrote (1 ∷ 2 ∷ []);
  tmp_unlink_fails = false;
  move_fails = false;
  unlink_fails = false;
  now = 500;
}

abbrev sum_of : List ℕ → String
sum_of bytes = "0"

archive_after_success-Archived_example :
    Archived sum_of report
      (codes "/in/a.csv")
      (archive_after_success sum_of moving calls (codes "/in/a.csv") disk)
unfolding get resolve_dst same_text join basename
archive_after_success-Archived_example =
    archive_after_success-Archived sum_of report moving calls (codes "/in/a.csv") disk
      (λ e. ground (arith, (eq_iff "move" "delete").1 e)) refl refl refl

abbrev zip_of : Text → File → List ℕ
zip_of name file = 80 ∷ 75 ∷ file.content

-- a compression whose archive cannot be given its name
abbrev unreplaced : CompressCalls
unreplaced = record {
  tmp_uid = codes "1f";
  writing_fails = false;
  left = none;
  replacing_fails = true;
  unlink_fails = false;
  tmp_unlink_fails = false;
  now = 900;
}

compress-Kept_example :
    Kept unreplaced
      (codes "/old/b.csv")
      report
      (record { content = zip_of (basename (codes "/old/b.csv")) report; mtime = 900 })
      disk
      (compress zip_of unreplaced (codes "/old/b.csv") disk)
unfolding get same_text
compress-Kept_example = compress-Kept zip_of unreplaced (codes "/old/b.csv") report disk refl
