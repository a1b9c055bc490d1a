-- ===== src/Archive/Jobs.antt =====
-- What the two jobs over the archive do to each file.
use tdcs.Prelude.{
  ◌<◌, sym, Option, Option-cases, ℕ, ◌-◌, ◌*◌, ◌≡◌, refl, ap, ◌∙◌, none, some, List, [], ◌∷◌, ◌++◌,
  length, length-append, Bool, true, false, not, ◌&&◌, ◌||◌, arith, any, ◌==◌, if◌then◌else◌,
  Bool-cases, inl, inr, number_eq,
}
use mathlib.Core.Bool.{false≢true}
use tdcs.Prelude.Dict.{get, put, pop, get-put, get-pop, beq_refl}
use tdcs.Prelude.Text.{Text, codes, codes_eq, same_text_iff}
use tdcs.Archive.FilePath.{join, basename}
use tdcs.Archive.{
  File, Disk, ArchiveConfig, is_older, clean_one, clean_up, run_cleanup_job, day, Ended,
  CompressCalls, tmp_of, zip_path_of, part_written, replace_zip, try_compress, clear_tmp, compress,
}

-- a name of the listing stands for the path, and its removal does not fail
abbrev pub removes : Text → Text → Text × Bool → Bool
removes dir path (name, fails) = join dir name == path && not fails

get-clean_one :
    (dir : Text) (cutoff : ℕ) (entry : Text × Bool) (path : Text) (disk : Disk)
    → get path (clean_one dir cutoff entry disk)
      ≡ (if is_older cutoff (get path disk) && removes dir path entry then none else get path disk)
unfolding clean_one
get-clean_one dir cutoff (name, true) path disk = ground arith
get-clean_one dir cutoff (name, false) path disk = elim (Bool-cases (join dir name == path)) [
  | inl same ↦
      let e = (same_text_iff (join dir name) path).0 same in
      rw e (ground (arith, get-pop path path disk, beq_refl path))
  | inr other ↦ ground (arith, get-pop (join dir name) path disk)
]

get-clean_up :
    (dir : Text) (cutoff : ℕ) (names : List (Text × Bool)) (path : Text) (disk : Disk)
    → get path (clean_up dir cutoff names disk) ≡ (
        if is_older cutoff (get path disk) && any (removes dir path) names
        then none
        else get path disk)
unfolding clean_up
get-clean_up dir cutoff [] path disk = ground arith
get-clean_up dir cutoff (entry ∷ names) path disk =
    get-clean_up dir cutoff names path (clean_one dir cutoff entry disk)
    ∙ ground (arith, get-clean_one dir cutoff entry path disk)

-- The clean-up removes exactly the files whose names the listing has, whose age is past the limit and
-- whose removal does not fail, and leaves every other file as it is; a limit of 0 days, or no
-- archive directory, removes nothing.
pub get-run_cleanup_job :
    (cfg : ArchiveConfig) (now : ℕ) (names : List (Text × Bool)) (path : Text) (disk : Disk)
    → get path (run_cleanup_job cfg now names disk) ≡ (
        if not (cfg.cleanup_after_days == 0)
          && (not (cfg.archive_dir == [])
              && (is_older (now - cfg.cleanup_after_days * day) (get path disk)
                  && any (removes cfg.archive_dir path) names))
        then none
        else get path disk)
unfolding run_cleanup_job
get-run_cleanup_job cfg now names path disk =
    ground
      (arith, get-clean_up cfg.archive_dir (now - cfg.cleanup_after_days * day) names path disk)

longer-ne : (p q : Text) → length p < length q → ((p == q) ≡ false) × ((q == p) ≡ false)
longer-ne p q le =
    (ground (arith, same_text_iff p q, by_length), ground (arith, same_text_iff q p, by_length))
  where
    by_length : p ≡ q → ⊥
    by_length same = omega (arith, ap length same)

-- the file and its archive afterwards
abbrev pub file_after : CompressCalls → File → Option File
file_after c file =
    if c.writing_fails || (c.replacing_fails || c.unlink_fails) then some file else none

abbrev pub zip_after : CompressCalls → File → Option File → Option File
zip_after c zipped old = if c.writing_fails || c.replacing_fails then old else some zipped

-- the file and the archive are as they have to be; no temporary file is left unless its removal fails, which then raises; and no path is touched
-- but the file, its archive and the temporary file
abbrev pub Kept : CompressCalls → Text → File → File → Disk → Ended → Type 0
Kept c path file zipped disk (returned, disk') =
    let tmp = tmp_of (zip_path_of path) c.tmp_uid in
    ((get path disk' ≡ file_after c file)
      × (get (zip_path_of path) disk' ≡ zip_after c zipped (get (zip_path_of path) disk)))
    × ((q : Text)
        → (path == q) ≡ false
        → (zip_path_of path == q) ≡ false
        → (tmp == q) ≡ false
        → get q disk' ≡ get q disk)
    × (returned ≡ true → get tmp disk' ≡ none)
    × (returned ≡ false → c.tmp_unlink_fails ≡ true)

module _ (c : CompressCalls) (path : Text) (file zipped : File) (disk : Disk) where
  zp : Text
  zp = zip_path_of path

  tp : Text
  tp = tmp_of (zip_path_of path) c.tmp_uid

  -- what the handler needs to find
  abbrev Before : Option File → Option File → Ended → Type 0
  Before f z (returned, d) =
      ((get path d ≡ f) × (get zp d ≡ z))
      × ((q : Text)
          → (path == q) ≡ false
          → (zp == q) ≡ false
          → (tp == q) ≡ false
          → get q d ≡ get q disk)
      × (returned ≡ true → get tp d ≡ none)

  path-zp : ((path == zp) ≡ false) × ((zp == path) ≡ false)
  unfolding zp
  path-zp = longer-ne path zp (omega (arith, length-append path (codes ".zip")))

  zp-tp : ((zp == tp) ≡ false) × ((tp == zp) ≡ false)
  unfolding zp tp
  zp-tp = longer-ne zp tp (
      omega (
        arith,
        length-append zp (codes ".tmp_" ++ c.tmp_uid),
        length-append (codes ".tmp_") c.tmp_uid,
      ))

  path-tp : ((path == tp) ≡ false) × ((tp == path) ≡ false)
  unfolding zp tp
  path-tp = longer-ne path tp (
      omega (
        arith,
        length-append path (codes ".zip"),
        length-append zp (codes ".tmp_" ++ c.tmp_uid),
        length-append (codes ".tmp_") c.tmp_uid,
      ))

  clear_tmp-Kept :
      (r : Ended)
      → Before (file_after c file) (zip_after c zipped (get zp disk)) r
      → Kept c path file zipped disk (clear_tmp c.tmp_unlink_fails tp r)
  unfolding zp tp
  clear_tmp-Kept (true, d) (f, o, t) = (f, o, t, λ e. absurd (false≢true (sym e)))
  clear_tmp-Kept (false, d) (f, o, t) = elim (Option-cases (get tp d)) [
    | inl gone ↦ rw gone (f, o, (λ e. gone), λ e. absurd (false≢true (sym e)))
    | inr (x, there) ↦ rw there (elim (Bool-cases c.tmp_unlink_fails) [
      | inl fails ↦ rw fails (f, o, (λ e. absurd (false≢true e)), (λ e. refl))
      | inr ok ↦ rw ok (
        by_file f,
        (λ q a b e. rw (get-pop tp q d, e) (o q a b e)),
        (λ e. rw (get-pop tp tp d, beq_refl tp) refl),
        λ e. absurd (false≢true (sym e)),
      )
    ])
  ]
    where
      by_file :
          {f z : Option File}
          → (get path d ≡ f) × (get zp d ≡ z)
          → (get path (pop tp d) ≡ f) × (get zp (pop tp d) ≡ z)
      by_file (e, g) = (rw (get-pop tp path d, path-tp.1) e, rw (get-pop tp zp d, zp-tp.1) g)

  part_written-Before :
      (left : Option (List ℕ))
      → get path disk ≡ some file
      → Before (some file) (get zp disk) (false, part_written left c.now tp disk)
  part_written-Before none there = ((there, refl), (λ q a b e. refl), (λ e. absurd (false≢true e)))
  part_written-Before (some part) there =
      let f : File = record { content = part; mtime = c.now } in
      (
        (rw (get-put tp path f disk, path-tp.1) there, rw (get-put tp zp f disk, zp-tp.1) refl),
        (λ q a b e. rw (get-put tp q f disk, e) refl),
        λ e. absurd (false≢true e),
      )

  -- the disk once the archive has its name
  abbrev replaced : Disk
  replaced = put zp zipped (pop tp (put tp zipped disk))

  get-replaced :
      (q : Text)
      → get q replaced ≡ (if zp == q then some zipped else if tp == q then none else get q disk)
  get-replaced q = elim (Bool-cases (tp == q)) [
    | inl at ↦
        rw
          (get-put zp q zipped (pop tp (put tp zipped disk)), get-pop tp q (put tp zipped disk), at)
          refl
    | inr off ↦
        rw
          (
            get-put zp q zipped (pop tp (put tp zipped disk)),
            get-pop tp q (put tp zipped disk),
            get-put tp q zipped disk,
            off,
          )
          refl
  ]

  replace_zip-Before :
      get path disk ≡ some file
      → Before
          (if c.replacing_fails || c.unlink_fails then some file else none)
          (if c.replacing_fails then get zp disk else some zipped)
          (replace_zip c path zipped (put tp zipped disk))
  unfolding zp tp
  replace_zip-Before there = elim (Bool-cases c.replacing_fails) [
    | inl fails ↦ rw fails (
      (
        rw (get-put tp path zipped disk, path-tp.1) there,
        rw (get-put tp zp zipped disk, zp-tp.1) refl,
      ),
      (λ q a b e. rw (get-put tp q zipped disk, e) refl),
      λ e. absurd (false≢true e),
    )
    | inr ok ↦ rw ok (elim (Bool-cases c.unlink_fails) [
      | inl stays ↦ rw stays (
        (
          rw (get-replaced path, path-zp.1, path-tp.1) there,
          rw (get-replaced zp, beq_refl zp) refl,
        ),
        (λ q a b e. rw (get-replaced q, b, e) refl),
        λ e. absurd (false≢true e),
      )
      | inr gone ↦ rw gone (
        (
          rw (get-pop path path replaced, beq_refl path) refl,
          rw (get-pop path zp replaced, path-zp.0, get-replaced zp, beq_refl zp) refl,
        ),
        (λ q a b e. rw (get-pop path q replaced, a, get-replaced q, b, e) refl),
        λ e. rw (get-pop path tp replaced, path-tp.0, get-replaced tp, zp-tp.0, beq_refl tp) refl,
      )
    ])
  ]

  try_compress-Before :
      (zip : Text → File → List ℕ)
      → get path disk ≡ some file
      → record { content = zip (basename path) file; mtime = c.now } ≡ zipped
      → Before
          (file_after c file)
          (zip_after c zipped (get zp disk))
          (try_compress zip c path (some file) disk)
  unfolding zp tp
  try_compress-Before zip there made = elim (Bool-cases c.writing_fails) [
    | inl fails ↦ rw fails (part_written-Before c.left there)
    | inr ok ↦ rw ok (rw made (replace_zip-Before there))
  ]

-- A compression of a file that is there leaves the file if writing the archive, giving it its name
-- or removing the file fails, and otherwise removes it; under the archive's name it leaves the
-- archive made from the file, or what was there if writing or naming it fails. It touches no path
-- but these two and the temporary file's; where it returns, no temporary file is left; and it
-- raises only where removing the temporary file fails.
pub compress-Kept :
    (zip : Text → File → List ℕ) (c : CompressCalls) (path : Text) (file : File) (disk : Disk)
    → get path disk ≡ some file
    → Kept c path file
        (record { content = zip (basename path) file; mtime = c.now })
        disk
        (compress zip c path disk)
unfolding compress zp tp
compress-Kept zip c path file disk there =
    let zipped : File = record { content = zip (basename path) file; mtime = c.now } in
    rw there (
      clear_tmp-Kept c path file zipped disk _
        (try_compress-Before c path file zipped disk zip there refl))
