-- ===== src/Archive/Safety.antt =====
-- A move into the archive loses nothing, however it ends.
use tdcs.Prelude.{
  ℕ, ◌≡◌, ◌≢◌, refl, ap, String, Option, none, some, List, [], ◌++◌, length, length-append, Bool,
  true, false, ◌&&◌, arith, ◌==◌, number_eq, text_eq, eq_iff, if◌then◌else◌, Bool-cases, inl, inr,
}
use tdcs.Prelude.Dict.{get, put, pop, get-put, get-pop, beq_refl}
use tdcs.Prelude.Text.{Text, codes, codes_eq, same_text_iff}
use tdcs.Archive.{
  File, Disk, ArchiveConfig, Copied, wrote, broke, MoveCalls, Ended, unlink, resolve_dst, tmp_of,
  move_copy, check_copy, copy_file, safe_move, archive_after_success,
}

-- a path that is not there differs from one that is
absent-ne :
    (p q : Text) (file : File) (disk : Disk)
    → get p disk ≡ none
    → get q disk ≡ some file
    → (p == q) ≡ false
absent-ne p q file disk absent there = elim (Bool-cases (p == q)) [
  | inl same ↦ ground (arith, ap (λ r. get r disk) ((same_text_iff p q).0 same))
  | inr other ↦ other
]

ne-absent :
    (p q : Text) (file : File) (disk : Disk)
    → get p disk ≡ none
    → get q disk ≡ some file
    → (q == p) ≡ false
ne-absent p q file disk absent there = elim (Bool-cases (q == p)) [
  | inl same ↦ ground (arith, ap (λ r. get r disk) ((same_text_iff q p).0 same))
  | inr other ↦ other
]

tmp_of-ne : (dst uid : Text) → (tmp_of dst uid == dst) ≡ false
tmp_of-ne dst uid = elim (Bool-cases (tmp_of dst uid == dst)) [
  | inl same ↦ absurd (
      omega (
        arith,
        ap length ((same_text_iff (tmp_of dst uid) dst).0 same),
        length-append dst (codes ".tmp_" ++ uid),
      ))
  | inr other ↦ other
]

module _ (md5 : List ℕ → String) (file : File) where
  -- at a path stands a file of the same size and the same MD5
  abbrev pub Keeps : Text → Disk → Type 0
  Keeps path disk =
      (copy : File) × (get path disk ≡ some copy)
      × (length copy.content ≡ length file.content)
      × (md5 copy.content ≡ md5 file.content)

  -- what a move may leave: a source, or a target where it returned
  abbrev pub Moved : Text → Text → Ended → Type 0
  Moved src dst (true, disk) = Keeps dst disk
  Moved src dst (false, disk) = get src disk ≡ some file

  module _ (calls : MoveCalls) (src dst : Text) (disk : Disk) (there : get src disk ≡ some file)
      (no_tmp : get (tmp_of dst calls.tmp_uid) disk ≡ none) (no_dst : get dst disk ≡ none) where
    tmp_not_src : (tmp_of dst calls.tmp_uid == src) ≡ false
    tmp_not_src = absent-ne (tmp_of dst calls.tmp_uid) src file disk no_tmp there

    source_kept : (copy : File) → get src (put (tmp_of dst calls.tmp_uid) copy disk) ≡ some file
    source_kept copy = rw get-put (rw tmp_not_src there)

    move_copy-Moved :
        (copy : File)
        → length copy.content ≡ length file.content
        → md5 copy.content ≡ md5 file.content
        → Moved src dst (move_copy calls src dst copy (put (tmp_of dst calls.tmp_uid) copy disk))
    unfolding move_copy
    move_copy-Moved copy size sum = elim (Bool-cases calls.move_fails) [
      | inl fails ↦ rw fails (source_kept copy)
      | inr moves ↦ rw moves (copy, at_dst calls.unlink_fails, size, sum)
    ]
      where
        at_dst :
            (b : Bool)
            → get dst (
                unlink b src (
                  put dst copy
                    (pop (tmp_of dst calls.tmp_uid) (put (tmp_of dst calls.tmp_uid) copy disk))))
              ≡ some copy
        at_dst true = rw get-put (rw (beq_refl dst) refl)
        at_dst false =
            rw get-pop
              (rw (ne-absent dst src file disk no_dst there) (rw get-put (rw (beq_refl dst) refl)))

    check_copy-Moved :
        (bytes : List ℕ) → Moved src dst (check_copy md5 calls src dst file bytes disk)
    unfolding check_copy
    check_copy-Moved bytes =
        elim (Bool-cases (length bytes == length file.content && md5 bytes == md5 file.content)) [
          | inl same ↦ rw same (
              move_copy-Moved (record { content = bytes; mtime = file.mtime }) (ground arith)
                (ground (arith, eq_iff (md5 bytes) (md5 file.content))))
          | inr differs ↦ rw differs (at_src calls.tmp_unlink_fails)
        ]
      where
        at_src :
            (b : Bool)
            → get src (
                unlink b (tmp_of dst calls.tmp_uid) (
                  put
                    (tmp_of dst calls.tmp_uid)
                    (record { content = bytes; mtime = file.mtime })
                    disk))
              ≡ some file
        at_src true = source_kept (record { content = bytes; mtime = file.mtime })
        at_src false =
            rw get-pop
              (rw tmp_not_src (source_kept (record { content = bytes; mtime = file.mtime })))

    safe_move-Moved : Moved src dst (safe_move md5 calls src dst disk)
    unfolding safe_move copy_file
    safe_move-Moved = rw there (by_copy calls.copied)
      where
        by_copy : (c : Copied) → Moved src dst (copy_file md5 calls src dst file c disk)
        by_copy (wrote bytes) = (check_copy-Moved bytes)
        by_copy (broke none) = there
        by_copy (broke (some part)) = (source_kept (record { content = part; mtime = calls.now }))

  -- The file stands where the answer says: at the path that it names, or, after an exception, at
  -- its own path, unchanged.
  abbrev pub Archived : Text → Option Text × Disk → Type 0
  Archived path (some at, disk) = Keeps at disk
  Archived path (none, disk) = get path disk ≡ some file

  -- Unless the task deletes its files, archiving loses none, whichever calls of the operating system
  -- fail or write wrong bytes: where it returns a path, a file of the source's size and MD5 stands
  -- there, and where it raises, the source still stands at its path. The target and the temporary
  -- name are new, as the random parts of the two names make them.
  pub archive_after_success-Archived :
      (cfg : ArchiveConfig) (calls : MoveCalls) (path : Text) (disk : Disk)
      → cfg.archive_mode ≢ "delete"
      → get path disk ≡ some file
      → get (resolve_dst cfg.archive_dir calls.uid path disk) disk ≡ none
      → get (tmp_of (resolve_dst cfg.archive_dir calls.uid path disk) calls.tmp_uid) disk ≡ none
      → Archived path (archive_after_success md5 cfg calls path disk)
  unfolding archive_after_success
  archive_after_success-Archived cfg calls path disk not_delete there no_dst no_tmp =
      elim (Bool-cases (cfg.archive_mode == "keep")) [
        | inl keeps ↦ rw keeps (file, there, refl, refl)
        | inr other ↦ rw other (elim (Bool-cases (cfg.archive_mode == "delete")) [
          | inl deletes ↦ absurd (not_delete ((eq_iff cfg.archive_mode "delete").0 deletes))
          | inr moves ↦ rw moves (elim (Bool-cases (cfg.archive_dir == [])) [
            | inl nowhere ↦ rw nowhere (file, there, refl, refl)
            | inr somewhere ↦ rw somewhere (
                by_move (safe_move md5 calls path dst disk)
                  (safe_move-Moved calls path dst disk there no_tmp no_dst))
          ])
        ])
      ]
    where
      dst : Text
      dst = resolve_dst cfg.archive_dir calls.uid path disk

      by_move : (e : Ended) → Moved path dst e → Archived path (if e.0 then some dst else none, e.1)
      by_move (true, disk') h = h
      by_move (false, disk') h = h
