-- ===== src/Watcher/Polling/Scans.antt =====
-- Which files a scan submits, and which it never comes back to.
use tdcs.Prelude.{
  ℕ, ◌≤◌, ◌≡◌, refl, none, some, List, [], ◌∷◌, ◌++◌, true, false, keep, All, arith, Bool-cases,
  Option-cases, inl, inr, Bool, ltb, sym,
}
use tdcs.FileRef.{FileRef}
use tdcs.Files.{Db}
use tdcs.Pool.{WorkerPool, submit}
use tdcs.Watcher.Polling.{PollConfig, Listed, Walk, wanted, in_reach, scan_files, scan}

-- each wanted file is submitted, in the order of the walk
pub submit_all : PollConfig → List Listed → WorkerPool → WorkerPool
submit_all cfg [] pool = pool
submit_all cfg (f ∷ fs) pool = elim f.ref [
  | none ↦ pool
  | some ref ↦ submit_all cfg fs (submit ref cfg.priority true f.now f.stamp pool).1
]

abbrev pub HasRef : Listed → Type 0
HasRef f = (r : FileRef) × (f.ref ≡ some r)

-- Where every file that passes the tests can be read, the loop comes to its end, and has submitted
-- exactly those files, each once and in the order of the walk.
pub scan_files-submits :
    (cfg : PollConfig) (db : Db) (last_mtime : ℕ) (fs : List Listed) (pool : WorkerPool)
    → All HasRef (keep (wanted cfg db last_mtime) fs)
    → scan_files cfg db last_mtime fs pool
      ≡ (true, submit_all cfg (keep (wanted cfg db last_mtime) fs) pool)
unfolding scan_files submit_all
scan_files-submits cfg db last_mtime [] pool h = refl
scan_files-submits cfg db last_mtime (f ∷ fs) pool h =
    elim (Bool-cases (wanted cfg db last_mtime f)) [
      | inl new ↦
          let h' : HasRef f × All HasRef (keep (wanted cfg db last_mtime) fs) = rw new at h in
          let r = h'.0 in
          rw new (
            rw r.1 (
              scan_files-submits cfg db last_mtime fs
                (submit r.0 cfg.priority true f.now f.stamp pool).1 h'.1))
      | inr old ↦ rw old (scan_files-submits cfg db last_mtime fs pool (rw old at h))
    ]

-- the file has changed since a time
abbrev pub changed_since : ℕ → Listed → Bool
changed_since t f = elim f.stat [ none ↦ false | some s ↦ ltb t s.st_mtime ]

-- the walk with the files left out that have not changed since a time
pub only_changed : ℕ → Walk → Walk
only_changed t [] = []
only_changed t (files ∷ folders) = keep (changed_since t) files ∷ only_changed t folders

not_wanted :
    (cfg : PollConfig) (db : Db) (t last : ℕ) (f : Listed)
    → cfg.poll_incremental ≡ true
    → t ≤ last
    → changed_since t f ≡ false
    → wanted cfg db last f ≡ false
unfolding wanted
not_wanted cfg db t last f inc le u = elim (Option-cases f.stat) [
  | inl gone ↦ rw gone (ground arith)
  | inr (s, e) ↦ let m : ltb t s.st_mtime ≡ false = rw e at u in rw e (ground arith)
]

scan_files-keep :
    (cfg : PollConfig) (db : Db) (t last : ℕ) (fs : List Listed) (pool : WorkerPool)
    → cfg.poll_incremental ≡ true
    → t ≤ last
    → scan_files cfg db last (keep (changed_since t) fs) pool ≡ scan_files cfg db last fs pool
unfolding scan_files
scan_files-keep cfg db t last [] pool inc le = refl
scan_files-keep cfg db t last (f ∷ fs) pool inc le = elim (Bool-cases (changed_since t f)) [
  | inr old ↦
      rw old
        (rw (not_wanted cfg db t last f inc le old) (scan_files-keep cfg db t last fs pool inc le))
  | inl new ↦ rw new (elim (Bool-cases (wanted cfg db last f)) [
    | inr w ↦ rw w (scan_files-keep cfg db t last fs pool inc le)
    | inl w ↦ rw w (elim (Option-cases f.ref) [
      | inl gone ↦ rw gone refl
      | inr (r, e) ↦ rw e (
          scan_files-keep cfg db t last fs (submit r cfg.priority true f.now f.stamp pool).1 inc le)
    ])
  ])
]

keep-append :
    (t : ℕ) (xs ys : List Listed)
    → keep (changed_since t) (xs ++ ys) ≡ keep (changed_since t) xs ++ keep (changed_since t) ys
keep-append t [] ys = refl
keep-append t (x ∷ xs) ys = elim (Bool-cases (changed_since t x)) [
  | inl new ↦ rw new (rw (keep-append t xs ys) refl)
  | inr old ↦ rw old (keep-append t xs ys)
]

in_reach-only_changed :
    (cfg : PollConfig) (t : ℕ) (walk : Walk)
    → in_reach cfg (only_changed t walk) ≡ keep (changed_since t) (in_reach cfg walk)
unfolding in_reach only_changed
in_reach-only_changed cfg t [] = refl
in_reach-only_changed cfg t (files ∷ folders) = elim (Bool-cases cfg.recursive) [
  | inr flat ↦ rw flat refl
  | inl deep ↦
      rw deep (
        rw (in_reach-only_changed cfg t folders) (sym (keep-append t files (in_reach cfg folders))))
]

-- one of the later scans: the table, the folders, the time and the pool that it finds
pub record Round : Type 0 where
  pub db : Db
  pub walk : Walk
  pub start : ℕ
  pub pool : WorkerPool

-- `last_scan_mtime` after some scans
pub last_after : PollConfig → List Round → ℕ → ℕ
last_after cfg [] last = last
last_after cfg (r ∷ rs) last = last_after cfg rs (scan cfg r.db r.walk r.start last r.pool).0

last_after-le :
    (cfg : PollConfig) (rs : List Round) (t last : ℕ) → t ≤ last → t ≤ last_after cfg rs last
unfolding scan last_after
last_after-le cfg [] t last le = le
last_after-le cfg (r ∷ rs) t last le =
    last_after-le cfg rs t (scan cfg r.db r.walk r.start last r.pool).0 (ground arith)

-- After an incremental scan whose loop came to its end, whatever the pool answered to its submits,
-- and after any further scans, a scan does just what it does where the files are not there that
-- have not changed since the first of these scans began. So a file that the pool refused is lost
-- to polling until it changes.
pub refused_files_are_not_retried :
    (cfg : PollConfig) (rounds : List Round) (db db' : Db) (walk walk' : Walk)
    (start start' last : ℕ) (pool pool' : WorkerPool)
    → cfg.poll_incremental ≡ true
    → (scan_files cfg db last (in_reach cfg walk) pool).0 ≡ true
    → let last' = last_after cfg rounds (scan cfg db walk start last pool).0 in
      scan cfg db' walk' start' last' pool'
      ≡ scan cfg db' (only_changed start walk') start' last' pool'
unfolding scan
refused_files_are_not_retried cfg rounds db db' walk walk' start start' last pool pool' inc done =
    let last1 = (scan cfg db walk start last pool).0 in
    let le : start ≤ last1 = rw done (omega arith) in
    rw (in_reach-only_changed cfg start walk') (
      rw
        (scan_files-keep cfg db' start (last_after cfg rounds last1) (in_reach cfg walk') pool' inc
          (last_after-le cfg rounds start last1 le))
        refl)
