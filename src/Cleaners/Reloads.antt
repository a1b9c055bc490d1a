-- ===== src/Cleaners/Reloads.antt =====
-- The registry that follows the events of its directory, and one that scans it anew.
use tdcs.Prelude.{
  ℕ, String, ◌≡◌, refl, sym, ap, ◌∙◌, ◌⊎◌, Option, none, some, List, [], ◌∷◌, Bool, true, false,
  not, ◌&&◌, ◌==◌, eq_iff, text_eq, if◌then◌else◌, arith, Bool-cases, inl, inr,
}
use tdcs.Prelude.Dict.{get, put, pop, is_some, get-put, get-pop, beq_refl}
use tdcs.Prelude.Text.{Text}
use tdcs.Archive.{File}
use tdcs.Cleaners.{
  TemplatePath, path_eq, same_path, same_path_iff, Dir, TemplateInfo, Registry, is_excluded, is_py,
  new_info, register, scan_files, scan, on_file_event, on_file_deleted, Change, writes, deletes,
  moves, after,
}

abbrev pub py_path : String → TemplatePath
py_path name = record { stem = name; suffix = ".py" }

module _ (analyze : List ℕ → Text × Bool) (name : String) (bare : (name == ".py") ≡ false) where
  -- the entry that belongs to the file, if it is there
  abbrev entry : Option File → Option TemplateInfo
  entry none = none
  entry (some file) =
      if is_excluded name then none else some (new_info analyze name (py_path name) (some file))

  get-register :
      (path : TemplatePath) (dir : Dir) (reg : Registry)
      → get name (register analyze path.stem path dir reg) ≡ (
          if path.stem == name
          then some (new_info analyze path.stem path (get path dir))
          else get name reg)
  unfolding register
  get-register path dir reg =
      get-put path.stem name (new_info analyze path.stem path (get path dir)) reg

  -- another file does not change the entry
  other_file :
      (test : Bool) (path : TemplatePath) (dir : Dir) (reg : Registry)
      → same_path path (py_path name) ≡ false
      → (test ≡ true → is_py path ≡ true)
      → get name (if test then register analyze path.stem path dir reg else reg) ≡ get name reg
  other_file false path dir reg other py = refl
  other_file true path dir reg other py = elim (Bool-cases (path.stem == name)) [
    | inl same ↦ absurd (no_bare same (py refl))
    | inr differs ↦ get-register path dir reg ∙ rw differs refl
  ]
    where
      no_bare : (path.stem == name) ≡ true → is_py path ≡ true → ⊥
      no_bare same py =
          let is_name : path.stem ≡ name = (eq_iff path.stem name).0 same in
          let not_bare : (path.stem == ".py") ≡ false = rw is_name bare in
          ground (arith, same, py, other, not_bare)

  -- the file itself is registered
  own_file :
      (dir : Dir) (reg : Registry)
      → get name (register analyze name (py_path name) dir reg)
        ≡ some (new_info analyze name (py_path name) (get (py_path name) dir))
  own_file dir reg = get-register (py_path name) dir reg ∙ rw (beq_refl name) refl

  get-scan_files :
      (dir rest : Dir) (reg : Registry)
      → get name (scan_files analyze dir rest reg) ≡ (
          if is_some (get (py_path name) rest) && not (is_excluded name)
          then some (new_info analyze name (py_path name) (get (py_path name) dir))
          else get name reg)
  unfolding scan_files get
  get-scan_files dir [] reg = refl
  get-scan_files dir ((path, file) ∷ rest) reg =
      get-scan_files dir rest (
        if is_py path && not (is_excluded path.stem)
        then register analyze path.stem path dir reg
        else reg)
      ∙ elim (Bool-cases (same_path path (py_path name))) [
        | inl same ↦
            rw (same, (same_path_iff path (py_path name)).0 same)
              (registered (is_some (get (py_path name) rest)) (is_excluded name) _ _ reg
                (own_file dir reg))
        | inr other ↦
            rw
              (
                other,
                other_file (is_py path && not (is_excluded path.stem)) path dir reg other
                    (λ h. ground (arith, h)),
              )
              refl
      ]
    where
      registered :
          (b ex : Bool) (x : Option TemplateInfo) (r r' : Registry)
          → get name r ≡ x
          → (if b && not ex then x else get name (if not ex then r else r'))
            ≡ (if not ex then x else get name r')
      registered true true x r r' h = refl
      registered true false x r r' h = refl
      registered false true x r r' h = refl
      registered false false x r r' h = h

  get-on_file_event :
      (path : TemplatePath) (dir : Dir) (reg : Registry)
      → get name (on_file_event analyze path dir reg) ≡ (
          if same_path path (py_path name) && not (is_excluded name)
          then some (new_info analyze name (py_path name) (get (py_path name) dir))
          else get name reg)
  unfolding on_file_event
  get-on_file_event path dir reg = elim (Bool-cases (same_path path (py_path name))) [
    | inl same ↦
        rw (same, (same_path_iff path (py_path name)).0 same)
          (by_name (is_excluded name) (own_file dir reg))
    | inr other ↦ rw other (by_tests (path.suffix == ".py") refl (is_excluded path.stem) other)
  ]
    where
      by_name :
          (ex : Bool)
          → get name (register analyze name (py_path name) dir reg)
            ≡ some (new_info analyze name (py_path name) (get (py_path name) dir))
          → get name (if ex then reg else register analyze name (py_path name) dir reg) ≡ (
              if not ex
              then some (new_info analyze name (py_path name) (get (py_path name) dir))
              else get name reg)
      by_name true h = refl
      by_name false h = h

      by_tests :
          (b : Bool)
          → (path.suffix == ".py") ≡ b
          → (ex : Bool) → same_path path (py_path name) ≡ false
          → get name
              (if not b then reg else if ex then reg else register analyze path.stem path dir reg)
            ≡ get name reg
      by_tests false e ex other = refl
      by_tests true e true other = refl
      by_tests true e false other = other_file true path dir reg other (λ h. ground (arith, e))

  get-on_file_deleted :
      (path : TemplatePath) (reg : Registry)
      → get name (on_file_deleted path reg)
        ≡ (if same_path path (py_path name) then none else get name reg)
  unfolding on_file_deleted
  get-on_file_deleted path reg =
      by_tests (path.suffix == ".py") (path.stem == name) (get-pop path.stem name reg)
    where
      by_tests :
          (b c : Bool)
          → get name (pop path.stem reg) ≡ (if c then none else get name reg)
          → get name (if b then pop path.stem reg else reg)
            ≡ (if c && b then none else get name reg)
      by_tests true true h = h
      by_tests true false h = h
      by_tests false true h = refl
      by_tests false false h = refl

  -- The registry has the name as the directory has its file.
  abbrev Tracks : Dir × Registry → Type 0
  Tracks s = get name s.1 ≡ entry (get (py_path name) s.0)

  scan-Tracks : (dir : Dir) → Tracks (dir, scan analyze dir)
  unfolding scan get
  scan-Tracks dir =
      get-scan_files dir dir [] ∙ by_file (get (py_path name) dir) (is_excluded name) refl
    where
      by_file :
          (o : Option File) (ex : Bool)
          → is_excluded name ≡ ex
          → (if is_some o && not ex then some (new_info analyze name (py_path name) o) else none)
            ≡ entry o
      by_file none ex e = refl
      by_file (some f) true e = rw e refl
      by_file (some f) false e = rw e refl

  excluded : is_excluded name ≡ true → (o : Option File) → entry o ≡ none
  excluded e none = refl
  excluded e (some f) = rw e refl

  write-Tracks :
      (path : TemplatePath) (file : File) (dir : Dir) (reg : Registry)
      → Tracks (dir, reg)
      → Tracks (put path file dir, on_file_event analyze path (put path file dir) reg)
  write-Tracks path file dir reg tracks =
      get-on_file_event path (put path file dir) reg
      ∙ elim (Bool-cases (same_path path (py_path name))) [
        | inl same ↦
            rw (get-put path (py_path name) file dir, same)
              (by_name (Bool-cases (is_excluded name)))
        | inr other ↦ rw (get-put path (py_path name) file dir, other) tracks
      ]
    where
      by_name :
          (is_excluded name ≡ true) ⊎ (is_excluded name ≡ false)
          → (if not (is_excluded name)
              then some (new_info analyze name (py_path name) (some file))
              else get name reg)
            ≡ entry (some file)
      by_name (inl e) = rw e (tracks ∙ excluded e (get (py_path name) dir))
      by_name (inr e) = rw e refl

  delete-Tracks :
      (path : TemplatePath) (dir : Dir) (reg : Registry)
      → Tracks (dir, reg)
      → Tracks (pop path dir, on_file_deleted path reg)
  delete-Tracks path dir reg tracks =
      get-on_file_deleted path reg ∙ elim (Bool-cases (same_path path (py_path name))) [
        | inl same ↦ rw (get-pop path (py_path name) dir, same) refl
        | inr other ↦ rw (get-pop path (py_path name) dir, other) tracks
      ]

  after-Tracks : (cs : List Change) (s : Dir × Registry) → Tracks s → Tracks (after analyze cs s)
  after-Tracks [] s tracks = tracks
  after-Tracks (writes path file ∷ cs) (dir, reg) tracks =
      after-Tracks cs _ (write-Tracks path file dir reg tracks)
  after-Tracks (deletes path ∷ cs) (dir, reg) tracks =
      after-Tracks cs _ (delete-Tracks path dir reg tracks)
  after-Tracks (moves src dst file ∷ cs) (dir, reg) tracks = after-Tracks cs _ (
      write-Tracks dst file (pop src dir) (on_file_deleted src reg)
        (delete-Tracks src dir reg tracks))

  -- A registry that scanned its directory once and then followed every change of it by its events
  -- has the same template under a name as one that scans the changed directory anew, and none where
  -- the directory has no such file or the name is excluded. The bare name `.py` is left out, which
  -- only the scan takes.
  pub after-scan :
      (cs : List Change) (dir : Dir)
      → let (dir', reg) = after analyze cs (dir, scan analyze dir) in
        (get name reg ≡ get name (scan analyze dir'))
        × (is_excluded name ≡ true → get name reg ≡ none)
        × (get (py_path name) dir' ≡ none → get name reg ≡ none)
  after-scan cs dir =
      let s = after analyze cs (dir, scan analyze dir) in
      let tracks = after-Tracks cs (dir, scan analyze dir) (scan-Tracks dir) in
      (
        tracks ∙ sym (scan-Tracks s.0),
        (λ e. tracks ∙ excluded e (get (py_path name) s.0)),
        (λ gone. tracks ∙ ap entry gone),
      )
