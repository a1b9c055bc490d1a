-- ===== src/Cleaners/Editing.antt =====
-- The handlers of src/web/api/cleaners.py that write, remove and check templates, over the directory
-- and the registry of the templates.
use tdcs.Prelude.{
  ℕ, String, ◌≡◌, refl, ◌∙◌, ◌⊎◌, inl, inr, Option, none, some, List, [], ◌∷◌, all, Bool, true,
  false, not, ◌&&◌, ◌||◌, leb, ◌==◌, text_eq, number_eq, if◌then◌else◌, arith, Bool-cases,
}
use tdcs.Prelude.Dict.{get, put, pop, is_some, get-put, get-pop}
use tdcs.Prelude.Text.{Text, codes, codes_eq}
use tdcs.Web.{Reply, ok, error}
use tdcs.Cleaners.{TemplatePath, path_eq, Dir, Registry, get_source}
use tdcs.Cleaners.Reloads.{py_path}

abbrev is_letter : ℕ → Bool
is_letter c = leb 97 c && leb c 122 || (leb 65 c && leb c 90 || c == 95)

abbrev is_letter_or_digit : ℕ → Bool
is_letter_or_digit c = is_letter c || leb 48 c && leb c 57

-- `re.match(r'^[a-zA-Z_][a-zA-Z0-9_]*$', name)`; `$` also stands before a newline at the end
unfoldable pub is_tail : Text → Bool
is_tail [] = true
is_tail (c ∷ s) = is_letter_or_digit c && is_tail s || c == 10 && s == []

abbrev pub is_identifier : Text → Bool
is_identifier [] = false
is_identifier (c ∷ s) = is_letter c && is_tail s

-- whether `ast.parse` accepts a text, and whether it finds a function clean_data in it
pub record Syntax : Type 0 where
  pub parses : List ℕ → Bool
  pub has_func : List ℕ → Bool

abbrev pub Edited : Type 0
Edited = Reply String × Dir

module _ (syntax : Syntax) where
  abbrev pub write_code : String → List ℕ → ℕ → Dir → Edited
  write_code name code now dir =
      if syntax.parses code
      then (ok 200 name, put (py_path name) (record { content = code; mtime = now }) dir)
      else (error "SYNTAX_ERROR" 422, dir)

  -- `name` is stripped; a missing field is empty
  unfoldable pub create_cleaner : String → List ℕ → ℕ → Dir → Edited
  unfolding is_tail
  create_cleaner name code now dir =
      if codes name == []
      then (error "MISSING_FIELD" 400, dir)
      else if code == []
      then (error "MISSING_FIELD" 400, dir)
      else if not (is_identifier (codes name))
      then (error "INVALID_NAME" 400, dir)
      else if is_some (get (py_path name) dir)
      then (error "TEMPLATE_EXISTS" 409, dir)
      else write_code name code now dir

  unfoldable pub update_cleaner : String → List ℕ → ℕ → Dir → Edited
  unfolding is_tail
  update_cleaner name code now dir =
      if not (is_identifier (codes name))
      then (error "INVALID_NAME" 400, dir)
      else if code == []
      then (error "MISSING_FIELD" 400, dir)
      else if is_some (get (py_path name) dir)
      then write_code name code now dir
      else (error "TEMPLATE_NOT_FOUND" 404, dir)

  abbrev pub validity : Option (List ℕ) → Reply Bool
  validity none = error "TEMPLATE_NOT_FOUND" 404
  validity (some code) = ok 200 (syntax.parses code && syntax.has_func code)

  abbrev pub given_or : List ℕ → Option (List ℕ) → Option (List ℕ)
  given_or [] source = source
  given_or (c ∷ code) source = some (c ∷ code)

  -- `validate_cleaner`, on the code of the request or else of the registry
  unfoldable pub validate_cleaner : String → List ℕ → Registry → Dir → Reply Bool
  unfolding is_tail
  validate_cleaner name code reg dir =
      if is_identifier (codes name)
      then validity (given_or code (get_source name reg dir))
      else error "INVALID_NAME" 400

unfoldable pub delete_cleaner : String → Dir → Edited
unfolding is_tail
delete_cleaner name dir =
    if not (is_identifier (codes name))
    then (error "INVALID_NAME" 400, dir)
    else if is_some (get (py_path name) dir)
    then (ok 200 name, pop (py_path name) dir)
    else (error "TEMPLATE_NOT_FOUND" 404, dir)

-- neither a slash, nor a backslash, nor a dot
abbrev pub is_harmless : ℕ → Bool
is_harmless c = not (c == 47 || (c == 92 || c == 46))

-- The directory is as it was, or has changed at the file of the name alone, in which no character
-- leads out of the directory.
abbrev pub Confined : String → Dir → Edited → Type 0
Confined name dir e =
    (e.1 ≡ dir)
    ⊎ ((all is_harmless (codes name) ≡ true)
        × ((q : TemplatePath) → (py_path name == q) ≡ false → get q e.1 ≡ get q dir))

is_tail-harmless : (s : Text) → is_tail s ≡ true → all is_harmless s ≡ true
unfolding is_tail
is_tail-harmless [] h = refl
is_tail-harmless (c ∷ s) h = elim (Bool-cases (is_letter_or_digit c && is_tail s)) [
  | inl more ↦ ground (arith, more, is_tail-harmless s)
  | inr last ↦
      at_end (ground (arith, h, last)) ((codes_eq.beq_iff s []).0 (ground (arith, h, last)))
]
  where
    at_end : (c == 10) ≡ true → s ≡ [] → all is_harmless (c ∷ s) ≡ true
    at_end newline empty = rw empty (ground (arith, newline))

is_identifier-harmless : (s : Text) → is_identifier s ≡ true → all is_harmless s ≡ true
is_identifier-harmless [] h = refl
is_identifier-harmless (c ∷ s) h = ground (arith, h, is_tail-harmless s)

module _ (syntax : Syntax) (name : String) (code : List ℕ) (now : ℕ) (dir : Dir) where
  branch :
      (b : Bool) (x y : Edited)
      → (b ≡ true → Confined name dir x)
      → (b ≡ false → Confined name dir y)
      → Confined name dir (if b then x else y)
  branch true x y hx hy = hx refl
  branch false x y hx hy = hy refl

  write_code-Confined :
      not (is_identifier (codes name)) ≡ false
      → Confined name dir (write_code syntax name code now dir)
  write_code-Confined named =
      branch (syntax.parses code) _ _
        (λ h. inr (
          is_identifier-harmless (codes name) (ground (arith, named)),
          (λ q other.
              get-put (py_path name) q (record { content = code; mtime = now }) dir
              ∙ rw other refl),
        ))
        (λ h. inl refl)

  create_cleaner-Confined : Confined name dir (create_cleaner syntax name code now dir)
  unfolding create_cleaner
  create_cleaner-Confined =
      branch (codes name == []) _ _ (λ h. inl refl)
        (λ h.
          branch (code == []) _ _ (λ h. inl refl)
            (λ h.
              branch (not (is_identifier (codes name))) _ _ (λ h. inl refl)
                (λ named.
                  branch (is_some (get (py_path name) dir)) _ _ (λ h. inl refl)
                    (λ h. write_code-Confined named))))

  update_cleaner-Confined : Confined name dir (update_cleaner syntax name code now dir)
  unfolding update_cleaner
  update_cleaner-Confined =
      branch (not (is_identifier (codes name))) _ _ (λ h. inl refl)
        (λ named.
          branch (code == []) _ _ (λ h. inl refl)
            (λ h.
              branch (is_some (get (py_path name) dir)) _ _ (λ h. write_code-Confined named)
                (λ h. inl refl)))

  delete_cleaner-Confined : Confined name dir (delete_cleaner name dir)
  unfolding delete_cleaner
  delete_cleaner-Confined =
      branch (not (is_identifier (codes name))) _ _ (λ h. inl refl)
        (λ named.
          branch (is_some (get (py_path name) dir)) _ _
            (λ h. inr (
              is_identifier-harmless (codes name) (ground (arith, named)),
              (λ q other. get-pop (py_path name) q dir ∙ rw other refl),
            ))
            (λ h. inl refl))

  -- The requests that create, change and delete a template change at most the one file of the given
  -- name with the suffix .py, and then the name has no slash, backslash or dot: whatever name is
  -- sent, no file outside the directory of the templates is written or removed.
  pub edits-Confined :
      Confined name dir (create_cleaner syntax name code now dir)
      × Confined name dir (update_cleaner syntax name code now dir)
      × Confined name dir (delete_cleaner name dir)
  edits-Confined = (create_cleaner-Confined, update_cleaner-Confined, delete_cleaner-Confined)
