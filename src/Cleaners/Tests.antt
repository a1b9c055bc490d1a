-- ===== src/Cleaners/Tests.antt =====
-- A witness of the theorem on the registry: a template is written, moved and deleted.
use tdcs.Prelude.{ℕ, ◌≡◌, refl, none, List, [], ◌∷◌, Bool, true, false, text_eq}
use tdcs.Prelude.Dict.{get}
use tdcs.Prelude.Text.{Text, codes}
use tdcs.Archive.{File}
use tdcs.Cleaners.{path_eq, Dir, is_excluded, scan, Change, writes, deletes, moves, after}
use tdcs.Cleaners.Editing.{
  Syntax, Confined, create_cleaner, update_cleaner, delete_cleaner, edits-Confined,
}
use tdcs.Cleaners.Reloads.{py_path, after-scan}

abbrev analyze : List ℕ → Text × Bool
analyze [] = ([], false)
analyze (c ∷ source) = (codes "doc", true)

abbrev file : List ℕ → File
file source = record { content = source; mtime = 5 }

abbrev dir : Dir
dir = (py_path "dedup", file (1 ∷ [])) ∷ (py_path "__init__", file []) ∷ []

abbrev changes : List Change
changes =
    writes (py_path "trim") (file (2 ∷ []))
    ∷ moves (py_path "dedup") (py_path "unique") (file (1 ∷ []))
    ∷ deletes (py_path "trim")
    ∷ []

after-scan_example :
    let (dir', reg) = after analyze changes (dir, scan analyze dir) in
    (get "unique" reg ≡ get "unique" (scan analyze dir'))
    × (is_excluded "unique" ≡ true → get "unique" reg ≡ none)
    × (get (py_path "unique") dir' ≡ none → get "unique" reg ≡ none)
after-scan_example = after-scan analyze "unique" refl changes dir

abbrev syntax : Syntax
syntax = record { parses = λ code. true; has_func = λ code. true }

edits-Confined_example :
    Confined "../x" dir (create_cleaner syntax "../x" (1 ∷ []) 7 dir)
    × Confined "../x" dir (update_cleaner syntax "../x" (1 ∷ []) 7 dir)
    × Confined "../x" dir (delete_cleaner "../x" dir)
edits-Confined_example = edits-Confined syntax "../x" (1 ∷ []) 7 dir
