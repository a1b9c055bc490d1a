-- ===== src/Archive/FilePath.antt =====
-- The functions of `os.path` that the program uses, as they are on POSIX.
use tdcs.Prelude.{Option, none, some, [], ◌∷◌, ◌++◌, Bool, true, ◌==◌, number_eq, if◌then◌else◌}
use tdcs.Prelude.Text.{Text, codes_eq}

-- the text behind the last slash
unfoldable pub after_slash : Text → Text → Text
after_slash [] last = last
after_slash (c ∷ s) last = after_slash s (if c == b'/' then [] else last ++ c ∷ [])

unfoldable pub basename : Text → Text
unfolding after_slash
basename path = after_slash path []

unfoldable pub ends_in_slash : Text → Bool
ends_in_slash [] = true
ends_in_slash (c ∷ []) = c == b'/'
ends_in_slash (c ∷ d ∷ s) = ends_in_slash (d ∷ s)

-- `os.path.join(dir, name)` for a name without a slash at its head
unfoldable pub join : Text → Text → Text
unfolding ends_in_slash
join dir name = if ends_in_slash dir then dir ++ name else dir ++ b'/' ∷ name

-- what stands before the last dot, and the rest
unfoldable pub last_dot : Text → Option (Text × Text)
last_dot [] = none
last_dot (c ∷ s) = elim (last_dot s) [
  | some (root, ext) ↦ some (c ∷ root, ext)
  | none ↦ if c == b'.' then some ([], c ∷ s) else none
]

-- `os.path.splitext` of a name without slashes: dots at its head belong to the root
unfoldable pub splitext : Text → Text × Text
unfolding last_dot
splitext [] = ([], [])
splitext (c ∷ s) =
    let (root, ext) = splitext s in
    if c == b'.'
    then (c ∷ root, ext)
    else elim (last_dot (c ∷ s)) [ none ↦ (c ∷ s, []) | some parts ↦ parts ]

-- `s.endswith(t)`
unfoldable pub ends_with : Text → Text → Bool
ends_with t [] = t == []
ends_with t (c ∷ s) = let rest = ends_with t s in if t == c ∷ s then true else rest
