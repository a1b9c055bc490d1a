-- ===== src/Etl/Loader/Quoting.antt =====
-- A quoted identifier is read back as the name that it was made from.
use tdcs.Prelude.{
  ℕ, ◌≡◌, Option, none, some, [], ◌∷◌, Bool, true, false, ◌==◌, number_eq, if◌then◌else◌,
}
use tdcs.Etl.Loader.{Text}

-- put a character in front of the name that was read
abbrev push : ℕ → Option (Text × Text) → Option (Text × Text)
push c none = none
push c (some (name, rest)) = some (c ∷ name, rest)

-- How MySQL reads the inside of a quoted identifier: a doubled backtick is one, and a single one
-- ends it. The flag says that the last character was a backtick.
pub read_quoted : Bool → Text → Option (Text × Text)
read_quoted false [] = none
read_quoted true [] = some ([], [])
read_quoted false (c ∷ s) = if c == b'`' then read_quoted true s else push c (read_quoted false s)
read_quoted true (c ∷ s) = if c == b'`' then push b'`' (read_quoted false s) else some ([], c ∷ s)

-- an identifier: a backtick, and what follows up to the one that ends it
unfoldable pub read_identifier : Text → Option (Text × Text)
read_identifier [] = none
read_identifier (c ∷ s) = if c == b'`' then read_quoted false s else none

-- what follows an identifier in a statement does not start with a backtick
abbrev pub Follows : Text → Type 0
Follows [] = Unit
Follows (c ∷ s) = (c == b'`') ≡ false
