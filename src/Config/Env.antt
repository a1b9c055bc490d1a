-- ===== src/Config/Env.antt =====
-- How `ConfigManager._read_yaml` of src/core/config.py reads the file: `_env_replace` on each
-- match of \$\{(\w+)\}, and `yaml.safe_load` of what comes out.
use tdcs.Prelude.{
  ℕ, Option, some, [], ◌∷◌, ◌++◌, Bool, not, ◌&&◌, ◌||◌, ◌==◌, number_eq, if◌then◌else◌,
}
use tdcs.Prelude.Text.{Text, codes, codes_eq}
use tdcs.Config.Yaml.{Value}
use tdcs.Config.Schema.{◌>>=◌}

-- What stands outside the repository: `yaml.safe_dump` and `yaml.safe_load`, the characters that
-- \w matches, and the variables of the process.
pub record YamlFile : Type 0 where
  pub dump : Value → Text
  pub parse : Text → Option Value
  pub is_word : ℕ → Bool
  pub environ : Text → Option Text

-- where the expression stands in a match: at no part of one, behind $, or in the name behind ${
pub data Match : Type 0 where
  outside dollar : Match
  inside : Text → Match

-- the text of a match that does not come about
abbrev matched : Match → Text
matched outside = []
matched dollar = codes "$"
matched (inside var) = codes "${" ++ var

-- `_env_replace`; `none` where the variable is not set
unfoldable pub env_replace : YamlFile → Text → Option Text
env_replace y var =
    if var == codes "HOSTNAME" || var == codes "PID"
    then some (codes "${" ++ (var ++ codes "}"))
    else y.environ var

-- a character that goes on with no match
abbrev missed : Text → ℕ → Option (Text × Match)
missed before c = if c == b'$' then some (before, dollar) else some (before ++ c ∷ [], outside)

-- what the next character adds to the text, and where the match then stands
unfoldable pub match_next : YamlFile → Match → ℕ → Option (Text × Match)
unfolding env_replace
match_next y outside c = missed [] c
match_next y dollar c = if c == b'{' then some ([], inside []) else missed (codes "$") c
match_next y (inside var) c =
    if y.is_word c
    then some ([], inside (var ++ c ∷ []))
    else if c == b'}' && not (var == [])
    then (do v ← env_replace y var; some (v, outside))
    else missed (codes "${" ++ var) c

unfoldable pub replace_from : YamlFile → Match → Text → Option Text
unfolding match_next
replace_from y m [] = some (matched m)
replace_from y m (c ∷ s) = do
  (out, m') ← match_next y m c
  rest ← replace_from y m' s
  some (out ++ rest)

-- `_read_yaml`; `none` where it raises
unfoldable pub read_yaml : YamlFile → Text → Option Value
unfolding replace_from
read_yaml y file = do content ← replace_from y outside file; y.parse content
