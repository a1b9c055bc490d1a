-- ===== src/Config/Yaml.antt =====
-- The values that `yaml.safe_load` gives for a document of the kinds that JSON has too, and how the
-- program reads a dict of them. Binary values (!!binary), timestamps, sets and keys that are no
-- texts are not represented, so a statement about a document is one about a document without them.
use tdcs.Prelude.{
  String, Option, none, some, List, [], ◌∷◌, Bool, true, false, not, ◌==◌, text_eq, number_eq,
  if◌then◌else◌,
}
use tdcs.Prelude.Int.{ℤ, pos, negsuc}

-- a number with a fraction stands as its text
mutual
  pub data Value : Type 0 where
    null : Value
    bool : Bool → Value
    int : ℤ → Value
    real : String → Value
    str : String → Value
    list : Items → Value
    dict : Fields → Value

  pub data Items : Type 0 where
    nil : Items
    cons : Value → Items → Items

  pub data Fields : Type 0 where
    end : Fields
    field : String → Value → Fields → Fields

-- `d.get(k)`
unfoldable pub lookup : String → Fields → Option Value
lookup k end = none
lookup k (field j v d) = if j == k then some v else lookup k d

-- `d.get(k, x)`
unfoldable pub get_or : String → Value → Fields → Value
unfolding lookup
get_or k x d = elim (lookup k d) [ none ↦ x | some v ↦ v ]

-- the dict that a value is
abbrev pub as_dict : Value → Option Fields
as_dict (dict d) = some d
as_dict _ = none

abbrev pub as_str : Value → Option String
as_str (str s) = some s
as_str _ = none

unfoldable pub to_list : Items → List Value
to_list nil = []
to_list (cons v vs) = v ∷ to_list vs

abbrev pub as_list : Value → Option (List Value)
as_list (list vs) = some (to_list vs)
as_list _ = none

-- `[k for k in d]`, and the characters of a text
unfoldable pub keys_of : Fields → List Value
keys_of end = []
keys_of (field k v d) = str k ∷ keys_of d

abbrev pub chars_of : String → List Value
chars_of String.[] = []
chars_of (String.◌∷◌ c s) = str (String.◌∷◌ c String.[]) ∷ chars_of s

-- what a `for` loop over a value runs through; `none` where it raises
unfoldable pub items_of : Value → Option (List Value)
unfolding to_list keys_of
items_of (list vs) = some (to_list vs)
items_of (dict d) = some (keys_of d)
items_of (str s) = some (chars_of s)
items_of _ = none

abbrev is_zero : ℤ → Bool
is_zero (pos n) = n == 0
is_zero (negsuc n) = false

-- `bool(v)`; a number with a fraction counts as true, as no key that is tested holds one
unfoldable pub truthy : Value → Bool
truthy null = false
truthy (bool b) = b
truthy (int z) = not (is_zero z)
truthy (real s) = true
truthy (str s) = not (s == "")
truthy (list nil) = false
truthy (list (cons v vs)) = true
truthy (dict end) = false
truthy (dict (field k v d)) = true
