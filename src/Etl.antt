-- ===== src/Etl.antt =====
-- What the stages of the pipeline share: the errors of src/core/exceptions.py and the rows that
-- they hand on. A row is a Python dict from column names to values.
pub mod Quality
pub mod Loader
pub mod Extractor
pub mod Router
use tdcs.Prelude.{ℕ, String, Bool, true, false, not, List, ◌==◌, number_eq, text_eq}
use tdcs.Prelude.Dict.{Dict}

-- the exception classes of exceptions.py, and every other exception
pub data ErrorKind : Type 0 where
  retryable fatal skip_file data_quality config_validation sandbox other : ErrorKind

pub record Error : Type 0 where
  pub kind : ErrorKind
  pub message : String

-- `except RetryableError`, `except SkipFileError`, `isinstance(e, FatalError)`: SandboxError is a
-- FatalError
abbrev pub is_fatal : ErrorKind → Bool
is_fatal fatal = true
is_fatal sandbox = true
is_fatal _ = false

pub data Result {ℓ} (A : Type ℓ) : Type ℓ where
  ok : A → Result A
  raise : Error → Result A

infixl 5 ◌>>=◌ ◌>>◌
abbrev pub ◌>>=◌ {ℓ κ} : {A : Type ℓ} {B : Type κ} → Result A → (A → Result B) → Result B
ok a >>= f = f a
raise e >>= f = raise e

abbrev pub ◌>>◌ {ℓ κ} : {A : Type ℓ} {B : Type κ} → Result A → Result B → Result B
m >> k = m >>= λ _. k

-- a value of a row: None, a text, a whole number, or anything else with its truth value
pub data Value : Type 0 where
  null : Value
  text : String → Value
  num : ℕ → Value
  opaque : String → Bool → Value

abbrev pub Row : Type 0
Row = Dict String Value

-- `bool(v)`
unfoldable pub truthy : Value → Bool
truthy null = false
truthy (text s) = not (s == "")
truthy (num n) = not (n == 0)
truthy (opaque s b) = b
