-- ===== src/Etl/Router/Names.antt =====
-- Which table names pass the check.
use tdcs.Prelude.{
  ℕ, ◌+◌, ◌≤◌, ◌≡◌, ◌≢◌, refl, [], ◌∷◌, ◌++◌, true, false, ◌||◌, arith, All, all, length,
  length-append, number_eq,
}
use tdcs.Prelude.Text.{Text}
use tdcs.Etl.{ok}
use tdcs.Etl.Router.{
  is_word, is_name, is_space, first_is_space, last_is_space, validate_table_name,
  max_table_name_len,
}

-- a lower-case letter, a digit or an underscore
abbrev pub Word : ℕ → Type 0
Word c = is_word c ≡ true

all-All : (s : Text) → all is_word s ≡ true → All Word s
all-All [] h = tt
all-All (c ∷ s) h = ground (arith, all-All s)

is_name-All : (s : Text) → is_name s ≡ true → (s ≢ []) × All Word s
unfolding is_name
is_name-All [] h = cc
is_name-All (c ∷ s) h = (cc, (ground arith, all-All s (ground arith)))

-- A name that passes the check is not empty, has at most 64 characters, and consists of lower-case
-- letters, digits and underscores alone.
pub validate_table_name_sound :
    (name : Text)
    → validate_table_name name ≡ ok tt
    → (name ≢ []) × (length name ≤ max_table_name_len) × All Word name
unfolding validate_table_name
validate_table_name_sound name h =
    let named : is_name name ≡ true = ground arith in
    let w = is_name-All name named in (w.0, ground arith, w.1)

Word-no_space : (c : ℕ) → Word c → is_space c ≡ false
Word-no_space c w = ground arith

all-append :
    (s t : Text) → all is_word s ≡ true → all is_word t ≡ true → all is_word (s ++ t) ≡ true
all-append [] t hs ht = ht
all-append (c ∷ s) t hs ht = ground (arith, all-append s t)

last_no_space : (s : Text) → all is_word s ≡ true → last_is_space s ≡ false
unfolding last_is_space
last_no_space [] h = refl
last_no_space (c ∷ []) h = ground (arith, Word-no_space c)
last_no_space (c ∷ d ∷ s) h = last_no_space (d ∷ s) (ground arith)

-- the spaces at the ends are the business of the first test alone
no_outer_space : (s : Text) → is_name s ≡ true → (first_is_space s || last_is_space s) ≡ false
unfolding is_name first_is_space
no_outer_space [] h = cc
no_outer_space (c ∷ s) h = ground (arith, Word-no_space c, last_no_space (c ∷ s))

validate-ok :
    (s : Text) → is_name s ≡ true → length s ≤ max_table_name_len → validate_table_name s ≡ ok tt
unfolding validate_table_name
validate-ok s n l = rw (no_outer_space s n) (rw n (ground arith))

is_name-append : (s t : Text) → is_name s ≡ true → all is_word t ≡ true → is_name (s ++ t) ≡ true
unfolding is_name
is_name-append [] t h w = cc
is_name-append (c ∷ s) t h w = ground (arith, all-append s t)

-- The table name that is built from a valid base name and a suffix of word characters passes the
-- check exactly when the two and the underscore between them fit into 64 characters.
pub validate-month_table :
    (base suffix : Text)
    → is_name base ≡ true
    → all is_word suffix ≡ true
    → (length base + length suffix ≤ 63 → validate_table_name (base ++ b'_' ∷ suffix) ≡ ok tt)
      × (validate_table_name (base ++ b'_' ∷ suffix) ≡ ok tt → length base + length suffix ≤ 63)
validate-month_table base suffix nb ws = (
  λ fits.
      validate-ok (base ++ b'_' ∷ suffix) (is_name-append base (b'_' ∷ suffix) nb ws)
        (omega (arith, length-append base (b'_' ∷ suffix))),
  λ good. omega (
    arith,
    (validate_table_name_sound (base ++ b'_' ∷ suffix) good).1,
    length-append base (b'_' ∷ suffix),
  ),
)
