-- ===== src/Etl/Loader/Rows.antt =====
-- The columns of a batch, and what becomes of a value.
use tdcs.Prelude.{
  String, ◌≡◌, refl, ◌∙◌, inl, inr, Option, none, some, List, [], ◌∷◌, ◌++◌, map, Bool, true, false,
  ◌||◌, arith, ◌==◌, eq_iff, text_eq, if◌then◌else◌, Bool-cases, length, length-map,
}
use tdcs.Prelude.Dict.{get, is_some, contains}
use tdcs.Etl.{Value, Row}
use tdcs.Etl.Loader.{see, see_row, columns_from, cell, prepare_rows}

-- no entry occurs twice
abbrev pub Distinct : List String → Type 0
Distinct [] = Unit
Distinct (k ∷ ks) = (contains k ks ≡ false) × Distinct ks

contains-append :
    (k : String) (xs ys : List String) → contains k (xs ++ ys) ≡ (contains k xs || contains k ys)
unfolding contains
contains-append k [] ys = refl
contains-append k (x ∷ xs) ys = ground (arith, contains-append k xs ys)

Distinct-snoc :
    (k : String) (xs : List String) → contains k xs ≡ false → Distinct xs → Distinct (xs ++ k ∷ [])
unfolding contains
Distinct-snoc k [] n d = (refl, tt)
Distinct-snoc k (x ∷ xs) n d =
    ground (arith, contains-append x xs (k ∷ []), eq_iff x k, eq_iff k x, Distinct-snoc k xs)

contains-see :
    (seen : List String) (k j : String) → contains j (see seen k) ≡ (k == j || contains j seen)
unfolding see
contains-see seen k j = elim (Bool-cases (contains k seen)) [
  | inl old ↦ rw old (old_key old)
  | inr new ↦ rw new (contains-append j seen (k ∷ []) ∙ unfold contains in ground arith)
]
  where
    old_key : contains k seen ≡ true → contains j seen ≡ (k == j || contains j seen)
    old_key old = ground (arith, eq_iff k j)

see-Distinct : (seen : List String) (k : String) → Distinct seen → Distinct (see seen k)
unfolding see
see-Distinct seen k d = elim (Bool-cases (contains k seen)) [
  | inl old ↦ rw old d
  | inr new ↦ rw new (Distinct-snoc k seen new d)
]

see_row-Distinct : (seen : List String) (row : Row) → Distinct seen → Distinct (see_row seen row)
unfolding see_row
see_row-Distinct seen [] d = d
see_row-Distinct seen ((k, v) ∷ row) d = see_row-Distinct (see seen k) row (see-Distinct seen k d)

columns_from-Distinct :
    (seen : List String) (rows : List Row) → Distinct seen → Distinct (columns_from seen rows)
unfolding columns_from
columns_from-Distinct seen [] d = d
columns_from-Distinct seen (row ∷ rows) d =
    columns_from-Distinct (see_row seen row) rows (see_row-Distinct seen row d)

-- a column of the row
abbrev pub has : String → Row → Bool
has k row = is_some (get k row)

abbrev pub any_has : String → List Row → Bool
any_has k [] = false
any_has k (row ∷ rows) = has k row || any_has k rows

contains-see_row :
    (seen : List String) (row : Row) (j : String)
    → contains j (see_row seen row) ≡ (has j row || contains j seen)
unfolding see_row get
contains-see_row seen [] j = refl
contains-see_row seen ((k, v) ∷ row) j =
    ground (arith, contains-see_row (see seen k) row j, contains-see seen k j)

contains-columns_from :
    (seen : List String) (rows : List Row) (j : String)
    → contains j (columns_from seen rows) ≡ (any_has j rows || contains j seen)
unfolding columns_from
contains-columns_from seen [] j = refl
contains-columns_from seen (row ∷ rows) j =
    ground (arith, contains-columns_from (see_row seen row) rows j, contains-see_row seen row j)

-- the entry of a tuple under a column: a tuple read back as a dict
abbrev pub field : String → List String → List Value → Option Value
field k [] vs = none
field k (c ∷ cs) [] = none
field k (c ∷ cs) (v ∷ vs) = if c == k then some v else field k cs vs

field-cell :
    (row : Row) (k : String) (cs : List String)
    → contains k cs ≡ true
    → field k cs (map (cell row) cs) ≡ some (cell row k)
unfolding contains
field-cell row k [] h = absurd (ground arith)
field-cell row k (c ∷ cs) h = ground (arith, field-cell row k cs, eq_iff c k)

-- the tuples stand for the rows, one by one: each has a value for every column, and under a column
-- the row's value, or None where the row has no such key
abbrev pub Represents : List String → List Row → List (List Value) → Type 0
Represents columns [] [] = Unit
Represents columns (row ∷ rows) (values ∷ rest) =
    (length values ≡ length columns)
    × ((k : String) → contains k columns ≡ true → field k columns values ≡ some (cell row k))
    × Represents columns rows rest
Represents columns _ _ = ⊥

Represents-map :
    (columns : List String) (rows : List Row)
    → Represents columns rows (map (λ row. map (cell row) columns) rows)
Represents-map columns [] = tt
Represents-map columns (row ∷ rows) =
    (length-map (cell row) columns, λ k h. field-cell row k columns h, Represents-map columns rows)

-- No value of a batch is lost or moved: the columns are distinct, they are exactly the keys that
-- occur in some row, and the tuples hold, row by row and column by column, the rows' values, with
-- None for a missing key.
pub prepare_rows_complete :
    (rows : List Row)
    → let (columns, tuples) = prepare_rows rows in
      Distinct columns
      × ((k : String) → contains k columns ≡ any_has k rows)
      × Represents columns rows tuples
unfolding prepare_rows contains
prepare_rows_complete rows = (
  columns_from-Distinct [] rows tt,
  λ k. contains-columns_from [] rows k ∙ or_false (any_has k rows),
  Represents-map (columns_from [] rows) rows,
)
  where
    or_false : (b : Bool) → (b || false) ≡ b
    or_false b = ground arith
