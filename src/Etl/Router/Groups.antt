-- ===== src/Etl/Router/Groups.antt =====
-- The groups of a batch.
use tdcs.Prelude.{
  ℕ, ◌+◌, ◌≡◌, refl, ap, List, [], ◌∷◌, ◌++◌, arith, keep, ◌==◌, if◌then◌else◌, Bool-cases, inl,
  inr, length, length-append,
}
use tdcs.Prelude.Dict.{Dict, get, put, or_else, get-put}
use tdcs.Prelude.Text.{Text, codes_eq, same_text_iff}
use tdcs.Etl.{Row}
use tdcs.Etl.Router.{TableConfig, Calendar, resolve_table, append_to, group_from, group_by_table}

abbrev pub group_of : Text → Dict Text (List Row) → List Row
group_of t groups = or_else (get t groups) []

append_assoc' : (xs : List Row) (x : Row) (ys : List Row) → (xs ++ x ∷ []) ++ ys ≡ xs ++ x ∷ ys
append_assoc' [] x ys = refl
append_assoc' (w ∷ xs) x ys = ap (◌∷◌ w) (append_assoc' xs x ys)

append_nil' : (xs : List Row) → xs ≡ xs ++ []
append_nil' [] = refl
append_nil' (x ∷ xs) = ap (◌∷◌ x) (append_nil' xs)

group_of-append_to :
    (groups : Dict Text (List Row)) (table : Text) (row : Row) (t : Text)
    → group_of t (append_to groups table row)
      ≡ (if table == t then group_of t groups ++ row ∷ [] else group_of t groups)
unfolding append_to
group_of-append_to groups table row t = elim (Bool-cases (table == t)) [
  | inl same ↦ rw get-put (rw same (rw ((same_text_iff table t).0 same)))
  | inr other ↦ rw get-put (rw other)
]

group_of-group_from :
    (table_of : Row → Text) (groups : Dict Text (List Row)) (rows : List Row) (t : Text)
    → group_of t (group_from table_of groups rows)
      ≡ group_of t groups ++ keep (λ row. table_of row == t) rows
unfolding group_from
group_of-group_from table_of groups [] t = append_nil' (group_of t groups)
group_of-group_from table_of groups (row ∷ rows) t =
    let ih = group_of-group_from table_of (append_to groups (table_of row) row) rows t in
    elim (Bool-cases (table_of row == t)) [
      | inl same ↦ rw ih (
          rw (group_of-append_to groups (table_of row) row t)
            (rw same (append_assoc' (group_of t groups) row (keep (λ r. table_of r == t) rows))))
      | inr other ↦ rw ih (rw (group_of-append_to groups (table_of row) row t) (rw other))
    ]

-- The rows that are grouped under a table's name are exactly the batch's rows that resolve to that
-- table, each as often and in the order in which the batch has them, and under any other name
-- there is no row.
pub group_by_table-keep :
    (cal : Calendar) (cfg : TableConfig) (rows : List Row) (t : Text)
    → group_of t (group_by_table cal cfg rows) ≡ keep (λ row. resolve_table cal cfg row == t) rows
unfolding group_by_table get
group_by_table-keep cal cfg rows t = group_of-group_from (resolve_table cal cfg) [] rows t

-- how many rows the groups hold
abbrev pub total : Dict Text (List Row) → ℕ
total [] = 0
total ((t, rows) ∷ groups) = length rows + total groups

total-put :
    (t : Text) (rows : List Row) (groups : Dict Text (List Row))
    → total (put t rows groups) + length (group_of t groups) ≡ total groups + length rows
unfolding get put
total-put t rows [] = omega arith
total-put t rows ((u, old) ∷ groups) = elim (Bool-cases (u == t)) [
  | inl same ↦ rw same (omega arith)
  | inr other ↦ rw other (omega (arith, total-put t rows groups))
]

total-append_to :
    (table : Text) (row : Row) (groups : Dict Text (List Row))
    → total (append_to groups table row) ≡ total groups + 1
unfolding append_to
total-append_to table row groups = omega (
  arith,
  total-put table (group_of table groups ++ row ∷ []) groups,
  length-append (group_of table groups) (row ∷ []),
)

total-group_from :
    (table_of : Row → Text) (groups : Dict Text (List Row)) (rows : List Row)
    → total (group_from table_of groups rows) ≡ total groups + length rows
unfolding group_from
total-group_from table_of groups [] = omega arith
total-group_from table_of groups (row ∷ rows) = omega (
  arith,
  total-group_from table_of (append_to groups (table_of row) row) rows,
  total-append_to (table_of row) row groups,
)

-- The groups of a batch hold as many rows together as the batch has.
pub total-group_by_table :
    (cal : Calendar) (cfg : TableConfig) (rows : List Row)
    → total (group_by_table cal cfg rows) ≡ length rows
unfolding group_by_table
total-group_by_table cal cfg rows = omega (arith, total-group_from (resolve_table cal cfg) [] rows)
