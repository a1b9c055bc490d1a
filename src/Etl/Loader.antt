-- ===== src/Etl/Loader.antt =====
-- `Loader` of src/etl/loader.py: the columns and tuples of a batch, its statement, and the chunks
-- in which it is written.
pub mod Rows
pub mod Chunks
pub mod Quoting
mod Tests
use Prim.Native.Char.{code}
use Prim.Native.String.{String}
use tdcs.Prelude.{
  ℕ, zero, suc, ◌+◌, ◌-◌, Option, none, some, List, [], ◌∷◌, ◌++◌, map, length, take, drop, Bool,
  true, false, leb, ltb, ◌==◌, text_eq, number_eq, if◌then◌else◌,
}
use tdcs.Prelude.Dict.{Dict, get, or_else, contains}
use tdcs.Etl.{Value, Row}

-- a text as the list of its code points
abbrev pub Text : Type 0
Text = List ℕ

-- `name.replace('`', '``')`
unfoldable pub double_ticks : Text → Text
double_ticks [] = []
double_ticks (c ∷ s) = if c == b'`' then b'`' ∷ b'`' ∷ double_ticks s else c ∷ double_ticks s

unfoldable pub escape_column : Text → Text
unfolding double_ticks
escape_column name = b'`' ∷ (double_ticks name ++ b'`' ∷ [])

-- `seen.setdefault(k, None)`: a new key goes last
unfoldable pub see : List String → String → List String
see seen k = if contains k seen then seen else seen ++ k ∷ []

unfoldable pub see_row : List String → Row → List String
unfolding see
see_row seen [] = seen
see_row seen ((k, v) ∷ row) = see_row (see seen k) row

unfoldable pub columns_from : List String → List Row → List String
unfolding see_row
columns_from seen [] = seen
columns_from seen (row ∷ rows) = columns_from (see_row seen row) rows

-- `row.get(c)`, where a missing key is None
abbrev pub cell : Row → String → Value
cell row c = or_else (get c row) Value.null

unfoldable pub prepare_rows : List Row → List String × List (List Value)
unfolding columns_from
prepare_rows rows =
    let columns = columns_from [] rows in (columns, map (λ row. map (cell row) columns) rows)

abbrev pub chunk_size : ℕ
chunk_size = 1000

-- `data[i : i + n]` for i = 0, n, 2n, …: a slice of n entries while any are left. Each round
-- takes at least one entry, so as much fuel as there are entries is enough.
unfoldable pub chunks : ℕ → ℕ → List (List Value) → List (List (List Value))
chunks fuel n [] = []
chunks zero n (x ∷ xs) = []
chunks (suc fuel) n (x ∷ xs) = take n (x ∷ xs) ∷ chunks fuel n (drop n (x ∷ xs))

-- What `cur.rowcount` says of one `executemany`, which depends on the rows in the table: a
-- parameter, from the chunks that have been sent before and the chunk.
abbrev pub RowCount : Type 0
RowCount = List (List (List Value)) → List (List Value) → ℕ

unfoldable pub execute_chunks :
    RowCount → List (List (List Value)) → List (List (List Value)) → ℕ → ℕ
execute_chunks rowcount sent [] total = total
execute_chunks rowcount sent (c ∷ cs) total =
    execute_chunks rowcount (sent ++ c ∷ []) cs (total + rowcount sent c)

-- `_execute_batch`
unfoldable pub execute_batch : RowCount → List (List Value) → ℕ
unfolding chunks execute_chunks
execute_batch rowcount rows = execute_chunks rowcount [] (chunks (length rows) chunk_size rows) 0

unfoldable pub load_batch : RowCount → List Row → ℕ
unfolding prepare_rows execute_batch
load_batch rowcount [] = 0
load_batch rowcount (r ∷ rows) = execute_batch rowcount (prepare_rows (r ∷ rows)).1
