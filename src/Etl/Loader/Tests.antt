-- ===== src/Etl/Loader/Tests.antt =====
-- The loader's theorems at a concrete batch.
use tdcs.Prelude.{List, [], ◌∷◌, ◌≡◌, String, arith, All, length, text_eq}
use tdcs.Prelude.Dict.{contains}
use tdcs.Etl.{Value, null, num, text, Row}
use tdcs.Etl.Loader.{prepare_rows, chunks, RowCount}
use tdcs.Etl.Loader.Rows.{Distinct, any_has, Represents, prepare_rows_complete}
use tdcs.Etl.Loader.Chunks.{joined, Sized, IsRowCount, chunks_partition}

abbrev batch : List Row
batch = (("a", num 1) ∷ ("b", null) ∷ []) ∷ (("c", text "x") ∷ ("a", num 2) ∷ []) ∷ []

prepare_rows_complete_example :
    let (columns, tuples) = prepare_rows batch in
    Distinct columns
    × ((k : String) → contains k columns ≡ any_has k batch)
    × Represents columns batch tuples
prepare_rows_complete_example = prepare_rows_complete batch

abbrev tuples : List (List Value)
tuples = (num 1 ∷ []) ∷ (num 2 ∷ []) ∷ (num 3 ∷ []) ∷ []

chunks_partition_example : (joined (chunks 3 2 tuples) ≡ tuples) × All (Sized 2) (chunks 3 2 tuples)
chunks_partition_example = chunks_partition 3 2 tuples (omega arith) (omega arith)

-- a server that writes every row it is sent
abbrev writes_all : RowCount
writes_all sent c = length c

writes_all_counts : IsRowCount writes_all
writes_all_counts sent c = omega arith
