-- ===== src/Etl/Loader/Chunks.antt =====
-- The chunks in which `_execute_batch` writes a batch, and the count that it returns.
use tdcs.Prelude.{
  ℕ, zero, suc, ◌+◌, ◌≤◌, ◌<◌, ◌≡◌, refl, ap, List, [], ◌∷◌, ◌++◌, map, length, take, drop, arith,
  All, length-append, length-take, length-drop, take-append-drop, length-map,
}
use tdcs.Etl.{Value, Row}
use tdcs.Etl.Loader.{
  cell, columns_from, prepare_rows, chunk_size, chunks, RowCount, execute_chunks, execute_batch,
  load_batch,
}

-- all the entries of some chunks, in order
abbrev pub joined : List (List (List Value)) → List (List Value)
joined [] = []
joined (c ∷ cs) = c ++ joined cs

abbrev pub Sized : ℕ → List (List Value) → Type 0
Sized n c = (0 < length c) × (length c ≤ n)

drop_shrinks :
    (n : ℕ) (x : List Value) (xs : List (List Value)) → 0 < n → length (drop n (x ∷ xs)) ≤ length xs
drop_shrinks n x xs h = omega (arith, length-drop n (x ∷ xs))

take-Sized : (n : ℕ) (x : List Value) (xs : List (List Value)) → 0 < n → Sized n (take n (x ∷ xs))
take-Sized n x xs h = omega (arith, length-take n (x ∷ xs))

-- With at least as much fuel as there are tuples, the chunks joined again are the tuples in their
-- order, and every chunk has at least one and at most `n` of them.
pub chunks_partition :
    (fuel n : ℕ) (rows : List (List Value))
    → 0 < n
    → length rows ≤ fuel
    → (joined (chunks fuel n rows) ≡ rows) × All (Sized n) (chunks fuel n rows)
unfolding chunks
chunks_partition fuel n [] h f = (refl, tt)
chunks_partition zero n (x ∷ xs) h f = absurd (omega arith)
chunks_partition (suc fuel) n (x ∷ xs) h f =
    let rest = chunks_partition fuel n (drop n (x ∷ xs)) h (omega (arith, drop_shrinks n x xs h)) in
    (rw rest.0 (take-append-drop n (x ∷ xs)), (take-Sized n x xs h, rest.1))

abbrev pub IsRowCount : RowCount → Type 0
IsRowCount rowcount =
    (sent : List (List (List Value))) (c : List (List Value)) → rowcount sent c ≤ length c

execute_chunks-le :
    (rowcount : RowCount) (sent cs : List (List (List Value))) (total : ℕ)
    → IsRowCount rowcount
    → execute_chunks rowcount sent cs total ≤ total + length (joined cs)
unfolding execute_chunks
execute_chunks-le rowcount sent [] total r = omega arith
execute_chunks-le rowcount sent (c ∷ cs) total r = omega (
  arith,
  execute_chunks-le rowcount (sent ++ c ∷ []) cs (total + rowcount sent c) r,
  r sent c,
  length-append c (joined cs),
)

length-prepare_rows : (rows : List Row) → length (prepare_rows rows).1 ≡ length rows
unfolding prepare_rows
length-prepare_rows rows = length-map (λ row. map (cell row) (columns_from [] rows)) rows

execute_batch-le :
    (rowcount : RowCount) (tuples : List (List Value))
    → IsRowCount rowcount
    → execute_batch rowcount tuples ≤ length tuples
unfolding execute_batch
execute_batch-le rowcount tuples r = omega (
  arith,
  execute_chunks-le rowcount [] (chunks (length tuples) chunk_size tuples) 0 r,
  ap length (chunks_partition (length tuples) chunk_size tuples (omega arith) (omega arith)).0,
)

-- Where no `executemany` reports more rows than it was sent, a batch of any size reports at most
-- as many written rows as it has, so the count of ignored rows is never negative.
pub load_batch-le-length :
    (rowcount : RowCount) (rows : List Row)
    → IsRowCount rowcount
    → load_batch rowcount rows ≤ length rows
unfolding load_batch
load_batch-le-length rowcount [] r = omega arith
load_batch-le-length rowcount (row ∷ rows) r = omega (
  arith,
  execute_batch-le rowcount (prepare_rows (row ∷ rows)).1 r,
  length-prepare_rows (row ∷ rows),
)
