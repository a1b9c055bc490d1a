-- ===== src/Pipeline/Counts.antt =====
-- The counts of a run against what it loaded.
use tdcs.Prelude.{
  ℕ, ◌+◌, ◌≤◌, ◌≡◌, refl, ◌∙◌, Option, none, some, List, [], ◌∷◌, ◌++◌, length, length-append, Bool,
  arith,
}
use tdcs.Prelude.Int.{sub_ℕ, ◌+ℤ◌, sub_ℕ-add}
use tdcs.Prelude.Text.{Text}
use tdcs.Etl.{Error, Result, ok, raise, Row}
use tdcs.Etl.Router.{Router, group_by_table, ensure_table_exists}
use tdcs.Etl.Router.Groups.{total, total-group_by_table}
use tdcs.Pipeline.{
  success, DbFailure, after_load, lift_run, Loads, Stages, Progress, Run, ◌then_run◌, valid_rows,
  failed_rows, transformed, encrypted, load_with_retry, ensure_and_load, load_groups, store_rows,
  process_batch, process_stream, start, status_of, finish, execute,
}

-- a property of where a run stands, if it raised nothing
abbrev pub Returns : Run → (Progress → Type 0) → Type 0
Returns (p, none) P = P p
Returns (p, some e) P = Unit

Returns-then :
    (m : Run) (next : Progress → Run) (P Q : Progress → Type 0)
    → Returns m P
    → ((p : Progress) → P p → Returns (next p) Q)
    → Returns (m then_run next) Q
Returns-then (p, none) next P Q h k = k p h
Returns-then (p, some e) next P Q h k = tt

Returns-weaken :
    (m : Run) (P Q : Progress → Type 0) → Returns m P → ((p : Progress) → P p → Q p) → Returns m Q
Returns-weaken (p, none) P Q h k = k p h
Returns-weaken (p, some e) P Q h k = tt

Returns-lift {ℓ} :
    {A : Type ℓ} (p : Progress) (r : Result A) (next : A → Run) (Q : Progress → Type 0)
    → ((a : A) → r ≡ ok a → Returns (next a) Q)
    → Returns (lift_run p r next) Q
Returns-lift p (ok a) next Q k = k a refl
Returns-lift p (raise e) next Q k = tt

total-append : (xs ys : Loads) → total (xs ++ ys) ≡ total xs + total ys
total-append [] ys = omega arith
total-append ((t, rows) ∷ xs) ys = omega (arith, total-append xs ys)

-- all counts as they were, and so many rows more loaded
abbrev Stored : ℕ → Progress → Progress → Type 0
Stored n p p' =
    (total p'.loads ≡ total p.loads + n)
    × (p'.raw_count ≡ p.raw_count)
    × (p'.valid_count ≡ p.valid_count)
    × (p'.error_count ≡ p.error_count)
    × (p'.error_rows ≡ p.error_rows)

after_load-Stored :
    (table : Text) (rows : List Row) (p : Progress) (o : Option DbFailure)
    → Returns (after_load table rows p o) (Stored (length rows) p)
unfolding after_load
after_load-Stored table rows p (some f) = tt
after_load-Stored table rows p none =
    (omega (arith, total-append p.loads ((table, rows) ∷ [])), refl, refl, refl, refl)

ensure_and_load-Stored :
    (st : Stages) (table : Text) (rows : List Row) (p : Progress)
    → Returns (ensure_and_load st table rows p) (Stored (length rows) p)
unfolding ensure_and_load load_with_retry
ensure_and_load-Stored st table rows p =
    Returns-lift p (ensure_table_exists st.template st.table_config table p.router) _
      (Stored (length rows) p)
      (λ router _.
        after_load-Stored table rows (record p { router = router }) (st.load p.loads table rows))

load_groups-Stored :
    (st : Stages) (groups : List (Text × List Row)) (p : Progress)
    → Returns (load_groups st groups p) (Stored (total groups) p)
unfolding load_groups
load_groups-Stored st [] p = (omega arith, refl, refl, refl, refl)
load_groups-Stored st ((table, rows) ∷ groups) p =
    Returns-then (ensure_and_load st table rows p) (λ p'. load_groups st groups p')
      (Stored (length rows) p) (Stored (length rows + total groups) p)
      (ensure_and_load-Stored st table rows p)
      (λ p' h.
        Returns-weaken (load_groups st groups p') (Stored (total groups) p')
          (Stored (length rows + total groups) p) (load_groups-Stored st groups p')
          (λ q k. (omega (arith, h.0, k.0), k.1 ∙ h.1, k.2 ∙ h.2, k.3 ∙ h.3, k.4 ∙ h.4)))

-- the encryption gives back as many rows as it is given
abbrev pub KeepsLength : Option (List Row → Result (List Row)) → Type 0
KeepsLength none = Unit
KeepsLength (some f) = (rows out : List Row) → f rows ≡ ok out → length out ≡ length rows

length-encrypted :
    (enc : Option (List Row → Result (List Row))) (rows out : List Row)
    → KeepsLength enc
    → encrypted enc rows ≡ ok out
    → length out ≡ length rows
length-encrypted none rows out k h = ground arith
length-encrypted (some f) rows out k h = k rows out h

store_rows-Stored :
    (st : Stages) (rows : List Row) (p : Progress)
    → KeepsLength st.encrypt
    → Returns (store_rows st rows p) (Stored (length rows) p)
unfolding store_rows
store_rows-Stored st [] p k = (omega arith, refl, refl, refl, refl)
store_rows-Stored st (r ∷ rows) p k =
    Returns-lift p (encrypted st.encrypt (r ∷ rows)) _ (Stored (length (r ∷ rows)) p) (λ out h.
      let n : total (group_by_table st.calendar st.table_config out) ≡ length (r ∷ rows) =
        total-group_by_table st.calendar st.table_config out
        ∙ length-encrypted st.encrypt (r ∷ rows) out k h in
      rw n at (load_groups-Stored st (group_by_table st.calendar st.table_config out) p))

length-failed_rows-le :
    (batch : List Row) (out : List (Option Row)) → length (failed_rows batch out) ≤ length batch
unfolding failed_rows
length-failed_rows-le [] out = omega arith
length-failed_rows-le (row ∷ batch) [] = omega (arith, length-failed_rows-le batch [])
length-failed_rows-le (row ∷ batch) (none ∷ out) = omega (arith, length-failed_rows-le batch out)
length-failed_rows-le (row ∷ batch) (some r ∷ out) = omega (arith, length-failed_rows-le batch out)

-- every valid row is loaded, the error count is what is left of the raw rows, and no more rows
-- failed than there were
pub record Agrees (raw : ℕ) (p : Progress) : Type 0 where
  pub raw_rows : p.raw_count ≡ raw
  pub loaded : total p.loads ≡ p.valid_count
  pub errors : p.error_count ≡ sub_ℕ p.raw_count p.valid_count
  pub failed_few : length p.error_rows ≤ p.raw_count

counts_match_at : (raw raw' : ℕ) (p : Progress) → raw ≡ raw' → Agrees raw p → Agrees raw' p
counts_match_at raw raw' p e h = record {
  raw_rows = h.raw_rows ∙ e;
  loaded = h.loaded;
  errors = h.errors;
  failed_few = h.failed_few;
}

process_batch-Agrees :
    (st : Stages) (batch : List Row) (raw : ℕ) (p : Progress)
    → KeepsLength st.encrypt
    → Agrees raw p
    → Returns (process_batch st batch p) (Agrees (raw + length batch))
unfolding process_batch
process_batch-Agrees st batch raw p k h =
    Returns-lift (record p { raw_count = p.raw_count + length batch })
      (transformed st.transform batch) _ (Agrees (raw + length batch))
      (λ out _.
        let valid = valid_rows batch out in
        let counted : Progress = record p {
          raw_count = p.raw_count + length batch;
          valid_count = p.valid_count + length valid;
          error_count = p.error_count +ℤ sub_ℕ (length batch) (length valid);
          error_rows = p.error_rows ++ failed_rows batch out;
        } in
        Returns-weaken (store_rows st valid counted) (Stored (length valid) counted)
          (Agrees (raw + length batch)) (store_rows-Stored st valid counted k)
          (λ q s. record {
            raw_rows = omega (arith, s.1, h.raw_rows);
            loaded = omega (arith, s.0, s.2, h.loaded);
            errors = rw s.3 (
                rw s.1 (
                  rw s.2 (
                    rw h.errors
                      (sub_ℕ-add p.raw_count p.valid_count (length batch) (length valid)))));
            failed_few = rw s.4 (
                omega (
                  arith,
                  s.1,
                  h.failed_few,
                  length-append p.error_rows (failed_rows batch out),
                  length-failed_rows-le batch out,
                ));
          }))

-- the rows of some batches
abbrev pub rows_in : List (List Row) → ℕ
rows_in [] = 0
rows_in (batch ∷ batches) = length batch + rows_in batches

process_stream-Agrees :
    (st : Stages) (batches : List (List Row)) (ending : Option Error) (raw : ℕ) (p : Progress)
    → KeepsLength st.encrypt
    → Agrees raw p
    → Returns (process_stream st batches ending p) (Agrees (raw + rows_in batches))
unfolding process_stream
process_stream-Agrees st [] none raw p k h = counts_match_at raw (raw + 0) p (omega arith) h
process_stream-Agrees st [] (some e) raw p k h = tt
process_stream-Agrees st (batch ∷ batches) ending raw p k h =
    Returns-then (process_batch st batch p) _ (Agrees (raw + length batch))
      (Agrees (raw + (length batch + rows_in batches))) (process_batch-Agrees st batch raw p k h)
      (λ q a.
        Returns-weaken (process_stream st batches ending q)
          (Agrees (raw + length batch + rows_in batches))
          (Agrees (raw + (length batch + rows_in batches)))
          (process_stream-Agrees st batches ending (raw + length batch) q k a)
          (λ q' b. counts_match_at _ _ q' (omega arith) b))

not_success : (e : Error) → ¬ (status_of (some e) ≡ success)
unfolding status_of
not_success e = ground arith

success-Returns : (m : Run) (P : Progress → Type 0) → status_of m.1 ≡ success → Returns m P → P m.0
unfolding status_of
success-Returns (p, none) P s h = h
success-Returns (p, some e) P s h = absurd (not_success e s)

-- A run that ends in SUCCESS has counted every row of every batch, has loaded exactly as many rows
-- as it counts as valid, counts as errors the raw rows less the valid ones, and lists at most as
-- many error rows as there were rows; this for every transformer and database, and every
-- encryption that keeps the number of rows.
pub execute_success_counts :
    (st : Stages) (reports : Bool) (batches : List (List Row)) (ending : Option Error)
    (elapsed_ms : ℕ) (router : Router)
    → KeepsLength st.encrypt
    → let (result, p) = execute st reports batches ending elapsed_ms router in
      result.status ≡ success
      → (result.raw_count ≡ rows_in batches)
        × (total p.loads ≡ result.valid_count)
        × (result.error_count ≡ sub_ℕ result.raw_count result.valid_count)
        × (length p.error_rows ≤ result.raw_count)
unfolding execute finish
execute_success_counts st reports batches ending elapsed_ms router k s =
    let run = process_stream st batches ending (start router) in
    let a : Agrees (0 + rows_in batches) run.0 =
      success-Returns run (Agrees (0 + rows_in batches)) s (
        process_stream-Agrees st batches ending 0 (start router) k
          (record { raw_rows = refl; loaded = refl; errors = refl; failed_few = omega arith })) in
    (omega (arith, a.raw_rows), a.loaded, a.errors, a.failed_few)
