-- ===== src/Web/Retry.antt =====
-- `retry_file` of src/web/api/files.py, on the table `processed_files` that the claims work on.
use tdcs.Prelude.{
  ℕ, String, ◌≡◌, refl, ◌∙◌, ap, Option, none, some, List, [], ◌∷◌, any, count, Bool, true, false,
  ◌&&◌, ◌||◌, ◌==◌, number_eq, text_eq, if◌then◌else◌, All, Bool-cases, inl, inr, arith, eqb_iff,
}
use tdcs.Prelude.Dict.{Dict, get}
use tdcs.Files.{
  Key, key_eq, Row, Db, find, Status, pending, failed, claimed, same_status, Engine, may_claim,
  Instance,
}
use tdcs.Files.Claims.{Call, claims, starts, run_calls, Quiet, run_calls-Quiet}
use tdcs.Web.{Reply, ok, error}
mod Tests

-- NULL, which is the id of no instance, stands in `claimed_by` as a text that is given
unfoldable pub retry_row : String → ℕ → Row → Row
retry_row nobody id r =
    if r.id == id && same_status r.status failed
    then record r {
      status = pending;
      retry_count = 0;
      error_type = none;
      error_message = none;
      claim_expires_at = none;
      claimed_by = nobody;
    }
    else r

unfoldable pub map_rows : (Row → Row) → Dict Key Row → Dict Key Row
map_rows f [] = []
map_rows f ((k, r) ∷ rows) = (k, f r) ∷ map_rows f rows

-- the answer is the status code, or the id that is queued
unfoldable pub retry_file : Bool → String → ℕ → Db → Reply ℕ × Db
unfolding retry_row map_rows
retry_file available nobody id db =
    if available
    then (if any (λ e. Row.id e.1 == id && same_status (Row.status e.1) failed) db.rows
        then (ok 200 id, record db { rows = map_rows (retry_row nobody id) db.rows })
        else if any (λ e. Row.id e.1 == id) db.rows
        then (error "FILE_NOT_RETRYABLE" 409, db)
        else (error "FILE_NOT_FOUND" 404, db))
    else (error "DB_UNAVAILABLE" 503, db)

get-map_rows :
    (f : Row → Row) (k : Key) (r : Row) (rows : Dict Key Row)
    → get k rows ≡ some r
    → get k (map_rows f rows) ≡ some (f r)
unfolding map_rows get
get-map_rows f k r [] at = absurd cc
get-map_rows f k r ((j, v) ∷ rows) at = elim (Bool-cases (j == k)) [
  | inl same ↦ rw same (first (rw same at at))
  | inr other ↦ rw other (get-map_rows f k r rows (rw other at at))
]
  where
    first : some v ≡ some r → some (f v) ≡ some (f r)
    first e = cc

any-at :
    (p : Row → Bool) (k : Key) (r : Row) (rows : Dict Key Row)
    → get k rows ≡ some r
    → p r ≡ true
    → any (λ e. p e.1) rows ≡ true
unfolding get
any-at p k r [] at holds = absurd cc
any-at p k r ((j, v) ∷ rows) at holds = elim (Bool-cases (j == k)) [
  | inl same ↦ first (rw same at at)
  | inr other ↦ ground (arith, any-at p k r rows (rw other at at) holds)
]
  where
    first : some v ≡ some r → (p v || any (λ e. p e.1) rows) ≡ true
    first e = let same : v ≡ r = cc in rw (same, holds) refl

pending-Quiet : (r : Row) (c : Call) → r.status ≡ pending → Quiet r c
unfolding may_claim
pending-Quiet r (claims i ref max_retries now) h = rw h refl
pending-Quiet r (starts i k) h = rw h (never (r.claimed_by == i.instance_id))
  where
    never : (b : Bool) → (b && false) ≡ false
    never true = refl
    never false = refl

pending-All-Quiet : (r : Row) (cs : List Call) → r.status ≡ pending → All (Quiet r) cs
pending-All-Quiet r [] h = tt
pending-All-Quiet r (c ∷ cs) h = (pending-Quiet r c h, pending-All-Quiet r cs h)

retry_row-pending :
    (nobody : String) (r : Row)
    → r.status ≡ failed
    → ((retry_row nobody r.id r).status ≡ pending) × ((retry_row nobody r.id r).retry_count ≡ 0)
unfolding retry_row
retry_row-pending nobody r h = rw (h, (eqb_iff r.id r.id).1 refl) (refl, refl)

-- A failed file that is retried by hand is answered as queued, and then stays PENDING for good: no
-- sequence of claims and starts by any instances at any times, whatever the engine, changes the row.
pub retry_file-stuck :
    (nobody : String) (k : Key) (r : Row) (db : Db) (e : Engine) (calls : List Call)
    → find k db ≡ some r
    → r.status ≡ failed
    → let (reply, db') = retry_file true nobody r.id db in
      (reply ≡ ok 200 r.id)
      × ((r' : Row) × (find k (run_calls e calls db') ≡ some r')
          × (r'.status ≡ pending)
          × (r'.retry_count ≡ 0))
unfolding retry_file
retry_file-stuck nobody k r db e calls at is_failed =
    let r' = retry_row nobody r.id r in
    let now = retry_row-pending nobody r is_failed in
    let hit : (r.id == r.id && same_status r.status failed) ≡ true =
      rw (is_failed, (eqb_iff r.id r.id).1 refl) refl in
    rw (any-at (λ v. v.id == r.id && same_status v.status failed) k r db.rows at hit) (
      refl,
      (
        r',
        run_calls-Quiet e calls k r' _ (get-map_rows (retry_row nobody r.id) k r db.rows at)
            (pending-All-Quiet r' calls now.0),
        now.0,
        now.1,
      ),
    )
