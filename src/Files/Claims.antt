-- ===== src/Files/Claims.antt =====
-- Who may work on a file: what the claims and starts of any number of instances do to its row.
use tdcs.Prelude.{
  ℕ, ◌≤◌, String, ◌≡◌, ◌≢◌, ap, ◌∙◌, ◌⊎◌, Option, none, some, List, [], ◌∷◌, Bool, true, false,
  ◌&&◌, arith, All, ◌==◌, eq_iff, text_eq, number_eq, if◌then◌else◌, Bool-cases, Option-cases, inl,
  inr,
}
use mathlib.Core.Bool.{false≢true}
use tdcs.Prelude.Dict.{put, get-put, beq_refl}
use tdcs.FileRef.{FileRef}
use tdcs.Files.{
  Status, claimed, processing, success, failed, skipped, Key, key_eq, Row, Db, find, Engine,
  Instance, same_status, may_claim, assign_in_order, assign_at_once, assign, key_of, upsert,
  try_claim, update_where, mark_processing,
}

pub find-put :
    (k j : Key) (r : Row) (db : Db)
    → find j (record db { rows = put k r db.rows }) ≡ (if k == j then some r else find j db)
find-put k j r db = get-put k j r db.rows

pub status_iff : (a b : Status) → same_status a b ≡ true → a ≡ b
status_iff a b h = ground arith

-- What one of the competing instances does to a file: it tries to claim it, or to start it.
pub data Call : Type 0 where
  claims : Instance → FileRef → ℕ → ℕ → Call
  starts : Instance → Key → Call

unfoldable pub answer : Engine → Call → Db → Bool × Db
answer e (claims i ref max_retries now) db = try_claim e i ref max_retries now db
answer e (starts i k) db = mark_processing i k db

pub run_calls : Engine → List Call → Db → Db
run_calls e [] db = db
run_calls e (c ∷ cs) db = run_calls e cs (answer e c db).1

-- a claim whose condition does not hold assigns nothing
assign_held :
    (e : Engine) (i : Instance) (max_retries now : ℕ) (r : Row)
    → may_claim max_retries now r ≡ false
    → assign e i max_retries now r ≡ r
unfolding assign assign_in_order assign_at_once
assign_held e i max_retries now r h = elim (Bool-cases e.left_to_right) [
  | inl o ↦ rw o (simp h)
  | inr o ↦ rw o (rw h)
]

-- the same for any call of a row: a claim whose condition fails, a start that finds no claim
abbrev pub Quiet : Row → Call → Type 0
Quiet r (claims i ref max_retries now) = may_claim max_retries now r ≡ false
Quiet r (starts i k) = (r.claimed_by == i.instance_id && same_status r.status claimed) ≡ false

find-upsert_other :
    (e : Engine) (i : Instance) (ref : FileRef) (max_retries now : ℕ) (o : Option Row) (k : Key)
    (db : Db)
    → (key_of ref == k) ≡ false
    → find k (upsert e i ref max_retries now o db).1 ≡ find k db
unfolding upsert
find-upsert_other e i ref max_retries now none k db h = rw get-put (rw h)
find-upsert_other e i ref max_retries now (some r) k db h = rw get-put (rw h)

find-upsert_quiet :
    (e : Engine) (i : Instance) (ref : FileRef) (max_retries now : ℕ) (r : Row) (db : Db)
    → may_claim max_retries now r ≡ false
    → find (key_of ref) (upsert e i ref max_retries now (some r) db).1 ≡ some r
unfolding upsert
find-upsert_quiet e i ref max_retries now r db h =
    rw get-put (rw (beq_refl (key_of ref)) (rw (assign_held e i max_retries now r h)))

find-claim_quiet :
    (e : Engine) (i : Instance) (ref : FileRef) (max_retries now : ℕ) (k : Key) (r : Row) (db : Db)
    → find k db ≡ some r
    → may_claim max_retries now r ≡ false
    → find k (try_claim e i ref max_retries now db).1 ≡ some r
unfolding try_claim
find-claim_quiet e i ref max_retries now k r db f h = elim (Bool-cases (key_of ref == k)) [
  | inl same ↦
      let q : key_of ref ≡ k = (key_eq.beq_iff (key_of ref) k).0 same in
      let g : find (key_of ref) db ≡ some r = rw q f in
      rw (← q) (rw g (find-upsert_quiet e i ref max_retries now r db h))
  | inr other ↦ find-upsert_other e i ref max_retries now (find (key_of ref) db) k db other ∙ f
]

module _ (k : Key) (test : Row → Bool) (f : Row → Row) (db : Db) where
  pub update_where_hit :
      (r : Row)
      → find k db ≡ some r
      → test r ≡ true
      → update_where k test f db ≡ (true, record db { rows = put k (f r) db.rows })
  unfolding update_where
  update_where_hit r h t = rw h (rw t)

  pub update_where_miss :
      (r : Row) → find k db ≡ some r → test r ≡ false → update_where k test f db ≡ (false, db)
  unfolding update_where
  update_where_miss r h t = rw h (rw t)

  pub update_where-none : find k db ≡ none → update_where k test f db ≡ (false, db)
  unfolding update_where
  update_where-none h = rw h

  pub find-update_where_other :
      (j : Key) → (k == j) ≡ false → find j (update_where k test f db).1 ≡ find j db
  unfolding update_where
  find-update_where_other j other = elim (Option-cases (find k db)) [
    | inl gone ↦ rw gone
    | inr (r, h) ↦ rw h (elim (Bool-cases (test r)) [
      | inl hit ↦ rw hit (rw get-put (rw other))
      | inr miss ↦ rw miss
    ])
  ]

find-mark_processing_quiet :
    (i : Instance) (k j : Key) (r : Row) (db : Db)
    → find j db ≡ some r
    → (r.claimed_by == i.instance_id && same_status r.status claimed) ≡ false
    → find j (mark_processing i k db).1 ≡ some r
unfolding mark_processing
find-mark_processing_quiet i k j r db f h = elim (Bool-cases (k == j)) [
  | inl same ↦
      let q : k ≡ j = (key_eq.beq_iff k j).0 same in rw (update_where_miss k _ _ db r (rw q f) h) f
  | inr other ↦ find-update_where_other k _ _ db j other ∙ f
]

pub run_calls-Quiet :
    (e : Engine) (cs : List Call) (k : Key) (r : Row) (db : Db)
    → find k db ≡ some r
    → All (Quiet r) cs
    → find k (run_calls e cs db) ≡ some r
unfolding run_calls answer
run_calls-Quiet e [] k r db f q = f
run_calls-Quiet e (claims i ref max_retries now ∷ cs) k r db f q =
    run_calls-Quiet e cs k r (try_claim e i ref max_retries now db).1
      (find-claim_quiet e i ref max_retries now k r db f q.0) q.1
run_calls-Quiet e (starts i j ∷ cs) k r db f q =
    run_calls-Quiet e cs k r (mark_processing i j db).1
      (find-mark_processing_quiet i j k r db f q.0) q.1

-- a call that comes before the claim ends, and is no start by the instance that holds the claim
abbrev pub Outside : ℕ → String → Call → Type 0
Outside deadline holder (claims i ref max_retries now) = now ≤ deadline
Outside deadline holder (starts i k) = i.instance_id ≢ holder

Outside-Quiet :
    (r : Row) (deadline : ℕ) (c : Call)
    → (r.status ≡ claimed) ⊎ (r.status ≡ processing)
    → r.claim_expires_at ≡ some deadline
    → Outside deadline r.claimed_by c
    → Quiet r c
unfolding may_claim
Outside-Quiet r deadline (claims i ref max_retries now) s d o = ground arith
Outside-Quiet r deadline (starts i k) s d o = ground (arith, eq_iff r.claimed_by i.instance_id)

pub All-map :
    {P Q : Call → Type 0} (cs : List Call) → ((c : Call) → P c → Q c) → All P cs → All Q cs
All-map [] f h = tt
All-map (c ∷ cs) f h = (f c h.0, All-map cs f h.1)

-- While a claim lasts, nobody takes it: whatever claims any instances make up to the time at which
-- a CLAIMED or PROCESSING row's claim expires, and whatever starts instances other than the holder
-- attempt, the row stays as it is.
pub claim_excludes_others :
    (e : Engine) (cs : List Call) (k : Key) (r : Row) (deadline : ℕ) (db : Db)
    → find k db ≡ some r
    → (r.status ≡ claimed) ⊎ (r.status ≡ processing)
    → r.claim_expires_at ≡ some deadline
    → All (Outside deadline r.claimed_by) cs
    → find k (run_calls e cs db) ≡ some r
claim_excludes_others e cs k r deadline db f s d o =
    run_calls-Quiet e cs k r db f (All-map cs (λ c. Outside-Quiet r deadline c s d) o)

-- the row is done with: it is SUCCESS or SKIPPED, or FAILED as often as `limit` allows
abbrev pub Done : ℕ → Row → Type 0
Done limit r =
    (r.status ≡ success) ⊎ (r.status ≡ skipped) ⊎ ((r.status ≡ failed) × (limit ≤ r.retry_count))

-- the call allows at most `limit` retries
abbrev pub AtMost : ℕ → Call → Type 0
AtMost limit (claims i ref max_retries now) = max_retries ≤ limit
AtMost limit (starts i k) = Unit

Done-Quiet : (r : Row) (limit : ℕ) (c : Call) → Done limit r → AtMost limit c → Quiet r c
unfolding may_claim
Done-Quiet r limit (claims i ref max_retries now) d m = ground arith
Done-Quiet r limit (starts i k) d m = ground arith

-- A file that was processed, skipped, or has failed as often as the task retries is never taken up
-- again: its row outlasts any claims and starts, by any instances and at any times.
pub processed_rows_stay :
    (e : Engine) (cs : List Call) (k : Key) (r : Row) (limit : ℕ) (db : Db)
    → find k db ≡ some r
    → Done limit r
    → All (AtMost limit) cs
    → find k (run_calls e cs db) ≡ some r
processed_rows_stay e cs k r limit db f d m =
    run_calls-Quiet e cs k r db f (All-map cs (λ c. Done-Quiet r limit c d) m)

-- the call is a start, or a claim at a time at which the row's claim has not expired
abbrev pub BeforeEnd : Row → Call → Type 0
BeforeEnd r (claims i ref max_retries now) =
    (deadline : ℕ) → r.claim_expires_at ≡ some deadline → now ≤ deadline
BeforeEnd r (starts i k) = Unit

-- a row that was started
abbrev started : Row → Row
started r = record r { status = processing }

started-Quiet : (r : Row) (c : Call) → BeforeEnd r c → Quiet (started r) c
unfolding may_claim
started-Quiet r (starts i k) o = ground arith
started-Quiet r (claims i ref max_retries now) o = elim (Option-cases r.claim_expires_at) [
  | inl never ↦ ground arith
  | inr (d, e) ↦ let le = o d e in rw e (ground arith)
]

start-started :
    (i : Instance) (k : Key) (r : Row) (db : Db)
    → find k db ≡ some r
    → (mark_processing i k db).0 ≡ true
    → find k (mark_processing i k db).1 ≡ some (started r)
unfolding mark_processing
start-started i k r db f ok =
    elim (Bool-cases (r.claimed_by == i.instance_id && same_status r.status claimed)) [
      | inr miss ↦ absurd (false≢true (rw (update_where_miss k _ _ db r f miss) at ok))
      | inl hit ↦ rw (update_where_hit k _ _ db r f hit) (rw find-put (rw (beq_refl k)))
    ]

-- A claim is started at most once while it lasts: after a start of the file that succeeds, and
-- after whatever claims and starts any instances then make, the claims at times at which the claim
-- of the file's row has not expired, a further start of the file fails, by the same instance too.
pub one_start_per_claim :
    (e : Engine) (i j : Instance) (cs : List Call) (k : Key) (r : Row) (db : Db)
    → find k db ≡ some r
    → (mark_processing i k db).0 ≡ true
    → All (BeforeEnd r) cs
    → (mark_processing j k (run_calls e cs (mark_processing i k db).1)).0 ≡ false
unfolding mark_processing
one_start_per_claim e i j cs k r db f ok o =
    let now_there =
      run_calls-Quiet e cs k (started r) (mark_processing i k db).1 (start-started i k r db f ok)
        (All-map cs (started-Quiet r) o) in
    ap (λ (x : Bool × Db). x.0) (update_where_miss k _ _ _ (started r) now_there (ground arith))
