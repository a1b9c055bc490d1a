-- ===== src/Files.antt =====
-- The table `processed_files` and its statements, from src/infrastructure/processed_file_repo.py,
-- which src/infrastructure/state_tracker.py passes on. A statement by the unique key
-- (task_id, file_path, file_mtime) reads or writes at most one row, so the table is a dict from
-- keys to rows. Times are seconds; NULL is `none`, and a comparison with NULL does not hold.
pub mod Claims
pub mod Retry
mod Tests
use tdcs.Prelude.{
  ℕ, suc, ◌+◌, ◌<◌, String, ◌≡◌, refl, ◌↔◌, Option, none, some, List, [], ◌∷◌, Bool, true, false,
  not, ◌&&◌, ◌||◌, arith, ltb, leb, Eq, ◌==◌, eq_iff, text_eq, number_eq, eqb_iff, if◌then◌else◌,
}
use tdcs.Prelude.Dict.{Dict, get, put, or_else}
use tdcs.FileRef.{FileRef}

pub data Status : Type 0 where
  pending claimed processing success failed skipped : Status

-- the unique key uk_task_file_mtime
pub record Key : Type 0 where
  pub task_id : String
  pub file_path : String
  pub file_mtime : ℕ

abbrev pub same_key : Key → Key → Bool
same_key a b =
    a.task_id == b.task_id && (a.file_path == b.file_path && a.file_mtime == b.file_mtime)

pub same_key_iff : (a b : Key) → (same_key a b ≡ true) ↔ (a ≡ b)
same_key_iff a b = ground (arith, eq_iff a.task_id b.task_id, eq_iff a.file_path b.file_path)

instance abbrev pub key_eq : Eq Key
key_eq = record { beq = same_key; beq_iff = same_key_iff }

-- a row without its key and its timestamps of creation and update
pub record Row : Type 0 where
  pub id : ℕ
  pub file_size : ℕ
  pub file_hash : String
  pub status : Status
  pub claimed_by : String
  pub claimed_at : ℕ
  pub claim_expires_at : Option ℕ
  pub instance_id : String
  pub retry_count : ℕ
  pub error_type : Option String
  pub error_message : Option String
  pub row_count : ℕ
  pub valid_row_count : ℕ
  pub processing_time_ms : Option ℕ
  pub archive_path : Option String
  pub processed_at : Option ℕ

-- `next_id` is the AUTO_INCREMENT counter
pub record Db : Type 0 where
  pub rows : Dict Key Row
  pub next_id : ℕ

abbrev pub find : Key → Db → Option Row
find k db = get k db.rows

-- What a MySQL server and its driver fix: whether a later assignment of one UPDATE sees what an
-- earlier one wrote, as MySQL documents, and whether the driver sets CLIENT_FOUND_ROWS, so that a
-- row that is set to its current values counts as one.
pub record Engine : Type 0 where
  pub left_to_right : Bool
  pub found_rows : Bool

-- `Repository.__init__`
pub record Instance : Type 0 where
  pub instance_id : String
  pub claim_timeout : ℕ

-- DEFAULT_CLAIM_TIMEOUT_SECONDS
abbrev pub default_claim_timeout : ℕ
default_claim_timeout = 600

abbrev pub same_status : Status → Status → Bool
same_status pending pending = true
same_status claimed claimed = true
same_status processing processing = true
same_status success success = true
same_status failed failed = true
same_status skipped skipped = true
same_status _ _ = false

abbrev pub before : Option ℕ → ℕ → Bool
before none now = false
before (some t) now = ltb t now

-- the condition that the four assignments share
unfoldable pub may_claim : ℕ → ℕ → Row → Bool
may_claim max_retries now r =
    same_status r.status failed && ltb r.retry_count max_retries
    || (same_status r.status claimed || same_status r.status processing)
      && before r.claim_expires_at now

-- ON DUPLICATE KEY UPDATE: the four assignments in the order of the statement, each reading its
-- condition from the row that the earlier ones left
unfoldable pub assign_in_order : Instance → ℕ → ℕ → Row → Row
assign_in_order i max_retries now r =
    let r1 = if may_claim max_retries now r then record r { status = claimed } else r in
    let r2 =
      if may_claim max_retries now r1 then record r1 { claimed_by = i.instance_id } else r1 in
    let r3 = if may_claim max_retries now r2 then record r2 { claimed_at = now } else r2 in
    if may_claim max_retries now r3
    then record r3 { claim_expires_at = some (now + i.claim_timeout) }
    else r3

-- the same assignments, all reading the row as it was
unfoldable pub assign_at_once : Instance → ℕ → ℕ → Row → Row
assign_at_once i max_retries now r =
    if may_claim max_retries now r
    then record r {
      status = claimed;
      claimed_by = i.instance_id;
      claimed_at = now;
      claim_expires_at = some (now + i.claim_timeout);
    }
    else r

unfoldable pub assign : Engine → Instance → ℕ → ℕ → Row → Row
unfolding assign_in_order assign_at_once
assign e i max_retries now r =
    if e.left_to_right
    then assign_in_order i max_retries now r
    else assign_at_once i max_retries now r

abbrev same_time : Option ℕ → Option ℕ → Bool
same_time none none = true
same_time (some a) (some b) = a == b
same_time _ _ = false

-- no column of the statement has another value
unfoldable pub unchanged : Row → Row → Bool
unchanged r r' =
    same_status r.status r'.status
    && r.claimed_by == r'.claimed_by
    && r.claimed_at == r'.claimed_at
    && same_time r.claim_expires_at r'.claim_expires_at

-- the INSERT: the columns it names, and the defaults of the others
unfoldable pub new_row : Instance → FileRef → ℕ → ℕ → Row
new_row i ref now id = record {
  id = id;
  file_size = ref.file_size;
  file_hash = ref.file_hash;
  status = claimed;
  claimed_by = i.instance_id;
  claimed_at = now;
  claim_expires_at = some (now + i.claim_timeout);
  instance_id = i.instance_id;
  retry_count = 0;
  error_type = none;
  error_message = none;
  row_count = 0;
  valid_row_count = 0;
  processing_time_ms = none;
  archive_path = none;
  processed_at = none;
}

abbrev pub key_of : FileRef → Key
key_of ref = record {
  task_id = ref.task_id;
  file_path = ref.file_path;
  file_mtime = ref.file_mtime;
}

-- the affected rows of the upsert, and the table after it
unfoldable pub upsert : Engine → Instance → FileRef → ℕ → ℕ → Option Row → Db → ℕ × Db
unfolding new_row assign unchanged
upsert e i ref max_retries now none db = (
  1,
  record {
    rows = put (key_of ref) (new_row i ref now db.next_id) db.rows;
    next_id = db.next_id + 1;
  },
)
upsert e i ref max_retries now (some r) db =
    let r' = assign e i max_retries now r in
    (
      if unchanged r r' then (if e.found_rows then 1 else 0) else 2,
      record db { rows = put (key_of ref) r' db.rows },
    )

-- `result.rowcount in (1, 2)`
unfoldable pub try_claim : Engine → Instance → FileRef → ℕ → ℕ → Db → Bool × Db
unfolding upsert
try_claim e i ref max_retries now db =
    let (n, db') = upsert e i ref max_retries now (find (key_of ref) db) db in
    (n == 1 || n == 2, db')

-- UPDATE … WHERE the key and a further condition hold: whether a row was found, and the table
update_found : Key → (Row → Bool) → (Row → Row) → Db → Option Row → Bool × Db
update_found k test f db none = (false, db)
update_found k test f db (some r) =
    if test r then (true, record db { rows = put k (f r) db.rows }) else (false, db)

unfoldable pub update_where : Key → (Row → Bool) → (Row → Row) → Db → Bool × Db
unfolding update_found
update_where k test f db = update_found k test f db (find k db)

abbrev pub any_row : Row → Bool
any_row _ = true

unfoldable pub mark_processing : Instance → Key → Db → Bool × Db
unfolding update_where
mark_processing i k =
    update_where k (λ r. r.claimed_by == i.instance_id && same_status r.status claimed)
      (λ r. record r { status = processing })

abbrev id_of : Option Row → ℕ → ℕ
id_of none last_id = last_id
id_of (some r) _ = r.id

-- LAST_INSERT_ID() keeps the value of the connection's last statement where no row is found
unfoldable pub mark_success : ℕ → Key → ℕ → ℕ → ℕ → ℕ → Db → ℕ × Db
unfolding update_where
mark_success last_id k row_count valid_count elapsed_ms now db =
    let (_, db') =
      update_where k any_row
        (λ r. record r {
          status = success;
          processed_at = some now;
          row_count = row_count;
          valid_row_count = valid_count;
          processing_time_ms = some elapsed_ms;
        })
        db in
    (id_of (find k db) last_id, db')

abbrev retry_of : Option Row → ℕ
retry_of none = 1
retry_of (some r) = r.retry_count

unfoldable pub mark_failed : Key → String → String → Db → ℕ × Db
unfolding update_where
mark_failed k error_type error_msg db =
    let (found, db') =
      update_where k any_row
        (λ r. record r {
          status = failed;
          error_type = some error_type;
          error_message = some error_msg;
          retry_count = r.retry_count + 1;
          claim_expires_at = none;
        })
        db in
    (if found then retry_of (find k db') else 1, db')

unfoldable pub mark_skipped : Key → String → Db → Db
unfolding update_where
mark_skipped k reason db =
    (update_where k any_row (λ r. record r { status = skipped; error_message = some reason }) db).1

unfoldable pub mark_archived : Key → String → Db → Db
unfolding update_where
mark_archived k archive_path db =
    (update_where k (λ r. same_status r.status success)
      (λ r. record r { archive_path = some archive_path }) db).1

abbrev status_of : Option Row → Option Status
status_of none = none
status_of (some r) = some r.status

unfoldable pub get_status : Key → Db → Option Status
get_status k db = status_of (find k db)

abbrev count_of : Option Row → ℕ
count_of none = 0
count_of (some r) = r.retry_count

-- `get_retry_count` with a file_mtime
unfoldable pub get_retry_count : Key → Db → ℕ
get_retry_count k db = count_of (find k db)

-- ORDER BY file_mtime DESC LIMIT 1, over the rows of a task's path: the entry to keep
abbrev newer : Key × Row → Option (Key × Row) → Option (Key × Row)
newer e none = some e
newer e (some best) = if ltb (Key.file_mtime best.0) (Key.file_mtime e.0) then some e else some best

newest : String → String → Dict Key Row → Option (Key × Row)
newest tid path [] = none
newest tid path ((k, r) ∷ rows) =
    let best = newest tid path rows in
    if k.task_id == tid && k.file_path == path then newer (k, r) best else best

abbrev entry_count : Option (Key × Row) → ℕ
entry_count none = 0
entry_count (some e) = Row.retry_count e.1

-- `get_retry_count` without a file_mtime
unfoldable pub get_latest_retry_count : String → String → Db → ℕ
unfolding newest
get_latest_retry_count tid path db = entry_count (newest tid path db.rows)
