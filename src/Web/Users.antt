-- ===== src/Web/Users.antt =====
-- The handlers of src/web/api/users.py over the table `users` and the audit log. What bcrypt
-- computes and which calls on the database raise come from outside.
pub mod Effects
pub mod Admins
pub mod Sessions
pub mod Tokens
mod Tests
use tdcs.Prelude.{
  ℕ, ◌+◌, String, Option, none, some, List, [], ◌∷◌, ◌++◌, length, map, keep, any, all, Bool, true,
  false, not, ◌&&◌, ◌||◌, ltb, leb, ◌==◌, number_eq, text_eq, if◌then◌else◌,
}
use tdcs.Prelude.Dict.{Dict, get, put}
use tdcs.Prelude.Text.{Text, codes_eq}
use tdcs.Etl.Router.{is_space}
use tdcs.Web.{Reply, ok, error, Payload, Decoded, require_auth}

pub record User : Type 0 where
  pub username : Text
  pub password_hash : String
  pub role : String
  pub enabled : Bool
  pub last_login : Option ℕ
  pub created_at : ℕ

-- a row of audit_log without its address and detail
pub record Audit : Type 0 where
  pub user_id : ℕ
  pub username : Text
  pub action : String
  pub target : ℕ

-- the users by id, the AUTO_INCREMENT counter and the audit log, newest first
pub record Db : Type 0 where
  pub users : Dict ℕ User
  pub next_id : ℕ
  pub audit_log : List Audit

-- `str.strip`
unfoldable pub lstrip : Text → Text
lstrip [] = []
lstrip (c ∷ s) = if is_space c then lstrip s else c ∷ s

unfoldable pub rstrip : Text → Text
rstrip [] = []
rstrip (c ∷ s) = let rest = rstrip s in if is_space c && rest == [] then [] else c ∷ rest

abbrev pub strip : Text → Text
strip s = rstrip (lstrip s)

-- `[a-zA-Z0-9_-]`
abbrev pub is_name_char : ℕ → Bool
is_name_char c =
    leb 97 c && leb c 122
    || (leb 65 c && leb c 90 || (leb 48 c && leb c 57 || (c == 95 || c == 45)))

-- `_USERNAME_RE.match` on a text without a newline at its end, as a stripped one is
unfoldable pub is_username : Text → Bool
is_username s = all is_name_char s && (leb 3 (length s) && leb (length s) 32)

-- `role in _VALID_ROLES`
abbrev pub is_valid_role : String → Bool
is_valid_role role = role == "admin" || (role == "operator" || role == "viewer")

-- whether `app.config` has a database, whether an audit row fails to be written, and whether the
-- INSERT of a user fails for another reason than its name; whether the driver counts a row that is
-- set to its own values, and which names are equal in the collation of the table
pub record Calls : Type 0 where
  pub db : Bool
  pub audit_fails : Bool
  pub insert_fails : Bool
  pub found_rows : Bool
  pub same_name : Text → Text → Bool
  pub now : ℕ

-- what the handlers answer with
pub data Answer : Type 0 where
  status_ok : Answer
  claims : ℕ → Text → String → Answer
  row : ℕ → User → Answer
  rows : List (ℕ × User) → Answer
  created : ℕ → Text → String → Answer
  deleted : ℕ → Answer
  new_role : String → Answer

abbrev pub Handled : Type 0
Handled = Reply Answer × Db

-- `_audit`
unfoldable pub audit : Calls → Payload → String → ℕ → Db → Db
audit calls me action target db = if calls.audit_fails then db else record db {
  audit_log =
      record { user_id = me.sub; username = me.username; action = action; target = target }
      ∷ db.audit_log;
}

abbrev pub found_me : ℕ → Option User → Db → Handled
found_me id none db = (error "USER_NOT_FOUND" 404, db)
found_me id (some user) db = (ok 200 (row id user), db)

unfoldable pub get_me : Calls → Payload → Db → Handled
get_me calls me db =
    if calls.db
    then found_me me.sub (get me.sub db.users) db
    else (ok 200 (claims me.sub me.username me.role), db)

-- the ids grow with the insertions, so the dict is in the order of `id`
unfoldable pub list_users : Calls → Payload → Db → Handled
list_users calls me db =
    if calls.db
    then (ok 200 (rows (keep (λ r. User.enabled r.1) db.users)), db)
    else (error "DB_UNAVAILABLE" 503, db)

-- `UPDATE users SET … WHERE id=:id`
abbrev pub update_found : ℕ → (User → User) → Option User → Db → Db
update_found id change none db = db
update_found id change (some user) db = record db { users = put id (change user) db.users }

unfoldable pub update_user : ℕ → (User → User) → Db → Db
update_user id change db = update_found id change (get id db.users) db

-- the unique key on `username`
abbrev pub has_name : Calls → Text → Db → Bool
has_name calls name db = any (λ r. calls.same_name (User.username r.1) name) db.users

module _ (hashpw : Text → String) (checkpw : Text → String → Bool) where
  unfoldable pub insert_user : Calls → Payload → Text → Text → String → Db → Handled
  unfolding audit
  insert_user calls me username password role db =
      if has_name calls username db
      then (error "USERNAME_EXISTS" 409, db)
      else if calls.insert_fails
      then (error "DB_ERROR" 500, db)
      else (let id = db.next_id in
          let user : User = record {
            username = username;
            password_hash = hashpw password;
            role = role;
            enabled = true;
            last_login = none;
            created_at = calls.now;
          } in
          let db' = record db { users = put id user db.users; next_id = id + 1 } in
          (ok 201 (created id username role), audit calls me "user.create" id db'))

  -- `name` and `password` as the JSON has them, `none` for a missing or empty one; `role` stripped
  unfoldable pub create_user : Calls → Payload → Text → Text → String → Db → Handled
  unfolding lstrip rstrip is_username insert_user
  create_user calls me name password role db =
      let username = strip name in
      if username == []
      then (error "VALIDATION_ERROR" 400, db)
      else if not (is_username username)
      then (error "VALIDATION_ERROR" 400, db)
      else if ltb (length password) 6
      then (error "VALIDATION_ERROR" 400, db)
      else if not (is_valid_role role)
      then (error "VALIDATION_ERROR" 400, db)
      else if calls.db
      then insert_user calls me username password role db
      else (error "DB_UNAVAILABLE" 503, db)

  abbrev pub own_password : Calls → Payload → ℕ → Text → Text → Option User → Db → Handled
  own_password calls me id old_pw new_pw none db = (error "USER_NOT_FOUND" 404, db)
  own_password calls me id old_pw new_pw (some user) db =
      if not user.enabled
      then (error "USER_NOT_FOUND" 404, db)
      else if checkpw old_pw user.password_hash
      then (
        ok 200 status_ok,
        audit calls me "user.password_change" id
            (update_user id (λ u. record u { password_hash = hashpw new_pw }) db),
      )
      else (error "WRONG_PASSWORD" 401, db)

  -- `UPDATE users SET password_hash=… WHERE id=:id` and its rowcount
  abbrev pub any_password : Calls → Payload → ℕ → Text → Option User → Db → Handled
  any_password calls me id new_pw none db = (error "USER_NOT_FOUND" 404, db)
  any_password calls me id new_pw (some user) db = (
    ok 200 status_ok,
    audit calls me "user.password_change" id
        (update_user id (λ u. record u { password_hash = hashpw new_pw }) db),
  )

  unfoldable pub change_password : Calls → Payload → ℕ → Text → Text → Db → Handled
  change_password calls me id old_pw new_pw db =
      if not (me.role == "admin") && not (id == me.sub)
      then (error "FORBIDDEN" 403, db)
      else if ltb (length new_pw) 6
      then (error "VALIDATION_ERROR" 400, db)
      else if ltb 72 (length new_pw)
      then (error "VALIDATION_ERROR" 400, db)
      else if not calls.db
      then (error "DB_UNAVAILABLE" 503, db)
      else if me.role == "admin"
      then any_password calls me id new_pw (get id db.users) db
      else own_password calls me id old_pw new_pw (get id db.users) db

abbrev pub delete_found : Calls → Payload → ℕ → Option User → Db → Handled
delete_found calls me id none db = (error "USER_NOT_FOUND" 404, db)
delete_found calls me id (some user) db = (
  ok 200 (deleted id),
  audit calls me "user.delete" id (update_user id (λ u. record u { enabled = false }) db),
)

unfoldable pub delete_user : Calls → Payload → ℕ → Db → Handled
delete_user calls me id db =
    if id == me.sub
    then (error "CANNOT_DELETE_SELF" 400, db)
    else if calls.db
    then delete_found calls me id (get id db.users) db
    else (error "DB_UNAVAILABLE" 503, db)

abbrev pub role_found : Calls → Payload → ℕ → String → Option User → Db → Handled
role_found calls me id role none db = (error "USER_NOT_FOUND" 404, db)
role_found calls me id role (some user) db =
    if calls.found_rows || not (user.role == role)
    then (
      ok 200 (new_role role),
      audit calls me "user.role_change" id (update_user id (λ u. record u { role = role }) db),
    )
    else (error "USER_NOT_FOUND" 404, db)

unfoldable pub change_role : Calls → Payload → ℕ → String → Db → Handled
change_role calls me id role db =
    if id == me.sub
    then (error "CANNOT_CHANGE_SELF_ROLE" 400, db)
    else if not (is_valid_role role)
    then (error "VALIDATION_ERROR" 400, db)
    else if calls.db
    then role_found calls me id role (get id db.users) db
    else (error "DB_UNAVAILABLE" 503, db)

-- the routes of the blueprint, with what the handlers read from the request
pub data Request : Type 0 where
  get_me_route list_route : Request
  create_route : Text → Text → String → Request
  delete_route : ℕ → Request
  password_route : ℕ → Text → Text → Request
  role_route : ℕ → String → Request

-- the argument of `require_auth`
abbrev pub min_role : Request → String
min_role get_me_route = "viewer"
min_role list_route = "admin"
min_role (create_route name password role) = "admin"
min_role (delete_route id) = "admin"
min_role (password_route id old_pw new_pw) = "viewer"
min_role (role_route id role) = "admin"

module _ (hashpw : Text → String) (checkpw : Text → String → Bool) where
  abbrev pub handle : Calls → Request → Payload → Db → Handled
  handle calls get_me_route me db = get_me calls me db
  handle calls list_route me db = list_users calls me db
  handle calls (create_route name password role) me db =
      create_user hashpw checkpw calls me name password role db
  handle calls (delete_route id) me db = delete_user calls me id db
  handle calls (password_route id old_pw new_pw) me db =
      change_password hashpw checkpw calls me id old_pw new_pw db
  handle calls (role_route id role) me db = change_role calls me id role db

  -- one request, with the text of its header
  abbrev pub serve : (Text → Decoded) → Calls → Text → Request → Db → Handled
  serve decode calls header request db =
      require_auth decode (min_role request) header (handle calls request) db
