-- ===== src/Web/Login.antt =====
-- `_check_login_rate` and `login` of src/web/api/system.py, over the same users.
pub mod Rate
pub mod Logins
mod Tests
use tdcs.Prelude.{
  ℕ, ◌+◌, ◌-◌, String, Option, none, some, List, [], ◌∷◌, ◌++◌, length, keep, Bool, true, false,
  not, ◌||◌, ltb, leb, ◌==◌, if◌then◌else◌,
}
use tdcs.Prelude.Dict.{Dict, get, put, or_else}
use tdcs.Prelude.Text.{Text, codes_eq}
use tdcs.Web.{Reply, ok, error, Payload, token_payload}
use tdcs.Web.Users.{User, Db, Calls, strip, update_user}

-- `_login_attempts`: the times of the attempts of each address, oldest first
abbrev pub Attempts : Type 0
Attempts = Dict Text (List ℕ)

abbrev pub login_rate_limit : ℕ
login_rate_limit = 5

abbrev pub login_rate_window : ℕ
login_rate_window = 60

abbrev pub recent_attempts : Text → ℕ → Attempts → List ℕ
recent_attempts ip now s = keep (λ t. ltb (now - t) login_rate_window) (or_else (get ip s) [])

-- `_check_login_rate`; `now` is what `time.time()` reads, in whole seconds
unfoldable pub check_login_rate : Text → ℕ → Attempts → Bool × Attempts
check_login_rate ip now s =
    if leb login_rate_limit (length (recent_attempts ip now s))
    then (false, s)
    else (true, put ip (recent_attempts ip now s ++ now ∷ []) s)

-- the first row that the SELECT by name gives
unfoldable pub find_name : (Text → Text → Bool) → Text → Dict ℕ User → Option (ℕ × User)
find_name same_name name [] = none
find_name same_name name ((id, u) ∷ rows) =
    let rest = find_name same_name name rows in
    if same_name u.username name then some (id, u) else rest

-- what `login` answers with: the payload that it signs
abbrev pub LoggedIn : Type 0
LoggedIn = Reply Payload × Db

abbrev pub limited : Bool × Attempts → LoggedIn → Db → LoggedIn × Attempts
limited (false, s) logged db = ((error "RATE_LIMITED" 429, db), s)
limited (true, s) logged db = (logged, s)

module _ (checkpw : Text → String → Bool) where
  abbrev pub login_found : ℕ → ℕ → Text → Text → Option (ℕ × User) → Db → LoggedIn
  login_found now expire_hours username password none db = (error "INVALID_CREDENTIALS" 401, db)
  login_found now expire_hours username password (some (id, u)) db =
      if not u.enabled
      then (error "INVALID_CREDENTIALS" 401, db)
      else if checkpw password u.password_hash
      then (
        ok 200 (token_payload id username u.role expire_hours now),
        update_user id (λ v. record v { last_login = some now }) db,
      )
      else (error "INVALID_CREDENTIALS" 401, db)

  -- `login` behind the limit on its rate
  unfoldable pub login_allowed : Calls → ℕ → Text → Text → Db → LoggedIn
  unfolding find_name
  login_allowed calls expire_hours name password db =
      let username = strip name in
      if username == [] || password == []
      then (error "INVALID_INPUT" 400, db)
      else if calls.db
      then login_found calls.now expire_hours username password
          (find_name calls.same_name username db.users) db
      else (error "DB_UNAVAILABLE" 503, db)

  unfoldable pub login : Calls → ℕ → Text → Text → Text → Attempts → Db → LoggedIn × Attempts
  unfolding login_allowed
  login calls expire_hours ip name password s db =
      limited (check_login_rate ip calls.now s) (login_allowed calls expire_hours name password db)
        db
