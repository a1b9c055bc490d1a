-- ===== src/Web/Login/Tests.antt =====
-- Witnesses of the theorems on logins.
use tdcs.Prelude.{
  ℕ, ◌+◌, ◌≤◌, String, ◌≡◌, ◌⊎◌, none, List, [], ◌∷◌, count, Bool, true, false, ◌&&◌, ltb, leb,
  ◌==◌, arith, text_eq,
}
use tdcs.Prelude.Text.{Text, codes, codes_eq}
use tdcs.Web.{error}
use tdcs.Web.Users.{User, Db, Calls}
use tdcs.Web.Login.{check_login_rate, login, login_rate_limit, login_rate_window}
use tdcs.Web.Login.Rate.{passes, passes_bounded}
use tdcs.Web.Login.Logins.{Refused, Granted, login-Outcome}

abbrev calls : Calls
calls = record {
  db = true;
  audit_fails = false;
  insert_fails = false;
  found_rows = true;
  same_name = λ s t. s == t;
  now = 100;
}

abbrev ann : User
ann = record {
  username = codes "ann";
  password_hash = "h";
  role = "admin";
  enabled = true;
  last_login = none;
  created_at = 5;
}

abbrev db : Db
db = record { users = (1, ann) ∷ []; next_id = 2; audit_log = [] }

abbrev checkpw : Text → String → Bool
checkpw password hash = hash == "h"

login-Outcome_example :
    let (l, s') = login checkpw calls 8 (codes "10.0.0.1") (codes " ann ") (codes "pw") [] db in
    (s' ≡ (check_login_rate (codes "10.0.0.1") calls.now []).1)
    × ((check_login_rate (codes "10.0.0.1") calls.now []).0 ≡ false
        → l ≡ (error "RATE_LIMITED" 429, db))
    × (Refused checkpw calls 8 (codes " ann ") (codes "pw") db l
        ⊎ Granted checkpw calls 8 (codes " ann ") (codes "pw") db l)
login-Outcome_example =
    login-Outcome checkpw calls 8 (codes " ann ") (codes "pw") db (codes "10.0.0.1") []

abbrev three_calls : List (Text × ℕ)
three_calls = (codes "a", 9) ∷ (codes "b", 7) ∷ (codes "a", 6) ∷ []

passes_bounded_example :
    count (λ t. leb 0 t && ltb t (0 + login_rate_window)) (passes (codes "a") three_calls)
    ≤ login_rate_limit
passes_bounded_example =
    passes_bounded (codes "a") three_calls 0
      ((omega arith, (omega arith, tt)), ((omega arith, tt), (tt, tt)))
