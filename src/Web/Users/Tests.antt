-- ===== src/Web/Users/Tests.antt =====
-- Witnesses of the theorems on users: two administrators and an operator.
use tdcs.Prelude.{
  ℕ, String, ◌≡◌, refl, ap, sym, ◌∙◌, none, [], ◌∷◌, ◌++◌, Bool, true, false, ◌==◌, number_eq,
  if◌then◌else◌, arith, text_eq,
}
use tdcs.Prelude.Dict.{get}
use tdcs.Prelude.Text.{Text, codes, codes_eq, strip_prefix, same_text}
use tdcs.Web.{Payload, Decoded, valid, invalid_token}
use tdcs.Web.Users.{User, Db, Calls, serve, delete_route, change_password}
use tdcs.Web.Users.Admins.{HasAdmin, Fresh}
use tdcs.Web.Users.Sessions.{here, next, IsCurrent, Reach-HasAdmin}
use tdcs.Web.Users.Tokens.{
  PasswordChange, change_password-PasswordChange, IsDeleted, crossed_deletes,
}

abbrev user : String → String → User
user name role = record {
  username = codes name;
  password_hash = name;
  role = role;
  enabled = true;
  last_login = none;
  created_at = 5;
}

abbrev db : Db
db = record {
  users = (1, user "ann" "admin") ∷ (2, user "bob" "admin") ∷ (3, user "cid" "operator") ∷ [];
  next_id = 4;
  audit_log = [];
}

abbrev calls : Calls
calls = record {
  db = true;
  audit_fails = false;
  insert_fails = false;
  found_rows = true;
  same_name = λ s t. s == t;
  now = 10;
}

abbrev payload : ℕ → String → String → Payload
payload id name role = record { sub = id; username = codes name; role = role; iat = 1; exp = 90 }

-- the tokens are "1" and "2"
abbrev decode : Text → Decoded
decode t =
    if t == codes "1"
    then valid (payload 1 "ann" "admin")
    else if t == codes "2"
    then valid (payload 2 "bob" "admin")
    else invalid_token

abbrev hashpw : Text → String
hashpw password = "h"

abbrev checkpw : Text → String → Bool
checkpw password hash = hash == "cid"

abbrev cid : Payload
cid = payload 3 "cid" "operator"

change_password-PasswordChange_example :
    PasswordChange hashpw checkpw calls cid db 3
      (codes "old")
      (codes "secret!")
      (change_password hashpw checkpw calls cid 3 (codes "old") (codes "secret!") db)
change_password-PasswordChange_example =
    change_password-PasswordChange hashpw checkpw calls cid db 3 (codes "old") (codes "secret!")

crossed_deletes_example :
    let db1 =
      (serve hashpw checkpw decode calls (codes "Bearer " ++ codes "1") (delete_route 2) db).1 in
    let db2 =
      (serve hashpw checkpw decode calls (codes "Bearer " ++ codes "2") (delete_route 1) db1).1 in
    IsDeleted hashpw checkpw decode 1 db2 × IsDeleted hashpw checkpw decode 2 db2
unfolding get same_text
crossed_deletes_example =
    crossed_deletes hashpw checkpw decode calls calls (codes "1") (codes "2")
      (payload 1 "ann" "admin") (payload 2 "bob" "admin") (user "ann" "admin") (user "bob" "admin")
      db refl refl refl refl refl refl (λ e. omega (arith, e)) refl refl

db-Fresh : Fresh db
unfolding get
db-Fresh id h = ground (arith, h)

db-HasAdmin : HasAdmin db
unfolding get
db-HasAdmin = (1, (user "ann" "admin", refl, (refl, refl)))

abbrev ann_header : Text
ann_header = codes "Bearer " ++ codes "1"

abbrev sub_of : Decoded → ℕ
sub_of (valid me) = me.sub
sub_of _ = 0

ann-IsCurrent : IsCurrent hashpw checkpw decode ann_header db
unfolding strip_prefix get same_text
ann-IsCurrent me (token, e, f) admin =
    let is_token : codes "1" ≡ token = cc in
    let is_ann : 1 ≡ me.sub = ap (λ t. sub_of (decode t)) is_token ∙ ap sub_of f in
    (user "ann" "admin", ap (λ id. get id db.users) (sym is_ann), (refl, refl))

Reach-HasAdmin_example :
    HasAdmin (serve hashpw checkpw decode calls ann_header (delete_route 2) db).1
Reach-HasAdmin_example =
    Reach-HasAdmin hashpw checkpw decode db-Fresh db-HasAdmin
      (next calls ann_header (delete_route 2) here ann-IsCurrent)
