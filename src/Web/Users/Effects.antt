-- ===== src/Web/Users/Effects.antt =====
-- What each handler may do to the table of users, whatever it answers.
use tdcs.Prelude.{
  ℕ, ◌+◌, String, ◌≡◌, refl, Option, none, some, [], ◌∷◌, length, Bool, true, false, not, ◌&&◌,
  ◌||◌, ltb, ◌==◌, number_eq, text_eq, if◌then◌else◌,
}
use tdcs.Prelude.Dict.{Dict, get, put}
use tdcs.Prelude.Text.{Text, codes_eq}
use tdcs.Web.{Payload}
use tdcs.Web.Users.{
  User, Db, Calls, Handled, Request, get_me_route, list_route, create_route, delete_route,
  password_route, role_route, min_role, handle, get_me, list_users, create_user, insert_user,
  delete_user, change_password, change_role, audit, update_user, found_me, own_password,
  any_password, delete_found, role_found, strip, is_username, is_valid_role, has_name,
}

-- the users and the counter, without the log
abbrev pub table : Db → Dict ℕ User × ℕ
table db = (db.users, db.next_id)

abbrev pub rehash : String → User → User
rehash h u = record u { password_hash = h }

abbrev pub disable : User → User
disable u = record u { enabled = false }

abbrev pub with_role : String → User → User
with_role role u = record u { role = role }

-- `level` is the role that the route asks for.
pub data Effect (level : String) (me : Payload) (db : Db) (db' : Db) : Type 0 where
  nothing : table db' ≡ table db → Effect level me db db'
  rehashed :
      (id : ℕ) (h : String)
      → table db' ≡ table (update_user id (rehash h) db)
      → Effect level me db db'
  disabled :
      (id : ℕ)
      → level ≡ "admin"
      → (id == me.sub) ≡ false
      → table db' ≡ table (update_user id disable db)
      → Effect level me db db'
  promoted :
      (id : ℕ) (role : String)
      → level ≡ "admin"
      → (id == me.sub) ≡ false
      → table db' ≡ table (update_user id (with_role role) db)
      → Effect level me db db'
  inserted :
      (u : User)
      → level ≡ "admin"
      → table db' ≡ (put db.next_id u db.users, db.next_id + 1)
      → Effect level me db db'

pub table-audit :
    (calls : Calls) (me : Payload) (action : String) (target : ℕ) (db : Db)
    → table (audit calls me action target db) ≡ table db
unfolding audit
table-audit calls me action target db = by_test calls.audit_fails
  where
    by_test :
        (b : Bool)
        → table (
            if b then db else record db {
              audit_log =
                  record {
                    user_id = me.sub;
                    username = me.username;
                    action = action;
                    target = target;
                  }
                  ∷ db.audit_log;
            })
          ≡ table db
    by_test true = refl
    by_test false = refl

module _ (hashpw : Text → String) (checkpw : Text → String → Bool) (calls : Calls) (me : Payload)
    (db : Db) where
  abbrev Allowed : String → Handled → Type 0
  Allowed level h = Effect level me db h.1

  -- whichever branch is taken
  branch :
      {level : String} (b : Bool) (x y : Handled)
      → (b ≡ true → Allowed level x)
      → (b ≡ false → Allowed level y)
      → Allowed level (if b then x else y)
  branch true x y hx hy = hx refl
  branch false x y hx hy = hy refl

  pub handle-Effect :
      (request : Request) → Allowed (min_role request) (handle hashpw checkpw calls request me db)
  unfolding get_me list_users create_user insert_user delete_user change_password change_role
  handle-Effect get_me_route =
      branch calls.db _ _ (λ h. by_row (get me.sub db.users)) (λ h. nothing refl)
    where
      by_row : (o : Option User) → Allowed "viewer" (found_me me.sub o db)
      by_row none = nothing refl
      by_row (some u) = nothing refl
  handle-Effect list_route = branch calls.db _ _ (λ h. nothing refl) (λ h. nothing refl)
  handle-Effect (create_route name password role) =
      branch (strip name == []) _ _ (λ h. nothing refl)
        (λ h.
          branch (not (is_username (strip name))) _ _ (λ h. nothing refl)
            (λ h.
              branch (ltb (length password) 6) _ _ (λ h. nothing refl)
                (λ h.
                  branch (not (is_valid_role role)) _ _ (λ h. nothing refl)
                    (λ h.
                      branch calls.db _ _
                        (λ h.
                          branch (has_name calls (strip name) db) _ _ (λ h. nothing refl)
                            (λ h.
                              branch calls.insert_fails _ _ (λ h. nothing refl)
                                (λ h.
                                  inserted _ refl
                                    (table-audit calls me "user.create" db.next_id _))))
                        (λ h. nothing refl)))))
  handle-Effect (delete_route id) =
      branch (id == me.sub) _ _ (λ h. nothing refl)
        (λ other. branch calls.db _ _ (λ h. by_row other (get id db.users)) (λ h. nothing refl))
    where
      by_row :
          (id == me.sub) ≡ false
          → (o : Option User) → Allowed "admin" (delete_found calls me id o db)
      by_row other none = nothing refl
      by_row other (some u) = disabled id refl other (table-audit calls me "user.delete" id _)
  handle-Effect (role_route id role) =
      branch (id == me.sub) _ _ (λ h. nothing refl)
        (λ other.
          branch (not (is_valid_role role)) _ _ (λ h. nothing refl)
            (λ h. branch calls.db _ _ (λ h. by_row other (get id db.users)) (λ h. nothing refl)))
    where
      by_row :
          (id == me.sub) ≡ false
          → (o : Option User) → Allowed "admin" (role_found calls me id role o db)
      by_row other none = nothing refl
      by_row other (some u) =
          branch (calls.found_rows || not (u.role == role)) _ _
            (λ h. promoted id role refl other (table-audit calls me "user.role_change" id _))
            (λ h. nothing refl)
  handle-Effect (password_route id old_pw new_pw) =
      branch (not (me.role == "admin") && not (id == me.sub)) _ _ (λ h. nothing refl)
        (λ h.
          branch (ltb (length new_pw) 6) _ _ (λ h. nothing refl)
            (λ h.
              branch (ltb 72 (length new_pw)) _ _ (λ h. nothing refl)
                (λ h.
                  branch (not calls.db) _ _ (λ h. nothing refl)
                    (λ h.
                      branch (me.role == "admin") _ _ (λ h. by_admin (get id db.users))
                        (λ h. by_owner (get id db.users))))))
    where
      by_admin :
          (o : Option User) → Allowed "viewer" (any_password hashpw checkpw calls me id new_pw o db)
      by_admin none = nothing refl
      by_admin (some u) =
          rehashed id (hashpw new_pw) (table-audit calls me "user.password_change" id _)

      by_owner :
          (o : Option User)
          → Allowed "viewer" (own_password hashpw checkpw calls me id old_pw new_pw o db)
      by_owner none = nothing refl
      by_owner (some u) =
          branch (not u.enabled) _ _ (λ h. nothing refl)
            (λ h.
              branch (checkpw old_pw u.password_hash) _ _
                (λ h.
                  rehashed id (hashpw new_pw) (table-audit calls me "user.password_change" id _))
                (λ h. nothing refl))
