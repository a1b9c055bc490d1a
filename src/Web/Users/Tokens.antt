-- ===== src/Web/Users/Tokens.antt =====
-- What a token allows: whose password it changes, and what it still does when its user is deleted.
use tdcs.Prelude.{
  ℕ, ◌≤◌, String, ◌≡◌, refl, ap, ◌∙◌, ◌⊎◌, ◌++◌, ◌≢◌, Option, none, some, Bool, true, false, not,
  ◌&&◌, ltb, length, ◌==◌, number_eq, text_eq, eq_iff, eqb_iff, if◌then◌else◌, arith, inl, inr,
}
use tdcs.Prelude.Dict.{get}
use tdcs.Prelude.Text.{Text, codes, strip_prefix}
use tdcs.Web.{Payload, Decoded, valid, require_auth, role_level}
use tdcs.Web.Users.{
  User, Db, Calls, Handled, delete_route, serve, change_password, own_password, any_password,
  delete_user, update_user, audit,
}
use tdcs.Web.Users.Effects.{table, rehash, disable, table-audit}
use tdcs.Web.Users.Admins.{get-update_user}

module _ (hashpw : Text → String) (checkpw : Text → String → Bool) (calls : Calls) (me : Payload)
    (db : Db) (id : ℕ) (old_pw new_pw : Text) where
  -- An administrator, or the user, whose account is enabled and whose old password is the given one.
  abbrev pub MayChange : Type 0
  MayChange =
      (me.role ≡ "admin")
      ⊎ ((id ≡ me.sub)
          × ((u : User) × (get id db.users ≡ some u)
              × (u.enabled ≡ true)
              × (checkpw old_pw u.password_hash ≡ true)))

  abbrev pub PasswordChange : Handled → Type 0
  PasswordChange h =
      (table h.1 ≡ table db)
      ⊎ (MayChange
          × ((6 ≤ length new_pw) × (length new_pw ≤ 72))
          × (table h.1 ≡ table (update_user id (rehash (hashpw new_pw)) db)))

  branch :
      (b : Bool) (x y : Handled)
      → (b ≡ true → PasswordChange x)
      → (b ≡ false → PasswordChange y)
      → PasswordChange (if b then x else y)
  branch true x y hx hy = hx refl
  branch false x y hx hy = hy refl

  -- A request for a new password leaves every account as it is, or gives the account that it names,
  -- and no other, the hash of the new password, which has 6 to 72 characters; this only for an
  -- administrator, or for the account's own user who is enabled and knows the old password.
  pub change_password-PasswordChange :
      PasswordChange (change_password hashpw checkpw calls me id old_pw new_pw db)
  unfolding change_password
  change_password-PasswordChange =
      branch (not (me.role == "admin") && not (id == me.sub)) _ _ (λ h. inl refl)
        (λ may.
          branch (ltb (length new_pw) 6) _ _ (λ h. inl refl)
            (λ long.
              branch (ltb 72 (length new_pw)) _ _ (λ h. inl refl)
                (λ short.
                  branch (not calls.db) _ _ (λ h. inl refl)
                    (λ h.
                      branch (me.role == "admin") _ _
                        (λ admin.
                          by_admin ((eq_iff me.role "admin").0 admin) (ground arith, ground arith)
                            (get id db.users))
                        (λ other.
                          by_owner ((eqb_iff id me.sub).0 (ground (arith, may, other)))
                            (ground arith, ground arith) (get id db.users) refl)))))
    where
      logged : (d : Db) → table (audit calls me "user.password_change" id d) ≡ table d
      logged d = table-audit calls me "user.password_change" id d

      by_admin :
          me.role ≡ "admin"
          → (6 ≤ length new_pw) × (length new_pw ≤ 72)
          → (o : Option User) → PasswordChange (any_password hashpw checkpw calls me id new_pw o db)
      by_admin admin bounds none = inl refl
      by_admin admin bounds (some u) = inr (inl admin, bounds, logged _)

      by_owner :
          id ≡ me.sub
          → (6 ≤ length new_pw) × (length new_pw ≤ 72)
          → (o : Option User) → get id db.users ≡ o
          → PasswordChange (own_password hashpw checkpw calls me id old_pw new_pw o db)
      by_owner own bounds none e = inl refl
      by_owner own bounds (some u) e =
          branch (not u.enabled) _ _ (λ h. inl refl)
            (λ on.
              branch (checkpw old_pw u.password_hash) _ _
                (λ known. inr (inr (own, (u, e, ground (arith, on), known)), bounds, logged _))
                (λ h. inl refl))

module _ (hashpw : Text → String) (checkpw : Text → String → Bool) (decode : Text → Decoded) where
  -- the row of `id` is there and disabled
  abbrev pub IsDeleted : ℕ → Db → Type 0
  IsDeleted id db = (u : User) × (get id db.users ≡ some u) × (u.enabled ≡ false)

  delete_by_token :
      (calls : Calls) (token : Text) (me : Payload) (id : ℕ) (u : User) (db : Db)
      → calls.db ≡ true
      → decode token ≡ valid me
      → me.role ≡ "admin"
      → (id == me.sub) ≡ false
      → get id db.users ≡ some u
      → table (serve hashpw checkpw decode calls (codes "Bearer " ++ token) (delete_route id) db).1
        ≡ table (update_user id disable db)
  unfolding require_auth role_level delete_user strip_prefix audit
  delete_by_token calls token me id u db on accepted admin other row =
      rw (accepted, admin, other, on, row)
        (table-audit calls me "user.delete" id (update_user id disable db))

  row_of :
      (db db' : Db) (j : ℕ) {o : Option User}
      → table db' ≡ table db
      → get j db.users ≡ o
      → get j db'.users ≡ o
  row_of db db' j e at = ap (λ t. get j t.0) e ∙ at

  -- The token of a deleted administrator is still an administrator's: where two of them each
  -- delete the other, both requests are carried out, one after the other, and both accounts are
  -- disabled.
  pub crossed_deletes :
      (calls calls' : Calls) (a_token b_token : Text) (a b : Payload) (u v : User) (db : Db)
      → calls.db ≡ true
      → calls'.db ≡ true
      → decode a_token ≡ valid a
      → decode b_token ≡ valid b
      → a.role ≡ "admin"
      → b.role ≡ "admin"
      → a.sub ≢ b.sub
      → get a.sub db.users ≡ some u
      → get b.sub db.users ≡ some v
      → let db1 =
          (serve hashpw checkpw decode calls
            (codes "Bearer " ++ a_token)
            (delete_route b.sub)
            db).1 in
        let db2 =
          (serve hashpw checkpw decode calls'
            (codes "Bearer " ++ b_token)
            (delete_route a.sub)
            db1).1 in
        IsDeleted a.sub db2 × IsDeleted b.sub db2
  crossed_deletes calls calls' a_token b_token a b u v db on on' is_a is_b a_admin b_admin differ
        at_a at_b =
      let b_not_a : (b.sub == a.sub) ≡ false = ground (arith, differ) in
      let a_not_b : (a.sub == b.sub) ≡ false = ground (arith, differ) in
      let db1 =
        (serve hashpw checkpw decode calls (codes "Bearer " ++ a_token) (delete_route b.sub)
          db).1 in
      let e1 = delete_by_token calls a_token a b.sub v db on is_a a_admin b_not_a at_b in
      let a_in_1 : get a.sub db1.users ≡ some u =
        row_of (update_user b.sub disable db) db1 a.sub e1
          (get-update_user b.sub a.sub disable db u at_a ∙ rw b_not_a refl) in
      let b_in_1 : get b.sub db1.users ≡ some (disable v) =
        row_of (update_user b.sub disable db) db1 b.sub e1 (
          get-update_user b.sub b.sub disable db v at_b ∙ rw ((eqb_iff b.sub b.sub).1 refl) refl) in
      let db2 =
        (serve hashpw checkpw decode calls' (codes "Bearer " ++ b_token) (delete_route a.sub)
          db1).1 in
      let e2 = delete_by_token calls' b_token b a.sub u db1 on' is_b b_admin a_not_b a_in_1 in
      (
        (
          disable u,
          row_of (update_user a.sub disable db1) db2 a.sub e2 (
              get-update_user a.sub a.sub disable db1 u a_in_1
              ∙ rw ((eqb_iff a.sub a.sub).1 refl) refl),
          refl,
        ),
        (
          disable v,
          row_of (update_user a.sub disable db1) db2 b.sub e2
              (get-update_user a.sub b.sub disable db1 (disable v) b_in_1 ∙ rw a_not_b refl),
          refl,
        ),
      )
