-- ===== src/Web/Login/Logins.antt =====
-- When a login gives a token.
use tdcs.Prelude.{
  ℕ, String, ◌≡◌, refl, ◌⊎◌, Option, none, some, [], Bool, true, false, not, ◌||◌, ◌==◌,
  if◌then◌else◌, arith, inl, inr,
}
use tdcs.Prelude.Text.{Text, codes_eq}
use tdcs.Web.{ok, error, token_payload}
use tdcs.Web.Users.{User, Db, Calls, strip, update_user}
use tdcs.Web.Login.{
  Attempts, check_login_rate, find_name, LoggedIn, login_found, login_allowed, limited, login,
}

module _ (checkpw : Text → String → Bool) (calls : Calls) (expire_hours : ℕ) (name password : Text)
    (db : Db) where
  -- an error, and nothing is written
  abbrev pub Refused : LoggedIn → Type 0
  Refused l = (l.1 ≡ db) × ((code : String) × (status : ℕ) × (l.0 ≡ error code status))

  -- a token for the user of that name, who is enabled and whose hash fits the password
  abbrev pub Granted : LoggedIn → Type 0
  Granted l =
      (id : ℕ) × (u : User) × (find_name calls.same_name (strip name) db.users ≡ some (id, u))
      × (u.enabled ≡ true)
      × (checkpw password u.password_hash ≡ true)
      × (l.0 ≡ ok 200 (token_payload id (strip name) u.role expire_hours calls.now))
      × (l.1 ≡ update_user id (λ v. record v { last_login = some calls.now }) db)

  abbrev Outcome : LoggedIn → Type 0
  Outcome l = Refused l ⊎ Granted l

  branch :
      (b : Bool) (x y : LoggedIn)
      → (b ≡ true → Outcome x)
      → (b ≡ false → Outcome y)
      → Outcome (if b then x else y)
  branch true x y hx hy = hx refl
  branch false x y hx hy = hy refl

  refused : (code : String) (status : ℕ) → Outcome (error code status, db)
  refused code status = inl (refl, (code, status, refl))

  login_allowed-Outcome : Outcome (login_allowed checkpw calls expire_hours name password db)
  unfolding login_allowed
  login_allowed-Outcome =
      branch (strip name == [] || password == []) _ _ (λ h. refused "INVALID_INPUT" 400)
        (λ h.
          branch calls.db _ _ (λ h. by_row (find_name calls.same_name (strip name) db.users) refl)
            (λ h. refused "DB_UNAVAILABLE" 503))
    where
      by_row :
          (o : Option (ℕ × User))
          → find_name calls.same_name (strip name) db.users ≡ o
          → Outcome (login_found checkpw calls.now expire_hours (strip name) password o db)
      by_row none e = refused "INVALID_CREDENTIALS" 401
      by_row (some (id, u)) e =
          branch (not u.enabled) _ _ (λ h. refused "INVALID_CREDENTIALS" 401)
            (λ on.
              branch (checkpw password u.password_hash) _ _
                (λ known. inr (id, u, e, ground (arith, on), known, refl, refl))
                (λ h. refused "INVALID_CREDENTIALS" 401))

  -- Each login counts against the rate of its address, and past the limit it is refused. Else it is
  -- refused and writes nothing, or the user of the given name is enabled and the password fits the
  -- hash: then the token carries the user's own id and role, and `last_login` is written.
  pub login-Outcome :
      (ip : Text) (s : Attempts)
      → let (l, s') = login checkpw calls expire_hours ip name password s db in
        (s' ≡ (check_login_rate ip calls.now s).1)
        × ((check_login_rate ip calls.now s).0 ≡ false → l ≡ (error "RATE_LIMITED" 429, db))
        × (Refused l ⊎ Granted l)
  unfolding login
  login-Outcome ip s = by_rate (check_login_rate ip calls.now s)
    where
      by_rate :
          (r : Bool × Attempts)
          → let (l, s') =
              limited r (login_allowed checkpw calls expire_hours name password db) db in
            (s' ≡ r.1)
            × (r.0 ≡ false → l ≡ (error "RATE_LIMITED" 429, db))
            × (Refused l ⊎ Granted l)
      by_rate (false, s') = (refl, (λ h. refl), refused "RATE_LIMITED" 429)
      by_rate (true, s') = (refl, (λ (h : true ≡ false). ground (arith, h)), login_allowed-Outcome)
