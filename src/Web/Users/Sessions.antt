-- ===== src/Web/Users/Sessions.antt =====
-- The table of users over a sequence of requests.
use tdcs.Prelude.{
  String, ◌≡◌, refl, Option, none, some, Bool, false, ltb, ◌==◌, text_eq, eq_iff, arith, Bool-cases,
  inl, inr,
}
use tdcs.Prelude.Text.{Text, codes, strip_prefix}
use tdcs.Web.{
  Payload, Decoded, valid, expired_signature, invalid_token, role_level, require_auth, with_token,
  with_payload,
}
use tdcs.Web.Users.{Db, Calls, Handled, Request, min_role, handle, serve}
use tdcs.Web.Users.Effects.{handle-Effect}
use tdcs.Web.Users.Admins.{Fresh, HasAdmin, AdminAt, Effect-Fresh, Effect-AdminAt}

admin_level : (role : String) → ltb (role_level role) (role_level "admin") ≡ false → role ≡ "admin"
unfolding role_level
admin_level role h = ground (arith, h, eq_iff role "admin")

module _ (hashpw : Text → String) (checkpw : Text → String → Bool) (decode : Text → Decoded) where
  -- The header carries a token that the JWT library accepts, with this payload.
  abbrev pub Presents : Text → Payload → Type 0
  Presents header me =
      (token : Text) × (strip_prefix (codes "Bearer ") header ≡ some token)
      × (decode token ≡ valid me)

  -- Whoever is let in as an administrator is one in the table, too.
  abbrev pub IsCurrent : Text → Db → Type 0
  IsCurrent header db = (me : Payload) → Presents header me → me.role ≡ "admin" → AdminAt me.sub db

  -- The databases that requests lead to, each sent while its sender's role is current.
  pub data Reach (start : Db) : Db → Type 0 where
    here : Reach start start
    next :
        {db : Db} (calls : Calls) (header : Text) (request : Request)
        → Reach start db
        → IsCurrent header db
        → Reach start (serve hashpw checkpw decode calls header request db).1

  module _ (calls : Calls) (header : Text) (request : Request) (db : Db) where
    abbrev Sound : Handled → Type 0
    Sound h = Fresh h.1 × HasAdmin h.1

    let_in :
        Fresh db
        → HasAdmin db
        → (me : Payload) → (me.role ≡ "admin" → AdminAt me.sub db)
        → ltb (role_level me.role) (role_level (min_role request)) ≡ false
        → Sound (handle hashpw checkpw calls request me db)
    let_in fresh (id, is) me current level =
        let db' = (handle hashpw checkpw calls request me db).1 in
        let effect = handle-Effect hashpw checkpw calls me db request in
        (
          Effect-Fresh me db db' fresh effect,
          elim (Bool-cases (min_role request == "admin")) [
            | inl e ↦
                let asks = (eq_iff (min_role request) "admin").0 e in
                let admin = admin_level me.role (rw asks at level) in
                (me.sub, Effect-AdminAt me db db' fresh me.sub (λ l. refl) (current admin) effect)
            | inr e ↦ (
              id,
              Effect-AdminAt me db db' fresh id
                  (λ l. absurd (ground (arith, e, (eq_iff (min_role request) "admin").1 l))) is
                  effect,
            )
          ],
        )

    serve-Sound :
        Fresh db
        → HasAdmin db
        → IsCurrent header db
        → Sound (serve hashpw checkpw decode calls header request db)
    unfolding require_auth
    serve-Sound fresh has current = by_header (strip_prefix (codes "Bearer ") header) refl
      where
        by_payload :
            (token : Text)
            → strip_prefix (codes "Bearer ") header ≡ some token
            → (d : Decoded) → decode token ≡ d
            → Sound (with_payload (min_role request) d (handle hashpw checkpw calls request) db)
        by_payload token e expired_signature f = (fresh, has)
        by_payload token e invalid_token f = (fresh, has)
        by_payload token e (valid me) f =
            elim (Bool-cases (ltb (role_level me.role) (role_level (min_role request)))) [
              | inl low ↦ rw low (fresh, has)
              | inr high ↦ rw high (let_in fresh has me (current me (token, e, f)) high)
            ]

        by_header :
            (o : Option Text)
            → strip_prefix (codes "Bearer ") header ≡ o
            → Sound
                (with_token decode (min_role request) o (handle hashpw checkpw calls request) db)
        by_header none e = (fresh, has)
        by_header (some token) e = by_payload token e (decode token) refl

  Reach-Sound :
      {start db : Db} → Fresh start → HasAdmin start → Reach start db → Fresh db × HasAdmin db
  Reach-Sound fresh has here = (fresh, has)
  Reach-Sound fresh has (next {db} calls header request before current) =
      let h = Reach-Sound fresh has before in serve-Sound calls header request db h.0 h.1 current

  -- However many requests are served to the user API, valid or not, and whatever the database
  -- does, an enabled administrator stays in the table, as long as no token claims the role of an
  -- administrator for a user who is none in the table any more.
  pub Reach-HasAdmin : {start db : Db} → Fresh start → HasAdmin start → Reach start db → HasAdmin db
  Reach-HasAdmin fresh has reached = (Reach-Sound fresh has reached).1
