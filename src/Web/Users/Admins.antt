-- ===== src/Web/Users/Admins.antt =====
-- The table keeps an administrator who can log in, whatever requests are served.
use tdcs.Prelude.{
  ℕ, ◌+◌, ◌≤◌, String, ◌≡◌, refl, sym, ap, ◌∙◌, Option, none, some, true, false, ◌==◌, number_eq,
  text_eq, eqb_iff, if◌then◌else◌, arith, Bool-cases, inl, inr,
}
use tdcs.Prelude.Dict.{Dict, get, get-put}
use tdcs.Web.{Payload}
use tdcs.Web.Users.{User, Db, update_user, update_found}
use tdcs.Web.Users.Effects.{
  table, rehash, disable, with_role, Effect, nothing, rehashed, disabled, promoted, inserted,
}

abbrev pub IsAdmin : User → Type 0
IsAdmin u = (u.enabled ≡ true) × (u.role ≡ "admin")

-- The row of this id is an enabled administrator's.
abbrev AdminIn : ℕ → Dict ℕ User → Type 0
AdminIn id users = (u : User) × (get id users ≡ some u) × IsAdmin u

abbrev pub AdminAt : ℕ → Db → Type 0
AdminAt id db = AdminIn id db.users

abbrev pub HasAdmin : Db → Type 0
HasAdmin db = (id : ℕ) × AdminAt id db

-- AUTO_INCREMENT is ahead of every id.
abbrev FreshIn : Dict ℕ User × ℕ → Type 0
FreshIn t = (id : ℕ) → t.1 ≤ id → get id t.0 ≡ none

abbrev pub Fresh : Db → Type 0
Fresh db = FreshIn (table db)

none-ne-some : {u : User} → none ≡ some u → ⊥
none-ne-some e = cc

under : (f : User → User) {v u : User} → some v ≡ some u → some (f v) ≡ some (f u)
under f e = cc

pub get-update_user :
    (id j : ℕ) (f : User → User) (db : Db) (u : User)
    → get j db.users ≡ some u
    → get j (update_user id f db).users ≡ some (if id == j then f u else u)
unfolding update_user
get-update_user id j f db u at = by_row (get id db.users) refl
  where
    by_row :
        (o : Option User)
        → get id db.users ≡ o
        → get j (update_found id f o db).users ≡ some (if id == j then f u else u)
    by_row none e = elim (Bool-cases (id == j)) [
      | inl same ↦
          absurd (none-ne-some (sym e ∙ ap (λ k. get k db.users) ((eqb_iff id j).0 same) ∙ at))
      | inr other ↦ rw other at
    ]
    by_row (some v) e = elim (Bool-cases (id == j)) [
      | inl same ↦
          rw (get-put id j (f v) db.users, same)
            (under f (sym e ∙ ap (λ k. get k db.users) ((eqb_iff id j).0 same) ∙ at))
      | inr other ↦ rw (get-put id j (f v) db.users, other) at
    ]

get-update_user-none :
    (id j : ℕ) (f : User → User) (db : Db)
    → get j db.users ≡ none
    → get j (update_user id f db).users ≡ none
unfolding update_user
get-update_user-none id j f db at = by_row (get id db.users) refl
  where
    by_row : (o : Option User) → get id db.users ≡ o → get j (update_found id f o db).users ≡ none
    by_row none e = at
    by_row (some v) e = elim (Bool-cases (id == j)) [
      | inl same ↦
          absurd
            (none-ne-some (sym at ∙ ap (λ k. get k db.users) (sym ((eqb_iff id j).0 same)) ∙ e))
      | inr other ↦ rw (get-put id j (f v) db.users, other) at
    ]

next_id-update_user :
    (id : ℕ) (f : User → User) (db : Db) → (update_user id f db).next_id ≡ db.next_id
unfolding update_user
next_id-update_user id f db = by_row (get id db.users)
  where
    by_row : (o : Option User) → (update_found id f o db).next_id ≡ db.next_id
    by_row none = refl
    by_row (some v) = refl

FreshIn-eq : {s t : Dict ℕ User × ℕ} → s ≡ t → FreshIn t → FreshIn s
FreshIn-eq e h = rw e h

AdminIn-eq : {s t : Dict ℕ User × ℕ} (id : ℕ) → s ≡ t → AdminIn id t.0 → AdminIn id s.0
AdminIn-eq id e h = rw e h

Fresh-update_user : (id : ℕ) (f : User → User) (db : Db) → Fresh db → Fresh (update_user id f db)
Fresh-update_user id f db fresh j h =
    get-update_user-none id j f db (fresh j (omega (arith, h, next_id-update_user id f db)))

-- an update of a row keeps an administrator, where it keeps the administrator's own row one
AdminAt-update_user :
    (id j : ℕ) (f : User → User) (db : Db)
    → ((id == j) ≡ true → (u : User) → IsAdmin u → IsAdmin (f u))
    → AdminAt j db
    → AdminAt j (update_user id f db)
AdminAt-update_user id j f db keeps (u, at, is) = elim (Bool-cases (id == j)) [
  | inl same ↦ (f u, get-update_user id j f db u at ∙ rw same refl, keeps same u is)
  | inr other ↦ (u, get-update_user id j f db u at ∙ rw other refl, is)
]

module _ {level : String} (me : Payload) (db db' : Db) where
  pub Effect-Fresh : Fresh db → Effect level me db db' → Fresh db'
  Effect-Fresh fresh (nothing e) = FreshIn-eq e fresh
  Effect-Fresh fresh (rehashed i p e) = FreshIn-eq e (Fresh-update_user i (rehash p) db fresh)
  Effect-Fresh fresh (disabled i l o e) = FreshIn-eq e (Fresh-update_user i disable db fresh)
  Effect-Fresh fresh (promoted i r l o e) =
      FreshIn-eq e (Fresh-update_user i (with_role r) db fresh)
  Effect-Fresh fresh (inserted u l e) =
      FreshIn-eq e
        (λ id h. get-put db.next_id id u db.users ∙ rw (later id h) (fresh id (omega (arith, h))))
    where
      later : (id : ℕ) → db.next_id + 1 ≤ id → (db.next_id == id) ≡ false
      later id h = ground arith

  -- the row of an administrator who sends the request, or sends none for administrators
  pub Effect-AdminAt :
      Fresh db
      → (j : ℕ) → (level ≡ "admin" → j ≡ me.sub)
      → AdminAt j db
      → Effect level me db db'
      → AdminAt j db'
  Effect-AdminAt fresh j own is (nothing e) = AdminIn-eq j e is
  Effect-AdminAt fresh j own is (rehashed i p e) =
      AdminIn-eq j e (AdminAt-update_user i j (rehash p) db (λ same u h. h) is)
  Effect-AdminAt fresh j own is (disabled i l o e) =
      AdminIn-eq j e
        (AdminAt-update_user i j disable db (λ same u h. ground (arith, same, o, own l)) is)
  Effect-AdminAt fresh j own is (promoted i r l o e) =
      AdminIn-eq j e
        (AdminAt-update_user i j (with_role r) db (λ same u h. ground (arith, same, o, own l)) is)
  Effect-AdminAt fresh j own (a, at, is) (inserted u l e) =
      AdminIn-eq j e (a, get-put db.next_id j u db.users ∙ rw earlier at, is)
    where
      earlier : (db.next_id == j) ≡ false
      earlier = elim (Bool-cases (db.next_id == j)) [
        | inl same ↦ absurd (none-ne-some (sym (fresh j (ground (arith, same))) ∙ at))
        | inr other ↦ other
      ]
