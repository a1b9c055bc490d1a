-- ===== src/Web/Login/Rate.antt =====
-- How many logins of one address pass the limit.
use tdcs.Prelude.{
  ℕ, ◌+◌, ◌-◌, ◌≤◌, ◌<◌, ◌≡◌, refl, List, [], ◌∷◌, ◌++◌, length, length-append, count, count-append,
  count-le-length, keep, Bool, true, false, ◌&&◌, ltb, leb, ◌==◌, if◌then◌else◌, arith, All,
  Bool-cases, inl, inr,
}
use tdcs.Prelude.Dict.{get, or_else, get-put, beq_refl}
use tdcs.Prelude.Text.{Text, codes_eq, same_text_iff}
use tdcs.Web.Login.{
  Attempts, check_login_rate, recent_attempts, login_rate_limit, login_rate_window,
}

-- the attempts after these calls, each with its address and time, newest first
abbrev pub after : List (Text × ℕ) → Attempts
after [] = []
after ((ip, now) ∷ earlier) = (check_login_rate ip now (after earlier)).1

-- the times at which an address passed
abbrev pub passes : Text → List (Text × ℕ) → List ℕ
passes ip [] = []
passes ip ((caller, now) ∷ earlier) =
    if caller == ip && (check_login_rate caller now (after earlier)).0
    then now ∷ passes ip earlier
    else passes ip earlier

-- The clock does not go back.
abbrev pub InOrder : List (Text × ℕ) → Type 0
InOrder [] = Unit
InOrder ((ip, now) ∷ earlier) = All (λ e. e.1 ≤ now) earlier × InOrder earlier

abbrev in_window : ℕ → ℕ → Bool
in_window x t = leb x t && ltb t (x + login_rate_window)

-- What a stored list says about the passes up to `last`.
record IsKept (last : ℕ) (stored passed : List ℕ) : Type 0 where
  short : length stored ≤ login_rate_limit
  covers : (x : ℕ) → last < x + login_rate_window → count (leb x) passed ≤ count (leb x) stored
  bounded : (x : ℕ) → count (in_window x) passed ≤ login_rate_limit

count-keep :
    (x now : ℕ) (ts : List ℕ)
    → now < x + login_rate_window
    → count (leb x) ts ≤ count (leb x) (keep (λ t. ltb (now - t) login_rate_window) ts)
count-keep x now [] h = omega arith
count-keep x now (t ∷ ts) h = ground (arith, h, count-keep x now ts h)

count-window : (x : ℕ) (ts : List ℕ) → count (in_window x) ts ≤ count (leb x) ts
count-window x [] = omega arith
count-window x (t ∷ ts) = ground (arith, count-window x ts)

later-IsKept :
    {last now : ℕ} {stored passed : List ℕ}
    → last ≤ now
    → IsKept last stored passed
    → IsKept now stored passed
later-IsKept h k = record {
  short = k.short;
  covers = λ x r. k.covers x (omega (arith, h, r));
  bounded = k.bounded;
}

pass-IsKept :
    (last now : ℕ) (stored passed : List ℕ)
    → last ≤ now
    → leb login_rate_limit (length (keep (λ t. ltb (now - t) login_rate_window) stored)) ≡ false
    → IsKept last stored passed
    → IsKept now (keep (λ t. ltb (now - t) login_rate_window) stored ++ now ∷ []) (now ∷ passed)
pass-IsKept last now stored passed h room k = record {
  short = fits;
  covers = covered;
  bounded = λ x. elim (Bool-cases (in_window x now)) [
    | inl inside ↦ omega (
      arith,
      count-window x (now ∷ passed),
      covered x (ground (arith, inside)),
      count-le-length (leb x) stored',
      fits,
    )
    | inr outside ↦ rw outside (k.bounded x)
  ];
}
  where
    stored' : List ℕ
    stored' = keep (λ t. ltb (now - t) login_rate_window) stored ++ now ∷ []

    fits : length stored' ≤ login_rate_limit
    fits =
        ground (
          arith,
          room,
          length-append (keep (λ t. ltb (now - t) login_rate_window) stored) (now ∷ []),
        )

    covered :
        (x : ℕ) → now < x + login_rate_window → count (leb x) (now ∷ passed) ≤ count (leb x) stored'
    covered x r = ground (
      arith,
      r,
      k.covers x (omega (arith, h, r)),
      count-keep x now stored r,
      count-append (leb x) (keep (λ t. ltb (now - t) login_rate_window) stored) (now ∷ []),
    )

stored_for : Text → Attempts → List ℕ
stored_for ip s = or_else (get ip s) []

latest : List (Text × ℕ) → ℕ
latest [] = 0
latest ((ip, now) ∷ earlier) = now

latest-le :
    (now : ℕ) (earlier : List (Text × ℕ)) → All (λ e. e.1 ≤ now) earlier → latest earlier ≤ now
unfolding latest
latest-le now [] h = omega arith
latest-le now ((ip, t) ∷ earlier) h = h.0

check-same :
    (ip : Text) (last now : ℕ) (s : Attempts) (passed : List ℕ)
    → last ≤ now
    → IsKept last (stored_for ip s) passed
    → IsKept now
        (stored_for ip (check_login_rate ip now s).1)
        (if (check_login_rate ip now s).0 then now ∷ passed else passed)
unfolding check_login_rate stored_for
check-same ip last now s passed le kept =
    elim (Bool-cases (leb login_rate_limit (length (recent_attempts ip now s)))) [
      | inl full ↦ rw full (later-IsKept le kept)
      | inr room ↦
          rw (room, get-put ip ip (recent_attempts ip now s ++ now ∷ []) s, beq_refl ip)
            (pass-IsKept last now (or_else (get ip s) []) passed le room kept)
    ]

check-other :
    (caller ip : Text) (now : ℕ) (s : Attempts)
    → (caller == ip) ≡ false
    → stored_for ip (check_login_rate caller now s).1 ≡ stored_for ip s
unfolding check_login_rate stored_for
check-other caller ip now s other =
    elim (Bool-cases (leb login_rate_limit (length (recent_attempts caller now s)))) [
      | inl full ↦ rw full refl
      | inr room ↦
          rw (room, get-put caller ip (recent_attempts caller now s ++ now ∷ []) s, other) refl
    ]

IsKept-after :
    (ip : Text) (calls : List (Text × ℕ))
    → InOrder calls
    → IsKept (latest calls) (stored_for ip (after calls)) (passes ip calls)
unfolding stored_for latest get
IsKept-after ip [] ordered = record {
  short = omega arith;
  covers = λ x h. omega arith;
  bounded = λ x. omega arith;
}
IsKept-after ip ((caller, now) ∷ earlier) (before, ordered) =
    by_caller (caller == ip) refl (latest-le now earlier before) (IsKept-after ip earlier ordered)
  where
    by_caller :
        (b : Bool)
        → (caller == ip) ≡ b
        → latest earlier ≤ now
        → IsKept (latest earlier) (stored_for ip (after earlier)) (passes ip earlier)
        → IsKept now (stored_for ip (check_login_rate caller now (after earlier)).1) (
            if b && (check_login_rate caller now (after earlier)).0
            then now ∷ passes ip earlier
            else passes ip earlier)
    by_caller true e le kept =
        rw ((same_text_iff caller ip).0 e)
          (check-same ip (latest earlier) now (after earlier) (passes ip earlier) le kept)
    by_caller false e le kept =
        rw (check-other caller ip now (after earlier) e) (later-IsKept le kept)

-- In no window of 60 seconds do more than 5 calls of one address pass the limit on logins,
-- however the calls of all addresses interleave, where the clock does not go back.
pub passes_bounded :
    (ip : Text) (calls : List (Text × ℕ)) (from : ℕ)
    → InOrder calls
    → count (λ t. leb from t && ltb t (from + login_rate_window)) (passes ip calls)
      ≤ login_rate_limit
passes_bounded ip calls from ordered = (IsKept-after ip calls ordered).bounded from
