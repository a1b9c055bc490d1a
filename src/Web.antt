-- ===== src/Web.antt =====
-- The web layer's answers and its authentication: `ok` and `error` of src/web/response.py and
-- src/web/auth.py. The JWT library is a parameter.
pub mod Users
pub mod Login
pub mod Downloads
pub mod Pages
pub mod Retry
use tdcs.Prelude.{
  ℕ, String, Option, none, some, List, [], ◌∷◌, ◌+◌, ◌*◌, Bool, true, false, ltb, ◌==◌, text_eq,
  if◌then◌else◌,
}
use tdcs.Prelude.Text.{Text, codes, strip_prefix}

-- `ok(data, status=…)`, and `error(code, message, status=…)` without its message
pub data Reply {ℓ} (A : Type ℓ) : Type ℓ where
  ok : ℕ → A → Reply A
  error : String → ℕ → Reply A

-- the payload of a token; `generate_token`, which alone makes them, writes `str(user_id)` to `sub`
pub record Payload : Type 0 where
  pub sub : ℕ
  pub username : Text
  pub role : String
  pub iat : ℕ
  pub exp : ℕ

-- what `jwt.decode` does with a text
pub data Decoded : Type 0 where
  valid : Payload → Decoded
  expired_signature invalid_token : Decoded

-- `ROLE_LEVELS.get(role, 0)`
unfoldable pub role_level : String → ℕ
role_level role =
    if role == "viewer"
    then 1
    else if role == "operator"
    then 2
    else if role == "admin"
    then 3
    else 0

-- the payload that `generate_token` signs
unfoldable pub token_payload : ℕ → Text → String → ℕ → ℕ → Payload
token_payload user_id username role expire_hours now = record {
  sub = user_id;
  username = username;
  role = role;
  iat = now;
  exp = now + expire_hours * 3600;
}

module _ {ℓ κ} {A : Type ℓ} {S : Type κ} where
  abbrev pub with_payload : String → Decoded → (Payload → S → Reply A × S) → S → Reply A × S
  with_payload min_role expired_signature handler s = (error "TOKEN_EXPIRED" 401, s)
  with_payload min_role invalid_token handler s = (error "TOKEN_INVALID" 401, s)
  with_payload min_role (valid payload) handler s =
      if ltb (role_level payload.role) (role_level min_role)
      then (error "FORBIDDEN" 403, s)
      else handler payload s

  abbrev pub with_token :
      (Text → Decoded) → String → Option Text → (Payload → S → Reply A × S) → S → Reply A × S
  with_token decode min_role none handler s = (error "MISSING_TOKEN" 401, s)
  with_token decode min_role (some token) handler s = with_payload min_role (decode token) handler s

  -- `require_auth(min_role)` around a handler, on the text of the header Authorization
  unfoldable pub require_auth :
      (Text → Decoded) → String → Text → (Payload → S → Reply A × S) → S → Reply A × S
  unfolding role_level
  require_auth decode min_role header handler s =
      with_token decode min_role (strip_prefix (codes "Bearer ") header) handler s
