-- ===== src/Auth.antt =====
-- backend/internal/auth/auth.go: tokens and the two middlewares. The JWT library, which signs and
-- parses, is the record `Jwt`. A time is a number of nanoseconds. `strconv.IntSize` is 64. What a
-- middleware does is a `Verdict`: it aborts with a status and a message, or hands a context on.
pub mod Tokens
pub mod Revocation
pub mod Sessions
pub mod Cookies
use Prim.Native.String.{String}
use wol_secure_light_switch.Prelude.{
  ℕ, ◌+◌, ◌*◌, ◌<◌, ◌≡◌, Bool, true, false, not, Option, none, some, List, [], ◌∷◌, ◌++◌, Text,
  codes, same, ◌==◌, if◌then◌else◌,
}
use wol_secure_light_switch.Prelude.Decimal.{format_uint, parse_uint}
use wol_secure_light_switch.Limiter.{minute}
use wol_secure_light_switch.Store.{User, Tables, Engine, Result, ok, err, get_user_by_id}

pub record Claims : Type 0 where
  pub subject : Text
  pub token_version : ℕ
  pub expires_at : ℕ
  pub issued_at : ℕ

abbrev pub jwt_lifetime : ℕ
jwt_lifetime = 60 * minute

-- Package jwt: `NewNumericDate`, `SignedString` with HS256, and `ParseWithClaims` at a time, which
-- asks for the key with the answer to "is the token's method HMAC". The pair is the claims and
-- `token.Valid`.
pub record Jwt : Type 0 where
  pub numeric_date : ℕ → ℕ
  pub signed_string : Text → Claims → Option Text
  pub parse_with_claims : Text → (Bool → Option Text) → ℕ → Option (Claims × Bool)

-- A token that the library signed with a key parses with that key until it expires, and no token is
-- empty.
pub record IsSigner (j : Jwt) : Type 0 where
  pub parse_signed :
      (key : Text) (c : Claims) (token : Text) (key_func : Bool → Option Text) (now : ℕ)
      → j.signed_string key c ≡ some token
      → key_func true ≡ some key
      → now < c.expires_at
      → j.parse_with_claims token key_func now ≡ some (c, true)
  pub parse_not_empty :
      (token : Text) (key : Text) (c : Claims)
      → j.signed_string key c ≡ some token
      → same token [] ≡ false

-- The request's `Authorization` header, empty if absent, and the value of the cookie.
pub record Request : Type 0 where
  pub authorization : Text
  pub auth_cookie : Option Text

-- What the middleware sets for the handlers.
pub record Context : Type 0 where
  pub user_id : ℕ
  pub user_email : Text
  pub is_admin : Bool
  pub token_version : ℕ

pub data Verdict : Type 0 where
  abort : ℕ → String → Verdict
  next : Context → Verdict

abbrev pub unauthorized : ℕ
unauthorized = 401

abbrev pub forbidden : ℕ
forbidden = 403

-- `strings.SplitN(s, " ", 2)`: the part before the first space, and the part behind it.
unfoldable pub split_space : Text → Text × Option Text
split_space [] = ([], none)
split_space (u ∷ s) =
    let (word, rest) = split_space s in if u == b' ' then ([], some s) else (u ∷ word, rest)

abbrev pub bearer : Text
bearer = codes "Bearer"

abbrev invalid_token : Verdict
invalid_token = abort unauthorized "Invalid or expired token"

-- The token of a request: `none` if the header is not of the form `Bearer token`.
unfoldable pub bearer_token : Text × Option Text → Option Text
bearer_token (word, none) = none
bearer_token (word, some rest) = if same word bearer then some rest else none

unfoldable pub token_string : Request → Option Text
unfolding bearer_token split_space
token_string r =
    if same r.authorization []
    then (elim r.auth_cookie [ none ↦ some [] | some value ↦ some value ])
    else bearer_token (split_space r.authorization)

abbrev pub context_of : User → Context
context_of u = record {
  user_id = u.id;
  user_email = u.email;
  is_admin = u.is_admin;
  token_version = u.token_version;
}

-- The last check: the stored version against the claimed one.
unfoldable pub check_version : Claims → Result User → Verdict
check_version claims (err x) = invalid_token
check_version claims (ok u) =
    if not (u.token_version == claims.token_version) then invalid_token else next (context_of u)

module _ (e : Engine) (t : Tables) where
  unfoldable pub check_subject : Claims → Option ℕ → Verdict
  unfolding check_version
  check_subject claims none = invalid_token
  check_subject claims (some id) =
      if id == 0 then invalid_token else check_version claims (get_user_by_id e t id)

  unfoldable pub check_claims : Option Claims → Verdict
  unfolding check_subject
  check_claims none = invalid_token
  check_claims (some claims) = check_subject claims (parse_uint claims.subject)

module _ (j : Jwt) (secret : Text) where
  unfoldable pub generate_jwt : User → ℕ → Option Text
  generate_jwt user now = j.signed_string secret (record {
    subject = format_uint user.id;
    token_version = user.token_version;
    expires_at = j.numeric_date (now + jwt_lifetime);
    issued_at = j.numeric_date now;
  })

  -- The key for an HMAC token, and for no other.
  abbrev pub key_func : Bool → Option Text
  key_func true = some secret
  key_func false = none

  unfoldable pub validate_jwt : Text → ℕ → Option Claims
  validate_jwt token now = elim (j.parse_with_claims token key_func now) [
    | none ↦ none
    | some (claims, valid) ↦ if valid then some claims else none
  ]

  module _ (e : Engine) (t : Tables) where
    unfoldable pub check_token : Option Text → ℕ → Verdict
    unfolding check_claims
    check_token none now = abort unauthorized "Authorization header format must be Bearer {token}"
    check_token (some token) now =
        if same token []
        then abort unauthorized "Authorization header is required"
        else check_claims e t (validate_jwt token now)

    unfoldable pub auth_middleware : Request → ℕ → Verdict
    unfolding check_token token_string
    auth_middleware r now = check_token (token_string r) now

-- `isAdmin` of the context, if it was set.
unfoldable pub admin_middleware : Option Context → Verdict
admin_middleware none = abort forbidden "Admin access required"
admin_middleware (some c) =
    if not c.is_admin then abort forbidden "Admin access required" else next c
