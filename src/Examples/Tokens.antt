-- ===== src/Examples/Tokens.antt =====
-- The theorems on tokens at a JWT library whose signature is the sum of the key's characters.
use wol_secure_light_switch.Prelude.{
  ℕ, ◌+◌, ◌≡◌, refl, ◌≢◌, inl, Bool, true, false, Option, none, some, arith, [], ◌∷◌, ◌++◌, Text,
  codes, ◌==◌, ltb, if◌then◌else◌, text_dec,
}
use wol_secure_light_switch.Prelude.Decimal.{format_uint}
use wol_secure_light_switch.Store.{
  User, ok, revoke_user_tokens, update_user, replace_devices, given,
}
use wol_secure_light_switch.Store.Rows.{count_rows, find_row, devices_of}
use wol_secure_light_switch.Store.Users.{user_at}
use wol_secure_light_switch.Auth.{
  Claims, Jwt, IsSigner, Request, Context, abort, next, bearer, context_of, generate_jwt,
  auth_middleware, jwt_lifetime, unauthorized,
}
use wol_secure_light_switch.Auth.Tokens.{
  IsAuthentic, auth_middleware-IsAuthentic, auth_middleware_issued,
}
use wol_secure_light_switch.Auth.Revocation.{updated_token_refused}
use wol_secure_light_switch.Examples.{owner, tables, engine, tables-IsUnique}

unfoldable pub signature : Text → ℕ
signature [] = 1
signature (c ∷ key) = c + signature key

abbrev accepts : ℕ → Option Text → Bool
accepts n none = false
accepts n (some key) = n == signature key

unfoldable pub parse : Text → (Bool → Option Text) → ℕ → Option (Claims × Bool)
parse (n ∷ version ∷ expires ∷ issued ∷ subject) key_func now =
    if accepts n (key_func true)
    then some (
      record {
        subject = subject;
        token_version = version;
        expires_at = expires;
        issued_at = issued;
      },
      ltb now expires,
    )
    else none
parse _ key_func now = none

abbrev pub jwt : Jwt
jwt = record {
  numeric_date = λ t. t;
  signed_string =
      λ key c. some (signature key ∷ c.token_version ∷ c.expires_at ∷ c.issued_at ∷ c.subject);
  parse_with_claims = parse;
}

pub jwt-IsSigner : IsSigner jwt
unfolding parse
jwt-IsSigner = record {
  parse_signed = λ key c token key_func now made found fresh. ground arith;
  parse_not_empty = λ token key c made. ground arith;
}

abbrev pub secret : Text
secret = codes "a secret of the service"

abbrev pub user : User
user = record { row = owner; devices = [] }

-- The token of the administrator, made at the time 5.
abbrev pub token : Text
token = signature secret ∷ 3 ∷ (5 + jwt_lifetime) ∷ 5 ∷ format_uint 1

abbrev pub request : Request
request = record { authorization = bearer ++ b' ' ∷ token; auth_cookie = none }

pub made : generate_jwt jwt secret user 5 ≡ some token
unfolding generate_jwt
made = refl

owner_stored : user_at tables 1 ≡ some owner
unfolding find_row
owner_stored = refl

revoked : (revoke_user_tokens engine tables 1 3).1 ≡ ok tt
unfolding revoke_user_tokens count_rows
revoked = refl

updated : (update_user engine tables 1 (some (codes "new hash")) none none).1 ≡ ok tt
unfolding update_user count_rows replace_devices
updated = refl

changed : given (some (codes "new hash")) ≢ none
unfolding text_dec
changed = λ e. cc e

updated_token_refused_example :
    auth_middleware jwt secret engine
      (update_user engine tables 1 (some (codes "new hash")) none none).0
      request
      6
    ≡ abort unauthorized "Invalid or expired token"
updated_token_refused_example =
    updated_token_refused jwt secret engine engine tables user (some (codes "new hash")) none none
      request token 5 6 jwt-IsSigner tables-IsUnique owner_stored (inl changed) updated made
      (inl refl) (omega arith) (omega arith)

abbrev pub let_through : Context
let_through = context_of (record { row = owner; devices = devices_of 1 tables.user_devices })

pub request_let_through : auth_middleware jwt secret engine tables request 6 ≡ next let_through
request_let_through =
    auth_middleware_issued jwt secret engine tables request 6 user token 5 owner jwt-IsSigner
      (λ _. refl) made (inl refl) (omega arith) (omega arith) (omega arith) owner_stored refl

auth_middleware_issued_example :
    auth_middleware jwt secret engine tables request 6 ≡ next let_through
auth_middleware_issued_example =
    auth_middleware_issued jwt secret engine tables request 6 user token 5 owner jwt-IsSigner
      (λ _. refl) made (inl refl) (omega arith) (omega arith) (omega arith) owner_stored refl

auth_middleware-IsAuthentic_example : IsAuthentic jwt secret engine tables request 6 let_through
auth_middleware-IsAuthentic_example =
    auth_middleware-IsAuthentic jwt secret engine tables request 6 let_through request_let_through
