-- ===== src/Auth/Sessions.antt =====
-- backend/internal/auth/auth.go: how the middleware answers, and whom an issued token names.
use Prim.Native.String.{String}
use wol_secure_light_switch.Prelude.{
  ℕ, ◌+◌, ◌^◌, ◌<◌, ◌≡◌, ◌∙◌, subst, ap, Option, none, some, arith, Text, [], same, ◌==◌,
  Bool-cases, inl, inr,
}
use wol_secure_light_switch.Prelude.Decimal.{parse_uint, parse_uint-format_uint}
use wol_secure_light_switch.Store.{User, Tables, Engine, Result, ok, err, get_user_by_id}
use wol_secure_light_switch.Auth.{
  Claims, Jwt, IsSigner, Request, Context, abort, next, generate_jwt, validate_jwt, token_string,
  check_version, check_subject, check_claims, check_token, auth_middleware, jwt_lifetime,
}
use wol_secure_light_switch.Auth.Tokens.{
  Carries, auth_middleware-IsAuthentic, token_string_of_Carries, validate_issued, claims_of,
}

check_version_code :
    (claims : Claims) (m : Result User) {code : ℕ} {e : String}
    → check_version claims m ≡ abort code e
    → code ≡ 401
unfolding check_version
check_version_code claims (err x) h = ground (arith, h)
check_version_code claims (ok u) h = ground (arith, h)

check_subject_code :
    (e : Engine) (t : Tables) (claims : Claims) (id : Option ℕ) {code : ℕ} {m : String}
    → check_subject e t claims id ≡ abort code m
    → code ≡ 401
unfolding check_subject
check_subject_code e t claims none h = ground (arith, h)
check_subject_code e t claims (some id) h = elim (Bool-cases (id == 0)) [
  | inl zero ↦ let h' = rw zero at h in ground (arith, h')
  | inr positive ↦ check_version_code claims (get_user_by_id e t id) (rw positive at h)
]

check_claims_code :
    (e : Engine) (t : Tables) (claims : Option Claims) {code : ℕ} {m : String}
    → check_claims e t claims ≡ abort code m
    → code ≡ 401
unfolding check_claims
check_claims_code e t none h = ground (arith, h)
check_claims_code e t (some claims) h = check_subject_code e t claims (parse_uint claims.subject) h

module _ (j : Jwt) (secret : Text) (e : Engine) (t : Tables) (r : Request) (now : ℕ) where
  check_token_code :
      (token : Option Text) {code : ℕ} {m : String}
      → check_token j secret e t token now ≡ abort code m
      → code ≡ 401
  unfolding check_token
  check_token_code none h = ground (arith, h)
  check_token_code (some token) h = elim (Bool-cases (same token [])) [
    | inl empty ↦ let h' = rw empty at h in ground (arith, h')
    | inr sent ↦ check_claims_code e t (validate_jwt j secret token now) (rw sent at h)
  ]

  -- The middleware stops a request with no other status than 401.
  pub auth_middleware_code :
      (code : ℕ) (m : String) → auth_middleware j secret e t r now ≡ abort code m → code ≡ 401
  unfolding auth_middleware
  auth_middleware_code code m h = check_token_code (token_string r) h

  -- A request that an issued token lets through acts as the user, with the version, of the token.
  pub issued_context :
      (u : User) (token : Text) (issued : ℕ) (c : Context)
      → IsSigner j
      → generate_jwt j secret u issued ≡ some token
      → Carries r token
      → now < j.numeric_date (issued + jwt_lifetime)
      → u.id < 2 ^ 64
      → auth_middleware j secret e t r now ≡ next c
      → (c.user_id ≡ u.id) × (c.token_version ≡ u.token_version)
  issued_context u token issued c signer made carried fresh small h =
      let a = auth_middleware-IsAuthentic j secret e t r now c h in
      let same_token : a.token ≡ token = cc (a.sent, token_string_of_Carries r token carried) in
      let same_claims : a.claims ≡ claims_of j u issued = cc (
        subst (λ k. validate_jwt j secret k now ≡ some a.claims) same_token a.valid,
        validate_issued j secret signer u token issued now made fresh,
      ) in
      let same_id : a.user.id ≡ u.id = cc (
        subst (λ k. parse_uint k.subject ≡ some a.user.id) same_claims a.subject,
        parse_uint-format_uint u.id small,
      ) in
      (
        a.same_id ∙ same_id,
        a.same_version ∙ a.current ∙ ap (λ (k : Claims). k.token_version) same_claims,
      )
