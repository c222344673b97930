-- ===== src/Auth/Tokens.antt =====
-- backend/internal/auth/auth.go: which requests the middleware lets through, and as whom.
use wol_secure_light_switch.Prelude.{
  ℕ, ◌+◌, ◌^◌, ◌<◌, ◌≡◌, refl, ◌≢◌, ◌⊎◌, ◌∙◌, sym, subst, false, some, arith, [], ◌∷◌, ◌++◌, Text,
  same, same_eq, ◌==◌, Option-cases, inl, inr,
}
use wol_secure_light_switch.Prelude.Decimal.{format_uint, parse_uint, parse_uint-format_uint}
use wol_secure_light_switch.Store.{
  UserRow, User, Tables, Engine, Result, ok, err, StoreError, get_user_by_id, has_id,
}
use wol_secure_light_switch.Store.Rows.{devices_of, find_row-holds}
use wol_secure_light_switch.Store.Users.{user_at}
use wol_secure_light_switch.Auth.{
  Claims, Jwt, IsSigner, Request, Context, abort, next, bearer, split_space, token_string,
  bearer_token, generate_jwt, validate_jwt, key_func, context_of, check_version, check_subject,
  check_claims, check_token, auth_middleware, jwt_lifetime, unauthorized,
}

-- The two ways to send a token: as a bearer header, or as the cookie with no such header.
abbrev pub Carries : Request → Text → Type 0
Carries r token =
    (r.authorization ≡ bearer ++ b' ' ∷ token)
    ⊎ ((r.authorization ≡ []) × (r.auth_cookie ≡ some token))

pub token_string_of_Carries :
    (r : Request) (token : Text) → Carries r token → token_string r ≡ some token
unfolding token_string bearer_token split_space
token_string_of_Carries r token (inl header) = rw header (ground (arith, same_eq bearer bearer))
token_string_of_Carries r token (inr (no_header, cookie)) = ground (arith, cookie)

-- The row that a read by id finds.
get_user_by_id-row :
    (e : Engine) (t : Tables) (id : ℕ) {u : User}
    → get_user_by_id e t id ≡ ok u
    → (user_at t id ≡ some u.row) × (u.row.id ≡ id)
unfolding get_user_by_id
get_user_by_id-row e t id {u} h = ground (arith, find_row-holds (has_id id) t.users {u = u.row})

get_user_by_id_found :
    (e : Engine) (t : Tables) (id : ℕ) {u : UserRow}
    → ((n : ℕ) → e.fails n ≡ false)
    → user_at t id ≡ some u
    → get_user_by_id e t id ≡ ok (record { row = u; devices = devices_of u.id t.user_devices })
unfolding get_user_by_id
get_user_by_id_found e t id fine h = ground (arith, fine 0, fine 1)

Result-cases {ℓ} :
    {A : Type ℓ} (m : Result A) → ((x : StoreError) × (m ≡ err x)) ⊎ ((a : A) × (m ≡ ok a))
Result-cases (ok a) = inr (a, refl)
Result-cases (err x) = inl (x, refl)

-- The claims of a token that is made at a time.
abbrev pub claims_of : Jwt → User → ℕ → Claims
claims_of j u issued = record {
  subject = format_uint u.id;
  token_version = u.token_version;
  expires_at = j.numeric_date (issued + jwt_lifetime);
  issued_at = j.numeric_date issued;
}

pub validate_issued :
    (j : Jwt) (secret : Text) (signer : IsSigner j) (u : User) (token : Text) (issued now : ℕ)
    → generate_jwt j secret u issued ≡ some token
    → now < j.numeric_date (issued + jwt_lifetime)
    → validate_jwt j secret token now ≡ some (claims_of j u issued)
unfolding generate_jwt validate_jwt
validate_issued j secret signer u token issued now made fresh =
    rw
      (
        signer.parse_signed secret (claims_of j u issued) token (key_func j secret) now made refl
            fresh,
        validate_jwt,
      )
      refl

module _ (j : Jwt) (secret : Text) where
  module _ (e : Engine) (t : Tables) (r : Request) (now : ℕ) where
    -- What a request that was let through has shown.
    pub record IsAuthentic (c : Context) : Type 0 where
      pub token : Text
      pub claims : Claims
      pub user : UserRow
      pub sent : token_string r ≡ some token
      pub valid : validate_jwt j secret token now ≡ some claims
      pub subject : parse_uint claims.subject ≡ some user.id
      pub not_zero : user.id ≢ 0
      pub stored : user_at t user.id ≡ some user
      pub current : user.token_version ≡ claims.token_version
      pub same_id : c.user_id ≡ user.id
      pub same_email : c.user_email ≡ user.email
      pub same_role : c.is_admin ≡ user.is_admin
      pub same_version : c.token_version ≡ user.token_version

    authentic :
        (token : Text) (claims : Claims) (id : ℕ) (u : User) (c : Context)
        → token_string r ≡ some token
        → validate_jwt j secret token now ≡ some claims
        → parse_uint claims.subject ≡ some id
        → (id == 0) ≡ false
        → get_user_by_id e t id ≡ ok u
        → check_version claims (ok u) ≡ next c
        → IsAuthentic c
    unfolding check_version
    authentic token claims id u c sent valid subject not_zero read h =
        let (found, same_id) = get_user_by_id-row e t id {u = u} read in
        record {
          token = token;
          claims = claims;
          user = u.row;
          sent = sent;
          valid = valid;
          subject = rw same_id subject;
          not_zero = ground (arith, same_id);
          stored = subst (λ k. user_at t k ≡ some u.row) (sym same_id) found;
          current = ground arith;
          same_id = ground arith;
          same_email = ground arith;
          same_role = ground arith;
          same_version = ground arith;
        }

    auth_middleware_of_valid :
        (token : Text) (claims : Claims)
        → token_string r ≡ some token
        → same token [] ≡ false
        → validate_jwt j secret token now ≡ some claims
        → auth_middleware j secret e t r now ≡ check_subject e t claims (parse_uint claims.subject)
    unfolding auth_middleware check_token check_claims
    auth_middleware_of_valid token claims sent ne valid = rw (sent, ne, valid) refl

    -- If the middleware lets a request through, the request carries a token that the JWT library
    -- accepts, the token's subject is the id, not 0, of a stored user with the token's version,
    -- and the context holds that user's stored values.
    pub auth_middleware-IsAuthentic :
        (c : Context) → auth_middleware j secret e t r now ≡ next c → IsAuthentic c
    unfolding auth_middleware check_token check_claims check_subject
    auth_middleware-IsAuthentic c h = elim (Option-cases (token_string r)) [
      | inl missing ↦ absurd (ground arith)
      | inr (token, sent) ↦ elim (Option-cases (validate_jwt j secret token now)) [
        | inl invalid ↦ absurd (ground arith)
        | inr (claims, valid) ↦ elim (Option-cases (parse_uint claims.subject)) [
          | inl no_number ↦ absurd (ground arith)
          | inr (id, subject) ↦ elim (Result-cases (get_user_by_id e t id)) [
            | inl (x, failed) ↦ absurd (unfold check_version in ground arith)
            | inr (u, read) ↦
                authentic token claims id u c sent valid subject (ground arith) read (ground arith)
          ]
        ]
      ]
    ]

    -- With a JWT library that parses what it signed, when no statement reports an error: a token
    -- made from a user record whose id is stored with the same version lets a request that carries
    -- it through, as the stored user, before it expires. The id is positive and below 2 ^ 64.
    pub auth_middleware_issued :
        (u : User) (token : Text) (issued : ℕ) (stored : UserRow)
        → IsSigner j
        → ((n : ℕ) → e.fails n ≡ false)
        → generate_jwt j secret u issued ≡ some token
        → Carries r token
        → now < j.numeric_date (issued + jwt_lifetime)
        → 0 < u.id
        → u.id < 2 ^ 64
        → user_at t u.id ≡ some stored
        → stored.token_version ≡ u.token_version
        → auth_middleware j secret e t r now
          ≡ next
              (context_of (record { row = stored; devices = devices_of stored.id t.user_devices }))
    auth_middleware_issued u token issued stored signer fine made carried fresh pos small found
          current =
        auth_middleware_of_valid token (claims_of j u issued)
          (token_string_of_Carries r token carried)
          (signer.parse_not_empty token secret (claims_of j u issued) (unfold generate_jwt in made))
          (validate_issued j secret signer u token issued now made fresh)
        ∙ rw (parse_uint-format_uint u.id small) (
            unfold check_subject check_version in
            ground (arith, get_user_by_id_found e t u.id {u = stored} fine found))

    -- From the moment that the stored version differs from the one that the token was made with,
    -- or the user is gone, the token is refused.
    pub auth_middleware_stale :
        (u : User) (token : Text) (issued : ℕ)
        → IsSigner j
        → generate_jwt j secret u issued ≡ some token
        → Carries r token
        → now < j.numeric_date (issued + jwt_lifetime)
        → u.id < 2 ^ 64
        → ((stored : UserRow)
            → user_at t u.id ≡ some stored
            → stored.token_version ≢ u.token_version)
        → auth_middleware j secret e t r now ≡ abort unauthorized "Invalid or expired token"
    auth_middleware_stale u token issued signer made carried fresh small stale =
        auth_middleware_of_valid token (claims_of j u issued)
          (token_string_of_Carries r token carried)
          (signer.parse_not_empty token secret (claims_of j u issued) (unfold generate_jwt in made))
          (validate_issued j secret signer u token issued now made fresh)
        ∙ rw (parse_uint-format_uint u.id small) (refused (get_user_by_id_cases u.id))
      where
        get_user_by_id_cases :
            (id : ℕ)
            → ((x : StoreError) × (get_user_by_id e t id ≡ err x))
              ⊎ ((w : User) × (get_user_by_id e t id ≡ ok w))
        get_user_by_id_cases id = Result-cases (get_user_by_id e t id)

        refused :
            (((x : StoreError) × (get_user_by_id e t u.id ≡ err x))
              ⊎ ((w : User) × (get_user_by_id e t u.id ≡ ok w)))
            → check_subject e t (claims_of j u issued) (some u.id)
              ≡ abort unauthorized "Invalid or expired token"
        refused (inl (x, failed)) = unfold check_subject check_version in ground arith
        refused (inr (w, read)) =
            let (found, _) = get_user_by_id-row e t u.id {u = w} read in
            let differs = stale w.row found in unfold check_subject check_version in ground arith
