-- ===== src/Auth/Revocation.antt =====
-- backend/internal/auth/auth.go with store/users.go: tokens that a logout or an update ends.
use wol_secure_light_switch.Prelude.{
  ℕ, ◌+◌, ◌^◌, ◌<◌, ◌≡◌, ◌≢◌, ◌⊎◌, ◌∙◌, sym, Bool, false, Option, none, some, arith, List, Text,
  inl, inr,
}
use wol_secure_light_switch.Store.{
  UserRow, User, Tables, Engine, ok, err, token_no_longer_valid, revoke_user_tokens, update_user,
  given, assign,
}
use wol_secure_light_switch.Store.Keys.{IsUnique}
use wol_secure_light_switch.Store.Users.{user_at, update_user-effect}
use wol_secure_light_switch.Store.Tokens.{assign-token_version, revoke_user_tokens-swap}
use wol_secure_light_switch.Auth.{
  Jwt, IsSigner, Request, abort, generate_jwt, auth_middleware, jwt_lifetime, unauthorized,
}
use wol_secure_light_switch.Auth.Tokens.{Carries, auth_middleware_stale}

-- With a JWT library that parses what it signed and tables whose keys are unique: after a
-- successful revocation of the version that a user record carries, a token made from that record
-- is refused, however it is sent, at each time before it expires. The user's id is below 2 ^ 64.
pub revoked_token_refused :
    (j : Jwt) (secret : Text) (e f : Engine) (t : Tables) (u : User) (r : Request) (token : Text)
    (issued now : ℕ)
    → IsSigner j
    → IsUnique t
    → f.fails 0 ≡ false
    → (revoke_user_tokens f t u.id u.token_version).1 ≡ ok tt
    → generate_jwt j secret u issued ≡ some token
    → Carries r token
    → now < j.numeric_date (issued + jwt_lifetime)
    → u.id < 2 ^ 64
    → auth_middleware j secret e (revoke_user_tokens f t u.id u.token_version).0 r now
      ≡ abort unauthorized "Invalid or expired token"
revoked_token_refused j secret e f t u r token issued now signer v fine done made carried fresh
      small =
    auth_middleware_stale j secret e (revoke_user_tokens f t u.id u.token_version).0 r now u token
      issued signer made carried fresh small
      (moved_on (revoke_user_tokens-swap f t u.id u.token_version v fine))
  where
    moved_on :
        (((w : UserRow) × (user_at t u.id ≡ some w)
            × (w.token_version ≡ u.token_version)
            × ((revoke_user_tokens f t u.id u.token_version).1 ≡ ok tt)
            × (user_at (revoke_user_tokens f t u.id u.token_version).0 u.id
                ≡ some (record w { token_version = u.token_version + 1 })))
          ⊎ (((w : UserRow) → user_at t u.id ≡ some w → w.token_version ≢ u.token_version)
              × (revoke_user_tokens f t u.id u.token_version ≡ (t, err token_no_longer_valid))))
        → (stored : UserRow)
        → user_at (revoke_user_tokens f t u.id u.token_version).0 u.id ≡ some stored
        → stored.token_version ≢ u.token_version
    moved_on (inl (w, _, _, _, after)) stored found = λ same_version.
        let same_row : some (record w { token_version = u.token_version + 1 }) ≡ some stored =
          sym after ∙ found in
        ground (arith, same_row)
    moved_on (inr (_, refused)) stored found = λ same_version. cc (refused, done)

-- With a JWT library that parses what it signed and tables whose keys are unique: after a
-- successful update of a stored user that sets a password that is not empty or changes the role, a
-- token made from the user as it was before is refused, however it is sent, at each time before it
-- expires. The user's id is below 2 ^ 64.
pub updated_token_refused :
    (j : Jwt) (secret : Text) (e f : Engine) (t : Tables) (u : User) (hash : Option Text)
    (b : Option Bool) (ids : Option (List Text)) (r : Request) (token : Text) (issued now : ℕ)
    → IsSigner j
    → IsUnique t
    → user_at t u.id ≡ some u.row
    → ((given hash ≢ none) ⊎ ((b ≢ none) × (b ≢ some u.is_admin)))
    → (update_user f t u.id hash b ids).1 ≡ ok tt
    → generate_jwt j secret u issued ≡ some token
    → Carries r token
    → now < j.numeric_date (issued + jwt_lifetime)
    → u.id < 2 ^ 64
    → auth_middleware j secret e (update_user f t u.id hash b ids).0 r now
      ≡ abort unauthorized "Invalid or expired token"
updated_token_refused j secret e f t u hash b ids r token issued now signer v found changed done
      made carried fresh small =
    auth_middleware_stale j secret e (update_user f t u.id hash b ids).0 r now u token issued signer
      made carried fresh small moved_on
  where
    raised : (assign (given hash) b u.row).token_version ≡ u.token_version + 1
    raised = ground (arith, assign-token_version (given hash) b u.row)

    moved_on :
        (stored : UserRow)
        → user_at (update_user f t u.id hash b ids).0 u.id ≡ some stored
        → stored.token_version ≢ u.token_version
    moved_on stored after = elim (update_user-effect f t u.id v hash b ids) [
      | inl (_, (w, at_w, _, written), _) ↦ λ same_version.
          let same_row : some (assign (given hash) b w) ≡ some stored = sym written ∙ after in
          let same_old : some w ≡ some u.row = sym at_w ∙ found in
          ground (arith, same_row, same_old, raised)
      | inr (_, (x, failed)) ↦ λ same_version. cc (failed, done)
    ]
