-- ===== src/Server/Moves/Logout.antt =====
-- backend/internal/server with auth and store: a token that was logged out stays out.
use Prim.Native.String.{String}
use wol_secure_light_switch.Prelude.{
  ℕ, ◌+◌, ◌^◌, ◌<◌, ◌≡◌, refl, ◌≢◌, subst, sym, ◌∙◌, List, Text, All, some, arith,
}
use wol_secure_light_switch.Prelude.Map.{Map}
use wol_secure_light_switch.Store.{
  UserRow, IsKeyed, User, Tables, Result, ok, err, revoke_user_tokens,
}
use wol_secure_light_switch.Store.Keys.{IsUnique}
use wol_secure_light_switch.Store.Versions.{Newer, revoke_user_tokens-Newer, version_of_Newer}
use wol_secure_light_switch.Auth.{
  IsSigner, Request, Context, Verdict, abort, next, generate_jwt, auth_middleware, jwt_lifetime,
  unauthorized,
}
use wol_secure_light_switch.Auth.Tokens.{Carries, auth_middleware_stale}
use wol_secure_light_switch.Auth.Sessions.{auth_middleware_code, issued_context}
use wol_secure_light_switch.Monitor.{HostState}
use wol_secure_light_switch.Server.{Services, World, App, respond, failure}
use wol_secure_light_switch.Server.Login.{handle_logout}
use wol_secure_light_switch.Server.Devices.{Actions, nothing}
use wol_secure_light_switch.Server.Router.{
  ProtectedCall, protected, logout, chain, Outcome, serve, serve_protected,
}
use wol_secure_light_switch.Server.Moves.Histories.{Exchange, serve_all, serve_all-Newer}

module _ (s : Services) (w : World) (x : Actions) (status : Map HostState) (a : App)
    (r : Request) where
  abbrev pub logout_outcome : Outcome
  logout_outcome = serve s w x status a r (protected logout)

  -- A successful logout names a context that the middleware let through, and revokes its version.
  logout_revokes :
      logout_outcome.1.status ≡ 204
      → ((code : ℕ) (e : String)
          → auth_middleware s.jwt a.secret w.auth_db a.tables r w.auth_clock ≡ abort code e
          → code ≢ 204)
      → (c : Context) × (auth_middleware s.jwt a.secret w.auth_db a.tables r w.auth_clock ≡ next c)
        × ((revoke_user_tokens (w.db 0) a.tables c.user_id c.token_version).1 ≡ ok tt)
        × (logout_outcome.0.tables
            ≡ (revoke_user_tokens (w.db 0) a.tables c.user_id c.token_version).0)
        × (logout_outcome.0.secret ≡ a.secret)
  unfolding serve serve_protected handle_logout
  logout_revokes done no_abort =
      by_verdict (auth_middleware s.jwt a.secret w.auth_db a.tables r w.auth_clock) refl
    where
      Revoked : Type 0
      Revoked =
          (c : Context) × (auth_middleware s.jwt a.secret w.auth_db a.tables r w.auth_clock
            ≡ next c)
          × ((revoke_user_tokens (w.db 0) a.tables c.user_id c.token_version).1 ≡ ok tt)
          × (logout_outcome.0.tables
              ≡ (revoke_user_tokens (w.db 0) a.tables c.user_id c.token_version).0)
          × (logout_outcome.0.secret ≡ a.secret)

      by_result :
          (c : Context) (m : Result (Unit {0}))
          → auth_middleware s.jwt a.secret w.auth_db a.tables r w.auth_clock ≡ next c
          → (revoke_user_tokens (w.db 0) a.tables c.user_id c.token_version).1 ≡ m
          → Revoked
      by_result c (err y) h e =
          absurd (omega (arith, rw (h, e, chain, serve, handle_logout) at done))
      by_result c (ok _) h e = (
        c,
        h,
        e,
        rw (h, e, chain, serve, handle_logout) refl,
        rw (h, e, chain, serve, handle_logout) refl,
      )

      by_verdict :
          (v : Verdict)
          → auth_middleware s.jwt a.secret w.auth_db a.tables r w.auth_clock ≡ v
          → Revoked
      by_verdict (abort code e) h = absurd (no_abort code e h (rw (h, chain, serve) at done))
      by_verdict (next c) h =
          by_result c (revoke_user_tokens (w.db 0) a.tables c.user_id c.token_version).1 h refl

  -- The version of a token that a fresh logout answered with 204 is over.
  logout-Newer :
      (u : User) (token : Text) (issued : ℕ)
      → IsSigner s.jwt
      → IsKeyed (w.db 0)
      → IsUnique a.tables
      → generate_jwt s.jwt a.secret u issued ≡ some token
      → Carries r token
      → w.auth_clock < s.jwt.numeric_date (issued + jwt_lifetime)
      → u.id < 2 ^ 64
      → logout_outcome.1.status ≡ 204
      → Newer u.id u.token_version logout_outcome.0.tables.users
        × (logout_outcome.0.secret ≡ a.secret)
  logout-Newer u token issued signer k v made carried fresh small done =
      let (c, authorised, revoked, tables, secret) = logout_revokes done (λ code e h is_204.
        let is_401 =
          auth_middleware_code s.jwt a.secret w.auth_db a.tables r w.auth_clock code e h in
        omega (arith, is_401, is_204)) in
      let (same_id, same_version) =
        issued_context s.jwt a.secret w.auth_db a.tables r w.auth_clock u token issued c signer made
          carried fresh small authorised in
      (
        subst (λ (t : Tables). Newer u.id u.token_version t.users) (sym tables)
            (subst
              (λ id.
                Newer id u.token_version
                  (revoke_user_tokens (w.db 0) a.tables c.user_id c.token_version).0.users)
              same_id
              (subst
                (λ n.
                  Newer c.user_id n
                    (revoke_user_tokens (w.db 0) a.tables c.user_id c.token_version).0.users)
                same_version
                (revoke_user_tokens-Newer (w.db 0) a.tables c.user_id c.token_version k v
                  revoked))),
        secret,
      )

-- The application after a logout and the requests that follow it.
abbrev pub after_logout : Services → App → Exchange → List Exchange → App
after_logout s a out xs =
    serve_all s (logout_outcome s out.world out.actions out.status a out.request).0 xs

-- With a JWT library that parses what it signed and tables whose keys are unique: after a logout
-- that is answered 204 by a token made from a user record, and after any requests that follow it,
-- whatever they are, as long as the database never allocates the user's id again, a protected
-- request that carries the token is refused as invalid and changes nothing, at each time before
-- the token expires. The user's id is below 2 ^ 64.
pub logged_out_forever :
    (s : Services) (a : App) (out : Exchange) (xs : List Exchange) (again : Exchange)
    (call : ProtectedCall) (u : User) (token : Text) (issued : ℕ)
    → IsSigner s.jwt
    → IsKeyed (out.world.db 0)
    → IsUnique a.tables
    → generate_jwt s.jwt a.secret u issued ≡ some token
    → u.id < 2 ^ 64
    → Carries out.request token
    → out.world.auth_clock < s.jwt.numeric_date (issued + jwt_lifetime)
    → (logout_outcome s out.world out.actions out.status a out.request).1.status ≡ 204
    → All (λ x. (n : ℕ) (us : List UserRow) → (x.world.db n).new_user_id us ≢ u.id) xs
    → Carries again.request token
    → again.world.auth_clock < s.jwt.numeric_date (issued + jwt_lifetime)
    → serve s again.world again.actions again.status
        (after_logout s a out xs)
        again.request
        (protected call)
      ≡ (
        after_logout s a out xs,
        respond unauthorized (failure "Invalid or expired token"),
        nothing,
      )
unfolding serve
logged_out_forever s a out xs again call u token issued signer k v made small carried fresh done
      no_reuse carried_again fresh_again =
    let a' = (logout_outcome s out.world out.actions out.status a out.request).0 in
    let (over, same_secret) =
      logout-Newer s out.world out.actions out.status a out.request u token issued signer k v made
        carried fresh small done in
    let (over_after, same_later) = serve_all-Newer s u.id u.token_version a' xs no_reuse over in
    let b = after_logout s a out xs in
    rw
      (
        auth_middleware_stale s.jwt b.secret again.world.auth_db b.tables again.request
            again.world.auth_clock u token issued signer
            (subst (λ k. generate_jwt s.jwt k u issued ≡ some token)
              (sym (same_later ∙ same_secret)) made)
            carried_again fresh_again small
            (λ w found same_version.
              let newer =
                version_of_Newer u.id u.token_version b.tables.users {u = w} over_after found in
              omega (arith, newer, same_version)),
        chain,
      )
      refl
