-- ===== src/Server/Moves/Login.antt =====
-- backend/internal/server with auth and store: the cookie of a login opens a session.
use wol_secure_light_switch.Prelude.{
  ℕ, ◌+◌, ◌^◌, ◌<◌, ◌≡◌, refl, sym, subst, ap, ◌∙◌, false, some, arith, Text, inl, inr,
}
use wol_secure_light_switch.Prelude.Map.{Map}
use wol_secure_light_switch.Store.{
  UserRow, User, Tables, Engine, IsKeyed, ok, get_user_by_email, has_email,
}
use wol_secure_light_switch.Store.Keys.{IsUnique}
use wol_secure_light_switch.Store.Users.{user_at}
use wol_secure_light_switch.Store.Directory.View.{find_row-at_id}
use wol_secure_light_switch.Auth.{IsSigner, Request, generate_jwt, jwt_lifetime}
use wol_secure_light_switch.Auth.Tokens.{Carries, auth_middleware_issued}
use wol_secure_light_switch.Monitor.{HostState}
use wol_secure_light_switch.Server.{Services, World, App, Response, respond, set_token}
use wol_secure_light_switch.Server.Login.{LoginRequest, handle_login, handle_current_user}
use wol_secure_light_switch.Server.Login.Laws.{IsSession, handle_login-IsSession}
use wol_secure_light_switch.Server.Devices.{Actions, nothing}
use wol_secure_light_switch.Server.Router.{protected, session, chain, serve, serve_protected}
use wol_secure_light_switch.Server.Moves.Logins.{handle_login-Moves}
use wol_secure_light_switch.Server.Moves.Histories.{IsSane, Moves-IsSane, Moves-secret}

-- A user that the email finds is the one that its id finds.
read_by_email :
    (e : Engine) (t : Tables) (email : Text) {u : User}
    → IsUnique t
    → get_user_by_email e t email ≡ ok u
    → user_at t u.id ≡ some u.row
unfolding get_user_by_email
read_by_email e t email {u} v h =
    find_row-at_id (has_email email) t.users {w = u.row} (ground (arith, h)) (v.ids u.id)

module _ (s : Services) (w : World) (a : App) (request : LoginRequest) where
  abbrev pub logged_in : App × Response
  logged_in = handle_login s w a (some request)

  session_stored :
      {u : User}
      → IsUnique logged_in.0.tables
      → IsSession s w a request logged_in.0 u
      → user_at logged_in.0.tables u.id ≡ some u.row
  session_stored {u} v q = elim q.entitled [
    | inl (read, _, kept) ↦
        read_by_email (w.db 0) logged_in.0.tables q.email {u = u} v (rw kept read)
    | inr (_, _, (hash, _, _, read)) ↦
        read_by_email (w.db 3) logged_in.0.tables q.email {u = u} v read
  ]

  -- With a JWT library that parses what it signed, from a sane state: after a login that is
  -- answered 200 and sets a token, a request for the session that carries the token before it
  -- expires, while no statement of the middleware's read reports an error, is answered 200 with
  -- the body of the login, and changes nothing. Stored ids are positive and below 2 ^ 64.
  pub login_opens_session :
      (x : Actions) (status : Map HostState) (w' : World) (r : Request) (token : Text)
      → IsSigner s.jwt
      → IsSane s a
      → ((n : ℕ) → IsKeyed (w.db n))
      → logged_in.1.status ≡ 200
      → logged_in.1.cookie ≡ set_token token
      → Carries r token
      → w'.auth_clock < s.jwt.numeric_date (w.clock 2 + jwt_lifetime)
      → ((n : ℕ) → w'.auth_db.fails n ≡ false)
      → ((id : ℕ) (u : UserRow) → user_at logged_in.0.tables id ≡ some u → (0 < id) × (id < 2 ^ 64))
      → serve s w' x status logged_in.0 r (protected session)
        ≡ (logged_in.0, respond 200 logged_in.1.body, nothing)
  unfolding serve serve_protected handle_current_user
  login_opens_session x status w' r token signer sane keyed done sent carried fresh fine small =
      let b = logged_in.0 in
      let (u, q, (made_token, made, answer)) = handle_login-IsSession s w a request done in
      let moves = handle_login-Moves s w a (some request) in
      let stored = session_stored {u = u} (Moves-IsSane s w keyed sane moves).tables q in
      let (positive, bounded) = small u.id u.row stored in
      let same_token : made_token ≡ token = cc (sent, ap (λ (m : Response). m.cookie) answer) in
      rw
        (
          auth_middleware_issued s.jwt b.secret w'.auth_db b.tables r w'.auth_clock u token
              (w.clock 2) u.row signer fine
              (subst (λ k. generate_jwt s.jwt k u (w.clock 2) ≡ some token)
                (sym (Moves-secret s w moves)) (made ∙ ap some same_token))
              carried fresh positive bounded stored refl,
          chain,
          answer,
        )
        refl
