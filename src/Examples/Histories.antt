-- ===== src/Examples/Histories.antt =====
-- The theorems over sequences of requests, at a logout that is followed by a login.
use wol_secure_light_switch.Prelude.{
  ℕ, ◌+◌, ◌≡◌, refl, ◌≢◌, ◌<◌, inl, none, some, arith, List, [], ◌∷◌, ◌^◌, inr, Text, text_dec,
  trim_space, trim_left, trim_right,
}
use wol_secure_light_switch.Store.{UserRow, Engine, admins, revoke_user_tokens}
use wol_secure_light_switch.Store.Rows.{count_rows, find_row}
use wol_secure_light_switch.Store.{get_user_by_email}
use wol_secure_light_switch.Store.Users.{user_at}
use wol_secure_light_switch.Limiter.{
  new_limiter, retry_after, retry_loop, retry_key, cleanup_if_due, cleanup_expired,
  login_attempt_keys,
}
use wol_secure_light_switch.Loader.{new_loader}
use wol_secure_light_switch.Auth.{unauthorized, Request, generate_jwt, jwt_lifetime}
use wol_secure_light_switch.Server.{respond, failure, set_token, validate_email, validate_password}
use wol_secure_light_switch.Server.Login.{
  handle_logout, handle_login, checked_login, authenticate, known_user, accept,
}
use wol_secure_light_switch.Server.Devices.{nothing}
use wol_secure_light_switch.Server.Router.{
  login, protected, logout, session, chain, serve, serve_protected,
}
use wol_secure_light_switch.Server.Moves.Histories.{
  Exchange, serve_all, IsSane, serve_all-IsSane, serve_all-admins,
}
use wol_secure_light_switch.Server.Moves.Logout.{logout_outcome, after_logout, logged_out_forever}
use wol_secure_light_switch.Server.Moves.Login.{login_opens_session}
use wol_secure_light_switch.Prelude.Decimal.{format_uint}
use wol_secure_light_switch.Prelude.Map.{lookup, retain}
use wol_secure_light_switch.Examples.{tables, engine, engine-IsKeyed, tables-IsUnique, largest_id}
use wol_secure_light_switch.Examples.Tokens.{
  jwt-IsSigner, signature, secret, token, request, user, made, request_let_through,
}
use wol_secure_light_switch.Examples.Limits.{limiter-IsValid}
use wol_secure_light_switch.Examples.Requests.{services, world, app, actions, good_login, logged_in}

-- The ids of this engine begin with 2.
abbrev later_engine : Engine
later_engine = record engine { new_user_id = λ us. 2 + largest_id us }

abbrev log_out : Exchange
log_out = record {
  world = world;
  actions = actions;
  status = [];
  request = request;
  call = protected logout;
}

abbrev log_in : Exchange
log_in = record {
  world = record world { db = λ _. later_engine; clock = λ n. n + 30 };
  actions = actions;
  status = [];
  request = record { authorization = []; auth_cookie = none };
  call = login (some good_login);
}

app-IsSane : IsSane services app
app-IsSane = record {
  tables = tables-IsUnique;
  limiter = limiter-IsValid;
  loader = λ loaded. absurd (unfold new_loader in ground arith);
}

serve_all-IsSane_example : IsSane services (serve_all services app (log_out ∷ []))
serve_all-IsSane_example =
    serve_all-IsSane services app (log_out ∷ []) (λ _. engine-IsKeyed, tt) app-IsSane

one_admin : 0 < admins app.tables
unfolding count_rows
one_admin = omega arith

serve_all-admins_example : 0 < admins (serve_all services app (log_out ∷ log_in ∷ [])).tables
serve_all-admins_example = serve_all-admins services app (log_out ∷ log_in ∷ []) one_admin

logged_out : (logout_outcome services world actions [] app request).1.status ≡ 204
unfolding serve serve_protected handle_logout revoke_user_tokens count_rows
logged_out = rw (request_let_through, chain) refl

logged_out_forever_example :
    serve services world actions []
      (after_logout services app log_out (log_in ∷ []))
      request
      (protected session)
    ≡ (
      after_logout services app log_out (log_in ∷ []),
      respond unauthorized (failure "Invalid or expired token"),
      nothing,
    )
logged_out_forever_example =
    logged_out_forever services app log_out (log_in ∷ []) log_out session user token 5 jwt-IsSigner
      engine-IsKeyed tables-IsUnique made (omega arith) (inl refl) (omega arith) logged_out
      (λ _ us. no_reuse us, tt) (inl refl) (omega arith)
  where
    no_reuse : (us : List UserRow) → 2 + largest_id us ≢ 1
    no_reuse us e = omega (arith, e)

-- The token of the login, made at the time 22.
abbrev login_token : Text
login_token = signature secret ∷ 3 ∷ (22 + jwt_lifetime) ∷ 22 ∷ format_uint 1

abbrev next_request : Request
next_request = record { authorization = []; auth_cookie = some login_token }

sent : (handle_login services world app (some good_login)).1.cookie ≡ set_token login_token
unfolding handle_login checked_login authenticate known_user accept validate_email validate_password
    trim_space trim_left trim_right text_dec retry_after retry_loop retry_key cleanup_if_due
    cleanup_expired login_attempt_keys new_limiter lookup get_user_by_email find_row generate_jwt
    retain
sent = refl

kept : (handle_login services world app (some good_login)).0.tables ≡ tables
unfolding handle_login checked_login authenticate known_user accept validate_email validate_password
    trim_space trim_left trim_right text_dec retry_after retry_loop retry_key cleanup_if_due
    cleanup_expired login_attempt_keys new_limiter lookup get_user_by_email find_row generate_jwt
    retain
kept = refl

small :
    (id : ℕ) (u : UserRow)
    → user_at (handle_login services world app (some good_login)).0.tables id ≡ some u
    → (0 < id) × (id < 2 ^ 64)
small id u found = stored id (rw kept at found)
  where
    stored : (id : ℕ) → user_at tables id ≡ some u → (0 < id) × (id < 2 ^ 64)
    stored id found = unfold find_row in ground (arith, found)

login_opens_session_example :
    serve services world actions []
      (handle_login services world app (some good_login)).0
      next_request
      (protected session)
    ≡ (
      (handle_login services world app (some good_login)).0,
      respond 200 (handle_login services world app (some good_login)).1.body,
      nothing,
    )
login_opens_session_example =
    login_opens_session services world app good_login actions [] world next_request login_token
      jwt-IsSigner app-IsSane (λ _. engine-IsKeyed) logged_in sent (inr (refl, refl)) (omega arith)
      (λ _. refl) small
