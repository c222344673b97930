-- ===== src/Auth/Cookies.antt =====
-- backend/internal/auth/auth.go: the cookie that holds the token in a browser, and the password
-- hashes. Package bcrypt is the record `Bcrypt`.
use wol_secure_light_switch.Prelude.{ℕ, ◌/◌, Bool, true, Option, Text, [], codes}
use wol_secure_light_switch.Prelude.Int.{ℤ, pos, negsuc}
use wol_secure_light_switch.Limiter.{second}
use wol_secure_light_switch.Auth.{jwt_lifetime}

pub record HttpCookie : Type 0 where
  pub name : Text
  pub value : Text
  pub path : Text
  pub max_age : ℤ
  pub secure : Bool
  pub http_only : Bool
  pub same_site_strict : Bool

abbrev pub auth_cookie_name : Text
auth_cookie_name = codes "secure-switch-auth"

abbrev auth_cookie : Text → ℤ → HttpCookie
auth_cookie token max_age = record {
  name = auth_cookie_name;
  value = token;
  path = codes "/api";
  max_age = max_age;
  secure = true;
  http_only = true;
  same_site_strict = true;
}

unfoldable pub set_auth_cookie : Text → HttpCookie
set_auth_cookie token = auth_cookie token (pos (jwt_lifetime / second))

-- A negative age deletes the cookie.
unfoldable pub clear_auth_cookie : HttpCookie
clear_auth_cookie = auth_cookie [] (negsuc 0)

pub record Bcrypt : Type 0 where
  pub generate_from_password : Text → ℕ → Option Text
  pub matches : (hash password : Text) → Bool

unfoldable pub hash_password : Bcrypt → Text → Option Text
hash_password b password = b.generate_from_password password 14

unfoldable pub check_password_hash : Bcrypt → Text → Text → Bool
check_password_hash b password hash = b.matches hash password
