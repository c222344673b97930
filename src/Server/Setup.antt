-- ===== src/Server/Setup.antt =====
-- backend/internal/server: what router.go builds around the routes, and the server of http.go. gin's
-- answer to the list of trusted proxies and the files that `os.Stat` finds are parameters.
use wol_secure_light_switch.Prelude.{
  ℕ, ◌*◌, Bool, Option, none, some, List, [], ◌∷◌, ◌++◌, Text, codes, if◌then◌else◌,
}
use wol_secure_light_switch.Limiter.{second}

-- The directory of the frontend's build.
unfoldable pub frontend_path : (Text → Bool) → Text
frontend_path exists =
    if exists (codes "../frontend/dist/index.html")
    then codes "../frontend/dist"
    else if exists (codes "./frontend/dist/index.html")
    then codes "./frontend/dist"
    else codes "/app/frontend/dist"

-- A path of the site, with the file or the directory that is served there. Every path without a
-- route gets the page `index`.
pub record Frontend : Type 0 where
  pub static : List (Text × Text)
  pub index : Text

unfoldable pub frontend : (Text → Bool) → Option Frontend
unfolding frontend_path
frontend exists =
    let path = frontend_path exists in
    if exists (path ++ codes "/index.html")
    then some (record {
      static =
          (codes "/assets", path ++ codes "/assets")
          ∷ (codes "/logo.svg", path ++ codes "/logo.svg")
          ∷ (codes "/power.svg", path ++ codes "/power.svg")
          ∷ [];
      index = path ++ codes "/index.html";
    })
    else none

-- The engine around the API's routes.
pub record Site : Type 0 where
  pub trusted_proxies : List Text
  pub pages : Option Frontend

unfoldable pub new_router : (List Text → Bool) → (Text → Bool) → List Text → Option Site
unfolding frontend
new_router accepts_proxies exists trusted_proxies =
    if accepts_proxies trusted_proxies
    then some (record { trusted_proxies = trusted_proxies; pages = frontend exists })
    else none

pub record HttpServer : Type 0 where
  pub address : Text
  pub read_header_timeout : ℕ
  pub read_timeout : ℕ
  pub write_timeout : ℕ
  pub idle_timeout : ℕ

unfoldable pub new_http_server : Text → HttpServer
new_http_server address = record {
  address = address;
  read_header_timeout = 5 * second;
  read_timeout = 15 * second;
  write_timeout = 60 * second;
  idle_timeout = 120 * second;
}
