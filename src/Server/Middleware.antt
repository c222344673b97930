-- ===== src/Server/Middleware.antt =====
-- backend/internal/server/middleware.go: what each request passes before its route. A request is
-- the headers of its answer, the request id of its context, and its body, whose units are bytes.
-- What the random source and the clock give to one draw is `Draw`.
pub mod Tracing
use Prim.Native.String.{String}
use wol_secure_light_switch.Prelude.{
  ℕ, zero, suc, ◌+◌, ◌/◌, ◌%◌, Bool, true, false, Option, none, some, List, [], ◌∷◌, ◌++◌, Text,
  codes, same, ltb, length, take, if◌then◌else◌,
}
use wol_secure_light_switch.Prelude.Map.{Map, put}
use wol_secure_light_switch.Bootstrap.{hex, hex_digit}
use wol_secure_light_switch.Server.{max_request_body_bytes}

-- A body behind `http.MaxBytesReader`: the bytes that it gives, and whether an error ends them.
pub record Reader : Type 0 where
  pub bytes : Text
  pub too_large : Bool

abbrev pub unlimited : Text → Reader
unlimited body = record { bytes = body; too_large = false }

abbrev pub max_bytes_reader : Reader → ℕ → Reader
max_bytes_reader r limit = record {
  bytes = take limit r.bytes;
  too_large = if ltb limit (length r.bytes) then true else r.too_large;
}

pub record Passing : Type 0 where
  pub headers : Map Text
  pub request_id : Option Text
  pub body : Option Reader

abbrev pub set_header : String → String → Passing → Passing
set_header name value p = record p { headers = put (codes name) (codes value) p.headers }

-- `c.Header` for each name and value, in order.
unfoldable pub set_headers : List (String × String) → Passing → Passing
set_headers [] p = p
set_headers ((name, value) ∷ headers) p = set_headers headers (set_header name value p)

abbrev pub security_values : List (String × String)
security_values =
    (
      "Content-Security-Policy",
      "default-src 'self'; base-uri 'self'; form-action 'self'; frame-ancestors 'none'; object-src 'none'; script-src 'self'; style-src 'self' 'unsafe-inline'; img-src 'self' data:; connect-src 'self'",
    )
    ∷ ("Strict-Transport-Security", "max-age=31536000; includeSubDomains")
    ∷ ("X-Content-Type-Options", "nosniff")
    ∷ ("X-Frame-Options", "DENY")
    ∷ ("Referrer-Policy", "no-referrer")
    ∷ []

unfoldable pub security_headers : Passing → Passing
unfolding set_headers
security_headers p = set_headers security_values p

abbrev pub limited_body : Option Reader → Option Reader
limited_body none = none
limited_body (some r) = some (max_bytes_reader r max_request_body_bytes)

unfoldable pub request_body_limit : Passing → Passing
request_body_limit p = record p { body = limited_body p.body }

-- `cryptoRand.Read` into 16 bytes, and `time.Now().UnixNano()`.
pub record Draw : Type 0 where
  pub random : Option (List ℕ)
  pub unix_nano : ℕ

-- `strconv.FormatInt` in base 16, with fuel for each digit; the number itself is enough.
unfoldable pub hex_digits_of : ℕ → ℕ → Text
hex_digits_of zero n = []
hex_digits_of (suc fuel) n =
    let front = hex_digits_of fuel (n / 16) in
    if ltb n 16 then hex_digit n ∷ [] else front ++ hex_digit (n % 16) ∷ []

unfoldable pub new_request_id : Draw → Text
unfolding hex_digits_of
new_request_id d = elim d.random [
  | some value ↦ hex value
  | none ↦ hex_digits_of (suc d.unix_nano) d.unix_nano
]

abbrev pub request_id_header : Text
request_id_header = codes "X-Request-ID"

abbrev set_request_id : Text → Passing → Passing
set_request_id id p = record p {
  headers = put request_id_header id p.headers;
  request_id = some id;
}

unfoldable pub request_id_middleware : Draw → Passing → Passing
request_id_middleware d p = set_request_id (new_request_id d) p

abbrev drawn : Draw → Passing → Passing × Text
drawn d p = (set_request_id (new_request_id d) p, new_request_id d)

-- The id of the context, or a new one if it is missing or empty.
unfoldable pub request_id_for : Draw → Passing → Passing × Text
request_id_for d p = elim p.request_id [
  | none ↦ drawn d p
  | some value ↦ if same value [] then drawn d p else (p, value)
]

-- The body of the answer to an action that failed.
pub record ActionFailure : Type 0 where
  pub status : ℕ
  pub error : String
  pub request_id : Text

unfoldable pub respond_action_failure : Draw → Passing → ℕ → String → Passing × ActionFailure
unfolding request_id_for
respond_action_failure d p status message =
    let (q, id) = request_id_for d p in
    (q, record { status = status; error = message; request_id = id })

-- The middlewares of the engine in their order, but for gin's own logger and recovery.
unfoldable pub prepare : Draw → Passing → Passing
unfolding request_id_middleware request_body_limit security_headers
prepare d p = security_headers (request_body_limit (request_id_middleware d p))
