-- ===== src/Server/Middleware/Tracing.antt =====
-- backend/internal/server/middleware.go: the id that an answer carries.
use Prim.Native.String.{String}
use wol_secure_light_switch.Prelude.{
  ℕ, suc, ◌/◌, ◌%◌, ◌≤◌, ◌<◌, ◌≡◌, refl, ◌≢◌, ◌⊎◌, inl, inr, ◌∙◌, true, some, List, [], ◌∷◌, ◌++◌,
  Text, codes, same_ne, ltb, length, take, length-take-le, take_all, arith, text_dec, if_neg,
  if_pos, Bool-cases, Option-cases, All,
}
use wol_secure_light_switch.Prelude.Map.{lookup, lookup-put}
use wol_secure_light_switch.Bootstrap.{hex, hex_digit}
use wol_secure_light_switch.Server.{max_request_body_bytes}
use wol_secure_light_switch.Server.Middleware.{
  Reader, unlimited, max_bytes_reader, limited_body, Passing, Draw, set_header, set_headers,
  security_values, hex_digits_of, new_request_id, request_id_header, request_id_for,
  request_id_middleware, request_body_limit, security_headers, respond_action_failure, prepare,
}

append_one-ne : (s : Text) (c : ℕ) → s ++ c ∷ [] ≢ []
append_one-ne [] c = λ e. cc e
append_one-ne (x ∷ s) c = λ e. cc e

hex_digits_of-ne : (fuel n : ℕ) → hex_digits_of (suc fuel) n ≢ []
unfolding hex_digits_of
hex_digits_of-ne fuel n =
    ground (arith, append_one-ne (hex_digits_of fuel (n / 16)) (hex_digit (n % 16)))

-- The random source fills 16 bytes or reports an error.
abbrev pub IsDraw : Draw → Type 0
IsDraw d = (value : List ℕ) → d.random ≡ some value → length value ≡ 16

new_request_id-ne : (d : Draw) → IsDraw d → new_request_id d ≢ []
unfolding new_request_id
new_request_id-ne d v = elim (Option-cases d.random) [
  | inl failed ↦ rw failed (hex_digits_of-ne d.unix_nano d.unix_nano)
  | inr (value, filled) ↦ rw filled (hex-ne value (v value filled))
]
  where
    hex-ne : (value : List ℕ) → length value ≡ 16 → hex value ≢ []
    hex-ne [] h = absurd (omega (arith, h))
    hex-ne (b ∷ bytes) h = λ e. cc e

lookup-set_header :
    (name value : String) (p : Passing)
    → codes name ≢ request_id_header
    → lookup request_id_header (set_header name value p).headers
      ≡ lookup request_id_header p.headers
lookup-set_header name value p ne =
    lookup-put (codes name) request_id_header (codes value) p.headers
    ∙ if_neg (text_dec (codes name) request_id_header) ne _ _

set_headers-id :
    (headers : List (String × String)) (p : Passing)
    → All (λ h. codes h.0 ≢ request_id_header) headers
    → (lookup request_id_header (set_headers headers p).headers
        ≡ lookup request_id_header p.headers)
      × ((set_headers headers p).request_id ≡ p.request_id)
      × ((set_headers headers p).body ≡ p.body)
unfolding set_headers
set_headers-id [] p h = (refl, refl, refl)
set_headers-id ((name, value) ∷ headers) p (ne, rest) =
    let (header, context, body) = set_headers-id headers (set_header name value p) rest in
    (header ∙ lookup-set_header name value p ne, context, body)

security_headers-id :
    (p : Passing)
    → (lookup request_id_header (security_headers p).headers ≡ lookup request_id_header p.headers)
      × ((security_headers p).request_id ≡ p.request_id)
      × ((security_headers p).body ≡ p.body)
unfolding security_headers text_dec
security_headers-id p =
    set_headers-id security_values p
      ((λ e. cc e), ((λ e. cc e), ((λ e. cc e), ((λ e. cc e), ((λ e. cc e), tt)))))

prepare-id :
    (d : Draw) (p : Passing)
    → (lookup request_id_header (prepare d p).headers ≡ some (new_request_id d))
      × ((prepare d p).request_id ≡ some (new_request_id d))
      × ((prepare d p).body ≡ limited_body p.body)
unfolding prepare request_body_limit request_id_middleware
prepare-id d p =
    let q = request_body_limit (request_id_middleware d p) in
    let (header, context, body) = security_headers-id q in
    (
      header
          ∙ lookup-put request_id_header request_id_header (new_request_id d) p.headers
          ∙ if_pos (text_dec request_id_header request_id_header) refl _ _,
      context,
      body,
    )

respond_known :
    (later : Draw) (q : Passing) (id : Text) (status : ℕ) (message : String)
    → q.request_id ≡ some id
    → id ≢ []
    → respond_action_failure later q status message
      ≡ (q, record { status = status; error = message; request_id = id })
unfolding respond_action_failure request_id_for
respond_known later q id status message h ne = rw (h, same_ne id [] ne) refl

-- If the random source fills 16 bytes or reports an error: behind the engine's middlewares, the
-- body of an action's failure names the request id that the first middleware drew, which is not
-- empty and is also the X-Request-ID header of the answer, and no further id is drawn.
pub respond_action_failure-traced :
    (d later : Draw) (p : Passing) (status : ℕ) (message : String)
    → IsDraw d
    → (respond_action_failure later (prepare d p) status message
        ≡ (prepare d p, record { status = status; error = message; request_id = new_request_id d }))
      × (lookup request_id_header (prepare d p).headers ≡ some (new_request_id d))
      × (new_request_id d ≢ [])
respond_action_failure-traced d later p status message v =
    let (header, context, _) = prepare-id d p in
    let not_empty = new_request_id-ne d v in
    (
      respond_known later (prepare d p) (new_request_id d) status message context not_empty,
      header,
      not_empty,
    )

-- Behind the engine's middlewares at most 64 KiB of a request's body can be read: a body within
-- the limit is read whole, and the reading of a longer one ends in an error.
pub prepare-bounded :
    (d : Draw) (p : Passing) (body : Text)
    → p.body ≡ some (unlimited body)
    → (r : Reader) × ((prepare d p).body ≡ some r)
      × (length r.bytes ≤ max_request_body_bytes)
      × (((length body ≤ max_request_body_bytes) × (r ≡ unlimited body))
          ⊎ ((max_request_body_bytes < length body) × (r.too_large ≡ true)))
prepare-bounded d p body h =
    let (_, _, kept) = prepare-id d p in
    (
      max_bytes_reader (unlimited body) max_request_body_bytes,
      kept ∙ rw h refl,
      length-take-le max_request_body_bytes body,
      elim (Bool-cases (ltb max_request_body_bytes (length body))) [
        | inl above ↦ inr (ground (arith, above), rw above refl)
        | inr fits ↦
            let whole : take max_request_body_bytes body ≡ body =
              take_all max_request_body_bytes body (ground (arith, fits)) in
            inl (ground (arith, fits), rw (fits, whole) refl)
      ],
    )
