-- ===== src/Bootstrap/Secrets.antt =====
-- backend/internal/auth/auth.go and config/bootstrap.go: which secrets are accepted, and that the
-- files of the first start stay.
use Prim.Native.String.{String}
use wol_secure_light_switch.Prelude.{
  ◌≤◌, ◌≡◌, ◌⊎◌, inl, inr, true, false, Option, none, some, arith, [], Text, codes, same, length,
  Bool-cases, trim_space,
}
use wol_secure_light_switch.Bootstrap.{
  Disk, write_new, ensure_initial_hosts, create_secret, load_or_create_jwt_secret, is_insecure,
  Environment, secret, unquoted, check_secret, from_contents, load_jwt_secret,
}

-- A secret of 32 characters or more that is no placeholder, in quotes or not.
abbrev pub IsStrong : Text → Type 0
IsStrong s = (32 ≤ length s) × (is_insecure (unquoted s) ≡ false)

check_secret-IsStrong : (s : Text) {t : Text} → check_secret s ≡ secret t → IsStrong t
unfolding check_secret
check_secret-IsStrong s {t} h = ground (arith, h)

from_contents-IsStrong :
    (o : Option Text) (e : String) {t : Text} → from_contents o e ≡ secret t → IsStrong t
from_contents-IsStrong none e h = absurd (cc h)
from_contents-IsStrong (some contents) e {t} h = check_secret-IsStrong _ {t = t} h

-- A JWT secret that is accepted, wherever it comes from, has at least 32 characters and is no
-- known placeholder, not even in quotes.
pub load_jwt_secret-IsStrong :
    (env : Environment) (d : Disk) (file : Option Text) {s : Text}
    → (load_jwt_secret env d file).1 ≡ secret s
    → IsStrong s
unfolding load_jwt_secret
load_jwt_secret-IsStrong env d file {s} h =
    elim (Bool-cases (same (trim_space env.jwt_secret_file) [])) [
      | inr file_given ↦
          from_contents-IsStrong (env.read_file (trim_space env.jwt_secret_file))
            "read JWT_SECRET_FILE" {t = s} (ground (arith, h))
      | inl no_file ↦ elim (Bool-cases (same (trim_space env.jwt_secret) [])) [
        | inr given ↦ check_secret-IsStrong (trim_space env.jwt_secret) {t = s} (ground (arith, h))
        | inl not_given ↦ elim (Bool-cases (same env.initialize_data (codes "true"))) [
          | inl generated ↦
              from_contents-IsStrong (load_or_create_jwt_secret d file).1
                "load generated JWT secret" {t = s} (ground (arith, h))
          | inr missing ↦ check_secret-IsStrong [] {t = s} (ground (arith, h))
        ]
      ]
    ]

-- If a call gives a secret, read or created, the file holds it afterwards, and a later call on
-- that file whose read does not fail gives the same secret and leaves the file.
pub load_or_create_jwt_secret-kept :
    (d later : Disk) (file : Option Text) {s : Text}
    → (load_or_create_jwt_secret d file).1 ≡ some s
    → later.read_fails ≡ false
    → load_or_create_jwt_secret later (load_or_create_jwt_secret d file).0 ≡ (some s, some s)
load_or_create_jwt_secret-kept d later file {s} h fine =
    let stored : (load_or_create_jwt_secret d file).0 ≡ some s =
      unfold load_or_create_jwt_secret create_secret write_new in ground (arith, h) in
    rw stored (unfold load_or_create_jwt_secret in ground (arith, fine))

-- An existing file of hosts stays as it is; a missing one is created with the empty list, or an
-- error is reported and, unless the removal fails, no file is left.
pub ensure_initial_hosts-effect :
    (d : Disk) (file : Option Text)
    → (((contents : Text) → file ≡ some contents → (ensure_initial_hosts d file).0 ≡ some contents)
        × (file ≡ none
            → ((ensure_initial_hosts d file ≡ (some (codes "[]\n"), true))
                ⊎ (((ensure_initial_hosts d file).1 ≡ false)
                    × (d.remove_fails ≡ false → (ensure_initial_hosts d file).0 ≡ none)))))
unfolding ensure_initial_hosts write_new
ensure_initial_hosts-effect d (some contents) = (λ c h. h, λ h. absurd (cc h))
ensure_initial_hosts-effect d none = (λ c h. absurd (cc h), λ h. ground arith)
