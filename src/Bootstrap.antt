-- ===== src/Bootstrap.antt =====
-- backend/internal/config/bootstrap.go, and the JWT secret of backend/internal/auth/auth.go: the
-- files of the first start. A file is its contents, `none` if there is none. What the operating
-- system answers in a call is the record `Disk`; an error is `none` or a message.
pub mod Secrets
use Prim.Native.String.{String}
use wol_secure_light_switch.Prelude.{
  ℕ, ◌+◌, ◌*◌, ◌/◌, ◌%◌, ◌≡◌, Bool, true, false, not, ◌&&◌, ◌||◌, Option, none, some, List, [], ◌∷◌,
  Text, codes, same, ltb, ◌==◌, length, if◌then◌else◌, trim_space, trim_left, trim_right,
}

-- What is left of a file whose removal fails is `partial`, or all that was written.
pub record Disk : Type 0 where
  pub read_fails : Bool
  pub reread_fails : Bool
  pub random : Option (List ℕ)
  -- a file that another process creates before the open
  pub raced : Option Text
  pub open_fails : Bool
  pub write_fails : Bool
  pub close_fails : Bool
  pub remove_fails : Bool
  pub partial : Text

abbrev pub left_over : Disk → Text → Option Text
left_over d contents = if d.remove_fails then some contents else none

-- Behind `os.OpenFile` with O_EXCL, for a file that it created: the file, and whether all went well.
unfoldable pub write_new : Disk → Text → Option Text × Bool
write_new d contents =
    if d.write_fails
    then (left_over d d.partial, false)
    else if d.close_fails
    then (left_over d contents, false)
    else (some contents, true)

-- The file, and whether the error is nil.
unfoldable pub ensure_initial_hosts : Disk → Option Text → Option Text × Bool
unfolding write_new
ensure_initial_hosts d (some contents) = (some contents, not d.open_fails)
ensure_initial_hosts d none = if d.open_fails then (none, false) else write_new d (codes "[]\n")

-- `hex.Encode`
abbrev pub hex_digit : ℕ → ℕ
hex_digit n = if ltb n 10 then b'0' + n else 87 + n

abbrev pub hex : List ℕ → Text
hex [] = []
hex (b ∷ bytes) = hex_digit (b / 16) ∷ hex_digit (b % 16) ∷ hex bytes

abbrev pub returned : Text → Option Text × Bool → Option Text × Option Text
returned secret (file, written) = (file, if written then some secret else none)

-- The open that creates the file, unless another process just did.
unfoldable pub create_secret : Disk → Text → Option Text × Option Text
unfolding write_new
create_secret d secret = elim d.raced [
  | some contents ↦ (some contents, if d.reread_fails then none else some contents)
  | none ↦ if d.open_fails then (none, none) else returned secret (write_new d secret)
]

-- The file, and the secret.
unfoldable pub load_or_create_jwt_secret : Disk → Option Text → Option Text × Option Text
unfolding create_secret
load_or_create_jwt_secret d file = if d.read_fails then (file, none) else (elim file [
  | some contents ↦ (some contents, some contents)
  | none ↦ elim d.random [ none ↦ (none, none) | some bytes ↦ create_secret d (hex bytes) ]
])

abbrev pub minimum_jwt_secret_length : ℕ
minimum_jwt_secret_length = 32

abbrev pub is_insecure : Text → Bool
is_insecure s =
    same s (codes "default-insecure-secret-change-me")
    || same s (codes "your_very_long_and_random_jwt_secret")

-- The variables JWT_SECRET_FILE, JWT_SECRET and INITIALIZE_DATA.
pub record Environment : Type 0 where
  pub jwt_secret_file : Text
  pub jwt_secret : Text
  pub initialize_data : Text
  pub read_file : Text → Option Text

pub data Loaded : Type 0 where
  secret : Text → Loaded
  refused : String → Loaded

abbrev pub is_quote : ℕ → Bool
is_quote c = c == 34 || c == 39

-- `strings.Trim(secret, "\"'")`
unfoldable pub unquoted : Text → Text
unquoted s = trim_right is_quote (trim_left is_quote s)

-- The checks on the secret.
unfoldable pub check_secret : Text → Loaded
check_secret s =
    if same s []
    then refused "JWT secret is required: set JWT_SECRET_FILE or JWT_SECRET"
    else if ltb (length s) minimum_jwt_secret_length
    then refused "JWT secret must be at least 32 characters"
    else if is_insecure (unquoted s)
    then refused "JWT secret must not use a known placeholder"
    else secret s

abbrev pub from_contents : Option Text → String → Loaded
from_contents none e = refused e
from_contents (some contents) e = check_secret (trim_space contents)

unfoldable pub load_jwt_secret : Environment → Disk → Option Text → Option Text × Loaded
unfolding check_secret load_or_create_jwt_secret
load_jwt_secret env d file =
    if not (same (trim_space env.jwt_secret_file) [])
    then (
      file,
      from_contents (env.read_file (trim_space env.jwt_secret_file)) "read JWT_SECRET_FILE",
    )
    else if not (same (trim_space env.jwt_secret) [])
    then (file, check_secret (trim_space env.jwt_secret))
    else if same env.initialize_data (codes "true")
    then (
      (load_or_create_jwt_secret d file).0,
      from_contents (load_or_create_jwt_secret d file).1 "load generated JWT secret",
    )
    else (file, check_secret [])
