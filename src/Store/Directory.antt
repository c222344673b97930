-- ===== src/Store/Directory.antt =====
-- backend/internal/store: what the store promises about its users, without tables, rows, counts or
-- statements. A directory gives each id the user that it belongs to.
pub mod View
pub mod Refusals
pub mod Refinement
use wol_secure_light_switch.Prelude.{
  ℕ, ◌+◌, ◌≡◌, ◌≢◌, ◌⊎◌, Bool, true, false, Option, none, some, List, [], ◌∷◌, Text,
}
use wol_secure_light_switch.Store.{
  UserRow, Tables, Engine, StoreError, Result, ok, err, record_not_found, initial_admin_exists,
  last_administrator, token_no_longer_valid, database, given, assign,
}
use wol_secure_light_switch.Store.Users.{user_at}
use wol_secure_light_switch.Store.Keys.{Call, create, initial_admin, delete, update, revoke}

abbrev pub Directory : Type 0
Directory = ℕ → Option UserRow

abbrev pub view : Tables → Directory
view t = user_at t

abbrev pub IsAdmin : Directory → ℕ → Type 0
IsAdmin d id = (u : UserRow) × (d id ≡ some u) × (u.is_admin ≡ true)

-- An administrator other than this user.
abbrev pub OtherAdmin : Directory → ℕ → Type 0
OtherAdmin d id = (q : ℕ) × (q ≢ id) × IsAdmin d q

-- The user may stop being an administrator.
abbrev pub MayLose : Directory → ℕ → UserRow → Type 0
MayLose d id u = (u.is_admin ≡ false) ⊎ OtherAdmin d id

-- The user is the only administrator.
abbrev pub IsLast : Directory → ℕ → Type 0
IsLast d id = IsAdmin d id × ((q : ℕ) → IsAdmin d q → q ≡ id)

abbrev pub IsFree : Directory → Text → Type 0
IsFree d email = (q : ℕ) (u : UserRow) → d q ≡ some u → u.email ≢ email

-- One id is written, the others are as before.
abbrev pub Writes : Directory → Directory → ℕ → Option UserRow → Type 0
Writes d d' id m = (d' id ≡ m) × ((q : ℕ) → q ≢ id → d' q ≡ d q)

abbrev pub Same : Directory → Directory → Type 0
Same d d' = (q : ℕ) → d' q ≡ d q

abbrev pub new_user : ℕ → Text → Text → Bool → UserRow
new_user id email hash is_admin = record {
  id = id;
  email = email;
  password_hash = hash;
  is_admin = is_admin;
  token_version = 0;
}

abbrev pub KeepsRole : Option Bool → Directory → ℕ → UserRow → Type 0
KeepsRole (some false) d id u = MayLose d id u
KeepsRole _ d id u = Unit

-- What a call that succeeds has found, and what it does.
abbrev pub Success : Directory → Directory → Call → Type 0
Success d d' (create email hash is_admin ids) =
    (id : ℕ) × (d id ≡ none)
    × IsFree d email
    × Writes d d' id (some (new_user id email hash is_admin))
Success d d' (initial_admin email hash) =
    (id : ℕ) × (d id ≡ none)
    × IsFree d email
    × ((q : ℕ) → ¬ IsAdmin d q)
    × Writes d d' id (some (new_user id email hash true))
Success d d' (delete id) = (u : UserRow) × (d id ≡ some u) × MayLose d id u × Writes d d' id none
Success d d' (update id hash is_admin ids) =
    (u : UserRow) × (d id ≡ some u)
    × KeepsRole is_admin d id u
    × Writes d d' id (some (assign (given hash) is_admin u))
Success d d' (revoke id version) =
    (u : UserRow) × (d id ≡ some u)
    × (u.token_version ≡ version)
    × Writes d d' id (some (record u { token_version = version + 1 }))

-- What the database reports of its own: a statement failed, or a unique email is taken.
abbrev pub IsBroken : Engine → Type 0
IsBroken e = (n : ℕ) × (e.fails n ≡ true)

abbrev pub IsTaken : Directory → Text → Type 0
IsTaken d email = (q : ℕ) × (u : UserRow) × (d q ≡ some u) × (u.email ≡ email)

abbrev pub Collides : Directory → Call → Type 0
Collides d (create email hash is_admin ids) = IsTaken d email
Collides d (initial_admin email hash) = IsTaken d email
Collides d call = ⊥

-- What an answer of refusal says.
abbrev pub Refusal : Engine → Directory → Call → StoreError → Type 0
Refusal e d call database = IsBroken e ⊎ Collides d call
Refusal e d (initial_admin email hash) initial_admin_exists = (q : ℕ) × IsAdmin d q
Refusal e d (delete id) record_not_found = d id ≡ none
Refusal e d (delete id) last_administrator = IsLast d id
Refusal e d (update id hash is_admin ids) record_not_found = d id ≡ none
Refusal e d (update id hash is_admin ids) last_administrator = (is_admin ≡ some false) × IsLast d id
Refusal e d (revoke id version) token_no_longer_valid =
    (u : UserRow) → d id ≡ some u → u.token_version ≢ version
Refusal e d call x = ⊥

-- A call that succeeds does what it is for, one that is refused changes no user.
abbrev pub Step : Engine → Directory → Call → Result (Unit {0}) → Directory → Type 0
Step e d call (ok _) d' = Success d d' call
Step e d call (err x) d' = Refusal e d call x × Same d d'

-- A sequence of calls, each with the engine as it behaves then, and its answer.
unfoldable pub Steps : Directory → List (Engine × Call × Result (Unit {0})) → Directory → Type 0
Steps d [] d' = Same d d'
Steps d ((e, call, answer) ∷ rest) d' = (m : Directory) × Step e d call answer m × Steps m rest d'
