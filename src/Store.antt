-- ===== src/Store.antt =====
-- backend/internal/store: store.go, users.go and admin.go. The tables are lists of rows, and each
-- SQL statement of the source is what it does to them. What SQLite and gorm decide is the record
-- `Engine`: which statements report an error, the row ids they allocate, and whether the engine
-- enforces foreign keys. A call that fails inside a transaction leaves the tables as they were.
-- Integers in the tables are not bounded.
pub mod Rows
pub mod Keys
pub mod Admins
pub mod Users
pub mod Devices
pub mod Tokens
pub mod Versions
pub mod Directory
pub use Rows.{UserRow, DeviceRow, Tables}
use wol_secure_light_switch.Prelude.{
  ℕ, suc, ◌+◌, ◌<◌, ◌≡◌, Bool, true, false, not, ◌&&◌, ◌||◌, Option, none, some, List, [], ◌∷◌,
  ◌++◌, Text, same, ltb, ◌==◌, if◌then◌else◌,
}
use Rows.{find_row, count_rows, update_rows, delete_rows, devices_of, drop_devices}

pub data StoreError : Type 0 where
  record_not_found initial_admin_exists last_administrator token_no_longer_valid database :
      StoreError

pub data Result {ℓ} (A : Type ℓ) : Type ℓ where
  ok : A → Result A
  err : StoreError → Result A

-- A user with its preloaded devices.
pub record User : Type 0 where
  pub row : UserRow
  pub open row use *
  pub devices : List DeviceRow

pub record Engine : Type 0 where
  -- whether the n-th statement of the call reports an error
  pub fails : ℕ → Bool
  pub new_user_id : List UserRow → ℕ
  pub new_device_id : List DeviceRow → ℕ
  pub foreign_keys : Bool

-- The laws of a primary key: a new row's id is not 0 and belongs to no other row.
pub record IsKeyed (e : Engine) : Type 0 where
  pub fresh_user : (us : List UserRow) → count_rows (λ u. u.id == e.new_user_id us) us ≡ 0
  pub positive_user : (us : List UserRow) → 0 < e.new_user_id us

-- The conditions of the statements.
abbrev pub has_id : ℕ → UserRow → Bool
has_id id u = u.id == id

abbrev pub has_email : Text → UserRow → Bool
has_email email u = same u.email email

abbrev pub is_administrator : UserRow → Bool
is_administrator u = u.is_admin

abbrev pub admins : Tables → ℕ
admins t = count_rows is_administrator t.users

-- `is_admin = false OR (SELECT COUNT(*) ... is_admin) > 1`, read before the statement writes.
abbrev pub may_lose : Tables → UserRow → Bool
may_lose t u = not u.is_admin || ltb 1 (admins t)

-- `passwordHash != nil && *passwordHash != ""`
abbrev pub given : Option Text → Option Text
given none = none
given (some hash) = if same hash [] then none else some hash

-- The assignments of the update, on one row.
unfoldable pub set_role : Option Bool → UserRow → UserRow
set_role none u = u
set_role (some b) u = record u { is_admin = b }

abbrev pub role_changes : Option Bool → UserRow → Bool
role_changes none u = false
role_changes (some true) u = not u.is_admin
role_changes (some false) u = u.is_admin

unfoldable pub assign : Option Text → Option Bool → UserRow → UserRow
unfolding set_role
assign none is_admin u = record (set_role is_admin u) {
  token_version = u.token_version + (if role_changes is_admin u then 1 else 0);
}
assign (some hash) is_admin u = record (set_role is_admin u) {
  password_hash = hash;
  token_version = u.token_version + 1;
}

-- The row that the update is restricted to.
abbrev pub updatable : Tables → ℕ → Option Bool → UserRow → Bool
updatable t id (some false) u = has_id id u && may_lose t u
updatable t id _ u = has_id id u

module _ (e : Engine) where
  -- `Preload("Devices")` and `First`: the row, then its devices.
  unfoldable pub get_user_by_email : Tables → Text → Result User
  get_user_by_email t email =
      if e.fails 0 then err database else (elim (find_row (has_email email) t.users) [
        | none ↦ err record_not_found
        | some u ↦
            if e.fails 1
            then err database
            else ok (record { row = u; devices = devices_of u.id t.user_devices })
      ])

  unfoldable pub get_user_by_id : Tables → ℕ → Result User
  get_user_by_id t id = if e.fails 0 then err database else (elim (find_row (has_id id) t.users) [
    | none ↦ err record_not_found
    | some u ↦
        if e.fails 1
        then err database
        else ok (record { row = u; devices = devices_of u.id t.user_devices })
  ])

  -- The device rows of an insert, in order.
  unfoldable pub insert_devices : ℕ → List Text → List DeviceRow → List DeviceRow
  insert_devices user_id [] ds = ds
  insert_devices user_id (id ∷ ids) ds =
      insert_devices user_id ids
        (ds ++ record { id = e.new_device_id ds; user_id = user_id; device_id = id } ∷ [])

  unfoldable pub create_user : Tables → Text → Text → Bool → List Text → Tables × Result (Unit {0})
  create_user t email password_hash is_admin device_ids =
      let id = e.new_user_id t.users in
      let user : UserRow = record {
        id = id;
        email = email;
        password_hash = password_hash;
        is_admin = is_admin;
        token_version = 0;
      } in
      if e.fails 0 || e.fails 1 || ltb 0 (count_rows (has_email email) t.users)
      then (t, err database)
      else (
        record {
          users = t.users ++ user ∷ [];
          user_devices = insert_devices id device_ids t.user_devices;
        },
        ok tt,
      )

  unfoldable pub has_admins : Tables → Result Bool
  has_admins t = if e.fails 0 then err database else ok (ltb 0 (admins t))

  unfoldable pub get_admin_count : Tables → Result ℕ
  get_admin_count t = if e.fails 0 then err database else ok (admins t)

  unfoldable pub create_initial_admin : Tables → Text → Text → Tables × Result (Unit {0})
  create_initial_admin t email password_hash =
      let user : UserRow = record {
        id = e.new_user_id t.users;
        email = email;
        password_hash = password_hash;
        is_admin = true;
        token_version = 0;
      } in
      if e.fails 0
      then (t, err database)
      else if ltb 0 (admins t)
      then (t, err initial_admin_exists)
      else if ltb 0 (count_rows (has_email email) t.users)
      then (t, err database)
      else (record t { users = t.users ++ user ∷ [] }, ok tt)

  -- The count that follows a statement that changed no row, to tell why.
  unfoldable pub why_unchanged : Tables → ℕ → StoreError
  why_unchanged t id =
      if e.fails 1
      then database
      else if count_rows (has_id id) t.users == 0
      then record_not_found
      else last_administrator

  unfoldable pub delete_user : Tables → ℕ → Tables × Result (Unit {0})
  delete_user t id =
      let doomed = λ (u : UserRow). has_id id u && may_lose t u in
      if e.fails 0
      then (t, err database)
      else if count_rows doomed t.users == 1
      then (
        record {
          users = delete_rows doomed t.users;
          user_devices = if e.foreign_keys then drop_devices id t.user_devices else t.user_devices;
        },
        ok tt,
      )
      else (t, err (why_unchanged t id))

  -- Whether one of the inserts reports an error, from the n-th statement on.
  unfoldable pub any_insert_fails : ℕ → List Text → Bool
  any_insert_fails n [] = false
  any_insert_fails n (id ∷ ids) = e.fails n || any_insert_fails (suc n) ids

  unfoldable pub replace_devices : Tables → ℕ → Option (List Text) → Option Tables
  replace_devices t id none = some t
  replace_devices t id (some ids) =
      if e.fails 1 || any_insert_fails 2 ids
      then none
      else some (record t { user_devices = insert_devices id ids (drop_devices id t.user_devices) })

  -- The transaction: `none` in place of the tables is a rollback.
  unfoldable pub update_user :
      Tables → ℕ → Option Text → Option Bool → Option (List Text) → Tables × Result (Unit {0})
  update_user t id password_hash is_admin device_ids =
      let chosen = updatable t id is_admin in
      let written = record t {
        users = update_rows chosen (assign (given password_hash) is_admin) t.users;
      } in
      if e.fails 0
      then (t, err database)
      else if not (count_rows chosen t.users == 1)
      then (t, err (why_unchanged t id))
      else (elim (replace_devices written id device_ids) [
        | none ↦ (t, err database)
        | some done ↦ (done, ok tt)
      ])

  unfoldable pub revoke_user_tokens : Tables → ℕ → ℕ → Tables × Result (Unit {0})
  revoke_user_tokens t id token_version =
      let current = λ (u : UserRow). has_id id u && u.token_version == token_version in
      let bumped = λ (u : UserRow). record u { token_version = u.token_version + 1 } in
      if e.fails 0
      then (t, err database)
      else if count_rows current t.users == 1
      then (record t { users = update_rows current bumped t.users }, ok tt)
      else (t, err token_no_longer_valid)
