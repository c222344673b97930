-- ===== src/Examples.antt =====
-- Concrete tables, services and limits, at which the theorems are applied.
mod Stores
mod Tokens
mod Limits
mod Documents
mod Requests
mod Histories
mod Pings
mod Networks
mod Sessions
mod Starts
mod Programs
mod Handlers
use wol_secure_light_switch.Prelude.{
  ℕ, suc, ◌+◌, ◌≤◌, ◌<◌, ◌≡◌, refl, subst, Bool, true, false, Option, none, some, arith, List, [],
  ◌∷◌, ◌++◌, Text, codes, text_dec, same, same_ne, ltb, leb, ◌==◌, if◌then◌else◌, max,
}
use wol_secure_light_switch.Store.{UserRow, DeviceRow, Tables, Engine, IsKeyed, has_email}
use wol_secure_light_switch.Store.Rows.{count_rows}
use wol_secure_light_switch.Store.Keys.{IsUnique}

abbrev pub owner : UserRow
owner = record {
  id = 1;
  email = codes "owner@home.example";
  password_hash = codes "first hash";
  is_admin = true;
  token_version = 3;
}

abbrev pub guest : UserRow
guest = record {
  id = 2;
  email = codes "guest@home.example";
  password_hash = codes "second hash";
  is_admin = false;
  token_version = 0;
}

abbrev pub tables : Tables
tables = record {
  users = owner ∷ guest ∷ [];
  user_devices = record { id = 1; user_id = 2; device_id = codes "nas" } ∷ [];
}

abbrev pub no_tables : Tables
no_tables = record { users = []; user_devices = [] }

unfoldable pub largest_id : List UserRow → ℕ
largest_id [] = 0
largest_id (u ∷ us) = max u.id (largest_id us)

-- No statement fails, and the next id is one more than the largest.
abbrev pub engine : Engine
engine = record {
  fails = λ _. false;
  new_user_id = λ us. suc (largest_id us);
  new_device_id = λ ds. 7;
  foreign_keys = false;
}

count_above : (n : ℕ) (us : List UserRow) → largest_id us < n → count_rows (λ u. u.id == n) us ≡ 0
unfolding count_rows largest_id
count_above n [] h = refl
count_above n (u ∷ us) h = ground (arith, count_above n us)

pub engine-IsKeyed : IsKeyed engine
engine-IsKeyed = record {
  fresh_user = λ us. count_above (suc (largest_id us)) us (omega arith);
  positive_user = λ us. omega arith;
}

pub tables-IsUnique : IsUnique tables
unfolding count_rows
tables-IsUnique = record { ids = λ id. ground arith; emails = emails }
  where
    emails : (email : Text) → count_rows (has_email email) tables.users ≤ 1
    emails email = elim (text_dec owner.email email) [
      | yes p ↦ subst (λ (s : Text). count_rows (has_email s) tables.users ≤ 1) p (ground arith)
      | no ne ↦ rw (same_ne owner.email email ne) (ground arith)
    ]
