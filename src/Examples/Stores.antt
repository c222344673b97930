-- ===== src/Examples/Stores.antt =====
-- The store's theorems at a table with one administrator and one other user.
use wol_secure_light_switch.Prelude.{
  ℕ, ◌<◌, ◌≡◌, refl, ◌≢◌, true, false, none, some, arith, List, [], ◌∷◌, codes, text_dec,
}
use wol_secure_light_switch.Store.{
  Tables, Result, ok, Engine, admins, create_user, update_user, revoke_user_tokens, replace_devices,
  any_insert_fails,
}
use wol_secure_light_switch.Store.Rows.{count_rows, devices_of}
use wol_secure_light_switch.Store.Keys.{Call, delete, update, create, run}
use wol_secure_light_switch.Store.Devices.{assigned, wanted, update_user-devices}
use wol_secure_light_switch.Store.Directory.{view, Steps}
use wol_secure_light_switch.Store.Directory.Refinement.{answers, run-Steps}
use wol_secure_light_switch.Examples.{tables, engine, largest_id, engine-IsKeyed, tables-IsUnique}

abbrev calls : List (Engine × Call)
calls =
    (engine, delete 1)
    ∷ (engine, update 1 none (some false) none)
    ∷ (engine, create (codes "new@home.example") (codes "third hash") false (codes "nas" ∷ []))
    ∷ []

tables-admins : 0 < admins tables
unfolding count_rows
tables-admins = omega arith

run-Steps_example : Steps (view tables) (answers tables calls) (view (run tables calls))
run-Steps_example =
    run-Steps tables calls (engine-IsKeyed, (engine-IsKeyed, (engine-IsKeyed, tt))) tables-IsUnique

abbrev promoted : Tables × Result (Unit {0})
promoted = update_user engine tables 2 none (some true) (some [])

abbrev logged_out : Tables × Result (Unit {0})
logged_out = revoke_user_tokens engine tables 1 3

promoted_ok : promoted.1 ≡ ok tt
unfolding update_user count_rows replace_devices any_insert_fails
promoted_ok = refl

update_user-devices_example :
    (assigned 2 promoted.0.user_devices ≡ wanted 2 tables (some []))
    × ((q : ℕ) → q ≢ 2 → devices_of q promoted.0.user_devices ≡ devices_of q tables.user_devices)
update_user-devices_example =
    update_user-devices engine 2 tables none (some true) (some []) promoted_ok

abbrev created : Tables × Result (Unit {0})
created =
    create_user engine tables (codes "new@home.example") (codes "third") false (codes "nas" ∷ [])

created_id : 3 ≡ engine.new_user_id tables.users
unfolding largest_id
created_id = refl

none_left : devices_of 3 tables.user_devices ≡ []
unfolding devices_of
none_left = refl

created_ok : created.1 ≡ ok tt
unfolding create_user count_rows text_dec
created_ok = refl
