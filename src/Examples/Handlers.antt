-- ===== src/Examples/Handlers.antt =====
-- The theorems on the handlers of users and hosts, and on the middlewares.
use wol_secure_light_switch.Prelude.{
  ℕ, ◌≤◌, ◌<◌, ◌≡◌, refl, ◌≢◌, ◌⊎◌, true, false, none, some, arith, List, [], ◌∷◌, codes, map,
  length, text_dec, trim_space, trim_left, trim_right,
}
use wol_secure_light_switch.Prelude.Map.{lookup, put}
use wol_secure_light_switch.Store
use wol_secure_light_switch.Store.Rows.{count_rows}
use wol_secure_light_switch.Config.{
  parse_hosts, check_document, check_hosts, check_host, validate_device_id, scan_device_id,
  bad_character, valid_host_address, valid_label, split_on, extend_first,
}
use wol_secure_light_switch.Loader.{
  load_hosts, new_loader, find_file, enter, reload, load_from, load_hosts_with_status,
}
use wol_secure_light_switch.Server.{
  validate_email, validate_password, respond, host_list, configured_device_ids, id_set,
  check_device_ids, validate_device_ids, max_request_body_bytes,
}
use wol_secure_light_switch.Server.Admin.{
  CreateUserRequest, handle_create_user, create_checked, check_devices,
}
use wol_secure_light_switch.Server.Admin.Creation.{IsCreated, handle_create_user-IsCreated}
use wol_secure_light_switch.Server.Admin.Changes.{serve_admin_refused}
use wol_secure_light_switch.Server.Devices.{handle_get_hosts, with_state}
use wol_secure_light_switch.Server.Devices.Listing.{visible, handle_get_hosts-visible}
use wol_secure_light_switch.Server.Router.{serve_admin, create_user}
use wol_secure_light_switch.Server.Middleware.{
  Reader, unlimited, Passing, Draw, new_request_id, request_id_header, respond_action_failure,
  prepare,
}
use wol_secure_light_switch.Server.Middleware.Tracing.{
  IsDraw, respond_action_failure-traced, prepare-bounded,
}
use wol_secure_light_switch.Examples.{tables, engine-IsKeyed, tables-IsUnique}
use wol_secure_light_switch.Examples.Documents.{nas}
use wol_secure_light_switch.Examples.Requests.{services, world, app, guest_context}

abbrev creation : CreateUserRequest
creation = record {
  email = codes "new@home.example";
  password = codes "a long password";
  is_admin = false;
  devices = codes "nas" ∷ [];
}

created : (handle_create_user services world app (some creation)).1.status ≡ 201
unfolding handle_create_user create_checked check_devices configured_device_ids id_set
    check_device_ids validate_device_ids validate_email validate_password Store.create_user
    count_rows new_loader load_hosts load_hosts_with_status load_from reload find_file enter
    parse_hosts check_document check_hosts check_host lookup put text_dec validate_device_id
    scan_device_id bad_character trim_space trim_left trim_right valid_host_address valid_label
    split_on extend_first
created = refl

handle_create_user-IsCreated_example :
    IsCreated services world app creation (handle_create_user services world app (some creation)).0
handle_create_user-IsCreated_example =
    handle_create_user-IsCreated services world app creation engine-IsKeyed tables-IsUnique created

refused : 400 ≤ (serve_admin services world app (create_user none)).1.status
unfolding serve_admin handle_create_user
refused = omega arith

serve_admin_refused_example : (serve_admin services world app (create_user none)).0.tables ≡ tables
serve_admin_refused_example = serve_admin_refused services world app (create_user none) refused

hosts_found : (load_hosts services.formats world.files app.loader).1.0 ≡ some (nas ∷ [])
unfolding new_loader load_hosts load_hosts_with_status load_from reload find_file enter parse_hosts
    check_document check_hosts check_host lookup put text_dec validate_device_id scan_device_id
    bad_character trim_space trim_left trim_right valid_host_address valid_label split_on
    extend_first
hosts_found = refl

handle_get_hosts-visible_example :
    (handle_get_hosts services world [] app guest_context).1
    ≡ respond 200 (host_list (map (with_state []) (visible tables guest_context (nas ∷ []))))
handle_get_hosts-visible_example =
    handle_get_hosts-visible services world [] app guest_context (nas ∷ []) (λ _ _. refl)
      hosts_found

abbrev sixteen : List ℕ
sixteen = 1 ∷ 2 ∷ 3 ∷ 4 ∷ 5 ∷ 6 ∷ 7 ∷ 8 ∷ 9 ∷ 10 ∷ 11 ∷ 12 ∷ 13 ∷ 14 ∷ 15 ∷ 16 ∷ []

abbrev draw : Draw
draw = record { random = some sixteen; unix_nano = 5 }

draw-IsDraw : IsDraw draw
draw-IsDraw value h = ground (arith, h)

abbrev later : Draw
later = record { random = none; unix_nano = 77 }

abbrev passing : Passing
passing = record { headers = []; request_id = none; body = some (unlimited (codes "{}")) }

respond_action_failure-traced_example :
    (respond_action_failure later (prepare draw passing) 500 "Unable to shut down device" ≡ (
      prepare draw passing,
      record {
        status = 500;
        error = "Unable to shut down device";
        request_id = new_request_id draw;
      },
    ))
    × (lookup request_id_header (prepare draw passing).headers ≡ some (new_request_id draw))
    × (new_request_id draw ≢ [])
respond_action_failure-traced_example =
    respond_action_failure-traced draw later passing 500 "Unable to shut down device" draw-IsDraw

prepare-bounded_example :
    (r : Reader) × ((prepare draw passing).body ≡ some r)
    × (length r.bytes ≤ max_request_body_bytes)
    × (((length (codes "{}") ≤ max_request_body_bytes) × (r ≡ unlimited (codes "{}")))
        ⊎ ((max_request_body_bytes < length (codes "{}")) × (r.too_large ≡ true)))
prepare-bounded_example = prepare-bounded draw passing (codes "{}") refl
