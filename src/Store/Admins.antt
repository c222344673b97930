-- ===== src/Store/Admins.antt =====
-- backend/internal/store/admin.go and users.go: the last administrator stays, and the first one is
-- made once.
use wol_secure_light_switch.Prelude.{
  ℕ, ◌+◌, ◌≤◌, ◌<◌, ◌≡◌, ◌↔◌, Bool, true, false, ◌&&◌, Option, none, some, arith, List, [], ◌∷◌,
  Text, ◌==◌, Bool-cases, inl, inr, ltb,
}
use wol_secure_light_switch.Store.{
  UserRow, Tables, ok, err, initial_admin_exists, Engine, has_id, has_email, is_administrator,
  admins, may_lose, given, assign, updatable, create_user, create_initial_admin, delete_user,
  update_user, revoke_user_tokens,
}
use wol_secure_light_switch.Store.Rows.{
  count_rows, update_rows, delete_rows, count_rows-append, count_rows-delete-ge,
  count_rows-delete_disjoint, count_rows-update-ge, count_rows-update_kept,
}
use wol_secure_light_switch.Store.Keys.{
  Call, create, initial_admin, delete, update, revoke, call, run, update_user-outcome,
}

module _ (e : Engine) (t : Tables) where
  create_user-admins :
      (email hash : Text) (b : Bool) (ids : List Text)
      → admins t ≤ admins (create_user e t email hash b ids).0
  unfolding create_user
  create_user-admins email hash b ids = ground (
    arith,
    count_rows-append is_administrator t.users (
        record {
          id = e.new_user_id t.users;
          email = email;
          password_hash = hash;
          is_admin = b;
          token_version = 0;
        }
        ∷ []),
  )

  create_initial_admin-admins :
      (email hash : Text) → admins t ≤ admins (create_initial_admin e t email hash).0
  unfolding create_initial_admin
  create_initial_admin-admins email hash = ground (
    arith,
    count_rows-append is_administrator t.users (
        record {
          id = e.new_user_id t.users;
          email = email;
          password_hash = hash;
          is_admin = true;
          token_version = 0;
        }
        ∷ []),
  )

  -- A statement guarded by `may_lose` that writes one row leaves an administrator.
  delete_rows-admins :
      (id : ℕ)
      → 0 < admins t
      → count_rows (λ u. has_id id u && may_lose t u) t.users ≡ 1
      → 0 < count_rows is_administrator (delete_rows (λ u. has_id id u && may_lose t u) t.users)
  delete_rows-admins id h one = elim (Bool-cases (ltb 1 (admins t))) [
    | inl many ↦ omega (
      arith,
      count_rows-delete-ge (λ u. has_id id u && may_lose t u) is_administrator t.users,
      two many,
    )
    | inr few ↦ omega (
      arith,
      count_rows-delete_disjoint (λ u. has_id id u && may_lose t u) is_administrator (spared few)
          t.users,
    )
  ]
    where
      two : ltb 1 (admins t) ≡ true → 2 ≤ admins t
      two many = ground arith

      spared :
          ltb 1 (admins t) ≡ false
          → (u : UserRow) → (has_id id u && may_lose t u) ≡ true
          → is_administrator u ≡ false
      spared few u chosen = ground arith

  delete_user-admins : (id : ℕ) → 0 < admins t → 0 < admins (delete_user e t id).0
  unfolding delete_user
  delete_user-admins id h = ground (arith, delete_rows-admins id h)

  assign-admins :
      (id : ℕ) (hash : Option Text) (b : Option Bool)
      → 0 < admins t
      → count_rows (updatable t id b) t.users ≡ 1
      → 0 < count_rows is_administrator (update_rows (updatable t id b) (assign hash b) t.users)
  assign-admins id hash (some false) h one = elim (Bool-cases (ltb 1 (admins t))) [
    | inl many ↦ omega (
      arith,
      count_rows-update-ge (updatable t id (some false)) is_administrator (assign hash (some false))
          t.users,
      two many,
    )
    | inr few ↦ omega (
      arith,
      count_rows-update_kept (updatable t id (some false)) is_administrator
          (assign hash (some false)) (spared few) t.users,
    )
  ]
    where
      two : ltb 1 (admins t) ≡ true → 2 ≤ admins t
      two many = ground arith

      spared :
          ltb 1 (admins t) ≡ false
          → (u : UserRow) → updatable t id (some false) u ≡ true
          → is_administrator u ≡ true
          → is_administrator (assign hash (some false) u) ≡ true
      spared few u chosen admin = ground arith
  assign-admins id hash (some true) h one = omega (
    arith,
    count_rows-update_kept (updatable t id (some true)) is_administrator (assign hash (some true))
        (λ u _ _. unfold assign in ground arith) t.users,
  )
  assign-admins id hash none h one = omega (
    arith,
    count_rows-update_kept (updatable t id none) is_administrator (assign hash none)
        (λ u _ admin. unfold assign in ground arith) t.users,
  )

  update_user-admins :
      (id : ℕ) (hash : Option Text) (b : Option Bool) (ids : Option (List Text))
      → 0 < admins t
      → 0 < admins (update_user e t id hash b ids).0
  update_user-admins id hash b ids h = elim (update_user-outcome e t id hash b ids) [
    | inl (same_tables, _) ↦ rw same_tables h
    | inr (done, ran, written, one) ↦ rw (ran, written) (assign-admins id (given hash) b h one)
  ]

  revoke_user_tokens-admins :
      (id version : ℕ) → 0 < admins t → 0 < admins (revoke_user_tokens e t id version).0
  unfolding revoke_user_tokens
  revoke_user_tokens-admins id version h = ground (
    arith,
    count_rows-update_kept (λ u. has_id id u && u.token_version == version) is_administrator
        (λ u. record u { token_version = u.token_version + 1 }) (λ u _ admin. admin) t.users,
  )

pub call-admins : (e : Engine) (t : Tables) (c : Call) → 0 < admins t → 0 < admins (call e t c).0
unfolding call
call-admins e t (create email hash b ids) h = omega (arith, create_user-admins e t email hash b ids)
call-admins e t (initial_admin email hash) h =
    omega (arith, create_initial_admin-admins e t email hash)
call-admins e t (delete id) h = delete_user-admins e t id h
call-admins e t (update id hash b ids) h = update_user-admins e t id hash b ids h
call-admins e t (revoke id version) h = revoke_user_tokens-admins e t id version h

-- From tables with an administrator, every sequence of writing calls, whichever of their
-- statements report an error, leaves an administrator.
pub run-admins : (t : Tables) (cs : List (Engine × Call)) → 0 < admins t → 0 < admins (run t cs)
unfolding run
run-admins t [] h = h
run-admins t ((e, c) ∷ cs) h = run-admins (call e t c).0 cs (call-admins e t c h)

module _ (e : Engine) (t : Tables) (email hash : Text) where
  -- The first administrator is created exactly when the statement runs, no administrator exists
  -- and the email is free.
  pub create_initial_admin_iff :
      ((create_initial_admin e t email hash).1 ≡ ok tt)
      ↔ ((e.fails 0 ≡ false) × (admins t ≡ 0) × (count_rows (has_email email) t.users ≡ 0))
  unfolding create_initial_admin
  create_initial_admin_iff = (λ h. ground arith, λ h. ground arith)

  pub admins-create_initial_admin :
      (create_initial_admin e t email hash).1 ≡ ok tt
      → admins (create_initial_admin e t email hash).0 ≡ 1
  unfolding create_initial_admin count_rows
  admins-create_initial_admin h = ground (
    arith,
    count_rows-append is_administrator t.users (
        record {
          id = e.new_user_id t.users;
          email = email;
          password_hash = hash;
          is_admin = true;
          token_version = 0;
        }
        ∷ []),
  )

-- After a setup that created the administrator, and any writing calls in between, another setup
-- whose statement runs leaves the tables and answers that an administrator exists.
pub create_initial_admin_once :
    (e f : Engine) (t : Tables) (email hash email' hash' : Text) (cs : List (Engine × Call))
    → (create_initial_admin e t email hash).1 ≡ ok tt
    → f.fails 0 ≡ false
    → create_initial_admin f (run (create_initial_admin e t email hash).0 cs) email' hash'
      ≡ (run (create_initial_admin e t email hash).0 cs, err initial_admin_exists)
create_initial_admin_once e f t email hash email' hash' cs made fine =
    refused (run (create_initial_admin e t email hash).0 cs) (
      run-admins (create_initial_admin e t email hash).0 cs
        (omega (arith, admins-create_initial_admin e t email hash made)))
  where
    refused :
        (s : Tables)
        → 0 < admins s
        → create_initial_admin f s email' hash' ≡ (s, err initial_admin_exists)
    refused s h = unfold create_initial_admin in ground arith
