-- ===== src/Store/Keys.antt =====
-- backend/internal/store: the primary key and the unique index hold after every call.
use wol_secure_light_switch.Prelude.{
  ℕ, ◌+◌, ◌≤◌, ◌≡◌, refl, ◌⊎◌, sym, subst, Bool, true, ◌&&◌, Option, none, some, arith, List, [],
  ◌∷◌, ◌++◌, Text, ◌==◌, if◌then◌else◌, Bool-cases, Option-cases, inl, inr, All,
}
use wol_secure_light_switch.Store.{
  UserRow, DeviceRow, Tables, StoreError, Result, ok, err, database, Engine, IsKeyed, has_id,
  has_email, may_lose, given, assign, updatable, create_user, create_initial_admin, delete_user,
  update_user, revoke_user_tokens, replace_devices, why_unchanged, insert_devices,
}
use wol_secure_light_switch.Store.Rows.{
  count_rows, update_rows, delete_rows, count_rows-append, count_rows-delete-le,
  count_rows-update_same, drop_devices,
}

-- No id and no email stands in two rows of `users`.
pub record IsUnique (t : Tables) : Type 0 where
  pub ids : (id : ℕ) → count_rows (has_id id) t.users ≤ 1
  pub emails : (email : Text) → count_rows (has_email email) t.users ≤ 1

-- The calls that write.
pub data Call : Type 0 where
  create : (email password_hash : Text) (is_admin : Bool) (device_ids : List Text) → Call
  initial_admin : (email password_hash : Text) → Call
  delete : (id : ℕ) → Call
  update :
      (id : ℕ) (password_hash : Option Text) (is_admin : Option Bool)
      (device_ids : Option (List Text))
      → Call
  revoke : (id token_version : ℕ) → Call

unfoldable pub call : Engine → Tables → Call → Tables × Result (Unit {0})
call e t (create email hash is_admin ids) = create_user e t email hash is_admin ids
call e t (initial_admin email hash) = create_initial_admin e t email hash
call e t (delete id) = delete_user e t id
call e t (update id hash is_admin ids) = update_user e t id hash is_admin ids
call e t (revoke id version) = revoke_user_tokens e t id version

-- A sequence of calls, each with the engine as it behaves then.
unfoldable pub run : Tables → List (Engine × Call) → Tables
run t [] = t
run t ((e, c) ∷ cs) = run (call e t c).0 cs

pub assign-id : (h : Option Text) (b : Option Bool) (u : UserRow) → (assign h b u).id ≡ u.id
unfolding assign
assign-id h b u = ground arith

pub assign-email :
    (h : Option Text) (b : Option Bool) (u : UserRow) → (assign h b u).email ≡ u.email
unfolding assign
assign-email h b u = ground arith

append-IsUnique :
    (us : List UserRow) (ds ds' : List DeviceRow) (u : UserRow)
    → count_rows (has_id u.id) us ≡ 0
    → count_rows (has_email u.email) us ≡ 0
    → IsUnique (record { users = us; user_devices = ds })
    → IsUnique (record { users = us ++ u ∷ []; user_devices = ds' })
append-IsUnique us ds ds' u no_id no_email v = record { ids = ids; emails = emails }
  where
    ids : (id : ℕ) → count_rows (has_id id) (us ++ u ∷ []) ≤ 1
    ids id =
        unfold count_rows in ground (arith, count_rows-append (has_id id) us (u ∷ []), v.ids id)

    emails : (email : Text) → count_rows (has_email email) (us ++ u ∷ []) ≤ 1
    emails email =
        unfold count_rows in
        ground (arith, count_rows-append (has_email email) us (u ∷ []), v.emails email)

update-IsUnique :
    (t : Tables) (p : UserRow → Bool) (f : UserRow → UserRow)
    → ((u : UserRow) → (f u).id ≡ u.id)
    → ((u : UserRow) → (f u).email ≡ u.email)
    → IsUnique t
    → IsUnique (record t { users = update_rows p f t.users })
update-IsUnique t p f same_id same_email v = record {
  ids = λ id.
      rw (count_rows-update_same p (has_id id) f (λ u. rw (same_id u) refl) t.users) (v.ids id);
  emails = λ email.
      rw (count_rows-update_same p (has_email email) f (λ u. rw (same_email u) refl) t.users)
        (v.emails email);
}

same_users-IsUnique : {t : Tables} (d : Tables) → d.users ≡ t.users → IsUnique t → IsUnique d
same_users-IsUnique d same_users v = record {
  ids = λ id. rw same_users (v.ids id);
  emails = λ email. rw same_users (v.emails email);
}

replace_devices-users :
    (e : Engine) (t d : Tables) (id : ℕ) (ids : Option (List Text))
    → replace_devices e t id ids ≡ some d
    → d.users ≡ t.users
unfolding replace_devices
replace_devices-users e t d id none h = ground arith
replace_devices-users e t d id (some ids) h = ground arith

-- An update fails and leaves the tables, or writes the one row that it chose.
pub update_user-outcome :
    (e : Engine) (t : Tables) (id : ℕ) (h : Option Text) (b : Option Bool)
    (ids : Option (List Text))
    → (((update_user e t id h b ids).0 ≡ t)
        × ((x : StoreError) × ((update_user e t id h b ids).1 ≡ err x)))
      ⊎ ((done : Tables) × (update_user e t id h b ids ≡ (done, ok tt))
          × (done.users ≡ update_rows (updatable t id b) (assign (given h) b) t.users)
          × (count_rows (updatable t id b) t.users ≡ 1))
unfolding update_user
update_user-outcome e t id h b ids = elim (Bool-cases (e.fails 0)) [
  | inl failed ↦ inl (rw failed refl, (database, rw failed refl))
  | inr fine ↦ elim (Bool-cases (count_rows (updatable t id b) t.users == 1)) [
    | inr other ↦ inl (rw (fine, other) refl, (why_unchanged e t id, rw (fine, other) refl))
    | inl one ↦ elim (Option-cases (replace_devices e written id ids)) [
      | inl broke ↦ inl (
        rw (fine, one, broke, update_user) refl,
        (database, rw (fine, one, broke, update_user) refl),
      )
      | inr (done, replaced) ↦ inr (
        done,
        rw (fine, one, replaced, update_user) refl,
        replace_devices-users e written done id ids replaced,
        ground arith,
      )
    ]
  ]
]
  where
    written : Tables
    written = record t { users = update_rows (updatable t id b) (assign (given h) b) t.users }

module _ (e : Engine) (keyed : IsKeyed e) (t : Tables) (v : IsUnique t) where
  create_user-IsUnique :
      (email hash : Text) (b : Bool) (ids : List Text)
      → IsUnique (create_user e t email hash b ids).0
  unfolding create_user
  create_user-IsUnique email hash b ids = ground (
    arith,
    keyed.fresh_user t.users,
    append-IsUnique t.users t.user_devices
        (insert_devices e (e.new_user_id t.users) ids t.user_devices)
        (record {
          id = e.new_user_id t.users;
          email = email;
          password_hash = hash;
          is_admin = b;
          token_version = 0;
        }),
  )

  create_initial_admin-IsUnique :
      (email hash : Text) → IsUnique (create_initial_admin e t email hash).0
  unfolding create_initial_admin
  create_initial_admin-IsUnique email hash = ground (
    arith,
    keyed.fresh_user t.users,
    append-IsUnique t.users t.user_devices t.user_devices (record {
      id = e.new_user_id t.users;
      email = email;
      password_hash = hash;
      is_admin = true;
      token_version = 0;
    }),
  )

  delete_user-IsUnique : (id : ℕ) → IsUnique (delete_user e t id).0
  unfolding delete_user
  delete_user-IsUnique id = ground (arith, deleted)
    where
      deleted : IsUnique (record {
        users = delete_rows (λ u. has_id id u && may_lose t u) t.users;
        user_devices = if e.foreign_keys then drop_devices id t.user_devices else t.user_devices;
      })
      deleted = record {
        ids = λ k. omega (
          arith,
          count_rows-delete-le (λ u. has_id id u && may_lose t u) (has_id k) t.users,
          v.ids k,
        );
        emails = λ k. omega (
          arith,
          count_rows-delete-le (λ u. has_id id u && may_lose t u) (has_email k) t.users,
          v.emails k,
        );
      }

  update_user-IsUnique :
      (id : ℕ) (h : Option Text) (b : Option Bool) (ids : Option (List Text))
      → IsUnique (update_user e t id h b ids).0
  update_user-IsUnique id h b ids = elim (update_user-outcome e t id h b ids) [
    | inl (same_tables, _) ↦ subst IsUnique (sym same_tables) v
    | inr (done, ran, written, _) ↦ rw ran (
        same_users-IsUnique done written (
          update-IsUnique t (updatable t id b) (assign (given h) b) (assign-id (given h) b)
            (assign-email (given h) b) v))
  ]

  revoke_user_tokens-IsUnique : (id version : ℕ) → IsUnique (revoke_user_tokens e t id version).0
  unfolding revoke_user_tokens
  revoke_user_tokens-IsUnique id version = ground (
    arith,
    update-IsUnique t (λ u. has_id id u && u.token_version == version)
        (λ u. record u { token_version = u.token_version + 1 }) (λ u. refl) (λ u. refl) v,
  )

pub call-IsUnique :
    (e : Engine) (t : Tables) (c : Call) → IsKeyed e → IsUnique t → IsUnique (call e t c).0
unfolding call
call-IsUnique e t (create email hash b ids) k v = create_user-IsUnique e k t v email hash b ids
call-IsUnique e t (initial_admin email hash) k v = create_initial_admin-IsUnique e k t v email hash
call-IsUnique e t (delete id) k v = delete_user-IsUnique e k t v id
call-IsUnique e t (update id hash b ids) k v = update_user-IsUnique e k t v id hash b ids
call-IsUnique e t (revoke id version) k v = revoke_user_tokens-IsUnique e k t v id version

-- From tables in which no id and no email stands twice, every sequence of writing calls, whichever
-- of their statements report an error, leaves such tables, if the ids that the engine allocates
-- are not in use.
pub run-IsUnique :
    (t : Tables) (cs : List (Engine × Call))
    → All (λ c. IsKeyed c.0) cs
    → IsUnique t
    → IsUnique (run t cs)
unfolding run
run-IsUnique t [] k v = v
run-IsUnique t ((e, c) ∷ cs) (k, ks) v = run-IsUnique (call e t c).0 cs ks (call-IsUnique e t c k v)
