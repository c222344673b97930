-- ===== src/Store/Directory/Refinement.antt =====
-- backend/internal/store: the statements on the tables do what the directory of users promises.
use wol_secure_light_switch.Prelude.{
  ℕ, ◌+◌, ◌≡◌, refl, ◌≢◌, ◌⊎◌, Bool, true, false, ◌&&◌, ◌||◌, Option, none, some, arith, List, [],
  ◌∷◌, Text, ◌==◌, ltb, Bool-cases, inl, inr, All,
}
use wol_secure_light_switch.Store.{
  UserRow, Tables, Engine, IsKeyed, Result, has_id, has_email, may_lose, updatable, admins,
  create_user, create_initial_admin, delete_user, revoke_user_tokens,
}
use wol_secure_light_switch.Store.Rows.{
  count_rows, find_row-none, find_row-update_disjoint, find_row-delete_guarded,
  find_row-delete_disjoint,
}
use wol_secure_light_switch.Store.Keys.{
  Call, create, initial_admin, delete, update, revoke, call, run, IsUnique, call-IsUnique,
}
use wol_secure_light_switch.Store.Users.{user_at, update_user-effect}
use wol_secure_light_switch.Store.Tokens.{revoke_user_tokens-swap}
use wol_secure_light_switch.Store.Directory.{
  view, IsBroken, IsTaken, KeepsRole, Step, Steps, new_user,
}
use wol_secure_light_switch.Store.Directory.View.{
  IsAdmin-of_count, count_of_IsAdmin, may_lose-MayLose, IsFree-of_count, IsTaken-of_count,
  append-Writes,
}
use wol_secure_light_switch.Store.Directory.Refusals.{
  guarded-MayLose, delete-Refusal, update_failed-Refusal,
}

module _ (e : Engine) (t : Tables) (k : IsKeyed e) (v : IsUnique t) where
  abbrev Stepped : Call → Type 0
  Stepped c = Step e (view t) c (call e t c).1 (view (call e t c).0)

  create-refused :
      (email : Text)
      → (e.fails 0 || e.fails 1 || ltb 0 (count_rows (has_email email) t.users)) ≡ true
      → IsBroken e ⊎ IsTaken (view t) email
  create-refused email h = elim (Bool-cases (e.fails 0)) [
    | inl failed ↦ inl (0, failed)
    | inr fine ↦ elim (Bool-cases (e.fails 1)) [
      | inl failed ↦ inl (1, failed)
      | inr fine_too ↦ inr (IsTaken-of_count t v email (ground (arith, h, fine, fine_too)))
    ]
  ]

  create-Step : (email hash : Text) (b : Bool) (ids : List Text) → Stepped (create email hash b ids)
  unfolding call create_user
  create-Step email hash b ids =
      elim (Bool-cases (e.fails 0 || e.fails 1 || ltb 0 (count_rows (has_email email) t.users))) [
        | inl refused ↦ rw refused (create-refused email refused, λ q. refl)
        | inr fine ↦ rw fine (
          e.new_user_id t.users,
          find_row-none (has_id (e.new_user_id t.users)) t.users (k.fresh_user t.users),
          IsFree-of_count t v email (ground arith),
          append-Writes t.users (new_user (e.new_user_id t.users) email hash b)
              (k.fresh_user t.users),
        )
      ]

  initial_admin-Step : (email hash : Text) → Stepped (initial_admin email hash)
  unfolding call create_initial_admin
  initial_admin-Step email hash = elim (Bool-cases (e.fails 0)) [
    | inl failed ↦ rw failed (inl (0, failed), λ q. refl)
    | inr fine ↦ elim (Bool-cases (ltb 0 (admins t))) [
      | inl present ↦ rw (fine, present) (IsAdmin-of_count t v (ground arith), λ q. refl)
      | inr absent ↦ elim (Bool-cases (ltb 0 (count_rows (has_email email) t.users))) [
        | inl taken ↦
            rw (fine, absent, taken) (inr (IsTaken-of_count t v email (ground arith)), λ q. refl)
        | inr free ↦
            rw (fine, absent, free)
              (
                e.new_user_id t.users,
                find_row-none (has_id (e.new_user_id t.users)) t.users (k.fresh_user t.users),
                IsFree-of_count t v email (ground arith),
                λ q admin.
                    let present = count_of_IsAdmin t v q admin in ground (arith, absent, present),
                append-Writes t.users (new_user (e.new_user_id t.users) email hash true)
                    (k.fresh_user t.users),
              )
      ]
    ]
  ]

  other_id :
      (id q : ℕ)
      → q ≢ id
      → (u : UserRow) → (has_id id u && may_lose t u) ≡ true
      → has_id q u ≡ false
  other_id id q ne u h = ground arith

  delete-Step : (id : ℕ) → Stepped (delete id)
  unfolding call delete_user
  delete-Step id = elim (Bool-cases (e.fails 0)) [
    | inl failed ↦ rw failed (inl (0, failed), λ q. refl)
    | inr fine ↦ elim (Bool-cases (count_rows (λ u. has_id id u && may_lose t u) t.users == 1)) [
      | inl one ↦
          let (u, found, may) = guarded-MayLose e t v id one in
          rw (fine, one)
            (
              u,
              found,
              may,
              (
                find_row-delete_guarded (has_id id) (may_lose t) t.users (v.ids id) (ground arith),
                λ q ne.
                    find_row-delete_disjoint (λ u. has_id id u && may_lose t u) (has_id q)
                      (other_id id q ne) t.users,
              ),
            )
      | inr none_written ↦ rw (fine, none_written) (delete-Refusal e t v id none_written, λ q. refl)
    ]
  ]

  revoke-others :
      (id version q : ℕ) → q ≢ id → user_at (revoke_user_tokens e t id version).0 q ≡ user_at t q
  unfolding revoke_user_tokens
  revoke-others id version q ne = ground (
    arith,
    find_row-update_disjoint (λ u. has_id id u && u.token_version == version) (has_id q)
        (λ u. record u { token_version = u.token_version + 1 }) (λ u h. ground arith) (λ u. refl)
        t.users,
  )

  revoke-Step : (id version : ℕ) → Stepped (revoke id version)
  unfolding call
  revoke-Step id version = elim (Bool-cases (e.fails 0)) [
    | inl failed ↦ unfold revoke_user_tokens in rw failed (inl (0, failed), λ q. refl)
    | inr fine ↦ elim (revoke_user_tokens-swap e t id version v fine) [
      | inl (u, found, current, done, raised) ↦
          rw done (u, found, current, (raised, revoke-others id version))
      | inr (stale, refused) ↦ rw refused (stale, λ q. refl)
    ]
  ]

  updatable-KeepsRole :
      (id : ℕ) (b : Option Bool) {u : UserRow}
      → user_at t id ≡ some u
      → updatable t id b u ≡ true
      → KeepsRole b (view t) id u
  updatable-KeepsRole id (some false) {u} found h =
      may_lose-MayLose t v id {u = u} found (ground (arith, h))
  updatable-KeepsRole id (some true) found h = tt
  updatable-KeepsRole id none found h = tt

  update-Step :
      (id : ℕ) (hash : Option Text) (b : Option Bool) (ids : Option (List Text))
      → Stepped (update id hash b ids)
  unfolding call
  update-Step id hash b ids = elim (update_user-effect e t id v hash b ids) [
    | inl (done, (u, found, may, written), others) ↦
        rw done (u, found, updatable-KeepsRole id b {u = u} found may, (written, others))
    | inr (kept, (x, failed)) ↦
        rw (failed, kept) (update_failed-Refusal e t v id hash b ids x failed, λ q. refl)
  ]

  -- In tables whose keys are unique, each writing call is a step of the directory of users.
  pub call-Step : (c : Call) → Step e (view t) c (call e t c).1 (view (call e t c).0)
  call-Step (create email hash b ids) = create-Step email hash b ids
  call-Step (initial_admin email hash) = initial_admin-Step email hash
  call-Step (delete id) = delete-Step id
  call-Step (update id hash b ids) = update-Step id hash b ids
  call-Step (revoke id version) = revoke-Step id version

-- Each call with its answer.
unfoldable pub answers : Tables → List (Engine × Call) → List (Engine × Call × Result (Unit {0}))
answers t [] = []
answers t ((e, c) ∷ cs) = (e, c, (call e t c).1) ∷ answers (call e t c).0 cs

-- From tables whose keys are unique, and with an engine that allocates ids not in use, every
-- sequence of writing calls is a run of the directory of users: each call that succeeds creates,
-- removes or rewrites the one user that it names, and has met the directory's condition for it
-- (the email is free, another administrator remains, the version is current); each call that is
-- refused changes no user, and its error says why: the user is missing, it is the only
-- administrator, an administrator exists, the version is over, a statement failed, or the email of
-- a new user is taken.
pub run-Steps :
    (t : Tables) (cs : List (Engine × Call))
    → All (λ c. IsKeyed c.0) cs
    → IsUnique t
    → Steps (view t) (answers t cs) (view (run t cs))
unfolding Steps answers run
run-Steps t [] k v = λ q. refl
run-Steps t ((e, c) ∷ cs) (k, ks) v = (
  view (call e t c).0,
  call-Step e t k v c,
  run-Steps (call e t c).0 cs ks (call-IsUnique e t c k v),
)
