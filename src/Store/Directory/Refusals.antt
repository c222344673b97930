-- ===== src/Store/Directory/Refusals.antt =====
-- backend/internal/store: what each refusal of a guarded statement says of the directory of users.
use wol_secure_light_switch.Prelude.{
  ℕ, suc, ◌≡◌, refl, ◌⊎◌, Bool, true, false, ◌&&◌, Option, none, some, arith, List, [], ◌∷◌, Text,
  ◌==◌, Bool-cases, Option-cases, inl, inr, subst,
}
use wol_secure_light_switch.Store.{
  UserRow, Tables, Engine, StoreError, Result, err, record_not_found, last_administrator, database,
  given, assign, has_id, may_lose, updatable, update_user, why_unchanged, replace_devices,
  any_insert_fails,
}
use wol_secure_light_switch.Store.Rows.{
  count_rows, update_rows, find_row-none, find_row-some, count_rows-guarded,
}
use wol_secure_light_switch.Store.Keys.{delete, update, IsUnique}
use wol_secure_light_switch.Store.Users.{user_at}
use wol_secure_light_switch.Store.Directory.{view, MayLose, IsLast, IsBroken, Refusal}
use wol_secure_light_switch.Store.Directory.View.{may_lose-MayLose, IsLast-of_refused}

module _ (e : Engine) (t : Tables) (v : IsUnique t) where
  any_insert_fails-IsBroken :
      (n : ℕ) (ids : List Text) → any_insert_fails e n ids ≡ true → IsBroken e
  unfolding any_insert_fails
  any_insert_fails-IsBroken n [] h = absurd (cc h)
  any_insert_fails-IsBroken n (id ∷ ids) h = elim (Bool-cases (e.fails n)) [
    | inl failed ↦ (n, failed)
    | inr fine ↦ any_insert_fails-IsBroken (suc n) ids (ground (arith, fine, h))
  ]

  replace_devices-IsBroken :
      (d : Tables) (id : ℕ) (ids : Option (List Text))
      → replace_devices e d id ids ≡ none
      → IsBroken e
  unfolding replace_devices
  replace_devices-IsBroken d id none h = absurd (cc h)
  replace_devices-IsBroken d id (some ids) h = elim (Bool-cases (e.fails 1)) [
    | inl failed ↦ (1, failed)
    | inr fine ↦ any_insert_fails-IsBroken 2 ids (ground (arith, fine, h))
  ]

  -- The guarded statement wrote no row: why.
  unchanged-Refusal :
      (id : ℕ)
      → (count_rows (λ u. has_id id u && may_lose t u) t.users == 1) ≡ false
      → ((why_unchanged e t id ≡ database) × IsBroken e
          ⊎ ((why_unchanged e t id ≡ record_not_found) × (user_at t id ≡ none)))
        ⊎ ((why_unchanged e t id ≡ last_administrator) × IsLast (view t) id)
  unfolding why_unchanged
  unchanged-Refusal id none_written = elim (Bool-cases (e.fails 1)) [
    | inl failed ↦ inl (inl (rw failed refl, (1, failed)))
    | inr fine ↦ elim (Bool-cases (count_rows (has_id id) t.users == 0)) [
      | inl missing ↦
          inl (inr (rw (fine, missing) refl, find_row-none (has_id id) t.users (ground arith)))
      | inr present ↦
          let (u, found, _) = find_row-some (has_id id) t.users (ground arith) in
          inr (
            rw (fine, present) refl,
            IsLast-of_refused t v id {u = u} found (
                ground (
                  arith,
                  found,
                  none_written,
                  count_rows-guarded (has_id id) (may_lose t) t.users (v.ids id),
                )),
          )
    ]
  ]

  pub guarded-MayLose :
      (id : ℕ)
      → (count_rows (λ u. has_id id u && may_lose t u) t.users == 1) ≡ true
      → (u : UserRow) × (user_at t id ≡ some u) × MayLose (view t) id u
  guarded-MayLose id one =
      let guarded = count_rows-guarded (has_id id) (may_lose t) t.users (v.ids id) in
      elim (Option-cases (user_at t id)) [
        | inl missing ↦ absurd (ground (arith, one, guarded, missing))
        | inr (u, found) ↦
            (u, found, may_lose-MayLose t v id {u = u} found (ground (arith, one, guarded, found)))
      ]

  pub delete-Refusal :
      (id : ℕ)
      → (count_rows (λ u. has_id id u && may_lose t u) t.users == 1) ≡ false
      → Refusal e (view t) (delete id) (why_unchanged e t id)
  delete-Refusal id h = elim (unchanged-Refusal id h) [
    | inl (inl (why, broken)) ↦ rw why (inl broken)
    | inl (inr (why, missing)) ↦ rw why missing
    | inr (why, last) ↦ rw why last
  ]

  -- A statement that is restricted to an id alone writes no row only if the id is missing.
  unguarded-Refusal :
      (id : ℕ)
      → (count_rows (has_id id) t.users == 1) ≡ false
      → (why_unchanged e t id ≡ database) × IsBroken e
        ⊎ ((why_unchanged e t id ≡ record_not_found) × (user_at t id ≡ none))
  unfolding why_unchanged
  unguarded-Refusal id h = elim (Bool-cases (e.fails 1)) [
    | inl failed ↦ inl (rw failed refl, (1, failed))
    | inr fine ↦
        let missing : count_rows (has_id id) t.users ≡ 0 = ground (arith, h, v.ids id) in
        inr (ground (arith, fine, missing), find_row-none (has_id id) t.users missing)
  ]

  update-Refusal :
      (id : ℕ) (hash : Option Text) (b : Option Bool) (ids : Option (List Text))
      → (count_rows (updatable t id b) t.users == 1) ≡ false
      → Refusal e (view t) (update id hash b ids) (why_unchanged e t id)
  update-Refusal id hash (some false) ids h = elim (unchanged-Refusal id h) [
    | inl (inl (why, broken)) ↦ rw why (inl broken)
    | inl (inr (why, missing)) ↦ rw why missing
    | inr (why, last) ↦ rw why (refl, last)
  ]
  update-Refusal id hash (some true) ids h = elim (unguarded-Refusal id h) [
    | inl (why, broken) ↦ rw why (inl broken)
    | inr (why, missing) ↦ rw why missing
  ]
  update-Refusal id hash none ids h = elim (unguarded-Refusal id h) [
    | inl (why, broken) ↦ rw why (inl broken)
    | inr (why, missing) ↦ rw why missing
  ]

  pub update_failed-Refusal :
      (id : ℕ) (hash : Option Text) (b : Option Bool) (ids : Option (List Text)) (x : StoreError)
      → (update_user e t id hash b ids).1 ≡ err x
      → Refusal e (view t) (update id hash b ids) x
  unfolding update_user
  update_failed-Refusal id hash b ids x h = elim (Bool-cases (e.fails 0)) [
    | inl failed ↦ at_error database (rw failed at h) (inl (0, failed))
    | inr fine ↦ elim (Bool-cases (count_rows (updatable t id b) t.users == 1)) [
      | inr other ↦
          at_error (why_unchanged e t id) (rw (fine, other) at h)
            (update-Refusal id hash b ids other)
      | inl one ↦ elim (Option-cases (replace_devices e written id ids)) [
        | inl broke ↦
            at_error database (rw (fine, one, broke, update_user) at h)
              (inl (replace_devices-IsBroken written id ids broke))
        | inr (done, replaced) ↦ absurd (cc (rw (fine, one, replaced, update_user) at h))
      ]
    ]
  ]
    where
      written : Tables
      written = record t { users = update_rows (updatable t id b) (assign (given hash) b) t.users }

      at_error :
          (y : StoreError)
          → ◌≡◌ {A = Result (Unit {0})} (err y) (err x)
          → Refusal e (view t) (update id hash b ids) y
          → Refusal e (view t) (update id hash b ids) x
      at_error y same_error r =
          let same_reason : y ≡ x = cc same_error in
          subst (Refusal e (view t) (update id hash b ids)) same_reason r
