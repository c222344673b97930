-- ===== src/Store/Users.antt =====
-- backend/internal/store/users.go and admin.go: what a call does to the user that it names, and to
-- the others.
use wol_secure_light_switch.Prelude.{
  ℕ, ◌≡◌, refl, ◌≢◌, ◌⊎◌, Bool, true, false, ◌&&◌, Option, none, some, arith, List, Text, ◌==◌,
  if◌then◌else◌, Bool-cases, Option-cases, inl, inr, ◌∙◌,
}
use wol_secure_light_switch.Store.{
  UserRow, Tables, StoreError, Result, ok, err, record_not_found, last_administrator, Engine,
  has_id, may_lose, given, assign, updatable, delete_user, update_user, why_unchanged,
}
use wol_secure_light_switch.Store.Rows.{
  count_rows, find_row, update_rows, count_rows-guarded, find_row-delete_guarded,
  find_row-delete_disjoint, find_row-update, find_row-some, find_row-holds, updated,
}
use wol_secure_light_switch.Store.Keys.{IsUnique, update_user-outcome, assign-id}

abbrev pub user_at : Tables → ℕ → Option UserRow
user_at t id = find_row (has_id id) t.users

-- The answer that a deletion deserves.
abbrev pub deletion : Tables → Option UserRow → Result (Unit {0})
deletion t none = err record_not_found
deletion t (some u) = if may_lose t u then ok tt else err last_administrator

module _ (e : Engine) (t : Tables) (id : ℕ) (v : IsUnique t) where
  count-missing : user_at t id ≡ none → count_rows (has_id id) t.users ≡ 0
  count-missing h = elim (Bool-cases (count_rows (has_id id) t.users == 0)) [
    | inl zero_rows ↦ ground arith
    | inr more ↦
        let (w, found, _) = find_row-some (has_id id) t.users (ground arith) in
        absurd (cc (h, found))
  ]

  -- In tables whose keys are unique, when no statement reports an error: a deletion answers that
  -- the user is not found if it is missing, that it is the last administrator if it is, and
  -- success for all others.
  pub delete_user-answer :
      ((n : ℕ) → e.fails n ≡ false) → (delete_user e t id).1 ≡ deletion t (user_at t id)
  unfolding delete_user why_unchanged
  delete_user-answer fine = elim (Option-cases (user_at t id)) [
    | inl missing ↦ ground (
      arith,
      fine 0,
      fine 1,
      count-missing missing,
      count_rows-guarded (has_id id) (may_lose t) t.users (v.ids id),
    )
    | inr (u, found) ↦ ground (
      arith,
      fine 0,
      fine 1,
      find_row-holds (has_id id) t.users {u = u} found,
      count_rows-guarded (has_id id) (may_lose t) t.users (v.ids id),
    )
  ]

  other_id :
      (q : ℕ) → q ≢ id → (u : UserRow) → (has_id id u && may_lose t u) ≡ true → has_id q u ≡ false
  other_id q ne u h = ground arith

  -- In tables whose keys are unique: a deletion succeeds, the user is gone and the rows of all
  -- other ids are as before, or it leaves the tables as they were.
  pub delete_user-effect :
      (((delete_user e t id).1 ≡ ok tt)
        × (user_at (delete_user e t id).0 id ≡ none)
        × ((q : ℕ) → q ≢ id → user_at (delete_user e t id).0 q ≡ user_at t q))
      ⊎ ((delete_user e t id).0 ≡ t)
  unfolding delete_user
  delete_user-effect = elim (Bool-cases (e.fails 0)) [
    | inl failed ↦ inr (rw failed refl)
    | inr fine ↦ elim (Bool-cases (count_rows (λ u. has_id id u && may_lose t u) t.users == 1)) [
      | inr no_row ↦ inr (rw (fine, no_row) refl)
      | inl one ↦ inl (
        rw (fine, one) refl,
        rw (fine, one)
            (find_row-delete_guarded (has_id id) (may_lose t) t.users (v.ids id) (ground arith)),
        λ q ne.
            rw (fine, one)
              (find_row-delete_disjoint (λ u. has_id id u && may_lose t u) (has_id q)
                (other_id q ne) t.users),
      )
    ]
  ]

  chosen_of_count :
      (b : Option Bool)
      → count_rows (updatable t id b) t.users ≡ 1
      → (u : UserRow) × (user_at t id ≡ some u) × (updatable t id b u ≡ true)
  chosen_of_count (some false) one = elim (Option-cases (user_at t id)) [
    | inl missing ↦
        absurd (ground (arith, count_rows-guarded (has_id id) (may_lose t) t.users (v.ids id)))
    | inr (u, found) ↦ (
      u,
      found,
      ground (
        arith,
        find_row-holds (has_id id) t.users {u = u} found,
        count_rows-guarded (has_id id) (may_lose t) t.users (v.ids id),
      ),
    )
  ]
  chosen_of_count (some true) one = find_row-some (has_id id) t.users (omega arith)
  chosen_of_count none one = find_row-some (has_id id) t.users (omega arith)

  skips :
      (b : Option Bool) (q : ℕ)
      → q ≢ id
      → (u : UserRow) → has_id q u ≡ true
      → updatable t id b u ≡ false
  skips (some false) q ne u h = ground arith
  skips (some true) q ne u h = ground arith
  skips none q ne u h = ground arith

  -- In tables whose keys are unique: a successful update writes the assignments into the row of
  -- the user, which was there and may be updated (it is not the last administrator's if the role
  -- is taken away), and leaves the rows of all other ids; an update that fails leaves the tables
  -- as they were.
  pub update_user-effect :
      (hash : Option Text) (b : Option Bool) (ids : Option (List Text))
      → (((update_user e t id hash b ids).1 ≡ ok tt)
          × ((u : UserRow) × (user_at t id ≡ some u)
              × (updatable t id b u ≡ true)
              × (user_at (update_user e t id hash b ids).0 id ≡ some (assign (given hash) b u)))
          × ((q : ℕ) → q ≢ id → user_at (update_user e t id hash b ids).0 q ≡ user_at t q))
        ⊎ (((update_user e t id hash b ids).0 ≡ t)
            × ((x : StoreError) × ((update_user e t id hash b ids).1 ≡ err x)))
  update_user-effect hash b ids = elim (update_user-outcome e t id hash b ids) [
    | inl (kept, failed) ↦ inr (kept, failed)
    | inr (done, ran, written, one) ↦
        let (u, found, chosen) = chosen_of_count b one in
        inl (
          rw ran refl,
          (u, found, chosen, rw (ran, written) (after_self u found chosen)),
          λ q ne. rw (ran, written) (after_other q ne),
        )
  ]
    where
      same_key : (q : ℕ) (u : UserRow) → has_id q (assign (given hash) b u) ≡ has_id q u
      same_key q u = rw (assign-id (given hash) b u) refl

      after_self :
          (u : UserRow)
          → user_at t id ≡ some u
          → updatable t id b u ≡ true
          → find_row (has_id id) (update_rows (updatable t id b) (assign (given hash) b) t.users)
            ≡ some (assign (given hash) b u)
      after_self u found chosen =
          rw
            (
              find_row-update (updatable t id b) (has_id id) (assign (given hash) b) (same_key id)
                  t.users,
              found,
            )
            (rw chosen refl)

      after_other :
          (q : ℕ)
          → q ≢ id
          → find_row (has_id q) (update_rows (updatable t id b) (assign (given hash) b) t.users)
            ≡ user_at t q
      after_other q ne =
          find_row-update (updatable t id b) (has_id q) (assign (given hash) b) (same_key q) t.users
          ∙ untouched q ne (Option-cases (user_at t q))
        where
          untouched :
              (q : ℕ)
              → q ≢ id
              → ((user_at t q ≡ none) ⊎ ((u : UserRow) × (user_at t q ≡ some u)))
              → updated (updatable t id b) (has_id q) (assign (given hash) b) (user_at t q)
                ≡ user_at t q
          untouched q ne (inl missing) = rw missing refl
          untouched q ne (inr (u, found)) =
              rw found
                (rw (skips b q ne u (find_row-holds (has_id q) t.users {u = u} found).0) refl)
