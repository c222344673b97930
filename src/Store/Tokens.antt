-- ===== src/Store/Tokens.antt =====
-- backend/internal/store/users.go: when the token version of a user moves.
use wol_secure_light_switch.Prelude.{
  ℕ, ◌+◌, ◌≡◌, refl, ◌≢◌, ◌⊎◌, Bool, true, false, ◌&&◌, Option, none, some, arith, Text, ◌==◌,
  Bool-cases, Option-cases, inl, inr,
}
use wol_secure_light_switch.Store.{
  UserRow, Tables, ok, err, token_no_longer_valid, Engine, has_id, assign, revoke_user_tokens,
}
use wol_secure_light_switch.Store.Rows.{count_rows-guarded, find_row-update, find_row-holds}
use wol_secure_light_switch.Store.Keys.{IsUnique}
use wol_secure_light_switch.Store.Users.{user_at}

-- The assignments of an update raise the token version by one if they set a password or change the
-- role, and leave it otherwise.
pub assign-token_version :
    (hash : Option Text) (b : Option Bool) (u : UserRow)
    → ((((hash ≢ none) ⊎ ((b ≢ none) × (b ≢ some u.is_admin)))
          × ((assign hash b u).token_version ≡ u.token_version + 1))
        ⊎ ((hash ≡ none)
            × ((b ≡ none) ⊎ (b ≡ some u.is_admin))
            × ((assign hash b u).token_version ≡ u.token_version)))
unfolding assign
assign-token_version (some h) b u = inl (inl (λ e. cc e), refl)
assign-token_version none none u = inr (refl, inl refl, omega arith)
assign-token_version none (some true) u = ground arith
assign-token_version none (some false) u = ground arith

module _ (e : Engine) (t : Tables) (id version : ℕ) (v : IsUnique t)
    (fine : e.fails 0 ≡ false) where
  -- In tables whose keys are unique, when its statement runs, a revocation is a compare-and-swap:
  -- it succeeds if the user is stored with the given version, which it raises by one, and else
  -- leaves the tables and answers an error.
  pub revoke_user_tokens-swap :
      ((u : UserRow) × (user_at t id ≡ some u)
        × (u.token_version ≡ version)
        × ((revoke_user_tokens e t id version).1 ≡ ok tt)
        × (user_at (revoke_user_tokens e t id version).0 id
            ≡ some (record u { token_version = version + 1 })))
      ⊎ (((u : UserRow) → user_at t id ≡ some u → u.token_version ≢ version)
          × (revoke_user_tokens e t id version ≡ (t, err token_no_longer_valid)))
  unfolding revoke_user_tokens
  revoke_user_tokens-swap = elim (Option-cases (user_at t id)) [
    | inl missing ↦ inr (
      λ u found. absurd (cc (missing, found)),
      ground (
        arith,
        count_rows-guarded (has_id id) (λ u. u.token_version == version) t.users (v.ids id),
      ),
    )
    | inr (u, found) ↦ elim (Bool-cases (u.token_version == version)) [
      | inr stale ↦ inr (
        λ w at_w same_version. ground (arith, at_w, found),
        ground (
          arith,
          count_rows-guarded (has_id id) (λ u. u.token_version == version) t.users (v.ids id),
        ),
      )
      | inl current ↦ inl (
        u,
        found,
        ground arith,
        ground (
          arith,
          count_rows-guarded (has_id id) (λ u. u.token_version == version) t.users (v.ids id),
        ),
        ground (
          arith,
          fine,
          count_rows-guarded (has_id id) (λ u. u.token_version == version) t.users (v.ids id),
          find_row-update (λ u. has_id id u && u.token_version == version) (has_id id)
              (λ u. record u { token_version = u.token_version + 1 }) (λ u. refl) t.users,
          find_row-holds (has_id id) t.users {u = u} found,
        ),
      )
    ]
  ]
