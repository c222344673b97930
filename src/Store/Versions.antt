-- ===== src/Store/Versions.antt =====
-- backend/internal/store: a token version never falls, so a version that is over stays over.
use wol_secure_light_switch.Prelude.{
  ℕ, ◌+◌, ◌≤◌, ◌<◌, ◌≡◌, refl, ◌≢◌, subst, sym, ◌∙◌, Bool, true, ◌&&◌, Option, some, arith, List,
  [], ◌∷◌, ◌++◌, Text, All, Bool-cases, inl, inr, ◌==◌,
}
use wol_secure_light_switch.Store.{
  UserRow, Tables, Engine, IsKeyed, ok, has_id, may_lose, given, assign, updatable, create_user,
  create_initial_admin, delete_user, revoke_user_tokens,
}
use wol_secure_light_switch.Store.Rows.{count_rows, find_row, update_rows, delete_rows}
use wol_secure_light_switch.Store.Keys.{
  IsUnique, call-IsUnique, Call, create, initial_admin, delete, update, revoke, call, run,
  update_user-outcome, assign-id,
}
use wol_secure_light_switch.Store.Tokens.{assign-token_version, revoke_user_tokens-swap}

-- Every row of the user has a version above this one; the user may be gone.
abbrev pub Newer : ℕ → ℕ → List UserRow → Type 0
Newer id v = All (λ u. u.id ≡ id → v < u.token_version)

module _ (id v : ℕ) where
  Newer-append :
      (us : List UserRow) (w : UserRow) → w.id ≢ id → Newer id v us → Newer id v (us ++ w ∷ [])
  Newer-append [] w ne n = (λ e. absurd (ne e), tt)
  Newer-append (u ∷ us) w ne (n, ns) = (n, Newer-append us w ne ns)

  Newer-delete :
      (p : UserRow → Bool) (us : List UserRow) → Newer id v us → Newer id v (delete_rows p us)
  unfolding delete_rows
  Newer-delete p [] n = tt
  Newer-delete p (u ∷ us) (n, ns) = elim (Bool-cases (p u)) [
    | inl gone ↦ rw gone (Newer-delete p us ns)
    | inr stays ↦ rw stays (n, Newer-delete p us ns)
  ]

  Newer-update :
      (p : UserRow → Bool) (f : UserRow → UserRow)
      → ((u : UserRow) → (f u).id ≡ u.id)
      → ((u : UserRow) → u.token_version ≤ (f u).token_version)
      → (us : List UserRow) → Newer id v us
      → Newer id v (update_rows p f us)
  unfolding update_rows
  Newer-update p f same_id up [] n = tt
  Newer-update p f same_id up (u ∷ us) (n, ns) = (
    elim (Bool-cases (p u)) [
      | inl here ↦ rw here (λ e. let w = n (sym (same_id u) ∙ e) in omega (arith, up u))
      | inr there ↦ rw there n
    ],
    Newer-update p f same_id up us ns,
  )

  assign-up :
      (h : Option Text) (b : Option Bool) (u : UserRow)
      → u.token_version ≤ (assign h b u).token_version
  assign-up h b u = ground (arith, assign-token_version h b u)

  -- No call brings the user's version back, if the engine does not allocate the id again.
  pub call-Newer :
      (e : Engine) (t : Tables) (c : Call)
      → ((us : List UserRow) → e.new_user_id us ≢ id)
      → Newer id v t.users
      → Newer id v (call e t c).0.users
  unfolding call
  call-Newer e t (create email hash b ids) no_reuse n =
      unfold create_user in
      ground (
        arith,
        Newer-append t.users
            (record {
              id = e.new_user_id t.users;
              email = email;
              password_hash = hash;
              is_admin = b;
              token_version = 0;
            })
            (no_reuse t.users) n,
      )
  call-Newer e t (initial_admin email hash) no_reuse n =
      unfold create_initial_admin in
      ground (
        arith,
        Newer-append t.users
            (record {
              id = e.new_user_id t.users;
              email = email;
              password_hash = hash;
              is_admin = true;
              token_version = 0;
            })
            (no_reuse t.users) n,
      )
  call-Newer e t (delete q) no_reuse n =
      unfold delete_user in ground (arith, Newer-delete (λ u. has_id q u && may_lose t u) t.users n)
  call-Newer e t (update q h b ids) no_reuse n = elim (update_user-outcome e t q h b ids) [
    | inl (same_tables, _) ↦ subst (λ (d : Tables). Newer id v d.users) (sym same_tables) n
    | inr (done, ran, written, _) ↦
        rw (ran, written)
          (Newer-update (updatable t q b) (assign (given h) b) (assign-id (given h) b)
            (assign-up (given h) b) t.users n)
  ]
  call-Newer e t (revoke q version) no_reuse n =
      unfold revoke_user_tokens in
      ground (
        arith,
        Newer-update (λ u. has_id q u && u.token_version == version)
            (λ u. record u { token_version = u.token_version + 1 }) (λ u. refl) (λ u. omega arith)
            t.users n,
      )

  pub run-Newer :
      (t : Tables) (cs : List (Engine × Call))
      → All (λ c. (us : List UserRow) → c.0.new_user_id us ≢ id) cs
      → Newer id v t.users
      → Newer id v (run t cs).users
  unfolding run
  run-Newer t [] no_reuse n = n
  run-Newer t ((e, c) ∷ cs) (no_reuse, rest) n =
      run-Newer (call e t c).0 cs rest (call-Newer e t c no_reuse n)

  Newer-none : (us : List UserRow) → count_rows (has_id id) us ≡ 0 → Newer id v us
  unfolding count_rows
  Newer-none [] h = tt
  Newer-none (u ∷ us) h = (λ e. absurd (ground (arith, e)), Newer-none us (ground arith))

  -- With unique ids, the row that is found is the only one of its id.
  pub Newer-found :
      (us : List UserRow)
      → count_rows (has_id id) us ≤ 1
      → ((u : UserRow) → find_row (has_id id) us ≡ some u → v < u.token_version)
      → Newer id v us
  unfolding count_rows find_row
  Newer-found [] one up = tt
  Newer-found (u ∷ us) one up = elim (Bool-cases (has_id id u)) [
    | inl here ↦ (λ e. up u (rw here refl), Newer-none us (ground (arith, one)))
    | inr there ↦ (
      λ e. absurd (ground (arith, e)),
      Newer-found us (ground (arith, one)) (λ w at_w. up w (rw there at_w)),
    )
  ]

  pub version_of_Newer :
      (us : List UserRow) {u : UserRow}
      → Newer id v us
      → find_row (has_id id) us ≡ some u
      → v < u.token_version
  unfolding find_row
  version_of_Newer [] n h = absurd (cc h)
  version_of_Newer (w ∷ us) {u} (n, ns) h = elim (Bool-cases (has_id id w)) [
    | inl here ↦
        let same : some w ≡ some u = rw here at h in
        let up = n (ground arith) in ground (arith, same)
    | inr there ↦ version_of_Newer us {u = u} ns (rw there at h)
  ]

-- After a revocation of a version that succeeded, in tables with unique ids, the version is over.
pub revoke_user_tokens-Newer :
    (e : Engine) (t : Tables) (id version : ℕ)
    → IsKeyed e
    → IsUnique t
    → (revoke_user_tokens e t id version).1 ≡ ok tt
    → Newer id version (revoke_user_tokens e t id version).0.users
unfolding call
revoke_user_tokens-Newer e t id version k v done = elim (Bool-cases (e.fails 0)) [
  | inl failed ↦ absurd (unfold revoke_user_tokens in ground (arith, failed, done))
  | inr fine ↦ elim (revoke_user_tokens-swap e t id version v fine) [
    | inl (u, found, current, _, raised) ↦
        Newer-found id version (revoke_user_tokens e t id version).0.users
          ((call-IsUnique e t (revoke id version) k v).ids id)
          (λ w at_w. ground (arith, raised, at_w))
    | inr (_, refused) ↦ absurd (ground (arith, rw refused at done))
  ]
]
