-- ===== src/Store/Rows.antt =====
-- backend/internal/store/store.go: the rows of the two tables, and what SQL does to a table.
use wol_secure_light_switch.Prelude.{
  ℕ, suc, ◌+◌, ◌≤◌, ◌<◌, ◌≡◌, refl, Bool, true, false, ◌&&◌, Option, none, some, arith, List, [],
  ◌∷◌, ◌++◌, Text, ◌==◌, if◌then◌else◌, Bool-cases, inl, inr,
}

pub record UserRow : Type 0 where
  pub id : ℕ
  pub email : Text
  pub password_hash : Text
  pub is_admin : Bool
  pub token_version : ℕ

pub record DeviceRow : Type 0 where
  pub id : ℕ
  pub user_id : ℕ
  pub device_id : Text

pub record Tables : Type 0 where
  pub users : List UserRow
  pub user_devices : List DeviceRow

module _ {ℓ} {A : Type ℓ} (p : A → Bool) where
  -- `SELECT ... WHERE p LIMIT 1`
  unfoldable pub find_row : List A → Option A
  find_row [] = none
  find_row (u ∷ us) = if p u then some u else find_row us

  -- `SELECT COUNT(*) ... WHERE p`
  unfoldable pub count_rows : List A → ℕ
  count_rows [] = 0
  count_rows (u ∷ us) = let n = count_rows us in if p u then suc n else n

  -- `UPDATE ... WHERE p`
  unfoldable pub update_rows : (A → A) → List A → List A
  update_rows f [] = []
  update_rows f (u ∷ us) = (if p u then f u else u) ∷ update_rows f us

  -- `DELETE ... WHERE p`
  unfoldable pub delete_rows : List A → List A
  delete_rows [] = []
  delete_rows (u ∷ us) = let rest = delete_rows us in if p u then rest else u ∷ rest

  pub count_rows-append : (xs ys : List A) → count_rows (xs ++ ys) ≡ count_rows xs + count_rows ys
  unfolding count_rows
  count_rows-append [] ys = omega arith
  count_rows-append (x ∷ xs) ys = ground (arith, count_rows-append xs ys)

  -- Which rows stand in a table decides whether one is found.
  pub find_row-none : (us : List A) → count_rows us ≡ 0 → find_row us ≡ none
  unfolding count_rows find_row
  find_row-none [] h = refl
  find_row-none (u ∷ us) h = ground (arith, find_row-none us)

  pub find_row-some :
      (us : List A) → 0 < count_rows us → (u : A) × (find_row us ≡ some u) × (p u ≡ true)
  unfolding count_rows find_row
  find_row-some [] h = absurd (omega arith)
  find_row-some (u ∷ us) h = elim (Bool-cases (p u)) [
    | inl here ↦ (u, rw here refl, here)
    | inr later ↦
        let (w, found, good) = find_row-some us (ground arith) in (w, rw later found, good)
  ]

  pub find_row-holds :
      (us : List A) {u : A} → find_row us ≡ some u → (p u ≡ true) × (0 < count_rows us)
  unfolding count_rows find_row
  find_row-holds [] h = absurd (cc h)
  find_row-holds (x ∷ us) {u} h = ground (arith, find_row-holds us {u = u})

  pub find_row-append : (xs ys : List A) → count_rows xs ≡ 0 → find_row (xs ++ ys) ≡ find_row ys
  unfolding count_rows find_row
  find_row-append [] ys h = refl
  find_row-append (x ∷ xs) ys h = ground (arith, find_row-append xs ys)

unfoldable pub devices_of : ℕ → List DeviceRow → List DeviceRow
devices_of id [] = []
devices_of id (d ∷ ds) = let rest = devices_of id ds in if d.user_id == id then d ∷ rest else rest

-- `DELETE FROM user_devices WHERE user_id = id`
unfoldable pub drop_devices : ℕ → List DeviceRow → List DeviceRow
drop_devices id = delete_rows (λ d. d.user_id == id)

-- How the number of rows with one property moves when the rows with another are written.
module _ {ℓ} {A : Type ℓ} (p q : A → Bool) where
  pub count_rows_mono :
      ((u : A) → p u ≡ true → q u ≡ true) → (us : List A) → count_rows p us ≤ count_rows q us
  unfolding count_rows
  count_rows_mono h [] = omega arith
  count_rows_mono h (u ∷ us) = ground (arith, h u, count_rows_mono h us)

  pub count_rows-delete-le : (us : List A) → count_rows q (delete_rows p us) ≤ count_rows q us
  unfolding count_rows delete_rows
  count_rows-delete-le [] = omega arith
  count_rows-delete-le (u ∷ us) = ground (arith, count_rows-delete-le us)

  pub count_rows-delete-ge :
      (us : List A) → count_rows q us ≤ count_rows q (delete_rows p us) + count_rows p us
  unfolding count_rows delete_rows
  count_rows-delete-ge [] = omega arith
  count_rows-delete-ge (u ∷ us) = ground (arith, count_rows-delete-ge us)

  pub count_rows-delete_disjoint :
      ((u : A) → p u ≡ true → q u ≡ false)
      → (us : List A) → count_rows q (delete_rows p us) ≡ count_rows q us
  unfolding count_rows delete_rows
  count_rows-delete_disjoint h [] = refl
  count_rows-delete_disjoint h (u ∷ us) = ground (arith, h u, count_rows-delete_disjoint h us)

  pub find_row-delete_disjoint :
      ((u : A) → p u ≡ true → q u ≡ false)
      → (us : List A) → find_row q (delete_rows p us) ≡ find_row q us
  unfolding find_row delete_rows
  find_row-delete_disjoint h [] = refl
  find_row-delete_disjoint h (u ∷ us) = ground (arith, h u, find_row-delete_disjoint h us)

  module _ (f : A → A) where
    pub count_rows-update-ge :
        (us : List A) → count_rows q us ≤ count_rows q (update_rows p f us) + count_rows p us
    unfolding count_rows update_rows
    count_rows-update-ge [] = omega arith
    count_rows-update-ge (u ∷ us) = ground (arith, count_rows-update-ge us)

    pub count_rows-update_kept :
        ((u : A) → p u ≡ true → q u ≡ true → q (f u) ≡ true)
        → (us : List A) → count_rows q us ≤ count_rows q (update_rows p f us)
    unfolding count_rows update_rows
    count_rows-update_kept h [] = omega arith
    count_rows-update_kept h (u ∷ us) = ground (arith, h u, count_rows-update_kept h us)

    pub count_rows-update_same :
        ((u : A) → q (f u) ≡ q u)
        → (us : List A) → count_rows q (update_rows p f us) ≡ count_rows q us
    unfolding count_rows update_rows
    count_rows-update_same h [] = refl
    count_rows-update_same h (u ∷ us) = ground (arith, h u, count_rows-update_same h us)

    -- What is found after an update is what was found before, updated if it was chosen.
    abbrev pub updated : Option A → Option A
    updated none = none
    updated (some u) = some (if p u then f u else u)

    pub find_row-update :
        ((u : A) → q (f u) ≡ q u)
        → (us : List A) → find_row q (update_rows p f us) ≡ updated (find_row q us)
    unfolding find_row update_rows
    find_row-update h [] = refl
    find_row-update h (u ∷ us) = ground (arith, h u, find_row-update h us)

-- A property that at most one row has.
module _ {ℓ} {A : Type ℓ} (p g : A → Bool) where
  abbrev pub hits : Option A → ℕ
  hits none = 0
  hits (some u) = if g u then 1 else 0

  -- The rows that a guarded statement reaches: the one found, if the guard lets it.
  pub count_rows-guarded :
      (us : List A) → count_rows p us ≤ 1 → count_rows (λ u. p u && g u) us ≡ hits (find_row p us)
  unfolding count_rows find_row
  count_rows-guarded [] h = refl
  count_rows-guarded (u ∷ us) h = ground (
    arith,
    count_rows-guarded us,
    count_rows_mono (λ w. p w && g w) p (λ w both. ground arith) us,
  )

  pub find_row-delete_guarded :
      (us : List A)
      → count_rows p us ≤ 1
      → count_rows (λ u. p u && g u) us ≡ 1
      → find_row p (delete_rows (λ u. p u && g u) us) ≡ none
  unfolding count_rows find_row delete_rows
  find_row-delete_guarded [] h one = refl
  find_row-delete_guarded (u ∷ us) h one = ground (
    arith,
    find_row-delete_guarded us,
    count_rows_mono (λ w. p w && g w) p (λ w both. ground arith) us,
    find_row-none p (delete_rows (λ w. p w && g w) us),
    count_rows-delete-le (λ w. p w && g w) p us,
  )

-- An update of rows that a condition does not hold of, before and after, is not seen by it.
pub find_row-update_disjoint {ℓ} :
    {A : Type ℓ} (p q : A → Bool) (f : A → A)
    → ((u : A) → p u ≡ true → q u ≡ false)
    → ((u : A) → q (f u) ≡ q u)
    → (us : List A) → find_row q (update_rows p f us) ≡ find_row q us
unfolding find_row update_rows
find_row-update_disjoint p q f apart same_key [] = refl
find_row-update_disjoint p q f apart same_key (u ∷ us) =
    ground (arith, apart u, same_key u, find_row-update_disjoint p q f apart same_key us)
