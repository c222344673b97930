-- ===== src/Store/Directory/View.antt =====
-- backend/internal/store: what the counts of the SQL statements say of the directory of users.
use wol_secure_light_switch.Prelude.{
  ℕ, ◌+◌, ◌≤◌, ◌<◌, ◌≡◌, refl, Bool, true, false, not, ◌&&◌, some, arith, List, [], ◌∷◌, ◌++◌, Text,
  ◌==◌, Bool-cases, inl, inr, same_eq,
}
use wol_secure_light_switch.Store.{
  UserRow, Tables, has_id, has_email, is_administrator, admins, may_lose,
}
use wol_secure_light_switch.Store.Rows.{
  count_rows, count_rows_mono, find_row, find_row-some, find_row-holds, find_row-append,
}
use wol_secure_light_switch.Store.Keys.{IsUnique}
use wol_secure_light_switch.Store.Users.{user_at}
use wol_secure_light_switch.Store.Directory.{
  view, IsAdmin, OtherAdmin, MayLose, IsLast, IsFree, IsTaken, Writes,
}

-- A row that is found by any condition is the one that its id finds, if the id stands once.
pub find_row-at_id :
    (p : UserRow → Bool) (us : List UserRow) {w : UserRow}
    → find_row p us ≡ some w
    → count_rows (has_id w.id) us ≤ 1
    → find_row (has_id w.id) us ≡ some w
unfolding find_row count_rows
find_row-at_id p [] found one = absurd (cc found)
find_row-at_id p (x ∷ us) {w} found one = elim (Bool-cases (p x)) [
  | inl here ↦ let same_row : some x ≡ some w = rw here at found in ground (arith, same_row)
  | inr later ↦
      let rest : find_row p us ≡ some w = rw later at found in
      ground (arith, rest, one, find_row-at_id p us {w = w} rest, found_count us rest)
]
  where
    found_count : (us : List UserRow) → find_row p us ≡ some w → 0 < count_rows (has_id w.id) us
    found_count [] h = absurd (cc h)
    found_count (y ∷ ys) h = elim (Bool-cases (p y)) [
      | inl here ↦ let same_row : some y ≡ some w = rw here at h in ground (arith, same_row)
      | inr later ↦ let more = found_count ys (rw later at h) in ground (arith, more)
    ]

abbrev other_admin : ℕ → UserRow → Bool
other_admin id u = u.is_admin && not (has_id id u)

count_rows-other :
    (id : ℕ) (us : List UserRow)
    → count_rows is_administrator us
      ≡ count_rows (other_admin id) us + count_rows (λ u. has_id id u && u.is_admin) us
unfolding count_rows
count_rows-other id [] = omega arith
count_rows-other id (u ∷ us) = ground (arith, count_rows-other id us)

-- A row that is found under its id counts.
pub count_rows_of_found :
    (p : UserRow → Bool) (q : ℕ) (us : List UserRow) {w : UserRow}
    → find_row (has_id q) us ≡ some w
    → p w ≡ true
    → 0 < count_rows p us
unfolding find_row count_rows
count_rows_of_found p q [] found good = absurd (cc found)
count_rows_of_found p q (x ∷ us) {w} found good = elim (Bool-cases (has_id q x)) [
  | inl here ↦ let same_row : some x ≡ some w = rw here at found in ground (arith, same_row, good)
  | inr later ↦
      let more = count_rows_of_found p q us {w = w} (rw later at found) good in ground (arith, more)
]

module _ (t : Tables) (v : IsUnique t) where
  pub IsAdmin-of_count : 0 < admins t → (q : ℕ) × IsAdmin (view t) q
  IsAdmin-of_count h =
      let (w, found, good) = find_row-some is_administrator t.users h in
      (w.id, (w, find_row-at_id is_administrator t.users {w = w} found (v.ids w.id), good))

  pub count_of_IsAdmin : (q : ℕ) → IsAdmin (view t) q → 0 < admins t
  count_of_IsAdmin q (u, found, good) =
      count_rows_of_found is_administrator q t.users {w = u} found good

  other_admin-OtherAdmin :
      (id : ℕ) → 0 < count_rows (other_admin id) t.users → OtherAdmin (view t) id
  other_admin-OtherAdmin id h =
      let (w, found, good) = find_row-some (other_admin id) t.users h in
      (
        w.id,
        ground arith,
        (w, find_row-at_id (other_admin id) t.users {w = w} found (v.ids w.id), ground arith),
      )

  own_rows : (id : ℕ) → count_rows (λ u. has_id id u && u.is_admin) t.users ≤ 1
  own_rows id = omega (
    arith,
    v.ids id,
    count_rows_mono (λ u. has_id id u && u.is_admin) (has_id id) (λ u h. ground arith) t.users,
  )

  -- The guard of the statements, read as a condition on the directory.
  pub may_lose-MayLose :
      (id : ℕ) {u : UserRow} → user_at t id ≡ some u → may_lose t u ≡ true → MayLose (view t) id u
  may_lose-MayLose id {u} found h = elim (Bool-cases u.is_admin) [
    | inr plain ↦ inl plain
    | inl admin ↦ inr (other_admin-OtherAdmin id (enough admin))
  ]
    where
      enough : u.is_admin ≡ true → 0 < count_rows (other_admin id) t.users
      enough admin = ground (arith, h, count_rows-other id t.users, own_rows id)

  pub IsLast-of_refused :
      (id : ℕ) {u : UserRow} → user_at t id ≡ some u → may_lose t u ≡ false → IsLast (view t) id
  IsLast-of_refused id {u} found h = ((u, found, ground arith), only)
    where
      few : admins t ≤ 1
      few = ground (arith, h)

      own : 0 < count_rows (λ w. has_id id w && w.is_admin) t.users
      own =
          count_rows_of_found (λ w. has_id id w && w.is_admin) id t.users {w = u} found
            (ground (arith, find_row-holds (has_id id) t.users {u = u} found))

      only : (q : ℕ) → IsAdmin (view t) q → q ≡ id
      only q (w, at_q, good) = elim (Bool-cases (q == id)) [
        | inl same_id ↦ ground arith
        | inr other ↦
            let more =
              count_rows_of_found (other_admin id) q t.users {w = w} at_q
                (ground (arith, find_row-holds (has_id q) t.users {u = w} at_q)) in
            absurd (omega (arith, more, own, few, count_rows-other id t.users))
      ]

  pub IsFree-of_count :
      (email : Text) → count_rows (has_email email) t.users ≡ 0 → IsFree (view t) email
  IsFree-of_count email h q u found taken =
      let more =
        count_rows_of_found (has_email email) q t.users {w = u} found
          (rw taken (same_eq email email refl)) in
      omega (arith, more, h)

  pub IsTaken-of_count :
      (email : Text) → 0 < count_rows (has_email email) t.users → IsTaken (view t) email
  IsTaken-of_count email h =
      let (w, found, same_email) = find_row-some (has_email email) t.users h in
      (
        w.id,
        w,
        find_row-at_id (has_email email) t.users {w = w} found (v.ids w.id),
        ground (arith, same_email),
      )

pub find_row-append_other :
    (p : UserRow → Bool) (us : List UserRow) (w : UserRow)
    → p w ≡ false
    → find_row p (us ++ w ∷ []) ≡ find_row p us
unfolding find_row
find_row-append_other p [] w h = ground arith
find_row-append_other p (u ∷ us) w h = ground (arith, find_row-append_other p us w h)

-- A user under an id that no row has is appended.
pub append-Writes :
    (us : List UserRow) (w : UserRow)
    → count_rows (has_id w.id) us ≡ 0
    → Writes (λ q. find_row (has_id q) us) (λ q. find_row (has_id q) (us ++ w ∷ [])) w.id (some w)
append-Writes us w none_yet = (
  unfold find_row in ground (arith, find_row-append (has_id w.id) us (w ∷ []) none_yet),
  λ q ne. find_row-append_other (has_id q) us w (ground arith),
)
