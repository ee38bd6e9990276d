-- ===== src/Auth/Grants/Joined.antt =====
-- The rows that `count_active_administrators` counts, under each write of the repository.
use arduino_component_knowle.Prelude.{
  ℕ, any, Distinct, ◌+◌, ◌≤◌, ◌≡◌, refl, ◌≢◌, inl, inr, Bool, true, false, List, [], ◌∷◌, arith,
  ◌==◌, Bool-cases, ◌++◌, update_where,
}
use arduino_component_knowle.Auth.Domain.{Uuid, administrator}
use arduino_component_knowle.Auth.Schema.{User}
use arduino_component_knowle.Auth.Accounts.{has_id}
use arduino_component_knowle.Auth.Grants.{administrator_rows, joined_rows}
use arduino_component_knowle.Auth.Grants.Current.{Grants, current_count, current_count-append}

abbrev pub same_id : User → User → Bool
same_id u v = u.id == v.id

-- `id` is the primary key of `users`.
abbrev pub IdsDistinct : List User → Type 0
IdsDistinct users = Distinct same_id users

pub administrator_rows-le :
    (grants : Grants) (u : User)
    → administrator_rows grants u ≤ current_count u.id administrator grants
unfolding administrator_rows
administrator_rows-le grants u = ground arith

-- Behind a user of the id there is no other one.
absent-user :
    (user_id : Uuid) (v : User) (vs : List User)
    → (v.id == user_id) ≡ true
    → any (same_id v) vs ≡ false
    → any (has_id user_id) vs ≡ false
absent-user user_id v [] e h = refl
absent-user user_id v (x ∷ vs) e h = ground (arith, absent-user user_id v vs)

-- A write to the grants that leaves the current administrator grants of other users alone, and takes
-- at most `lost` from the rows of `user_id`, takes at most `lost` from the join.
module _ (user_id : Uuid) (lost : ℕ) (before after : Grants)
    (others : (u : Uuid)
      → u ≢ user_id
      → current_count u administrator before ≤ current_count u administrator after)
    (self : current_count user_id administrator before
      ≤ current_count user_id administrator after + lost) where
  rows_ne : (u : User) → u.id ≢ user_id → administrator_rows before u ≤ administrator_rows after u
  unfolding administrator_rows
  rows_ne u h = ground (arith, others u.id h)

  rows_self :
      (u : User) → u.id ≡ user_id → administrator_rows before u ≤ administrator_rows after u + lost
  unfolding administrator_rows
  rows_self u h = ground (arith, self)

  joined_absent :
      (users : List User)
      → any (has_id user_id) users ≡ false
      → joined_rows before users ≤ joined_rows after users
  unfolding joined_rows
  joined_absent [] h = omega arith
  joined_absent (u ∷ users) h = ground (arith, joined_absent users, rows_ne u)

  pub joined-grants :
      (users : List User)
      → IdsDistinct users
      → joined_rows before users ≤ joined_rows after users + lost
  unfolding joined_rows
  joined-grants [] d = omega arith
  joined-grants (u ∷ users) d = elim (Bool-cases (u.id == user_id)) [
    | inl e ↦ ground (arith, rows_self u, joined_absent users (absent-user user_id u users e d.0))
    | inr e ↦ ground (arith, joined-grants users d.1, rows_ne u)
  ]

-- A write to the row of one user.
module _ (grants : Grants) (user_id : Uuid) (f : User → User)
    (same : (u : User) → (f u).id ≡ u.id) where
  abbrev pub changed : List User → List User
  changed users = update_where (has_id user_id) f users

  any-changed :
      (v : User) (users : List User) → any (same_id v) (changed users) ≡ any (same_id v) users
  any-changed v [] = refl
  any-changed v (u ∷ users) = ground (arith, any-changed v users, same u)

  pub changed-IdsDistinct : (users : List User) → IdsDistinct users → IdsDistinct (changed users)
  changed-IdsDistinct [] d = tt
  changed-IdsDistinct (u ∷ users) d =
      ground
        (arith, changed-IdsDistinct users, any-changed u users, any-changed (f u) users, same u)

  changed_absent :
      (users : List User)
      → any (has_id user_id) users ≡ false
      → joined_rows grants (changed users) ≡ joined_rows grants users
  unfolding joined_rows
  changed_absent [] h = refl
  changed_absent (u ∷ users) h = ground (arith, changed_absent users)

  -- At most the rows of that user are lost.
  pub joined-changed :
      (lost : ℕ)
      → ((u : User)
          → u.id ≡ user_id
          → administrator_rows grants u ≤ administrator_rows grants (f u) + lost)
      → (users : List User) → IdsDistinct users
      → joined_rows grants users ≤ joined_rows grants (changed users) + lost
  unfolding joined_rows
  joined-changed lost self [] d = omega arith
  joined-changed lost self (u ∷ users) d = elim (Bool-cases (u.id == user_id)) [
    | inl e ↦
        rw e (ground (arith, self u, changed_absent users (absent-user user_id u users e d.0)))
    | inr e ↦ rw e (ground (arith, joined-changed lost self users d.1))
  ]

-- More grants and one more account lose nothing.
pub joined-append :
    (grants more : Grants) (users : List User) (u : User)
    → joined_rows grants users ≤ joined_rows (grants ++ more) (users ++ u ∷ [])
unfolding joined_rows administrator_rows
joined-append grants more [] u = omega arith
joined-append grants more (v ∷ users) u =
    ground (
      arith,
      joined-append grants more users u,
      current_count-append v.id administrator grants more,
    )

append-any :
    (w : User) (ws : List User) (x : User)
    → any (same_id w) ws ≡ false
    → (w.id == x.id) ≡ false
    → any (same_id w) (ws ++ x ∷ []) ≡ false
append-any w [] x h k = ground arith
append-any w (y ∷ ws) x h k = ground (arith, append-any w ws x)

pub append-IdsDistinct :
    (users : List User) (u : User)
    → any (has_id u.id) users ≡ false
    → IdsDistinct users
    → IdsDistinct (users ++ u ∷ [])
append-IdsDistinct [] u h d = (refl, tt)
append-IdsDistinct (v ∷ users) u h d =
    ground (arith, append-IdsDistinct users u, append-any v users u)
