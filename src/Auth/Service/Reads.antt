-- ===== src/Auth/Service/Reads.antt =====
-- What the methods of `AuthService` know after reading an account.
use mathlib.Core.Path.{subst}
use arduino_component_knowle.Prelude.{
  find, ◌≡◌, refl, inl, inr, Option, none, some, List, [], ◌∷◌, arith, Option-cases, String,
}
use arduino_component_knowle.Exec.{◌>>=◌}
use arduino_component_knowle.Exec.Keeps.{KeepsAt}
use arduino_component_knowle.Auth.Domain.{Uuid, Time, UserIdentity}
use arduino_component_knowle.Auth.Schema.{Db, User}
use arduino_component_knowle.Auth.Grants.{roles_of}
use arduino_component_knowle.Auth.Accounts.{
  find_user_by_login, find_user, has_id, with_roles, identity,
}
use arduino_component_knowle.Auth.Service.Common.{Draw, Method, existing_user, refuse_login}

module _ {A : Type 0} {P : Db → Type 0} {s : Db} where
  -- The block after `existing_user` runs on a user that `find_user` returned.
  pub KeepsAt-existing_user :
      (d : Draw) (user_id : Uuid) (k : UserIdentity → Method A)
      → ((user : UserIdentity) → find_user user_id d.read_now s ≡ some user → KeepsAt P s (k user))
      → KeepsAt P s (existing_user d user_id >>= k)
  unfolding existing_user ◌>>=◌
  KeepsAt-existing_user d user_id k h = elim (Option-cases (find_user user_id d.read_now s)) [
    | inl e ↦ record { at = rw e (λ p. p) }
    | inr (user, e) ↦ record { at = rw e (h user e).at }
  ]

  -- The block after `refuse_login` runs only where nobody has the login.
  pub KeepsAt-refuse_login :
      (d : Draw) (login : String) (k : Unit {0} → Method A)
      → (find_user_by_login login d.read_now s ≡ none → KeepsAt P s (k tt))
      → KeepsAt P s (refuse_login d login >>= k)
  unfolding refuse_login ◌>>=◌
  KeepsAt-refuse_login d login k h = elim (Option-cases (find_user_by_login login d.read_now s)) [
    | inl e ↦ record { at = rw e (h e).at }
    | inr (user, e) ↦ record { at = rw e (λ p. p) }
  ]

find-has_id :
    (user_id : Uuid) (users : List User) (u : User)
    → find (has_id user_id) users ≡ some u
    → u.id ≡ user_id
find-has_id user_id [] u e = cc
find-has_id user_id (x ∷ users) u e = ground (arith, find-has_id user_id users u)

with_roles-some :
    (now : Time) (db : Db) (o : Option User) (user : UserIdentity)
    → with_roles now db o ≡ some user
    → (u : User) × (o ≡ some u) × (identity u (roles_of u.id now db.grants) ≡ user)
with_roles-some now db none user e = cc
with_roles-some now db (some u) user e = (u, refl, cc)

-- The identity that `find_user` returns is read from a row with the identifier.
pub find_user-some :
    (user_id : Uuid) (now : Time) (db : Db) (user : UserIdentity)
    → find_user user_id now db ≡ some user
    → (u : User) × (find (has_id user_id) db.users ≡ some u)
      × (u.id ≡ user_id)
      × (identity u (roles_of user_id now db.grants) ≡ user)
unfolding find_user
find_user-some user_id now db user e =
    let (u, found, same) = with_roles-some now db (find (has_id user_id) db.users) user e in
    let own : u.id ≡ user_id = find-has_id user_id db.users u found in
    (u, found, own, subst (λ v. identity u (roles_of v now db.grants) ≡ user) own same)
