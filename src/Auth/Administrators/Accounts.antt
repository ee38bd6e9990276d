-- ===== src/Auth/Administrators/Accounts.antt =====
-- The writes of the repository to `users`, and the invariant.
use mathlib.Core.Path.{subst}
use native.Mathlib.Nat.{le_trans}
use arduino_component_knowle.Prelude.{
  ==_iff, ℕ, ◌+◌, ◌≤◌, String, ◌≡◌, refl, sym, inl, inr, Option, none, some, ◌++◌, arith, ◌==◌,
  Bool-cases,
}
use arduino_component_knowle.Auth.Domain.{Uuid, Time, administrator, members, UserStatus}
use arduino_component_knowle.Auth.Schema.{Db, User}
use arduino_component_knowle.Auth.Accounts.{
  mark_login, set_password, disable_account, add_account, AccountCall, login_marks, account_row,
}
use arduino_component_knowle.Auth.Grants.{
  count_active_administrators, new_grants, administrator_rows,
}
use arduino_component_knowle.Auth.Grants.Current.{
  OneGrant, ExpiryFits, current_count, current_count-append, new_grants_self, new_grants_ne,
  new_grants-ExpiryFits, All-append, Grants,
}
use arduino_component_knowle.Auth.Grants.Joined.{
  changed-IdsDistinct, joined-changed, joined-append, append-IdsDistinct, administrator_rows-le,
}
use arduino_component_knowle.Auth.Administrators.{IsSound}
use arduino_component_knowle.Auth.Invariants.{IsUnused}

id-login_marks : (now : Time) (hash : Option String) (u : User) → (login_marks now hash u).id ≡ u.id
id-login_marks now none u = refl
id-login_marks now (some h) u = refl

rows-login_marks :
    (grants : Grants) (now : Time) (hash : Option String) (u : User)
    → administrator_rows grants (login_marks now hash u) ≡ administrator_rows grants u
unfolding administrator_rows
rows-login_marks grants now none u = refl
rows-login_marks grants now (some h) u = refl

module _ (user_id : Uuid) (now : Time) (db : Db) (s : IsSound db) where
  pub mark_login-IsSound : (hash : Option String) → IsSound (mark_login user_id now hash db)
  unfolding mark_login
  mark_login-IsSound hash = record {
    users_distinct =
        changed-IdsDistinct db.grants user_id (login_marks now hash) (id-login_marks now hash)
          db.users s.users_distinct;
    one_grant = s.one_grant;
    expiry = s.expiry;
  }

  pub count-mark_login :
      (hash : Option String)
      → count_active_administrators db
        ≤ count_active_administrators (mark_login user_id now hash db)
  unfolding mark_login count_active_administrators
  count-mark_login hash = omega (
    arith,
    joined-changed db.grants user_id (login_marks now hash) (id-login_marks now hash) 0
        (λ u e. omega (arith, rows-login_marks db.grants now hash u)) db.users s.users_distinct,
  )

  pub set_password-IsSound : (hash : String) → IsSound (set_password user_id hash now db)
  unfolding set_password
  set_password-IsSound hash = record {
    users_distinct =
        changed-IdsDistinct db.grants user_id
          (λ u. record u { password_hash = hash; updated_at = now }) (λ u. refl) db.users
          s.users_distinct;
    one_grant = s.one_grant;
    expiry = s.expiry;
  }

  pub count-set_password :
      (hash : String)
      → count_active_administrators db
        ≤ count_active_administrators (set_password user_id hash now db)
  unfolding set_password count_active_administrators administrator_rows
  count-set_password hash = omega (
    arith,
    joined-changed db.grants user_id (λ u. record u { password_hash = hash; updated_at = now })
        (λ u. refl) 0 (λ u e. omega arith) db.users s.users_distinct,
  )

  pub disable_account-IsSound : IsSound (disable_account user_id now db)
  unfolding disable_account
  disable_account-IsSound = record {
    users_distinct =
        changed-IdsDistinct db.grants user_id
          (λ u. record u { status = UserStatus.disabled; updated_at = now }) (λ u. refl) db.users
          s.users_distinct;
    one_grant = s.one_grant;
    expiry = s.expiry;
  }

  -- Disabling loses at most as many rows as the user had current administrator grants.
  pub count-disable_account :
      (lost : ℕ)
      → current_count user_id administrator db.grants ≤ lost
      → count_active_administrators db
        ≤ count_active_administrators (disable_account user_id now db) + lost
  unfolding disable_account count_active_administrators
  count-disable_account lost h =
      joined-changed db.grants user_id
        (λ u. record u { status = UserStatus.disabled; updated_at = now }) (λ u. refl) lost
        (λ u e. le_trans (administrator_rows-le db.grants u) (
          subst
            (λ v.
              current_count v administrator db.grants
              ≤ administrator_rows db.grants
                  (record u { status = UserStatus.disabled; updated_at = now })
                + lost)
            (sym e) (omega arith)))
        db.users s.users_distinct

module _ (call : AccountCall) (db : Db) (s : IsSound db) (fresh : IsUnused call.id db) where
  abbrev more : Grants
  more =
      new_grants call.draw call.id call.actor_id call.now call.editor_expires_at
        (members call.roles)

  more-OneGrant : OneGrant (db.grants ++ more)
  more-OneGrant u r =
      rw (current_count-append u r db.grants more) (elim (Bool-cases (u == call.id)) [
        | inl e ↦
            subst (λ v. current_count v r db.grants + current_count v r more ≤ 1)
              (sym ((==_iff u call.id).0 e))
              (rw
                (
                  fresh.no_grant r,
                  new_grants_self call.draw call.id call.actor_id call.now call.editor_expires_at r
                      call.roles,
                )
                (ground arith))
        | inr e ↦ omega (
          arith,
          s.one_grant u r,
          new_grants_ne call.draw call.id call.actor_id call.now call.editor_expires_at u r
              (members call.roles) (ground arith),
        )
      ])

  pub add_account-IsSound : IsSound (add_account call db)
  unfolding add_account
  add_account-IsSound = record {
    users_distinct = append-IdsDistinct db.users (account_row call) fresh.no_user s.users_distinct;
    one_grant = more-OneGrant;
    expiry = All-append ExpiryFits db.grants more s.expiry (
        new_grants-ExpiryFits call.draw call.id call.actor_id call.now call.editor_expires_at
          (members call.roles));
  }

pub count-add_account :
    (call : AccountCall) (db : Db)
    → count_active_administrators db ≤ count_active_administrators (add_account call db)
unfolding add_account count_active_administrators
count-add_account call db =
    joined-append db.grants
      (new_grants call.draw call.id call.actor_id call.now call.editor_expires_at
        (members call.roles))
      db.users (account_row call)
