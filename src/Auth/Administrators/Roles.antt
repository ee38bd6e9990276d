-- ===== src/Auth/Administrators/Roles.antt =====
-- `set_roles` of the repository and the invariant.
use mathlib.Core.Path.{subst}
use arduino_component_knowle.Prelude.{
  update_where, ℕ, ◌+◌, ◌≤◌, ◌≡◌, sym, ◌∙◌, ◌≢◌, inl, inr, Option, some, ◌++◌, arith, ◌==◌,
  if◌then◌else◌, Bool-cases, ==_iff,
}
use arduino_component_knowle.Auth.Domain.{
  Uuid, Role, Time, RoleSet, administrator, members, has_role,
}
use arduino_component_knowle.Auth.Schema.{Db}
use arduino_component_knowle.Auth.Grants.{
  count_active_administrators, set_roles, new_grants, is_current, revoke_grant,
}
use arduino_component_knowle.Auth.Grants.Current.{
  OneGrant, ExpiryFits, current_count, current_count-append, current_count-revoke_all_self,
  current_count-revoke_all_ne, new_grants_self, new_grants_ne, new_grants-ExpiryFits, All-append,
  revoke-ExpiryFits, Grants,
}
use arduino_component_knowle.Auth.Grants.Joined.{joined-grants}
use arduino_component_knowle.Auth.Administrators.{IsSound}

module _ (draw : Role → Uuid) (user_id : Uuid) (roles : RoleSet) (actor : Option Uuid) (now : Time)
    (expires_at : Option Time) (before : Grants) where
  abbrev rewritten : Grants
  rewritten =
      update_where (is_current user_id) (revoke_grant now) before
      ++ new_grants draw user_id actor now expires_at (members roles)

  rewritten_self :
      (r : Role) → current_count user_id r rewritten ≡ (if has_role r roles then 1 else 0)
  rewritten_self r =
      current_count-append user_id r (update_where (is_current user_id) (revoke_grant now) before)
        (new_grants draw user_id actor now expires_at (members roles))
      ∙ omega (
        arith,
        current_count-revoke_all_self user_id now r before,
        new_grants_self draw user_id actor now expires_at r roles,
      )

  rewritten_ne :
      (u : Uuid) (r : Role) → u ≢ user_id → current_count u r rewritten ≡ current_count u r before
  rewritten_ne u r h =
      current_count-append u r (update_where (is_current user_id) (revoke_grant now) before)
        (new_grants draw user_id actor now expires_at (members roles))
      ∙ omega (
        arith,
        current_count-revoke_all_ne user_id now u r before h,
        new_grants_ne draw user_id actor now expires_at u r (members roles) h,
      )

  rewritten-OneGrant : OneGrant before → OneGrant rewritten
  rewritten-OneGrant one u r = elim (Bool-cases (u == user_id)) [
    | inl e ↦
        subst (λ v. current_count v r rewritten ≤ 1) (sym ((==_iff u user_id).0 e))
          (rw (rewritten_self r) (ground arith))
    | inr e ↦ rw (rewritten_ne u r (ground arith)) (one u r)
  ]

-- `set_roles` keeps the constraints, and loses at most one active administrator: none, if the new
-- roles have the administrator role or the user had no current grant of it.
module _ (draw : Role → Uuid) (user_id : Uuid) (roles : RoleSet) (actor : Uuid) (now : Time)
    (expires_at : Option Time) (db : Db) (s : IsSound db) where
  abbrev after : Db
  after = set_roles draw user_id roles actor now expires_at db

  pub set_roles-IsSound : IsSound after
  unfolding set_roles
  set_roles-IsSound = record {
    users_distinct = s.users_distinct;
    one_grant =
        rewritten-OneGrant draw user_id roles (some actor) now expires_at db.grants s.one_grant;
    expiry =
        All-append ExpiryFits (update_where (is_current user_id) (revoke_grant now) db.grants)
          (new_grants draw user_id (some actor) now expires_at (members roles))
          (revoke-ExpiryFits (is_current user_id) now db.grants s.expiry)
          (new_grants-ExpiryFits draw user_id (some actor) now expires_at (members roles));
  }

  pub count-set_roles :
      (lost : ℕ)
      → current_count user_id administrator db.grants
        ≤ (if roles.administrator then 1 else 0) + lost
      → count_active_administrators db ≤ count_active_administrators after + lost
  unfolding set_roles count_active_administrators
  count-set_roles lost h =
      joined-grants user_id lost db.grants
        (rewritten draw user_id roles (some actor) now expires_at db.grants)
        (λ u ne. omega (
          arith,
          rewritten_ne draw user_id roles (some actor) now expires_at db.grants u administrator ne,
        ))
        (rw (rewritten_self draw user_id roles (some actor) now expires_at db.grants administrator)
          h)
        db.users s.users_distinct
