-- ===== src/Auth/Administrators/Editors.antt =====
-- `grant_editor` and `revoke_editor` of the repository and the invariant: no administrator grant
-- is touched.
use mathlib.Core.Path.{subst}
use arduino_component_knowle.Prelude.{
  update_where, ==_iff, ◌+◌, ◌≤◌, ◌≡◌, ◌∙◌, inl, inr, true, ◌&&◌, Option, some, [], ◌∷◌, ◌++◌,
  arith, ◌==◌, if◌then◌else◌, Bool-cases,
}
use arduino_component_knowle.Auth.Domain.{Uuid, Role, Time, administrator, editor, same_role}
use arduino_component_knowle.Auth.Schema.{Db}
use arduino_component_knowle.Auth.Grants.{
  count_active_administrators, grant_editor, revoke_editor, new_grants, is_current_role,
  revoke_grant,
}
use arduino_component_knowle.Auth.Grants.Current.{
  OneGrant, ExpiryFits, current_count, current_count-append, current_count-revoke_editor_self,
  current_count-revoke_editor_le, administrator-revoke_editor, new_grants-ExpiryFits, All-append,
  revoke-ExpiryFits, Grants, same_role-eq,
}
use arduino_component_knowle.Auth.Grants.Joined.{joined-grants}
use arduino_component_knowle.Auth.Administrators.{IsSound}

module _ (user_id : Uuid) (now : Time) (before : Grants) where
  abbrev revoked : Grants
  revoked = update_where (is_current_role user_id editor) (revoke_grant now) before

  revoked-OneGrant : OneGrant before → OneGrant revoked
  revoked-OneGrant one u r =
      omega (arith, current_count-revoke_editor_le user_id now u r before, one u r)

  module _ (draw : Role → Uuid) (actor : Option Uuid) (expires_at : Option Time) where
    abbrev granted : Grants
    granted = revoked ++ new_grants draw user_id actor now expires_at (editor ∷ [])

    new_editor :
        (u : Uuid) (r : Role)
        → current_count u r (new_grants draw user_id actor now expires_at (editor ∷ []))
          ≡ (if (user_id == u) && same_role editor r then 1 else 0)
    unfolding new_grants
    new_editor u r = ground arith

    granted_count :
        (u : Uuid) (r : Role)
        → current_count u r granted
          ≡ current_count u r revoked + (if (user_id == u) && same_role editor r then 1 else 0)
    granted_count u r =
        current_count-append u r revoked
          (new_grants draw user_id actor now expires_at (editor ∷ []))
        ∙ omega (arith, new_editor u r)

    granted-OneGrant : OneGrant before → OneGrant granted
    granted-OneGrant one u r =
        rw (granted_count u r) (elim (Bool-cases ((user_id == u) && same_role editor r)) [
          | inl e ↦ rw e (omega (arith, self e))
          | inr e ↦ rw e (omega (arith, revoked-OneGrant one u r))
        ])
      where
        self : ((user_id == u) && same_role editor r) ≡ true → current_count u r revoked ≡ 0
        self e =
            subst (λ v. current_count v r revoked ≡ 0) ((==_iff user_id u).0 (ground arith))
              (subst (λ q. current_count user_id q revoked ≡ 0)
                (same_role-eq editor r (ground arith))
                (current_count-revoke_editor_self user_id now before))

    granted_administrator :
        (u : Uuid) → current_count u administrator granted ≡ current_count u administrator before
    granted_administrator u =
        granted_count u administrator
        ∙ ground (arith, administrator-revoke_editor user_id now u before)

module _ (user_id : Uuid) (now : Time) (db : Db) (s : IsSound db) where
  pub revoke_editor-IsSound : IsSound (revoke_editor user_id now db)
  unfolding revoke_editor
  revoke_editor-IsSound = record {
    users_distinct = s.users_distinct;
    one_grant = revoked-OneGrant user_id now db.grants s.one_grant;
    expiry = revoke-ExpiryFits (is_current_role user_id editor) now db.grants s.expiry;
  }

  pub count-revoke_editor :
      count_active_administrators db ≤ count_active_administrators (revoke_editor user_id now db)
  unfolding revoke_editor count_active_administrators
  count-revoke_editor = omega (
    arith,
    joined-grants user_id 0 db.grants (revoked user_id now db.grants)
        (λ u ne. omega (arith, administrator-revoke_editor user_id now u db.grants))
        (omega (arith, administrator-revoke_editor user_id now user_id db.grants)) db.users
        s.users_distinct,
  )

  module _ (draw : Role → Uuid) (actor : Uuid) (expires_at : Time) where
    pub grant_editor-IsSound : IsSound (grant_editor draw user_id actor now expires_at db)
    unfolding grant_editor
    grant_editor-IsSound = record {
      users_distinct = s.users_distinct;
      one_grant =
          granted-OneGrant user_id now db.grants draw (some actor) (some expires_at) s.one_grant;
      expiry =
          All-append ExpiryFits (revoked user_id now db.grants)
            (new_grants draw user_id (some actor) now (some expires_at) (editor ∷ []))
            (revoke-ExpiryFits (is_current_role user_id editor) now db.grants s.expiry)
            (new_grants-ExpiryFits draw user_id (some actor) now (some expires_at) (editor ∷ []));
    }

    pub count-grant_editor :
        count_active_administrators db
        ≤ count_active_administrators (grant_editor draw user_id actor now expires_at db)
    unfolding grant_editor count_active_administrators
    count-grant_editor = omega (
      arith,
      joined-grants user_id 0 db.grants
          (granted user_id now db.grants draw (some actor) (some expires_at))
          (λ u ne. omega (
            arith,
            granted_administrator user_id now db.grants draw (some actor) (some expires_at) u,
          ))
          (omega (
            arith,
            granted_administrator user_id now db.grants draw (some actor) (some expires_at) user_id,
          ))
          db.users s.users_distinct,
    )
