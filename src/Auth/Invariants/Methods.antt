-- ===== src/Auth/Invariants/Methods.antt =====
-- The methods of `AuthService` on roles and accounts keep the invariant, whether they return or
-- raise.
use arduino_component_knowle.Prelude.{String, Option}
use arduino_component_knowle.Exec.Keeps.{
  Keeps-each, KeepsAt-gets, KeepsAt-raise_if, KeepsAt-lift, KeepsAt-modify, Keeps, keeps_rules,
  KeepsAt,
}
use arduino_component_knowle.Auth.Domain.{Uuid, RoleSet, last_administrator, role_grant_policy}
use arduino_component_knowle.Auth.Schema.{Db}
use arduino_component_knowle.Auth.Grants.{count_active_administrators}
use arduino_component_knowle.Auth.Invariants.{Invariant, At, IsStable, IsUnused}
use arduino_component_knowle.Auth.Invariants.Frames.{audit-frame, revoke_user_sessions-frame}
use arduino_component_knowle.Auth.Platform.{Platform, Datetime}
use arduino_component_knowle.Auth.Service.Common.{Draw, instant_of}
use arduino_component_knowle.Auth.Service.Reads.{KeepsAt-existing_user, KeepsAt-refuse_login}
use arduino_component_knowle.Auth.Service.Admin.{
  set_roles, disable_user, grant_editor, revoke_editor, reset_password, create_user,
  create_administrator,
}

module _ {P : Invariant} (stable : IsStable P) where
  module _ (platform : Platform) (d : Draw) (actor user_id : Uuid) where
    pub set_roles-Keeps :
        (roles : RoleSet) (expires_at : Option Datetime)
        → Keeps (At P) (set_roles platform d actor user_id roles expires_at)
    unfolding set_roles
    set_roles-Keeps roles expires_at = Keeps-each λ s.
        KeepsAt-existing_user d user_id _ λ user found. KeepsAt-gets count_active_administrators _ (
          KeepsAt-raise_if _ last_administrator _ λ guard. KeepsAt-lift _ _ λ _ valid.
            KeepsAt-modify _ _
              (stable.on_set_roles d.grant_id user_id actor d.read_now d.now s user roles
                (instant_of expires_at) found guard)
              (search (keeps_rules, audit-frame P, revoke_user_sessions-frame P)))

    pub grant_editor-Keeps :
        (expires_at : Datetime) → Keeps (At P) (grant_editor platform d actor user_id expires_at)
    unfolding grant_editor
    grant_editor-Keeps expires_at = Keeps-each λ s. KeepsAt-existing_user d user_id _ λ user found.
        KeepsAt-raise_if _ role_grant_policy _ λ guard. KeepsAt-lift _ _ λ _ valid.
          KeepsAt-modify _ _
            (stable.on_grant_editor d.grant_id user_id actor d.now expires_at.instant s)
            (search (keeps_rules, audit-frame P, revoke_user_sessions-frame P))

    pub reset_password-Keeps :
        (password : String) → Keeps (At P) (reset_password platform d actor user_id password)
    unfolding reset_password
    reset_password-Keeps password = Keeps-each λ s. KeepsAt-existing_user d user_id _ λ user found.
        KeepsAt-lift _ _ λ hash valid.
          KeepsAt-modify _ _ (stable.on_set_password user.id hash d.now s)
            (search (keeps_rules, audit-frame P, revoke_user_sessions-frame P))

  module _ (d : Draw) (actor user_id : Uuid) where
    pub revoke_editor-Keeps : Keeps (At P) (revoke_editor d actor user_id)
    unfolding revoke_editor
    revoke_editor-Keeps = Keeps-each λ s. KeepsAt-existing_user d user_id _ λ user found.
        KeepsAt-raise_if _ role_grant_policy _ λ guard.
          KeepsAt-modify _ _ (stable.on_revoke_editor user_id d.now s)
            (search (keeps_rules, audit-frame P, revoke_user_sessions-frame P))

    pub disable_user-Keeps : Keeps (At P) (disable_user d actor user_id)
    unfolding disable_user
    disable_user-Keeps = Keeps-each λ s. KeepsAt-existing_user d user_id _ λ user found.
        KeepsAt-gets count_active_administrators _ (
          KeepsAt-raise_if _ last_administrator _ λ guard.
            KeepsAt-modify _ _
              (stable.on_disable_account user_id d.read_now d.now s user found guard)
              (search (keeps_rules, audit-frame P)))

  -- The methods that create an account, where the identifier drawn is unused.
  module _ (platform : Platform) (d : Draw) (actor : Uuid) {s : Db}
      (fresh : IsUnused d.user_id s) where
    pub create_user-Keeps :
        (name display_name password : String) (roles : RoleSet) (expires_at : Option Datetime)
        → KeepsAt
            (At P)
            s
            (create_user platform d actor name display_name password roles expires_at)
    unfolding create_user
    create_user-Keeps name display_name password roles expires_at = KeepsAt-lift _ _ λ login valid.
        KeepsAt-refuse_login d login _ λ absent. KeepsAt-lift _ _ λ _ lifetime.
          KeepsAt-lift _ _ λ hash long.
            KeepsAt-modify _ _ (stable.on_add_account _ d.read_now s fresh absent)
              (search (keeps_rules, audit-frame P))

    pub create_administrator-Keeps :
        (name password : String)
        → KeepsAt (At P) s (create_administrator platform d actor name password)
    unfolding create_administrator
    create_administrator-Keeps name password = KeepsAt-lift _ _ λ login valid.
        KeepsAt-refuse_login d login _ λ absent. KeepsAt-lift _ _ λ hash long.
          KeepsAt-modify _ _ (stable.on_add_account _ d.read_now s fresh absent)
            (search (keeps_rules, audit-frame P))
