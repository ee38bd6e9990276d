-- ===== src/Auth/Service/Admin.antt =====
-- The administration of accounts and roles in src/arduino_component_kb/auth/service.py.
use arduino_component_knowle.Prelude.{
  String, ◌&&◌, ◌||◌, not, Option, none, some, [], ◌∷◌, leb, if◌then◌else◌,
}
use arduino_component_knowle.Exec.{pure, lift, gets, modify, raise_if, ◌>>=◌, ◌>>◌}
use arduino_component_knowle.Auth.Domain.{
  Uuid, editor, administrator, RoleSet, no_roles, with_role, is_active, UserIdentity,
  last_administrator, role_grant_policy,
}
use arduino_component_knowle.Auth.Schema.{Details, null, text, texts}
use arduino_component_knowle.Auth.Audit.{audit}
use arduino_component_knowle.Auth.Grants.{
  count_active_administrators, set_roles as write_roles, grant_editor as write_editor,
  revoke_editor as remove_editor,
}
use arduino_component_knowle.Auth.Accounts.{
  revoke_user_sessions, set_password, disable_account, AccountCall, add_account, account_identity,
}
use arduino_component_knowle.Auth.Platform.{Datetime, Platform, normalize_login, hash_password}
use arduino_component_knowle.Auth.Service.Common.{
  Draw, Method, event, or_student, sorted_values, instant_of, validate_role_lifetime, refuse_login,
  existing_user,
}

-- `editor_expires_at.isoformat() if editor_expires_at is not None else None`
abbrev iso_or_null : Platform → Option Datetime → Details → Details
iso_or_null platform none rest = ("editor_expires_at", null) ∷ rest
iso_or_null platform (some d) rest = ("editor_expires_at", text (platform.isoformat d)) ∷ rest

module _ (platform : Platform) where
  abbrev role_details : RoleSet → Option Datetime → Option Details
  role_details roles expires_at =
      some (("roles", texts (sorted_values roles)) ∷ iso_or_null platform expires_at [])

  abbrev pub created :
      Draw → Uuid → String → String → String → RoleSet → Option Datetime → AccountCall
  created d actor login display_name hash roles expires_at = record {
    id = d.user_id;
    draw = d.grant_id;
    login = login;
    display_name = display_name;
    password_hash = hash;
    roles = roles;
    actor_id = some actor;
    now = d.now;
    editor_expires_at = instant_of expires_at;
  }

  unfoldable pub create_user :
      Draw → Uuid → String → String → String → RoleSet → Option Datetime → Method UserIdentity
  create_user d actor name display_name password roles expires_at = do
    login ← lift (normalize_login platform name)
    refuse_login d login
    lift (validate_role_lifetime (or_student roles) expires_at d.now)
    hash ← lift (hash_password platform d.salt password)
    let call =
        created d actor login (platform.strip display_name) hash (or_student roles) expires_at
    modify (add_account call)
    audit (
        event d (some actor) "identity.user_created" "user" (some call.id) "success"
          (role_details (or_student roles) expires_at))
    pure (account_identity call)

  unfoldable pub create_administrator : Draw → Uuid → String → String → Method UserIdentity
  create_administrator d actor name password = do
    login ← lift (normalize_login platform name)
    refuse_login d login
    hash ← lift (hash_password platform d.salt password)
    let call = created d actor login login hash (with_role administrator no_roles) none
    modify (add_account call)
    audit (
        event d (some actor) "identity.administrator_created" "user" (some call.id) "success"
          (some (("roles", texts ("administrator" ∷ [])) ∷ [])))
    pure (account_identity call)

  unfoldable pub reset_password : Draw → Uuid → Uuid → String → Method (Unit {0})
  reset_password d actor user_id password = do
    user ← existing_user d user_id
    hash ← lift (hash_password platform d.salt password)
    modify (set_password user.id hash d.now)
    modify (revoke_user_sessions user.id d.now)
    audit (event d (some actor) "identity.password_reset" "user" (some user.id) "success" none)

  unfoldable pub grant_editor : Draw → Uuid → Uuid → Datetime → Method (Unit {0})
  grant_editor d actor user_id expires_at = do
    user ← existing_user d user_id
    raise_if (not (is_active user.status) || user.roles.administrator) role_grant_policy
    lift (validate_role_lifetime (with_role editor user.roles) (some expires_at) d.now)
    modify (write_editor d.grant_id user_id actor d.now expires_at.instant)
    modify (revoke_user_sessions user_id d.now)
    audit (
        event d (some actor)
          (if user.roles.editor
            then "identity.editor_expiry_changed"
            else "identity.editor_granted")
          "user" (some user_id) "success" (some (iso_or_null platform (some expires_at) [])))

  unfoldable pub set_roles : Draw → Uuid → Uuid → RoleSet → Option Datetime → Method (Unit {0})
  set_roles d actor user_id roles expires_at = do
    user ← existing_user d user_id
    administrators ← gets count_active_administrators
    raise_if (user.roles.administrator && not roles.administrator && leb administrators 1)
        last_administrator
    lift (validate_role_lifetime (or_student roles) expires_at d.now)
    modify (write_roles d.grant_id user_id (or_student roles) actor d.now (instant_of expires_at))
    modify (revoke_user_sessions user_id d.now)
    audit (
        event d (some actor) "identity.roles_changed" "user" (some user_id) "success"
          (role_details (or_student roles) expires_at))

unfoldable pub revoke_editor : Draw → Uuid → Uuid → Method (Unit {0})
revoke_editor d actor user_id = do
  user ← existing_user d user_id
  raise_if (not user.roles.editor) role_grant_policy
  modify (remove_editor user_id d.now)
  modify (revoke_user_sessions user_id d.now)
  audit (event d (some actor) "identity.editor_revoked" "user" (some user_id) "success" none)

unfoldable pub disable_user : Draw → Uuid → Uuid → Method (Unit {0})
disable_user d actor user_id = do
  user ← existing_user d user_id
  administrators ← gets count_active_administrators
  raise_if (user.roles.administrator && leb administrators 1) last_administrator
  modify (disable_account user_id d.now)
  audit (event d (some actor) "identity.user_disabled" "user" (some user_id) "success" none)
