-- ===== src/Auth/Domain.antt =====
-- src/arduino_component_kb/auth/domain.py: roles, permissions, accounts, principals, errors, logins.
pub mod Permissions
use arduino_component_knowle.Prelude.{ℕ, String, Bool, true, false, ◌||◌, List, [], ◌∷◌, any}

-- Instants (timezone-aware datetimes) and durations, in microseconds.
abbrev pub Time : Type 0
Time = ℕ

-- UUIDs are only compared.
abbrev pub Uuid : Type 0
Uuid = ℕ

pub data Role : Type 0 where
  student teacher editor administrator : Role

abbrev pub same_role : Role → Role → Bool
same_role student student = true
same_role teacher teacher = true
same_role editor editor = true
same_role administrator administrator = true
same_role _ _ = false

-- `frozenset[Role]`: a set of four elements is four answers to `role in roles`.
pub record RoleSet : Type 0 where
  pub student : Bool
  pub teacher : Bool
  pub editor : Bool
  pub administrator : Bool

abbrev pub no_roles : RoleSet
no_roles = record { student = false; teacher = false; editor = false; administrator = false }

-- `role in roles`
abbrev pub has_role : Role → RoleSet → Bool
has_role Role.student r = r.student
has_role Role.teacher r = r.teacher
has_role Role.editor r = r.editor
has_role Role.administrator r = r.administrator

-- `roles | frozenset({role})`
abbrev pub with_role : Role → RoleSet → RoleSet
with_role Role.student r = record r { student = true }
with_role Role.teacher r = record r { teacher = true }
with_role Role.editor r = record r { editor = true }
with_role Role.administrator r = record r { administrator = true }

-- `bool(roles)`
abbrev pub any_role : RoleSet → Bool
any_role r = r.student || r.teacher || r.editor || r.administrator

abbrev consider : Bool → Role → List Role → List Role
consider true role rest = role ∷ rest
consider false role rest = rest

-- `for role in roles`: the order of a set is unspecified, and no caller depends on it
abbrev pub members : RoleSet → List Role
members r = consider r.student student (
    consider r.teacher teacher
      (consider r.editor editor (consider r.administrator administrator [])))

pub data Permission : Type 0 where
  components_view components_propose_correction components_create components_edit : Permission
  components_archive components_delete components_submit_for_review : Permission
  components_review components_publish : Permission
  imports_view imports_create imports_retry imports_cancel imports_bulk_apply : Permission
  users_view users_manage roles_assign audit_view system_settings system_diagnostics : Permission

-- `_VIEW_PERMISSIONS`, a frozenset of permissions as its membership test
view_permissions : Permission → Bool
view_permissions components_view = true
view_permissions _ = false

-- `_EDITOR_PERMISSIONS`
editor_permissions : Permission → Bool
unfolding view_permissions
editor_permissions components_create = true
editor_permissions components_edit = true
editor_permissions components_archive = true
editor_permissions components_submit_for_review = true
editor_permissions imports_view = true
editor_permissions imports_create = true
editor_permissions imports_retry = true
editor_permissions imports_cancel = true
editor_permissions p = view_permissions p

teacher_permissions : Permission → Bool
unfolding view_permissions
teacher_permissions components_propose_correction = true
teacher_permissions p = view_permissions p

-- `_ROLE_PERMISSIONS`, which has an entry for every role
role_permissions : Role → Permission → Bool
unfolding view_permissions teacher_permissions editor_permissions
role_permissions student p = view_permissions p
role_permissions teacher p = teacher_permissions p
role_permissions editor p = editor_permissions p
role_permissions administrator p = true

-- The union over the roles of the set.
unfoldable pub permissions_for_roles : RoleSet → Permission → Bool
unfolding role_permissions
permissions_for_roles roles permission =
    any (λ role. role_permissions role permission) (members roles)

pub data UserStatus : Type 0 where
  active disabled : UserStatus

abbrev pub is_active : UserStatus → Bool
is_active active = true
is_active disabled = false

pub record UserIdentity : Type 0 where
  pub id : Uuid
  pub login : String
  pub display_name : String
  pub password_hash : String
  pub status : UserStatus
  pub roles : RoleSet

pub record Principal : Type 0 where
  pub user_id : Uuid
  pub login : String
  pub display_name : String
  pub roles : RoleSet
  pub session_id : Uuid
  pub csrf_hash : String
  pub expires_at : Time

-- `Principal.can`
unfoldable pub can : Principal → Permission → Bool
unfolding permissions_for_roles
can principal permission = permissions_for_roles principal.roles permission

pub record LoginResult : Type 0 where
  pub principal : Principal
  pub session_token : String
  pub csrf_token : String

-- The subclasses of `AuthError`, and the `ValueError` and `RuntimeError` of the repository.
pub data AuthError : Type 0 where
  invalid_credentials authentication_required too_many_attempts password_policy : AuthError
  user_already_exists last_administrator role_grant_policy : AuthError
  value_error runtime_error permission_denied : AuthError
