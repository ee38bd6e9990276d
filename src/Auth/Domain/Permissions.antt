-- ===== src/Auth/Domain/Permissions.antt =====
-- What `permissions_for_roles` (auth/domain.py) grants, read by permission instead of by role.
use arduino_component_knowle.Prelude.{Bool, ◌||◌, ◌≡◌, arith}
use arduino_component_knowle.Auth.Domain.{
  RoleSet, any_role, Permission, components_view, components_propose_correction, components_create,
  components_edit, components_archive, components_submit_for_review, imports_view, imports_create,
  imports_retry, imports_cancel, permissions_for_roles,
}

-- Who needs which role: everybody with a role, teachers, editors, administrators alone.
abbrev pub holders : Permission → RoleSet → Bool
holders components_view r = any_role r
holders components_propose_correction r = r.teacher || r.administrator
holders components_create r = r.editor || r.administrator
holders components_edit r = r.editor || r.administrator
holders components_archive r = r.editor || r.administrator
holders components_submit_for_review r = r.editor || r.administrator
holders imports_view r = r.editor || r.administrator
holders imports_create r = r.editor || r.administrator
holders imports_retry r = r.editor || r.administrator
holders imports_cancel r = r.editor || r.administrator
holders _ r = r.administrator

-- For every role set and permission, the capability is granted exactly when the set holds one of
-- the roles that `holders` names: administrators have all, editors the editorial ones, teachers
-- the correction proposal, and no other permission is reachable without the administrator role.
pub permissions-eq-holders :
    (r : RoleSet) (p : Permission) → permissions_for_roles r p ≡ holders p r
unfolding permissions_for_roles
permissions-eq-holders r components_view = ground arith
permissions-eq-holders r _ = ground arith

abbrev pub union : RoleSet → RoleSet → RoleSet
union r s = record {
  student = r.student || s.student;
  teacher = r.teacher || s.teacher;
  editor = r.editor || s.editor;
  administrator = r.administrator || s.administrator;
}

holders-union :
    (r s : RoleSet) (p : Permission) → holders p (union r s) ≡ (holders p r || holders p s)
holders-union r s components_view = ground arith
holders-union r s _ = ground arith
