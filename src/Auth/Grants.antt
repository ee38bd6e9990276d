-- ===== src/Auth/Grants.antt =====
-- The role grants of src/arduino_component_kb/auth/repository.py: `_roles`, `set_roles`,
-- `grant_editor`, `revoke_editor` and `count_active_administrators`.
pub mod Current
pub mod Joined
use arduino_component_knowle.Prelude.{
  ℕ, Bool, true, ◌+◌, ◌&&◌, Option, none, some, List, [], ◌∷◌, ◌++◌, count_rows, update_where, ltb,
  ◌==◌, is_none, if◌then◌else◌,
}
use arduino_component_knowle.Auth.Domain.{
  Time, Uuid, Role, student, teacher, editor, administrator, same_role, RoleSet, no_roles,
  with_role, members, is_active,
}
use arduino_component_knowle.Auth.Schema.{User, UserRole, Db}

-- `expires_at IS NULL OR expires_at > now`
abbrev pub unexpired : Time → Option Time → Bool
unexpired now none = true
unexpired now (some t) = ltb now t

-- the WHERE clause of `_roles`
abbrev pub is_live : Uuid → Time → UserRole → Bool
is_live user_id now g = g.user_id == user_id && is_none g.revoked_at && unexpired now g.expires_at

-- `AuthRepository._roles` over the rows of the table
unfoldable pub roles_of : Uuid → Time → List UserRole → RoleSet
roles_of user_id now [] = no_roles
roles_of user_id now (g ∷ gs) =
    let rest = roles_of user_id now gs in
    if is_live user_id now g then with_role g.role rest else rest

-- the WHERE clause of the updates in `set_roles`, and in `grant_editor` and `revoke_editor`
abbrev pub is_current : Uuid → UserRole → Bool
is_current user_id g = g.user_id == user_id && is_none g.revoked_at

abbrev pub is_current_role : Uuid → Role → UserRole → Bool
is_current_role user_id role g =
    g.user_id == user_id && same_role g.role role && is_none g.revoked_at

abbrev pub revoke_grant : Time → UserRole → UserRole
revoke_grant now g = record g { revoked_at = some now }

-- `editor_expires_at if role is Role.EDITOR else None`
abbrev pub grant_expiry : Role → Option Time → Option Time
grant_expiry editor expires_at = expires_at
grant_expiry student expires_at = none
grant_expiry teacher expires_at = none
grant_expiry administrator expires_at = none

-- One `UserRole` for each role of the set. `draw` is the `uuid4` of each row.
unfoldable pub new_grants :
    (Role → Uuid) → Uuid → Option Uuid → Time → Option Time → List Role → List UserRole
new_grants draw user_id actor now expires_at [] = []
new_grants draw user_id actor now expires_at (role ∷ rest) =
    record {
      id = draw role;
      user_id = user_id;
      role = role;
      granted_by = actor;
      granted_at = now;
      expires_at = grant_expiry role expires_at;
      revoked_at = none;
    }
    ∷ new_grants draw user_id actor now expires_at rest

abbrev set_grants : List UserRole → Db → Db
set_grants rows db = record db { grants = rows }

unfoldable pub set_roles : (Role → Uuid) → Uuid → RoleSet → Uuid → Time → Option Time → Db → Db
unfolding new_grants
set_roles draw user_id roles actor now expires_at db =
    set_grants
      (update_where (is_current user_id) (revoke_grant now) db.grants
        ++ new_grants draw user_id (some actor) now expires_at (members roles))
      db

unfoldable pub revoke_editor : Uuid → Time → Db → Db
revoke_editor user_id now db =
    set_grants (update_where (is_current_role user_id editor) (revoke_grant now) db.grants) db

unfoldable pub grant_editor : (Role → Uuid) → Uuid → Uuid → Time → Time → Db → Db
unfolding new_grants
grant_editor draw user_id actor now expires_at db =
    set_grants
      (update_where (is_current_role user_id editor) (revoke_grant now) db.grants
        ++ new_grants draw user_id (some actor) now (some expires_at) (editor ∷ []))
      db

-- The rows of the join for one user.
unfoldable pub administrator_rows : List UserRole → User → ℕ
administrator_rows grants user =
    if is_active user.status then count_rows (is_current_role user.id administrator) grants else 0

unfoldable pub joined_rows : List UserRole → List User → ℕ
unfolding administrator_rows
joined_rows grants [] = 0
joined_rows grants (user ∷ users) = administrator_rows grants user + joined_rows grants users

unfoldable pub count_active_administrators : Db → ℕ
unfolding joined_rows
count_active_administrators db = joined_rows db.grants db.users
