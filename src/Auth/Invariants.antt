-- ===== src/Auth/Invariants.antt =====
-- Invariants of the accounts under every method of `AuthService`
-- (src/arduino_component_kb/auth/service.py): the interface that an invariant of the tables `users`
-- and `user_roles` fills, write by write, and under what guards each write is made.
pub mod Frames
pub mod Methods
pub mod Logins
pub mod Traces
use arduino_component_knowle.Prelude.{
  any, String, ◌≡◌, false, not, ◌&&◌, Option, none, some, List, leb,
}
use arduino_component_knowle.Auth.Domain.{Time, Uuid, Role, RoleSet, UserIdentity}
use arduino_component_knowle.Auth.Schema.{User, UserRole, Db}
use arduino_component_knowle.Auth.Accounts.{
  has_id, find_user, find_user_by_login, AccountCall, mark_login, set_password, disable_account,
  add_account,
}
use arduino_component_knowle.Auth.Grants.{
  count_active_administrators, set_roles, grant_editor, revoke_editor,
}
use arduino_component_knowle.Auth.Grants.Current.{current_count}
use arduino_component_knowle.Auth.Service.Common.{or_student}

-- `uuid4` does not repeat: no user has the identifier, and no current grant is for it.
pub record IsUnused (id : Uuid) (db : Db) : Type 0 where
  pub no_user : any (has_id id) db.users ≡ false
  pub no_grant : (r : Role) → current_count id r db.grants ≡ 0

abbrev pub Invariant : Type 1
Invariant = List User → List UserRole → Type 0

-- The invariant at a database.
abbrev pub At : Invariant → Db → Type 0
At P db = P db.users db.grants

pub record IsStable (P : Invariant) : Type 0 where
  pub on_mark_login :
      (user_id : Uuid) (now : Time) (hash : Option String) (s : Db)
      → At P s
      → At P (mark_login user_id now hash s)
  pub on_set_password :
      (user_id : Uuid) (hash : String) (now : Time) (s : Db)
      → At P s
      → At P (set_password user_id hash now s)
  pub on_disable_account :
      (user_id : Uuid) (read_now now : Time) (s : Db) (user : UserIdentity)
      → find_user user_id read_now s ≡ some user
      → (user.roles.administrator && leb (count_active_administrators s) 1) ≡ false
      → At P s
      → At P (disable_account user_id now s)
  pub on_set_roles :
      (draw : Role → Uuid) (user_id actor : Uuid) (read_now now : Time) (s : Db)
      (user : UserIdentity) (roles : RoleSet) (expires_at : Option Time)
      → find_user user_id read_now s ≡ some user
      → (user.roles.administrator
          && not roles.administrator
          && leb (count_active_administrators s) 1)
        ≡ false
      → At P s
      → At P (set_roles draw user_id (or_student roles) actor now expires_at s)
  pub on_grant_editor :
      (draw : Role → Uuid) (user_id actor : Uuid) (now expires_at : Time) (s : Db)
      → At P s
      → At P (grant_editor draw user_id actor now expires_at s)
  pub on_revoke_editor :
      (user_id : Uuid) (now : Time) (s : Db) → At P s → At P (revoke_editor user_id now s)
  pub on_add_account :
      (call : AccountCall) (read_now : Time) (s : Db)
      → IsUnused call.id s
      → find_user_by_login call.login read_now s ≡ none
      → At P s
      → At P (add_account call s)
