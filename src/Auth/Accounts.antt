-- ===== src/Auth/Accounts.antt =====
-- The accounts and sessions of src/arduino_component_kb/auth/repository.py.
pub mod Resolve
use arduino_component_knowle.Prelude.{
  String, Bool, ◌&&◌, Option, none, some, List, [], ◌∷◌, ◌++◌, find, update_where, ltb, ◌==◌,
  str_eq, is_none, if◌then◌else◌,
}
use arduino_component_knowle.Auth.Domain.{
  Time, Uuid, Role, RoleSet, any_role, members, active, disabled, is_active, UserIdentity,
  Principal,
}
use arduino_component_knowle.Auth.Schema.{User, AuthSession, Db}
use arduino_component_knowle.Auth.Grants.{roles_of, new_grants}

-- `_identity`
abbrev pub identity : User → RoleSet → UserIdentity
identity user roles = record {
  id = user.id;
  login = user.login;
  display_name = user.display_name;
  password_hash = user.password_hash;
  status = user.status;
  roles = roles;
}

abbrev pub with_roles : Time → Db → Option User → Option UserIdentity
with_roles now db none = none
with_roles now db (some user) = some (identity user (roles_of user.id now db.grants))

abbrev pub has_login : String → User → Bool
has_login login user = str_eq login user.login

abbrev pub has_id : Uuid → User → Bool
has_id user_id user = user.id == user_id

-- `now` is the clock that the method reads itself
unfoldable pub find_user_by_login : String → Time → Db → Option UserIdentity
find_user_by_login login now db = with_roles now db (find (has_login login) db.users)

unfoldable pub find_user : Uuid → Time → Db → Option UserIdentity
find_user user_id now db = with_roles now db (find (has_id user_id) db.users)

abbrev pub set_users : List User → Db → Db
set_users rows db = record db { users = rows }

abbrev pub set_sessions : List AuthSession → Db → Db
set_sessions rows db = record db { sessions = rows }

-- What `create_session` is called with, and the `uuid4` of the row.
pub record SessionCall : Type 0 where
  pub id : Uuid
  pub token_hash : String
  pub csrf_hash : String
  pub now : Time
  pub expires_at : Time

unfoldable pub add_session : Uuid → SessionCall → Db → Db
add_session user_id call db =
    set_sessions
      (record {
        id = call.id;
        user_id = user_id;
        token_hash = call.token_hash;
        csrf_hash = call.csrf_hash;
        created_at = call.now;
        expires_at = call.expires_at;
        last_seen_at = call.now;
        revoked_at = none;
      }
        ∷ db.sessions)
      db

-- the principal that `create_session` returns
abbrev pub session_principal : UserIdentity → SessionCall → Principal
session_principal user call = record {
  user_id = user.id;
  login = user.login;
  display_name = user.display_name;
  roles = user.roles;
  session_id = call.id;
  csrf_hash = call.csrf_hash;
  expires_at = call.expires_at;
}

-- the conditions of `resolve_session` on the session, and on the user that it joins
abbrev pub is_open : String → Time → AuthSession → Bool
is_open token_hash now s =
    str_eq token_hash s.token_hash && is_none s.revoked_at && ltb now s.expires_at

abbrev pub owns : Uuid → User → Bool
owns user_id user = user.id == user_id && is_active user.status

-- The join: the first open session with the token whose user is active. `token_hash` is unique.
unfoldable pub resolve_row :
    String → Time → List User → List AuthSession → Option (AuthSession × User)
resolve_row token_hash now users [] = none
resolve_row token_hash now users (s ∷ ss) =
    let rest = resolve_row token_hash now users ss in
    if is_open token_hash now s
    then elim (find (owns s.user_id) users) [ some user ↦ some (s, user) | none ↦ rest ]
    else rest

abbrev pub with_live_roles : Time → Db → Option (AuthSession × User) → Option Principal
with_live_roles now db none = none
with_live_roles now db (some (s, user)) =
    let roles = roles_of user.id now db.grants in
    if any_role roles
    then some (record {
      user_id = user.id;
      login = user.login;
      display_name = user.display_name;
      roles = roles;
      session_id = s.id;
      csrf_hash = s.csrf_hash;
      expires_at = s.expires_at;
    })
    else none

unfoldable pub resolve_session : String → Time → Db → Option Principal
unfolding resolve_row
resolve_session token_hash now db =
    with_live_roles now db (resolve_row token_hash now db.users db.sessions)

abbrev revoke : Time → AuthSession → AuthSession
revoke now s = record s { revoked_at = some now }

unfoldable pub revoke_session : Uuid → Time → Db → Db
revoke_session session_id now db =
    set_sessions
      (update_where (λ s. s.id == session_id && is_none s.revoked_at) (revoke now) db.sessions) db

unfoldable pub revoke_user_sessions : Uuid → Time → Db → Db
revoke_user_sessions user_id now db =
    set_sessions
      (update_where (λ s. s.user_id == user_id && is_none s.revoked_at) (revoke now) db.sessions) db

abbrev pub login_marks : Time → Option String → User → User
login_marks now none user = record user { last_login_at = some now; updated_at = now }
login_marks now (some hash) user = record user {
  last_login_at = some now;
  updated_at = now;
  password_hash = hash;
}

unfoldable pub mark_login : Uuid → Time → Option String → Db → Db
mark_login user_id now password_hash db =
    set_users (update_where (has_id user_id) (login_marks now password_hash) db.users) db

unfoldable pub set_password : Uuid → String → Time → Db → Db
set_password user_id password_hash now db =
    set_users
      (update_where (has_id user_id)
        (λ user. record user { password_hash = password_hash; updated_at = now }) db.users)
      db

-- `disable_user` of the repository, which revokes the sessions too
unfoldable pub disable_account : Uuid → Time → Db → Db
unfolding revoke_user_sessions
disable_account user_id now db = revoke_user_sessions user_id now (
    set_users
      (update_where (has_id user_id) (λ user. record user { status = disabled; updated_at = now })
        db.users)
      db)

-- What `create_user` of the repository is called with, and the `uuid4`s of its rows.
pub record AccountCall : Type 0 where
  pub id : Uuid
  pub draw : Role → Uuid
  pub login : String
  pub display_name : String
  pub password_hash : String
  pub roles : RoleSet
  pub actor_id : Option Uuid
  pub now : Time
  pub editor_expires_at : Option Time

abbrev pub account_row : AccountCall → User
account_row call = record {
  id = call.id;
  login = call.login;
  display_name = call.display_name;
  password_hash = call.password_hash;
  status = active;
  created_at = call.now;
  updated_at = call.now;
  last_login_at = none;
}

unfoldable pub add_account : AccountCall → Db → Db
unfolding new_grants
add_account call db = record db {
  users = db.users ++ account_row call ∷ [];
  grants =
      db.grants
      ++ new_grants call.draw call.id call.actor_id call.now call.editor_expires_at
          (members call.roles);
}

-- the identity that `create_user` returns
abbrev pub account_identity : AccountCall → UserIdentity
account_identity call = identity (account_row call) call.roles
