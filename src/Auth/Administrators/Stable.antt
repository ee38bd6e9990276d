-- ===== src/Auth/Administrators/Stable.antt =====
-- Requests to src/arduino_component_kb/auth/service.py and the count of active administrators.
use arduino_component_knowle.Prelude.{
  ℕ, ◌+◌, ◌≤◌, String, ◌≡◌, sym, ap, ◌∙◌, false, not, ◌&&◌, Option, some, arith, ltb, leb,
  if◌then◌else◌,
}
use arduino_component_knowle.Auth.Domain.{Uuid, Role, Time, RoleSet, administrator, UserIdentity}
use arduino_component_knowle.Auth.Schema.{Db}
use arduino_component_knowle.Auth.Accounts.{
  find_user, AccountCall, add_account, mark_login, set_password, disable_account,
}
use arduino_component_knowle.Auth.Grants.{
  count_active_administrators, set_roles as write_roles, grant_editor as write_editor,
  revoke_editor as remove_editor,
}
use arduino_component_knowle.Auth.Grants.Current.{current_count, roles_of-administrator}
use arduino_component_knowle.Auth.Administrators.{IsSound, IsAdministered, AdministeredTables}
use arduino_component_knowle.Auth.Invariants.{IsStable, IsUnused}
use arduino_component_knowle.Auth.Invariants.Traces.{Reach, Reach-keeps}
use arduino_component_knowle.Auth.Administrators.Editors.{
  revoke_editor-IsSound, count-revoke_editor, grant_editor-IsSound, count-grant_editor,
}
use arduino_component_knowle.Auth.Administrators.Accounts.{
  mark_login-IsSound, count-mark_login, set_password-IsSound, count-set_password,
  disable_account-IsSound, count-disable_account, add_account-IsSound, count-add_account,
}
use arduino_component_knowle.Auth.Administrators.Roles.{set_roles-IsSound, count-set_roles}
use arduino_component_knowle.Auth.Platform.{Platform, Settings}
use arduino_component_knowle.Auth.Service.Common.{or_student}
use arduino_component_knowle.Auth.Service.Reads.{find_user-some}

-- The role is current where it is live, since only editor grants expire.
current_administrator :
    (user_id : Uuid) (now : Time) (s : Db) (user : UserIdentity)
    → IsAdministered s
    → find_user user_id now s ≡ some user
    → user.roles.administrator ≡ ltb 0 (current_count user_id administrator s.grants)
current_administrator user_id now s user h found =
    let (u, _, _, same) = find_user-some user_id now s user found in
    sym (ap (λ (i : UserIdentity). i.roles.administrator) same)
    ∙ roles_of-administrator user_id now s.grants h.sound.expiry

module _ (draw : Role → Uuid) (actor user_id : Uuid) (now at : Time) (s : Db) (user : UserIdentity)
    (h : IsAdministered s) (found : find_user user_id now s ≡ some user) where
  set_roles-write :
      (roles : RoleSet) (expires_at : Option Time)
      → (user.roles.administrator
          && not roles.administrator
          && leb (count_active_administrators s) 1)
        ≡ false
      → IsAdministered (write_roles draw user_id (or_student roles) actor at expires_at s)
  unfolding count_active_administrators
  set_roles-write roles expires_at guard = record {
    sound = set_roles-IsSound draw user_id (or_student roles) actor at expires_at s h.sound;
    some_administrator =
        let lost : ℕ = if user.roles.administrator && not roles.administrator then 1 else 0 in
        let room : current_count user_id administrator s.grants
            ≤ (if (or_student roles).administrator then 1 else 0) + lost =
          ground (
            arith,
            h.sound.one_grant user_id administrator,
            current_administrator user_id now s user h found,
          ) in
        ground (
          arith,
          count-set_roles draw user_id (or_student roles) actor at expires_at s h.sound lost room,
          h.some_administrator,
        );
  }

  disable_user-write :
      (user.roles.administrator && leb (count_active_administrators s) 1) ≡ false
      → IsAdministered (disable_account user_id at s)
  unfolding count_active_administrators
  disable_user-write guard = record {
    sound = disable_account-IsSound user_id at s h.sound;
    some_administrator =
        let lost : ℕ = if user.roles.administrator then 1 else 0 in
        let room : current_count user_id administrator s.grants ≤ lost = ground (
          arith,
          h.sound.one_grant user_id administrator,
          current_administrator user_id now s user h found,
        ) in
        ground (arith, count-disable_account user_id at s h.sound lost room, h.some_administrator);
  }

module _ (user_id : Uuid) (now : Time) (s : Db) (h : IsAdministered s) where
  write_editor-keeps :
      (draw : Role → Uuid) (actor : Uuid) (expires_at : Time)
      → IsAdministered (write_editor draw user_id actor now expires_at s)
  unfolding count_active_administrators
  write_editor-keeps draw actor expires_at = record {
    sound = grant_editor-IsSound user_id now s h.sound draw actor expires_at;
    some_administrator = omega (
      arith,
      count-grant_editor user_id now s h.sound draw actor expires_at,
      h.some_administrator,
    );
  }

  remove_editor-keeps : IsAdministered (remove_editor user_id now s)
  unfolding count_active_administrators
  remove_editor-keeps = record {
    sound = revoke_editor-IsSound user_id now s h.sound;
    some_administrator =
        omega (arith, count-revoke_editor user_id now s h.sound, h.some_administrator);
  }

  set_password-keeps : (hash : String) → IsAdministered (set_password user_id hash now s)
  unfolding count_active_administrators
  set_password-keeps hash = record {
    sound = set_password-IsSound user_id now s h.sound hash;
    some_administrator =
        omega (arith, count-set_password user_id now s h.sound hash, h.some_administrator);
  }

  pub mark_login-Keeps : (hash : Option String) → IsAdministered (mark_login user_id now hash s)
  unfolding count_active_administrators
  mark_login-Keeps hash = record {
    sound = mark_login-IsSound user_id now s h.sound hash;
    some_administrator =
        omega (arith, count-mark_login user_id now s h.sound hash, h.some_administrator);
  }

pub add_account-keeps :
    (call : AccountCall) (s : Db)
    → IsUnused call.id s
    → IsAdministered s
    → IsAdministered (add_account call s)
unfolding count_active_administrators
add_account-keeps call s fresh h = record {
  sound = add_account-IsSound call s h.sound fresh;
  some_administrator = omega (arith, count-add_account call s, h.some_administrator);
}

IsAdministered-IsStable : IsStable AdministeredTables
IsAdministered-IsStable = record {
  on_mark_login = λ user_id now hash s h. mark_login-Keeps user_id now s h hash;
  on_set_password = λ user_id hash now s h. set_password-keeps user_id now s h hash;
  on_disable_account = λ user_id read_now now s user found guard h.
      disable_user-write (λ _. 0) 0 user_id read_now now s user h found guard;
  on_set_roles = λ draw user_id actor read_now now s user roles expires_at found guard h.
      set_roles-write draw actor user_id read_now now s user h found roles expires_at guard;
  on_grant_editor = λ draw user_id actor now expires_at s h.
      write_editor-keeps user_id now s h draw actor expires_at;
  on_revoke_editor = λ user_id now s h. remove_editor-keeps user_id now s h;
  on_add_account = λ call read_now s fresh absent h. add_account-keeps call s fresh h;
}

module _ (platform : Platform) (settings : Settings) where
  -- From a database that keeps its constraints and has an active administrator, any committed
  -- requests, returning or raising, with unused identifiers drawn for new accounts, lead to a
  -- database that keeps the constraints and has an active administrator.
  pub administrator_remains :
      {s t : Db}
      → IsAdministered s
      → Reach platform settings s t
      → IsSound t × (1 ≤ count_active_administrators t)
  unfolding count_active_administrators
  administrator_remains h r =
      let k = Reach-keeps platform settings IsAdministered-IsStable h r in
      (k.sound, k.some_administrator)
