-- ===== src/Examples/Accounts.antt =====
-- Two accounts, an administrator and a student, under the theorems on accounts.
use arduino_component_knowle.Prelude.{
  Distinct, ◌≤◌, String, ◌≡◌, refl, ◌≢◌, true, false, ◌&&◌, none, some, [], ◌∷◌, arith, str_eq, leb,
}
use arduino_component_knowle.Exec.{ok, ◌>>=◌}
use arduino_component_knowle.Auth.Domain.{
  Uuid, Role, RoleSet, UserStatus, administrator, student, no_roles, with_role,
  permissions_for_roles, Principal, audit_view,
}
use arduino_component_knowle.Auth.Domain.Permissions.{permissions-eq-holders}
use arduino_component_knowle.Auth.Schema.{User, UserRole, Db}
use arduino_component_knowle.Auth.Audit.{audit, safe_audit_details}
use arduino_component_knowle.Auth.Accounts.{
  resolve_session, find_user, revoke_user_sessions, disable_account, set_password,
}
use arduino_component_knowle.Auth.Grants
use arduino_component_knowle.Auth.Grants.{count_active_administrators, roles_of, joined_rows}
use arduino_component_knowle.Auth.Platform.{hash_password, Platform, Settings}
use arduino_component_knowle.Auth.Service.Common.{Draw, existing_user, validate_role_lifetime}
use arduino_component_knowle.Auth.Service.Admin
use arduino_component_knowle.Auth.Invariants.Traces
use arduino_component_knowle.Auth.Invariants.Traces.{Reach, here, commit, perform}
use arduino_component_knowle.Auth.Administrators.{IsSound, IsAdministered}
use arduino_component_knowle.Auth.Administrators.Stable.{administrator_remains}
use arduino_component_knowle.Auth.Identity.Logins.{same_login, logins_differ}
use arduino_component_knowle.Auth.Identity.Disabled.{disabled_stays_out}
use arduino_component_knowle.Auth.SignOut
use arduino_component_knowle.Auth.SignOut.{change_account, change_signs_out}

abbrev pub platform : Platform
platform = record {
  canonical = λ s. s;
  strip = λ s. s;
  is_word = λ c. leb b'a' c && leb c b'z';
  argon2_hash = λ salt s. s;
  argon2_verify = λ h s. str_eq h s;
  check_needs_rehash = λ h. false;
  sha256_hex = λ s. s;
  hmac_sha256_hex = λ k s. s;
  isoformat = λ d. "2026-07-16T00:00:00+00:00";
  isoformat_short = λ d. omega arith;
}

abbrev pub settings : Settings
settings = record {
  auth_throttle_pepper = "pepper";
  session_ttl_minutes = 480;
  remembered_session_ttl_days = 30;
  lockout = record { window_seconds = 900; failure_limit = 5; block_seconds = 900 };
}

abbrev pub user : Uuid → String → String → User
user id login password_hash = record {
  id = id;
  login = login;
  display_name = login;
  password_hash = password_hash;
  status = UserStatus.active;
  created_at = 0;
  updated_at = 0;
  last_login_at = none;
}

abbrev pub grant : Uuid → Role → UserRole
grant user_id role = record {
  id = user_id;
  user_id = user_id;
  role = role;
  granted_by = none;
  granted_at = 0;
  expires_at = none;
  revoked_at = none;
}

-- The student has a session.
abbrev pub db : Db
db = record {
  users = user 1 "root" "correct horse battery" ∷ user 2 "anna" "staple staple staple" ∷ [];
  grants = grant 1 administrator ∷ grant 2 student ∷ [];
  sessions =
      record {
        id = 6;
        user_id = 1;
        token_hash = "root-token";
        csrf_hash = "csrf";
        created_at = 0;
        expires_at = 100;
        last_seen_at = 0;
        revoked_at = none;
      }
      ∷ record {
        id = 7;
        user_id = 2;
        token_hash = "token";
        csrf_hash = "csrf";
        created_at = 0;
        expires_at = 100;
        last_seen_at = 0;
        revoked_at = none;
      }
      ∷ [];
  throttles = [];
  audit_events = [];
}

abbrev pub draw : Draw
draw = record {
  now = 10;
  read_now = 11;
  user_id = 3;
  grant_id = λ r. 40;
  session_id = 8;
  audit_id = 50;
  salt = 0;
  timing_salt = 0;
  raw_session = "raw-session";
  raw_csrf = "raw-csrf";
  request_id = none;
}

abbrev both_roles : RoleSet
both_roles = with_role administrator (with_role student no_roles)

db-IsAdministered : IsAdministered db
unfolding joined_rows
db-IsAdministered = record {
  sound = record {
    users_distinct = (refl, (refl, tt));
    one_grant = λ u r. ground arith;
    expiry = ((λ h. refl), ((λ h. refl), tt));
  };
  some_administrator = omega arith;
}

-- The student is made a second administrator, and the first one is disabled.
abbrev handover : Reach platform settings db (
    perform platform settings
      (Traces.disable_user draw 2 1)
      (perform platform settings (Traces.set_roles draw 1 2 both_roles none) db))
handover =
    commit (Traces.disable_user draw 2 1) tt
      (commit (Traces.set_roles draw 1 2 both_roles none) tt here)

abbrev after_handover : Db
after_handover =
    perform platform settings (Traces.disable_user draw 2 1)
      (perform platform settings (Traces.set_roles draw 1 2 both_roles none) db)

administrator_remains_example :
    IsSound after_handover × (1 ≤ count_active_administrators after_handover)
administrator_remains_example = administrator_remains platform settings db-IsAdministered handover

logins_differ_example : Distinct same_login after_handover.users
logins_differ_example = logins_differ platform settings (refl, (refl, tt)) handover

permissions-eq-holders_example : permissions_for_roles both_roles audit_view ≡ true
permissions-eq-holders_example = permissions-eq-holders both_roles audit_view

-- The handover works: one active administrator is left, the other account.
handover_counts : count_active_administrators after_handover ≡ 1
unfolding perform Admin.disable_user Admin.set_roles existing_user find_user roles_of
    Grants.set_roles validate_role_lifetime count_active_administrators ◌>>=◌ audit
    safe_audit_details disable_account
handover_counts = refl

-- The student is disabled, and then the password is reset.
abbrev off_db : Db
off_db = record db {
  users =
      user 1 "root" "correct horse battery"
      ∷ record (user 2 "anna" "x") { status = UserStatus.disabled }
      ∷ [];
}

abbrev reset :
    Reach platform settings off_db
      (perform platform settings (Traces.reset_password draw 1 2 "twelve letters") off_db)
reset = commit (Traces.reset_password draw 1 2 "twelve letters") tt here

abbrev root_principal : Principal
root_principal = record {
  user_id = 1;
  login = "root";
  display_name = "root";
  roles = with_role administrator no_roles;
  session_id = 6;
  csrf_hash = "csrf";
  expires_at = 100;
}

root_resolves :
    resolve_session "root-token" 20
      (perform platform settings (Traces.reset_password draw 1 2 "twelve letters") off_db)
    ≡ some root_principal
unfolding perform Admin.reset_password existing_user find_user roles_of ◌>>=◌ audit
    safe_audit_details resolve_session set_password revoke_user_sessions hash_password
root_resolves = refl

disabled_stays_out_example : root_principal.user_id ≢ 2
disabled_stays_out_example =
    disabled_stays_out platform settings 2
      (record { present = refl; off = ((λ e. absurd (omega arith)), ((λ e. refl), tt)) }) reset
      "root-token" 20 root_principal root_resolves

-- Disabling the student signs the student out, and not the administrator.
student_off : (change_account platform draw 1 2 SignOut.disable_user db).0 ≡ ok tt
unfolding change_account Admin.disable_user existing_user find_user roles_of ◌>>=◌ audit
    safe_audit_details disable_account count_active_administrators
student_off = refl

root_stays :
    resolve_session "root-token" 20 (change_account platform draw 1 2 SignOut.disable_user db).1
    ≡ some root_principal
unfolding change_account Admin.disable_user existing_user find_user roles_of ◌>>=◌ audit
    safe_audit_details disable_account count_active_administrators resolve_session
root_stays = refl

change_signs_out_example : root_principal.user_id ≢ 2
change_signs_out_example =
    change_signs_out platform draw 1 2 SignOut.disable_user db student_off "root-token" 20
      root_principal root_stays
