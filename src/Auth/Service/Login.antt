-- ===== src/Auth/Service/Login.antt =====
-- `login`, `register`, `authenticate`, `logout` and `_start_session` of
-- src/arduino_component_kb/auth/service.py.
use arduino_component_knowle.Prelude.{
  String, Bool, false, ◌+◌, ◌&&◌, Option, none, some, List, [], ◌∷◌, length, ltb, codes,
  if◌then◌else◌,
}
use arduino_component_knowle.Exec.{Result, ok, err, pure, raise, lift, gets, modify, ◌>>=◌, ◌>>◌}
use arduino_component_knowle.Auth.Domain.{
  Time, Uuid, is_active, UserIdentity, Principal, LoginResult, AuthError, invalid_credentials,
  authentication_required, too_many_attempts,
}
use arduino_component_knowle.Auth.Schema.{texts}
use arduino_component_knowle.Auth.Audit.{audit}
use arduino_component_knowle.Auth.Throttle.{
  minutes, days, is_blocked, register_failure, clear_failures,
}
use arduino_component_knowle.Auth.Accounts.{
  find_user_by_login, SessionCall, add_session, session_principal, resolve_session, revoke_session,
  mark_login, AccountCall, add_account, account_identity,
}
use arduino_component_knowle.Auth.Platform.{
  Platform, Settings, normalize_login, hash_password, verify_password, token_hash, throttle_key,
}
use arduino_component_knowle.Auth.Service.Common.{Draw, Method, event, student_only, refuse_login}

module _ (platform : Platform) (settings : Settings) where
  -- `timedelta(days=...) if remember else timedelta(minutes=...)`
  abbrev pub lifetime : Bool → Time
  lifetime remember =
      if remember
      then days settings.remembered_session_ttl_days
      else minutes settings.session_ttl_minutes

  abbrev pub session_call : Draw → Bool → SessionCall
  session_call d remember = record {
    id = d.session_id;
    token_hash = token_hash platform d.raw_session;
    csrf_hash = token_hash platform d.raw_csrf;
    now = d.now;
    expires_at = d.now + lifetime remember;
  }

  -- `_start_session`
  unfoldable pub start_session : Draw → Bool → UserIdentity → Method LoginResult
  start_session d remember user = do
    modify (add_session user.id (session_call d remember))
    pure (record {
      principal = session_principal user (session_call d remember);
      session_token = d.raw_session;
      csrf_token = d.raw_csrf;
    })

  -- `_throttle_keys`
  abbrev pub throttle_keys : String → String → List String
  throttle_keys login client =
      throttle_key platform settings "account" login
      ∷ throttle_key platform settings "client" client
      ∷ []

  -- the key that failed logins count under where the login is no login
  abbrev pub or_invalid : Result AuthError String → String
  or_invalid (ok login) = login
  or_invalid (err e) = "\0invalid-login"

  unfoldable pub login_keys : String → String → List String
  login_keys login client = throttle_keys (or_invalid (normalize_login platform login)) client

  unfoldable pub refuse_blocked : Draw → String → String → Method LoginResult
  refuse_blocked d action object_type = do
    audit (event d none action object_type none "blocked" none)
    raise too_many_attempts

  unfoldable pub fail_login : Draw → List String → Option Uuid → Method LoginResult
  fail_login d keys actor = do
    register_failure settings.lockout keys d.now
    audit (event d actor "auth.login" "session" none "failed" none)
    raise invalid_credentials

  -- `self.passwords.hash(password) if self.passwords.needs_rehash(...) else None`
  abbrev replacement_hash : Draw → String → UserIdentity → Method (Option String)
  replacement_hash d password user =
      if platform.check_needs_rehash user.password_hash
      then (do hash ← lift (hash_password platform d.salt password); pure (some hash))
      else pure none

  unfoldable pub complete_login :
      Draw → List String → String → Bool → UserIdentity → Method LoginResult
  complete_login d keys password remember user = do
    modify (clear_failures keys)
    result ← start_session d remember user
    replacement ← replacement_hash d password user
    modify (mark_login user.id d.now replacement)
    audit (
        event d (some user.id) "auth.login" "session" (some result.principal.session_id) "success"
          none)
    pure result

  -- `user is None or not valid or user.status is not UserStatus.ACTIVE`
  unfoldable pub check_credentials :
      Draw → List String → String → Bool → Option UserIdentity → Method LoginResult
  check_credentials d keys password remember none = fail_login d keys none
  check_credentials d keys password remember (some user) =
      if verify_password platform d.timing_salt (some user.password_hash) password
        && is_active user.status
      then complete_login d keys password remember user
      else fail_login d keys (some user.id)

  -- The placeholder for a bad login finds nobody. PostgreSQL refuses a NUL in a text parameter, so
  -- there the query of the code fails with an error of the database; no login succeeds either way.
  unfoldable pub login : Draw → String → String → String → Bool → Method LoginResult
  login d name password client remember = do
    let normalized = or_invalid (normalize_login platform name)
    let keys = login_keys name client
    blocked ← gets (is_blocked keys d.now)
    if blocked then refuse_blocked d "auth.login" "session" else do
      user ← gets (find_user_by_login normalized d.read_now)
      check_credentials d keys password remember user

  abbrev pub registration_keys : String → List String
  registration_keys client = throttle_key platform settings "registration_client" client ∷ []

  abbrev pub registered : Draw → String → String → AccountCall
  registered d login hash = record {
    id = d.user_id;
    draw = d.grant_id;
    login = login;
    display_name = login;
    password_hash = hash;
    roles = student_only;
    actor_id = none;
    now = d.now;
    editor_expires_at = none;
  }

  unfoldable pub create_student : Draw → String → String → Method LoginResult
  create_student d login password = do
    hash ← lift (hash_password platform d.salt password)
    let call = registered d login hash
    modify (add_account call)
    result ← start_session d false (account_identity call)
    modify (mark_login call.id d.now none)
    audit (
        event d (some call.id) "identity.self_registered" "user" (some call.id) "success"
          (some (("roles", texts ("student" ∷ [])) ∷ [])))
    pure result

  unfoldable pub register : Draw → String → String → String → Method LoginResult
  register d name password client = do
    login ← lift (normalize_login platform name)
    let keys = registration_keys client
    blocked ← gets (is_blocked keys d.now)
    if blocked then refuse_blocked d "identity.self_registration" "user" else do
      register_failure settings.lockout keys d.now
      refuse_login d login
      create_student d login password

  abbrev resolved : Option Principal → Result AuthError Principal
  resolved none = err authentication_required
  resolved (some principal) = ok principal

  unfoldable pub authenticate : Time → Option String → Method Principal
  authenticate now none = raise authentication_required
  authenticate now (some raw_session) =
      if ltb 256 (length (codes raw_session)) then raise authentication_required else do
        principal ← gets (resolve_session (token_hash platform raw_session) now)
        lift (resolved principal)

-- `logout`
unfoldable pub logout : Draw → Principal → Method (Unit {0})
logout d principal = do
  modify (revoke_session principal.session_id d.now)
  audit (
      event d (some principal.user_id) "auth.logout" "session" (some principal.session_id) "success"
        none)
