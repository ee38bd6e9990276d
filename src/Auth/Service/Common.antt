-- ===== src/Auth/Service/Common.antt =====
-- What the methods of `AuthService` (src/arduino_component_kb/auth/service.py) share. A method is an
-- action on the database session; the clock readings and the random material that it draws are in
-- its arguments.
use arduino_component_knowle.Prelude.{
  ℕ, String, Bool, true, false, ◌&&◌, ◌||◌, not, Option, none, some, List, [], ◌∷◌, ◌++◌, leb,
  if◌then◌else◌, is_some,
}
use arduino_component_knowle.Exec.{Result, ok, err, Exec, lift, gets, raise_if, ◌>>=◌}
use arduino_component_knowle.Auth.Domain.{
  Time, Uuid, Role, RoleSet, no_roles, with_role, any_role, UserIdentity, AuthError,
  authentication_required, user_already_exists, role_grant_policy,
}
use arduino_component_knowle.Auth.Schema.{Db, Details}
use arduino_component_knowle.Auth.Audit.{AuditCall}
use arduino_component_knowle.Auth.Accounts.{find_user_by_login, find_user}
use arduino_component_knowle.Auth.Platform.{Datetime}

-- What one request draws: its clock readings (`now` of the service, `read_now` of a repository
-- read), identifiers, salts and tokens.
pub record Draw : Type 0 where
  pub now : Time
  pub read_now : Time
  pub user_id : Uuid
  pub grant_id : Role → Uuid
  pub session_id : Uuid
  pub audit_id : Uuid
  pub salt : ℕ
  pub timing_salt : ℕ
  pub raw_session : String
  pub raw_csrf : String
  pub request_id : Option String

abbrev pub Method : Type 0 → Type 0
Method A = Exec AuthError Db A

-- the arguments of an audit call that the methods share
abbrev pub event :
    Draw → Option Uuid → String → String → Option Uuid → String → Option Details → AuditCall
event d actor action object_type object_id outcome details = record {
  id = d.audit_id;
  now = d.now;
  actor_user_id = actor;
  action = action;
  object_type = object_type;
  object_id = object_id;
  request_id = d.request_id;
  outcome = outcome;
  details = details;
  actor_type = none;
}

abbrev pub student_only : RoleSet
student_only = with_role Role.student no_roles

-- `roles or frozenset({Role.STUDENT})`
abbrev pub or_student : RoleSet → RoleSet
or_student roles = if any_role roles then roles else student_only

-- `sorted(role.value for role in roles)`
abbrev pub sorted_values : RoleSet → List String
sorted_values r =
    (if r.administrator then "administrator" ∷ [] else [])
    ++ (if r.editor then "editor" ∷ [] else [])
    ++ (if r.student then "student" ∷ [] else [])
    ++ (if r.teacher then "teacher" ∷ [] else [])

abbrev pub instant_of : Option Datetime → Option Time
instant_of none = none
instant_of (some d) = some d.instant

-- `editor_expires_at.tzinfo is None or editor_expires_at <= now`
abbrev pub is_stale : Time → Option Datetime → Bool
is_stale now none = false
is_stale now (some d) = not d.aware || leb d.instant now

abbrev differ : Bool → Bool → Bool
differ true b = not b
differ false b = b

unfoldable pub validate_role_lifetime :
    RoleSet → Option Datetime → Time → Result AuthError (Unit {0})
validate_role_lifetime roles editor_expires_at now =
    if differ roles.editor (is_some editor_expires_at)
    then err role_grant_policy
    else if roles.editor && not (roles.student || roles.teacher || roles.administrator)
    then err role_grant_policy
    else if is_stale now editor_expires_at
    then err role_grant_policy
    else ok tt

-- `user is None`
abbrev or_raise : {A : Type 0} → AuthError → Option A → Result AuthError A
or_raise e none = err e
or_raise e (some a) = ok a

-- `find_user_by_login(normalized) is not None` raises
unfoldable pub refuse_login : Draw → String → Method (Unit {0})
refuse_login d login = do
  user ← gets (find_user_by_login login d.read_now)
  raise_if (is_some user) user_already_exists

unfoldable pub existing_user : Draw → Uuid → Method UserIdentity
existing_user d user_id = do
  user ← gets (find_user user_id d.read_now)
  lift (or_raise authentication_required user)
