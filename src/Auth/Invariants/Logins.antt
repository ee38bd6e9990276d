-- ===== src/Auth/Invariants/Logins.antt =====
-- `login`, `register` and `logout` keep every stable invariant, whether they return or raise.
use arduino_component_knowle.Prelude.{String, ◌≡◌, Bool, Option, none, some, List}
use arduino_component_knowle.Exec.{◌>>=◌, modify, ◌>>◌}
use arduino_component_knowle.Exec.Keeps.{
  keeps_rules, Keeps, KeepsAt, KeepsAt-gets, KeepsAt-lift, KeepsAt-modify, KeepsAt-all, KeepsAt-if,
  Keeps-modify,
}
use arduino_component_knowle.Auth.Domain.{Uuid, Time, UserIdentity, Principal, AuthError}
use arduino_component_knowle.Auth.Schema.{Db}
use arduino_component_knowle.Auth.Accounts.{mark_login, find_user_by_login}
use arduino_component_knowle.Auth.Throttle.{is_blocked, register_failure}
use arduino_component_knowle.Auth.Throttle.Lockout.{register_failure-ok}
use arduino_component_knowle.Auth.Invariants.{Invariant, At, IsStable, IsUnused}
use arduino_component_knowle.Auth.Invariants.Frames.{
  register_failure-frame, tables-register_failure, audit-frame, add_session-frame,
  clear_failures-frame, revoke_session-frame,
}
use arduino_component_knowle.Auth.Platform.{Platform, Settings}
use arduino_component_knowle.Auth.Service.Common.{Draw, Method}
use arduino_component_knowle.Auth.Service.Reads.{KeepsAt-refuse_login}
use arduino_component_knowle.Auth.Service.Login.{
  start_session, refuse_blocked, fail_login, complete_login, check_credentials, login,
  create_student, register, logout, registration_keys,
}

module _ {P : Invariant} (stable : IsStable P) where
  mark_login-frame :
      (user_id : Uuid) (now : Time) (hash : Option String)
      → Keeps {E = AuthError} (At P) (modify (mark_login user_id now hash))
  mark_login-frame user_id now hash =
      Keeps-modify (mark_login user_id now hash) (stable.on_mark_login user_id now hash)

  module _ (platform : Platform) (settings : Settings) (d : Draw) where
    start_session-frame :
        (remember : Bool) (user : UserIdentity)
        → Keeps (At P) (start_session platform settings d remember user)
    unfolding start_session
    start_session-frame remember user = search (keeps_rules, add_session-frame P)

    refuse_blocked-frame :
        (action object_type : String)
        → Keeps (At P) (refuse_blocked platform settings d action object_type)
    unfolding refuse_blocked
    refuse_blocked-frame action object_type = search (keeps_rules, audit-frame P)

    fail_login-frame :
        (keys : List String) (actor : Option Uuid)
        → Keeps (At P) (fail_login platform settings d keys actor)
    unfolding fail_login
    fail_login-frame keys actor = search (keeps_rules, audit-frame P, register_failure-frame P)

    complete_login-frame :
        (keys : List String) (password : String) (remember : Bool) (user : UserIdentity)
        → Keeps (At P) (complete_login platform settings d keys password remember user)
    unfolding complete_login
    complete_login-frame keys password remember user =
        search
          (
            keeps_rules,
            audit-frame P,
            clear_failures-frame P,
            start_session-frame,
            mark_login-frame,
          )
          depth 9

    check_credentials-frame :
        (keys : List String) (password : String) (remember : Bool) (user : Option UserIdentity)
        → Keeps (At P) (check_credentials platform settings d keys password remember user)
    unfolding check_credentials
    check_credentials-frame keys password remember none = fail_login-frame keys none
    check_credentials-frame keys password remember (some user) =
        search (keeps_rules, complete_login-frame, fail_login-frame)

    pub login-Keeps :
        (name password client : String) (remember : Bool)
        → Keeps (At P) (login platform settings d name password client remember)
    unfolding login
    login-Keeps name password client remember =
        search (keeps_rules, refuse_blocked-frame, check_credentials-frame)

    create_student-keeps :
        (login password : String) {s : Db}
        → IsUnused d.user_id s
        → find_user_by_login login d.read_now s ≡ none
        → KeepsAt (At P) s (create_student platform settings d login password)
    unfolding create_student
    create_student-keeps login password {s} fresh absent = KeepsAt-lift _ _ λ hash long.
        KeepsAt-modify _ _ (stable.on_add_account _ d.read_now s fresh absent)
          (search (keeps_rules, audit-frame P, start_session-frame, mark_login-frame))

    IsUnused-after :
        (keys : List String) (now : Time) {s : Db}
        → IsUnused d.user_id s
        → IsUnused d.user_id (register_failure settings.lockout keys now s).1
    IsUnused-after keys now {s} fresh =
        let same = tables-register_failure settings.lockout keys now s in
        record { no_user = rw (same.0) fresh.no_user; no_grant = rw (same.1) fresh.no_grant }

    register_failure-keeps :
        {A : Type 0} {k : Method A} {s : Db} (keys : List String) (now : Time)
        → KeepsAt (At P) (register_failure settings.lockout keys now s).1 k
        → KeepsAt (At P) s (register_failure settings.lockout keys now >> k)
    unfolding ◌>>=◌
    register_failure-keeps {k = k} {s} keys now h = record {
      at = λ p.
          rw (register_failure-ok settings.lockout keys now s)
            (h.at ((register_failure-frame P settings.lockout keys now).at s p));
    }

    pub register-Keeps :
        (name password client : String) {s : Db}
        → IsUnused d.user_id s
        → KeepsAt (At P) s (register platform settings d name password client)
    unfolding register
    register-Keeps name password client {s} fresh = KeepsAt-lift _ _ λ login valid.
        KeepsAt-gets (is_blocked (registration_keys platform settings client) d.now) _ (
          KeepsAt-if _ _ _
            (KeepsAt-all _ (refuse_blocked-frame "identity.self_registration" "user"))
            (register_failure-keeps _ d.now (
              KeepsAt-refuse_login d login _ λ absent.
                create_student-keeps login password
                  (IsUnused-after (registration_keys platform settings client) d.now fresh)
                  absent)))

  pub logout-Keeps : (d : Draw) (principal : Principal) → Keeps (At P) (logout d principal)
  unfolding logout
  logout-Keeps d principal = search (keeps_rules, audit-frame P, revoke_session-frame P)
