-- ===== src/Auth/LoginOutcome.antt =====
-- When `AuthService.login` (auth/service.py) succeeds, and what a failure leaves.
use arduino_component_knowle.Prelude.{
  length, codes, String, ◌≡◌, refl, ap, ◌∙◌, inl, inr, Bool, true, false, not, ◌&&◌, ◌||◌, Option,
  none, some, List, arith, leb, Bool-cases,
}
use arduino_component_knowle.Exec.{Result, ok, err, ◌>>=◌, ◌>>◌, pure}
use arduino_component_knowle.Auth.Domain.{
  Uuid, UserIdentity, LoginResult, is_active, invalid_credentials, too_many_attempts,
}
use arduino_component_knowle.Auth.Schema.{Db}
use arduino_component_knowle.Auth.Audit.{audit, is_label, safe_audit_details}
use arduino_component_knowle.Auth.Accounts.{find_user_by_login, mark_login, add_session}
use arduino_component_knowle.Auth.Throttle.{is_blocked, register_failure, clear_failures}
use arduino_component_knowle.Auth.Throttle.Lockout.{register_failure-ok}
use arduino_component_knowle.Auth.Platform.{
  Platform, Settings, normalize_login, verify_password, hash_password,
}
use arduino_component_knowle.Auth.Service.Common.{Draw, event}
use arduino_component_knowle.Auth.Service.Login.{
  login, login_keys, or_invalid, refuse_blocked, fail_login, check_credentials, complete_login,
  start_session, session_call,
}

abbrev pub is_ok : {E A : Type 0} → Result E A → Bool
is_ok (ok a) = true
is_ok (err e) = false

login_audit-ok :
    (d : Draw) (actor object_id : Option Uuid) (outcome : String) (s : Db)
    → is_label outcome ≡ true
    → (audit (event d actor "auth.login" "session" object_id outcome none) s).0 ≡ ok tt
unfolding audit ◌>>=◌ safe_audit_details
login_audit-ok d none object_id outcome s h = rw h
login_audit-ok d (some a) object_id outcome s h = rw h

module _ (platform : Platform) (settings : Settings) (d : Draw) where
  fail_login-err :
      (keys : List String) (actor : Option Uuid) (s : Db)
      → (fail_login platform settings d keys actor s).0 ≡ err invalid_credentials
  unfolding fail_login ◌>>=◌ is_label
  fail_login-err keys actor s = rw (
    register_failure-ok settings.lockout keys d.now s,
    login_audit-ok d actor none "failed" (register_failure settings.lockout keys d.now s).1 refl,
  )

  refuse_blocked-err :
      (s : Db)
      → (refuse_blocked platform settings d "auth.login" "session" s).0 ≡ err too_many_attempts
  unfolding refuse_blocked ◌>>=◌ is_label
  refuse_blocked-err s = rw (login_audit-ok d none none "blocked" s refl)

  -- `needs_rehash` asks for a new hash, which the password policy may refuse.
  abbrev rehashes : String → UserIdentity → Bool
  rehashes password user =
      not (platform.check_needs_rehash user.password_hash)
      || (leb 12 (length (codes password)) && leb (length (codes password)) 128)

  complete_login-ok :
      (keys : List String) (password : String) (remember : Bool) (user : UserIdentity) (s : Db)
      → is_ok (complete_login platform settings d keys password remember user s).0
        ≡ rehashes password user
  unfolding complete_login start_session hash_password ◌>>=◌ is_label
  complete_login-ok keys password remember user s =
      elim (Bool-cases (platform.check_needs_rehash user.password_hash)) [
        | inr e ↦ rw e (
            ap is_ok (
              audited _ (
                mark_login user.id d.now none (
                  add_session user.id (session_call platform settings d remember)
                    (clear_failures keys s)))))
        | inl e ↦
            elim (Bool-cases
              (leb 12 (length (codes password)) && leb (length (codes password)) 128)) [
                | inl l ↦
                    rw (e, l)
                      (ap is_ok (
                        audited _ (
                          mark_login user.id d.now (some (platform.argon2_hash d.salt password)) (
                            add_session user.id (session_call platform settings d remember)
                              (clear_failures keys s)))))
                | inr l ↦ rw (e, l)
              ]
      ]
    where
      audited :
          (r : LoginResult) (t : Db)
          → ((audit
                  (event d (some user.id) "auth.login" "session" (some d.session_id) "success" none)
                >> pure r)
              t).0
            ≡ ok r
      audited r t = rw (login_audit-ok d (some user.id) (some d.session_id) "success" t refl)

  abbrev credentials_ok : String → Option UserIdentity → Bool
  credentials_ok password none = false
  credentials_ok password (some user) =
      verify_password platform d.timing_salt (some user.password_hash) password
      && is_active user.status
      && rehashes password user

  check-ok :
      (keys : List String) (password : String) (remember : Bool) (o : Option UserIdentity) (s : Db)
      → is_ok (check_credentials platform settings d keys password remember o s).0
        ≡ credentials_ok password o
  unfolding check_credentials
  check-ok keys password remember none s = rw (fail_login-err keys none s)
  check-ok keys password remember (some user) s =
      elim (Bool-cases (
        verify_password platform d.timing_salt (some user.password_hash) password
        && is_active user.status)) [
          | inl e ↦ rw e (complete_login-ok keys password remember user s ∙ ground arith)
          | inr e ↦ rw (e, fail_login-err keys (some user.id) s) (ground arith)
        ]

  -- A login succeeds exactly when neither the account nor the client is blocked, the login finds an
  -- account, its hash verifies the password, it is active, and a hash that must be renewed is of a
  -- password of 12 to 128 characters.
  pub login_succeeds_exactly :
      (name password client : String) (remember : Bool) (s : Db)
      → is_ok (login platform settings d name password client remember s).0 ≡ (
          not (is_blocked (login_keys platform settings name client) d.now s)
          && credentials_ok password (
              find_user_by_login
                (or_invalid platform settings (normalize_login platform name))
                d.read_now
                s))
  unfolding login ◌>>=◌
  login_succeeds_exactly name password client remember s =
      elim (Bool-cases (is_blocked (login_keys platform settings name client) d.now s)) [
        | inl e ↦ rw (e, refuse_blocked-err s)
        | inr e ↦ rw e (check-ok _ password remember _ s)
      ]
