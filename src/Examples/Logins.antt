-- ===== src/Examples/Logins.antt =====
-- Logins and lockouts under the theorems.
use arduino_component_knowle.Prelude.{
  ◌≡◌, true, false, [], ◌∷◌, arith, any, str_eq, ◌&&◌, if◌then◌else◌,
}
use arduino_component_knowle.Exec.{ok, err}
use arduino_component_knowle.Auth.Domain.{runtime_error}
use arduino_component_knowle.Auth.Schema.{Db}
use arduino_component_knowle.Auth.Throttle.{is_blocked, has_key, register_key_amid}
use arduino_component_knowle.Auth.Throttle.Concurrent.{cleared, concurrent_clear_raises}
use arduino_component_knowle.Auth.Throttle.Lockout.{failures, lockout_exact}
use arduino_component_knowle.Auth.LoginOutcome.{is_ok, login_succeeds_exactly}
use arduino_component_knowle.Auth.Service.Login.{login, login_keys}
use arduino_component_knowle.Auth.Platform.{normalize_login, verify_password}
use arduino_component_knowle.Auth.Accounts.{find_user_by_login}
use arduino_component_knowle.Examples.Accounts.{platform, settings, draw, db}

-- Five failures in a row block the key until the block has run its time.
lockout_exact_example :
    is_blocked ("key" ∷ []) 900000003 (failures settings.lockout "key" (1 ∷ 2 ∷ 2 ∷ 3 ∷ 4 ∷ []) db)
    ≡ true
lockout_exact_example =
    lockout_exact settings.lockout "key" 1 (2 ∷ 2 ∷ 3 ∷ 4 ∷ []) 900000003 db tt tt (omega arith)

-- The row of the client is there, and a login of the same client clears it.
abbrev tried : Db
tried = failures settings.lockout "client" (1 ∷ []) db

concurrent_clear_raises_example :
    (register_key_amid
      (cleared ("other" ∷ "client" ∷ []) tried.throttles)
      settings.lockout
      5
      "client"
      tried).0
    ≡ (if any (λ k. str_eq k "client") ("other" ∷ "client" ∷ [])
          && any (has_key "client") tried.throttles
        then err runtime_error
        else ok tt)
concurrent_clear_raises_example =
    concurrent_clear_raises settings.lockout 5 "client" ("other" ∷ "client" ∷ []) tried

login_succeeds_exactly_example :
    is_ok (login platform settings draw "root" "correct horse battery" "127.0.0.1" false db).0
    ≡ true
unfolding is_blocked login_keys normalize_login verify_password find_user_by_login
login_succeeds_exactly_example =
    login_succeeds_exactly platform settings draw "root" "correct horse battery" "127.0.0.1" false
      db
