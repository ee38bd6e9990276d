-- ===== src/Auth/Identity/Logins.antt =====
-- The logins of accounts, which `create_user`, `register` and `create_administrator` of
-- src/arduino_component_kb/auth/service.py check under `lock_login`.
use arduino_component_knowle.Prelude.{
  any, find, update_where, Distinct, String, ◌≡◌, refl, Bool, false, Option, none, some, List, [],
  ◌∷◌, ◌++◌, arith, str_eq, eq_iff,
}
use arduino_component_knowle.Auth.Domain.{Time, Uuid, UserStatus}
use arduino_component_knowle.Auth.Schema.{User, UserRole, Db}
use arduino_component_knowle.Auth.Accounts.{
  has_id, has_login, find_user_by_login, with_roles, login_marks, mark_login, set_password,
  disable_account, add_account, account_row,
}
use arduino_component_knowle.Auth.Grants.{set_roles, grant_editor, revoke_editor}
use arduino_component_knowle.Auth.Invariants.{IsStable}
use arduino_component_knowle.Auth.Invariants.Traces.{Reach, Reach-keeps}
use arduino_component_knowle.Auth.Platform.{Platform, Settings}

abbrev pub same_login : User → User → Bool
same_login u v = str_eq u.login v.login

abbrev pub LoginsDistinct : List User → List UserRole → Type 0
LoginsDistinct users grants = Distinct same_login users

module _ (user_id : Uuid) (f : User → User) (same : (u : User) → (f u).login ≡ u.login) where
  any-changed :
      (v : User) (users : List User)
      → any (same_login v) (update_where (has_id user_id) f users) ≡ any (same_login v) users
  any-changed v [] = refl
  any-changed v (u ∷ users) = ground (arith, any-changed v users, same u)

  changed-Distinct :
      (users : List User)
      → Distinct same_login users
      → Distinct same_login (update_where (has_id user_id) f users)
  changed-Distinct [] d = tt
  changed-Distinct (u ∷ users) d =
      ground (arith, changed-Distinct users, any-changed u users, any-changed (f u) users, same u)

absent_login :
    (login : String) (users : List User)
    → find (has_login login) users ≡ none
    → any (has_login login) users ≡ false
absent_login login [] h = refl
absent_login login (u ∷ users) h = ground (arith, absent_login login users)

append-any :
    (v u : User) (users : List User)
    → any (same_login v) users ≡ false
    → same_login v u ≡ false
    → any (same_login v) (users ++ u ∷ []) ≡ false
append-any v u [] h k = ground arith
append-any v u (x ∷ users) h k = ground (arith, append-any v u users)

append-Distinct :
    (users : List User) (u : User)
    → any (has_login u.login) users ≡ false
    → Distinct same_login users
    → Distinct same_login (users ++ u ∷ [])
append-Distinct [] u h d = (refl, tt)
append-Distinct (v ∷ users) u h d = ground (
  arith,
  append-Distinct users u,
  append-any v u users,
  eq_iff u.login v.login,
  eq_iff v.login u.login,
)

find-none : (now : Time) (s : Db) (o : Option User) → with_roles now s o ≡ none → o ≡ none
find-none now s none e = refl
find-none now s (some u) e = cc

login-login_marks :
    (now : Time) (hash : Option String) (u : User) → (login_marks now hash u).login ≡ u.login
login-login_marks now none u = refl
login-login_marks now (some h) u = refl

LoginsDistinct-IsStable : IsStable LoginsDistinct
unfolding mark_login set_password disable_account set_roles grant_editor revoke_editor add_account
    find_user_by_login
LoginsDistinct-IsStable = record {
  on_mark_login = λ user_id now hash s.
      changed-Distinct user_id (login_marks now hash) (login-login_marks now hash) s.users;
  on_set_password = λ user_id hash now s.
      changed-Distinct user_id (λ u. record u { password_hash = hash; updated_at = now })
        (λ u. refl) s.users;
  on_disable_account = λ user_id read_now now s user found guard.
      changed-Distinct user_id (λ u. record u { status = UserStatus.disabled; updated_at = now })
        (λ u. refl) s.users;
  on_set_roles = λ draw user_id actor read_now now s user roles expires_at found guard h. h;
  on_grant_editor = λ draw user_id actor now expires_at s h. h;
  on_revoke_editor = λ user_id now s h. h;
  on_add_account = λ call read_now s fresh absent. append-Distinct s.users (account_row call) (
      absent_login call.login s.users
        (find-none read_now s (find (has_login call.login) s.users) absent));
}

-- From a database where logins are distinct, any committed requests lead to one where they are:
-- no registration or account creation takes a login that is in use.
pub logins_differ :
    (platform : Platform) (settings : Settings) {s t : Db}
    → Distinct same_login s.users
    → Reach platform settings s t
    → Distinct same_login t.users
logins_differ platform settings h r = Reach-keeps platform settings LoginsDistinct-IsStable h r
