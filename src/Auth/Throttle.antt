-- ===== src/Auth/Throttle.antt =====
-- `is_blocked`, `register_failure` and `clear_failures` of
-- src/arduino_component_kb/auth/repository.py: the persistent brute-force limits.
pub mod Rows
pub mod Blocked
pub mod Lockout
pub mod Concurrent
use arduino_component_knowle.Prelude.{
  ℕ, String, Bool, false, ◌+◌, ◌*◌, ◌&&◌, not, Option, none, some, List, [], ◌∷◌, ◌++◌, any, find,
  count_rows, update_where, delete_where, ltb, leb, ◌==◌, str_eq, if◌then◌else◌,
}
use arduino_component_knowle.Exec.{Exec, pure, raise, gets, modify, ◌>>=◌, ◌>>◌}
use arduino_component_knowle.Auth.Domain.{Time, AuthError, runtime_error}
use arduino_component_knowle.Auth.Schema.{AuthThrottle, Db}

-- `timedelta(seconds=n)`
abbrev pub seconds : ℕ → Time
seconds n = n * 1000000

abbrev pub minutes : ℕ → Time
minutes n = n * 60000000

abbrev pub days : ℕ → Time
days n = n * 86400000000

abbrev pub has_key : String → AuthThrottle → Bool
has_key key row = str_eq key row.key_hash

-- `key_hash IN (...)`
abbrev pub key_in : List String → AuthThrottle → Bool
key_in keys row = any (λ key. str_eq key row.key_hash) keys

abbrev pub blocked_at : Time → Option Time → Bool
blocked_at now none = false
blocked_at now (some until) = ltb now until

unfoldable pub is_blocked : List String → Time → Db → Bool
is_blocked keys now db =
    not (count_rows (λ row. key_in keys row && blocked_at now row.blocked_until) db.throttles == 0)

-- `INSERT ... ON CONFLICT DO NOTHING`
unfoldable pub insert_throttle : String → Time → List AuthThrottle → List AuthThrottle
insert_throttle key now rows =
    if any (has_key key) rows
    then rows
    else rows
      ++ record {
        key_hash = key;
        failure_count = 0;
        window_started_at = now;
        blocked_until = none;
        updated_at = now;
      }
        ∷ []

-- The policy of `Settings`.
pub record LockoutPolicy : Type 0 where
  pub window_seconds : ℕ
  pub failure_limit : ℕ
  pub block_seconds : ℕ

-- What one failure does to the row of its key.
unfoldable pub count_failure : LockoutPolicy → Time → AuthThrottle → AuthThrottle
count_failure policy now throttle =
    let window_expired = leb (throttle.window_started_at + seconds policy.window_seconds) now in
    let fresh =
      if window_expired
      then record throttle { failure_count = 0; window_started_at = now; blocked_until = none }
      else throttle in
    let counted = record fresh { failure_count = fresh.failure_count + 1; updated_at = now } in
    if leb policy.failure_limit counted.failure_count
    then record counted { blocked_until = some (now + seconds policy.block_seconds) }
    else counted

abbrev pub set_throttles : List AuthThrottle → Db → Db
set_throttles rows db = record db { throttles = rows }

-- `throttle is None` raises; any row that is found is updated in place.
pub update_found :
    LockoutPolicy → Time → String → Option AuthThrottle → Exec AuthError Db (Unit {0})
unfolding count_failure
update_found policy now key none = raise runtime_error
update_found policy now key (some throttle) =
    modify
      (λ db. set_throttles (update_where (has_key key) (count_failure policy now) db.throttles) db)

-- The body of the loop of `register_failure`. `others` is what other transactions commit between the
-- INSERT, which takes no lock on a row that is there, and the SELECT FOR UPDATE.
unfoldable pub register_key_amid :
    (List AuthThrottle → List AuthThrottle)
    → LockoutPolicy
    → Time
    → String
    → Exec AuthError Db (Unit {0})
unfolding insert_throttle update_found ◌>>=◌
register_key_amid others policy now key = do
  modify (λ db. set_throttles (insert_throttle key now db.throttles) db)
  modify (λ db. set_throttles (others db.throttles) db)
  throttle ← gets (λ db. find (has_key key) db.throttles)
  update_found policy now key throttle

-- The body where no other transaction commits in between.
unfoldable pub register_key : LockoutPolicy → Time → String → Exec AuthError Db (Unit {0})
unfolding register_key_amid
register_key policy now key = register_key_amid (λ rows. rows) policy now key

-- The loop, under the same assumption.
unfoldable pub register_failure : LockoutPolicy → List String → Time → Exec AuthError Db (Unit {0})
register_failure policy [] now = pure tt
register_failure policy (key ∷ keys) now = do
  register_key policy now key
  register_failure policy keys now

unfoldable pub clear_failures : List String → Db → Db
clear_failures keys db = set_throttles (delete_where (key_in keys) db.throttles) db
