-- ===== src/Auth/Platform.antt =====
-- What src/arduino_component_kb/auth takes from elsewhere, as the fields of one record: the Unicode
-- database, argon2-cffi, `hashlib`, `hmac` and `datetime.isoformat`. On top of it stand
-- `normalize_login` (auth/domain.py), `PasswordManager` (auth/passwords.py), `token_hash` and
-- `_throttle_key` (auth/service.py).
use Prim.Native.String.{◌++◌}
use arduino_component_knowle.Prelude.{
  ℕ, String, Bool, ◌&&◌, ◌||◌, ◌≤◌, Option, none, some, length, all, leb, ◌==◌, codes,
  if◌then◌else◌,
}
use arduino_component_knowle.Exec.{Result, ok, err}
use arduino_component_knowle.Auth.Domain.{Time, AuthError, invalid_credentials, password_policy}
use arduino_component_knowle.Auth.Throttle.{LockoutPolicy}

-- A `datetime`: whether it has a time zone, and the instant.
pub record Datetime : Type 0 where
  pub aware : Bool
  pub instant : Time

pub record Platform : Type 0 where
  -- `unicodedata.normalize("NFKC", value).strip().casefold()`
  pub canonical : String → String
  pub strip : String → String
  -- `\w` under `re.UNICODE`
  pub is_word : ℕ → Bool
  -- `PasswordHasher.hash`, with the salt that it draws
  pub argon2_hash : ℕ → String → String
  -- `PasswordHasher.verify`, `false` where it raises
  pub argon2_verify : String → String → Bool
  pub check_needs_rehash : String → Bool
  pub sha256_hex : String → String
  -- key and message
  pub hmac_sha256_hex : String → String → String
  pub isoformat : Datetime → String
  -- an ISO 8601 text of a datetime is short
  pub isoformat_short : (d : Datetime) → length (codes (isoformat d)) ≤ 200

-- The fields of `Settings` that the service reads.
pub record Settings : Type 0 where
  pub auth_throttle_pepper : String
  pub session_ttl_minutes : ℕ
  pub remembered_session_ttl_days : ℕ
  pub lockout : LockoutPolicy

module _ (platform : Platform) where
  open platform use {canonical, is_word, argon2_hash, argon2_verify, sha256_hex, hmac_sha256_hex}

  -- `[\w.@+-]`
  is_login_char : ℕ → Bool
  is_login_char c = is_word c || c == b'.' || c == b'@' || c == b'+' || c == b'-'

  unfoldable pub normalize_login : String → Result AuthError String
  unfolding is_login_char
  normalize_login value =
      let normalized = canonical value in
      let cs = codes normalized in
      if leb 3 (length cs) && leb (length cs) 100 && all is_login_char cs
      then ok normalized
      else err invalid_credentials

  -- `PasswordManager.validate` and `hash`
  unfoldable pub hash_password : ℕ → String → Result AuthError String
  hash_password salt password =
      if leb 12 (length (codes password)) && leb (length (codes password)) 128
      then ok (argon2_hash salt password)
      else err password_policy

  abbrev or_timing_hash : ℕ → Option String → String
  or_timing_hash salt none = argon2_hash salt "timing-only-placeholder-value"
  or_timing_hash salt (some String.[]) = argon2_hash salt "timing-only-placeholder-value"
  or_timing_hash salt (some encoded) = encoded

  -- `PasswordManager.verify`
  unfoldable pub verify_password : ℕ → Option String → String → Bool
  verify_password salt encoded password = argon2_verify (or_timing_hash salt encoded) password

  abbrev pub token_hash : String → String
  token_hash value = sha256_hex value

  -- `_throttle_key`
  abbrev pub throttle_key : Settings → String → String → String
  throttle_key settings kind value =
      hmac_sha256_hex settings.auth_throttle_pepper (kind ++ ":" ++ value)
