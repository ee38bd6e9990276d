-- ===== src/Auth/Administrators.antt =====
-- The invariant behind `LastAdministratorError` (src/arduino_component_kb/auth): the tables keep
-- their constraints, and there is an active administrator.
pub mod Roles
pub mod Editors
pub mod Accounts
pub mod Stable
use arduino_component_knowle.Prelude.{All, ◌≤◌, List}
use arduino_component_knowle.Auth.Schema.{Db, User}
use arduino_component_knowle.Auth.Grants.{joined_rows}
use arduino_component_knowle.Auth.Grants.Current.{OneGrant, ExpiryFits, Grants}
use arduino_component_knowle.Auth.Grants.Joined.{IdsDistinct}

-- The primary key of `users`, the unique index of current grants, and the expiry check.
pub record SoundTables (users : List User) (grants : Grants) : Type 0 where
  pub users_distinct : IdsDistinct users
  pub one_grant : OneGrant grants
  pub expiry : All ExpiryFits grants

abbrev pub IsSound : Db → Type 0
IsSound db = SoundTables db.users db.grants

pub record AdministeredTables (users : List User) (grants : Grants) : Type 0 where
  pub sound : SoundTables users grants
  pub some_administrator : 1 ≤ joined_rows grants users

-- The constraints hold, and `count_active_administrators` is not 0.
abbrev pub IsAdministered : Db → Type 0
IsAdministered db = AdministeredTables db.users db.grants
