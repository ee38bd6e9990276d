-- ===== src/Auth/Schema.antt =====
-- src/arduino_component_kb/auth/models.py: the rows of the five tables, and the database session.
-- Timestamps that the code never reads back (`created_at` and the like) are kept where a method
-- writes them.
use arduino_component_knowle.Prelude.{ℕ, String, Bool, Option, List}
use arduino_component_knowle.Auth.Domain.{Time, Uuid, Role, UserStatus}

pub record User : Type 0 where
  pub id : Uuid
  pub login : String
  pub display_name : String
  pub password_hash : String
  pub status : UserStatus
  pub created_at : Time
  pub updated_at : Time
  pub last_login_at : Option Time

pub record UserRole : Type 0 where
  pub id : Uuid
  pub user_id : Uuid
  pub role : Role
  pub granted_by : Option Uuid
  pub granted_at : Time
  pub expires_at : Option Time
  pub revoked_at : Option Time

pub record AuthSession : Type 0 where
  pub id : Uuid
  pub user_id : Uuid
  pub token_hash : String
  pub csrf_hash : String
  pub created_at : Time
  pub expires_at : Time
  pub last_seen_at : Time
  pub revoked_at : Option Time

pub record AuthThrottle : Type 0 where
  pub key_hash : String
  pub failure_count : ℕ
  pub window_started_at : Time
  pub blocked_until : Option Time
  pub updated_at : Time

-- A value of the `details` dictionary; `other` is any value of another type.
pub data Detail : Type 0 where
  null : Detail
  flag : Bool → Detail
  number : ℕ → Detail
  text : String → Detail
  texts : List String → Detail
  other : Detail

abbrev pub Details : Type 0
Details = List (String × Detail)

pub record AuditEvent : Type 0 where
  pub id : Uuid
  pub occurred_at : Time
  pub actor_user_id : Option Uuid
  pub actor_type : String
  pub action : String
  pub object_type : String
  pub object_id : Option Uuid
  pub request_id : Option String
  pub outcome : String
  pub details : Details

pub record Db : Type 0 where
  pub users : List User
  pub grants : List UserRole
  pub sessions : List AuthSession
  pub throttles : List AuthThrottle
  pub audit_events : List AuditEvent
