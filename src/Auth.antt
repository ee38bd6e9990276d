-- ===== src/Auth.antt =====
-- src/arduino_component_kb/auth: authentication, sessions, roles and audit.
pub mod Domain
pub mod Schema
pub mod Audit
pub mod Throttle
pub mod Grants
pub mod Accounts
pub mod Platform
pub mod Service
pub mod Invariants
pub mod Administrators
pub mod Identity
pub mod SignOut
pub mod LoginOutcome
