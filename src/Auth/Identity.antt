-- ===== src/Auth/Identity.antt =====
-- What holds of accounts whatever the requests (src/arduino_component_kb/auth).
pub mod Logins
pub mod Disabled
