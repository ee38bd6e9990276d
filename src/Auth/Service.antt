-- ===== src/Auth/Service.antt =====
-- src/arduino_component_kb/auth/service.py: `AuthService`, by the purpose of its methods.
pub mod Common
pub mod Reads
pub mod Login
pub mod Admin
